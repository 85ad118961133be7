-- ===== src/Idempotency.antt =====
-- src/plugins/idempotency-store.plugin.ts: claims on idempotency keys. The clock, in milliseconds,
-- and the random token are arguments of the calls. The key field is unique, as the plugin demands.
pub mod Laws
pub mod Exclusion
mod Tests
use mongokit.Prelude.{
  ℕ, zero, suc, ◌+◌, String, Bool, true, false, not, ◌&&◌, Option, none, some, List, [], ◌∷◌, ltb,
  leb, str_eq, if◌then◌else◌, Outcome, returns, throws, ◌>>◌, throw_if,
}
use mongokit.Js.Object.{Object, put, spread}
use mongokit.Js.Value.{ℤ, pos, negsuc, Value, undefined, null, num, str, date, object, int_lt}
use mongokit.Mongo.{Matching, operator}
use mongokit.Mongo.Server.{Server, Update}
use mongokit.Pagination.Cursor.{is_str}
use mongokit.Lock.{is_some}

-- The options of the plugin, with its defaults filled in.
pub record StoreOptions : Type 0 where
  pub key_field : String
  pub status_field : String
  pub lease_token_field : String
  pub lease_expires_at_field : String
  pub attempts_field : String
  pub progress_field : String
  pub result_field : String
  pub failure_code_field : String
  pub last_error_field : String
  pub in_flight_status : String
  pub succeeded_status : String
  pub failed_status : String
  pub default_lease_ms : ℕ
  pub max_attempts : ℕ

abbrev pub default_options : StoreOptions
default_options = record {
  key_field = "key";
  status_field = "status";
  lease_token_field = "leaseToken";
  lease_expires_at_field = "leaseExpiresAt";
  attempts_field = "attempts";
  progress_field = "progress";
  result_field = "result";
  failure_code_field = "failureCode";
  last_error_field = "lastError";
  in_flight_status = "in_flight";
  succeeded_status = "succeeded";
  failed_status = "failed";
  default_lease_ms = 60000;
  max_attempts = 0;
}

-- `progress` and `leaseToken` are absent where the row has none.
pub data IdempotencyClaim : Type 0 where
  acquired : String → ℤ → Option Value → IdempotencyClaim
  completed : Value → IdempotencyClaim
  failed : Value → Value → IdempotencyClaim
  busy : Option Value → Option Value → IdempotencyClaim
  exhausted : ℤ → Option Value → IdempotencyClaim

pub data StoreError : Type 0 where
  empty_key empty_failure_code : StoreError

unfoldable pub defined : Value → Option Value
defined undefined = none
defined v = some v

-- `(row[attemptsField] as number | undefined) ?? fallback`
unfoldable pub count_or : ℤ → Value → ℤ
count_or fallback (num n) = n
count_or fallback v = fallback

unfoldable pub int_suc : ℤ → ℤ
int_suc (pos n) = pos (suc n)
int_suc (negsuc zero) = pos 0
int_suc (negsuc (suc n)) = negsuc n

-- `leaseExpiresAt && leaseExpiresAt > now`
unfoldable pub is_live : ℕ → Value → Bool
is_live now (date t) = ltb now t
is_live now v = false

abbrev pub or_ms : Option ℕ → ℕ → ℕ
or_ms none d = d
or_ms (some n) d = n

unfoldable pub with_optional : Option Value → String → Object Value → Object Value
with_optional none k o = o
with_optional (some v) k o = put k v o

abbrev pub set_only : Object Value → Update
set_only o = record { set = o; set_on_insert = []; unset = []; inc = [] }

module _ (names : StoreOptions) where
  open names use {
    key_field, status_field, lease_token_field, lease_expires_at_field, attempts_field,
    progress_field, result_field, failure_code_field, last_error_field, in_flight_status,
    succeeded_status, failed_status, default_lease_ms, max_attempts,
  }

  unfoldable pub fresh_row : Object Value → String → String → ℕ → Object Value
  fresh_row seed key token until = put attempts_field (num (pos 1)) (
      put lease_expires_at_field (date until) (
        put lease_token_field (str token)
          (put status_field (str in_flight_status) (put key_field (str key) seed))))

  unfoldable pub stale_filter : String → ℕ → Object Value
  stale_filter key now =
      put lease_expires_at_field (operator "$lte" (date now))
        (put status_field (str in_flight_status) ((key_field, str key) ∷ []))

  unfoldable pub reclaim_update : String → ℕ → Update
  reclaim_update token until = record {
    set = put lease_expires_at_field (date until) ((lease_token_field, str token) ∷ []);
    set_on_insert = [];
    unset = [];
    inc = (attempts_field, pos 1) ∷ [];
  }

  -- The holder's own claim: `{ ...where, key, leaseToken, status: in flight }`.
  unfoldable pub held_filter : String → String → Object Value → Object Value
  held_filter key token where_ =
      put status_field (str in_flight_status)
        (put lease_token_field (str token) (put key_field (str key) where_))

  module _ {D : Type 0} {m : Matching D} (server : Server m key_field) where
    open server use {State, find_one_and_update, get_or_create, delete_many}

    -- What the row that is there decides, before a re-acquisition is tried: the claim, or the
    -- number of attempts and the progress to go on with.
    unfoldable pub decide : ℕ → D → Option IdempotencyClaim
    decide now row =
        let progress = defined (m.value_at progress_field row) in
        let attempts = count_or (pos 1) (m.value_at attempts_field row) in
        if is_str (m.value_at status_field row) succeeded_status
        then some (completed (m.value_at result_field row))
        else if is_str (m.value_at status_field row) failed_status
        then some (failed (m.value_at failure_code_field row) (m.value_at last_error_field row))
        else if is_live now (m.value_at lease_expires_at_field row)
        then some (busy progress (defined (m.value_at lease_token_field row)))
        else if ltb 0 max_attempts && not (int_lt attempts (pos max_attempts))
        then some (exhausted attempts progress)
        else none

    -- The reply to the re-acquisition; without a document, another caller won it.
    unfoldable pub reclaimed : String → D → Option D → IdempotencyClaim
    reclaimed token row none = busy (defined (m.value_at progress_field row)) none
    reclaimed token row (some rec) =
        let attempts = count_or (pos 1) (m.value_at attempts_field row) in
        acquired token (count_or (int_suc attempts) (m.value_at attempts_field rec))
          (defined (m.value_at progress_field rec))

    unfoldable pub reclaim : String → String → ℕ → ℕ → D → State → IdempotencyClaim × State
    reclaim key token now until row s =
        let r = find_one_and_update (stale_filter key now) (reclaim_update token until) s in
        (reclaimed token row r.0, r.1)

    unfoldable pub claim_row :
        String → String → ℕ → ℕ → D → Option IdempotencyClaim → State → IdempotencyClaim × State
    claim_row key token now until row (some c) s = (c, s)
    claim_row key token now until row none s = reclaim key token now until row s

    unfoldable pub claim_found :
        String → String → ℕ → ℕ → D × Bool → State → IdempotencyClaim × State
    claim_found key token now until (row, true) s = (acquired token (pos 1) none, s)
    claim_found key token now until (row, false) s =
        claim_row key token now until row (decide now row) s

    unfoldable pub claim_key :
        String
        → String
        → ℕ
        → Option ℕ
        → Object Value
        → State
        → Outcome StoreError (IdempotencyClaim × State)
    claim_key key token now lease_ms seed s =
        let until = now + or_ms lease_ms default_lease_ms in
        let r = get_or_create ((key_field, str key) ∷ []) (fresh_row seed key token until) s in
        throw_if (str_eq key "") empty_key >> returns (claim_found key token now until r.0 r.1)

    unfoldable pub update_held :
        String → String → Object Value → Object Value → State → Bool × State
    update_held key token where_ set s =
        let r = find_one_and_update (held_filter key token where_) (set_only set) s in
        (is_some r.0, r.1)

    unfoldable pub save_claim_progress :
        String → String → Value → Object Value → State → Bool × State
    save_claim_progress key token progress where_ s =
        update_held key token where_ ((progress_field, progress) ∷ []) s

    unfoldable pub complete_claim :
        String → String → Option Value → Object Value → State → Bool × State
    complete_claim key token result where_ s =
        update_held key token where_
          (with_optional result result_field ((status_field, str succeeded_status) ∷ [])) s

    unfoldable pub fail_claim :
        String
        → String
        → String
        → Option Value
        → Object Value
        → State
        → Outcome StoreError (Bool × State)
    fail_claim key token failure_code error where_ s =
        throw_if (str_eq failure_code "") empty_failure_code
        >> returns (
            update_held key token where_
              (with_optional error last_error_field (
                put failure_code_field (str failure_code) ((status_field, str failed_status) ∷ [])))
              s)

    unfoldable pub release_claim : String → String → State → Bool × State
    release_claim key token s = let r = delete_many (held_filter key token []) s in (ltb 0 r.0, r.1)

    unfoldable pub expire_claim : String → String → ℕ → Option Value → State → Bool × State
    expire_claim key token now error s =
        update_held key token []
          (with_optional error last_error_field ((lease_expires_at_field, date now) ∷ [])) s
