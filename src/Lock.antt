-- ===== src/Lock.antt =====
-- src/lock/index.ts: a lock as a document with a holder and an expiry. Each method is one command
-- and reads its clock once; the clock, in milliseconds, is an argument.
pub mod Laws
pub mod Exclusion
mod Tests
use mongokit.Prelude.{
  ℕ, ◌+◌, String, Bool, true, false, ◌&&◌, Option, none, some, List, [], ◌∷◌, ltb, leb,
  if◌then◌else◌, Outcome, returns, throws,
}
use mongokit.Js.Object.{Object}
use mongokit.Js.Value.{Value, str, date, arr, objects}
use mongokit.Mongo.{Matching, operator}
use mongokit.Mongo.Server.{Server, Update, ServerError, duplicate_key}
use mongokit.Pagination.Cursor.{is_str}

-- `leaseMs > 0 ? leaseMs : defaultLeaseMs`
unfoldable pub lease_of : ℕ → ℕ → ℕ
lease_of default_lease_ms lease_ms = if ltb 0 lease_ms then lease_ms else default_lease_ms

unfoldable pub acquire_filter : String → String → ℕ → Object Value
acquire_filter name holder now =
    ("_id", str name)
    ∷ (
      "$or",
      arr (
          objects
            ((("expiresAt", operator "$lt" (date now)) ∷ []) ∷ (("holder", str holder) ∷ []) ∷ [])),
    )
    ∷ []

unfoldable pub acquire_update : String → ℕ → ℕ → Update
acquire_update holder now expires_at = record {
  set = ("holder", str holder) ∷ ("expiresAt", date expires_at) ∷ [];
  set_on_insert = ("acquiredAt", date now) ∷ [];
  unset = [];
  inc = [];
}

unfoldable pub release_filter : String → String → Object Value
release_filter name holder = ("_id", str name) ∷ ("holder", str holder) ∷ []

pub record LockState : Type 0 where
  pub name : String
  pub holder : Value
  pub expires_at : Value
  pub acquired_at : Value

abbrev pub is_some {ℓ} : {A : Type ℓ} → Option A → Bool
is_some none = false
is_some (some a) = true

-- `doc.expiresAt.getTime() <= Date.now()`
unfoldable pub is_over : ℕ → Value → Bool
is_over now (date t) = leb t now
is_over now v = false

module _ {D : Type 0} {m : Matching D} (server : Server m "_id") where
  open server use {State, at, find_one_and_upsert, find_one_and_delete}

  -- `!!result && result.holder === holderId`, or what the `catch` makes of an error.
  unfoldable pub acquired : String → Outcome ServerError (Option D) → Outcome ServerError Bool
  unfolding is_str
  acquired holder (returns none) = returns false
  acquired holder (returns (some d)) = returns (is_str (m.value_at "holder" d) holder)
  acquired holder (throws duplicate_key) = returns false
  acquired holder (throws ServerError.other) = throws ServerError.other

  unfoldable pub try_acquire :
      ℕ → String → String → ℕ → ℕ → State → Outcome ServerError Bool × State
  try_acquire default_lease_ms name holder lease_ms now s =
      let until = now + lease_of default_lease_ms lease_ms in
      let r =
        find_one_and_upsert (acquire_filter name holder now) (acquire_update holder now until) s in
      (acquired holder r.0, r.1)

  unfoldable pub release : String → String → State → Bool × State
  release name holder s =
      let r = find_one_and_delete (release_filter name holder) s in (is_some r.0, r.1)

  unfoldable pub state_of : String → ℕ → Option D → Option LockState
  state_of name now none = none
  state_of name now (some d) =
      if is_over now (m.value_at "expiresAt" d)
      then none
      else some (record {
        name = name;
        holder = m.value_at "holder" d;
        expires_at = m.value_at "expiresAt" d;
        acquired_at = m.value_at "acquiredAt" d;
      })

  unfoldable pub inspect : String → ℕ → State → Option LockState
  inspect name now s = state_of name now (at name s)
