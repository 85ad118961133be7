-- ===== src/Idempotency/Tests.antt =====
-- Claims on the key "k" in memory.
use mongokit.Prelude.{arith, returns, Option, ◌≡◌, refl, none, some, [], ◌∷◌, str_eq, if◌then◌else◌}
use mongokit.Js.Object.{Object, get, put}
use mongokit.Js.Value.{object, Value, pos, undefined, str, date, fields}
use mongokit.Mongo.Memory.{clause, holds, same, satisfies, satisfies_all}
use mongokit.Mongo.Memory.Order.{below}
use mongokit.Mongo.Memory.Store.{Document, Collection, at, pinned}
use mongokit.Mongo.Memory.Instance.{collection, documents-IsStandard}
use mongokit.Pagination.Cursor.{is_str}
use mongokit.Idempotency.{
  int_suc, busy, stale_filter, reclaim_update, claim_key, claim_found, claim_row, reclaim,
  reclaimed, decide, is_live, defined, count_or, fresh_row, default_options, completed, failed,
  complete_claim, fail_claim, save_claim_progress, expire_claim, release_claim, update_held,
  held_filter, with_optional,
}
use mongokit.Idempotency.Exclusion.{claim_key-excludes}
use mongokit.Idempotency.Laws.{
  Replays, Refused, complete_claim-Replays, fail_claim-Replays, stale_token-Refused,
}

-- In flight under the token "t".
abbrev row : Document
row f =
    if str_eq f "key"
    then str "k"
    else if str_eq f "status"
    then str "in_flight"
    else if str_eq f "leaseToken"
    then str "t"
    else if str_eq f "leaseExpiresAt"
    then date 100
    else undefined

abbrev rows : Collection
rows k = if str_eq k "k" then some row else none

complete_claim-Replays_example :
    Replays
      (collection "key")
      (complete_claim default_options (collection "key") "k" "t" (some (str "receipt")) [] rows).1
      "k"
      (completed (str "receipt"))
unfolding complete_claim update_held held_filter at holds clause satisfies_all satisfies same put
    get fields
complete_claim-Replays_example =
    complete_claim-Replays (collection "key") "k" "t" (str "receipt") [] rows refl refl

fail_claim-Replays_example :
    Replays
      (collection "key")
      (update_held default_options
        (collection "key")
        "k"
        "t"
        []
        (with_optional
          (some (str "declined"))
          "lastError"
          (put "failureCode" (str "E1") (("status", str "failed") ∷ [])))
        rows).1
      "k"
      (failed (str "E1") (str "declined"))
unfolding fail_claim update_held held_filter at holds clause satisfies_all satisfies same put get
    fields
fail_claim-Replays_example =
    fail_claim-Replays (collection "key") "k" "t" "E1" "declined" [] rows _ refl refl refl

abbrev write : Object Value
write = put "lastError" (str "e") (put "failureCode" (str "E1") (("status", str "failed") ∷ []))

-- The token "old" is not the row's.
stale_token-Refused_example :
    Refused
      (collection "key")
      rows
      "k"
      (complete_claim default_options (collection "key") "k" "old" none [] rows)
    × Refused
        (collection "key")
        rows
        "k"
        (update_held default_options (collection "key") "k" "old" [] write rows)
    × Refused
        (collection "key")
        rows
        "k"
        (save_claim_progress default_options (collection "key") "k" "old" (str "p") [] rows)
    × Refused
        (collection "key")
        rows
        "k"
        (expire_claim default_options (collection "key") "k" "old" 7 (some (str "e")) rows)
    × Refused
        (collection "key")
        rows
        "k"
        (release_claim default_options (collection "key") "k" "old" rows)
unfolding at fail_claim with_optional
stale_token-Refused_example =
    stale_token-Refused (collection "key") documents-IsStandard "k" "old" "t" rows
      (pinned "key" "k" row) refl refl refl none (some (str "e")) (str "p") 7 [] "E1"
      (update_held default_options (collection "key") "k" "old" [] write rows) refl

-- The row is taken over at 200 by "n", and "o" comes at 60199.
abbrev taken_over : Collection
taken_over =
    (reclaim default_options (collection "key") "k" "n" 200 60200 row
      ((collection "key").get_or_create (("key", str "k") ∷ [])
        (fresh_row default_options [] "k" "n" 60200) rows).1).1

claim_key-excludes_example :
    (progress : Option Value) × (u : Collection) × (claim_key default_options
        (collection "key")
        "k"
        "o"
        60199
        none
        []
        taken_over
      ≡ returns (busy progress (some (str "n")), u))
    × (at "key" "k" u ≡ at "key" "k" taken_over)
unfolding claim_key claim_found claim_row reclaim reclaimed decide is_live defined count_or
    fresh_row stale_filter reclaim_update at holds clause satisfies_all satisfies same below put get
    fields is_str object int_suc
claim_key-excludes_example =
    claim_key-excludes (collection "key") "k" "n" "o" 200 60199 none none [] [] rows taken_over "n"
      (pos 1) none refl refl (omega arith)
