-- ===== src/Aggregate/Keyset.antt =====
-- src/actions/aggregate-ir/keyset.ts: the `$match` stage behind a cursor, for a sort whose keys have
-- their own directions. The text of cursors is @classytic/repo-core's; here a cursor is decoded.
pub mod Behind
use mongokit.Prelude.{String, Bool, true, false, Option, none, some, List, [], ◌∷◌, if◌then◌else◌}
use mongokit.Js.Object.{Object, get, put}
use mongokit.Js.Value.{ℤ, Value, undefined, null, arr, objects, int_eq}
use mongokit.Mongo.{operator}
use mongokit.Pagination.Sort.{SortSpec, ascending}

-- `v ?? null`
unfoldable pub or_null : Option Value → Value
or_null none = null
or_null (some undefined) = null
or_null (some v) = v

-- `tailDir === 1 ? '$gt' : '$lt'`
unfoldable pub tail_op : ℤ → String
tail_op d = if int_eq d ascending then "$gt" else "$lt"

-- One branch for each key: the equalities on the keys before it, and behind the cursor in its own.
unfoldable pub branches : Object Value → Object Value → SortSpec → List (Object Value)
unfolding or_null tail_op
branches cursor equal [] = []
branches cursor equal ((key, d) ∷ sort) =
    let value = or_null (get key cursor) in
    put key (operator (tail_op d) value) equal ∷ branches cursor (put key value equal) sort

unfoldable pub match_of : List (Object Value) → Option (Object Value)
match_of [] = none
match_of (b ∷ []) = some b
match_of bs = some (("$or", arr (objects bs)) ∷ [])

unfoldable pub build_keyset_predicate : SortSpec → Object Value → Option (Object Value)
unfolding branches match_of
build_keyset_predicate sort cursor = match_of (branches cursor [] sort)
