-- ===== src/Pagination/Filter.antt =====
-- `buildKeysetFilter` of src/pagination/utils/filter.ts.
pub mod Semantics
pub mod Behind
pub mod Overwritten
use mongokit.Prelude.{
  String, Bool, true, false, ◌&&◌, Option, none, some, List, [], ◌∷◌, length, leb, if◌then◌else◌,
}
use mongokit.Js.Object.{Object, get, put, keys}
use mongokit.Js.Value.{ℤ, Value, undefined, null, arr, int_eq, objects}
use mongokit.Mongo.{operator}
use mongokit.Pagination.Sort.{SortSpec, ascending, non_id}

abbrev pub Filter : Type 0
Filter = Object Value

-- `o[k]`, where an absent key reads as undefined.
unfoldable pub read : Object Value → String → Value
read o k = elim (get k o) [ none ↦ undefined | some v ↦ v ]

unfoldable pub is_direction_up : Option ℤ → Bool
is_direction_up none = false
is_direction_up (some d) = int_eq d ascending

-- `direction === 1 ? '$gt' : '$lt'`
unfoldable pub operator_of : Option ℤ → String
unfolding is_direction_up
operator_of d = if is_direction_up d then "$gt" else "$lt"

unfoldable pub is_nullish : Value → Bool
is_nullish undefined = true
is_nullish null = true
is_nullish _ = false

-- `sort[field] ?? sort[sortFields[0]]`
unfoldable pub direction_or : Option ℤ → Option ℤ → Option ℤ
direction_or (some d) e = some d
direction_or none e = e

-- `{ ...base, $or: conditions }`
unfoldable pub with_or : Filter → List Filter → Filter
with_or base conditions = put "$or" (arr (objects conditions)) base

-- The path for at most one field beside `_id`, on its primary field.
unfoldable pub single_field_filter : Filter → String → Option ℤ → Value → Value → Filter
unfolding is_nullish is_direction_up operator_of with_or
single_field_filter base primary direction value id =
    if is_nullish value
    then (if is_direction_up direction
        then with_or base (
            put "_id" (operator "$gt" id) ((primary, null) ∷ [])
            ∷ ((primary, operator "$ne" null) ∷ [])
            ∷ [])
        else put "_id" (operator "$lt" id) (put primary null base))
    else with_or base (
        ((primary, operator (operator_of direction) value) ∷ [])
        ∷ put "_id" (operator (operator_of direction) id) ((primary, value) ∷ [])
        ∷ [])

-- The loop over all fields: `equal` is the equality on the fields before, one condition a field.
unfoldable pub cascade :
    SortSpec → Option ℤ → Object Value → Object Value → List String → List Filter
cascade sort first all_values equal [] = []
cascade sort first all_values equal (field ∷ fields) =
    put field (operator (operator_of (direction_or (get field sort) first)) (read all_values field))
      equal
    ∷ cascade sort first all_values (put field (read all_values field) equal) fields

unfoldable pub first_key : List String → Option String
first_key [] = none
first_key (k ∷ ks) = some k

abbrev pub or_id : Option String → String
or_id none = "_id"
or_id (some k) = k

-- `sort[sortFields[0]]`
unfoldable pub first_direction : SortSpec → Option ℤ
first_direction [] = none
first_direction ((k, d) ∷ s) = some d

abbrev pub append_id : List String → List String
append_id [] = "_id" ∷ []
append_id (k ∷ ks) = k ∷ append_id ks

unfoldable pub compound_filter : Filter → SortSpec → Object Value → Value → Filter
unfolding first_direction cascade with_or
compound_filter base sort values id = with_or base (
    cascade sort (first_direction (non_id sort)) (put "_id" id values) []
      (append_id (keys (non_id sort))))

unfoldable pub build_keyset_filter :
    Filter → SortSpec → Value → Value → Option (Object Value) → Filter
unfolding first_key
build_keyset_filter base sort value id (some values) = compound_filter base sort values id
build_keyset_filter base sort value id none =
    let primary = or_id (first_key (keys (non_id sort))) in
    if leb (length (keys (non_id sort))) 1
    then single_field_filter base primary (get primary sort) value id
    else compound_filter base sort ((primary, value) ∷ []) id
