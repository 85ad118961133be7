-- ===== src/Claim.antt =====
-- `claim` of src/Repository.ts, up to the driver's command, and the id check of
-- src/utils/id-resolution.ts. The hooks around it are taken to leave the query and the update alone.
pub mod Ids
pub mod Laws
pub mod Version
pub mod Apply
mod Tests
use mongokit.Prelude.{
  ℕ, zero, suc, ◌==◌, String, Bool, true, false, not, ◌&&◌, ◌||◌, Option, none, some, List, [], ◌∷◌,
  length, filter, str_eq, if◌then◌else◌, Outcome, returns, throws, ◌>>◌, throw_if,
}
use mongokit.Js.Object.{Object, get, put, remove, spread, keys}
use mongokit.Js.Value.{
  Value, undefined, null, bool, num, str, arr, obj, Fields, entries, object, values, int_eq,
  is_operator,
}
use mongokit.Mongo.{operator}
use mongokit.Claim.Ids.{IdType, IdRuntime, is_valid_id_for_type}

-- A source state, or an array of them.
pub data From : Type 0 where
  one : Value → From
  many : List Value → From

pub record Transition : Type 0 where
  pub state_field : Option String
  pub source : From
  pub to : Value
  pub where_ : Object Value

pub data ClaimError : Type 0 where
  mixed_patch_shape : ClaimError

-- What `claim` asks of the driver.
pub data Command : Type 0 where
  none_ : Command
  find_one : Object Value → Command
  find_one_and_update : Object Value → Object Value → Bool → Command

abbrev pub or_name : Option String → String → String
or_name none d = d
or_name (some s) d = s

-- `===`; two dates, ids, arrays or objects are taken to be different ones.
unfoldable pub is_same : Value → Value → Bool
is_same undefined undefined = true
is_same null null = true
is_same (bool true) (bool b) = b
is_same (bool false) (bool b) = not b
is_same (num a) (num b) = int_eq a b
is_same (str a) (str b) = str_eq a b
is_same _ _ = false

unfoldable pub from_spec : From → Value
from_spec (one v) = v
from_spec (many vs) = operator "$in" (arr (values vs))

unfoldable pub is_state_noop : From → Value → Bool
is_state_noop (one v) to = is_same v to
is_state_noop (many vs) to = false

unfoldable pub claim_filter : String → Value → String → Transition → Object Value
claim_filter id_field id state_field t =
    put state_field (from_spec t.source) (put id_field id t.where_)

unfoldable pub operator_keys : Object Value → List String
operator_keys patch = filter is_operator (keys patch)

unfoldable pub assert_no_mixed_patch_shape : Object Value → Outcome ClaimError (Unit {0})
assert_no_mixed_patch_shape patch =
    let n = length (operator_keys patch) in
    throw_if (not (n == 0 || n == length (keys patch))) mixed_patch_shape

-- `(patch.$set as Record) ?? {}`; what is no object spreads to nothing.
unfoldable pub caller_set_of : Option Value → Object Value
caller_set_of (some (obj f)) = entries f
caller_set_of _ = []

unfoldable pub is_empty : Object Value → Bool
is_empty [] = true
is_empty (e ∷ o) = false

unfoldable pub flat_update : Bool → String → Value → Object Value → Object Value
flat_update true state_field to patch =
    if is_empty patch then [] else ("$set", object (spread [] patch)) ∷ []
flat_update false state_field to patch =
    ("$set", object (put state_field to (spread [] patch))) ∷ []

unfoldable pub operator_update : Bool → String → Value → Object Value → Object Value
operator_update true state_field to patch =
    let caller_set = caller_set_of (get "$set" patch) in
    if is_empty caller_set
    then remove "$set" patch
    else put "$set" (object (spread [] caller_set)) patch
operator_update false state_field to patch =
    put "$set" (object (put state_field to (spread [] (caller_set_of (get "$set" patch))))) patch

unfoldable pub claim_update : String → Transition → Object Value → Object Value
claim_update state_field t patch =
    let noop = is_state_noop t.source t.to in
    if is_empty patch || length (operator_keys patch) == 0
    then flat_update noop state_field t.to patch
    else operator_update noop state_field t.to patch

-- An empty update is refused by the server: with `upsert` it becomes a `$setOnInsert`.
unfoldable pub with_sentinel : Bool → String → Value → Object Value → Object Value
with_sentinel upsert state_field to update =
    if is_empty update && upsert
    then ("$setOnInsert", object ((state_field, to) ∷ [])) ∷ []
    else update

unfoldable pub command_of :
    IdRuntime → IdType → String → Value → Bool → Object Value → Object Value → Command
command_of rt id_type id_field id upsert query update =
    if (str_eq id_field "_id" && not upsert) && not (is_valid_id_for_type rt id id_type)
    then none_
    else if is_empty update
    then find_one query
    else find_one_and_update query update upsert

unfoldable pub claim :
    IdRuntime
    → IdType
    → String
    → Value
    → Transition
    → Object Value
    → Bool
    → Outcome ClaimError Command
claim rt id_type id_field id t patch upsert =
    let state_field = or_name t.state_field "status" in
    assert_no_mixed_patch_shape patch
    >> returns (
        command_of rt id_type id_field id upsert (claim_filter id_field id state_field t)
          (with_sentinel upsert state_field t.to (claim_update state_field t patch)))
