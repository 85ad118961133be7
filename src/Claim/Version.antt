-- ===== src/Claim/Version.antt =====
-- `claimVersion` of src/Repository.ts, up to the driver's command: a compare-and-set on a version
-- stamp. The hooks around it are taken to leave the query and the update alone.
pub mod Laws
mod Tests
use mongokit.Prelude.{
  ◌==◌, String, Bool, true, false, not, ◌&&◌, Option, none, some, [], ◌∷◌, length, str_eq,
  if◌then◌else◌, Outcome, returns, throws, ◌>>=◌, ◌>>◌, throw_if,
}
use mongokit.Js.Object.{Object, get, has, put, remove, spread}
use mongokit.Js.Value.{ℤ, pos, Value, null, num, object}
use mongokit.Claim.Ids.{IdType, IdRuntime, is_valid_id_for_type}
use mongokit.Claim.{
  ClaimError, mixed_patch_shape, Command, none_, find_one_and_update, or_name, caller_set_of,
  operator_keys, assert_no_mixed_patch_shape, is_empty,
}

pub record VersionTransition : Type 0 where
  pub version_field : Option String
  -- The version that the row is to have; `none` where it is to have none yet.
  pub from_version : Option ℤ
  pub by : Option ℤ
  pub where_ : Object Value

pub data VersionError : Type 0 where
  bad_patch : ClaimError → VersionError
  version_in_set version_in_inc : VersionError

abbrev pub or_one : Option ℤ → ℤ
or_one none = pos 1
or_one (some n) = n

-- `from === undefined ? null : from`
abbrev pub version_match : Option ℤ → Value
version_match none = null
version_match (some n) = num n

unfoldable pub version_filter : String → Value → String → VersionTransition → Object Value
version_filter id_field id field t =
    put field (version_match t.from_version) (put id_field id t.where_)

unfoldable pub operator_shape : Object Value → Object Value
operator_shape update =
    if length (operator_keys update) == 0
    then ("$set", object (spread [] update)) ∷ []
    else spread [] update

-- `$inc` stays only if the caller's has other fields.
unfoldable pub with_inc : Object Value → Object Value → Object Value
with_inc inc u = if is_empty inc then remove "$inc" u else put "$inc" (object inc) u

unfoldable pub version_update :
    String → Option ℤ → ℤ → Object Value → Outcome VersionError (Object Value)
unfolding with_inc
version_update field none step u =
    let set = caller_set_of (get "$set" u) in
    let inc = caller_set_of (get "$inc" u) in
    throw_if (has field set) version_in_set
    >> throw_if (has field inc) version_in_inc
    >> returns (put "$set" (object (put field (num step) (spread [] set))) (with_inc inc u))
version_update field (some n) step u =
    let inc = caller_set_of (get "$inc" u) in
    returns (put "$inc" (object (put field (num step) (spread [] inc))) u)

unfoldable pub bad_shape : Outcome ClaimError (Unit {0}) → Outcome VersionError (Unit {0})
bad_shape (returns u) = returns u
bad_shape (throws e) = throws (bad_patch e)

unfoldable pub version_command :
    IdRuntime → IdType → String → Value → Object Value → Object Value → Command
version_command rt id_type id_field id query u =
    if str_eq id_field "_id" && not (is_valid_id_for_type rt id id_type)
    then none_
    else find_one_and_update query u false

unfoldable pub claim_version :
    IdRuntime
    → IdType
    → String
    → Value
    → VersionTransition
    → Object Value
    → Outcome VersionError Command
unfolding version_filter operator_shape version_update version_command bad_shape
claim_version rt id_type id_field id t update =
    let field = or_name t.version_field "version" in
    bad_shape (assert_no_mixed_patch_shape update)
    >> (version_update field t.from_version (or_one t.by) (operator_shape update) >>= λ u.
        returns (version_command rt id_type id_field id (version_filter id_field id field t) u))
