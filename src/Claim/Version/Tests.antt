-- ===== src/Claim/Version/Tests.antt =====
-- A document at version 4 of which the caller's update names the stamp too.
use mongokit.Prelude.{◌≡◌, refl, true, none, some, false, [], ◌∷◌, returns, throws}
use mongokit.Js.Object.{Object, get, has, put, spread}
use mongokit.Js.Value.{Value, num, pos, str, object, entries, is_operator}
use mongokit.Claim.{find_one_and_update, caller_set_of, operator_keys, assert_no_mixed_patch_shape}
use mongokit.Claim.Ids.{IdType, IdRuntime, is_valid_id_for_type, is_valid_present}
use mongokit.Claim.Version.{VersionTransition, claim_version, version_in_set}
use mongokit.Claim.Version.Laws.{operand, claim_version-Pins}

abbrev runtime : IdRuntime
runtime = record {
  object_id_is_valid = λ v. true;
  text_of = λ v. "x";
  is_finite = λ v. true;
  is_uuid = λ s. false;
}

abbrev bump : VersionTransition
bump = record {
  version_field = none;
  from_version = some (pos 4);
  by = none;
  where_ = ("version", num (pos 9)) ∷ [];
}

abbrev changes : Object Value
changes = ("$inc", object (("version", num (pos 100)) ∷ ("count", num (pos 2)) ∷ [])) ∷ []

abbrev filter : Object Value
filter = ("version", num (pos 4)) ∷ ("_id", str "o1") ∷ []

abbrev update : Object Value
update = ("$inc", object (("version", num (pos 1)) ∷ ("count", num (pos 2)) ∷ [])) ∷ []

bumped :
    claim_version runtime IdType.string "_id" (str "o1") bump changes
    ≡ returns (find_one_and_update filter update false)
unfolding claim_version assert_no_mixed_patch_shape operator_keys is_operator is_valid_id_for_type
    is_valid_present put has spread caller_set_of get object entries
bumped = refl

-- A first write refuses an update that sets the stamp itself.
first_write :
    claim_version runtime IdType.string "_id"
      (str "o1")
      (record bump { from_version = none })
      (("version", num (pos 5)) ∷ [])
    ≡ throws version_in_set
unfolding claim_version assert_no_mixed_patch_shape operator_keys is_operator is_valid_id_for_type
    is_valid_present put has spread caller_set_of get object entries
first_write = refl

claim_version-Pins_example :
    (get "_id" filter ≡ some (str "o1"))
    × (get "version" filter ≡ some (num (pos 4)))
    × (operand "$inc" update "version" ≡ some (num (pos 1)))
claim_version-Pins_example =
    claim_version-Pins runtime IdType.string "_id" (str "o1") bump changes
      (find_one_and_update filter update false) bumped filter update false refl refl
