-- ===== src/Claim/Tests.antt =====
-- Claims on documents with string ids.
use mongokit.Prelude.{◌≡◌, refl, true, false, none, [], ◌∷◌, returns, throws}
use mongokit.Js.Object.{Object, put}
use mongokit.Js.Value.{Value, str, num, pos, object, is_operator}
use mongokit.Claim.Ids.{IdType, IdRuntime, is_valid_id_for_type, is_valid_present}
use mongokit.Claim.{
  Transition, one, Command, claim, claim_filter, claim_update, operator_update, with_sentinel,
  command_of, assert_no_mixed_patch_shape, operator_keys, is_empty, from_spec, is_state_noop,
  is_same, find_one_and_update, mixed_patch_shape,
}
use mongokit.Claim.Laws.{Pins, claim-Pins}

abbrev runtime : IdRuntime
runtime = record {
  object_id_is_valid = λ v. true;
  text_of = λ v. "x";
  is_finite = λ v. true;
  is_uuid = λ s. false;
}

-- The caller's `where` names the state field too.
abbrev pay : Transition
pay = record {
  state_field = none;
  source = one (str "waiting");
  to = str "paid";
  where_ = ("status", str "paid") ∷ ("paused", str "no") ∷ [];
}

abbrev patch : Object Value
patch =
    ("$set", object (("status", str "lost") ∷ ("by", str "a") ∷ []))
    ∷ ("$inc", object (("version", num (pos 1)) ∷ []))
    ∷ []

abbrev command : Command
command =
    find_one_and_update (claim_filter "_id" (str "o1") "status" pay)
      (claim_update "status" pay patch) false

claimed : claim runtime IdType.string "_id" (str "o1") pay patch false ≡ returns command
unfolding claim command_of assert_no_mixed_patch_shape operator_keys is_operator with_sentinel
    claim_update operator_update is_state_noop is_same put is_empty is_valid_id_for_type
    is_valid_present
claimed = refl

claim-Pins_example : Pins command "_id" (str "o1") × Pins command "status" (str "waiting")
unfolding from_spec
claim-Pins_example =
    claim-Pins runtime IdType.string "_id" (str "o1") pay patch false command claimed refl

mixed :
    claim runtime IdType.string "_id" (str "o1") pay (("by", str "a") ∷ patch) false
    ≡ throws mixed_patch_shape
unfolding claim assert_no_mixed_patch_shape operator_keys is_operator
mixed = refl
