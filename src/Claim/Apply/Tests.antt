-- ===== src/Claim/Apply/Tests.antt =====
-- A work order that is released, and one that another call has closed before.
use mongokit.Prelude.{
  String, ◌≡◌, refl, true, false, ◌&&◌, Option, none, some, ◌⊎◌, [], ◌∷◌, str_eq, if◌then◌else◌,
  Outcome, returns, throws,
}
use mongokit.Js.Object.{get, put, spread}
use mongokit.Js.Value.{Value, undefined, str, object, fields, entries, is_operator}
use mongokit.Mongo.Memory.{holds, clause, same}
use mongokit.Mongo.Memory.Store.{Document, documents, set_or}
use mongokit.Claim.{
  Command, find_one_and_update, claim, claim_filter, claim_update, operator_update, operator_keys,
  caller_set_of, command_of, with_sentinel, assert_no_mixed_patch_shape, is_empty, from_spec,
  is_state_noop, is_same,
}
use mongokit.Claim.Ids.{IdType, IdRuntime, is_valid_id_for_type, is_valid_present}
use mongokit.Claim.Laws.{Pins, Sets}
use mongokit.Claim.Apply.{
  single, default_history, TransitionArgs, TransitionMachine, TransitionError, machine_error,
  race_lost, target_missing, patch_of, transition_of, source_of, push_spec, history_field,
  history_entry, with_text, with_history, operator_of, assert_sources, assert_all, apply_transition,
  run_command, finished,
}
use mongokit.Claim.Apply.Outcomes.{
  IsLegal, Pushes, apply_transition-IsLegal, apply_transition-diagnosed,
}

abbrev runtime : IdRuntime
runtime = record {
  object_id_is_valid = λ v. true;
  text_of = λ v. "x";
  is_finite = λ v. true;
  is_uuid = λ s. false;
}

-- A draft may be released; the error is the state that a move starts from.
abbrev machine : TransitionMachine String
machine = record {
  assert_transition =
      λ from to. if str_eq from "draft" && str_eq to "released" then none else some from;
}

abbrev args : TransitionArgs
args = record {
  from = single "draft";
  to = "released";
  state_field = none;
  set = none;
  push = none;
  inc = none;
  unset = none;
  where_ = none;
  by = some "ann";
  note = none;
  history = default_history;
  at = none;
}

abbrev order : String → Document
order state f =
    if str_eq f "_id" then str "o1" else if str_eq f "status" then str state else undefined

-- A collection of one row.
abbrev exec : Command → Document → Option Document × Document
exec (find_one_and_update q u b) d =
    if documents.holds q d
    then (some (λ f. set_or (get f (caller_set_of (get "$set" u))) (d f)), d)
    else (none, d)
exec c d = (none, d)

abbrev text_at : Value → String
text_at (str x) = x
text_at v = "undefined"

abbrev state_text : String → Document → String
state_text f d = text_at (d f)

abbrev call : Document → Outcome (TransitionError String) Document × Document
call = apply_transition machine runtime IdType.string "_id" (str "o1") exec some state_text args 5

abbrev released : Document
released f = set_or (get f (("status", str "released") ∷ [])) (order "draft" f)

goes_through : call (order "draft") ≡ (returns released, order "draft")
unfolding apply_transition run_command finished assert_sources assert_all patch_of transition_of
    source_of push_spec history_field history_entry with_text with_history operator_of claim
    command_of assert_no_mixed_patch_shape operator_keys is_operator with_sentinel claim_update
    operator_update is_state_noop is_same put get is_empty is_valid_id_for_type is_valid_present
    claim_filter from_spec caller_set_of holds clause same fields object entries spread
goes_through = refl

apply_transition-IsLegal_example :
    IsLegal machine "released" (single "draft")
    × (c : Command) × (exec c (order "draft") ≡ (some released, order "draft"))
    × Pins c "_id" (str "o1")
    × Pins c "status" (str "draft")
    × (is_state_noop (source_of (single "draft")) (str "released") ≡ false
        → Sets c "status" (str "released"))
    × ((f : String) → history_field default_history ≡ some f → Pushes c f (history_entry args 5))
unfolding source_of from_spec
apply_transition-IsLegal_example =
    apply_transition-IsLegal machine runtime IdType.string "_id" (str "o1") exec some state_text
      args 5 (order "draft") released (order "draft") refl goes_through

abbrev command : Command
command =
    find_one_and_update (claim_filter "_id" (str "o1") "status" (transition_of args))
      (claim_update "status" (transition_of args) (patch_of args 5)) false

claimed :
    claim runtime IdType.string "_id" (str "o1") (transition_of args) (patch_of args 5) false
    ≡ returns command
unfolding patch_of transition_of source_of push_spec history_field history_entry with_text
    with_history operator_of claim command_of assert_no_mixed_patch_shape operator_keys is_operator
    with_sentinel claim_update operator_update is_state_noop is_same put get is_empty
    is_valid_id_for_type is_valid_present claim_filter spread
claimed = refl

missed : exec command (order "closed") ≡ (none, order "closed")
unfolding claim_filter transition_of source_of from_spec put holds clause same fields
missed = refl

apply_transition-diagnosed_example :
    (some (order "closed") ≡ none → call (order "closed") ≡ (throws target_missing, order "closed"))
    × ((d : Document)
        → some (order "closed") ≡ some d
        → ((e : String)
            → str_eq (state_text "status" d) "released" ≡ false
            → machine.assert_transition (state_text "status" d) "released" ≡ some e
            → call (order "closed") ≡ (throws (machine_error e), order "closed"))
          × ((str_eq (state_text "status" d) "released" ≡ true)
                ⊎ (machine.assert_transition (state_text "status" d) "released" ≡ none)
              → call (order "closed")
                ≡ (throws (race_lost (state_text "status" d)), order "closed")))
apply_transition-diagnosed_example =
    apply_transition-diagnosed machine runtime IdType.string "_id" (str "o1") exec some state_text
      args 5 (order "closed") command (order "closed") (unfold assert_sources assert_all in refl)
      claimed missed
