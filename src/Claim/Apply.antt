-- ===== src/Claim/Apply.antt =====
-- `applyTransition` of src/Repository.ts: a claim along the edges of a state machine, with a history.
-- The driver and `getById` are parameters, and so is `assertTransition` of the machine: the error that
-- it throws, if it does.
pub mod Laws
pub mod Outcomes
mod Tests
use mongokit.Prelude.{
  ℕ, String, Bool, true, false, not, ◌&&◌, Option, none, some, List, [], ◌∷◌, str_eq, map,
  if◌then◌else◌, Outcome, returns, throws, ◌>>◌, ◌>>=◌,
}
use mongokit.Js.Object.{Object, put}
use mongokit.Js.Value.{Value, str, date, object}
use mongokit.Claim.{From, one, many, Transition, ClaimError, Command, or_name, is_empty, claim}
use mongokit.Claim.Ids.{IdType, IdRuntime}

-- `from`, a state or an array of them.
pub data Sources : Type 0 where
  single : String → Sources
  several : List String → Sources

-- `history`: a field, or `false`.
pub data History : Type 0 where
  default_history off : History
  named : String → History

pub record TransitionArgs : Type 0 where
  pub from : Sources
  pub to : String
  pub state_field : Option String
  pub set : Option (Object Value)
  pub push : Option (Object Value)
  pub inc : Option (Object Value)
  pub unset : Option (Object Value)
  pub where_ : Option (Object Value)
  pub by : Option String
  pub note : Option String
  pub history : History
  pub at : Option ℕ

pub record TransitionMachine (E : Type 0) : Type 0 where
  pub assert_transition : String → String → Option E

pub data TransitionError (E : Type 0) : Type 0 where
  machine_error : E → TransitionError E
  claim_error : ClaimError → TransitionError E
  target_missing : TransitionError E
  -- With the current state.
  race_lost : String → TransitionError E

abbrev pub or_object : Option (Object Value) → Object Value
or_object none = []
or_object (some o) = o

unfoldable pub history_field : History → Option String
history_field default_history = some "statusHistory"
history_field (named f) = some f
history_field off = none

abbrev pub at_or : ℕ → Option ℕ → ℕ
at_or now none = now
at_or now (some n) = n

-- `...(v !== undefined ? { k: v } : {})`
unfoldable pub with_text : String → Option String → Object Value → Object Value
unfolding put
with_text k none o = o
with_text k (some v) o = put k (str v) o

unfoldable pub history_entry : TransitionArgs → ℕ → Value
unfolding with_text
history_entry args now = object (
    with_text "note" args.note (
      with_text "by" args.by
        (("status", str args.to) ∷ ("occurredAt", date (at_or now args.at)) ∷ [])))

unfoldable pub with_history : Option String → Value → Object Value → Object Value
unfolding put
with_history none entry push = push
with_history (some f) entry push = put f entry push

unfoldable pub push_spec : TransitionArgs → ℕ → Object Value
unfolding history_field history_entry with_history
push_spec args now =
    with_history (history_field args.history) (history_entry args now) (or_object args.push)

-- An operator with its fields, if there are any.
unfoldable pub operator_of : String → Object Value → Object Value → Object Value
unfolding is_empty
operator_of op o rest = if is_empty o then rest else (op, object o) ∷ rest

unfoldable pub patch_of : TransitionArgs → ℕ → Object Value
unfolding operator_of push_spec
patch_of args now = operator_of "$set" (or_object args.set) (
    operator_of "$push" (push_spec args now)
      (operator_of "$inc" (or_object args.inc) (operator_of "$unset" (or_object args.unset) [])))

unfoldable pub source_of : Sources → From
source_of (single s) = one (str s)
source_of (several ss) = many (map str ss)

unfoldable pub transition_of : TransitionArgs → Transition
unfolding source_of
transition_of args = record {
  state_field = args.state_field;
  source = source_of args.from;
  to = str args.to;
  where_ = or_object args.where_;
}

module _ {E : Type 0} (machine : TransitionMachine E) where
  abbrev pub thrown : Option E → Outcome (TransitionError E) (Unit {0})
  thrown none = returns tt
  thrown (some e) = throws (machine_error e)

  unfoldable pub assert_all : Bool → String → List String → Outcome (TransitionError E) (Unit {0})
  assert_all is_multi_source to [] = returns tt
  assert_all is_multi_source to (from ∷ sources) =
      let rest = assert_all is_multi_source to sources in
      if is_multi_source && str_eq from to
      then rest
      else thrown (machine.assert_transition from to) >> rest

  unfoldable pub assert_sources : String → Sources → Outcome (TransitionError E) (Unit {0})
  unfolding assert_all
  assert_sources to (single s) = assert_all false to (s ∷ [])
  assert_sources to (several ss) = assert_all true to ss

  abbrev pub lifted : {A : Type 0} → Outcome ClaimError A → Outcome (TransitionError E) A
  lifted (returns a) = returns a
  lifted (throws e) = throws (claim_error e)

  module _ {D S : Type 0} (rt : IdRuntime) (id_type : IdType) (id_field : String) (id : Value)
      (exec : Command → S → Option D × S) (get_by_id : S → Option D)
      (state_text : String → D → String) (args : TransitionArgs) (now : ℕ) where
    -- The error of a claim that found no row.
    unfoldable pub diagnosed : Option D → Outcome (TransitionError E) D
    diagnosed none = throws target_missing
    diagnosed (some d) =
        let current = state_text (or_name args.state_field "status") d in
        (if not (str_eq current args.to)
          then thrown (machine.assert_transition current args.to)
          else returns tt)
        >> throws (race_lost current)

    unfoldable pub finished : Option D × S → Outcome (TransitionError E) D × S
    unfolding diagnosed
    finished (some d, s) = (returns d, s)
    finished (none, s) = (diagnosed (get_by_id s), s)

    unfoldable pub run_command :
        Outcome (TransitionError E) Command → S → Outcome (TransitionError E) D × S
    unfolding finished
    run_command (returns c) s = finished (exec c s)
    run_command (throws e) s = (throws e, s)

    unfoldable pub apply_transition : S → Outcome (TransitionError E) D × S
    unfolding assert_sources run_command patch_of transition_of claim
    apply_transition s =
        run_command
          (assert_sources args.to args.from
            >> lifted (claim rt id_type id_field id (transition_of args) (patch_of args now) false))
          s
