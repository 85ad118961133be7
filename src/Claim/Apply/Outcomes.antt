-- ===== src/Claim/Apply/Outcomes.antt =====
-- A transition that goes through is legal, and one that is lost is told the truth.
use mongokit.Prelude.{
  ℕ, String, ◌≡◌, refl, sym, ap, ◌∙◌, Bool, true, false, Option, none, some, List, [], ◌∷◌, str_eq,
  eq_refl, All, inl, inr, ◌⊎◌, Bool-cases, Outcome, returns, throws, ◌>>◌, >>=-eq-returns,
  returns-injective,
}
use mongokit.Js.Object.{Object, get, get-put}
use mongokit.Js.Value.{Value, str, object, is_operator}
use mongokit.Claim.{
  ClaimError, Command, find_one_and_update, or_name, from_spec, is_state_noop, is_empty, claim,
  claim_update, assert_no_mixed_patch_shape,
}
use mongokit.Claim.Ids.{IdType, IdRuntime}
use mongokit.Claim.Laws.{
  Pins, Sets, claim-Pins, claim-Sets, is_empty-put, update-command_of, with_sentinel-full,
}
use mongokit.Claim.Apply.{
  Sources, single, several, TransitionArgs, TransitionMachine, TransitionError, machine_error,
  target_missing, race_lost, or_object, history_field, history_entry, with_history, push_spec,
  patch_of, source_of, transition_of, thrown, assert_all, assert_sources, lifted, diagnosed,
  finished, run_command, apply_transition,
}
use mongokit.Claim.Apply.Laws.{get-patch_of, is_empty_of_get, get-claim_update}

-- Every source may go to the target; of an array of sources, one may be the target itself.
abbrev pub IsLegal : {E : Type 0} → TransitionMachine E → String → Sources → Type 0
IsLegal machine to (single s) = machine.assert_transition s to ≡ none
IsLegal machine to (several ss) =
    All (λ s. (machine.assert_transition s to ≡ none) ⊎ (str_eq s to ≡ true)) ss

-- The update of a command appends one entry to a field, by `$push`.
abbrev pub Pushes : Command → String → Value → Type 0
Pushes c f entry =
    (q u : Object Value) (b : Bool)
    → c ≡ find_one_and_update q u b
    → (p : Object Value) × (get "$push" u ≡ some (object p)) × (get f p ≡ some entry)

module _ {E D S : Type 0} (machine : TransitionMachine E) (rt : IdRuntime) (id_type : IdType)
    (id_field : String) (id : Value) (exec : Command → S → Option D × S) (get_by_id : S → Option D)
    (state_text : String → D → String) (args : TransitionArgs) (now : ℕ) (s : S) where
  abbrev pub applied_to : Outcome (TransitionError E) D × S
  applied_to = apply_transition machine rt id_type id_field id exec get_by_id state_text args now s

  abbrev pub the_claim : Outcome ClaimError Command
  the_claim = claim rt id_type id_field id (transition_of args) (patch_of args now) false

  abbrev pub field : String
  field = or_name args.state_field "status"

  thrown_lem : (o : Option E) → thrown machine o ≡ returns tt → o ≡ none
  thrown_lem none h = refl
  thrown_lem (some e) h = cc

  assert_all-IsLegal :
      (ss : List String)
      → assert_all machine true args.to ss ≡ returns tt
      → IsLegal machine args.to (several ss)
  unfolding assert_all
  assert_all-IsLegal [] h = tt
  assert_all-IsLegal (x ∷ ss) h = elim (Bool-cases (str_eq x args.to)) [
    | inl e ↦ (inr e, assert_all-IsLegal ss (rw e at h))
    | inr e ↦
        let (u, a, b) =
          >>=-eq-returns (thrown machine (machine.assert_transition x args.to)) _ (rw e at h) in
        (inl (thrown_lem _ a), assert_all-IsLegal ss b)
  ]

  assert_sources-IsLegal :
      (f : Sources) → assert_sources machine args.to f ≡ returns tt → IsLegal machine args.to f
  unfolding assert_sources assert_all
  assert_sources-IsLegal (single x) h =
      let (u, a, b) = >>=-eq-returns (thrown machine (machine.assert_transition x args.to)) _ h in
      thrown_lem _ a
  assert_sources-IsLegal (several ss) h = assert_all-IsLegal ss h

  never :
      {A : Type 0} (o : Outcome (TransitionError E) (Unit {0})) (e : TransitionError E) (a : A)
      → (o >> throws e) ≡ returns a
      → ⊥
  never (returns x) e a h = cc
  never (throws x) e a h = cc

  diagnosed_lem :
      (o : Option D) (d : D)
      → diagnosed machine rt id_type id_field id exec get_by_id state_text args now o ≡ returns d
      → ⊥
  unfolding diagnosed
  diagnosed_lem none d h = cc
  diagnosed_lem (some x) d h = never _ _ d h

  finished_lem :
      (r : Option D × S) (d : D) (t : S)
      → finished machine rt id_type id_field id exec get_by_id state_text args now r
        ≡ (returns d, t)
      → r ≡ (some d, t)
  unfolding finished
  finished_lem (some x, u) d t h = cc
  finished_lem (none, u) d t h = absurd (diagnosed_lem (get_by_id u) d (ap (λ x. x.0) h))

  run_command_lem :
      (o : Outcome (TransitionError E) Command) (d : D) (t : S)
      → run_command machine rt id_type id_field id exec get_by_id state_text args now o s
        ≡ (returns d, t)
      → (c : Command) × (o ≡ returns c) × (exec c s ≡ (some d, t))
  unfolding run_command
  run_command_lem (returns c) d t h = (c, refl, finished_lem (exec c s) d t h)
  run_command_lem (throws e) d t h = cc

  lifted_lem :
      {A : Type 0} (o : Outcome ClaimError A) (a : A) → lifted machine o ≡ returns a → o ≡ returns a
  lifted_lem (returns x) a h = cc
  lifted_lem (throws e) a h = cc

  get-push_spec :
      (f : String)
      → history_field args.history ≡ some f
      → (get f (push_spec args now) ≡ some (history_entry args now))
        × (is_empty (push_spec args now) ≡ false)
  unfolding push_spec with_history
  get-push_spec f h = (
    rw (h, get-put f f (history_entry args now) (or_object args.push), eq_refl f) refl,
    rw h (is_empty-put f (history_entry args now) (or_object args.push)),
  )

  claim-Pushes :
      (c : Command) (f : String)
      → the_claim ≡ returns c
      → history_field args.history ≡ some f
      → Pushes c f (history_entry args now)
  unfolding claim is_operator transition_of
  claim-Pushes c f h e q u b p =
      let (own, full) = get-push_spec f e in
      let (x, a, k) = >>=-eq-returns (assert_no_mixed_patch_shape (patch_of args now)) _ h in
      let t = transition_of args in
      let pushed =
        get-claim_update "$push" field t (object (push_spec args now)) (patch_of args now) refl refl
          (get-patch_of args now full) in
      let whole =
        with_sentinel-full false field t.to (claim_update field t (patch_of args now))
          (is_empty_of_get "$push" _ _ pushed) in
      let same =
        update-command_of rt id_type id_field id false _ _ q u b (returns-injective _ _ k ∙ p) in
      (push_spec args now, ap (get "$push") (sym same ∙ whole) ∙ pushed, own)

  -- A transition that gives a row back, whose state field is not the id field: the machine allows
  -- the target from every source, where of an array of sources one may be the target itself; the
  -- row comes from the claim's one command, which selects by the given id and the given sources,
  -- sets the state to the target unless a single source is the target, and appends one entry of
  -- the target to the history, unless the history is off.
  pub apply_transition-IsLegal :
      (d : D) (t : S)
      → str_eq field id_field ≡ false
      → applied_to ≡ (returns d, t)
      → IsLegal machine args.to args.from
        × (c : Command) × (exec c s ≡ (some d, t))
        × Pins c id_field id
        × Pins c field (from_spec (source_of args.from))
        × (is_state_noop (source_of args.from) (str args.to) ≡ false → Sets c field (str args.to))
        × ((f : String) → history_field args.history ≡ some f → Pushes c f (history_entry args now))
  unfolding apply_transition
  apply_transition-IsLegal d t n h =
      let (c, o, x) = run_command_lem _ d t h in
      let (u, a, l) = >>=-eq-returns (assert_sources machine args.to args.from) _ o in
      let k = lifted_lem the_claim c l in
      let (p, q) =
        claim-Pins rt id_type id_field id (transition_of args) (patch_of args now) false c k n in
      (
        assert_sources-IsLegal args.from a,
        c,
        x,
        p,
        q,
        claim-Sets rt id_type id_field id (transition_of args) (patch_of args now) false c k,
        (λ f e. claim-Pushes c f k e),
      )

  lost :
      (d : D)
      → (str_eq (state_text field d) args.to ≡ true)
        ⊎ (machine.assert_transition (state_text field d) args.to ≡ none)
      → diagnosed machine rt id_type id_field id exec get_by_id state_text args now (some d)
        ≡ throws (race_lost (state_text field d))
  unfolding diagnosed
  lost d (inl e) = rw e refl
  lost d (inr e) = elim (Bool-cases (str_eq (state_text field d) args.to)) [
    | inl q ↦ rw q refl
    | inr q ↦ rw (q, e) refl
  ]

  -- A claim of legal sources that finds no row is answered by the row's state after it: a row that
  -- is gone is reported missing; a move to another state that the machine forbids from there fails
  -- with the machine's own error; and any other is a lost race, reported with that state.
  pub apply_transition-diagnosed :
      (c : Command) (t : S)
      → assert_sources machine args.to args.from ≡ returns tt
      → the_claim ≡ returns c
      → exec c s ≡ (none, t)
      → (get_by_id t ≡ none → applied_to ≡ (throws target_missing, t))
        × ((d : D)
            → get_by_id t ≡ some d
            → ((e : E)
                → str_eq (state_text field d) args.to ≡ false
                → machine.assert_transition (state_text field d) args.to ≡ some e
                → applied_to ≡ (throws (machine_error e), t))
              × ((str_eq (state_text field d) args.to ≡ true)
                    ⊎ (machine.assert_transition (state_text field d) args.to ≡ none)
                  → applied_to ≡ (throws (race_lost (state_text field d)), t)))
  unfolding apply_transition run_command finished diagnosed
  apply_transition-diagnosed c t a k x =
      let told : Option D → Outcome (TransitionError E) D × S =
        λ o. (diagnosed machine rt id_type id_field id exec get_by_id state_text args now o, t) in
      let start : applied_to ≡ told (get_by_id t) =
        ap (λ o. run_command machine rt id_type id_field id exec get_by_id state_text args now o s)
          (ap (λ o. o >> lifted machine the_claim) a ∙ ap (lifted machine) k)
        ∙ ap (finished machine rt id_type id_field id exec get_by_id state_text args now) x in
      (
        (λ g. start ∙ ap told g),
        (λ d g. (
          (λ e n r. start ∙ ap told g ∙ rw (n, r) refl),
          (λ r. start ∙ ap told g ∙ ap (λ o. (o, t)) (lost d r)),
        )),
      )
