-- ===== src/Claim/Apply/Laws.antt =====
-- The operators of a transition's patch, and what a claim does with them.
use mongokit.Prelude.{
  ℕ, ◌==◌, String, ◌≡◌, refl, ap, ◌∙◌, Bool, true, false, some, [], ◌∷◌, str_eq, eq_iff, length,
  inl, inr, Bool-cases, arith,
}
use mongokit.Js.Object.{Object, get, get-put, get-remove}
use mongokit.Js.Value.{Value, object, is_operator}
use mongokit.Claim.{
  Transition, is_state_noop, is_empty, claim_update, operator_update, operator_keys, caller_set_of,
}
use mongokit.Claim.Apply.{TransitionArgs, or_object, push_spec, operator_of, patch_of}

get-operator_of :
    (op k : String) (o rest : Object Value)
    → str_eq op k ≡ false
    → get k (operator_of op o rest) ≡ get k rest
unfolding operator_of get
get-operator_of op k o rest h = elim (Bool-cases (is_empty o)) [
  | inl e ↦ rw e refl
  | inr e ↦ rw (e, h) refl
]

pub get-patch_of :
    (args : TransitionArgs) (now : ℕ)
    → is_empty (push_spec args now) ≡ false
    → get "$push" (patch_of args now) ≡ some (object (push_spec args now))
unfolding patch_of operator_of get
get-patch_of args now h = get-operator_of "$set" "$push" (or_object args.set) _ refl ∙ rw h refl

operator_keys_of_get :
    (k : String) (v : Value) (o : Object Value)
    → is_operator k ≡ true
    → get k o ≡ some v
    → (length (operator_keys o) == 0) ≡ false
unfolding operator_keys get
operator_keys_of_get k v [] i h = cc
operator_keys_of_get k v ((j, w) ∷ o) i h = elim (Bool-cases (is_operator j)) [
  | inl e ↦ rw e (ground arith)
  | inr e ↦ elim (Bool-cases (str_eq j k)) [
    | inl q ↦ absurd (cc (ap is_operator ((eq_iff j k).0 q), e, i))
    | inr q ↦ rw e (operator_keys_of_get k v o i (rw q at h))
  ]
]

pub is_empty_of_get :
    (k : String) (v : Value) (o : Object Value) → get k o ≡ some v → is_empty o ≡ false
unfolding get is_empty
is_empty_of_get k v [] h = cc
is_empty_of_get k v (e ∷ o) h = refl

get-operator_update :
    (k field : String) (noop : Bool) (to : Value) (patch : Object Value)
    → str_eq "$set" k ≡ false
    → get k (operator_update noop field to patch) ≡ get k patch
unfolding operator_update
get-operator_update k field true to patch n =
    elim (Bool-cases (is_empty (caller_set_of (get "$set" patch)))) [
      | inl e ↦ rw (e, get-remove "$set" k patch, n) refl
      | inr e ↦ rw (e, get-put "$set" k _ patch, n) refl
    ]
get-operator_update k field false to patch n = rw (get-put "$set" k _ patch, n) refl

-- What a claim does with an operator of the patch that is not `$set`.
pub get-claim_update :
    (k field : String) (t : Transition) (v : Value) (patch : Object Value)
    → is_operator k ≡ true
    → str_eq "$set" k ≡ false
    → get k patch ≡ some v
    → get k (claim_update field t patch) ≡ some v
unfolding claim_update
get-claim_update k field t v patch i n h =
    rw (is_empty_of_get k v patch h, operator_keys_of_get k v patch i h)
      (get-operator_update k field (is_state_noop t.source t.to) t.to patch n ∙ h)
