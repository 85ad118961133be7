-- ===== src/Claim/Laws.antt =====
-- A claim is a compare-and-set that neither `where` nor the patch can weaken.
use mongokit.Prelude.{
  ◌==◌, String, ◌≡◌, refl, sym, ap, ◌∙◌, Bool, false, ◌||◌, Option, none, some, [], ◌∷◌, length,
  str_eq, eq_refl, arith, Bool-cases, inl, inr, returns, >>=-eq-returns, returns-injective,
}
use mongokit.Js.Object.{Object, get, put, spread, get-put}
use mongokit.Js.Value.{Value, object, entries-fields}
use mongokit.Claim.Ids.{IdType, IdRuntime}
use mongokit.Claim.{
  Transition, Command, none_, find_one, find_one_and_update, or_name, from_spec, is_state_noop,
  claim_filter, claim_update, flat_update, operator_update, with_sentinel, command_of, claim,
  is_empty, caller_set_of, assert_no_mixed_patch_shape, operator_keys,
}

-- The filter of a command.
abbrev pub query : Command → Option (Object Value)
query none_ = none
query (find_one q) = some q
query (find_one_and_update q u b) = some q

abbrev pub Pins : Command → String → Value → Type 0
Pins c k v = (q : Object Value) → query c ≡ some q → get k q ≡ some v

-- What an update sets a field to, by `$set`.
unfoldable pub sets : Object Value → String → Option Value
unfolding caller_set_of
sets u k = get k (caller_set_of (get "$set" u))

abbrev pub Sets : Command → String → Value → Type 0
Sets c k v = (q u : Object Value) (b : Bool) → c ≡ find_one_and_update q u b → sets u k ≡ some v

get-claim_filter :
    (id_field : String) (id : Value) (state_field : String) (t : Transition)
    → str_eq state_field id_field ≡ false
    → (get id_field (claim_filter id_field id state_field t) ≡ some id)
      × (get state_field (claim_filter id_field id state_field t) ≡ some (from_spec t.source))
unfolding claim_filter
get-claim_filter id_field id state_field t h = (
  rw
      (
        get-put state_field id_field (from_spec t.source) (put id_field id t.where_),
        h,
        get-put id_field id_field id t.where_,
        eq_refl id_field,
      )
      refl,
  rw
      (
        get-put state_field state_field (from_spec t.source) (put id_field id t.where_),
        eq_refl state_field,
      )
      refl,
)

query-command_of :
    (rt : IdRuntime) (id_type : IdType) (id_field : String) (id : Value) (upsert : Bool)
    (q u p : Object Value)
    → query (command_of rt id_type id_field id upsert q u) ≡ some p
    → q ≡ p
unfolding command_of
query-command_of rt id_type id_field id upsert q u p h = ground (arith, h)

pub update-command_of :
    (rt : IdRuntime) (id_type : IdType) (id_field : String) (id : Value) (upsert : Bool)
    (q u p w : Object Value) (b : Bool)
    → command_of rt id_type id_field id upsert q u ≡ find_one_and_update p w b
    → u ≡ w
unfolding command_of
update-command_of rt id_type id_field id upsert q u p w b h = ground (arith, h)

sets-put :
    (k : String) (v : Value) (o p : Object Value)
    → sets (put "$set" (object (put k v o)) p) k ≡ some v
unfolding sets caller_set_of object
sets-put k v o p =
    rw
      (
        get-put "$set" "$set" (object (put k v o)) p,
        entries-fields (put k v o),
        get-put k k v o,
        eq_refl k,
      )
      refl

pub is_empty-put : (k : String) (v : Value) (o : Object Value) → is_empty (put k v o) ≡ false
unfolding is_empty put
is_empty-put k v [] = refl
is_empty-put k v ((j, w) ∷ o) = ground arith

sets-flat_update :
    (k : String) (to : Value) (patch : Object Value)
    → (sets (flat_update false k to patch) k ≡ some to)
      × (is_empty (flat_update false k to patch) ≡ false)
unfolding flat_update is_empty sets caller_set_of get object
sets-flat_update k to patch = (
  rw (entries-fields (put k to (spread [] patch)), get-put k k to (spread [] patch), eq_refl k)
      refl,
  refl,
)

sets-operator_update :
    (k : String) (to : Value) (patch : Object Value)
    → (sets (operator_update false k to patch) k ≡ some to)
      × (is_empty (operator_update false k to patch) ≡ false)
unfolding operator_update
sets-operator_update k to patch = (
  sets-put k to (spread [] (caller_set_of (get "$set" patch))) patch,
  is_empty-put "$set" _ patch,
)

sets-claim_update :
    (k : String) (t : Transition) (patch : Object Value)
    → is_state_noop t.source t.to ≡ false
    → (sets (claim_update k t patch) k ≡ some t.to) × (is_empty (claim_update k t patch) ≡ false)
unfolding claim_update
sets-claim_update k t patch h =
    elim (Bool-cases (is_empty patch || length (operator_keys patch) == 0)) [
      | inl e ↦ rw (e, h) (sets-flat_update k t.to patch)
      | inr e ↦ rw (e, h) (sets-operator_update k t.to patch)
    ]

pub with_sentinel-full :
    (upsert : Bool) (k : String) (to : Value) (u : Object Value)
    → is_empty u ≡ false
    → with_sentinel upsert k to u ≡ u
unfolding with_sentinel
with_sentinel-full upsert k to u h = rw h refl

module _ (rt : IdRuntime) (id_type : IdType) (id_field : String) (id : Value) (t : Transition)
    (patch : Object Value) (upsert : Bool) (c : Command)
    (h : claim rt id_type id_field id t patch upsert ≡ returns c) where
  -- Where the state field is not the id field: what a claim that is not refused asks of the driver
  -- selects by the given id and the given source state, also where the caller's `where` or patch
  -- names one of these fields.
  pub claim-Pins :
      str_eq (or_name t.state_field "status") id_field ≡ false
      → Pins c id_field id × Pins c (or_name t.state_field "status") (from_spec t.source)
  unfolding claim
  claim-Pins n =
      let (x, a, e) = >>=-eq-returns (assert_no_mixed_patch_shape patch) _ h in
      let k = or_name t.state_field "status" in
      let f = claim_filter id_field id k t in
      let u = with_sentinel upsert k t.to (claim_update k t patch) in
      let (p, r) = get-claim_filter id_field id k t n in
      let same : (q : Object Value) → query c ≡ some q → f ≡ q = λ q s.
        query-command_of rt id_type id_field id upsert f u q
          (ap query (returns-injective _ _ e) ∙ s) in
      (λ q s. ap (get id_field) (sym (same q s)) ∙ p, λ q s. ap (get k) (sym (same q s)) ∙ r)

  -- A claim that changes the state writes the target state, whatever its patch sets.
  pub claim-Sets :
      is_state_noop t.source t.to ≡ false → Sets c (or_name t.state_field "status") t.to
  unfolding claim
  claim-Sets n q w b s =
      let (x, a, e) = >>=-eq-returns (assert_no_mixed_patch_shape patch) _ h in
      let k = or_name t.state_field "status" in
      let u = claim_update k t patch in
      let (p, r) = sets-claim_update k t patch n in
      let full = with_sentinel-full upsert k t.to u r in
      ap (λ v. sets v k)
        (sym (
          sym full
          ∙ update-command_of rt id_type id_field id upsert (claim_filter id_field id k t)
              (with_sentinel upsert k t.to u) q w b (returns-injective _ _ e ∙ s)))
      ∙ p
