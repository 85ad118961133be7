-- ===== src/Claim/Version/Laws.antt =====
-- A version claim is a compare-and-set that always moves the stamp.
use mongokit.Prelude.{
  String, ◌≡◌, refl, ap, subst, ◌∙◌, Bool, false, not, ◌&&◌, Option, none, some, str_eq, eq_refl,
  Bool-cases, inl, inr, returns, ◌>>◌, throw_if, >>=-eq-returns, returns-injective,
}
use mongokit.Js.Object.{Object, get, has, put, get-put}
use mongokit.Js.Value.{ℤ, Value, num, object, entries-fields}
use mongokit.Claim.Ids.{IdType, IdRuntime, is_valid_id_for_type}
use mongokit.Claim.{
  Command, find_one_and_update, or_name, caller_set_of, assert_no_mixed_patch_shape,
}
use mongokit.Claim.Laws.{query}
use mongokit.Claim.Version.{
  VersionTransition, version_in_set, version_in_inc, or_one, version_match, version_filter,
  operator_shape, version_update, version_command, claim_version, bad_shape,
}

-- What an update makes of the stamp: the operator and its operand.
unfoldable pub operand : String → Object Value → String → Option Value
unfolding caller_set_of
operand op u k = get k (caller_set_of (get op u))

-- The stamp is set where there was none, and incremented otherwise.
abbrev pub stamp_operator : Option ℤ → String
stamp_operator none = "$set"
stamp_operator (some n) = "$inc"

get-put_same : (k : String) (v : Value) (o : Object Value) → get k (put k v o) ≡ some v
get-put_same k v o = rw (get-put k k v o, eq_refl k) refl

operand-put :
    (op k : String) (v : Value) (inner u : Object Value)
    → operand op (put op (object (put k v inner)) u) k ≡ some v
unfolding operand caller_set_of object
operand-put op k v inner u =
    ap (λ x. get k (caller_set_of x)) (get-put_same op (object (put k v inner)) u)
    ∙ ap (get k) (entries-fields (put k v inner))
    ∙ get-put_same k v inner

operand-version_update :
    (k : String) (from : Option ℤ) (step : ℤ) (u w : Object Value)
    → version_update k from step u ≡ returns w
    → operand (stamp_operator from) w k ≡ some (num step)
unfolding version_update
operand-version_update k none step u w h =
    let (x, a, d) =
      >>=-eq-returns
        (throw_if (has k (caller_set_of (get "$set" u))) version_in_set
          >> throw_if (has k (caller_set_of (get "$inc" u))) version_in_inc)
        _ h in
    subst (λ z. operand "$set" z k ≡ some (num step)) (returns-injective _ _ d)
      (operand-put "$set" k (num step) _ _)
operand-version_update k (some n) step u w h =
    subst (λ z. operand "$inc" z k ≡ some (num step)) (returns-injective _ _ h)
      (operand-put "$inc" k (num step) _ _)

some_same : (a b : Object Value) → some a ≡ some b → a ≡ b
some_same a b h = cc

update_same :
    (q u p w : Object Value) (a b : Bool)
    → find_one_and_update q u a ≡ find_one_and_update p w b
    → u ≡ w
update_same q u p w a b h = cc

query-version_command :
    (rt : IdRuntime) (id_type : IdType) (id_field : String) (id : Value) (q u p : Object Value)
    → query (version_command rt id_type id_field id q u) ≡ some p
    → q ≡ p
unfolding version_command
query-version_command rt id_type id_field id q u p h =
    elim (Bool-cases (str_eq id_field "_id" && not (is_valid_id_for_type rt id id_type))) [
      | inl e ↦ absurd (cc (rw e at h))
      | inr e ↦ some_same q p (rw e at h)
    ]

update-version_command :
    (rt : IdRuntime) (id_type : IdType) (id_field : String) (id : Value) (q u p w : Object Value)
    (b : Bool)
    → version_command rt id_type id_field id q u ≡ find_one_and_update p w b
    → u ≡ w
unfolding version_command
update-version_command rt id_type id_field id q u p w b h =
    elim (Bool-cases (str_eq id_field "_id" && not (is_valid_id_for_type rt id id_type))) [
      | inl e ↦ absurd (cc (rw e at h))
      | inr e ↦ update_same q u p w false b (rw e at h)
    ]

module _ (rt : IdRuntime) (id_type : IdType) (id_field : String) (id : Value)
    (t : VersionTransition) (update : Object Value) (c : Command)
    (h : claim_version rt id_type id_field id t update ≡ returns c) where
  -- Where the version field is not the id field: the command of a version claim selects by the
  -- given id and the given version (null where the row is to have none yet), also where the
  -- caller's `where` names one of these fields; and its update moves the stamp by the given step
  -- (from none, sets it to the step), whatever else the caller's update does with that field.
  pub claim_version-Pins :
      (q u : Object Value) (b : Bool)
      → str_eq (or_name t.version_field "version") id_field ≡ false
      → c ≡ find_one_and_update q u b
      → (get id_field q ≡ some id)
        × (get (or_name t.version_field "version") q ≡ some (version_match t.from_version))
        × (operand (stamp_operator t.from_version) u (or_name t.version_field "version")
            ≡ some (num (or_one t.by)))
  unfolding claim_version version_filter
  claim_version-Pins q u b n e =
      let k = or_name t.version_field "version" in
      let f = version_filter id_field id k t in
      let (x, a, r) = >>=-eq-returns (bad_shape (assert_no_mixed_patch_shape update)) _ h in
      let (w, d, s) =
        >>=-eq-returns (version_update k t.from_version (or_one t.by) (operator_shape update)) _
          r in
      let made : version_command rt id_type id_field id f w ≡ find_one_and_update q u b =
        returns-injective _ _ s ∙ e in
      let same : f ≡ q = query-version_command rt id_type id_field id f w q (ap query made) in
      let moved : w ≡ u = update-version_command rt id_type id_field id f w q u b made in
      (
        subst (λ z. get id_field z ≡ some id) same
            (rw (get-put k id_field, n, get-put, eq_refl) refl),
        subst (λ z. get k z ≡ some (version_match t.from_version)) same
            (rw (get-put, eq_refl) refl),
        subst (λ z. operand (stamp_operator t.from_version) z k ≡ some (num (or_one t.by))) moved
            (operand-version_update k t.from_version (or_one t.by) (operator_shape update) w d),
      )
