-- ===== src/Tenant/Laws.antt =====
-- What a call that goes through the tenant hook looks like afterwards.
use mongokit.Prelude.{
  String, ◌≡◌, refl, sym, ap, subst, ◌∙◌, true, false, ◌||◌, Option, none, some, List, [], ◌∷◌,
  ◌++◌, All, All-append, str_eq, eq_refl, eq_iff, arith, Bool-cases, Option-cases, inl, inr,
  returns, >>=-eq-returns, returns-injective,
}
use mongokit.Js.Object.{Object, get, put, get-put}
use mongokit.Js.Value.{Value}
use mongokit.Operations.{PolicyKey}
use mongokit.Pagination.Sort.{includes}
use mongokit.Tenant.{
  Body, Context, TenantOptions, or_empty, is_absent, agrees, assert_tenant_value, stamp, stamp_data,
  stamp_all, stamp_filter, stamp_document, stamp_filters, stamp_operation, stamp_operations, inject,
  filter_keys,
}

-- The objects in one entry of `bulkWrite` that name a tenant.
abbrev pub filter_of : Option Body → Option (Object Value)
filter_of none = none
filter_of (some b) = b.filter

abbrev pub document_of : Option Body → Option (Object Value)
document_of none = none
document_of (some b) = b.document

-- The document that `replaceOne` writes.
abbrev pub body_replacement : Option Body → Option (Object Value)
body_replacement none = none
body_replacement (some b) = b.replacement

abbrev pub replacements : List (Object Body) → List (Option (Object Value))
replacements [] = []
replacements (x ∷ xs) = body_replacement (get "replaceOne" x) ∷ replacements xs

abbrev pub filters_of : List String → Object Body → List (Option (Object Value))
filters_of [] sub = []
filters_of (k ∷ ks) sub = filter_of (get k sub) ∷ filters_of ks sub

abbrev pub parts_of : Object Body → List (Option (Object Value))
parts_of sub = document_of (get "insertOne" sub) ∷ filters_of filter_keys sub

abbrev pub all_parts : List (Object Body) → List (Option (Object Value))
all_parts [] = []
all_parts (x ∷ xs) = parts_of x ++ all_parts xs

abbrev pub or_nil {ℓ} : {A : Type ℓ} → Option (List A) → List A
or_nil none = []
or_nil (some xs) = xs

-- All the objects of a call that select or make documents, by where the operation takes them.
abbrev pub targets : PolicyKey → Context → List (Option (Object Value))
targets PolicyKey.filters c = some (or_empty c.filters) ∷ []
targets PolicyKey.query c = some (or_empty c.query) ∷ []
targets PolicyKey.data_ c = c.data_ ∷ []
targets PolicyKey.data_array c = or_nil c.data_array
targets PolicyKey.operations c = all_parts (or_nil c.operations)
targets PolicyKey.none_ c = []

abbrev IsDistinct : List String → Type 0
IsDistinct [] = Unit
IsDistinct (k ∷ ks) = (includes ks k ≡ false) × IsDistinct ks

filters_of-congr :
    (ks : List String) (a b : Object Body)
    → ((j : String) → includes ks j ≡ true → get j a ≡ get j b)
    → filters_of ks a ≡ filters_of ks b
unfolding includes
filters_of-congr [] a b f = refl
filters_of-congr (k ∷ ks) a b f =
    rw (f k (rw eq_refl refl), filters_of-congr ks a b (λ j h. f j (ground arith))) refl

none_true : false ≡ true → ⊥
none_true p = cc

other_key : (j : String) → includes filter_keys j ≡ true → str_eq "insertOne" j ≡ false
unfolding includes
other_key j i = elim (Bool-cases (str_eq "insertOne" j)) [
  | inl e ↦
      absurd (
        none_true (subst (λ k. includes filter_keys k ≡ true) (sym ((eq_iff "insertOne" j).0 e)) i))
  | inr e ↦ e
]

module _ (options : TenantOptions) (cast : Value) where
  open options use {tenant_field, overwrites}

  -- An object names the tenant; what it named before was absent, or the same, or may be overwritten.
  abbrev pub IsStamped : Option (Object Value) → Type 0
  IsStamped none = Unit
  IsStamped (some o) = get tenant_field o ≡ some cast

  abbrev pub Agrees : Option (Object Value) → Type 0
  Agrees none = Unit
  Agrees (some o) =
      (overwrites || is_absent (get tenant_field o) || agrees options cast (get tenant_field o))
      ≡ true

  stamp_lem :
      (o p : Object Value)
      → stamp options cast o ≡ returns p
      → (get tenant_field p ≡ some cast) × Agrees (some o)
  unfolding stamp assert_tenant_value
  stamp_lem o p h =
      let s = get tenant_field o in
      elim (Bool-cases (overwrites || is_absent s || agrees options cast s)) [
        | inl e ↦
            let q : put tenant_field cast o ≡ p = returns-injective _ _ (rw e at h) in
            (rw (sym q, get-put, eq_refl) refl, e)
        | inr e ↦ absurd (cc (rw e at h))
      ]

  stamp_data_lem :
      (x y : Option (Object Value)) → stamp_data options cast x ≡ returns y → IsStamped y × Agrees x
  unfolding stamp_data
  stamp_data_lem none y h = subst (λ z. IsStamped z × Unit) (returns-injective _ _ h) (tt, tt)
  stamp_data_lem (some o) y h =
      let (p, a, b) = >>=-eq-returns (stamp options cast o) _ h in
      let (g, e) = stamp_lem o p a in (subst IsStamped (returns-injective _ _ b) g, e)

  stamp_all_lem :
      (xs ys : List (Option (Object Value)))
      → stamp_all options cast xs ≡ returns ys
      → All IsStamped ys × All Agrees xs
  unfolding stamp_all
  stamp_all_lem [] ys h = (subst (All IsStamped) (returns-injective _ _ h) tt, tt)
  stamp_all_lem (x ∷ xs) ys h =
      let (y, a, f) = >>=-eq-returns (stamp_data options cast x) _ h in
      let (zs, b, g) = >>=-eq-returns (stamp_all options cast xs) _ f in
      let (p, q) = stamp_data_lem x y a in
      let (r, s) = stamp_all_lem xs zs b in
      (subst (All IsStamped) (returns-injective _ _ g) (p, r), (q, s))

  stamp_filter_lem :
      (k : String) (sub r : Object Body) (b : Option Body)
      → get k sub ≡ b
      → stamp_filter options cast k sub b ≡ returns r
      → IsStamped (filter_of (get k r))
        × Agrees (filter_of (get k sub))
        × ((j : String) → str_eq k j ≡ false → get j r ≡ get j sub)
        × (body_replacement (get k r) ≡ body_replacement (get k sub))
  unfolding stamp_filter
  stamp_filter_lem k sub r none e h =
      let p = returns-injective _ _ h in rw (sym p, e) (tt, tt, (λ j n. refl), refl)
  stamp_filter_lem k sub r (some body) e h =
      let (f, a, g) = >>=-eq-returns (stamp_data options cast body.filter) _ h in
      let (s, t) = stamp_data_lem body.filter f a in
      let p = returns-injective _ _ g in
      rw (sym p, e)
        (rw (get-put, eq_refl) s, t, (λ j n. rw (get-put, n) refl), (rw (get-put, eq_refl) refl))

  stamp_filters_lem :
      (ks : List String) (sub r : Object Body)
      → IsDistinct ks
      → stamp_filters options cast ks sub ≡ returns r
      → All IsStamped (filters_of ks r)
        × All Agrees (filters_of ks sub)
        × ((j : String) → includes ks j ≡ false → get j r ≡ get j sub)
        × ((j : String) → body_replacement (get j r) ≡ body_replacement (get j sub))
  unfolding stamp_filters includes
  stamp_filters_lem [] sub r n h =
      rw (sym (returns-injective _ _ h)) (tt, tt, (λ j m. refl), (λ j. refl))
  stamp_filters_lem (k ∷ ks) sub r (m, n) h =
      let (mid, a, b) = >>=-eq-returns (stamp_filter options cast k sub (get k sub)) _ h in
      let (s, t, keep, kept) = stamp_filter_lem k sub mid (get k sub) refl a in
      let (ss, ts, keeps, kepts) = stamp_filters_lem ks mid r n b in
      let same = filters_of-congr ks mid sub (λ j i. keep j (ground (arith, eq_iff k j))) in
      (
        (rw (keeps k m) s, ss),
        (t, subst (All Agrees) same ts),
        (λ j i. keeps j (ground arith) ∙ keep j (ground arith)),
        (λ j. kepts j ∙ elim (Bool-cases (str_eq k j)) [
          | inl e ↦
              subst (λ x. body_replacement (get x mid) ≡ body_replacement (get x sub))
                ((eq_iff k j).0 e) kept
          | inr e ↦ ap body_replacement (keep j e)
        ]),
      )

  stamp_document_lem :
      (sub r : Object Body) (b : Option Body)
      → get "insertOne" sub ≡ b
      → stamp_document options cast sub b ≡ returns r
      → IsStamped (document_of (get "insertOne" r))
        × Agrees (document_of (get "insertOne" sub))
        × ((j : String) → str_eq "insertOne" j ≡ false → get j r ≡ get j sub)
  unfolding stamp_document
  stamp_document_lem sub r none e h = rw (sym (returns-injective _ _ h), e) (tt, tt, λ j n. refl)
  stamp_document_lem sub r (some body) e h =
      let (d, a, g) = >>=-eq-returns (stamp_data options cast body.document) _ h in
      let (s, t) = stamp_data_lem body.document d a in
      rw (sym (returns-injective _ _ g), e) (rw get-put s, t, λ j n. rw (get-put, n) refl)

  stamp_operation_lem :
      (sub r : Object Body)
      → stamp_operation options cast sub ≡ returns r
      → All IsStamped (parts_of r)
        × All Agrees (parts_of sub)
        × (body_replacement (get "replaceOne" r) ≡ body_replacement (get "replaceOne" sub))
  unfolding stamp_operation includes
  stamp_operation_lem sub r h =
      let (mid, a, b) = >>=-eq-returns (stamp_filters options cast filter_keys sub) _ h in
      let (ss, ts, keeps, kepts) =
        stamp_filters_lem filter_keys sub mid (refl, (refl, (refl, (refl, (refl, tt))))) a in
      let (s, t, keep) = stamp_document_lem mid r (get "insertOne" mid) refl b in
      let same = filters_of-congr filter_keys r mid (λ j i. keep j (other_key j i)) in
      (
        (s, subst (All IsStamped) (sym same) ss),
        (rw (sym (keeps "insertOne" refl)) t, ts),
        ap body_replacement (keep "replaceOne" refl) ∙ kepts "replaceOne",
      )

  stamp_operations_lem :
      (xs ys : List (Object Body))
      → stamp_operations options cast xs ≡ returns ys
      → All IsStamped (all_parts ys)
        × All Agrees (all_parts xs)
        × (replacements ys ≡ replacements xs)
  unfolding stamp_operations
  stamp_operations_lem [] ys h = rw (sym (returns-injective _ _ h)) (tt, tt, refl)
  stamp_operations_lem (x ∷ xs) ys h =
      let (y, a, f) = >>=-eq-returns (stamp_operation options cast x) _ h in
      let (zs, b, g) = >>=-eq-returns (stamp_operations options cast xs) _ f in
      let (p, q, u) = stamp_operation_lem x y a in
      let (r, s, v) = stamp_operations_lem xs zs b in
      rw (sym (returns-injective _ _ g)) (
        All-append IsStamped (parts_of y) (all_parts zs) p r,
        All-append Agrees (parts_of x) (all_parts xs) q s,
        (λ i. u i ∷ v i),
      )

  pub inject_lem :
      (key : PolicyKey) (c d : Context)
      → inject options key cast c ≡ returns d
      → All IsStamped (targets key d)
        × All Agrees (targets key c)
        × (replacements (or_nil d.operations) ≡ replacements (or_nil c.operations))
  unfolding inject
  inject_lem PolicyKey.filters c d h =
      let (o, a, b) = >>=-eq-returns (stamp options cast (or_empty c.filters)) _ h in
      let (s, t) = stamp_lem (or_empty c.filters) o a in
      rw (sym (returns-injective _ _ b)) ((s, tt), (t, tt), refl)
  inject_lem PolicyKey.query c d h =
      let (o, a, b) = >>=-eq-returns (stamp options cast (or_empty c.query)) _ h in
      let (s, t) = stamp_lem (or_empty c.query) o a in
      rw (sym (returns-injective _ _ b)) ((s, tt), (t, tt), refl)
  inject_lem PolicyKey.data_ c d h =
      let (o, a, b) = >>=-eq-returns (stamp_data options cast c.data_) _ h in
      let (s, t) = stamp_data_lem c.data_ o a in
      rw (sym (returns-injective _ _ b)) ((s, tt), (t, tt), refl)
  inject_lem PolicyKey.data_array c d h = elim (Option-cases c.data_array) [
    | inl e ↦ rw (sym (returns-injective _ _ (rw e at h)), e) (tt, tt, refl)
    | inr (xs, e) ↦
        let (ys, a, b) = >>=-eq-returns (stamp_all options cast xs) _ (rw e at h) in
        let (s, t) = stamp_all_lem xs ys a in rw (sym (returns-injective _ _ b), e) (s, t, refl)
  ]
  inject_lem PolicyKey.operations c d h = elim (Option-cases c.operations) [
    | inl e ↦ rw (sym (returns-injective _ _ (rw e at h)), e) (tt, tt, refl)
    | inr (xs, e) ↦
        let (ys, a, b) = >>=-eq-returns (stamp_operations options cast xs) _ (rw e at h) in
        let (s, t, u) = stamp_operations_lem xs ys a in
        rw (sym (returns-injective _ _ b), e) (s, t, u)
  ]
  inject_lem PolicyKey.none_ c d h = rw (sym (returns-injective _ _ h)) (tt, tt, refl)
