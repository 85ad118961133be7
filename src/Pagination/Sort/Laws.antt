-- ===== src/Pagination/Sort/Laws.antt =====
-- What a validated keyset sort looks like.
use mongokit.Prelude.{
  String, ◌≡◌, refl, sym, ap, subst, ◌∙◌, ◌≢◌, ◌⊎◌, inl, inr, true, false, Option, none, some, List,
  [], ◌∷◌, ◌++◌, arith, str_eq, eq_iff, if◌then◌else◌, Bool-cases, All, append_assoc, append-nil,
  returns, ◌>>◌, >>=-eq-returns, returns-injective,
}
use mongokit.Js.Object.{get, has, put, keys, get-put}
use mongokit.Js.Object.Laws.{IsObject, IsObject-put, IsObject-append_one, put_new, has-append}
use mongokit.Js.Value.{ℤ, pos, negsuc, int_eq}
use mongokit.Pagination.Sort.{
  SortSpec, normalize_from, with_id, normalize_sort, is_direction, check_directions, includes,
  is_empty, check_allowed, check_same, check_id, check_fields, non_id, validate_keyset_sort,
}

-- All fields in one direction.
abbrev pub directed : ℤ → List String → SortSpec
directed d [] = []
directed d (f ∷ fs) = (f, d) ∷ directed d fs

int_eq→eq : (a b : ℤ) → int_eq a b ≡ true → a ≡ b
unfolding int_eq
int_eq→eq (pos a) (pos b) h = ground arith
int_eq→eq (negsuc a) (negsuc b) h = ground arith
int_eq→eq (pos a) (negsuc b) h = cc
int_eq→eq (negsuc a) (pos b) h = cc

has-non_id : (k : String) (s : SortSpec) → has k s ≡ false → has k (non_id s) ≡ false
unfolding has non_id
has-non_id k [] h = refl
has-non_id k ((j, d) ∷ s) h = ground (arith, has-non_id k s)

non_id-has_id : (s : SortSpec) → has "_id" (non_id s) ≡ false
unfolding has non_id
non_id-has_id [] = refl
non_id-has_id ((j, d) ∷ s) = ground (arith, non_id-has_id s)

IsObject-non_id : (s : SortSpec) → IsObject s → IsObject (non_id s)
unfolding non_id
IsObject-non_id [] h = tt
IsObject-non_id ((j, d) ∷ s) h = ground (arith, IsObject-non_id s, has-non_id j s)

-- Building the normalized sort: the entries other than `_id`, in their order.
normalize_from-eq :
    (n s : SortSpec)
    → IsObject s
    → ((k : String) → has k n ≡ true → has k s ≡ false)
    → normalize_from n s ≡ n ++ non_id s
unfolding normalize_from non_id has
normalize_from-eq n [] h a = sym (append-nil n)
normalize_from-eq n ((k, d) ∷ s) h a = elim (Bool-cases (str_eq k "_id")) [
  | inl e ↦ rw e (normalize_from-eq n s h.1 (λ j p. ground (arith, a j)))
  | inr e ↦ rw e (
      rw (put_new k d n (ground (arith, a k, eq_iff k k))) (
        normalize_from-eq (n ++ (k, d) ∷ []) s h.1
          (λ j p. ground (arith, a j, has-append j n ((k, d) ∷ []), eq_iff k j))
        ∙ append_assoc n ((k, d) ∷ []) (non_id s)))
]

-- `_id` goes last.
normalize_sort-eq :
    (s : SortSpec) → IsObject s → normalize_sort s ≡ with_id (get "_id" s) (non_id s)
unfolding normalize_sort has
normalize_sort-eq s h = ap (with_id (get "_id" s)) (normalize_from-eq [] s h (λ k p. cc))

with_id-some : (s : SortSpec) (d : ℤ) → with_id (some d) (non_id s) ≡ non_id s ++ ("_id", d) ∷ []
unfolding with_id
with_id-some s d = put_new "_id" d (non_id s) (non_id-has_id s)

check_same-directed :
    (d : ℤ) (s : SortSpec) (u : Unit {0}) → check_same d s ≡ returns u → s ≡ directed d (keys s)
unfolding check_same
check_same-directed d [] u h = refl
check_same-directed d ((k, e) ∷ s) u h =
    let p = check_same-directed d s u in ground (arith, p, int_eq→eq e d)

check_allowed-All :
    (allowed : List String) (s : SortSpec) (u : Unit {0})
    → check_allowed allowed s ≡ returns u
    → All (λ k. includes allowed k ≡ true) (keys s)
unfolding check_allowed
check_allowed-All allowed [] u h = tt
check_allowed-All allowed ((k, e) ∷ s) u h = ground (arith, check_allowed-All allowed s u)

check_directions-primary :
    (s : SortSpec) (u : Unit {0}) (k : String) (d : ℤ) (rest : SortSpec)
    → check_directions s ≡ returns u
    → non_id s ≡ (k, d) ∷ rest
    → is_direction d ≡ true
unfolding check_directions non_id
check_directions-primary [] u k d rest h e = cc
check_directions-primary ((j, c) ∷ s) u k d rest h e =
    ground (arith, check_directions-primary s u k d rest)

non_id-put_id : (d : ℤ) (s : SortSpec) → non_id (put "_id" d s) ≡ non_id s
unfolding non_id put
non_id-put_id d [] = refl
non_id-put_id d ((k, e) ∷ s) = ground (arith, non_id-put_id d s, eq_iff k "_id")

non_id-eq-nil : (s : SortSpec) → non_id s ≡ [] → has "_id" s ≡ false → s ≡ []
unfolding non_id has
non_id-eq-nil [] h e = refl
non_id-eq-nil ((k, d) ∷ s) h e = ground (arith, non_id-eq-nil s)

-- The form of a sort that keyset pagination can continue from.
pub record IsKeysetSort (allowed names : List String) (t : SortSpec) : Type 0 where
  pub direction : ℤ
  pub valid : is_direction direction ≡ true
  pub shape : t ≡ directed direction names ++ ("_id", direction) ∷ []
  pub distinct : IsObject t
  pub permitted : (is_empty allowed ≡ true) ⊎ All (λ k. includes allowed k ≡ true) names

module _ (allowed : List String) (sort t : SortSpec) (h : IsObject sort) where
  -- What the last two steps return.
  check_id_lem :
      (primary : ℤ) (o : Option ℤ)
      → get "_id" sort ≡ o
      → check_id primary sort o ≡ returns t
      → t ≡ non_id sort ++ ("_id", primary) ∷ []
  unfolding check_id
  check_id_lem primary (some d) e r = elim (Bool-cases (int_eq d primary)) [
    | inl q ↦
        sym (returns-injective _ _ (rw q at r))
        ∙ normalize_sort-eq sort h
        ∙ ap (λ x. with_id x (non_id sort)) e
        ∙ with_id-some sort d
        ∙ ap (λ c. non_id sort ++ ("_id", c) ∷ []) (int_eq→eq d primary q)
    | inr q ↦ ground arith
  ]
  check_id_lem primary none e r =
      let s = put "_id" primary sort in
      sym (returns-injective _ _ r)
      ∙ normalize_sort-eq s (IsObject-put "_id" primary sort h)
      ∙ ap (λ x. with_id x (non_id s)) (get-put "_id" "_id" primary sort)
      ∙ with_id-some s primary
      ∙ ap (λ c. c ++ ("_id", primary) ∷ []) (non_id-put_id primary sort)

  finish :
      (primary : ℤ)
      → is_direction primary ≡ true
      → non_id sort ≡ directed primary (keys (non_id sort))
      → (is_empty allowed ≡ true) ⊎ All (λ k. includes allowed k ≡ true) (keys (non_id sort))
      → check_id primary sort (get "_id" sort) ≡ returns t
      → IsKeysetSort allowed (keys (non_id sort)) t
  finish primary v same p e =
      let shape = check_id_lem primary (get "_id" sort) refl e in
      record {
        direction = primary;
        valid = v;
        shape = shape ∙ ap (λ c. c ++ ("_id", primary) ∷ []) same;
        distinct = subst IsObject (sym shape) (
            IsObject-append_one "_id" primary (non_id sort) (IsObject-non_id sort h)
              (non_id-has_id sort));
        permitted = p;
      }

  permitted_of :
      (s : SortSpec) (u : Unit {0})
      → (if is_empty allowed then returns tt else check_allowed allowed s) ≡ returns u
      → (is_empty allowed ≡ true) ⊎ All (λ k. includes allowed k ≡ true) (keys s)
  permitted_of s u e = elim (Bool-cases (is_empty allowed)) [
    | inl q ↦ inl q
    | inr q ↦ inr (check_allowed-All allowed s u (rw q at e))
  ]

  check_fields-IsKeysetSort :
      (u : Unit {0}) (l : SortSpec)
      → sort ≢ []
      → non_id sort ≡ l
      → check_directions sort ≡ returns u
      → check_fields allowed sort l ≡ returns t
      → IsKeysetSort allowed (keys (non_id sort)) t
  unfolding check_fields
  check_fields-IsKeysetSort u [] ne same c e = elim (Bool-cases (has "_id" sort)) [
    | inl q ↦ ground arith
    | inr q ↦ absurd (ne (non_id-eq-nil sort same q))
  ]
  check_fields-IsKeysetSort u ((k, d) ∷ rest) ne same c e =
      let (_, ok, e₁) = >>=-eq-returns _ _ e in
      let (_, one, e₂) = >>=-eq-returns _ _ e₁ in
      finish d (check_directions-primary sort u k d rest c same)
        (rw same (check_same-directed d ((k, d) ∷ rest) tt one))
        (rw same (permitted_of ((k, d) ∷ rest) tt ok)) e₂

  checked-IsKeysetSort :
      sort ≢ []
      → (check_directions sort >> check_fields allowed sort (non_id sort)) ≡ returns t
      → IsKeysetSort allowed (keys (non_id sort)) t
  checked-IsKeysetSort ne e =
      let (u, c, e') = >>=-eq-returns _ _ e in
      check_fields-IsKeysetSort u (non_id sort) ne refl c e'

-- A sort that is accepted for keyset pagination, unless it is on `_id` alone, becomes its own
-- fields in their order and then `_id`, all in one valid direction and no key twice; and every
-- field is on the allowlist, where one is set.
pub validate_keyset_sort-IsKeysetSort :
    (allowed : List String) (sort t : SortSpec)
    → IsObject sort
    → keys sort ≢ "_id" ∷ []
    → validate_keyset_sort allowed sort ≡ returns t
    → IsKeysetSort allowed (keys (non_id sort)) t
unfolding validate_keyset_sort
validate_keyset_sort-IsKeysetSort allowed [] t h ne e = cc
validate_keyset_sort-IsKeysetSort allowed ((k, d) ∷ []) t h ne e =
    elim (Bool-cases (str_eq k "_id")) [
      | inl q ↦ absurd (ne (ap (λ x. x ∷ []) ((eq_iff k "_id").0 q)))
      | inr q ↦ checked-IsKeysetSort allowed ((k, d) ∷ []) t h (cc) (rw q at e)
    ]
validate_keyset_sort-IsKeysetSort allowed ((k, d) ∷ x ∷ s) t h ne e =
    checked-IsKeysetSort allowed ((k, d) ∷ x ∷ s) t h (cc) e

-- What holds of every listed name holds of a name that is listed.
pub All-includes {ℓ} :
    (P : String → Type ℓ) (fs : List String) → All P fs → (f : String) → includes fs f ≡ true → P f
unfolding includes
All-includes P [] h f p = cc
All-includes P (g ∷ fs) h f p = elim (Bool-cases (str_eq g f)) [
  | inl e ↦ subst P ((eq_iff g f).0 e) h.0
  | inr e ↦ All-includes P fs h.1 f (rw e at p)
]
