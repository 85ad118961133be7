-- ===== src/Pagination/Keyset/Order.antt =====
-- The order of a keyset sort, and what lies behind a row in a sorted list.
use mongokit.Prelude.{
  String, ◌≡◌, refl, sym, ap, subst, Bool, true, false, ◌&&◌, List, [], ◌∷◌, ◌++◌, filter, keep,
  All, arith, Bool-cases, inl, inr,
}
use mongokit.Js.Value.{ℤ, Value}
use mongokit.Mongo.{Matching, IsLiteral}
use mongokit.Pagination.Sort.{includes}
use mongokit.Pagination.Filter.Behind.{includes_head, includes_tail}
use mongokit.Pagination.Filter.Semantics.{behind, lex_behind}

-- Each row is related to all that come after it.
abbrev pub IsSorted {ℓ} : {A : Type ℓ} → (A → A → Bool) → List A → Type ℓ
IsSorted r [] = Unit
IsSorted r (x ∷ xs) = All (λ y. r x y ≡ true) xs × IsSorted r xs

module _ {ℓ} {A : Type ℓ} (r : A → A → Bool) where
  filter-All : (x : A) (xs : List A) → All (λ y. r x y ≡ true) xs → filter (r x) xs ≡ xs
  filter-All x [] h = refl
  filter-All x (y ∷ xs) h = rw h.0 (λ i. y ∷ filter-All x xs h.1 i)

  All-filter :
      (x : A) (p : A → Bool) (xs : List A)
      → All (λ y. r x y ≡ true) xs
      → All (λ y. r x y ≡ true) (filter p xs)
  All-filter x p [] h = tt
  All-filter x p (y ∷ xs) h = elim (Bool-cases (p y)) [
    | inl e ↦ rw e (h.0, All-filter x p xs h.1)
    | inr e ↦ rw e (All-filter x p xs h.1)
  ]

  pub IsSorted-filter : (p : A → Bool) (xs : List A) → IsSorted r xs → IsSorted r (filter p xs)
  IsSorted-filter p [] h = tt
  IsSorted-filter p (y ∷ xs) h = elim (Bool-cases (p y)) [
    | inl e ↦ rw e (All-filter y p xs h.0, IsSorted-filter p xs h.1)
    | inr e ↦ rw e (IsSorted-filter p xs h.1)
  ]

  All-middle :
      (x : A) (front : List A) (c : A) (rest : List A)
      → All (λ y. r x y ≡ true) (front ++ c ∷ rest)
      → r x c ≡ true
  All-middle x [] c rest h = h.0
  All-middle x (y ∷ front) c rest h = All-middle x front c rest h.1

  -- In a sorted list, what is related to a row is what comes after it.
  pub filter_after :
      ((x y : A) → r x y ≡ true → r y x ≡ false)
      → (front : List A) (c : A) (rest : List A) → IsSorted r (front ++ c ∷ rest)
      → filter (r c) (front ++ c ∷ rest) ≡ rest
  filter_after asym [] c rest h = elim (Bool-cases (r c c)) [
    | inl e ↦ cc (asym c c e)
    | inr e ↦ rw e (filter-All c rest h.0)
  ]
  filter_after asym (x ∷ front) c rest h =
      rw (asym x c (All-middle x front c rest h.0)) (filter_after asym front c rest h.1)

pub filter-filter {ℓ} :
    {A : Type ℓ} (p q : A → Bool) (xs : List A)
    → filter (λ x. p x && q x) xs ≡ filter q (filter p xs)
filter-filter p q [] = refl
filter-filter p q (x ∷ xs) = elim (Bool-cases (p x)) [
  | inl e ↦ rw e (ap (keep (q x) x) (filter-filter p q xs))
  | inr e ↦ rw e (filter-filter p q xs)
]

and_true : (a b : Bool) → (a && b) ≡ true → (a ≡ true) × (b ≡ true)
and_true a b h = ground arith

and_false : (a : Bool) → (a && false) ≡ false
and_false a = ground arith

-- Is a row behind another, field by field, in a direction?
abbrev pub row_behind : {D : Type 0} (m : Matching D) → ℤ → List String → D → D → Bool
row_behind m d fs x y = lex_behind m d (λ f. m.value_at f x) fs y

-- What the order of filters is taken to be on scalars: strict, and its equality exact.
pub record IsOrder {D : Type 0} (m : Matching D) : Type 0 where
  pub irreflexive : (a : Value) → IsLiteral a → m.below a a ≡ false
  pub asymmetric :
      (a b : Value) → IsLiteral a → IsLiteral b → m.below a b ≡ true → m.below b a ≡ false
  pub same-eq : (a b : Value) → IsLiteral a → IsLiteral b → m.same a b ≡ true → a ≡ b

module _ {D : Type 0} (m : Matching D) (o : IsOrder m) (d : ℤ) where
  behind_irreflexive : (a : Value) → IsLiteral a → behind m d a a ≡ false
  unfolding behind
  behind_irreflexive a h = ground (arith, o.irreflexive a h)

  behind_asymmetric :
      (a b : Value) → IsLiteral a → IsLiteral b → behind m d a b ≡ true → behind m d b a ≡ false
  unfolding behind
  behind_asymmetric a b h k = ground (arith, o.asymmetric a b h k, o.asymmetric b a k h)

  strict :
      (a b : Value) (c : Bool)
      → IsLiteral a
      → IsLiteral b
      → behind m d a b ≡ true
      → (m.same a b && c) ≡ false
  strict a b c h k e = elim (Bool-cases (m.same a b)) [
    | inl t ↦ let p = o.same-eq a b h k t in cc (e, behind_irreflexive a h, ap (behind m d a) p)
    | inr t ↦ rw t
  ]

  pub lex_behind_asymmetric :
      (fs : List String)
      → ((x : D) (f : String) → includes fs f ≡ true → IsLiteral (m.value_at f x))
      → (x y : D) → row_behind m d fs x y ≡ true
      → row_behind m d fs y x ≡ false
  unfolding lex_behind
  lex_behind_asymmetric [] l x y h = cc
  lex_behind_asymmetric (f ∷ fs) l x y h =
      let here = includes_head f fs in
      let a = m.value_at f x in
      let b = m.value_at f y in
      elim (Bool-cases (behind m d a b)) [
        | inl e ↦
            rw (behind_asymmetric a b (l x f here) (l y f here) e)
              (strict a b _ (l x f here) (l y f here) e)
        | inr e ↦
            let (t, next) = and_true (m.same b a) _ (rw e at h) in
            let ba = o.same-eq b a (l y f here) (l x f here) t in
            rw
              (
                subst (λ v. behind m d v a ≡ false) (sym ba) (behind_irreflexive a (l x f here)),
                lex_behind_asymmetric fs (λ z g p. l z g (includes_tail g f fs p)) x y next,
              )
              (and_false (m.same a b))
      ]
