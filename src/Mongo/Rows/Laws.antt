-- ===== src/Mongo/Rows/Laws.antt =====
-- Lists of rows under edits, and the rows of a filter in the order of their ids.
use mongokit.Prelude.{
  ◌≡◌, refl, sym, ap, ◌∙◌, Bool, true, false, Option, none, some, List, [], ◌∷◌, ◌++◌, filter, All,
  Bool-cases, Option-cases, inl, inr,
}
use mongokit.Pagination.Keyset.Order.{IsSorted}
use mongokit.Mongo.Rows.{put_if, edit}

-- One edit of a row after another.
abbrev pub then_edit {ℓ} : {A : Type ℓ} → Option A → (A → Option A) → Option A
then_edit none g = none
then_edit (some x) g = g x

module _ {ℓ} {A : Type ℓ} where
  pub All-map {κ μ} :
      {P : A → Type κ} {Q : A → Type μ}
      → ((x : A) → P x → Q x)
      → (xs : List A) → All P xs
      → All Q xs
  All-map k [] a = tt
  All-map k (x ∷ xs) (h, a) = (k x h, All-map k xs a)

  pub edit-edit :
      (g h k : A → Option A) (xs : List A)
      → All (λ x. then_edit (g x) h ≡ k x) xs
      → edit h (edit g xs) ≡ edit k xs
  edit-edit g h k [] a = refl
  edit-edit g h k (x ∷ xs) (e, a) = elim (Option-cases (g x)) [
    | inl n ↦ let t : none ≡ k x = rw n at e in rw (n, sym t) (edit-edit g h k xs a)
    | inr (y, n) ↦
        let t : h y ≡ k x = rw n at e in rw (n, t) (ap (put_if (k x)) (edit-edit g h k xs a))
  ]

  pub edit_congr :
      (g h : A → Option A) (xs : List A) → All (λ x. g x ≡ h x) xs → edit g xs ≡ edit h xs
  edit_congr g h [] a = refl
  edit_congr g h (x ∷ xs) (e, a) = rw e (ap (put_if (h x)) (edit_congr g h xs a))

  pub All-edit {κ} :
      (P : A → Type κ) (g : A → Option A) (xs : List A)
      → ((x y : A) → P x → g x ≡ some y → P y)
      → All P xs
      → All P (edit g xs)
  All-edit P g [] k a = tt
  All-edit P g (x ∷ xs) k (h, a) = elim (Option-cases (g x)) [
    | inl e ↦ rw e (All-edit P g xs k a)
    | inr (y, e) ↦ rw e (k x y h e, All-edit P g xs k a)
  ]

  pub IsSorted-edit :
      (r : A → A → Bool) (g : A → Option A) (xs : List A)
      → ((x y z : A) → g x ≡ some y → r y z ≡ r x z)
      → ((x y z : A) → g x ≡ some y → r z y ≡ r z x)
      → IsSorted r xs
      → IsSorted r (edit g xs)
  IsSorted-edit r g [] left right s = tt
  IsSorted-edit r g (x ∷ xs) left right (h, s) = elim (Option-cases (g x)) [
    | inl e ↦ rw e (IsSorted-edit r g xs left right s)
    | inr (y, e) ↦ rw e (
      All-edit (λ z. r y z ≡ true) g xs (λ z w a b. right z w y b ∙ a)
          (All-map (λ z a. left x y z e ∙ a) xs h),
      IsSorted-edit r g xs left right s,
    )
  ]

  -- An edit that leaves the rows of a filter, and makes no others pass it.
  pub filter-edit :
      (p : A → Bool) (g : A → Option A) (xs : List A)
      → All
          (λ x. (p x ≡ true → g x ≡ some x) × (p x ≡ false → (y : A) → g x ≡ some y → p y ≡ false))
          xs
      → filter p (edit g xs) ≡ filter p xs
  filter-edit p g [] a = refl
  filter-edit p g (x ∷ xs) ((h, k), a) = elim (Bool-cases (p x)) [
    | inl e ↦ rw (h e, e) (ap (λ ys. x ∷ ys) (filter-edit p g xs a))
    | inr e ↦ elim (Option-cases (g x)) [
      | inl n ↦ rw (n, e) (filter-edit p g xs a)
      | inr (y, n) ↦ rw (n, e, k e y n) (filter-edit p g xs a)
    ]
  ]

  pub All-filter_self : (p : A → Bool) (xs : List A) → All (λ x. p x ≡ true) (filter p xs)
  All-filter_self p [] = tt
  All-filter_self p (x ∷ xs) = elim (Bool-cases (p x)) [
    | inl e ↦ rw e (e, All-filter_self p xs)
    | inr e ↦ rw e (All-filter_self p xs)
  ]

  pub All-filter {κ} :
      (P : A → Type κ) (p : A → Bool) (xs : List A) → All P xs → All P (filter p xs)
  All-filter P p [] a = tt
  All-filter P p (x ∷ xs) (h, a) = elim (Bool-cases (p x)) [
    | inl e ↦ rw e (h, All-filter P p xs a)
    | inr e ↦ rw e (All-filter P p xs a)
  ]

  pub All-of_filter {κ} :
      (P : A → Type κ) (p : A → Bool) (xs : List A)
      → All P (filter p xs)
      → All (λ x. p x ≡ true → P x) xs
  All-of_filter P p [] a = tt
  All-of_filter P p (x ∷ xs) a = elim (Bool-cases (p x)) [
    | inl e ↦ let b : All P (x ∷ filter p xs) = rw e at a in ((λ t. b.0), All-of_filter P p xs b.1)
    | inr e ↦ ((λ t. absurd (cc (t, e))), All-of_filter P p xs (rw e at a))
  ]

  pub All-zip {κ μ} :
      (P : A → Type κ) (Q : A → Type μ) (xs : List A)
      → All P xs
      → All Q xs
      → All (λ x. P x × Q x) xs
  All-zip P Q [] a b = tt
  All-zip P Q (x ∷ xs) (p, a) (q, b) = ((p, q), All-zip P Q xs a b)

  pub All-split {κ} : (P : A → Type κ) (xs ys : List A) → All P (xs ++ ys) → All P xs × All P ys
  All-split P [] ys a = (tt, a)
  All-split P (x ∷ xs) ys (h, a) = let (b, c) = All-split P xs ys a in ((h, b), c)

  -- In a sorted list, the first part is before the second.
  pub IsSorted-append :
      (r : A → A → Bool) (xs ys : List A)
      → IsSorted r (xs ++ ys)
      → All (λ x. All (λ y. r x y ≡ true) ys) xs × IsSorted r xs × IsSorted r ys
  IsSorted-append r [] ys s = (tt, tt, s)
  IsSorted-append r (x ∷ xs) ys (h, s) =
      let (a, b) = All-split (λ y. r x y ≡ true) xs ys h in
      let (c, d, e) = IsSorted-append r xs ys s in ((b, c), (a, d), e)

  pub All-swap :
      (r : A → A → Bool) (xs ys : List A)
      → All (λ x. All (λ y. r x y ≡ true) ys) xs
      → All (λ y. All (λ x. r x y ≡ true) xs) ys
  All-swap r xs [] a = tt
  All-swap r xs (y ∷ ys) a =
      (All-map (λ x h. h.0) xs a, All-swap r xs ys (All-map (λ x h. h.1) xs a))
