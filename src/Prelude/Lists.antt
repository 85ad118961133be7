-- ===== src/Prelude/Lists.antt =====
-- Lists over the native numbers.
use Prim.Native.Nat.{ℕ, zero, suc, ◌+◌, ◌-◌, ◌≤◌, ◌<◌, min}
use mathlib.Core.Path.{◌≡◌, refl, sym, ap, subst, fun_ext, ◌∙◌}
use mathlib.Core.Logic.{◌⊎◌, inl, inr}
use mathlib.Core.Bool.{Bool, true, false, ◌&&◌, ◌||◌}
use mathlib.Core.Option.{Option, none, some}
use mathlib.Core.List.{List, [], ◌∷◌, ◌++◌}
use native.Mathlib.Nat.{zero-add, add-zero, suc-add}
use mongokit.Prelude.Tests.{ltb, ltb→lt, ltb_congr, if◌then◌else◌, Bool-cases}
use native.Mathlib.Omega.{arith}

module _ {ℓ} {A : Type ℓ} where
  abbrev pub length : List A → ℕ
  length [] = 0
  length (x ∷ xs) = suc (length xs)

  abbrev pub take : ℕ → List A → List A
  take zero xs = []
  take (suc n) [] = []
  take (suc n) (x ∷ xs) = x ∷ take n xs

  abbrev pub drop : ℕ → List A → List A
  drop zero xs = xs
  drop (suc n) [] = []
  drop (suc n) (x ∷ xs) = drop n xs

  -- `xs.every(p)`, `xs.some(p)`, `xs.filter(p)`
  abbrev pub every : (A → Bool) → List A → Bool
  every p [] = true
  every p (x ∷ xs) = p x && every p xs

  abbrev pub any : (A → Bool) → List A → Bool
  any p [] = false
  any p (x ∷ xs) = p x || any p xs

  abbrev pub keep : Bool → A → List A → List A
  keep true x xs = x ∷ xs
  keep false x xs = xs

  abbrev pub filter : (A → Bool) → List A → List A
  filter p [] = []
  filter p (x ∷ xs) = keep (p x) x (filter p xs)

  -- `xs.pop()`: all but the last.
  abbrev pub pop : List A → List A
  pop [] = []
  pop (x ∷ []) = []
  pop (x ∷ y ∷ xs) = x ∷ pop (y ∷ xs)

  -- `xs[xs.length - 1]`
  abbrev pub last : List A → Option A
  last [] = none
  last (x ∷ []) = some x
  last (x ∷ y ∷ xs) = last (y ∷ xs)

  pub last-append :
      (xs : List A)
      → 0 < length xs
      → (c : A) × (init : List A) × (xs ≡ init ++ c ∷ []) × (last xs ≡ some c)
  last-append [] h = absurd (omega arith)
  last-append (x ∷ []) h = (x, [], refl, refl)
  last-append (x ∷ y ∷ xs) h =
      let (c, init, e, l) = last-append (y ∷ xs) (omega arith) in (c, x ∷ init, (λ i. x ∷ e i), l)

  pub filter-congr :
      (p q : A → Bool) (xs : List A) → ((x : A) → p x ≡ q x) → filter p xs ≡ filter q xs
  filter-congr p q xs h = ap (λ r. filter r xs) (fun_ext h)

  pub pop_of_length : (n : ℕ) (xs : List A) → length xs ≡ suc n → pop xs ≡ take n xs
  pop_of_length n [] h = absurd (omega arith)
  pop_of_length zero (x ∷ []) h = refl
  pop_of_length (suc n) (x ∷ []) h = absurd (omega arith)
  pop_of_length zero (x ∷ y ∷ xs) h = absurd (omega arith)
  pop_of_length (suc n) (x ∷ y ∷ xs) h = λ i. x ∷ pop_of_length n (y ∷ xs) (omega arith) i

  pub length-take_of_le : (n : ℕ) (xs : List A) → n ≤ length xs → length (take n xs) ≡ n
  length-take_of_le zero xs h = omega arith
  length-take_of_le (suc n) [] h = absurd (omega arith)
  length-take_of_le (suc n) (x ∷ xs) h = omega (arith, length-take_of_le n xs)

  pub take_all : (n : ℕ) (xs : List A) → length xs ≤ n → take n xs ≡ xs
  take_all zero [] h = refl
  take_all zero (x ∷ xs) h = absurd (omega arith)
  take_all (suc n) [] h = refl
  take_all (suc n) (x ∷ xs) h = λ i. x ∷ take_all n xs (omega arith) i

  pub take-take-suc : (n : ℕ) (xs : List A) → take n (take (suc n) xs) ≡ take n xs
  take-take-suc zero xs = refl
  take-take-suc (suc n) [] = refl
  take-take-suc (suc n) (x ∷ xs) = λ i. x ∷ take-take-suc n xs i

  pub length-take : (n : ℕ) (xs : List A) → length (take n xs) ≡ min n (length xs)
  length-take zero xs = omega arith
  length-take (suc n) [] = omega arith
  length-take (suc n) (x ∷ xs) = omega (arith, length-take n xs)

  -- Reading one item more than `n`, to see whether there are more, and dropping it again.
  pub trim-take :
      (n : ℕ) (xs : List A)
      → (if ltb n (length (take (suc n) xs)) then pop (take (suc n) xs) else take (suc n) xs)
        ≡ take n xs
  trim-take n xs = elim (Bool-cases (ltb n (length (take (suc n) xs)))) [
    | inl e ↦ rw e (
        pop_of_length n _ (omega (arith, ltb→lt _ _ e, length-take (suc n) xs))
        ∙ take-take-suc n xs)
    | inr e ↦ rw e (
        take_all (suc n) xs (grind (arith, length-take (suc n) xs))
        ∙ sym (take_all n xs (grind (arith, length-take (suc n) xs))))
  ]

  pub ltb-length-take : (n : ℕ) (xs : List A) → ltb n (length (take (suc n) xs)) ≡ ltb n (length xs)
  ltb-length-take n xs =
      ltb_congr n _ n _ (λ h. omega (arith, length-take (suc n) xs))
        (λ h. omega (arith, length-take (suc n) xs))

  pub take_add : (m n : ℕ) (xs : List A) → take (m + n) xs ≡ take m xs ++ take n (drop m xs)
  take_add zero n xs = rw zero-add
  take_add (suc m) zero [] = rw add-zero refl
  take_add (suc m) (suc n) [] = rw suc-add refl
  take_add (suc m) n (x ∷ xs) = rw suc-add (λ i. x ∷ take_add m n xs i)

  pub drop-add : (m n : ℕ) (xs : List A) → drop (m + n) xs ≡ drop n (drop m xs)
  drop-add zero n xs = rw zero-add
  drop-add (suc m) zero [] = rw (add-zero) refl
  drop-add (suc m) (suc n) [] = rw suc-add refl
  drop-add (suc m) n (x ∷ xs) = rw suc-add (drop-add m n xs)

  pub take-append-drop : (n : ℕ) (xs : List A) → take n xs ++ drop n xs ≡ xs
  take-append-drop zero xs = refl
  take-append-drop (suc n) [] = refl
  take-append-drop (suc n) (x ∷ xs) = λ i. x ∷ take-append-drop n xs i

  pub length-take_le : (n : ℕ) (xs : List A) → length (take n xs) ≤ n
  length-take_le zero xs = omega arith
  length-take_le (suc n) [] = omega arith
  length-take_le (suc n) (x ∷ xs) = omega (arith, length-take_le n xs)

  pub length-drop : (n : ℕ) (xs : List A) → length (drop n xs) ≡ length xs - n
  length-drop zero xs = omega arith
  length-drop (suc n) [] = omega arith
  length-drop (suc n) (x ∷ xs) = omega (arith, length-drop n xs)

  pub length-append : (xs ys : List A) → length (xs ++ ys) ≡ length xs + length ys
  length-append [] ys = omega arith
  length-append (x ∷ xs) ys = omega (arith, length-append xs ys)

  -- What holds of every member.
  abbrev pub All {κ} : (A → Type κ) → List A → Type κ
  All P [] = Unit
  All P (x ∷ xs) = P x × All P xs

  pub All-append {κ} : (P : A → Type κ) (xs ys : List A) → All P xs → All P ys → All P (xs ++ ys)
  All-append P [] ys a b = b
  All-append P (x ∷ xs) ys (p, a) b = (p, All-append P xs ys a b)

-- A member of a list.
abbrev pub Mem : {A : Type 0} → A → List A → Type 0
Mem x [] = ⊥
Mem x (y ∷ ys) = (x ≡ y) ⊎ Mem x ys

pub All-Mem {κ} : {A : Type 0} (P : A → Type κ) (x : A) (xs : List A) → All P xs → Mem x xs → P x
All-Mem P x [] a m = absurd m
All-Mem P x (y ∷ ys) (p, a) (inl e) = subst P (sym e) p
All-Mem P x (y ∷ ys) (p, a) (inr m) = All-Mem P x ys a m
