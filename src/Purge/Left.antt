-- ===== src/Purge/Left.antt =====
-- What a chunk of a purge leaves: the rows behind it, still due, and nothing else.
use mongokit.Prelude.{
  ℕ, ◌<◌, ◌≡◌, refl, sym, ap, ◌∙◌, subst, Bool, true, false, not, ◌&&◌, Option, some, List, [], ◌∷◌,
  ◌++◌, filter, All, keep, Bool-cases, Option-cases, inl, inr, ◌⊎◌, arith,
}
use mongokit.Js.Object.{Object, has}
use mongokit.Js.Value.{Value}
use mongokit.Mongo.{Matching}
use mongokit.Mongo.Operators.{Operators}
use mongokit.Mongo.Rows.{Rows, past, chosen, edited}
use mongokit.Mongo.Rows.Laws.{
  All-map, All-split, All-filter_self, edit-edit, filter-edit, All-edit, IsSorted-edit, then_edit,
}
use mongokit.Pagination.Keyset.Order.{filter-filter}
use mongokit.IdChunks.{is_nullish}
use mongokit.Purge.{Strategy}
use mongokit.Purge.Chunk.{IsIdOrder, IsId, id_at, IsKeyed, parts, selected, selected-IsKeyed}
use mongokit.Purge.Step.{IsReliable, SparesId, behind, effect, effect-id}

both : {p q : Bool} → p ≡ true → q ≡ true → (p && q) ≡ true
both t u = rw (t, u) refl

one : {p q : Bool} → p ≡ true → q ≡ false → (p && q) ≡ false
one t u = rw (t, u) refl

second : (p q : Bool) → (p && q) ≡ true → q ≡ true
second p q h = ground arith

not_second : (p : Bool) {q : Bool} → q ≡ false → (p && q) ≡ false
not_second p h = rw h (ground arith)

pub some_injective : {A : Type 0} {a b : A} → some a ≡ some b → a ≡ b
some_injective h = cc

module _ {A : Type 0} (f : A → Option A) (p q r : A → Bool) (x : A) (step : r x ≡ (p x && q x))
    (done : (y : A) → f x ≡ some y → q x ≡ false → r y ≡ false) where
  -- A row is edited in the first step or in the second, never in both.
  then_edit-chosen : then_edit (chosen (λ y. p y && not (q y)) f x) (chosen r f) ≡ chosen p f x
  then_edit-chosen = elim (Bool-cases (p x)) [
    | inl t ↦ elim (Bool-cases (q x)) [
      | inl u ↦ rw (t, u, step, t, u) refl
      | inr u ↦ elim (Option-cases (f x)) [
        | inl e ↦ rw (t, u, e) refl
        | inr (y, e) ↦ rw (t, u, e, done y e u) refl
      ]
    ]
    | inr t ↦ rw (t, step, t) refl
  ]

  -- What the first step edits is not due in the second.
  left_by_chosen :
      (r x ≡ true → chosen (λ y. p y && not (q y)) f x ≡ some x)
      × (r x ≡ false → (y : A) → chosen (λ y. p y && not (q y)) f x ≡ some y → r y ≡ false)
  left_by_chosen = elim (Bool-cases (p x)) [
    | inl t ↦ elim (Bool-cases (q x)) [
      | inl u ↦ ((λ e. rw (t, u) refl), (λ e y h. absurd (cc (e, step ∙ both t u))))
      | inr u ↦ ((λ e. absurd (cc (e, step ∙ one t u))), (λ e y h. done y (rw (t, u) at h) u))
    ]
    | inr t ↦ ((λ e. rw t refl), (λ e y h. subst (λ z. r z ≡ false) (some_injective (rw t at h)) e))
  ]

module _ {A : Type 0} where
  pub edited_none :
      (p : A → Bool) (f : A → Option A) (xs : List A) → filter p xs ≡ [] → edited p f xs ≡ xs
  edited_none p f [] h = refl
  edited_none p f (x ∷ xs) h = elim (Bool-cases (p x)) [
    | inl t ↦ absurd (cc (rw t at h))
    | inr t ↦ rw t (ap (λ ys. x ∷ ys) (edited_none p f xs (rw t at h)))
  ]

  pub filter_parts :
      (p : A → Bool) (xs ys : List A)
      → All (λ x. p x ≡ false) xs
      → All (λ y. p y ≡ true) ys
      → filter p (xs ++ ys) ≡ ys
  filter_parts p [] [] a b = refl
  filter_parts p [] (y ∷ ys) a (h, b) = rw h (ap (λ zs. y ∷ zs) (filter_parts p [] ys a b))
  filter_parts p (x ∷ xs) ys (h, a) b = rw h (filter_parts p xs ys a b)

  filter_congr :
      (p q : A → Bool) (xs : List A) → All (λ x. p x ≡ q x) xs → filter p xs ≡ filter q xs
  filter_congr p q [] a = refl
  filter_congr p q (x ∷ xs) (h, a) = rw h (ap (keep (q x) x) (filter_congr p q xs a))

module _ {D : Type 0} {m : Matching D} (repo : Rows m) (operators : Operators m) (ids : IsIdOrder m)
    (reliable : IsReliable repo) (base : Object Value) (no_id : has "_id" base ≡ false)
    (strategy : Strategy D) (now : ℕ) (spares : SparesId strategy now) (limit : ℕ)
    (positive : 0 < limit) where
  open repo use {State, rows}

  abbrev pub due_at : Value → D → Bool
  due_at cursor = selected m ids (λ d. m.holds base d) (behind m cursor)

  -- A cursor of a port: none, or the id of a row.
  abbrev pub IsCursor : Value → Type 0
  IsCursor cursor = (is_nullish cursor ≡ true) ⊎ IsId cursor

  -- Behind a row that is behind the cursor.
  behind_trans :
      (cursor : Value) (c d : D)
      → IsCursor cursor
      → IsId (id_at m c)
      → IsId (id_at m d)
      → behind m cursor (id_at m c) ≡ true
      → past m c d ≡ true
      → behind m cursor (id_at m d) ≡ true
  behind_trans cursor c d (inl n) k l h e = rw n refl
  behind_trans cursor c d (inr n) k l h e =
      rw n.1 (ids.transitive cursor (id_at m c) (id_at m d) n.0 k.0 l.0 (rw n.1 at h) e)

  -- What is due behind the row `c`.
  due_at-step :
      (cursor : Value) (c d : D)
      → IsCursor cursor
      → IsId (id_at m c)
      → IsId (id_at m d)
      → behind m cursor (id_at m c) ≡ true
      → due_at (id_at m c) d ≡ (due_at cursor d && past m c d)
  due_at-step cursor c d o k l h = elim (Bool-cases (past m c d)) [
    | inl e ↦ rw (k.1, e, behind_trans cursor c d o k l h e) (ground arith)
    | inr e ↦ rw (k.1, e) (ground arith)
  ]

  chosen_id :
      (p : D → Bool) (x y : D)
      → chosen p (effect repo strategy now) x ≡ some y
      → id_at m y ≡ id_at m x
  chosen_id p x y h = elim (Bool-cases (p x)) [
    | inl t ↦ effect-id repo strategy now x y spares (rw t at h)
    | inr t ↦ ap (id_at m) (sym (some_injective (rw t at h)))
  ]

  -- What one chunk leaves, up to the row `c`: the rest is due behind `c`, and an edit of the rest
  -- makes the edit of all.
  module _ (cursor : Value) (o : IsCursor cursor) (xs init rest : List D) (c : D)
      (keyed : IsKeyed m xs) (e : filter (due_at cursor) xs ≡ (init ++ c ∷ []) ++ rest) where
    abbrev pub left_rows : List D
    left_rows = edited (λ d. due_at cursor d && not (past m c d)) (effect repo strategy now) xs

    pub c_lem : IsId (id_at m c) × (behind m cursor (id_at m c) ≡ true)
    c_lem =
        let (k, s) =
          subst (IsKeyed m) e
            (selected-IsKeyed m ids (λ d. m.holds base d) (behind m cursor) xs keyed) in
        let due_all =
          subst (All (λ d. due_at cursor d ≡ true)) e (All-filter_self (due_at cursor) xs) in
        let (a, b) = All-split (λ d. IsId (id_at m d)) (init ++ c ∷ []) rest k in
        let (x, y) = All-split (λ d. due_at cursor d ≡ true) (init ++ c ∷ []) rest due_all in
        (
          (All-split (λ d. IsId (id_at m d)) init (c ∷ []) a).1.0,
          second (m.holds base c) (behind m cursor (id_at m c))
              (All-split (λ d. due_at cursor d ≡ true) init (c ∷ []) x).1.0,
        )

    steps : All (λ d. due_at (id_at m c) d ≡ (due_at cursor d && past m c d)) xs
    steps = All-map (λ d k. due_at-step cursor c d o c_lem.0 k c_lem.1) xs keyed.0

    done_lem :
        (d y : D)
        → effect repo strategy now d ≡ some y
        → past m c d ≡ false
        → due_at (id_at m c) y ≡ false
    done_lem d y h p =
        let same_id = effect-id repo strategy now d y spares h in
        not_second (m.holds base y) (ap (λ v. behind m (id_at m c) v) same_id ∙ rw c_lem.0.1 p)

    pub left-IsKeyed : IsKeyed m left_rows
    left-IsKeyed =
        let g = chosen (λ d. due_at cursor d && not (past m c d)) (effect repo strategy now) in
        let keeps : (x y : D) → g x ≡ some y → id_at m y ≡ id_at m x =
          λ x y h. chosen_id (λ d. due_at cursor d && not (past m c d)) x y h in
        (
          All-edit (λ d. IsId (id_at m d)) g xs (λ x y k h. subst IsId (sym (keeps x y h)) k)
              keyed.0,
          IsSorted-edit (past m) g xs (λ x y z h. ap (λ v. m.below v (id_at m z)) (keeps x y h))
              (λ x y z h. ap (λ v. m.below (id_at m z) v) (keeps x y h)) keyed.1,
        )

    pub filter-left : filter (due_at (id_at m c)) left_rows ≡ rest
    filter-left =
        let (k, upto, later) = parts m ids init rest c (
          subst (IsKeyed m) e
            (selected-IsKeyed m ids (λ d. m.holds base d) (behind m cursor) xs keyed)) in
        filter-edit (due_at (id_at m c)) _ xs (
          All-map
            (λ d h.
              left_by_chosen (effect repo strategy now) (due_at cursor) (past m c)
                (due_at (id_at m c)) d h (done_lem d))
            xs steps)
        ∙ filter_congr _ _ xs steps
        ∙ filter-filter (due_at cursor) (past m c) xs
        ∙ ap (filter (past m c)) e
        ∙ filter_parts (past m c) (init ++ c ∷ []) rest upto (All-map (λ d h. h.0) rest later)

    pub edited-left :
        edited (due_at (id_at m c)) (effect repo strategy now) left_rows
        ≡ edited (due_at cursor) (effect repo strategy now) xs
    edited-left = edit-edit _ _ _ xs (
        All-map
          (λ d h.
            then_edit-chosen (effect repo strategy now) (due_at cursor) (past m c)
              (due_at (id_at m c)) d h (done_lem d))
          xs steps)
