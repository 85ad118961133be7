-- ===== src/Purge/Chunk.antt =====
-- Which rows a chunk's write reaches: those of the chunk, which are the selected rows up to its last.
use mongokit.Prelude.{
  ◌≡◌, refl, sym, ap, ◌∙◌, subst, Bool, true, false, not, ◌&&◌, ◌||◌, List, [], ◌∷◌, ◌++◌, map, any,
  filter, keep, All, All-append, Bool-cases, inl, inr, arith,
}
use mongokit.Js.Value.{Value}
use mongokit.Mongo.{Matching, IsLiteral}
use mongokit.Mongo.Operators.{AllLiteral}
use mongokit.Mongo.Rows.{past}
use mongokit.Mongo.Rows.Laws.{
  All-map, All-filter, All-of_filter, All-zip, All-swap, All-split, IsSorted-append,
}
use mongokit.Pagination.Keyset.Order.{IsSorted, IsSorted-filter, IsOrder}
use mongokit.IdChunks.{is_nullish}

or_true : (b : Bool) → (b || true) ≡ true
or_true b = ground arith

in_chunk : (b q p : Bool) {a : Bool} → (b && q) ≡ true → a ≡ not p → (b && a) ≡ ((b && q) && not p)
in_chunk b q p t h = ground arith

not_in_chunk :
    (b q p : Bool) {a : Bool} → (b && q) ≡ false → a ≡ false → (b && a) ≡ ((b && q) && not p)
not_in_chunk b q p t h = ground arith

-- What the order of ids is taken to be, besides strict.
pub record IsIdOrder {D : Type 0} (m : Matching D) : Type 0 where
  pub order : IsOrder m
  pub reflexive : (a : Value) → IsLiteral a → m.same a a ≡ true
  pub transitive :
      (a b c : Value)
      → IsLiteral a
      → IsLiteral b
      → IsLiteral c
      → m.below a b ≡ true
      → m.below b c ≡ true
      → m.below a c ≡ true

-- A value that can be the id of a row.
abbrev pub IsId : Value → Type 0
IsId v = IsLiteral v × (is_nullish v ≡ false)

module _ {D : Type 0} (m : Matching D) where
  abbrev pub id_at : D → Value
  id_at d = m.value_at "_id" d

  -- Rows with ids, in ascending order.
  abbrev pub IsKeyed : List D → Type 0
  IsKeyed rows = All (λ d. IsId (id_at d)) rows × IsSorted (past m) rows

  -- Is the id of a row among those of others?
  abbrev pub among : List D → D → Bool
  among es d = any (λ v. m.same (id_at d) v) (map id_at es)

  pub AllLiteral-map : (es : List D) → All (λ d. IsId (id_at d)) es → AllLiteral (map id_at es)
  AllLiteral-map [] a = tt
  AllLiteral-map (e ∷ es) (h, a) = (h.0, AllLiteral-map es a)

  among-false :
      (es : List D) (d : D) → All (λ e. m.same (id_at d) (id_at e) ≡ false) es → among es d ≡ false
  among-false [] d a = refl
  among-false (e ∷ es) d (h, a) = rw h (among-false es d a)

  module _ (ids : IsIdOrder m) where
    among_own : (es : List D) → All (λ d. IsId (id_at d)) es → All (λ d. among es d ≡ true) es
    among_own [] a = tt
    among_own (e ∷ es) (h, a) = (
      rw (ids.reflexive (id_at e) h.0) refl,
      All-map (λ d t. rw t (or_true (m.same (id_at d) (id_at e)))) es (among_own es a),
    )

    pub same_false :
        (a b : Value) → IsLiteral a → IsLiteral b → m.below a b ≡ true → m.same b a ≡ false
    same_false a b l k h = elim (Bool-cases (m.same b a)) [
      | inl e ↦ let p = ids.order.same-eq b a k l e in absurd (cc (h, p, ids.order.irreflexive a l))
      | inr e ↦ e
    ]

    -- In a sorted list, no row is before an earlier one or itself.
    up_to_last :
        (init : List D) (c : D)
        → IsKeyed (init ++ c ∷ [])
        → All (λ e. past m c e ≡ false) (init ++ c ∷ [])
    up_to_last init c (a, s) =
        let (k, l) = All-split (λ d. IsId (id_at d)) init (c ∷ []) a in
        let (b, t, u) = IsSorted-append (past m) init (c ∷ []) s in
        let both =
          All-zip (λ d. IsId (id_at d)) (λ d. All (λ y. past m d y ≡ true) (c ∷ [])) init k b in
        All-append (λ e. past m c e ≡ false) init (c ∷ [])
          (All-map (λ d h. ids.order.asymmetric (id_at d) (id_at c) h.0.0 l.0.0 h.1.0) init both)
          (ids.order.irreflexive (id_at c) l.0.0, tt)

    pub same_before :
        (a b : Value) → IsLiteral a → IsLiteral b → m.below a b ≡ true → m.same a b ≡ false
    same_before a b l k h = elim (Bool-cases (m.same a b)) [
      | inl e ↦ absurd (cc (h, ids.order.same-eq a b l k e, ids.order.irreflexive a l))
      | inr e ↦ e
    ]

    abbrev pub Apart : List D → D → Type 0
    Apart es d = All (λ e. m.same (id_at d) (id_at e) ≡ false) es

    -- The rows that a filter does not select have other ids than those that it selects.
    pub unselected :
        (p : D → Bool) (rows : List D)
        → IsKeyed rows
        → All (λ d. p d ≡ false → Apart (filter p rows) d) rows
    unselected p [] k = tt
    unselected p (x ∷ xs) ((k, a), (h, s)) =
        let later = All-zip (λ d. IsId (id_at d)) (λ d. past m x d ≡ true) xs a h in
        let before = All-map (λ e y. same_before (id_at x) (id_at e) k.0 y.0.0 y.1) xs later in
        let among_later = unselected p xs (a, s) in
        let Found : Bool → D → Type 0 = λ b d. p d ≡ false → Apart (keep b x (filter p xs)) d in
        elim (Bool-cases (p x)) [
          | inl t ↦ (
            (λ f. absurd (cc (t, f))),
            subst (λ b. All (Found b) xs) (sym t)
                (All-map (λ d y f. (same_false (id_at x) (id_at d) k.0 y.0.0.0 y.0.1, y.1 f)) xs
                  (All-zip (λ d. IsId (id_at d) × (past m x d ≡ true)) (Found false) xs later
                    among_later)),
          )
          | inr t ↦ (
            (λ f.
                subst (λ b. Apart (keep b x (filter p xs)) x) (sym t)
                  (All-filter (λ e. m.same (id_at x) (id_at e) ≡ false) p xs before)),
            subst (λ b. All (Found b) xs) (sym t) among_later,
          )
        ]

    -- A chunk up to the row `c`, and what comes after it.
    pub parts :
        (init rest : List D) (c : D)
        → IsKeyed ((init ++ c ∷ []) ++ rest)
        → IsKeyed (init ++ c ∷ [])
          × All (λ e. past m c e ≡ false) (init ++ c ∷ [])
          × All (λ d. (past m c d ≡ true) × Apart (init ++ c ∷ []) d) rest
    parts init rest c (a, s) =
        let front = init ++ c ∷ [] in
        let (af, ar) = All-split (λ d. IsId (id_at d)) front rest a in
        let (cross, sf, sr) = IsSorted-append (past m) front rest s in
        (
          (af, sf),
          up_to_last init c (af, sf),
          All-map
              (λ d h. (
                (All-split (λ e. past m e d ≡ true) init (c ∷ []) h.1).1.0,
                All-map (λ e y. same_false (id_at e) (id_at d) y.0.0 h.0.0 y.1) front
                    (All-zip (λ e. IsId (id_at e)) (λ e. past m e d ≡ true) front af h.1),
              ))
              rest
              (All-zip (λ d. IsId (id_at d)) (λ d. All (λ e. past m e d ≡ true) front) rest ar
                (All-swap (past m) front rest cross)),
        )

    module _ (base : D → Bool) (q : Value → Bool) where
      abbrev pub selected : D → Bool
      selected d = base d && q (id_at d)

      -- Among the selected rows, those of the chunk are those up to its last.
      up_to_chunk :
          (init rest : List D) (c : D)
          → IsKeyed ((init ++ c ∷ []) ++ rest)
          → All (λ d. among (init ++ c ∷ []) d ≡ not (past m c d)) ((init ++ c ∷ []) ++ rest)
      up_to_chunk init rest c k =
          let front = init ++ c ∷ [] in
          let (kf, upto, behind) = parts init rest c k in
          All-append (λ d. among front d ≡ not (past m c d)) front rest
            (All-map (λ d h. h.0 ∙ sym (ap not h.1)) front
              (All-zip (λ d. among front d ≡ true) (λ d. past m c d ≡ false) front
                (among_own front kf.0) upto))
            (All-map (λ d h. among-false front d h.1 ∙ sym (ap not h.0)) rest behind)

      -- The selected rows have ids and are in order.
      pub selected-IsKeyed : (rows : List D) → IsKeyed rows → IsKeyed (filter selected rows)
      selected-IsKeyed rows (k, s) =
          (All-filter _ selected rows k, IsSorted-filter (past m) selected rows s)

      -- The chunk up to the row `c`, and the rest of the selected rows.
      pub chunk_lem :
          (rows init rest : List D) (c : D)
          → IsKeyed rows
          → filter selected rows ≡ (init ++ c ∷ []) ++ rest
          → All (λ d. (base d && among (init ++ c ∷ []) d) ≡ (selected d && not (past m c d))) rows
      chunk_lem rows init rest c (k, s) e =
          let front = init ++ c ∷ [] in
          let own =
            subst (All (λ d. among front d ≡ not (past m c d))) (sym e)
              (up_to_chunk init rest c (subst IsKeyed e (selected-IsKeyed rows (k, s)))) in
          let out = All-of_filter (λ d. among front d ≡ not (past m c d)) selected rows own in
          let others =
            subst (λ M. All (λ d. selected d ≡ false → Apart M d) rows) e
              (unselected selected rows (k, s)) in
          All-map
            (λ d h. elim (Bool-cases (selected d)) [
              | inl t ↦ in_chunk (base d) (q (id_at d)) (past m c d) t (h.0 t)
              | inr t ↦ not_in_chunk (base d) (q (id_at d)) (past m c d) t (
                  among-false front d
                    (All-split (λ e. m.same (id_at d) (id_at e) ≡ false) front rest (h.1 t)).0)
            ])
            rows
            (All-zip (λ d. selected d ≡ true → among front d ≡ not (past m c d))
              (λ d. selected d ≡ false → Apart (front ++ rest) d) rows out others)
