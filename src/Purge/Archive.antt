-- ===== src/Purge/Archive.antt =====
-- src/actions/archive.ts: chunks are read, written to a sink and deleted, until none is left.
use mongokit.Prelude.{
  ℕ, zero, suc, ◌<◌, ◌≡◌, refl, sym, ap, ◌∙◌, subst, Bool, true, false, not, ◌&&◌, Option, none,
  some, List, [], ◌∷◌, ◌++◌, map, filter, filter-congr, length, length-drop, take, drop,
  last-append, take-append-drop, All, Bool-cases, inl, inr, arith, Outcome, returns, throws,
  if◌then◌else◌,
}
use mongokit.Js.Object.{Object, has}
use mongokit.Js.Value.{Value}
use mongokit.Mongo.{Matching}
use mongokit.Mongo.Operators.{Operators}
use mongokit.Mongo.Rows.{Rows, CommandError, past, chosen, edited}
use mongokit.Mongo.Rows.Laws.{All-map, All-edit, IsSorted-edit, edit_congr}
use mongokit.IdChunks.{narrow_to_ids, select_keyset_chunk}
use mongokit.IdChunks.Laws.{concat, holds-narrow_to_ids}
use mongokit.Purge.{read_chunk, delete_chunk}
use mongokit.Purge.Chunk.{
  IsIdOrder, IsId, id_at, IsKeyed, AllLiteral-map, among, parts, selected, selected-IsKeyed,
  chunk_lem,
}
use mongokit.Purge.Step.{IsReliable}
use mongokit.Purge.Left.{some_injective, filter_parts, edited_none}
use mongokit.Purge.Walk.{take_cons, take_nil}

module _ {D : Type 0} {m : Matching D} (repo : Rows m) (base : Object Value) (limit : ℕ) where
  open repo use {State, rows}

  abbrev pub Chunks : Type 0
  Chunks = Outcome CommandError (Option (List (List D))) × State

  abbrev pub before_all : List D → Chunks → Chunks
  before_all docs (returns (some chunks), s) = (returns (some (docs ∷ chunks)), s)
  before_all docs r = r

  abbrev pub and_then : (State → Chunks) → Outcome CommandError (Unit {0}) × State → Chunks
  and_then again (returns x, s) = again s
  and_then again (throws e, s) = (throws e, s)

  abbrev pub stored : (State → Chunks) → List D → State → Chunks
  stored again [] s = (returns (some []), s)
  stored again (d ∷ docs) s =
      before_all (d ∷ docs) (and_then again (delete_chunk repo base (d ∷ docs) s))

  -- The chunks that the sink gets, or none if the calls did not suffice.
  unfoldable pub archive : ℕ → State → Chunks
  archive zero s = (returns none, s)
  archive (suc calls) s = stored (archive calls) (read_chunk repo base limit s) s

module _ {A : Type 0} (p q : A → Bool) where
  filter-removed :
      (xs : List A)
      → filter p (edited (λ x. p x && not (q x)) (λ x. none) xs) ≡ filter q (filter p xs)
  filter-removed [] = refl
  filter-removed (x ∷ xs) = elim (Bool-cases (p x)) [
    | inl t ↦ elim (Bool-cases (q x)) [
      | inl u ↦ rw (t, u, t) (ap (λ ys. x ∷ ys) (filter-removed xs))
      | inr u ↦ rw (t, u) (filter-removed xs)
    ]
    | inr t ↦ rw (t, t) (filter-removed xs)
  ]

  edited-removed :
      (xs : List A)
      → edited p (λ x. none) (edited (λ x. p x && not (q x)) (λ x. none) xs)
        ≡ edited p (λ x. none) xs
  edited-removed [] = refl
  edited-removed (x ∷ xs) = elim (Bool-cases (p x)) [
    | inl t ↦ elim (Bool-cases (q x)) [
      | inl u ↦ rw (t, u, t) (edited-removed xs)
      | inr u ↦ rw (t, u) (edited-removed xs)
    ]
    | inr t ↦ rw (t, t) (ap (λ ys. x ∷ ys) (edited-removed xs))
  ]

module _ {D : Type 0} {m : Matching D} (repo : Rows m) (operators : Operators m) (ids : IsIdOrder m)
    (reliable : IsReliable repo) (base : Object Value) (no_id : has "_id" base ≡ false) (limit : ℕ)
    (positive : 0 < limit) where
  open repo use {State, rows}

  abbrev kept : D → Bool
  kept d = m.holds base d

  selected_lem : (d : D) → selected m ids kept (λ v. true) d ≡ kept d
  selected_lem d = ground arith

  -- The rows that are deleted with the chunk up to the row `c`.
  delete_chunk-lem :
      (s : State) (docs init rest : List D) (c : D)
      → docs ≡ init ++ c ∷ []
      → IsKeyed m (rows s)
      → filter kept (rows s) ≡ (init ++ c ∷ []) ++ rest
      → ((delete_chunk repo base docs s).0 ≡ returns tt)
        × (rows (delete_chunk repo base docs s).1
            ≡ edited (λ d. kept d && not (past m c d)) (λ d. none) (rows s))
        × All (λ d. past m c d ≡ false) (init ++ c ∷ [])
        × All (λ d. past m c d ≡ true) rest
  unfolding delete_chunk
  delete_chunk-lem s docs init rest c p k e =
      let front = init ++ c ∷ [] in
      let found = filter-congr _ kept (rows s) selected_lem ∙ e in
      let (kf, upto, later) =
        parts m ids init rest c
          (subst (IsKeyed m) found (selected-IsKeyed m ids kept (λ v. true) (rows s) k)) in
      let kd = subst (All (λ d. IsId (id_at m d))) (sym p) kf.0 in
      let narrow = narrow_to_ids base (map (id_at m) docs) in
      let ok = reliable.deletes narrow s in
      (
        ok,
        repo.rows-delete_many narrow s ok
            ∙ edit_congr _ _ (rows s) (
                All-map
                  (λ d h.
                    ap (λ b. if b then none else some d)
                      (holds-narrow_to_ids m operators base (map (id_at m) docs) d no_id
                          (AllLiteral-map m docs kd)
                        ∙ ap (λ es. kept d && among m es d) p
                        ∙ h
                        ∙ ap (λ b. b && not (past m c d)) (selected_lem d)))
                  (rows s) (chunk_lem m ids kept (λ v. true) (rows s) init rest c k found)),
        upto,
        All-map (λ d h. h.0) rest later,
      )

  and_then_lem :
      (again : State → Chunks repo base limit) (r : Outcome CommandError (Unit {0}) × State)
      → r.0 ≡ returns tt
      → and_then repo base limit again r ≡ again r.1
  and_then_lem again (returns x, s) h = refl
  and_then_lem again (throws e, s) h = cc

  removed_eq : (p : D → Bool) (x y : D) → chosen p (λ d. none) x ≡ some y → y ≡ x
  removed_eq p x y h = elim (Bool-cases (p x)) [
    | inl t ↦ absurd (cc (rw t at h))
    | inr t ↦ some_injective (sym (rw t at h))
  ]

  removed-IsKeyed :
      (p : D → Bool) (xs : List D) → IsKeyed m xs → IsKeyed m (edited p (λ d. none) xs)
  removed-IsKeyed p xs (k, s) = (
    All-edit (λ d. IsId (id_at m d)) (chosen p (λ d. none)) xs
        (λ x y a h. subst (λ d. IsId (id_at m d)) (sym (removed_eq p x y h)) a) k,
    IsSorted-edit (past m) (chosen p (λ d. none)) xs
        (λ x y z h. ap (λ d. past m d z) (removed_eq p x y h))
        (λ x y z h. ap (λ d. past m z d) (removed_eq p x y h)) s,
  )

  -- Given more calls than rows that are selected.
  archive-all :
      (calls : ℕ) (s : State) (found : List D)
      → IsKeyed m (rows s)
      → filter kept (rows s) ≡ found
      → length found < calls
      → (chunks : List (List D)) × (t : State) × (archive repo base limit calls s
          ≡ (returns (some chunks), t))
        × (concat chunks ≡ found)
        × (rows t ≡ edited kept (λ d. none) (rows s))
  unfolding archive read_chunk select_keyset_chunk
  archive-all zero s found k e h = absurd (omega arith)
  archive-all (suc calls) s [] k e h = (
    [],
    s,
    ap (λ docs. stored repo base limit (archive repo base limit calls) docs s)
        (repo.find-eq base limit s positive ∙ ap (take limit) e ∙ take_nil limit),
    refl,
    sym (edited_none kept (λ d. none) (rows s) e),
  )
  archive-all (suc calls) s (y ∷ ys) k e h =
      let (zs, tk) = take_cons limit y ys positive in
      let (c, init, p, l) = last-append (y ∷ zs) (omega arith) in
      let rest = drop limit (y ∷ ys) in
      let whole = ap (λ x. x ++ rest) (sym tk) ∙ take-append-drop limit (y ∷ ys) in
      let parted = e ∙ sym whole ∙ ap (λ x. x ++ rest) p in
      let (ok, r, upto, later) = delete_chunk-lem s (y ∷ zs) init rest c p k parted in
      let again = archive repo base limit calls in
      let r0 = delete_chunk repo base (y ∷ zs) s in
      let left =
        ap (filter kept) r
        ∙ filter-removed kept (past m c) (rows s)
        ∙ ap (filter (past m c)) parted
        ∙ filter_parts (past m c) (init ++ c ∷ []) rest upto later in
      let (chunks, t, eq, all, gone) =
        archive-all calls r0.1 rest
          (subst (IsKeyed m) (sym r) (removed-IsKeyed (λ d. kept d && not (past m c d)) (rows s) k))
          left (omega (arith, length-drop limit (y ∷ ys))) in
      (
        (y ∷ zs) ∷ chunks,
        t,
        ap (λ docs. stored repo base limit again docs s)
              (repo.find-eq base limit s positive ∙ ap (take limit) e ∙ tk)
            ∙ ap (before_all repo base limit (y ∷ zs)) (and_then_lem again r0 ok ∙ eq),
        ap (λ x. (y ∷ zs) ++ x) all ∙ whole,
        gone ∙ ap (edited kept (λ d. none)) r ∙ edited-removed kept (past m c) (rows s),
      )

  -- An archive by a filter that has no condition on `_id`, of a collection with distinct ids whose
  -- commands do not fail: with any positive chunk size, and more calls than rows that the filter
  -- selects, it comes to an end; the chunks that the sink got are together exactly the selected
  -- rows, each once and in the order of their ids; and the collection has lost exactly these.
  pub archive-covers :
      (calls : ℕ) (s : State)
      → IsKeyed m (rows s)
      → length (filter (λ d. m.holds base d) (rows s)) < calls
      → (chunks : List (List D)) × (t : State) × (archive repo base limit calls s
          ≡ (returns (some chunks), t))
        × (concat chunks ≡ filter (λ d. m.holds base d) (rows s))
        × (rows t ≡ edited (λ d. m.holds base d) (λ d. none) (rows s))
  archive-covers calls s k h = archive-all calls s (filter kept (rows s)) k refl h
