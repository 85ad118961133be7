-- ===== src/IdChunks/Laws.antt =====
-- Slices of ids are the ids, none empty and none too long; and what the filters of a chunk select.
use mongokit.Prelude.{
  ℕ, zero, suc, ◌≤◌, ◌<◌, ◌≡◌, refl, sym, ap, ◌∙◌, String, false, ◌&&◌, List, [], ◌∷◌, ◌++◌, any,
  take, drop, length, length-drop, length-take_le, take-append-drop, All, ltb, returns, throws,
  arith, Bool-cases, inl, inr, str_eq, eq_iff,
}
use mongokit.Js.Object.{Object, has, put, spread, remove}
use mongokit.Js.Object.Laws.{put_new, IsObject}
use mongokit.Js.Value.{Value, arr, values, is_operator}
use mongokit.Mongo.{Matching, operator}
use mongokit.Mongo.Clauses.{holds-append}
use mongokit.Mongo.Operators.{Operators, AllLiteral}
use mongokit.IdChunks.{slices, id_chunks, is_nullish, keyset_filter, narrow_to_ids, not_positive}

abbrev pub concat {ℓ} : {A : Type ℓ} → List (List A) → List A
concat [] = []
concat (c ∷ cs) = c ++ concat cs

-- A slice that is not empty and not above the size.
abbrev pub IsSlice {ℓ} : {A : Type ℓ} → ℕ → List A → Type 0
IsSlice size c = (0 < length c) × (length c ≤ size)

at_least_one : (size : ℕ) → ltb (suc size) 1 ≡ false
at_least_one size = ground arith

module _ {ℓ} {A : Type ℓ} where
  concat-slices :
      (fuel size : ℕ) (ids : List A)
      → length ids ≤ fuel
      → 0 < size
      → (concat (slices fuel size ids) ≡ ids) × All (IsSlice size) (slices fuel size ids)
  unfolding slices
  concat-slices zero size [] h k = (refl, tt)
  concat-slices zero size (x ∷ ids) h k = absurd (omega arith)
  concat-slices (suc fuel) size [] h k = (refl, tt)
  concat-slices (suc fuel) zero (x ∷ ids) h k = absurd (omega arith)
  concat-slices (suc fuel) (suc size) (x ∷ ids) h k =
      let (e, a) =
        concat-slices fuel (suc size) (drop size ids) (omega (arith, length-drop size ids))
          (omega arith) in
      (
        (λ i. x ∷ (take size ids ++ e i)) ∙ ap (λ r. x ∷ r) (take-append-drop size ids),
        ((omega arith, omega (arith, length-take_le size ids)), a),
      )

  covered :
      (ids : List A) (size : ℕ)
      → 0 < size
      → (chunks : List (List A)) × (id_chunks ids size ≡ returns chunks)
        × (concat chunks ≡ ids)
        × All (IsSlice size) chunks
  unfolding id_chunks
  covered ids zero h = absurd (omega arith)
  covered ids (suc size) h =
      let (e, a) = concat-slices (length ids) (suc size) ids (omega arith) h in
      (slices (length ids) (suc size) ids, rw (at_least_one size) refl, e, a)

  -- The slices of a list of ids, for a size of at least one, are together the ids in their order;
  -- none is empty, so they come to an end, and none is longer than the size. A size of zero is
  -- refused, whatever the ids.
  pub id_chunks-covers :
      (ids : List A)
      → ((size : ℕ)
          → 0 < size
          → (chunks : List (List A)) × (id_chunks ids size ≡ returns chunks)
            × (concat chunks ≡ ids)
            × All (IsSlice size) chunks)
        × (id_chunks ids 0 ≡ throws (not_positive 0))
  unfolding id_chunks
  id_chunks-covers ids = (covered ids, refl)

remove_absent : (k : String) (q : Object Value) → has k q ≡ false → remove k q ≡ q
unfolding remove has
remove_absent k [] h = refl
remove_absent k ((j, v) ∷ q) h = ground (arith, remove_absent k q)

module _ {D : Type 0} (m : Matching D) where
  -- A filter with the condition on a field replaced.
  pub holds-put :
      (q : Object Value) (k : String) (v : Value) (d : D)
      → IsObject q
      → m.holds (put k v q) d ≡ (m.holds (remove k q) d && m.clause k v d)
  unfolding put remove
  holds-put [] k v d h = rw (m.holds-cons, m.holds-nil) (ground arith)
  holds-put ((j, w) ∷ q) k v d h = elim (Bool-cases (str_eq j k)) [
    | inl e ↦
        let j_lem = (eq_iff j k).0 e in
        rw (e, m.holds-cons j v q d, remove_absent k q (ap (λ x. has x q) (sym j_lem) ∙ h.0), j_lem)
          (ground arith)
    | inr e ↦
        rw
          (
            e,
            m.holds-cons j w (put k v q) d,
            m.holds-cons j w (remove k q) d,
            holds-put q k v d h.1,
          )
          (ground arith)
  ]

  -- A filter that lacks a field, with a condition on it put in.
  pub holds-put_new :
      (q : Object Value) (k : String) (v : Value) (d : D)
      → has k q ≡ false
      → m.holds (put k v q) d ≡ (m.holds q d && m.clause k v d)
  holds-put_new q k v d h =
      rw (put_new k v q h, holds-append m q ((k, v) ∷ []) d, m.holds-cons, m.holds-nil)
        (ground arith)

  pub holds-keyset_filter :
      (base : Object Value) (c : Value) (d : D)
      → has "_id" base ≡ false
      → is_nullish c ≡ false
      → m.holds (keyset_filter base c) d ≡ (m.holds base d && m.below c (m.value_at "_id" d))
  unfolding keyset_filter spread is_operator
  holds-keyset_filter base c d h n =
      rw n (rw (holds-put_new base "_id" (operator "$gt" c) d h, m.clause-gt "_id" c d refl))

  pub holds-narrow_to_ids :
      (operators : Operators m) (base : Object Value) (ids : List Value) (d : D)
      → has "_id" base ≡ false
      → AllLiteral ids
      → m.holds (narrow_to_ids base ids) d
        ≡ (m.holds base d && any (λ v. m.same (m.value_at "_id" d) v) ids)
  unfolding narrow_to_ids spread is_operator
  holds-narrow_to_ids operators base ids d h l = rw (
    holds-put_new base "_id" (operator "$in" (arr (values ids))) d h,
    operators.clause-in "_id" ids d refl l,
  )

  -- Behind a cursor, a chunk's select asks for the conditions of the base filter except any on
  -- `_id`, which it loses, and for ids behind the cursor; and its write asks for the same
  -- conditions and for the ids of the chunk. The ids are scalars.
  pub keyset_filter-remove :
      (operators : Operators m) (base : Object Value) (cursor : Value) (ids : List Value) (d : D)
      → IsObject base
      → is_nullish cursor ≡ false
      → AllLiteral ids
      → (m.holds (keyset_filter base cursor) d
          ≡ (m.holds (remove "_id" base) d && m.below cursor (m.value_at "_id" d)))
        × (m.holds (narrow_to_ids base ids) d
            ≡ (m.holds (remove "_id" base) d && any (λ v. m.same (m.value_at "_id" d) v) ids))
  unfolding keyset_filter narrow_to_ids spread is_operator
  keyset_filter-remove operators base cursor ids d o n l = (
    rw n (rw (holds-put base "_id" (operator "$gt" cursor) d o, m.clause-gt "_id" cursor d refl)),
    rw (
      holds-put base "_id" (operator "$in" (arr (values ids))) d o,
      operators.clause-in "_id" ids d refl l,
    ),
  )
