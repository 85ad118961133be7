-- ===== src/Purge/Step.antt =====
-- One call of `purgeChunk`: which rows it changes, how, and where its cursor is then.
use mongokit.Prelude.{
  ℕ, ◌<◌, ◌≡◌, refl, sym, ap, ◌∙◌, subst, Bool, true, false, not, ◌&&◌, Option, none, some, List,
  [], ◌∷◌, ◌++◌, map, filter, length, last, All, if◌then◌else◌, Bool-cases, inl, inr, arith,
  Outcome, returns, throws,
}
use mathlib.Core.Path.{fun_ext}
use mongokit.Js.Object.{Object, get, has}
use mongokit.Js.Value.{Value}
use mongokit.Mongo.{Matching}
use mongokit.Mongo.Operators.{Operators}
use mongokit.Mongo.Rows.{Rows, CommandError, UpdateOne, past, applied, edited}
use mongokit.Mongo.Rows.Laws.{All-map, edit_congr, All-split}
use mongokit.IdChunks.{is_nullish, keyset_filter, narrow_to_ids}
use mongokit.IdChunks.Laws.{holds-keyset_filter, holds-narrow_to_ids}
use mongokit.Purge.{
  Replacer, Strategy, update_of, hard, soft, anonymize, has_fn, set_of, static_fields, soft_set,
  committed, last_id, purge_anonymize_functional, write_chunk, advanced, is_functional,
  functional_fields, purge_docs,
}
use mongokit.Purge.Chunk.{
  IsIdOrder, IsId, id_at, IsKeyed, among, AllLiteral-map, selected, selected-IsKeyed, chunk_lem,
  parts,
}
use mongokit.Purge.Functional.{AllPin-map, applied-chunk}

-- A collection whose commands do not fail.
pub record IsReliable {D : Type 0} {m : Matching D} (repo : Rows m) : Type 0 where
  pub deletes : (q : Object Value) (s : repo.State) → (repo.delete_many q s).0 ≡ returns tt
  pub updates : (q o : Object Value) (s : repo.State) → (repo.update_many q o s).0 ≡ returns tt
  pub writes : (ops : List UpdateOne) (s : repo.State) → (repo.bulk_write ops s).0 ≡ returns tt

-- The ids behind a cursor: all where there is none.
abbrev pub behind : {D : Type 0} → Matching D → Value → Value → Bool
behind m cursor v = if is_nullish cursor then true else m.below cursor v

module _ {D : Type 0} where
  -- What an anonymized row gets.
  abbrev pub patch : Object (Replacer D) → D → Object Value
  patch fields d = if has_fn fields then set_of fields d [] else static_fields fields

  -- A strategy that leaves the id of a row.
  abbrev pub SparesId : Strategy D → ℕ → Type 0
  SparesId hard now = Unit
  SparesId (soft field at) now = get "_id" (soft_set field at now) ≡ none
  SparesId (anonymize fields) now = (d : D) → get "_id" (patch fields d) ≡ none

module _ {D : Type 0} {m : Matching D} (repo : Rows m) where
  open repo use {State, rows, set_on}

  -- What a strategy makes of one row.
  abbrev pub effect : Strategy D → ℕ → D → Option D
  effect hard now d = none
  effect (soft field at) now d = some (set_on (soft_set field at now) d)
  effect (anonymize fields) now d = some (set_on (patch fields d) d)

  some_injective : {a b : D} → some a ≡ some b → a ≡ b
  some_injective h = cc

  pub effect-id :
      (strategy : Strategy D) (now : ℕ) (d e : D)
      → SparesId strategy now
      → effect strategy now d ≡ some e
      → id_at m e ≡ id_at m d
  effect-id hard now d e k h = cc
  effect-id (soft field at) now d e k h =
      ap (id_at m) (some_injective (sym h)) ∙ repo.value_at-set_on _ "_id" d k
  effect-id (anonymize fields) now d e k h =
      ap (id_at m) (some_injective (sym h)) ∙ repo.value_at-set_on _ "_id" d (k d)

  committed_lem :
      (n : ℕ) (next cursor : Value) (r : Outcome CommandError (Unit {0}) × State)
      → r.0 ≡ returns tt
      → committed repo n next cursor r ≡ (returns n, next, r.1)
  committed_lem n next cursor (returns x, s) h = refl
  committed_lem n next cursor (throws e, s) h = cc

  last_id-append : (init : List D) (c : D) → last_id repo (init ++ c ∷ []) ≡ id_at m c
  last_id-append [] c = refl
  last_id-append (x ∷ []) c = refl
  last_id-append (x ∷ y ∷ init) c = last_id-append (y ∷ init) c

  -- Where no replacer is a function, a chunk's write is an edit of what its filter selects.
  rows-write_chunk :
      (reliable : IsReliable repo) (strategy : Strategy D) (now : ℕ) (q : Object Value) (s : State)
      → is_functional repo strategy ≡ false
      → ((write_chunk repo strategy now q s).0 ≡ returns tt)
        × (rows (write_chunk repo strategy now q s).1
            ≡ edited (λ d. m.holds q d) (effect strategy now) (rows s))
  unfolding write_chunk is_functional
  rows-write_chunk reliable hard now q s h =
      (reliable.deletes q s, repo.rows-delete_many q s (reliable.deletes q s))
  rows-write_chunk reliable (soft field at) now q s h =
      let ok = reliable.updates q (soft_set field at now) s in
      (ok, repo.rows-update_many q (soft_set field at now) s ok)
  rows-write_chunk reliable (anonymize fields) now q s h =
      let ok = reliable.updates q (static_fields fields) s in
      (
        ok,
        repo.rows-update_many q (static_fields fields) s ok
            ∙ ap
                (λ b.
                  edited (λ d. m.holds q d)
                    (λ d. some (set_on (if b then set_of fields d [] else static_fields fields) d))
                    (rows s))
                (sym h),
      )

  functional_lem :
      (strategy : Strategy D) (now : ℕ) (d : D)
      → is_functional repo strategy ≡ true
      → effect strategy now d ≡ some (set_on (set_of (functional_fields repo strategy) d []) d)
  unfolding is_functional functional_fields
  functional_lem hard now d h = cc
  functional_lem (soft field at) now d h = cc
  functional_lem (anonymize fields) now d h =
      ap (λ b. some (set_on (if b then set_of fields d [] else static_fields fields) d)) h

  functional_id :
      (strategy : Strategy D) (now : ℕ) (d : D)
      → is_functional repo strategy ≡ true
      → SparesId strategy now
      → id_at m (set_on (set_of (functional_fields repo strategy) d []) d) ≡ id_at m d
  functional_id strategy now d h k = effect-id strategy now d _ k (functional_lem strategy now d h)

  holds_start :
      (base : Object Value) (cursor : Value) (d : D)
      → is_nullish cursor ≡ true
      → m.holds (keyset_filter base cursor) d ≡ (m.holds base d && behind m cursor (id_at m d))
  unfolding keyset_filter
  holds_start base cursor d h = rw h (ground arith)

  module _ (operators : Operators m) (ids : IsIdOrder m) (reliable : IsReliable repo)
      (base : Object Value) (no_id : has "_id" base ≡ false) (strategy : Strategy D) (now : ℕ)
      (spares : SparesId strategy now) (limit : ℕ) (positive : 0 < limit) where
    -- The rows that are still to be done, behind a cursor.
    abbrev pub due : Value → D → Bool
    due cursor = selected m ids (λ d. m.holds base d) (behind m cursor)

    pub holds-due : (cursor : Value) (d : D) → m.holds (keyset_filter base cursor) d ≡ due cursor d
    holds-due cursor d = elim (Bool-cases (is_nullish cursor)) [
      | inl e ↦ holds_start base cursor d e
      | inr e ↦ rw e (holds-keyset_filter m base cursor d no_id e)
    ]

    advanced_lem :
        (cursor last : Value) → is_nullish last ≡ false → advanced repo cursor last ≡ last
    unfolding advanced
    advanced_lem cursor last h = rw h refl

    -- The write of a chunk, up to the row `c`.
    pub purge_docs-lem :
        (cursor : Value) (s : State) (x : D) (xs init rest : List D) (c : D)
        → x ∷ xs ≡ init ++ c ∷ []
        → IsKeyed m (rows s)
        → filter (due cursor) (rows s) ≡ (init ++ c ∷ []) ++ rest
        → (t : State) × (purge_docs repo base strategy now limit (x ∷ xs) cursor s
            ≡ (returns (length (x ∷ xs)), id_at m c, t))
          × (rows t ≡ edited (λ d. due cursor d && not (past m c d)) (effect strategy now) (rows s))
    unfolding purge_docs purge_anonymize_functional
    purge_docs-lem cursor s x xs init rest c p k e =
        let q : D → Bool = λ d. m.holds base d in
        let front = init ++ c ∷ [] in
        let (kf, upto, later) =
          parts m ids init rest c
            (subst (IsKeyed m) e (selected-IsKeyed m ids q (behind m cursor) (rows s) k)) in
        let is_id = (All-split (λ d. IsId (id_at m d)) init (c ∷ []) kf.0).1.0 in
        let last_lem = ap (last_id repo) p ∙ last_id-append init c in
        let kd = subst (All (λ d. IsId (id_at m d))) (sym p) kf.0 in
        elim (Bool-cases (is_functional repo strategy)) [
          | inl f ↦
              let fields = functional_fields repo strategy in
              let ops = map (update_of repo fields) (x ∷ xs) in
              let ok = reliable.writes ops s in
              (
                (repo.bulk_write ops s).1,
                rw f (
                    committed_lem (length (x ∷ xs)) _ cursor (repo.bulk_write ops s) ok
                    ∙ ap (λ v. (returns (length (x ∷ xs)), v, (repo.bulk_write ops s).1))
                        (advanced_lem cursor (last_id repo (x ∷ xs))
                            (ap is_nullish last_lem ∙ is_id.1)
                          ∙ last_lem)),
                repo.rows-bulk_write ops s (AllPin-map m repo ids fields (x ∷ xs) kd) ok
                    ∙ ap (λ docs. applied m set_on (map (update_of repo fields) docs) (rows s)) p
                    ∙ applied-chunk m repo ids fields q (behind m cursor) (rows s) init rest c
                        (λ d. functional_id strategy now d f spares) k e
                    ∙ ap (λ g. edited (λ d. due cursor d && not (past m c d)) g (rows s))
                        (fun_ext λ d. sym (functional_lem strategy now d f)),
              )
          | inr f ↦
              let narrow = narrow_to_ids base (map (id_at m) (x ∷ xs)) in
              let (ok, r) = rows-write_chunk reliable strategy now narrow s f in
              (
                (write_chunk repo strategy now narrow s).1,
                rw f (
                    committed_lem (length (x ∷ xs)) _ cursor
                      (write_chunk repo strategy now narrow s) ok
                    ∙ ap
                        (λ v. (
                          returns (length (x ∷ xs)),
                          v,
                          (write_chunk repo strategy now narrow s).1,
                        ))
                        last_lem),
                r
                    ∙ edit_congr _ _ (rows s) (
                        All-map
                          (λ d h.
                            ap (λ b. if b then effect strategy now d else some d)
                              (holds-narrow_to_ids m operators base (map (id_at m) (x ∷ xs)) d no_id
                                  (AllLiteral-map m (x ∷ xs) kd)
                                ∙ ap (λ docs. m.holds base d && among m docs d) p
                                ∙ h))
                          (rows s) (chunk_lem m ids q (behind m cursor) (rows s) init rest c k e)),
              )
        ]
