-- ===== src/Aggregate/Paginate/Walk.antt =====
-- Following the cursors of an aggregation gives every row once, in order.
use mongokit.Prelude.{
  ℕ, zero, suc, ◌<◌, String, ◌≡◌, refl, sym, ap, subst, ◌∙◌, Bool, true, false, Option, none, some,
  List, [], ◌∷◌, ◌++◌, append_assoc, length, take, drop, last, filter, filter-congr, last-append,
  take-take-suc, ltb-length-take, take_all, take-append-drop, length-drop, length-take_of_le, ◌⊎◌,
  arith, ltb, ltb→lt, Bool-cases, inl, inr, Outcome, returns, throws,
}
use mongokit.Js.Object.{Object, get}
use mongokit.Js.Object.Laws.{IsObject}
use mongokit.Js.Value.{ℤ, Value}
use mongokit.Mongo.{Matching}
use mongokit.Pagination.Sort.{SortSpec}
use mongokit.Pagination.Keyset.Order.{IsSorted, filter_after}
use mongokit.Aggregate.Keyset.{or_null}
use mongokit.Aggregate.Keyset.Behind.{
  comes_after, IsAnchored, build_keyset_predicate-eq-comes_after,
}
use mongokit.Aggregate.Paginate.{
  Source, AggPage, AggError, peeked, encoded, page_of, match_after, decoded_match, paged,
  keyset_page,
}

-- The rows of the pages up to the last, or none if the calls do not suffice.
module _ {Row Text : Type 0} (source : Source Row) (encode : Row → SortSpec → Text)
    (decode : Text → Option (Object Value)) (sort : SortSpec) (limit : ℕ) where
  abbrev pub before_all : List Row → Option (List Row) → Option (List Row)
  before_all rows none = none
  before_all rows (some later) = some (rows ++ later)

  abbrev pub following :
      (Option Text → Option (List Row)) → List Row → Option Text → Option (List Row)
  following again rows none = some rows
  following again rows (some text) = before_all rows (again (some text))

  abbrev pub next_pages :
      (Option Text → Option (List Row)) → Outcome AggError (AggPage Row Text) → Option (List Row)
  next_pages again (returns p) = following again p.data_ p.next
  next_pages again (throws e) = none

  unfoldable pub all_pages : ℕ → Option Text → Option (List Row)
  unfolding keyset_page
  all_pages zero after = none
  all_pages (suc calls) after =
      next_pages (all_pages calls) (keyset_page source encode decode sort after limit)

regroup :
    {A : Type 0} (front init : List A) (c : A) (later : List A)
    → front ++ ((init ++ c ∷ []) ++ later) ≡ (front ++ init) ++ c ∷ later
regroup front init c later = simp append_assoc

module _ {D Text : Type 0} (m : Matching D) (source : Source D) (encode : D → SortSpec → Text)
    (decode : Text → Option (Object Value)) (k : String) (d : ℤ) (others : SortSpec) (limit : ℕ)
    (positive : 0 < limit) where
  abbrev pub the_sort : SortSpec
  the_sort = (k, d) ∷ others

  -- Does a row come after another in the sort?
  abbrev pub after : D → D → Bool
  after c x = comes_after m (λ f. m.value_at f c) the_sort x

  abbrev pub all_rows : List D
  all_rows = source.ordered none the_sort

  -- What a walk relies on: a stage filters the rows, a row's cursor decodes to scalars or nulls that
  -- compare as the row's values do, and of two rows the later one comes after the earlier by `$gt`
  -- and `$lt` (which null and a number, though they do not tie, do not).
  pub record IsWalkable : Type 0 where
    pub distinct : IsObject the_sort
    pub filtered :
        (q : Object Value) → source.ordered (some q) the_sort ≡ filter (λ x. m.holds q x) all_rows
    pub decoded :
        (c : D)
        → (cursor : Object Value) × (decode (encode c the_sort) ≡ some cursor)
          × IsAnchored cursor the_sort
          × ((x : D) → comes_after m (λ f. or_null (get f cursor)) the_sort x ≡ after c x)
    pub asymmetric : (x y : D) → after x y ≡ true → after y x ≡ false
    pub sorted : IsSorted after all_rows

  module _ (walkable : IsWalkable) where
    -- The rows behind a row.
    behind_lem :
        (front : List D) (c : D) (rest : List D)
        → all_rows ≡ front ++ c ∷ rest
        → keyset_page source encode decode the_sort (some (encode c the_sort)) limit
          ≡ returns (page_of source encode decode the_sort limit (take (suc limit) rest))
    unfolding keyset_page paged match_after peeked decoded_match
    behind_lem front c rest e =
        let (cursor, dec, anchored, same) = walkable.decoded c in
        let (q, built, holds) =
          build_keyset_predicate-eq-comes_after m cursor k d others walkable.distinct anchored in
        let rows : source.ordered (some q) the_sort ≡ rest =
          walkable.filtered q
          ∙ filter-congr _ _ all_rows (λ x. holds x ∙ same x)
          ∙ ap (filter (after c)) e
          ∙ filter_after after walkable.asymmetric front c rest
              (subst (IsSorted after) e walkable.sorted) in
        let page : Option (Object Value) → Outcome AggError (AggPage D Text) = λ o. returns (
          page_of source encode decode the_sort limit
            (take (suc limit) (source.ordered o the_sort))) in
        ap
          (λ o.
            paged source encode decode the_sort limit
              (decoded_match source encode decode the_sort o))
          dec
        ∙ ap page built
        ∙ ap (λ r. returns (page_of source encode decode the_sort limit (take (suc limit) r))) rows

    -- Where a walk stands: before the first row, or behind a row.
    abbrev Stands : Option Text → List D → Type 0
    Stands at rest =
        ((at ≡ none) × (all_rows ≡ rest))
        ⊎ ((front : List D) × (c : D) × (at ≡ some (encode c the_sort))
            × (all_rows ≡ front ++ c ∷ rest))

    page_lem :
        (at : Option Text) (rest : List D)
        → Stands at rest
        → keyset_page source encode decode the_sort at limit
          ≡ returns (page_of source encode decode the_sort limit (take (suc limit) rest))
    unfolding keyset_page paged match_after peeked
    page_lem at rest (inl (a, e)) =
        rw a
          (ap (λ r. returns (page_of source encode decode the_sort limit (take (suc limit) r))) e)
    page_lem at rest (inr (front, c, a, e)) = rw a (behind_lem front c rest e)

    on :
        (at : Option Text) (rest : List D) (front init later : List D) (c : D)
        → Stands at rest
        → rest ≡ (init ++ c ∷ []) ++ later
        → Stands (some (encode c the_sort)) later
    on at rest front init later c (inl (a, e)) p =
        inr (init, c, refl, e ∙ p ∙ append_assoc init (c ∷ []) later)
    on at rest unused init later c (inr (front, b, a, e)) p = inr (
      front ++ b ∷ init,
      c,
      refl,
      e ∙ ap (λ r. front ++ b ∷ r) p ∙ regroup front (b ∷ init) c later,
    )

    full_page :
        (rest : List D)
        → ltb limit (length rest) ≡ true
        → page_of source encode decode the_sort limit (take (suc limit) rest) ≡ record {
          data_ = take limit rest;
          has_more = true;
          next = encoded source encode decode the_sort (last (take limit rest));
        }
    unfolding page_of
    full_page rest e = rw (ltb-length-take limit rest, e, take-take-suc limit rest) refl

    last_page :
        (rest : List D)
        → ltb limit (length rest) ≡ false
        → page_of source encode decode the_sort limit (take (suc limit) rest)
          ≡ record { data_ = rest; has_more = false; next = none }
    unfolding page_of
    last_page rest e =
        rw (ltb-length-take limit rest, e, take_all (suc limit) rest (ground arith)) refl

    walk_lem :
        (calls : ℕ) (at : Option Text) (rest : List D)
        → Stands at rest
        → length rest < calls
        → all_pages source encode decode the_sort limit calls at ≡ some rest
    unfolding all_pages page_of
    walk_lem zero at rest s h = absurd (omega arith)
    walk_lem (suc calls) at rest s h = elim (Bool-cases (ltb limit (length rest))) [
      | inl e ↦
          let (c, init, p, l) =
            last-append (take limit rest)
              (omega (arith, length-take_of_le limit rest (omega (arith, ltb→lt _ _ e)))) in
          let whole = sym (take-append-drop limit rest) in
          let next =
            on at rest [] init (drop limit rest) c s (whole ∙ ap (λ r. r ++ drop limit rest) p) in
          let again = all_pages source encode decode the_sort limit calls in
          ap (next_pages source encode decode the_sort limit again) (page_lem at rest s)
          ∙ ap (λ q. following source encode decode the_sort limit again q.data_ q.next)
              (full_page rest e)
          ∙ ap
              (λ o.
                following source encode decode the_sort limit again (take limit rest)
                  (encoded source encode decode the_sort o))
              l
          ∙ ap (before_all source encode decode the_sort limit (take limit rest)) (
              walk_lem calls (some (encode c the_sort)) (drop limit rest) next
                (omega (arith, length-drop limit rest, ltb→lt _ _ e)))
          ∙ ap some (take-append-drop limit rest)
      | inr e ↦
          ap
            (next_pages source encode decode the_sort limit
              (all_pages source encode decode the_sort limit calls))
            (page_lem at rest s)
          ∙ ap
              (λ q.
                following source encode decode the_sort limit
                  (all_pages source encode decode the_sort limit calls) q.data_ q.next)
              (last_page rest e)
    ]

    -- Given more calls than rows and a positive limit; an aggregation in which a stage keeps the rows
    -- that meet it in their order; rows of which each later one comes after each
    -- earlier one by `$gt` or `$lt` in the sort's directions, and never the other way round (so no two
    -- rows tie, and no null or absent value stands beside another in a key that decides); cursors
    -- that decode to a scalar or null at each key and compare as their row does; and a sort whose
    -- keys are different and no operators: following the cursors of an aggregation from its first
    -- page gives exactly its rows, each once and in the order of the sort, and then ends.
    pub all_pages-covers :
        (calls : ℕ)
        → length all_rows < calls
        → all_pages source encode decode the_sort limit calls none ≡ some all_rows
    all_pages-covers calls h = walk_lem calls none all_rows (inl (refl, refl)) h
