-- ===== src/Pagination/Offset/Laws.antt =====
-- What a page of offset pagination holds, and that the pages together are the whole collection.
use native.Mathlib.Nat.{suc-mul}
use native.Mathlib.Numerals.{add-one}
use mongokit.Prelude.{
  ℕ, zero, suc, ◌*◌, ◌≤◌, ◌<◌, String, ◌≡◌, refl, sym, ap, ◌∙◌, inl, inr, Bool, Option, none, some,
  if◌then◌else◌, ◌||◌, ◌&&◌, not, true, false, List, [], ◌++◌, length, take, drop, trim-take,
  ltb-length-take, take_all, take_add, length-drop, arith, ltb, ltb_congr, Outcome, returns, throws,
  >>=-eq-returns, returns-injective, subst, Bool-cases,
}
use mongokit.Pagination.Limits.{
  Number, finite, Requested, LimitError, or_else_if_zero, parsed, validate_limit, validate_page,
  calculate_skip, calculate_total_pages,
}
use mongokit.Pagination.Limits.Bounds.{
  validate_page_bounds, validate_page_whole, lt-calculate_total_pages,
}
use mongokit.Js.Value.{pos}
use mongokit.Pagination.Offset.{
  Collection, OffsetOptions, OffsetResult, EngineConfig, is_none, count_total, or_default,
  or_filters, is_estimated, paginate_at, paginate,
}

module _ {Q S D : Type 0} (coll : Collection Q S D) (config : EngineConfig)
    (o : OffsetOptions Q S) where
  abbrev pub rows : List D
  rows = coll.matching o.filters o.sort

  -- How many rows the options take there to be: the rows themselves, where one more is fetched than
  -- a page holds; the estimate of the whole collection, where it is asked for and there are no
  -- filters; and otherwise the rows of the filter to count by, which is the filter unless another
  -- one is given.
  abbrev pub uses_estimate : Bool
  uses_estimate = (is_estimated o.count_strategy || config.use_estimated_count) && not o.has_filters

  abbrev pub counted : Option Q → ℕ
  counted none = length rows
  counted (some q) = length (coll.matching q o.sort)

  abbrev pub known_rows : ℕ
  known_rows =
      if is_none o.count_strategy
      then length rows
      else if uses_estimate
      then coll.estimated_document_count
      else counted o.count_filters

  counted_lem : (c : Option Q) → coll.count_documents (or_filters c o.filters) ≡ counted c
  counted_lem none = coll.count-eq o.filters o.sort
  counted_lem (some q) = coll.count-eq q o.sort

  same_test : (a b f : Bool) → ((a || (b && not f)) && not f) ≡ ((a || b) && not f)
  same_test a b f = ground arith

  count_total-eq-known_rows :
      is_none o.count_strategy ≡ false → count_total coll config o ≡ known_rows
  unfolding count_total
  count_total-eq-known_rows e =
      rw
        (
          same_test (is_estimated o.count_strategy) config.use_estimated_count o.has_filters,
          e,
          counted_lem o.count_filters,
        )
        refl

  module _ (total : coll.is_total o.filters o.sort ≡ true) (requested : Number) (n limit : ℕ)
      (h : 0 < limit) where
    skip_lem : calculate_skip (suc n) limit ≡ n * limit
    unfolding calculate_skip
    skip_lem = ap (λ (t : ℕ). t * limit) (omega arith)

    found :
        (m : ℕ)
        → 0 < m
        → coll.find o.filters o.sort (calculate_skip (suc n) limit) m
          ≡ take m (drop (n * limit) rows)
    found m p = rw skip_lem (coll.find-eq o.filters o.sort (n * limit) m total p)

    paginate_at-items :
        (paginate_at coll config o requested (suc n) limit).items
        ≡ take limit (drop (n * limit) rows)
    unfolding paginate_at
    paginate_at-items = elim (Bool-cases (is_none o.count_strategy)) [
      | inl e ↦ rw (e, add-one, found (suc limit) (omega arith)) (trim-take limit _)
      | inr e ↦ rw e (found limit h)
    ]

    paginate_at-has_next :
        (paginate_at coll config o requested (suc n) limit).has_next
        ≡ ltb (suc n * limit) known_rows
    unfolding paginate_at
    paginate_at-has_next = elim (Bool-cases (is_none o.count_strategy)) [
      | inl e ↦
          rw (e, add-one, found (suc limit) (omega arith), ltb-length-take)
            (ltb_congr limit _ _ _
              (λ q. omega (arith, suc-mul n limit, length-drop (n * limit) rows))
              (λ q. omega (arith, suc-mul n limit, length-drop (n * limit) rows)))
      | inr e ↦ rw (e, count_total-eq-known_rows e, e) (lt-calculate_total_pages (suc n) limit _ h)
    ]

  module _ (to_number : String → Number) where
    -- The limit that the engine settles on.
    abbrev pub effective_limit : ℕ
    effective_limit =
        validate_limit to_number (or_default o.limit config.default_limit) config.limits

    -- What the page with the number n + 1 holds.
    abbrev pub IsSlice : OffsetResult D → ℕ → Type 0
    IsSlice r n =
        (r.page ≡ suc n)
        × (r.items ≡ take effective_limit (drop (n * effective_limit) rows))
        × (r.has_next ≡ ltb (suc n * effective_limit) known_rows)
        × (r.has_prev ≡ ltb 0 n)

    paginate_at-IsSlice :
        (requested : Number) (p : ℕ)
        → coll.is_total o.filters o.sort ≡ true
        → 0 < effective_limit
        → 0 < p
        → (n : ℕ) × (p ≡ suc n) × IsSlice (paginate_at coll config o requested p effective_limit) n
    paginate_at-IsSlice requested zero t h q = absurd (omega arith)
    paginate_at-IsSlice requested (suc n) t h q = (
      n,
      refl,
      (
        unfold paginate_at in refl,
        paginate_at-items t requested n effective_limit h,
        paginate_at-has_next t requested n effective_limit h,
        unfold paginate_at in ltb_congr 1 (suc n) 0 n (λ q. omega arith) (λ q. omega arith),
      ),
    )

    -- Under a sort that leaves no ties between the rows, and with an effective limit of at least 1: a
    -- request that is answered is answered with the page n + 1 that the sanitized page number says.
    -- It holds exactly the rows from n * limit up to (n + 1) * limit, under every count strategy;
    -- `hasPrev` is true exactly when n > 0; and `hasNext` exactly when (n + 1) * limit is less than
    -- the rows that the strategy takes there to be: without a count the rows themselves, otherwise
    -- the estimate of the collection or the rows of the filter to count by.
    pub paginate-IsSlice :
        (r : OffsetResult D)
        → coll.is_total o.filters o.sort ≡ true
        → 0 < effective_limit
        → paginate coll to_number config o ≡ returns r
        → (n : ℕ) × (validate_page to_number o.page config.limits ≡ returns (suc n)) × IsSlice r n
    unfolding paginate
    paginate-IsSlice r t h e =
        let asked = or_default o.limit config.default_limit in
        let (p, valid, same) = >>=-eq-returns (validate_page to_number o.page config.limits) _ e in
        let at = paginate_at coll config o (parsed to_number asked) p effective_limit in
        let (n, number, slice) =
          paginate_at-IsSlice (parsed to_number asked) p t h
            (validate_page_bounds to_number config.limits o.page p valid).0 in
        (n, valid ∙ ap returns number, subst (λ x. IsSlice x n) (returns-injective at r same) slice)

-- Walking the pages of one request.
module _ {Q S D : Type 0} (coll : Collection Q S D) (config : EngineConfig) (o : OffsetOptions Q S)
    (to_number : String → Number) where
  abbrev pub at_page : ℕ → OffsetOptions Q S
  at_page n = record o { page = Requested.number (finite (pos n) 0) }

  abbrev pub items_of : Outcome LimitError (OffsetResult D) → List D
  items_of (returns r) = r.items
  items_of (throws e) = []

  -- The items of the pages 1 to n, one after the other.
  abbrev pub pages_upto : ℕ → List D
  pages_upto zero = []
  pages_upto (suc n) = pages_upto n ++ items_of (paginate coll to_number config (at_page (suc n)))

  abbrev limit : ℕ
  limit = effective_limit coll config o to_number

  page_items :
      (n : ℕ)
      → coll.is_total o.filters o.sort ≡ true
      → 0 < limit
      → suc n ≤ or_else_if_zero config.limits.max_page 10000
      → items_of (paginate coll to_number config (at_page (suc n)))
        ≡ take limit (drop (n * limit) (rows coll config o))
  unfolding paginate
  page_items n t h m =
      rw (validate_page_whole to_number config.limits n 0 m)
        (paginate_at-items coll config (at_page (suc n)) t _ n limit h)

  pages_upto-eq-take :
      (n : ℕ)
      → coll.is_total o.filters o.sort ≡ true
      → 0 < limit
      → n ≤ or_else_if_zero config.limits.max_page 10000
      → pages_upto n ≡ take (n * limit) (rows coll config o)
  pages_upto-eq-take zero t h m =
      let e : 0 ≡ zero * limit = omega arith in ap (λ k. take k (rows coll config o)) e
  pages_upto-eq-take (suc n) t h m =
      rw (page_items n t h m, pages_upto-eq-take n t h (omega arith), suc-mul n limit)
        (sym (take_add (n * limit) limit (rows coll config o)))

  -- Under a sort that leaves no ties between the rows, and with an effective limit of at least 1: the
  -- pages 1 up to the number of pages are, one after the other, all the rows in the sort's order;
  -- none is missing, repeated or out of order, as long as no page is above the configured maximum.
  pub paginate-covers :
      coll.is_total o.filters o.sort ≡ true
      → 0 < limit
      → calculate_total_pages (length (rows coll config o)) limit
        ≤ or_else_if_zero config.limits.max_page 10000
      → pages_upto (calculate_total_pages (length (rows coll config o)) limit) ≡ rows coll config o
  paginate-covers t h m =
      let n = calculate_total_pages (length (rows coll config o)) limit in
      let e = lt-calculate_total_pages n limit (length (rows coll config o)) h in
      pages_upto-eq-take n t h m ∙ take_all (n * limit) (rows coll config o) (ground arith)
