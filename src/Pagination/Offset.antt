-- ===== src/Pagination/Offset.antt =====
-- `paginate` of src/pagination/PaginationEngine.ts. The collection is a parameter; populate,
-- select, session, hint and read preference are handed to the driver and are not modelled.
pub mod Laws
use mongokit.Prelude.{
  ℕ, zero, suc, ◌+◌, ◌<◌, String, ◌≡◌, Bool, true, false, ◌&&◌, ◌||◌, not, Option, none, some, List,
  length, take, drop, pop, ltb, ◌==◌, if◌then◌else◌, Outcome, returns, throws, ◌>>=◌,
}
use mongokit.Pagination.Limits.{
  Number, finite, not_finite, Requested, PaginationConfig, LimitError, validate_limit,
  validate_page, should_warn_deep_pagination, calculate_skip, calculate_total_pages, parsed,
}
use mongokit.Js.Value.{pos, negsuc}

-- A MongoDB collection, as the engine reads it, while no one writes to it. `matching` is a sequence
-- that `find(q).sort(s)` may iterate over. MongoDB promises the same one to every query only where
-- the sort leaves no ties, which `is_total` tells; with ties, or without a sort, a page is an
-- arbitrary slice. A limit of zero means no limit to the driver, so the law wants a positive one.
pub record Collection (Q S D : Type 0) : Type 0 where
  pub matching : Q → Option S → List D
  pub is_total : Q → Option S → Bool
  pub find : Q → Option S → ℕ → ℕ → List D
  pub count_documents : Q → ℕ
  pub estimated_document_count : ℕ
  pub find-eq :
      (q : Q) (s : Option S) (skip limit : ℕ)
      → is_total q s ≡ true
      → 0 < limit
      → find q s skip limit ≡ take limit (drop skip (matching q s))
  pub count-eq : (q : Q) (s : Option S) → count_documents q ≡ length (matching q s)

pub data CountStrategy : Type 0 where
  exact estimated none_ : CountStrategy

pub data Warning : Type 0 where
  deep_pagination : ℕ → Warning
  limit_clamped : Number → ℕ → Warning

pub record OffsetOptions (Q S : Type 0) : Type 0 where
  pub filters : Q
  pub has_filters : Bool
  pub sort : Option S
  pub count_filters : Option Q
  pub page : Requested
  pub limit : Option Requested
  pub count_strategy : CountStrategy

pub record OffsetResult (D : Type 0) : Type 0 where
  pub items : List D
  pub page : ℕ
  pub limit : ℕ
  pub total : ℕ
  pub pages : ℕ
  pub has_next : Bool
  pub has_prev : Bool
  pub warning : Option Warning

pub record EngineConfig : Type 0 where
  pub limits : PaginationConfig
  pub default_limit : ℕ
  pub deep_page_threshold : ℕ
  pub use_estimated_count : Bool

-- `requestedLimit > sanitizedLimit`, for a finite number: its floor is larger, or is the limit and
-- there is a fraction.
pub was_clamped : Number → ℕ → Bool
was_clamped not_finite limit = false
was_clamped (finite (negsuc n) f) limit = false
was_clamped (finite (pos n) f) limit = ltb limit n || (n == limit && ltb 0 f)

unfoldable pub is_none : CountStrategy → Bool
is_none none_ = true
is_none _ = false

unfoldable pub is_estimated : CountStrategy → Bool
is_estimated estimated = true
is_estimated _ = false

abbrev pub or_filters {ℓ} : {Q : Type ℓ} → Option Q → Q → Q
or_filters none q = q
or_filters (some c) q = c

abbrev pub or_default : Option Requested → ℕ → Requested
or_default none d = Requested.number (finite (pos d) 0)
or_default (some r) d = r

module _ {Q S D : Type 0} (coll : Collection Q S D) where
  -- The branches that choose how to count.
  unfoldable pub count_total : EngineConfig → OffsetOptions Q S → ℕ
  unfolding is_none is_estimated
  count_total config o =
      if (is_estimated o.count_strategy || (config.use_estimated_count && not o.has_filters))
        && not o.has_filters
      then coll.estimated_document_count
      else if is_none o.count_strategy
      then 0
      else coll.count_documents (or_filters o.count_filters o.filters)

  unfoldable pub warning_of : EngineConfig → Number → ℕ → ℕ → Option Warning
  unfolding was_clamped should_warn_deep_pagination
  warning_of config requested page limit =
      if should_warn_deep_pagination page config.deep_page_threshold
      then some (deep_pagination page)
      else if was_clamped requested limit
      then some (limit_clamped requested limit)
      else none

  -- After `page` and `limit` are sanitized.
  unfoldable pub paginate_at : EngineConfig → OffsetOptions Q S → Number → ℕ → ℕ → OffsetResult D
  unfolding calculate_skip
  paginate_at config o requested page limit =
      let uncounted = is_none o.count_strategy in
      let fetch_limit = if uncounted then limit + 1 else limit in
      let fetched = coll.find o.filters o.sort (calculate_skip page limit) fetch_limit in
      let total = count_total config o in
      let pages = if uncounted then 0 else calculate_total_pages total limit in
      record {
        items = if uncounted && ltb limit (length fetched) then pop fetched else fetched;
        page = page;
        limit = limit;
        total = total;
        pages = pages;
        has_next = if uncounted then ltb limit (length fetched) else ltb page pages;
        has_prev = ltb 1 page;
        warning = warning_of config requested page limit;
      }

  module _ (to_number : String → Number) where
    unfoldable pub paginate : EngineConfig → OffsetOptions Q S → Outcome LimitError (OffsetResult D)
    paginate config o =
        let asked = or_default o.limit config.default_limit in
        validate_page to_number o.page config.limits >>= λ page. returns (
          paginate_at config o (parsed to_number asked) page
            (validate_limit to_number asked config.limits))
