-- ===== src/Aggregate/Paginate.antt =====
-- `_executeAggregatePaginate` of src/Repository.ts. What the aggregation's stages before the page give
-- is a parameter, and so are the texts of cursors.
pub mod Walk
mod Tests
use mongokit.Prelude.{
  ℕ, suc, ◌+◌, ◌-◌, ◌*◌, String, Bool, true, false, ◌&&◌, Option, none, some, List, [], ◌∷◌, length,
  take, drop, last, ltb, leb, if◌then◌else◌, Outcome, returns, throws,
}
use mongokit.Js.Object.{Object}
use mongokit.Js.Value.{Value}
use mongokit.Pagination.Sort.{SortSpec}
use mongokit.Pagination.Limits.{calculate_total_pages}
use mongokit.Aggregate.Keyset.{build_keyset_predicate}

-- The rows of the stages before the page that a filter keeps, in the order of a sort; of these, the
-- driver returns those of a `$skip` and a `$limit`, and counts all.
pub record Source (Row : Type 0) : Type 0 where
  pub ordered : Option (Object Value) → SortSpec → List Row

pub record AggPage (Row Text : Type 0) : Type 0 where
  pub data_ : List Row
  pub has_more : Bool
  pub next : Option Text

pub record AggOffsetPage (Row : Type 0) : Type 0 where
  pub data_ : List Row
  pub page : ℕ
  pub total : ℕ
  pub pages : ℕ
  pub has_next : Bool
  pub has_prev : Bool

pub data AggError : Type 0 where
  sort_required bad_cursor : AggError

module _ {Row Text : Type 0} (source : Source Row) (encode : Row → SortSpec → Text)
    (decode : Text → Option (Object Value)) where
  -- Rows of the aggregation with `$limit: limit + 1`.
  unfoldable pub peeked : Option (Object Value) → SortSpec → ℕ → List Row
  peeked keyset_match sort limit = take (suc limit) (source.ordered keyset_match sort)

  abbrev pub encoded : SortSpec → Option Row → Option Text
  encoded sort none = none
  encoded sort (some row) = some (encode row sort)

  unfoldable pub page_of : SortSpec → ℕ → List Row → AggPage Row Text
  page_of sort limit rows =
      let has_more = ltb limit (length rows) in
      let page = if has_more then take limit rows else rows in
      record {
        data_ = page;
        has_more = has_more;
        next = if has_more then encoded sort (last page) else none;
      }

  unfoldable pub decoded_match :
      SortSpec → Option (Object Value) → Outcome AggError (Option (Object Value))
  unfolding build_keyset_predicate
  decoded_match sort none = throws bad_cursor
  decoded_match sort (some cursor) = returns (build_keyset_predicate sort cursor)

  -- The stage behind a cursor, where there is one; no text, or an empty one (`finalReq.after ?`), is
  -- `none`.
  unfoldable pub match_after : SortSpec → Option Text → Outcome AggError (Option (Object Value))
  unfolding decoded_match
  match_after sort none = returns none
  match_after sort (some text) = decoded_match sort (decode text)

  unfoldable pub paged :
      SortSpec → ℕ → Outcome AggError (Option (Object Value)) → Outcome AggError (AggPage Row Text)
  unfolding peeked page_of
  paged sort limit (returns q) = returns (page_of sort limit (peeked q sort limit))
  paged sort limit (throws e) = throws e

  unfoldable pub keyset_page : SortSpec → Option Text → ℕ → Outcome AggError (AggPage Row Text)
  unfolding paged match_after
  keyset_page [] after limit = throws sort_required
  keyset_page (k ∷ sort) after limit = paged (k ∷ sort) limit (match_after (k ∷ sort) after)

  -- `executeAgg` with `limit` and `offset`.
  abbrev pub rows_at : SortSpec → ℕ → ℕ → List Row
  rows_at sort limit offset = take limit (drop offset (source.ordered none sort))

  -- `Math.max(1, page ?? 1)`
  unfoldable pub page_number : Option ℕ → ℕ
  page_number none = 1
  page_number (some page) = if leb 1 page then page else 1

  -- `countStrategy: 'none'`, and the default `'exact'`.
  unfoldable pub offset_page : Bool → SortSpec → Option ℕ → ℕ → AggOffsetPage Row
  unfolding page_number calculate_total_pages
  offset_page true sort requested limit =
      let page = page_number requested in
      let peek = rows_at sort (suc limit) ((page - 1) * limit) in
      let has_next = ltb limit (length peek) in
      record {
        data_ = if has_next then take limit peek else peek;
        page = page;
        total = 0;
        pages = 0;
        has_next = has_next;
        has_prev = ltb 1 page;
      }
  offset_page false sort requested limit =
      let page = page_number requested in
      let total = length (source.ordered none sort) in
      record {
        data_ = rows_at sort limit ((page - 1) * limit);
        page = page;
        total = total;
        pages = calculate_total_pages total limit;
        has_next = ltb (page * limit) total;
        has_prev = ltb 1 page;
      }
