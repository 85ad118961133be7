-- ===== src/Pagination/Keyset.antt =====
-- `stream` of src/pagination/PaginationEngine.ts: keyset pagination. The warning about a missing
-- index only writes to the log, and select, populate, session and hint are handed to the driver.
pub mod Order
pub mod Walk
pub mod Resume
pub mod Covers
mod Sample
mod SampleRuntime
mod Tests
use mongokit.Prelude.{
  ℕ, zero, suc, ◌+◌, ◌<◌, String, ◌≡◌, Bool, true, false, ◌&&◌, Option, none, some, List, [], ◌∷◌,
  ◌++◌, length, take, filter, pop, last, All, ltb, if◌then◌else◌, Outcome, returns, throws, ◌>>=◌,
}
use mongokit.Js.Value.{ℤ, Value}
use mongokit.Mongo.{Matching}
use mongokit.Pagination.Limits.{Number, Requested, PaginationConfig, validate_limit}
use mongokit.Pagination.Offset.{or_default}
use mongokit.Pagination.Sort.{SortSpec, SortError, validate_keyset_sort, get_primary_field}
use mongokit.Pagination.Filter.{Filter}
use mongokit.Pagination.Cursor.{Runtime, CursorError, encode_cursor, resolve_cursor_filter}

pub data StreamError : Type 0 where
  sort_required : StreamError
  bad_sort : SortError → StreamError
  bad_cursor : CursorError → StreamError

pub record KeysetConfig : Type 0 where
  pub limits : PaginationConfig
  pub default_limit : ℕ
  pub cursor_version : ℤ
  pub min_cursor_version : ℤ
  pub strict_keyset_sort_fields : List String

pub record KeysetOptions (T : Type 0) : Type 0 where
  pub filters : Filter
  pub sort : Option SortSpec
  pub after : Option T
  pub limit : Option Requested

pub record KeysetResult (D T : Type 0) : Type 0 where
  pub items : List D
  pub limit : ℕ
  pub has_more : Bool
  pub next : Option T

unfoldable pub sort_result : Outcome SortError SortSpec → Outcome StreamError SortSpec
sort_result (returns s) = returns s
sort_result (throws e) = throws (bad_sort e)

unfoldable pub filter_result : Outcome CursorError Filter → Outcome StreamError Filter
filter_result (returns f) = returns f
filter_result (throws e) = throws (bad_cursor e)

-- `find(query).sort(sort).limit(n)`, for n > 0
abbrev pub Find : Type 0 → Type 0
Find D = Filter → SortSpec → ℕ → List D

module _ {D : Type 0} (rt : Runtime) (value_at : String → D → Value) (find : Find D) where
  open rt use {Text}

  unfoldable pub query_of :
      KeysetConfig → SortSpec → Filter → Option Text → Outcome StreamError Filter
  unfolding filter_result
  query_of config sort filters none = returns filters
  query_of config sort filters (some after) =
      filter_result (
        resolve_cursor_filter rt after sort config.cursor_version filters config.min_cursor_version)

  -- `hasMore && data.length > 0 ? encodeCursor(data[data.length - 1], …) : null`
  unfoldable pub next_cursor : KeysetConfig → SortSpec → Bool → Option D → Option Text
  next_cursor config sort true (some row) =
      some
        (encode_cursor rt (λ f. value_at f row) (get_primary_field sort) sort config.cursor_version)
  next_cursor config sort _ _ = none

  -- From the documents that were fetched, one more than the limit if there are more.
  unfoldable pub page_of : KeysetConfig → SortSpec → ℕ → List D → KeysetResult D Text
  unfolding next_cursor
  page_of config sort limit fetched =
      let has_more = ltb limit (length fetched) in
      let items = if has_more then pop fetched else fetched in
      record {
        items = items;
        limit = limit;
        has_more = has_more;
        next = next_cursor config sort has_more (last items);
      }

  unfoldable pub stream_sorted :
      KeysetConfig → ℕ → SortSpec → KeysetOptions Text → Outcome StreamError (KeysetResult D Text)
  stream_sorted config limit sort o = query_of config sort o.filters o.after >>= λ query.
      returns (page_of config sort limit (find query sort (limit + 1)))

  module _ (to_number : String → Number) where
    unfoldable pub stream :
        KeysetConfig → KeysetOptions Text → Outcome StreamError (KeysetResult D Text)
    stream config o = elim o.sort [
      | none ↦ throws sort_required
      | some sort ↦
          sort_result (validate_keyset_sort config.strict_keyset_sort_fields sort) >>= λ normalized.
          stream_sorted config
            (validate_limit to_number (or_default o.limit config.default_limit) config.limits)
            normalized o
    ]
