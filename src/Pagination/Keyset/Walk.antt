-- ===== src/Pagination/Keyset/Walk.antt =====
-- Following the cursors of `stream` from the first page to the last.
use mongokit.Prelude.{
  ℕ, zero, suc, ◌<◌, String, ◌≡◌, true, false, Option, none, some, List, [], ◌++◌, take, filter,
  Outcome, returns, throws,
}
use mongokit.Js.Object.{has}
use mongokit.Js.Object.Laws.{IsObject}
use mongokit.Js.Value.{ℤ, is_operator}
use mongokit.Mongo.{Matching, IsLiteral}
use mongokit.Pagination.Limits.{Number}
use mongokit.Pagination.Sort.{SortSpec, includes, is_direction}
use mongokit.Pagination.Sort.Laws.{directed}
use mongokit.Pagination.Filter.{Filter, append_id, is_nullish}
use mongokit.Pagination.Cursor.{Runtime}
use mongokit.Pagination.Cursor.RoundTrip.{IsStorable}
use mongokit.Pagination.Keyset.{
  Find, KeysetConfig, KeysetOptions, KeysetResult, StreamError, stream,
}
use mongokit.Pagination.Keyset.Order.{IsSorted, row_behind}

-- The rows of all pages: the items of one page, and those that its cursor leads to.
abbrev pub next_rows {ℓ} : {D : Type ℓ} {T : Type 0} → Option T → (T → List D) → List D
next_rows none k = []
next_rows (some t) k = k t

abbrev pub page_rows :
    {D T : Type 0} → Outcome StreamError (KeysetResult D T) → (T → List D) → List D
page_rows (throws e) k = []
page_rows (returns r) k = r.items ++ next_rows r.next k

module _ {D : Type 0} (rt : Runtime) (m : Matching D) (find : Find D) where
  -- What the driver gives: the documents that a filter selects, in the order of the sort, which is
  -- strict since every keyset sort ends in `_id`.
  pub record Source : Type 0 where
    pub ordered : SortSpec → List D
    pub find-eq :
        (q : Filter) (s : SortSpec) (n : ℕ)
        → 0 < n
        → find q s n ≡ take n (filter (λ x. m.holds q x) (ordered s))
    pub ordered-IsSorted :
        (d : ℤ) (names : List String)
        → is_direction d ≡ true
        → IsObject (directed d (append_id names))
        → IsSorted (row_behind m d (append_id names)) (ordered (directed d (append_id names)))

  -- The caller's filter has no `$or` of its own; the sort fields are no operators, and every
  -- document has a scalar, not null, in each of them.
  pub record IsKeyed (base : Filter) (names : List String) : Type 0 where
    pub no_or : has "$or" base ≡ false
    pub plain : (f : String) → includes (append_id names) f ≡ true → is_operator f ≡ false
    pub literal :
        (x : D) (f : String) → includes (append_id names) f ≡ true → IsLiteral (m.value_at f x)
    pub present :
        (x : D) (f : String)
        → includes (append_id names) f ≡ true
        → is_nullish (m.value_at f x) ≡ false
    pub storable :
        (x : D) (f : String) → includes (append_id names) f ≡ true → IsStorable rt (m.value_at f x)

  module _ (to_number : String → Number) (config : KeysetConfig) (o : KeysetOptions rt.Text) where
    unfoldable pub walk : ℕ → Option rt.Text → List D
    walk zero after = []
    walk (suc n) after =
        page_rows (stream rt m.value_at find to_number config (record o { after = after }))
          (λ t. walk n (some t))
