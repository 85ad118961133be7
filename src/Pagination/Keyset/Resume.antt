-- ===== src/Pagination/Keyset/Resume.antt =====
-- Resuming from the cursor of a row: its query selects exactly the rows after that row.
use mongokit.Prelude.{
  String, ◌≡◌, ap, subst, ◌∙◌, true, false, ◌&&◌, some, List, [], ◌∷◌, ◌++◌, filter, filter-congr,
  arith, str_eq, returns,
}
use mongokit.Js.Object.{keys}
use mongokit.Js.Object.Laws.{IsObject}
use mongokit.Js.Value.{ℤ, pos, negsuc, Value, int_lt, object}
use mongokit.Mongo.{Matching}
use mongokit.Pagination.Sort.{SortSpec, includes, is_direction, non_id, get_primary_field}
use mongokit.Pagination.Sort.Laws.{directed}
use mongokit.Pagination.Filter.{Filter, append_id, build_keyset_filter}
use mongokit.Pagination.Filter.Behind.{
  non_id-directed, keys-directed, no_id, primary_of, cursor_values, IsUsable,
  build_keyset_filter-eq-behind, includes_head, includes_tail,
}
use mongokit.Pagination.Cursor.{
  Runtime, encode_cursor, resolve_cursor_filter, resolve_token, validate_cursor_version,
  validate_cursor_sort, sort_entries,
}
use mongokit.Pagination.Cursor.RoundTrip.{decode_cursor-encode_cursor}
use mongokit.Pagination.Keyset.{Find, KeysetConfig, query_of}
use mongokit.Pagination.Keyset.Order.{
  IsSorted, IsSorted-filter, filter_after, filter-filter, IsOrder, row_behind,
  lex_behind_asymmetric,
}
use mongokit.Pagination.Keyset.Walk.{Source, IsKeyed}

int_lt_irreflexive : (a : ℤ) → int_lt a a ≡ false
unfolding int_lt
int_lt_irreflexive (pos a) = ground arith
int_lt_irreflexive (negsuc a) = ground arith

head-ne-id :
    (f : String) (fs : List String) → includes (f ∷ fs) "_id" ≡ false → str_eq f "_id" ≡ false
unfolding includes
head-ne-id f fs h = ground arith

primary_of-includes : (names : List String) → includes (append_id names) (primary_of names) ≡ true
primary_of-includes [] = includes_head "_id" []
primary_of-includes (f ∷ fs) = includes_head f (append_id fs)

id-includes : (names : List String) → includes (append_id names) "_id" ≡ true
id-includes [] = includes_head "_id" []
id-includes (f ∷ fs) = includes_tail "_id" f (append_id fs) (id-includes fs)

name-includes :
    (names : List String) (f : String)
    → includes names f ≡ true
    → includes (append_id names) f ≡ true
unfolding includes
name-includes [] f h = cc
name-includes (g ∷ fs) f h = ground (arith, name-includes fs f)

get_primary_field-directed :
    (d : ℤ) (names : List String)
    → IsObject (directed d (append_id names))
    → get_primary_field (directed d (append_id names)) ≡ primary_of names
unfolding get_primary_field
get_primary_field-directed d [] h = ground arith
get_primary_field-directed d (f ∷ fs) h = rw (head-ne-id f fs (no_id d (f ∷ fs) h))

module _ {D : Type 0} (rt : Runtime) (m : Matching D) (order : IsOrder m) (find : Find D)
    (source : Source rt m find) (config : KeysetConfig) (d : ℤ) (names : List String)
    (base : Filter) (direction : is_direction d ≡ true)
    (distinct : IsObject (directed d (append_id names))) (keyed : IsKeyed rt m find base names)
    (version : int_lt config.cursor_version config.min_cursor_version ≡ false) where
  abbrev pub sort : SortSpec
  sort = directed d (append_id names)

  abbrev pub row : D → String → Value
  row x f = m.value_at f x

  abbrev pub rows : List D
  rows = filter (λ x. m.holds base x) (source.ordered sort)

  abbrev pub token : D → rt.Text
  token c = encode_cursor rt (row c) (get_primary_field sort) sort config.cursor_version

  abbrev pub filter_behind : D → Filter
  filter_behind c =
      build_keyset_filter base sort (row c (primary_of names)) (row c "_id")
        (cursor_values (row c) names)

  primary-includes : includes (append_id names) (primary_of names) ≡ true
  primary-includes = primary_of-includes names

  fields_of_sort : keys (non_id sort) ≡ names
  fields_of_sort = rw (non_id-directed d names (no_id d names distinct)) (keys-directed d names)

  token-not_hex : (c : D) → rt.is_hex24 (token c) ≡ false
  unfolding encode_cursor
  token-not_hex c = rt.is_hex24-to_base64 _

  -- The cursor of a row resolves to the filter made from that row.
  pub query_of-token :
      (c : D)
      → query_of rt m.value_at find config sort base (some (token c)) ≡ returns (filter_behind c)
  unfolding query_of resolve_cursor_filter resolve_token validate_cursor_version
      validate_cursor_sort
  query_of-token c = rw (
    token-not_hex c,
    decode_cursor-encode_cursor rt (row c) sort config.cursor_version (get_primary_field sort)
        (keyed.storable c _ (rw (get_primary_field-directed d names distinct) primary-includes))
        (keyed.storable c "_id" (id-includes names))
        (λ f p. keyed.storable c f (name-includes names f (rw fields_of_sort at p))),
    int_lt_irreflexive config.cursor_version,
    version,
    rt.same_text-refl (rt.stringify (object (sort_entries sort))),
    get_primary_field-directed d names distinct,
    fields_of_sort,
  )

  usable : (c : D) → IsUsable base (row c) names
  usable c = record {
    no_or = keyed.no_or;
    plain = keyed.plain;
    literal = keyed.literal c;
    present = keyed.present c;
  }

  rows-IsSorted : IsSorted (row_behind m d (append_id names)) rows
  rows-IsSorted =
      IsSorted-filter (row_behind m d (append_id names)) (λ x. m.holds base x) (source.ordered sort)
        (source.ordered-IsSorted d names direction distinct)

  -- The filter of a row selects what comes after it.
  pub filter_behind-rest :
      (front : List D) (c : D) (rest : List D)
      → rows ≡ front ++ c ∷ rest
      → filter (λ x. m.holds (filter_behind c) x) (source.ordered sort) ≡ rest
  filter_behind-rest front c rest e =
      filter-congr (λ x. m.holds (filter_behind c) x)
        (λ x. m.holds base x && row_behind m d (append_id names) c x) (source.ordered sort)
        (λ x. build_keyset_filter-eq-behind m d (row c) base names x distinct (usable c))
      ∙ filter-filter (λ x. m.holds base x) (row_behind m d (append_id names) c)
          (source.ordered sort)
      ∙ ap (filter (row_behind m d (append_id names) c)) e
      ∙ filter_after (row_behind m d (append_id names))
          (lex_behind_asymmetric m order d (append_id names) keyed.literal) front c rest
          (subst (IsSorted (row_behind m d (append_id names))) e rows-IsSorted)
