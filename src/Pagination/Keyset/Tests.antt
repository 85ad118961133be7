-- ===== src/Pagination/Keyset/Tests.antt =====
-- Keyset pagination of the two rows, one to a page.
use mongokit.Prelude.{
  String, ◌≡◌, ◌≢◌, refl, ap, true, false, ◌&&◌, none, some, [], ◌∷◌, filter, str_eq, eq_iff, arith,
  if◌then◌else◌, returns,
}
use mongokit.Js.Object.{get, has, put, keys}
use mongokit.Js.Value.{pos, Value, num, str, oid, date, int_lt, int_eq, is_operator, fields}
use mongokit.Mongo.Memory.{holds, clause, same}
use mongokit.Mongo.Memory.Order.{below}
use mongokit.Pagination.Limits.{Number, validate_limit}
use mongokit.Pagination.Sort.{
  SortSpec, ascending, descending, includes, non_id, validate_keyset_sort, check_directions,
  is_direction, check_fields, check_same, check_id, normalize_sort, is_empty,
}
use mongokit.Pagination.Sort.Laws.{All-includes, IsKeysetSort, validate_keyset_sort-IsKeysetSort}
use mongokit.Pagination.Filter.{Filter, build_keyset_filter, is_nullish}
use mongokit.Pagination.Filter.Overwritten.{build_keyset_filter-put}
use mongokit.Pagination.Filter.Behind.{IsUsable, build_keyset_filter-eq-behind}
use mongokit.Pagination.Filter.Semantics.{behind, lex_behind}
use mongokit.Pagination.Cursor.{decode_cursor, encode_cursor}
use mongokit.Pagination.Cursor.RoundTrip.{IsStorable, decoded, decode_cursor-encode_cursor}
use mongokit.Pagination.Keyset.{KeysetConfig, KeysetOptions}
use mongokit.Pagination.Keyset.Walk.{IsKeyed, walk}
use mongokit.Pagination.Keyset.Covers.{walk-covers}
use mongokit.Pagination.Keyset.Sample.{first, second, rows, rows-IsOrder, value_at, ordered, find}
use mongokit.Pagination.Keyset.SampleRuntime.{runtime, rows_source}

-- By age, oldest first, and no direction for `_id`.
abbrev by_age : SortSpec
by_age = ("age", descending) ∷ []

abbrev by_age_and_id : SortSpec
by_age_and_id = ("age", descending) ∷ ("_id", descending) ∷ []

not_id : keys by_age ≢ "_id" ∷ []
not_id p = ground (arith, eq_iff "age" "_id", p)

accepted : validate_keyset_sort [] by_age ≡ returns by_age_and_id
unfolding validate_keyset_sort check_directions is_direction check_fields check_same check_id
    normalize_sort is_empty non_id get put int_eq
accepted = refl

validate_keyset_sort-IsKeysetSort_example : IsKeysetSort [] (keys (non_id by_age)) by_age_and_id
unfolding has
validate_keyset_sort-IsKeysetSort_example =
    validate_keyset_sort-IsKeysetSort [] by_age by_age_and_id (refl, tt) not_id accepted

plain_names : (f : String) → includes ("age" ∷ "rank" ∷ "_id" ∷ []) f ≡ true → is_operator f ≡ false
plain_names =
    All-includes (λ f. is_operator f ≡ false) ("age" ∷ "rank" ∷ "_id" ∷ [])
      (unfold is_operator in (refl, (refl, (refl, tt))))

abbrev adults : Filter
adults = ("kind", num (pos 7)) ∷ []

abbrev cursor : String → Value
cursor f = value_at f first

usable : IsUsable adults cursor ("age" ∷ "rank" ∷ [])
unfolding value_at is_nullish has
usable = record { no_or = refl; plain = plain_names; literal = λ f p. tt; present = λ f p. refl }

-- The compound filter, made from the first row, on the second row.
build_keyset_filter-eq-behind_example :
    rows.holds
      (build_keyset_filter adults
        (("age", ascending) ∷ ("rank", ascending) ∷ ("_id", ascending) ∷ [])
        (cursor "age")
        (cursor "_id")
        (some (("age", cursor "age") ∷ ("rank", cursor "rank") ∷ [])))
      second
    ≡ (rows.holds adults second
        && lex_behind rows ascending cursor ("age" ∷ "rank" ∷ "_id" ∷ []) second)
unfolding has
build_keyset_filter-eq-behind_example =
    build_keyset_filter-eq-behind rows ascending cursor adults ("age" ∷ "rank" ∷ []) second
      (refl, (refl, (refl, tt))) usable

-- A stored document with a time and an ObjectId.
abbrev document : String → Value
document f = if str_eq f "at" then date 3 else if str_eq f "_id" then oid "a1" else str "x"

abbrev by_time_and_name : SortSpec
by_time_and_name = ("at", ascending) ∷ ("name", ascending) ∷ ("_id", ascending) ∷ []

names-IsStorable :
    (f : String)
    → includes (keys (non_id by_time_and_name)) f ≡ true
    → IsStorable runtime (document f)
unfolding non_id
names-IsStorable =
    All-includes (λ f. IsStorable runtime (document f)) ("at" ∷ "name" ∷ []) (tt, (tt, tt))

decode_cursor-encode_cursor_example :
    decode_cursor runtime (encode_cursor runtime document "at" by_time_and_name (pos 1))
    ≡ returns
        (decoded runtime document by_time_and_name (pos 1) "at" (keys (non_id by_time_and_name)))
decode_cursor-encode_cursor_example =
    decode_cursor-encode_cursor runtime document by_time_and_name (pos 1) "at" tt tt
      names-IsStorable

abbrev config : KeysetConfig
config = record {
  limits = record { default_limit = some 10; max_limit = some 100; max_page = some 1000 };
  default_limit = 1;
  cursor_version = pos 1;
  min_cursor_version = pos 1;
  strict_keyset_sort_fields = [];
}

abbrev options : KeysetOptions Value
options = record { filters = adults; sort = some by_age; after = none; limit = none }

keyed : IsKeyed runtime rows find adults (keys (non_id by_age))
unfolding value_at is_nullish has non_id
keyed = record {
  no_or = refl;
  plain =
      All-includes (λ f. is_operator f ≡ false) ("age" ∷ "_id" ∷ [])
        (unfold is_operator in (refl, (refl, tt)));
  literal = λ r f p. tt;
  present = λ r f p. refl;
  storable = λ r f p. tt;
}

abbrev no_number : String → Number
no_number s = Number.not_finite

-- Two pages of one row each, in three calls.
walk-covers_example :
    walk runtime rows find no_number config options 3 none
    ≡ filter (λ r. rows.holds adults r) (ordered by_age_and_id)
unfolding has int_lt ordered validate_limit holds clause value_at same fields lex_behind behind
    below int_eq
walk-covers_example =
    walk-covers runtime rows rows-IsOrder find rows_source config no_number options by_age
      by_age_and_id 3 refl (refl, tt) (λ d p. absurd (not_id (ap keys p))) accepted keyed refl
      (omega arith) (omega arith)

-- The caller's `$or` is gone from the second page on.
build_keyset_filter-put_example :
    build_keyset_filter (("$or", str "own") ∷ []) by_age_and_id (num (pos 3)) (oid "a") none
    ≡ build_keyset_filter [] by_age_and_id (num (pos 3)) (oid "a") none
unfolding is_nullish put
build_keyset_filter-put_example =
    build_keyset_filter-put [] by_age_and_id (num (pos 3)) (oid "a") (str "own") none refl
