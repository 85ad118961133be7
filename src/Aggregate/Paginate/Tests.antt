-- ===== src/Aggregate/Paginate/Tests.antt =====
-- Numbers as the rows of an aggregation, and rows that tie.
use mongokit.Prelude.{ℕ, zero, suc, String, ◌≡◌, refl, Option, none, some, [], ◌∷◌, filter, arith}
use mongokit.Js.Object.{Object, get, has, put}
use mongokit.Js.Value.{pos, negsuc, Value, null, num, object, fields, int_lt, int_eq, is_operator}
use mongokit.Mongo.{Matching}
use mongokit.Mongo.Memory.{matching, holds, clause, same, satisfies, satisfies_all}
use mongokit.Mongo.Memory.Order.{below}
use mongokit.Pagination.Sort.{SortSpec}
use mongokit.Pagination.Filter.Semantics.{behind}
use mongokit.Aggregate.Keyset.{or_null, tail_op, branches, match_of, build_keyset_predicate}
use mongokit.Aggregate.Keyset.Behind.{comes_after, build_keyset_predicate-eq-comes_after}
use mongokit.Aggregate.Paginate.{
  Source, keyset_page, paged, match_after, decoded_match, peeked, page_of,
}
use mongokit.Aggregate.Paginate.Walk.{all_pages, all_pages-covers, IsWalkable}

abbrev number_at : String → ℕ → Value
number_at f n = num (pos n)

abbrev numbers : Matching ℕ
numbers = matching number_at

-- The rows 3, 2 and 1, which are in the order of a descending sort.
abbrev source : Source ℕ
source = record {
  ordered = λ o sort. elim o [
    | none ↦ 3 ∷ 2 ∷ 1 ∷ []
    | some q ↦ filter (λ x. numbers.holds q x) (3 ∷ 2 ∷ 1 ∷ [])
  ];
}

abbrev encode : ℕ → SortSpec → ℕ
encode n sort = n

abbrev decode : ℕ → Option (Object Value)
decode n = some (("n", num (pos n)) ∷ [])

source-IsWalkable : IsWalkable numbers source encode decode "n" (negsuc 0) [] 1 (omega arith)
unfolding comes_after behind below int_lt same int_eq or_null is_operator get has
source-IsWalkable = record {
  distinct = (refl, tt);
  filtered = λ q. refl;
  decoded = λ c. (("n", num (pos c)) ∷ [], refl, (refl, tt, tt), λ x. refl);
  asymmetric = λ x y h. ground (arith, h);
  sorted = ((refl, (refl, tt)), ((refl, tt), (tt, tt)));
}

all_pages-covers_example :
    all_pages source encode decode (("n", negsuc 0) ∷ []) 1 4 none ≡ some (3 ∷ 2 ∷ 1 ∷ [])
all_pages-covers_example =
    all_pages-covers numbers source encode decode "n" (negsuc 0) [] 1 (omega arith)
      source-IsWalkable 4 (omega arith)

abbrev mixed : SortSpec
mixed = ("total", negsuc 0) ∷ ("name", pos 1) ∷ []

build_keyset_predicate-eq-comes_after_example :
    (q : Object Value) × (build_keyset_predicate mixed
        (("total", num (pos 7)) ∷ ("name", num (pos 2)) ∷ [])
      ≡ some q)
    × ((x : ℕ)
        → numbers.holds q x
          ≡ comes_after numbers
              (λ k. or_null (get k (("total", num (pos 7)) ∷ ("name", num (pos 2)) ∷ [])))
              mixed
              x)
unfolding is_operator or_null get has
build_keyset_predicate-eq-comes_after_example =
    build_keyset_predicate-eq-comes_after numbers
      (("total", num (pos 7)) ∷ ("name", num (pos 2)) ∷ []) "total" (negsuc 0)
      (("name", pos 1) ∷ []) (refl, (refl, tt)) (refl, tt, (refl, tt, tt))

-- A row without a total and one with 5, ascending, and pages of one row. The rows do not tie, but
-- `$gt: null` selects no number, and the second row is on no page.
abbrev total_at : String → ℕ → Value
total_at f zero = null
total_at f (suc n) = num (pos 5)

abbrev with_null : Matching ℕ
with_null = matching total_at

abbrev null_source : Source ℕ
null_source = record {
  ordered = λ o sort. elim o [
    | none ↦ 0 ∷ 1 ∷ []
    | some q ↦ filter (λ x. with_null.holds q x) (0 ∷ 1 ∷ [])
  ];
}

abbrev decode_null : ℕ → Option (Object Value)
decode_null n = some (("total", null) ∷ [])

null_row : all_pages null_source encode decode_null (("total", pos 1) ∷ []) 1 5 none ≡ some (0 ∷ [])
unfolding all_pages keyset_page paged match_after decoded_match peeked page_of
    build_keyset_predicate branches match_of or_null tail_op int_eq get put object fields holds
    clause satisfies_all satisfies below int_lt
null_row = refl

-- Two groups with the same total, and pages of one row: the second group is on no page.
abbrev ties : Matching ℕ
ties = matching (λ f n. num (pos 7))

abbrev tied_source : Source ℕ
tied_source = record {
  ordered =
      λ o sort. elim o [ none ↦ 1 ∷ 2 ∷ [] | some q ↦ filter (λ x. ties.holds q x) (1 ∷ 2 ∷ []) ];
}

abbrev decode_total : ℕ → Option (Object Value)
decode_total n = some (("total", num (pos 7)) ∷ [])

tied : all_pages tied_source encode decode_total (("total", negsuc 0) ∷ []) 1 5 none ≡ some (1 ∷ [])
unfolding all_pages keyset_page paged match_after decoded_match peeked page_of
    build_keyset_predicate branches match_of or_null tail_op int_eq get put object fields holds
    clause satisfies_all satisfies below int_lt
tied = refl
