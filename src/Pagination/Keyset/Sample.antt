-- ===== src/Pagination/Keyset/Sample.antt =====
-- Two rows, a runtime whose texts are values, and a driver that answers from the two rows: the
-- assumptions of keyset pagination, met.
use mongokit.Prelude.{
  ℕ, String, ◌≡◌, true, false, List, [], ◌∷◌, take, filter, str_eq, arith, if◌then◌else◌,
}
use mongokit.Js.Object.{keys}
use mongokit.Js.Value.{ℤ, pos, Value, num, int_lt, int_eq}
use mongokit.Mongo.{Matching}
use mongokit.Mongo.Memory.{matching, same}
use mongokit.Mongo.Memory.Order.{below}
use mongokit.Mongo.Memory.Strict.{below_irreflexive, below_asymmetric, same-eq}
use mongokit.Pagination.Sort.{SortSpec, ascending}
use mongokit.Pagination.Filter.{append_id}
use mongokit.Pagination.Filter.Semantics.{behind, lex_behind}
use mongokit.Pagination.Keyset.{Find}
use mongokit.Pagination.Keyset.Order.{IsOrder, row_behind}

pub data Row : Type 0 where
  first second : Row

number_at : String → Row → ℕ
number_at f first = if str_eq f "_id" then 1 else 7
number_at f second = if str_eq f "_id" then 2 else 7

-- Both rows are 7 years old.
unfoldable pub value_at : String → Row → Value
unfolding number_at
value_at f r = num (pos (number_at f r))

abbrev pub rows : Matching Row
rows = matching value_at

pub rows-IsOrder : IsOrder rows
rows-IsOrder = record {
  irreflexive = below_irreflexive;
  asymmetric = λ a b k l. below_asymmetric a b;
  same-eq = λ a b k l. same-eq a b;
}

-- One of the two comes before the other, in every sort.
pub row_behind-total :
    (d : ℤ) (fs : List String)
    → row_behind rows d (append_id fs) first second ≡ false
    → row_behind rows d (append_id fs) second first ≡ true
unfolding lex_behind behind value_at below same int_lt int_eq
row_behind-total d [] h = ground arith
row_behind-total d (f ∷ fs) h = ground (arith, row_behind-total d fs)

-- The rows in the order of a sort, by its first direction.
abbrev pub direction : SortSpec → ℤ
direction [] = ascending
direction ((k, d) ∷ s) = d

unfoldable pub ordered : SortSpec → List Row
ordered s =
    if row_behind rows (direction s) (keys s) first second
    then first ∷ second ∷ []
    else second ∷ first ∷ []

abbrev pub find : Find Row
find q s n = take n (filter (λ r. rows.holds q r) (ordered s))
