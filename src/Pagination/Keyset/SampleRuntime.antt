-- ===== src/Pagination/Keyset/SampleRuntime.antt =====
-- A runtime whose texts are values, and the two rows as a source.
use mongokit.Prelude.{
  ℕ, zero, suc, String, ◌≡◌, refl, Bool, true, false, ◌&&◌, Option, none, some, List, [], ◌∷◌, ◌==◌,
  str_eq, eq_refl, arith, Bool-cases, inl, inr,
}
use mongokit.Js.Object.Laws.{IsObject}
use mongokit.Js.Value.{
  ℤ, pos, negsuc, Value, undefined, null, bool, num, str, oid, date, arr, obj, Items, no_items,
  item, Fields, end, field, int_eq,
}
use mongokit.Pagination.Sort.{is_direction}
use mongokit.Pagination.Sort.Laws.{directed}
use mongokit.Pagination.Filter.{append_id}
use mongokit.Pagination.Filter.Behind.{keys-directed}
use mongokit.Pagination.Cursor.{Runtime}
use mongokit.Pagination.Keyset.Order.{IsSorted, row_behind}
use mongokit.Pagination.Keyset.Walk.{Source}
use mongokit.Pagination.Keyset.Sample.{
  first, second, rows, find, ordered, direction, row_behind-total,
}

unfoldable mutual
  pub value_eq : Value → Value → Bool
  value_eq undefined undefined = true
  value_eq null null = true
  value_eq (bool true) (bool b) = b
  value_eq (bool false) (bool true) = false
  value_eq (bool false) (bool false) = true
  value_eq (num a) (num b) = int_eq a b
  value_eq (str a) (str b) = str_eq a b
  value_eq (oid a) (oid b) = str_eq a b
  value_eq (date a) (date b) = a == b
  value_eq (arr a) (arr b) = items_eq a b
  value_eq (obj a) (obj b) = fields_eq a b
  value_eq _ _ = false

  pub items_eq : Items → Items → Bool
  items_eq no_items no_items = true
  items_eq (item a x) (item b y) = value_eq a b && items_eq x y
  items_eq _ _ = false

  pub fields_eq : Fields → Fields → Bool
  fields_eq end end = true
  fields_eq (field j a x) (field k b y) = str_eq j k && (value_eq a b && fields_eq x y)
  fields_eq _ _ = false

int_eq_refl : (a : ℤ) → int_eq a a ≡ true
unfolding int_eq
int_eq_refl (pos a) = ground arith
int_eq_refl (negsuc a) = ground arith

mutual
  unfolding value_eq

  pub value_eq_refl : (v : Value) → value_eq v v ≡ true
  value_eq_refl undefined = refl
  value_eq_refl null = refl
  value_eq_refl (bool true) = refl
  value_eq_refl (bool false) = refl
  value_eq_refl (num a) = int_eq_refl a
  value_eq_refl (str a) = eq_refl a
  value_eq_refl (oid a) = eq_refl a
  value_eq_refl (date n) = ground arith
  value_eq_refl (arr xs) = items_eq_refl xs
  value_eq_refl (obj f) = fields_eq_refl f

  items_eq_refl : (xs : Items) → items_eq xs xs ≡ true
  items_eq_refl no_items = refl
  items_eq_refl (item v xs) = rw (value_eq_refl v) (items_eq_refl xs)

  fields_eq_refl : (f : Fields) → fields_eq f f ≡ true
  fields_eq_refl end = refl
  fields_eq_refl (field k v f) = rw (eq_refl k, value_eq_refl v) (fields_eq_refl f)

-- A time is written in unary.
unfoldable pub iso : ℕ → String
iso zero = String.[]
iso (suc n) = String.◌∷◌ "1" (iso n)

unfoldable pub count : String → ℕ
count String.[] = 0
count (String.◌∷◌ c s) = suc (count s)

unfoldable pub date_of : Value → Value
date_of (str s) = date (count s)
date_of v = undefined

count-iso : (n : ℕ) → count (iso n) ≡ n
unfolding count iso
count-iso zero = refl
count-iso (suc n) = λ i. suc (count-iso n i)

pub date_of-iso : (n : ℕ) → date_of (str (iso n)) ≡ date n
unfolding date_of
date_of-iso n = λ i. date (count-iso n i)

unfoldable pub id_of : Value → Option Value
id_of (str s) = some (oid s)
id_of v = none

pub id_of-str : (s : String) → id_of (str s) ≡ some (oid s)
unfolding id_of
id_of-str s = refl

abbrev pub runtime : Runtime
runtime = record {
  Text = Value;
  same_text = value_eq;
  iso = iso;
  new_date = date_of;
  new_object_id = id_of;
  to_number = λ v. v;
  to_base64 = λ t. t;
  from_base64 = λ t. t;
  stringify = λ v. v;
  parse = some;
  is_hex24 = λ t. false;
  object_id_of = id_of;
  IsObjectId = λ s. Unit;
  same_text-refl = value_eq_refl;
  new_date-iso = date_of-iso;
  new_object_id-str = λ s h. id_of-str s;
  to_number-num = λ n. refl;
  from_base64-to_base64 = λ s. refl;
  parse-stringify = λ v h. refl;
  is_hex24-to_base64 = λ o. refl;
}

direction-directed : (d : ℤ) (names : List String) → direction (directed d (append_id names)) ≡ d
direction-directed d [] = refl
direction-directed d (f ∷ fs) = refl

pub ordered-IsSorted :
    (d : ℤ) (names : List String)
    → is_direction d ≡ true
    → IsObject (directed d (append_id names))
    → IsSorted (row_behind rows d (append_id names)) (ordered (directed d (append_id names)))
unfolding ordered
ordered-IsSorted d names v h =
    rw (direction-directed d names, keys-directed d (append_id names))
      (elim (Bool-cases (row_behind rows d (append_id names) first second)) [
        | inl e ↦ rw e ((e, tt), (tt, tt))
        | inr e ↦ rw e ((row_behind-total d names e, tt), (tt, tt))
      ])

abbrev pub rows_source : Source runtime rows find
rows_source = record {
  ordered = ordered;
  find-eq = λ q s n h. refl;
  ordered-IsSorted = ordered-IsSorted;
}
