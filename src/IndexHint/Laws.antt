-- ===== src/IndexHint/Laws.antt =====
-- An index that is said to serve a query has its fields first and then its sort.
use mongokit.Prelude.{
  ℕ, ◌+◌, ◌≤◌, ◌==◌, String, ◌≡◌, refl, sym, ap, ◌∙◌, ◌⊎◌, inl, inr, Bool, true, false, not, ◌&&◌,
  ◌||◌, List, [], ◌∷◌, ◌++◌, take, drop, length, any, every, All, Mem, take-append-drop,
  length-drop, length-take_of_le, Bool-cases, arith, ltb, str_eq, eq_iff,
}
use mongokit.Js.Object.{Object, keys}
use mongokit.Js.Value.{
  ℤ, pos, negsuc, Value, undefined, null, bool, num, str, oid, date, arr, obj, int_eq,
}
use mongokit.Pagination.Sort.{SortSpec, includes}
use mongokit.IndexHint.{
  is_number, set_size, names_match, negated, is_value, directions_match, sort_suffix, prefix_ok,
  is_compatible, has_compatible_keyset_index,
}

-- The keys of a sort with their directions, as an index declares them.
abbrev pub as_index : (ℤ → ℤ) → SortSpec → Object Value
as_index sign [] = []
as_index sign ((k, d) ∷ sort) = (k, num (sign d)) ∷ as_index sign sort

abbrev pub IsDirected : String × Value → Type 0
IsDirected e = (d : ℤ) × (e.1 ≡ num d)

-- An index that serves equalities on some fields and then a sort, read forwards or backwards: as
-- many keys as there are fields, each one of them, then the sort's own keys, then any others. Every
-- key has a number, as only those of an ordered index have (not `text` or `hashed`).
abbrev pub Serves : List String → SortSpec → Object Value → Type 0
Serves fields sort index =
    All IsDirected index
    × (prefix : Object Value) × (rest : Object Value) × (length prefix ≡ length fields)
    × All (λ k. includes fields k ≡ true) (keys prefix)
    × (set_size (keys prefix) ≡ length fields)
    × ((index ≡ prefix ++ (as_index (λ d. d) sort ++ rest))
        ⊎ (index ≡ prefix ++ (as_index negated sort ++ rest)))

int_eq_lem : (a b : ℤ) → int_eq a b ≡ true → a ≡ b
unfolding int_eq
int_eq_lem (pos a) (pos b) h = ground arith
int_eq_lem (pos a) (negsuc b) h = cc
int_eq_lem (negsuc a) (pos b) h = cc
int_eq_lem (negsuc a) (negsuc b) h = ground arith

is_value_lem : (v : Value) (d : ℤ) → is_value v d ≡ true → v ≡ num d
unfolding is_value
is_value_lem (num n) d h = ap num (int_eq_lem n d h)
is_value_lem undefined d h = cc
is_value_lem null d h = cc
is_value_lem (bool b) d h = cc
is_value_lem (str x) d h = cc
is_value_lem (oid x) d h = cc
is_value_lem (date n) d h = cc
is_value_lem (arr xs) d h = cc
is_value_lem (obj f) d h = cc

both : (a b : Bool) → (a && b) ≡ true → (a ≡ true) × (b ≡ true)
both a b h = ground arith

either : (a b : Bool) → (a || b) ≡ true → (a ≡ true) ⊎ (b ≡ true)
either true b h = inl refl
either false b h = inr h

suffix_lem :
    (sign : ℤ → ℤ) (suffix : Object Value) (sort : SortSpec)
    → length suffix ≡ length sort
    → names_match suffix (keys sort) ≡ true
    → directions_match sign suffix sort ≡ true
    → suffix ≡ as_index sign sort
unfolding names_match directions_match
suffix_lem sign [] [] l n d = refl
suffix_lem sign [] (s ∷ sort) l n d = absurd (omega arith)
suffix_lem sign (e ∷ suffix) [] l n d = absurd (omega arith)
suffix_lem sign ((k, v) ∷ suffix) ((s, d) ∷ sort) l n h =
    let (a, b) = both (str_eq k s) _ n in
    let (x, y) = both (is_value v (sign d)) _ h in
    let p = (eq_iff k s).0 a in
    let q = is_value_lem v (sign d) x in
    (λ i. (p i, q i) ∷ suffix_lem sign suffix sort (omega arith) b y i)

every-All : (p : String → Bool) (ks : List String) → every p ks ≡ true → All (λ k. p k ≡ true) ks
every-All p [] h = tt
every-All p (k ∷ ks) h = let (a, b) = both (p k) _ h in (a, every-All p ks b)

any-Mem :
    (p : Object Value → Bool) (xs : List (Object Value))
    → any p xs ≡ true
    → (x : Object Value) × Mem x xs × (p x ≡ true)
any-Mem p [] h = cc
any-Mem p (x ∷ xs) h = elim (Bool-cases (p x)) [
  | inl e ↦ (x, inl refl, e)
  | inr e ↦ let (y, m, q) = any-Mem p xs (rw e at h) in (y, inr m, q)
]

is_number_lem : (v : Value) → is_number v ≡ true → (d : ℤ) × (v ≡ num d)
unfolding is_number
is_number_lem (num n) h = (n, refl)
is_number_lem undefined h = cc
is_number_lem null h = cc
is_number_lem (bool b) h = cc
is_number_lem (str x) h = cc
is_number_lem (oid x) h = cc
is_number_lem (date n) h = cc
is_number_lem (arr xs) h = cc
is_number_lem (obj f) h = cc

every-IsDirected : (o : Object Value) → every (λ e. is_number e.1) o ≡ true → All IsDirected o
every-IsDirected [] h = tt
every-IsDirected ((k, v) ∷ o) h =
    let (a, b) = both (is_number v) _ h in (is_number_lem v a, every-IsDirected o b)

equal_lem : (m n : ℕ) → (m == n) ≡ true → m ≡ n
equal_lem m n h = ground arith

compatible_lem :
    (fields : List String) (sort : SortSpec) (index : Object Value)
    → is_compatible fields sort index ≡ true
    → Serves fields sort index
unfolding is_compatible prefix_ok
compatible_lem fields sort index h =
    let (long, a) = both (not (ltb (length index) (length fields + length sort))) _ h in
    let (numbers, b) = both _ _ a in
    let (pre, c) = both _ _ b in
    let (names, dirs) = both _ _ c in
    let room : length fields + length sort ≤ length index = ground arith in
    let behind = drop (length fields) index in
    let size : length (sort_suffix fields sort index) ≡ length sort =
      length-take_of_le (length sort) behind (omega (arith, length-drop (length fields) index)) in
    let whole : take (length fields) index
          ++ (sort_suffix fields sort index ++ drop (length sort) behind)
        ≡ index =
      ap (λ r. take (length fields) index ++ r) (take-append-drop (length sort) behind)
      ∙ take-append-drop (length fields) index in
    let sized : set_size (keys (take (length fields) index)) ≡ length fields =
      equal_lem _ _ (both _ _ pre).1 in
    (
      every-IsDirected index numbers,
      take (length fields) index,
      drop (length sort) behind,
      length-take_of_le (length fields) index (omega arith),
      every-All (includes fields) _ (both _ _ pre).0,
      sized,
      elim (either _ _ dirs) [
        | inl x ↦ inl (
            sym whole
            ∙ ap (λ r. take (length fields) index ++ (r ++ drop (length sort) behind))
                (suffix_lem (λ d. d) (sort_suffix fields sort index) sort size names x))
        | inr x ↦ inr (
            sym whole
            ∙ ap (λ r. take (length fields) index ++ (r ++ drop (length sort) behind))
                (suffix_lem negated (sort_suffix fields sort index) sort size names x))
      ],
    )

-- When has_compatible_keyset_index answers yes for a sort that is not empty, some index of the schema
-- serves the query: every key of it has a numeric direction, it starts with as many keys as there are filter fields, all different and each one
-- of those fields, then has the sort's own keys with their directions, all as in the sort or all negated.
pub has_compatible_keyset_index-Serves :
    (indexes : List (Object Value)) (fields : List String) (s : String × ℤ) (sort : SortSpec)
    → has_compatible_keyset_index indexes fields (s ∷ sort) ≡ true
    → (index : Object Value) × Mem index indexes × Serves fields (s ∷ sort) index
unfolding has_compatible_keyset_index
has_compatible_keyset_index-Serves indexes fields s sort h =
    let (index, m, e) = any-Mem (is_compatible fields (s ∷ sort)) indexes h in
    (index, m, compatible_lem fields (s ∷ sort) index e)
