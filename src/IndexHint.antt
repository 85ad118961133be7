-- ===== src/IndexHint.antt =====
-- src/pagination/utils/index-hint.ts: does an index of the schema serve a keyset query? The `$`-keys of
-- a Date or an ObjectId, which has none, are not looked for.
pub mod Laws
mod Tests
use mongokit.Prelude.{
  ℕ, zero, suc, ◌+◌, ◌==◌, String, Bool, true, false, not, ◌&&◌, ◌||◌, List, [], ◌∷◌, take, drop,
  length, filter, any, every, ltb, str_eq, if◌then◌else◌,
}
use mongokit.Js.Object.{Object, keys}
use mongokit.Js.Value.{ℤ, pos, negsuc, Value, num, obj, entries, is_operator, int_eq}
use mongokit.Pagination.Sort.{SortSpec, includes}

abbrev pub equality_operators : List String
equality_operators = "$eq" ∷ "$in" ∷ []

unfoldable pub is_range_predicate : Value → Bool
unfolding is_operator includes
is_range_predicate (obj f) =
    any (λ k. not (includes equality_operators k)) (filter is_operator (keys (entries f)))
is_range_predicate v = false

-- The fields with a bounded equality, and those with a range.
unfoldable pub equality_fields : Object Value → List String
unfolding is_range_predicate is_operator
equality_fields [] = []
equality_fields ((key, v) ∷ filters) =
    let rest = equality_fields filters in
    if is_operator key || is_range_predicate v then rest else key ∷ rest

unfoldable pub range_fields : Object Value → List String
unfolding is_range_predicate is_operator
range_fields [] = []
range_fields ((key, v) ∷ filters) =
    let rest = range_fields filters in
    if not (is_operator key) && is_range_predicate v then key ∷ rest else rest

unfoldable pub is_number : Value → Bool
is_number (num n) = true
is_number v = false

-- `new Set(ks).size`
unfoldable pub set_size : List String → ℕ
unfolding includes
set_size [] = 0
set_size (k ∷ ks) = let rest = set_size ks in if includes ks k then rest else suc rest

unfoldable pub names_match : Object Value → List String → Bool
names_match entries [] = true
names_match [] (s ∷ ss) = false
names_match ((k, v) ∷ entries) (s ∷ ss) = str_eq k s && names_match entries ss

unfoldable pub negated : ℤ → ℤ
negated (pos zero) = pos zero
negated (pos (suc n)) = negsuc n
negated (negsuc n) = pos (suc n)

-- `v === d`
unfoldable pub is_value : Value → ℤ → Bool
unfolding int_eq
is_value (num n) d = int_eq n d
is_value v d = false

-- The directions of the keys of an index, against those of a sort under a change of sign.
unfoldable pub directions_match : (ℤ → ℤ) → Object Value → SortSpec → Bool
unfolding is_value
directions_match sign entries [] = true
directions_match sign [] (s ∷ sort) = false
directions_match sign ((k, v) ∷ entries) ((s, d) ∷ sort) =
    is_value v (sign d) && directions_match sign entries sort

module _ (filter_fields : List String) (sort : SortSpec) where
  abbrev pub sort_suffix : Object Value → Object Value
  sort_suffix entries = take (length sort) (drop (length filter_fields) entries)

  unfoldable pub prefix_ok : List String → Bool
  unfolding includes set_size
  prefix_ok equality_prefix =
      every (includes filter_fields) equality_prefix
      && set_size equality_prefix == length filter_fields

  -- One index, which is passed over as soon as a test fails.
  unfoldable pub is_compatible : Object Value → Bool
  unfolding is_number prefix_ok names_match directions_match negated
  is_compatible index =
      not (ltb (length index) (length filter_fields + length sort))
      && (every (λ e. is_number e.1) index
          && (prefix_ok (keys (take (length filter_fields) index))
              && (names_match (sort_suffix index) (keys sort)
                  && (directions_match (λ d. d) (sort_suffix index) sort
                      || directions_match negated (sort_suffix index) sort))))

unfoldable pub has_compatible_keyset_index : List (Object Value) → List String → SortSpec → Bool
unfolding is_compatible
has_compatible_keyset_index indexes filter_fields [] = true
has_compatible_keyset_index indexes filter_fields (s ∷ sort) =
    any (is_compatible filter_fields (s ∷ sort)) indexes
