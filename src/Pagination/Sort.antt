-- ===== src/Pagination/Sort.antt =====
-- src/pagination/utils/sort.ts, and `stripTrailingIdTiebreaker` of PaginationEngine.ts. A sort is an
-- object from field names to directions, of which 1 and -1 are the valid ones.
pub mod Laws
use mongokit.Prelude.{
  ℕ, zero, suc, String, ◌≡◌, Bool, true, false, not, ◌&&◌, ◌||◌, Option, none, some, List, [], ◌∷◌,
  length, ◌==◌, str_eq, if◌then◌else◌, Outcome, returns, throws, ◌>>=◌, ◌>>◌, throw_if,
}
use mongokit.Js.Object.{Object, get, has, put, keys}
use mongokit.Js.Value.{ℤ, pos, negsuc, int_eq}

abbrev pub SortSpec : Type 0
SortSpec = Object ℤ

abbrev pub ascending : ℤ
ascending = pos 1

abbrev pub descending : ℤ
descending = negsuc 0

pub data SortError : Type 0 where
  no_fields directions_differ id_direction_differs : SortError
  invalid_direction not_allowed : String → SortError

unfoldable pub normalize_from : SortSpec → SortSpec → SortSpec
normalize_from normalized [] = normalized
normalize_from normalized ((key, d) ∷ sort) =
    normalize_from (if str_eq key "_id" then normalized else put key d normalized) sort

unfoldable pub with_id : Option ℤ → SortSpec → SortSpec
with_id none s = s
with_id (some d) s = put "_id" d s

unfoldable pub normalize_sort : SortSpec → SortSpec
unfolding normalize_from with_id
normalize_sort sort = with_id (get "_id" sort) (normalize_from [] sort)

unfoldable pub is_direction : ℤ → Bool
unfolding int_eq
is_direction d = int_eq d ascending || int_eq d descending

-- The loops of `validateKeysetSort`, over the entries that each of them visits.
unfoldable pub check_directions : SortSpec → Outcome SortError (Unit {0})
check_directions [] = returns tt
check_directions ((key, d) ∷ sort) =
    let rest = check_directions sort in
    if is_direction d then rest else throws (invalid_direction key)

unfoldable pub includes : List String → String → Bool
includes [] k = false
includes (x ∷ xs) k = str_eq x k || includes xs k

unfoldable pub check_allowed : List String → SortSpec → Outcome SortError (Unit {0})
check_allowed allowed [] = returns tt
check_allowed allowed ((key, d) ∷ sort) =
    let rest = check_allowed allowed sort in
    if includes allowed key then rest else throws (not_allowed key)

unfoldable pub check_same : ℤ → SortSpec → Outcome SortError (Unit {0})
check_same primary [] = returns tt
check_same primary ((key, d) ∷ sort) =
    let rest = check_same primary sort in
    if int_eq d primary then rest else throws directions_differ

-- The entries of the keys other than `_id`.
unfoldable pub non_id : SortSpec → SortSpec
non_id [] = []
non_id ((key, d) ∷ sort) = if str_eq key "_id" then non_id sort else (key, d) ∷ non_id sort

-- The last two steps: the direction of `_id`, and adding it.
unfoldable pub check_id : ℤ → SortSpec → Option ℤ → Outcome SortError SortSpec
check_id primary sort (some d) =
    if int_eq d primary then returns (normalize_sort sort) else throws id_direction_differs
check_id primary sort none = returns (normalize_sort (put "_id" primary sort))

unfoldable pub is_empty : List String → Bool
is_empty [] = true
is_empty (x ∷ xs) = false

unfoldable pub check_fields : List String → SortSpec → SortSpec → Outcome SortError SortSpec
-- `primaryDirection` is undefined: the loops have nothing to visit, and no direction equals it.
check_fields allowed sort [] =
    if has "_id" sort then throws id_direction_differs else returns (normalize_sort sort)
check_fields allowed sort ((key, primary) ∷ rest) = do
  (if is_empty allowed then returns tt else check_allowed allowed ((key, primary) ∷ rest))
  check_same primary ((key, primary) ∷ rest)
  check_id primary sort (get "_id" sort)

-- `allowed` is empty where the option is not set: the source treats both alike.
unfoldable pub validate_keyset_sort : List String → SortSpec → Outcome SortError SortSpec
validate_keyset_sort allowed [] = throws no_fields
validate_keyset_sort allowed ((key, d) ∷ []) =
    if str_eq key "_id"
    then returns (normalize_sort ((key, d) ∷ []))
    else check_directions ((key, d) ∷ [])
      >> check_fields allowed ((key, d) ∷ []) (non_id ((key, d) ∷ []))
validate_keyset_sort allowed sort = check_directions sort >> check_fields allowed sort (non_id sort)

unfoldable pub invert_sort : SortSpec → SortSpec
invert_sort [] = []
invert_sort ((key, d) ∷ sort) =
    (key, if int_eq d ascending then descending else ascending) ∷ invert_sort sort

-- The first key other than `_id`, or `_id`.
unfoldable pub get_primary_field : SortSpec → String
get_primary_field [] = "_id"
get_primary_field ((key, d) ∷ sort) = if str_eq key "_id" then get_primary_field sort else key

unfoldable pub strip_trailing_id_tiebreaker : SortSpec → SortSpec
strip_trailing_id_tiebreaker [] = []
strip_trailing_id_tiebreaker ((key, d) ∷ []) = (key, d) ∷ []
strip_trailing_id_tiebreaker ((key, d) ∷ (key', d') ∷ []) =
    if str_eq key' "_id" then (key, d) ∷ [] else (key, d) ∷ (key', d') ∷ []
strip_trailing_id_tiebreaker ((key, d) ∷ sort) = (key, d) ∷ strip_trailing_id_tiebreaker sort
