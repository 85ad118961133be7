-- ===== src/Pagination/Limits.antt =====
-- src/pagination/utils/limits.ts. A JavaScript number is not a finite one, or a finite one, given
-- by its floor and what its fraction is in some unit. `Number(text)` is the engine's: a parameter.
pub mod Bounds
use Prim.Native.Nat.{min}
use mongokit.Prelude.{
  ℕ, zero, suc, ◌+◌, ◌-◌, ◌*◌, ◌/◌, String, Bool, Option, none, some, ltb, ◌==◌, if◌then◌else◌,
  Outcome, returns, throws,
}
use mongokit.Js.Value.{ℤ, pos, negsuc}

pub data Number : Type 0 where
  not_finite : Number
  finite : ℤ → ℕ → Number

-- What a caller asks for: `number | string`.
pub data Requested : Type 0 where
  number : Number → Requested
  text : String → Requested

pub record PaginationConfig : Type 0 where
  pub default_limit : Option ℕ
  pub max_limit : Option ℕ
  pub max_page : Option ℕ

pub data LimitError : Type 0 where
  exceeds_maximum : ℕ → ℕ → LimitError

-- `value ?? fallback`
abbrev pub or_else : Option ℕ → ℕ → ℕ
or_else none d = d
or_else (some n) d = n

-- `value || fallback`, on a number
abbrev pub or_else_if_zero : Option ℕ → ℕ → ℕ
or_else_if_zero none d = d
or_else_if_zero (some zero) d = d
or_else_if_zero (some (suc n)) d = suc n

-- `!Number.isFinite(parsed) || parsed < 1` fails, with the floor of the number.
unfoldable pub at_least_one : Number → Option ℕ
at_least_one not_finite = none
at_least_one (finite (negsuc n) f) = none
at_least_one (finite (pos zero) f) = none
at_least_one (finite (pos (suc n)) f) = some (suc n)

unfoldable pub capped : PaginationConfig → Option ℕ → ℕ
capped config none = or_else config.default_limit 10
capped config (some n) =
    let most = or_else config.max_limit 100 in if most == 0 then n else min n most

unfoldable pub checked_page : PaginationConfig → Option ℕ → Outcome LimitError ℕ
checked_page config none = returns 1
checked_page config (some n) =
    let most = or_else_if_zero config.max_page 10000 in
    if ltb most n then throws (exceeds_maximum n most) else returns n

unfoldable pub should_warn_deep_pagination : ℕ → ℕ → Bool
should_warn_deep_pagination page threshold = ltb threshold page

unfoldable pub calculate_skip : ℕ → ℕ → ℕ
calculate_skip page limit = (page - 1) * limit

-- `Math.ceil(total / limit)`; a division by zero gives no finite number and is not modelled
-- (`paginate` divides by a limit that `validate_limit` returned).
unfoldable pub calculate_total_pages : ℕ → ℕ → ℕ
calculate_total_pages total limit = (total + (limit - 1)) / limit

module _ (to_number : String → Number) where
  -- `Number(limit)`
  unfoldable pub parsed : Requested → Number
  parsed (number n) = n
  parsed (text s) = to_number s

  unfoldable pub validate_limit : Requested → PaginationConfig → ℕ
  unfolding parsed at_least_one capped
  validate_limit limit config = capped config (at_least_one (parsed limit))

  unfoldable pub validate_page : Requested → PaginationConfig → Outcome LimitError ℕ
  unfolding parsed at_least_one checked_page
  validate_page page config = checked_page config (at_least_one (parsed page))
