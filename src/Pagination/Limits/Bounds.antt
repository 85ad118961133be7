-- ===== src/Pagination/Limits/Bounds.antt =====
-- Bounds on sanitized limits and pages, and the arithmetic of pages.
use Prim.Native.Nat.{min}
use native.Mathlib.Nat.{le-div_iff_mul-le, suc-mul}
use mongokit.Prelude.{
  ℕ, zero, suc, ◌+◌, ◌-◌, ◌*◌, ◌≤◌, ◌<◌, String, ◌≡◌, refl, ◌⊎◌, inl, inr, Option, none, some,
  arith, ltb, ltb_congr, ◌==◌, returns, Bool-cases,
}
use mongokit.Js.Value.{pos, negsuc}
use mongokit.Pagination.Limits.{
  Number, finite, not_finite, Requested, PaginationConfig, or_else, or_else_if_zero, parsed,
  at_least_one, capped, validate_limit, checked_page, validate_page, calculate_total_pages,
}

-- What is asked for, as a positive number.
abbrev pub asked : (String → Number) → Requested → Option ℕ
asked to_number r = at_least_one (parsed to_number r)

max_page_pos : (o : Option ℕ) → 0 < or_else_if_zero o 10000
max_page_pos none = omega arith
max_page_pos (some zero) = omega arith
max_page_pos (some (suc n)) = omega arith

at_least_one_pos : (x : Number) (m : ℕ) → at_least_one x ≡ some m → 0 < m
unfolding at_least_one
at_least_one_pos not_finite m h = cc
at_least_one_pos (finite (negsuc n) f) m h = cc
at_least_one_pos (finite (pos zero) f) m h = cc
at_least_one_pos (finite (pos (suc n)) f) m h = ground arith

-- What a caller asks for, as the source describes it: a finite number of at least 1, rounded down;
-- anything else stands for the default.
abbrev pub number_or : ℕ → Number → ℕ
number_or default (finite (pos (suc n)) f) = suc n
number_or default (finite (pos zero) f) = default
number_or default (finite (negsuc n) f) = default
number_or default not_finite = default

abbrev pub wanted : (String → Number) → ℕ → Requested → ℕ
wanted to_number default (Requested.number n) = number_or default n
wanted to_number default (Requested.text s) = number_or default (to_number s)

-- A limit under a maximum, of which zero means none: the wanted limit, or else the maximum, and
-- then more was wanted.
abbrev pub IsLimited : ℕ → ℕ → ℕ → Type 0
IsLimited most asked_for limit =
    (0 < limit)
    × (((most ≡ 0) × (limit ≡ asked_for))
        ⊎ ((limit ≤ most) × ((limit ≡ asked_for) ⊎ ((limit ≡ most) × (most < asked_for)))))

module _ (to_number : String → Number) (config : PaginationConfig) where
  some-IsLimited :
      (n : ℕ) → 0 < n → IsLimited (or_else config.max_limit 100) n (capped config (some n))
  unfolding capped
  some-IsLimited n p = elim (Bool-cases (or_else config.max_limit 100 == 0)) [
    | inl e ↦ rw e (p, inl (ground arith, refl))
    | inr e ↦ elim (Bool-cases (ltb (or_else config.max_limit 100) n)) [
      | inl f ↦
          let q : min n (or_else config.max_limit 100) ≡ or_else config.max_limit 100 =
            ground (arith, f) in
          rw (e, q) (ground (arith, e), inr (omega arith, inr (refl, ground (arith, f))))
      | inr f ↦
          let q : min n (or_else config.max_limit 100) ≡ n = ground (arith, f) in
          rw (e, q) (p, inr (ground (arith, f), inl refl))
    ]
  ]

  number-IsLimited :
      (x : Number)
      → 0 < or_else config.default_limit 10
      → (or_else config.max_limit 100 ≡ 0)
        ⊎ (or_else config.default_limit 10 ≤ or_else config.max_limit 100)
      → IsLimited
          (or_else config.max_limit 100)
          (number_or (or_else config.default_limit 10) x)
          (capped config (at_least_one x))
  unfolding capped at_least_one
  number-IsLimited (finite (pos (suc n)) f) d h = some-IsLimited (suc n) (omega arith)
  number-IsLimited (finite (pos zero) f) d (inl e) = (d, inl (e, refl))
  number-IsLimited (finite (pos zero) f) d (inr e) = (d, inr (e, inl refl))
  number-IsLimited (finite (negsuc n) f) d (inl e) = (d, inl (e, refl))
  number-IsLimited (finite (negsuc n) f) d (inr e) = (d, inr (e, inl refl))
  number-IsLimited not_finite d (inl e) = (d, inl (e, refl))
  number-IsLimited not_finite d (inr e) = (d, inr (e, inl refl))

  -- Provided that the configured default is at least 1 and not above a positive `maxLimit`: the
  -- effective limit is at least 1; with `maxLimit: 0` it is the wanted one, however large; otherwise
  -- it is at most `maxLimit`, and it is the wanted one or, where more is wanted, `maxLimit` itself.
  -- The wanted one is the floor of a finite number of at least 1, and else the default.
  pub validate_limit_bounds :
      (limit : Requested)
      → 0 < or_else config.default_limit 10
      → (or_else config.max_limit 100 ≡ 0)
        ⊎ (or_else config.default_limit 10 ≤ or_else config.max_limit 100)
      → IsLimited
          (or_else config.max_limit 100)
          (wanted to_number (or_else config.default_limit 10) limit)
          (validate_limit to_number limit config)
  unfolding validate_limit parsed
  validate_limit_bounds (Requested.number n) d h = number-IsLimited n d h
  validate_limit_bounds (Requested.text s) d h = number-IsLimited (to_number s) d h

  checked_page_bounds :
      (p : Option ℕ)
      → ((m : ℕ) → p ≡ some m → 0 < m)
      → (n : ℕ) → checked_page config p ≡ returns n
      → (0 < n) × (n ≤ or_else_if_zero config.max_page 10000)
  unfolding checked_page
  checked_page_bounds none q n h = (ground arith, grind (arith, max_page_pos config.max_page))
  checked_page_bounds (some m) q n h = let q' = q m refl in ground arith

  -- A page that is accepted is at least 1 and at most the maximum.
  pub validate_page_bounds :
      (page : Requested) (n : ℕ)
      → validate_page to_number page config ≡ returns n
      → (0 < n) × (n ≤ or_else_if_zero config.max_page 10000)
  unfolding validate_page
  validate_page_bounds page n h =
      checked_page_bounds (asked to_number page) (at_least_one_pos (parsed to_number page)) n h

  -- A whole number up to the maximum is taken as it is.
  pub validate_page_whole :
      (n fraction : ℕ)
      → suc n ≤ or_else_if_zero config.max_page 10000
      → validate_page to_number (Requested.number (finite (pos (suc n)) fraction)) config
        ≡ returns (suc n)
  unfolding validate_page
  validate_page_whole n fraction h = ground arith

-- There is a page after `page` exactly when rows are left after it.
pub lt-calculate_total_pages :
    (page limit total : ℕ)
    → 0 < limit
    → ltb page (calculate_total_pages total limit) ≡ ltb (page * limit) total
unfolding calculate_total_pages
lt-calculate_total_pages page limit total h =
    let (to, from) = le-div_iff_mul-le {k = limit} {x = suc page} {y = total + (limit - 1)} h in
    let e = suc-mul page limit in
    ltb_congr page _ (page * limit) total (λ q. let r = to q in omega (arith, e, r))
      (λ q. from (omega (arith, e)))
