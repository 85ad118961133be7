-- ===== src/Pagination/Tests.antt =====
-- Offset pagination of five numbers, two to a page.
use mongokit.Prelude.{
  ℕ, suc, String, ◌≡◌, refl, inl, true, false, none, some, List, [], ◌∷◌, take, drop, arith,
  returns,
}
use mongokit.Js.Value.{pos}
use mongokit.Pagination.Limits.{
  Number, finite, Requested, PaginationConfig, validate_limit, validate_page, calculate_total_pages,
  calculate_skip,
}
use mongokit.Pagination.Limits.Bounds.{IsLimited, validate_limit_bounds}
use mongokit.Pagination.Offset.{
  Collection, OffsetOptions, OffsetResult, EngineConfig, none_, paginate, paginate_at, count_total,
  warning_of, is_none,
}
use mongokit.Pagination.Offset.Laws.{
  IsSlice, effective_limit, pages_upto, paginate-IsSlice, paginate-covers,
}

abbrev five : List ℕ
five = 10 ∷ 20 ∷ 30 ∷ 40 ∷ 50 ∷ []

abbrev numbers : Collection (Unit {0}) (Unit {0}) ℕ
numbers = record {
  matching = λ q s. five;
  is_total = λ q s. elim s [ none ↦ false | some by ↦ true ];
  find = λ q s skip limit. take limit (drop skip five);
  count_documents = λ q. 5;
  estimated_document_count = 6;
  find-eq = λ q s skip limit t h. refl;
  count-eq = λ q s. refl;
}

abbrev limits : PaginationConfig
limits = record { default_limit = none; max_limit = none; max_page = none }

abbrev config : EngineConfig
config = record {
  limits = limits;
  default_limit = 2;
  deep_page_threshold = 100;
  use_estimated_count = false;
}

-- The second page, uncounted.
abbrev options : OffsetOptions (Unit {0}) (Unit {0})
options = record {
  filters = tt;
  has_filters = false;
  sort = some tt;
  count_filters = none;
  page = Requested.number (finite (pos 2) 5);
  limit = none;
  count_strategy = none_;
}

abbrev no_number : String → Number
no_number s = Number.not_finite

abbrev unlimited : PaginationConfig
unlimited = record { default_limit = none; max_limit = some 0; max_page = none }

validate_limit_bounds_example :
    IsLimited 0 5000 (validate_limit no_number (Requested.number (finite (pos 5000) 0)) unlimited)
validate_limit_bounds_example =
    validate_limit_bounds no_number unlimited (Requested.number (finite (pos 5000) 0)) (omega arith)
      (inl refl)

abbrev second_page : OffsetResult ℕ
second_page = record {
  items = 30 ∷ 40 ∷ [];
  page = 2;
  limit = 2;
  total = 0;
  pages = 0;
  has_next = true;
  has_prev = true;
  warning = none;
}

answered : paginate numbers no_number config options ≡ returns second_page
unfolding paginate paginate_at validate_page validate_limit calculate_skip count_total warning_of
    is_none
answered = refl

paginate-IsSlice_example :
    (n : ℕ) × (validate_page no_number options.page limits ≡ returns (suc n))
    × IsSlice numbers config options no_number second_page n
unfolding validate_limit
paginate-IsSlice_example =
    paginate-IsSlice numbers config options no_number second_page refl (omega arith) answered

paginate-covers_example :
    pages_upto numbers config options no_number
      (calculate_total_pages 5 (effective_limit numbers config options no_number))
    ≡ five
unfolding validate_limit calculate_total_pages
paginate-covers_example =
    paginate-covers numbers config options no_number refl (omega arith) (omega arith)
