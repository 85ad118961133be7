-- ===== src/Operations/AppendOnly/Tests.antt =====
-- An append-only collection on which `deleteMany` is allowed.
use mongokit.Prelude.{◌≡◌, false, [], ◌∷◌, throws}
use mongokit.Pagination.Sort.{includes}
use mongokit.Operations.AppendOnly.{append_only_violation, before}
use mongokit.Operations.AppendOnly.Laws.{before-eq-fenced}

before-eq-fenced_example :
    before ("deleteMany" ∷ []) "update" false ≡ throws (append_only_violation "update")
unfolding includes
before-eq-fenced_example = before-eq-fenced ("deleteMany" ∷ []) "update" false
