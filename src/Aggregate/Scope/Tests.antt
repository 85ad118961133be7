-- ===== src/Aggregate/Scope/Tests.antt =====
-- An aggregation over paid rows under a tenant.
use mongokit.Prelude.{◌≡◌, refl, some, [], ◌∷◌, returns, str_eq, if◌then◌else◌}
use mongokit.Js.Object.{Object}
use mongokit.Js.Value.{Value, undefined, str, arr, objects, field, end, fields, entries}
use mongokit.Mongo.Memory.Store.{Document, documents}
use mongokit.FilterIr.{Input, absent, query, eq, ir, compile, compile_filter_to_mongo}
use mongokit.FilterIr.Shorthand.{expand_shorthands, expand_value}
use mongokit.Aggregate.Scope.{
  scope_candidate, request_filter, parts_of, with_part, merged_parts, with_scope,
  inject_policy_scope_into_agg,
}
use mongokit.Aggregate.Scope.Laws.{IsScoped, inject_policy_scope_into_agg-IsScoped}

abbrev same_dates : Object Value → Object Value
same_dates q = q

abbrev tenant : Input
tenant = query (field "org" (str "acme") end)

abbrev paid : Input
paid = ir (eq "status" (str "paid"))

abbrev row : Document
row f = if str_eq f "org" then str "acme" else if str_eq f "status" then str "paid" else undefined

abbrev scoped : Object Value
scoped =
    ("$and", arr (objects ((("org", str "acme") ∷ []) ∷ (("status", str "paid") ∷ []) ∷ []))) ∷ []

-- What the two parts become.
merged : inject_policy_scope_into_agg same_dates absent tenant paid ≡ returns (some scoped)
unfolding inject_policy_scope_into_agg with_scope scope_candidate request_filter parts_of with_part
    merged_parts compile_filter_to_mongo compile expand_shorthands expand_value fields entries
merged = refl

inject_policy_scope_into_agg-IsScoped_example :
    IsScoped documents same_dates absent tenant paid row (some scoped)
inject_policy_scope_into_agg-IsScoped_example =
    inject_policy_scope_into_agg-IsScoped documents same_dates refl absent tenant paid (some scoped)
      row merged
