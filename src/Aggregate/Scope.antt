-- ===== src/Aggregate/Scope.antt =====
-- `_injectPolicyScopeIntoAgg` of src/Repository.ts: the conditions of policy plugins, put into the
-- filter of an aggregation.
pub mod Laws
mod Tests
use mongokit.Prelude.{
  Bool, Option, none, some, List, [], ◌∷◌, ◌++◌, Outcome, returns, throws, ◌>>=◌,
}
use mongokit.Js.Object.{Object}
use mongokit.Js.Value.{Value, end, field, arr, objects}
use mongokit.FilterIr.{FilterError, Input, absent, query, ir, compile_filter_to_mongo}

-- What the hooks left in the context, if it has a key, as a portable filter has.
unfoldable pub scope_candidate : Input → List Input
scope_candidate absent = []
scope_candidate (query end) = []
scope_candidate (query (field k v f)) = query (field k v f) ∷ []
scope_candidate (ir f) = ir f ∷ []

-- `if (req.filter)`
unfoldable pub request_filter : Input → List Input
request_filter absent = []
request_filter filter = filter ∷ []

-- Parts without a key are left out.
unfoldable pub with_part : Object Value → List (Object Value) → List (Object Value)
with_part [] parts = parts
with_part (e ∷ o) parts = (e ∷ o) ∷ parts

unfoldable pub merged_parts : List (Object Value) → Option (Object Value)
merged_parts [] = none
merged_parts (p ∷ []) = some p
merged_parts ps = some (("$and", arr (objects ps)) ∷ [])

module _ (coerce_filter_dates : Object Value → Object Value) where
  unfoldable pub parts_of : List Input → Outcome FilterError (List (Object Value))
  unfolding with_part compile_filter_to_mongo
  parts_of [] = returns []
  parts_of (c ∷ cs) = compile_filter_to_mongo coerce_filter_dates c >>= λ compiled.
      parts_of cs >>= λ parts. returns (with_part compiled parts)

  unfoldable pub with_scope : List Input → Input → Outcome FilterError (Option (Object Value))
  unfolding parts_of merged_parts request_filter
  with_scope [] filter = returns none
  with_scope (c ∷ cs) filter =
      parts_of ((c ∷ cs) ++ request_filter filter) >>= λ parts. returns (merged_parts parts)

  -- The new filter of the request, or none where the request is left as it is.
  unfoldable pub inject_policy_scope_into_agg :
      Input → Input → Input → Outcome FilterError (Option (Object Value))
  unfolding with_scope scope_candidate
  inject_policy_scope_into_agg filters scope filter =
      with_scope (scope_candidate filters ++ scope_candidate scope) filter
