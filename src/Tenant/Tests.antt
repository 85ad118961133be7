-- ===== src/Tenant/Tests.antt =====
-- Calls of the tenant "acme".
use mongokit.Prelude.{
  String, ◌≡◌, refl, true, false, none, some, [], ◌∷◌, str_eq, inl, All, returns, throws,
  if◌then◌else◌,
}
use mongokit.Js.Object.{Object, get, put}
use mongokit.Js.Value.{Value, str, undefined, is_operator}
use mongokit.Mongo.Memory.{clause, holds, same, satisfies, satisfies_all}
use mongokit.Mongo.Memory.Store.{Document, documents}
use mongokit.Operations.{PolicyKey}
use mongokit.Tenant.{
  Context, TenantOptions, mismatch, missing_tenant, hook, hook_under, bypass_of, scope, inject,
  stamp, stamp_data, stamp_operations, stamp_operation, stamp_filters, stamp_filter, stamp_document,
  assert_tenant_value, is_absent, agrees, is_comparable, cast_id, resolved, resolved_from, truthy,
}
use mongokit.Tenant.Laws.{targets, replacements, or_nil, IsStamped, Agrees}
use mongokit.Tenant.Isolation.{IsTenant, hook-IsStamped, hook-isolates}

abbrev text : Value → String
text (str s) = s
text v = ""

abbrev options : TenantOptions
options = record {
  tenant_field = "org";
  required = true;
  skip_operations = "count" ∷ [];
  allow_data_injection = false;
  overwrites = false;
  skip_when = λ c op. false;
  resolve_context = some "acme";
  is_object_id = false;
  new_object_id = some;
  text_of = text;
  payload_has_tenant_field = λ c key. false;
}

-- Without a tenant of its own: the one that is resolved from outside counts.
abbrev call : Object Value → Context
call q = record {
  bypass_tenant = false;
  tenant_id = none;
  filters = none;
  query = some q;
  data_ = none;
  data_array = none;
  operations =
      some (
        (("updateOne", record { filter = some q; document = none; replacement = none }) ∷ []) ∷ []);
  others = [];
}

abbrev paid : Object Value
paid = ("status", str "paid") ∷ []

abbrev scoped : Object Value
scoped = ("status", str "paid") ∷ ("org", str "acme") ∷ []

abbrev scoped_call : Context
scoped_call = record (call paid) { tenant_id = some "acme"; query = some scoped }

runs : hook options "update" PolicyKey.query (call paid) ≡ returns (none, scoped_call)
unfolding hook hook_under bypass_of scope inject stamp assert_tenant_value is_absent agrees cast_id
    resolved resolved_from truthy get put
runs = refl

foreign : hook options "update" PolicyKey.query (call (("org", str "other") ∷ [])) ≡ throws mismatch
unfolding hook hook_under bypass_of scope inject stamp assert_tenant_value is_absent agrees
    is_comparable cast_id resolved resolved_from truthy get put
foreign = refl

bulk :
    hook options "bulkWrite" PolicyKey.operations (call paid)
    ≡ returns (
      none,
      record (call paid) {
        tenant_id = some "acme";
        operations = some (
            (("updateOne", record { filter = some scoped; document = none; replacement = none })
              ∷ [])
            ∷ []);
      },
    )
unfolding hook hook_under bypass_of scope inject stamp stamp_data stamp_operations stamp_operation
    stamp_filters stamp_filter stamp_document assert_tenant_value is_absent agrees is_comparable
    cast_id resolved resolved_from truthy get put
bulk = refl

no_tenant :
    hook (record options { resolve_context = none }) "update" PolicyKey.query (call paid)
    ≡ throws missing_tenant
unfolding hook hook_under bypass_of scope resolved resolved_from truthy
no_tenant = refl

hook-IsStamped_example :
    (cast : Value) × IsTenant options (call paid) cast
    × All (IsStamped options cast) (targets PolicyKey.query scoped_call)
    × All (Agrees options cast) (targets PolicyKey.query (call paid))
    × (replacements (or_nil scoped_call.operations) ≡ replacements (or_nil (call paid).operations))
hook-IsStamped_example =
    hook-IsStamped options "update" PolicyKey.query (call paid) scoped_call refl refl runs

abbrev row : Document
row f = if str_eq f "status" then str "paid" else if str_eq f "org" then str "acme" else undefined

hook-isolates_example :
    (cast : Value) × IsTenant options (call paid) cast
    × (documents.same (documents.value_at "org" row) cast ≡ true)
unfolding is_operator holds clause satisfies_all satisfies same
hook-isolates_example =
    hook-isolates options documents "update" PolicyKey.query (call paid) scoped_call scoped row refl
      refl refl runs (inl refl) refl
