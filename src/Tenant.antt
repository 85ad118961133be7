-- ===== src/Tenant.antt =====
-- src/plugins/multi-tenant.plugin.ts: the hook that runs before every scoped operation. It changes
-- the context of the call, which is an argument and a result here. What the host passes (`skipWhen`,
-- `resolveContext`), `payloadHasTenantField` of @classytic/repo-core, `String(v)` and the ObjectId
-- constructor are parameters. What a call that throws has stamped before is not described.
pub mod Laws
pub mod Apply
pub mod Isolation
mod Tests
use mongokit.Prelude.{
  String, Bool, true, false, not, ◌&&◌, ◌||◌, Option, none, some, List, [], ◌∷◌, any, str_eq,
  if◌then◌else◌, Outcome, returns, throws, ◌>>=◌, ◌>>◌, throw_if,
}
use mongokit.Js.Object.{Object, get, put, keys}
use mongokit.Js.Value.{Value, undefined, null, bool, num, str, oid, date, arr, obj}
use mongokit.Operations.{PolicyKey, OperationDescriptor, op_registry, same_key}
use mongokit.Pagination.Sort.{includes}

-- The body of one entry of `bulkWrite`: what selects documents and what is written whole, which are
-- the filter, the document of an insert and the replacement of `replaceOne`, at which the hook does
-- not look.
pub record Body : Type 0 where
  pub filter : Option (Object Value)
  pub document : Option (Object Value)
  pub replacement : Option (Object Value)

-- The context of a call. An entry of `dataArray` is an object, or something else (`none`). The
-- tenant is `context[contextKey]`; `others` is the rest of the context.
pub record Context : Type 0 where
  pub bypass_tenant : Bool
  pub tenant_id : Option String
  pub filters : Option (Object Value)
  pub query : Option (Object Value)
  pub data_ : Option (Object Value)
  pub data_array : Option (List (Option (Object Value)))
  pub operations : Option (List (Object Body))
  pub others : Object Value

pub record TenantOptions : Type 0 where
  pub tenant_field : String
  pub required : Bool
  pub skip_operations : List String
  pub allow_data_injection : Bool
  -- `onMismatch === 'overwrite'`
  pub overwrites : Bool
  pub skip_when : Context → String → Bool
  pub resolve_context : Option String
  -- `fieldType === 'objectId'`, and the constructor, which throws on what is no ObjectId.
  pub is_object_id : Bool
  pub new_object_id : String → Option String
  pub text_of : Value → String
  pub payload_has_tenant_field : Context → PolicyKey → Bool

pub data TenantError : Type 0 where
  missing_tenant bad_object_id mismatch : TenantError

-- The reason that `after:tenant-bypass` reports.
pub data Bypass : Type 0 where
  option callback : Bypass

abbrev pub or_empty : Option (Object Value) → Object Value
or_empty none = []
or_empty (some o) = o

-- A text that is not empty.
unfoldable pub truthy : Option String → Option String
truthy none = none
truthy (some s) = if str_eq s "" then none else some s

-- `supplied === undefined || supplied === null`
unfoldable pub is_absent : Option Value → Bool
is_absent none = true
is_absent (some undefined) = true
is_absent (some null) = true
is_absent (some v) = false

-- `typeof supplied !== 'object' || supplied instanceof ObjectId`
unfoldable pub is_comparable : Value → Bool
is_comparable null = false
is_comparable (date n) = false
is_comparable (arr xs) = false
is_comparable (obj f) = false
is_comparable v = true

abbrev pub filter_keys : List String
filter_keys = "updateOne" ∷ "updateMany" ∷ "deleteOne" ∷ "deleteMany" ∷ "replaceOne" ∷ []

module _ (options : TenantOptions) where
  open options use {
    tenant_field, required, skip_operations, allow_data_injection, overwrites, skip_when,
    resolve_context, is_object_id, new_object_id, text_of, payload_has_tenant_field,
  }

  -- `comparable && String(supplied) === String(castId)`
  unfoldable pub agrees : Value → Option Value → Bool
  unfolding is_comparable
  agrees cast none = true
  agrees cast (some v) = is_comparable v && str_eq (text_of v) (text_of cast)

  unfoldable pub assert_tenant_value : Value → Option Value → Outcome TenantError (Unit {0})
  unfolding is_absent agrees
  assert_tenant_value cast supplied =
      throw_if (not (overwrites || is_absent supplied || agrees cast supplied)) mismatch

  -- The guard, and then `o[tenantField] = castId`.
  unfoldable pub stamp : Value → Object Value → Outcome TenantError (Object Value)
  unfolding assert_tenant_value
  stamp cast o = assert_tenant_value cast (get tenant_field o) >> returns (put tenant_field cast o)

  unfoldable pub stamp_data :
      Value → Option (Object Value) → Outcome TenantError (Option (Object Value))
  unfolding stamp
  stamp_data cast none = returns none
  stamp_data cast (some o) = do p ← stamp cast o; returns (some p)

  unfoldable pub stamp_all :
      Value → List (Option (Object Value)) → Outcome TenantError (List (Option (Object Value)))
  unfolding stamp_data
  stamp_all cast [] = returns []
  stamp_all cast (x ∷ xs) = do y ← stamp_data cast x; ys ← stamp_all cast xs; returns (y ∷ ys)

  -- `opBody.filter`, and `insertBody.document`.
  unfoldable pub stamp_filter :
      Value → String → Object Body → Option Body → Outcome TenantError (Object Body)
  unfolding stamp_data
  stamp_filter cast key sub none = returns sub
  stamp_filter cast key sub (some body) = do
    f ← stamp_data cast body.filter
    returns (put key (record body { filter = f }) sub)

  unfoldable pub stamp_document :
      Value → Object Body → Option Body → Outcome TenantError (Object Body)
  unfolding stamp_data
  stamp_document cast sub none = returns sub
  stamp_document cast sub (some body) = do
    d ← stamp_data cast body.document
    returns (put "insertOne" (record body { document = d }) sub)

  unfoldable pub stamp_filters :
      Value → List String → Object Body → Outcome TenantError (Object Body)
  unfolding stamp_filter
  stamp_filters cast [] sub = returns sub
  stamp_filters cast (k ∷ ks) sub = stamp_filter cast k sub (get k sub) >>= stamp_filters cast ks

  unfoldable pub stamp_operation : Value → Object Body → Outcome TenantError (Object Body)
  unfolding stamp_filters stamp_document
  stamp_operation cast sub = do
    filtered ← stamp_filters cast filter_keys sub
    stamp_document cast filtered (get "insertOne" filtered)

  unfoldable pub stamp_operations :
      Value → List (Object Body) → Outcome TenantError (List (Object Body))
  unfolding stamp_operation
  stamp_operations cast [] = returns []
  stamp_operations cast (x ∷ xs) = do
    y ← stamp_operation cast x
    ys ← stamp_operations cast xs
    returns (y ∷ ys)

  -- The `switch` on the place where the operation takes its condition.
  unfoldable pub inject : PolicyKey → Value → Context → Outcome TenantError Context
  unfolding stamp stamp_data stamp_all stamp_operations
  inject PolicyKey.filters cast c = do
    o ← stamp cast (or_empty c.filters)
    returns (record c { filters = some o })
  inject PolicyKey.query cast c = do
    o ← stamp cast (or_empty c.query)
    returns (record c { query = some o })
  inject PolicyKey.data_ cast c = do o ← stamp_data cast c.data_; returns (record c { data_ = o })
  inject PolicyKey.data_array cast c = elim c.data_array [
    | none ↦ returns c
    | some xs ↦ stamp_all cast xs >>= λ ys. returns (record c { data_array = some ys })
  ]
  inject PolicyKey.operations cast c = elim c.operations [
    | none ↦ returns c
    | some xs ↦ stamp_operations cast xs >>= λ ys. returns (record c { operations = some ys })
  ]
  inject PolicyKey.none_ cast c = returns c

  -- From the context's tenant and the resolved one: the tenant of the call, and the context to which
  -- a resolved tenant was written back.
  unfoldable pub resolved_from : Option String → Option String → Context → Option String × Context
  resolved_from (some id) o c = (some id, c)
  resolved_from none (some id) c = (some id, record c { tenant_id = some id })
  resolved_from none none c = (none, c)

  unfoldable pub resolved : Context → Option String × Context
  unfolding truthy resolved_from
  resolved c = resolved_from (truthy c.tenant_id) (truthy resolve_context) c

  unfoldable pub cast_id : String → Outcome TenantError Value
  cast_id id = elim is_object_id [
    | false ↦ returns (str id)
    | true ↦ elim (new_object_id id) [ none ↦ throws bad_object_id | some hex ↦ returns (oid hex) ]
  ]

  unfoldable pub scope : PolicyKey → Option String → Context → Outcome TenantError Context
  unfolding cast_id inject
  scope key none c =
      if allow_data_injection && payload_has_tenant_field c key
      then returns c
      else if required
      then throws missing_tenant
      else returns c
  scope key (some id) c = do cast ← cast_id id; inject key cast c

  unfoldable pub bypass_of : String → Context → Option Bypass
  bypass_of op c =
      if c.bypass_tenant then some option else if skip_when c op then some callback else none

  unfoldable pub hook_under :
      Option Bypass → PolicyKey → Context → Outcome TenantError (Option Bypass × Context)
  unfolding resolved scope
  hook_under (some reason) key c = returns (some reason, c)
  hook_under none key c = scope key (resolved c).0 (resolved c).1 >>= λ d. returns (none, d)

  -- The hook before the operation `op`: the bypass that was reported, and the context after it.
  unfoldable pub hook : String → PolicyKey → Context → Outcome TenantError (Option Bypass × Context)
  unfolding bypass_of hook_under
  hook op key c = hook_under (bypass_of op c) key c

-- The loop over the registry, and `getDeleted` of the soft-delete plugin.
unfoldable pub hooked : List String → Object PolicyKey → Object PolicyKey
unfolding same_key includes
hooked skip [] = []
hooked skip ((op, key) ∷ ops) =
    let rest = hooked skip ops in
    if includes skip op || same_key key PolicyKey.none_ then rest else (op, key) ∷ rest

unfoldable pub policy_keys : Object OperationDescriptor → Object PolicyKey
policy_keys [] = ("getDeleted", PolicyKey.filters) ∷ []
policy_keys ((op, meta) ∷ o) = (op, meta.policy_key) ∷ policy_keys o

-- The operations before which the hook runs, with the place where each takes its condition.
unfoldable pub apply : TenantOptions → Object PolicyKey
unfolding op_registry hooked policy_keys
apply options = hooked options.skip_operations (policy_keys op_registry)
