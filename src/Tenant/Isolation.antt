-- ===== src/Tenant/Isolation.antt =====
-- The hook fails closed: a call goes on under one tenant, or under a bypass that is reported.
use mongokit.Prelude.{
  String, ◌≡◌, refl, sym, ap, subst, ◌∙◌, Bool, true, false, ◌||◌, ◌↔◌, Option, none, some, All,
  Mem, All-Mem, if◌then◌else◌, Bool-cases, Option-cases, inl, inr, returns, >>=-eq-returns,
  returns-injective,
}
use mongokit.Js.Object.{Object}
use mongokit.Js.Value.{Value, str, oid, is_operator}
use mongokit.Mongo.{Matching, IsLiteral}
use mongokit.Mongo.Clauses.{same_of_holds}
use mongokit.Operations.{PolicyKey}
use mongokit.Tenant.{
  Context, TenantOptions, Bypass, option, callback, truthy, resolved_from, resolved, cast_id, scope,
  bypass_of, hook_under, hook,
}
use mongokit.Tenant.Laws.{targets, replacements, or_nil, IsStamped, Agrees, inject_lem}

targets-tenant :
    (key : PolicyKey) (c : Context) (o : Option String)
    → targets key (record c { tenant_id = o }) ≡ targets key c
targets-tenant PolicyKey.filters c o = refl
targets-tenant PolicyKey.query c o = refl
targets-tenant PolicyKey.data_ c o = refl
targets-tenant PolicyKey.data_array c o = refl
targets-tenant PolicyKey.operations c o = refl
targets-tenant PolicyKey.none_ c o = refl

either_lem :
    (x y : Bool)
    → ((x || y) ≡ true ↔ (
        (b : Bypass) × ((if x then some option else if y then some callback else none) ≡ some b)))
either_lem true y = (λ h. (option, refl), λ p. refl)
either_lem false true = (λ h. (callback, refl), λ p. refl)
either_lem false false = (λ h. absurd (cc h), λ p. let (b, e) = p in absurd (cc e))

module _ (options : TenantOptions) where
  open options use {
    tenant_field, required, allow_data_injection, skip_when, resolve_context, is_object_id,
    new_object_id,
  }

  -- The value by which the tenant of a call is stored.
  abbrev pub IsTenant : Context → Value → Type 0
  IsTenant c cast =
      (id : String) × ((resolved options c).0 ≡ some id) × (cast_id options id ≡ returns cast)

  targets-resolved_from :
      (key : PolicyKey) (o p : Option String) (c : Context)
      → targets key (resolved_from options o p c).1 ≡ targets key c
  unfolding resolved_from
  targets-resolved_from key (some id) p c = refl
  targets-resolved_from key none (some id) c = targets-tenant key c (some id)
  targets-resolved_from key none none c = refl

  operations-resolved_from :
      (o p : Option String) (c : Context)
      → replacements (or_nil (resolved_from options o p c).1.operations)
        ≡ replacements (or_nil c.operations)
  unfolding resolved_from
  operations-resolved_from (some id) p c = refl
  operations-resolved_from none (some id) c = refl
  operations-resolved_from none none c = refl

  scope_lem :
      (key : PolicyKey) (o : Option String) (c d : Context)
      → required ≡ true
      → allow_data_injection ≡ false
      → scope options key o c ≡ returns d
      → (cast : Value) × ((id : String) × (o ≡ some id) × (cast_id options id ≡ returns cast))
        × All (IsStamped options cast) (targets key d)
        × All (Agrees options cast) (targets key c)
        × (replacements (or_nil d.operations) ≡ replacements (or_nil c.operations))
  unfolding scope
  scope_lem key none c d r a h = absurd (cc (rw (a, r) at h))
  scope_lem key (some id) c d r a h =
      let (cast, e, f) = >>=-eq-returns (cast_id options id) _ h in
      let (s, t, u) = inject_lem options cast key c d f in (cast, (id, refl, e), s, t, u)

  hook_under_lem :
      (b : Option Bypass) (key : PolicyKey) (c d : Context)
      → required ≡ true
      → allow_data_injection ≡ false
      → hook_under options b key c ≡ returns (none, d)
      → (cast : Value) × IsTenant c cast
        × All (IsStamped options cast) (targets key d)
        × All (Agrees options cast) (targets key c)
        × (replacements (or_nil d.operations) ≡ replacements (or_nil c.operations))
  unfolding hook_under resolved
  hook_under_lem (some b) key c d r a h = absurd (cc h)
  hook_under_lem none key c d r a h =
      let (x, f, g) =
        >>=-eq-returns (scope options key (resolved options c).0 (resolved options c).1) _ h in
      let same : x ≡ d = ap (λ p. p.1) (returns-injective _ _ g) in
      let (cast, t, s, u, v) = scope_lem key _ _ x r a f in
      (
        cast,
        t,
        subst (λ y. All (IsStamped options cast) (targets key y)) same s,
        subst (All (Agrees options cast))
            (targets-resolved_from key (truthy c.tenant_id) (truthy resolve_context) c) u,
        ap (λ y. replacements (or_nil y.operations)) (sym same)
            ∙ v
            ∙ operations-resolved_from (truthy c.tenant_id) (truthy resolve_context) c,
      )

  -- With the defaults (a tenant is required, and one in the payload is no proof), a call goes on
  -- without a bypass only under a tenant: its condition (`filters` or `query`), its document or each
  -- of its documents (`data`, `dataArray`), or for a bulk write each entry's filter and inserted
  -- document, by the place where the operation takes its condition, then names that tenant, and
  -- named before it either none or, unless mismatches are overwritten, the same. The replacement
  -- document of each `replaceOne` is left as it was, with whatever tenant it names or none.
  pub hook-IsStamped :
      (op : String) (key : PolicyKey) (c d : Context)
      → required ≡ true
      → allow_data_injection ≡ false
      → hook options op key c ≡ returns (none, d)
      → (cast : Value) × IsTenant c cast
        × All (IsStamped options cast) (targets key d)
        × All (Agrees options cast) (targets key c)
        × (replacements (or_nil d.operations) ≡ replacements (or_nil c.operations))
  unfolding hook resolved
  hook-IsStamped op key c d r a h = hook_under_lem (bypass_of options op c) key c d r a h

  IsLiteral-cast_id :
      (id : String) (cast : Value) → cast_id options id ≡ returns cast → IsLiteral cast
  unfolding cast_id
  IsLiteral-cast_id id cast h = elim (Bool-cases is_object_id) [
    | inl e ↦ elim (Option-cases (new_object_id id)) [
      | inl f ↦ absurd (cc (rw (e, f) at h))
      | inr (hex, f) ↦ subst IsLiteral (returns-injective (oid hex) cast (rw (e, f) at h)) tt
    ]
    | inr e ↦ subst IsLiteral (returns-injective (str id) cast (rw e at h)) tt
  ]

  -- With the defaults (a tenant is required, and one in the payload is no proof) and a tenant
  -- field that is no operator: every filter of a call that goes on without a bypass selects only
  -- documents of the call's tenant, whatever else the caller put into the filter.
  pub hook-isolates :
      {D : Type 0} (m : Matching D) (op : String) (key : PolicyKey) (c d : Context)
      (q : Object Value) (x : D)
      → required ≡ true
      → allow_data_injection ≡ false
      → is_operator tenant_field ≡ false
      → hook options op key c ≡ returns (none, d)
      → Mem (some q) (targets key d)
      → m.holds q x ≡ true
      → (cast : Value) × IsTenant c cast × (m.same (m.value_at tenant_field x) cast ≡ true)
  hook-isolates m op key c d q x r a o h i s =
      let (cast, (id, e, f), t, u, v) = hook-IsStamped op key c d r a h in
      (
        cast,
        (id, e, f),
        same_of_holds m q tenant_field cast x o (IsLiteral-cast_id id cast f)
            (All-Mem (IsStamped options cast) (some q) (targets key d) t i) s,
      )

  hook_under-bypass :
      (b : Bypass) (o : Option Bypass) (key : PolicyKey) (c d : Context)
      → hook_under options o key c ≡ returns (some b, d)
      → (o ≡ some b) × (d ≡ c)
  unfolding hook_under
  hook_under-bypass b (some x) key c d h =
      let p = returns-injective _ _ h in (ap (λ r. r.0) p, sym (ap (λ r. r.1) p))
  hook_under-bypass b none key c d h =
      let (x, f, g) =
        >>=-eq-returns (scope options key (resolved options c).0 (resolved options c).1) _ h in
      absurd (cc g)

  bypass_of_lem :
      (op : String) (c : Context)
      → ((c.bypass_tenant || skip_when c op) ≡ true
          ↔ ((b : Bypass) × (bypass_of options op c ≡ some b)))
  unfolding bypass_of
  bypass_of_lem op c = either_lem c.bypass_tenant (skip_when c op)

  -- A bypass is reported exactly when the call asks for one or `skipWhen` grants it, and the hook
  -- then leaves the call alone.
  hook-bypass :
      (op : String) (key : PolicyKey) (c : Context)
      → ((c.bypass_tenant || skip_when c op) ≡ true
          ↔ ((b : Bypass) × (hook options op key c ≡ returns (some b, c))))
  unfolding hook hook_under
  hook-bypass op key c = (
    λ h. let (b, e) = (bypass_of_lem op c).0 h in (b, ap (λ o. hook_under options o key c) e),
    λ p.
        let (b, h) = p in
        (bypass_of_lem op c).1 (b, (hook_under-bypass b (bypass_of options op c) key c c h).0),
  )
