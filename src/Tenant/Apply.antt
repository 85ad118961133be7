-- ===== src/Tenant/Apply.antt =====
-- Before which operations the hook runs.
use mongokit.Prelude.{
  false_of_not, String, ◌≡◌, refl, ap, false, not, ◌||◌, Option, none, some, List, [], ◌∷◌, str_eq,
  eq_iff, eq_refl, Bool-cases, inl, inr,
}
use mongokit.Js.Object.{Object, get}
use mongokit.Operations.{PolicyKey, OperationDescriptor, op_registry, same_key}
use mongokit.Operations.Laws.{all_pass-get}
use mongokit.Pagination.Sort.{includes}
use mongokit.Tenant.{TenantOptions, hooked, policy_keys, apply}

key_same : (a b : PolicyKey) → some a ≡ some b → a ≡ b
key_same a b h = cc

-- The place in an entry of the registry, where there is one.
abbrev key_of : Option OperationDescriptor → Option PolicyKey
key_of none = none
key_of (some meta) = some meta.policy_key

get-hooked :
    (skip : List String) (ops : Object PolicyKey) (op : String) (key : PolicyKey)
    → get op ops ≡ some key
    → includes skip op ≡ false
    → same_key key PolicyKey.none_ ≡ false
    → get op (hooked skip ops) ≡ some key
unfolding get hooked
get-hooked skip [] op key h s n = cc
get-hooked skip ((j, k) ∷ ops) op key h s n = elim (Bool-cases (str_eq j op)) [
  | inl e ↦
      let p = (eq_iff j op).0 e in
      let q : some k ≡ some key = rw e at h in rw (p, key_same k key q, s, n, eq_refl op) refl
  | inr e ↦
      let rest = get-hooked skip ops op key (rw e at h) s n in
      elim (Bool-cases (includes skip j || same_key k PolicyKey.none_)) [
        | inl f ↦ rw f rest
        | inr f ↦ rw (f, e) rest
      ]
]

get-policy_keys :
    (o : Object OperationDescriptor) (op : String) (meta : OperationDescriptor)
    → get op o ≡ some meta
    → get op (policy_keys o) ≡ some meta.policy_key
unfolding get policy_keys
get-policy_keys [] op meta h = cc
get-policy_keys ((j, v) ∷ o) op meta h = elim (Bool-cases (str_eq j op)) [
  | inl e ↦ let q : some v ≡ some meta = rw e at h in rw e (ap key_of q)
  | inr e ↦ rw e (get-policy_keys o op meta (rw e at h))
]

-- The hook is installed before every operation of the registry that is not skipped, under the
-- place where that operation takes its condition.
apply-covers :
    (options : TenantOptions) (op : String) (meta : OperationDescriptor)
    → get op op_registry ≡ some meta
    → includes options.skip_operations op ≡ false
    → get op (apply options) ≡ some meta.policy_key
unfolding apply op_registry same_key
apply-covers options op meta h s =
    get-hooked options.skip_operations (policy_keys op_registry) op meta.policy_key
      (get-policy_keys op_registry op meta h) s
      (false_of_not _ (
        all_pass-get (λ x. not (same_key x.policy_key PolicyKey.none_)) op_registry op meta refl h))
