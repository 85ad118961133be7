-- ===== src/Operations/AppendOnly.antt =====
-- src/plugins/append-only.plugin.ts: which operations of an append-only collection are refused.
pub mod Laws
mod Tests
use mongokit.Prelude.{
  String, Bool, true, false, not, ◌&&◌, ◌||◌, List, [], ◌∷◌, ◌++◌, Option, none, some, any, str_eq,
  if◌then◌else◌, Outcome, returns, throws, throw_if, ◌>>◌,
}
use mongokit.Js.Object.{Object, get}
use mongokit.Operations.{OperationDescriptor, op_registry}

pub data AppendOnlyError : Type 0 where
  append_only_violation : String → AppendOnlyError

abbrev pub always_allowed : List String
always_allowed = "create" ∷ "createMany" ∷ []

unfoldable pub is_allowed : List String → String → Bool
is_allowed allow op = any (λ a. str_eq a op) (always_allowed ++ allow)

-- `if (!meta.mutates || allowed.has(op)) continue;`
unfoldable pub is_fenced : List String → String → Option OperationDescriptor → Bool
is_fenced allow op none = false
is_fenced allow op (some meta) = meta.mutates && not (is_allowed allow op)

-- The hook before an operation: whether an audited bypass was reported, or the refusal.
unfoldable pub before : List String → String → Bool → Outcome AppendOnlyError Bool
unfolding op_registry get is_fenced
before allow op bypass_append_only =
    if is_fenced allow op (get op op_registry)
    then throw_if (not bypass_append_only) (append_only_violation op) >> returns true
    else returns false
