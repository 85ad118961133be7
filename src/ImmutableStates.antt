-- ===== src/ImmutableStates.antt =====
-- src/plugins/immutable-states.plugin.ts: documents are frozen in certain states. A dotted field is
-- read as a filter reads it, and the projections only make what is read smaller. `errorFactory` only
-- chooses what is thrown.
pub mod Laws
pub mod Guards
mod Tests
use mongokit.Prelude.{
  String, ◌≡◌, Bool, true, false, not, ◌&&◌, Option, none, some, List, [], ◌∷◌, any, map, filter,
  keep, str_eq, All, Mem, if◌then◌else◌, Outcome, returns, throws, throw_if,
}
use mongokit.Js.Object.{Object, get, has, put}
use mongokit.Js.Value.{Value, undefined, str, arr, objects, values}
use mongokit.Mongo.{Matching, operator}
use mongokit.IdChunks.{is_nullish}
use mongokit.Pagination.Sort.{includes}
use mongokit.Operations.{OperationDescriptor, op_registry}
use mongokit.Claim.{From, one, many, Transition, or_name}

-- `findOne` and `exists`, without a sort: some row that the filter selects, if there is one.
pub record Reader {D : Type 0} (m : Matching D) : Type 1 where
  pub State : Type 0
  pub rows : State → List D
  pub find_one : Object Value → State → Option D
  pub find_one-none :
      (q : Object Value) (s : State) → find_one q s ≡ none → All (λ d. m.holds q d ≡ false) (rows s)
  pub find_one-some :
      (q : Object Value) (s : State) (d : D)
      → find_one q s ≡ some d
      → Mem d (rows s) × (m.holds q d ≡ true)

-- What `allowClaim` sees.
pub record ImmutableClaimView : Type 0 where
  pub id : Value
  pub transition : Transition
  pub data_ : Option (Object Value)

pub record ImmutableStatesPluginOptions : Type 0 where
  pub states : List String
  pub state_field : Option String
  pub tenant_field : Option String
  pub allow_claim : Option (ImmutableClaimView → Bool)

pub record Ctx : Type 0 where
  -- `ctx[internalFlag]`, as a condition.
  pub is_internal : Bool
  pub id : Value
  pub query : Option (Object Value)
  pub transition : Option Transition
  pub data_ : Option (Object Value)

pub data ImmutableError : Type 0 where
  -- The operation and the state, where it is known.
  immutable_state_violation : String → Option Value → ImmutableError
  unhandled_ops : List String → ImmutableError

abbrev pub strategy_ops : List String
strategy_ops =
    "create" ∷ "createMany" ∷ "update" ∷ "delete" ∷ "claimVersion" ∷ "restore" ∷ "findOneAndUpdate"
    ∷ "updateMany" ∷ "deleteMany" ∷ "bulkWrite" ∷ "claim" ∷ []

-- The mutating operations without a strategy.
unfoldable pub unhandled : Object OperationDescriptor → List String
unfolding includes
unhandled [] = []
unhandled ((op, meta) ∷ registry) =
    keep (meta.mutates && not (includes strategy_ops op)) op (unhandled registry)

unfoldable pub or_empty : Option (Object Value) → Object Value
or_empty none = []
or_empty (some q) = q

-- `state !== undefined && frozen.has(state)`
unfoldable pub is_frozen : List String → Value → Bool
unfolding includes
is_frozen states (str x) = includes states x
is_frozen states v = false

-- `{ ...base, [tenantField]: ctx.query[tenantField] }`
unfoldable pub with_tenant : Object Value → String → Option Value → Object Value
unfolding put
with_tenant base tenant none = base
with_tenant base tenant (some v) = put tenant v base

unfoldable pub scoped : Option String → Object Value → Ctx → Object Value
unfolding with_tenant or_empty get
scoped none base ctx = base
scoped (some tenant) base ctx = with_tenant base tenant (get tenant (or_empty ctx.query))

-- `frozen.has(String(from))`
unfoldable pub touches_frozen : (Value → String) → List String → From → Bool
unfolding includes
touches_frozen text_of states (one v) = includes states (text_of v)
touches_frozen text_of states (many vs) = any (λ v. includes states (text_of v)) vs

-- `options.allowClaim?.(…)`
unfoldable pub is_allowed : Option (ImmutableClaimView → Bool) → ImmutableClaimView → Bool
is_allowed none view = false
is_allowed (some allow) view = allow view

module _ {D : Type 0} {m : Matching D} (reader : Reader m) (text_of : Value → String)
    (options : ImmutableStatesPluginOptions) where
  open reader use {State, find_one}
  open options use {states, state_field, tenant_field, allow_claim}

  abbrev pub field : String
  field = or_name state_field "state"

  abbrev pub Hook : Type 0
  Hook = Ctx → State → Outcome ImmutableError (Unit {0})

  -- `getState(doc)`, and undefined where there is no document.
  unfoldable pub state_of : Option D → Value
  state_of none = undefined
  state_of (some d) = m.value_at field d

  unfoldable pub read_state_by_id : Ctx → State → Value
  unfolding is_nullish scoped state_of
  read_state_by_id ctx s =
      if is_nullish ctx.id
      then undefined
      else state_of (find_one (scoped tenant_field (("_id", ctx.id) ∷ []) ctx) s)

  -- The refusal of a frozen state.
  unfoldable pub refuse : String → Value → Outcome ImmutableError (Unit {0})
  unfolding is_frozen
  refuse op state = throw_if (is_frozen states state) (immutable_state_violation op (some state))

  unfoldable pub guard_by_id : String → Hook
  unfolding read_state_by_id refuse
  guard_by_id op ctx s = if ctx.is_internal then returns tt else refuse op (read_state_by_id ctx s)

  unfoldable pub guard_find_one_and_update : Hook
  unfolding refuse or_empty state_of
  guard_find_one_and_update ctx s =
      if ctx.is_internal
      then returns tt
      else refuse "findOneAndUpdate" (state_of (find_one (or_empty ctx.query) s))

  -- `{ $and: [filter, { [field]: { $in: [...frozen] } }] }`
  unfoldable pub frozen_filter : Object Value → Object Value
  frozen_filter filter =
      (
        "$and",
        arr (
            objects (filter ∷ ((field, operator "$in" (arr (values (map str states)))) ∷ []) ∷ [])),
      )
      ∷ []

  unfoldable pub refuse_hit : String → Option D → Outcome ImmutableError (Unit {0})
  refuse_hit op none = returns tt
  refuse_hit op (some d) = throws (immutable_state_violation op none)

  unfoldable pub guard_many : String → Hook
  unfolding frozen_filter refuse_hit or_empty
  guard_many op ctx s =
      if ctx.is_internal
      then returns tt
      else refuse_hit op (find_one (frozen_filter (or_empty ctx.query)) s)

  unfoldable pub guard_bulk_write : Hook
  guard_bulk_write ctx s =
      throw_if (not ctx.is_internal) (immutable_state_violation "bulkWrite" none)

  unfoldable pub guard_transition : Transition → Hook
  unfolding read_state_by_id is_frozen touches_frozen is_allowed
  guard_transition t ctx s =
      let allowed =
        is_allowed allow_claim (record { id = ctx.id; transition = t; data_ = ctx.data_ }) in
      let state = read_state_by_id ctx s in
      if str_eq (or_name t.state_field "status") field
      then throw_if (touches_frozen text_of states t.source && not allowed)
          (immutable_state_violation "claim" none)
      else throw_if (is_frozen states state && not allowed)
          (immutable_state_violation "claim" (some state))

  unfoldable pub guard_claimed : Option Transition → Hook
  unfolding guard_transition
  guard_claimed none ctx s = returns tt
  guard_claimed (some t) ctx s = guard_transition t ctx s

  unfoldable pub guard_claim : Hook
  unfolding guard_claimed
  guard_claim ctx s = if ctx.is_internal then returns tt else guard_claimed ctx.transition ctx s

  -- The hooks that the plugin installs, each before its operation.
  unfoldable pub hooks : Object Hook
  unfolding guard_by_id guard_find_one_and_update guard_many guard_bulk_write guard_claim
  hooks =
      ("update", guard_by_id "update")
      ∷ ("delete", guard_by_id "delete")
      ∷ ("claimVersion", guard_by_id "claimVersion")
      ∷ ("restore", guard_by_id "restore")
      ∷ ("findOneAndUpdate", guard_find_one_and_update)
      ∷ ("updateMany", guard_many "updateMany")
      ∷ ("deleteMany", guard_many "deleteMany")
      ∷ ("bulkWrite", guard_bulk_write)
      ∷ ("claim", guard_claim)
      ∷ []

  unfoldable pub checked : List String → Outcome ImmutableError (Object Hook)
  unfolding hooks
  checked [] = returns hooks
  checked (op ∷ ops) = throws (unhandled_ops (op ∷ ops))

  unfoldable pub apply : Object OperationDescriptor → Outcome ImmutableError (Object Hook)
  unfolding unhandled checked
  apply registry = checked (unhandled registry)
