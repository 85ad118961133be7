-- ===== src/Operations.antt =====
-- src/operations.ts: what plugins know of every operation of a repository.
pub mod AppendOnly
pub mod Laws
use mongokit.Prelude.{String, Bool, true, false, not, List, [], ◌∷◌, none, some, keep}
use mongokit.Js.Object.{Object, get, keys}

-- Where a plugin puts its condition.
pub data PolicyKey : Type 0 where
  data_ data_array query filters operations none_ : PolicyKey

pub record OperationDescriptor : Type 0 where
  pub policy_key : PolicyKey
  pub mutates : Bool
  pub has_id_context : Bool

abbrev descriptor : PolicyKey → Bool → Bool → OperationDescriptor
descriptor k m i = record { policy_key = k; mutates = m; has_id_context = i }

unfoldable pub op_registry : Object OperationDescriptor
op_registry =
    ("create", descriptor PolicyKey.data_ true false)
    ∷ ("update", descriptor PolicyKey.query true true)
    ∷ ("findOneAndUpdate", descriptor PolicyKey.query true false)
    ∷ ("claim", descriptor PolicyKey.query true true)
    ∷ ("claimVersion", descriptor PolicyKey.query true true)
    ∷ ("delete", descriptor PolicyKey.query true true)
    ∷ ("restore", descriptor PolicyKey.query true true)
    ∷ ("createMany", descriptor PolicyKey.data_array true false)
    ∷ ("updateMany", descriptor PolicyKey.query true false)
    ∷ ("deleteMany", descriptor PolicyKey.query true false)
    ∷ ("bulkWrite", descriptor PolicyKey.operations true false)
    ∷ ("getById", descriptor PolicyKey.query false true)
    ∷ ("getByQuery", descriptor PolicyKey.query false false)
    ∷ ("getOne", descriptor PolicyKey.query false false)
    ∷ ("findAll", descriptor PolicyKey.query false false)
    ∷ ("getOrCreate", descriptor PolicyKey.query false false)
    ∷ ("count", descriptor PolicyKey.query false false)
    ∷ ("exists", descriptor PolicyKey.query false false)
    ∷ ("distinct", descriptor PolicyKey.query false false)
    ∷ ("aggregate", descriptor PolicyKey.query false false)
    ∷ ("aggregatePipeline", descriptor PolicyKey.query false false)
    ∷ ("cursor", descriptor PolicyKey.query false false)
    ∷ ("watch", descriptor PolicyKey.query false false)
    ∷ ("getAll", descriptor PolicyKey.filters false false)
    ∷ ("aggregatePaginate", descriptor PolicyKey.filters false false)
    ∷ ("aggregatePipelinePaginate", descriptor PolicyKey.filters false false)
    ∷ ("lookupPopulate", descriptor PolicyKey.filters false false)
    ∷ []

unfoldable pub all_operations : List String
unfolding op_registry
all_operations = keys op_registry

-- The names of the entries that pass a test.
unfoldable pub select : (OperationDescriptor → Bool) → Object OperationDescriptor → List String
select p [] = []
select p ((op, meta) ∷ o) = keep (p meta) op (select p o)

unfoldable pub mutating_operations : List String
unfolding op_registry select
mutating_operations = select (λ meta. meta.mutates) op_registry

unfoldable pub read_operations : List String
unfolding op_registry select
read_operations = select (λ meta. not meta.mutates) op_registry

unfoldable pub same_key : PolicyKey → PolicyKey → Bool
same_key PolicyKey.data_ PolicyKey.data_ = true
same_key PolicyKey.data_array PolicyKey.data_array = true
same_key PolicyKey.query PolicyKey.query = true
same_key PolicyKey.filters PolicyKey.filters = true
same_key PolicyKey.operations PolicyKey.operations = true
same_key PolicyKey.none_ PolicyKey.none_ = true
same_key _ _ = false

unfoldable pub operations_by_policy_key : PolicyKey → List String
unfolding op_registry select same_key
operations_by_policy_key k = select (λ meta. same_key meta.policy_key k) op_registry
