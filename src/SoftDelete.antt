-- ===== src/SoftDelete.antt =====
-- src/plugins/soft-delete.plugin.ts: the filters that hide deleted rows, and the writes that delete
-- and restore. The clock, in milliseconds, and the user's id are arguments. Retries, abort signals,
-- sessions and the index for `ttlDays` are the driver's; `restore` and `getDeleted` are from after
-- the hooks of other plugins, whose conditions are in the context's query and filters.
pub mod Laws
pub mod Restored
mod Tests
use mongokit.Prelude.{
  ℕ, ◌-◌, ◌*◌, String, Bool, true, false, not, ◌&&◌, ◌||◌, Option, none, some, List, [], ◌∷◌,
  str_eq, if◌then◌else◌, Outcome, returns, throws,
}
use mongokit.Js.Object.{Object, spread}
use mongokit.Js.Value.{Value, null, bool, str, date, object}
use mongokit.Mongo.{Matching, operator}
use mongokit.Mongo.Server.{Server, Update}
use mongokit.Operations.{PolicyKey, OperationDescriptor}

pub data FilterMode : Type 0 where
  null_mode exists_mode : FilterMode

pub data DeletionState : Type 0 where
  live deleted : DeletionState

pub record SoftDeleteOptions : Type 0 where
  pub deleted_field : String
  pub deleted_by_field : String
  pub filter_mode : FilterMode
  pub soft : Bool

pub data SoftDeleteError : Type 0 where
  not_found : SoftDeleteError

abbrev pub or_empty : Option (Object Value) → Object Value
or_empty none = []
or_empty (some o) = o

-- What the filter says of the field.
unfoldable pub condition : FilterMode → DeletionState → Value
condition exists_mode live = operator "$exists" (bool false)
condition exists_mode deleted = object (("$exists", bool true) ∷ ("$ne", null) ∷ [])
condition null_mode live = null
condition null_mode deleted = operator "$ne" null

unfoldable pub build_deletion_state_filter : String → FilterMode → DeletionState → Object Value
build_deletion_state_filter field mode state = (field, condition mode state) ∷ []

unfoldable pub build_deleted_filter : String → FilterMode → Bool → Object Value
unfolding build_deletion_state_filter
build_deleted_filter field mode include_deleted =
    if include_deleted then [] else build_deletion_state_filter field mode live

-- The context's filters, or its query, if the delete filter is not empty.
unfoldable pub merged : Option (Object Value) → Object Value → Option (Object Value)
merged q [] = q
merged q (c ∷ cs) = some (spread (or_empty q) (c ∷ cs))

-- The place of the context into which the delete filter goes before a read, and before
-- `findOneAndUpdate`; `updateMany` and `deleteMany` have hooks of their own.
unfoldable pub filtered_place : String → OperationDescriptor → Option PolicyKey
filtered_place op meta =
    let special = str_eq op "updateMany" || str_eq op "deleteMany" || str_eq op "bulkWrite" in
    if special || (meta.mutates && not (str_eq op "findOneAndUpdate"))
    then none
    else elim meta.policy_key [
      | PolicyKey.filters ↦ some PolicyKey.filters
      | PolicyKey.query ↦ some PolicyKey.query
      | _ ↦ none
    ]

-- `{ [idKey]: id, ...context.query }`
unfoldable pub delete_query : String → Value → Option (Object Value) → Object Value
delete_query id_key id query = spread ((id_key, id) ∷ []) (or_empty query)

module _ (options : SoftDeleteOptions) where
  open options use {deleted_field, deleted_by_field, filter_mode, soft}

  -- `injectDeleteFilterToFilters`, `injectDeleteFilterToQuery`, and the hook before `updateMany`.
  unfoldable pub inject_delete_filter : Bool → Option (Object Value) → Option (Object Value)
  unfolding build_deleted_filter merged
  inject_delete_filter include_deleted q =
      let f = build_deleted_filter deleted_field filter_mode include_deleted in
      if soft then merged q f else q

  abbrev pub plain_set : Object Value → Update
  plain_set o = record { set = o; set_on_insert = []; unset = []; inc = [] }

  unfoldable pub delete_update : ℕ → Option Value → Update
  delete_update now none = plain_set ((deleted_field, date now) ∷ [])
  delete_update now (some user) =
      plain_set ((deleted_field, date now) ∷ (deleted_by_field, user) ∷ [])

  -- The command of the hook before `deleteMany`; `none` leaves the deletion to the driver.
  unfoldable pub before_delete_many :
      Bool → ℕ → Option (Object Value) → Option (Object Value × Update)
  unfolding build_deleted_filter
  before_delete_many hard now query =
      if hard || not soft
      then none
      else some (
        spread (or_empty query) (build_deleted_filter deleted_field filter_mode false),
        plain_set ((deleted_field, date now) ∷ []),
      )

  unfoldable pub restore_update : Update
  restore_update = plain_set ((deleted_field, null) ∷ (deleted_by_field, null) ∷ [])

  -- The filters of `getDeleted`.
  unfoldable pub deleted_filters :
      Option (Object Value) → Option (Object Value) → Option (Object Value) → Object Value
  unfolding build_deletion_state_filter
  deleted_filters given filters query =
      spread
        (spread
          (spread (or_empty given) (build_deletion_state_filter deleted_field filter_mode deleted))
          (or_empty filters))
        (or_empty query)

  module _ {D : Type 0} {m : Matching D} {key : String} (server : Server m key) where
    open server use {State, find_one_and_update}

    unfoldable pub found_or_throw : Option D × State → Outcome SoftDeleteError (D × State)
    found_or_throw (none, s) = throws not_found
    found_or_throw (some d, s) = returns (d, s)

    unfoldable pub soft_deleted :
        Outcome SoftDeleteError (D × State) → Outcome SoftDeleteError (Bool × State)
    soft_deleted (returns (d, s)) = returns (true, s)
    soft_deleted (throws e) = throws e

    -- The hook before `delete`: whether the row was marked, in place of being removed.
    unfoldable pub before_delete :
        Bool
        → Value
        → Option (Object Value)
        → ℕ
        → Option Value
        → State
        → Outcome SoftDeleteError (Bool × State)
    unfolding delete_query delete_update found_or_throw soft_deleted
    before_delete hard id query now user s =
        let r = find_one_and_update (delete_query key id query) (delete_update now user) s in
        if hard || not soft then returns (false, s) else soft_deleted (found_or_throw r)

    unfoldable pub restore :
        Value → Option (Object Value) → State → Outcome SoftDeleteError (D × State)
    unfolding delete_query restore_update found_or_throw
    restore id query s =
        found_or_throw (find_one_and_update (delete_query "_id" id query) restore_update s)
