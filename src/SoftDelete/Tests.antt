-- ===== src/SoftDelete/Tests.antt =====
-- A row in memory that is deleted and restored.
use mongokit.Prelude.{◌≡◌, refl, true, false, Option, none, some, [], ◌∷◌, str_eq, if◌then◌else◌}
use mongokit.Js.Object.{Object, get, has, put, spread}
use mongokit.Js.Value.{Value, undefined, null, str, fields, object, is_operator}
use mongokit.Mongo.Memory.{clause, holds, same, satisfies, satisfies_all, is_there_as}
use mongokit.Mongo.Memory.Store.{Document, Collection, documents, at}
use mongokit.Mongo.Memory.Instance.{collection}
use mongokit.SoftDelete.{
  SoftDeleteOptions, FilterMode, null_mode, exists_mode, deleted, or_empty,
  build_deletion_state_filter, inject_delete_filter, before_delete, restore, delete_query,
  delete_update, restore_update, found_or_throw, soft_deleted,
}
use mongokit.SoftDelete.Laws.{IsNullable, before_delete-hides}
use mongokit.SoftDelete.Restored.{restore-shows, restore-limbo}

abbrev options : FilterMode → SoftDeleteOptions
options mode = record {
  deleted_field = "deletedAt";
  deleted_by_field = "deletedBy";
  filter_mode = mode;
  soft = true;
}

documents-IsNullable : IsNullable documents
unfolding clause satisfies_all satisfies same is_there_as object fields
documents-IsNullable = record {
  same-null = refl;
  same-date-null = λ n. refl;
  clause-exists_null = λ k d o e. rw e refl;
  clause-exists_date = λ k d n o e. rw e refl;
  clause-exists_not_null = λ k d o e. rw e refl;
  clause-exists_deleted = λ k d n o e. rw e refl;
}

abbrev row : Document
row f =
    if str_eq f "_id"
    then str "u1"
    else if str_eq f "org"
    then str "acme"
    else if str_eq f "deletedAt"
    then null
    else undefined

abbrev rows : Collection
rows k = if str_eq k "u1" then some row else none

-- The call's own condition, as another plugin put it.
abbrev in_org : Option (Object Value)
in_org = some (("org", str "acme") ∷ [])

abbrev after_delete : FilterMode → Collection
after_delete mode =
    ((collection "_id").find_one_and_update (delete_query "_id" (str "u1") in_org)
      (delete_update (options mode) 7 none) rows).1

before_delete-hides_example :
    (d : Document) × (at "_id" "u1" (after_delete null_mode) ≡ some d)
    × (documents.holds (or_empty (inject_delete_filter (options null_mode) false in_org)) d ≡ false)
    × (documents.holds (build_deletion_state_filter "deletedAt" null_mode deleted) d ≡ true)
unfolding before_delete delete_query delete_update found_or_throw soft_deleted at holds clause
    satisfies_all satisfies same is_operator has spread put get fields
before_delete-hides_example =
    before_delete-hides documents documents-IsNullable (options null_mode) (collection "_id") "u1"
      in_org in_org 7 none rows (after_delete null_mode) refl refl refl refl refl refl

abbrev restored : FilterMode → Option Document × Collection
restored mode =
    (collection "_id").find_one_and_update (delete_query "_id" (str "u1") in_org)
      (restore_update (options mode)) (after_delete mode)

abbrev row_of : Option Document → Document
row_of none = row
row_of (some d) = d

abbrev restored_row : FilterMode → Document
restored_row mode = row_of (restored mode).0

restore-shows_example :
    (at "_id" "u1" (restored null_mode).1 ≡ some (restored_row null_mode))
    × (documents.holds
          (or_empty (inject_delete_filter (options null_mode) false in_org))
          (restored_row null_mode)
        ≡ documents.holds (or_empty in_org) (restored_row null_mode))
    × (documents.holds
          (build_deletion_state_filter "deletedAt" null_mode deleted)
          (restored_row null_mode)
        ≡ false)
unfolding restore delete_query delete_update restore_update found_or_throw at holds clause
    satisfies_all satisfies same is_operator has spread put get fields
restore-shows_example =
    restore-shows documents documents-IsNullable (options null_mode) (collection "_id") "u1" in_org
      in_org (after_delete null_mode) (restored null_mode).1 _ refl refl refl refl refl refl refl
      refl

restore-limbo_example :
    (at "_id" "u1" (restored exists_mode).1 ≡ some (restored_row exists_mode))
    × (documents.holds
          (or_empty (inject_delete_filter (options exists_mode) false in_org))
          (restored_row exists_mode)
        ≡ false)
    × (documents.holds
          (build_deletion_state_filter "deletedAt" exists_mode deleted)
          (restored_row exists_mode)
        ≡ false)
unfolding restore delete_query delete_update restore_update found_or_throw at holds clause
    satisfies_all satisfies same is_operator has spread put get fields
restore-limbo_example =
    restore-limbo documents documents-IsNullable (options exists_mode) (collection "_id") "u1"
      in_org in_org (after_delete exists_mode) (restored exists_mode).1 _ refl refl refl refl refl
      refl refl
