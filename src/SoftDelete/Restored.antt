-- ===== src/SoftDelete/Restored.antt =====
-- What a restored row is to reads: live, or with the filter mode `exists` in neither view.
use mongokit.Prelude.{
  String, ◌≡◌, refl, ◌∙◌, true, false, Option, some, [], ◌∷◌, str_eq, eq_refl, returns,
}
use mongokit.Js.Object.{Object, get, has}
use mongokit.Js.Object.Laws.{put_new}
use mongokit.Js.Value.{Value, null, str, is_operator}
use mongokit.Mongo.{Matching, operator}
use mongokit.Mongo.Clauses.{holds-append}
use mongokit.Mongo.Server.{Server}
use mongokit.SoftDelete.{
  SoftDeleteOptions, null_mode, exists_mode, deleted, or_empty, condition,
  build_deletion_state_filter, inject_delete_filter, delete_query, restore_update, restore,
}
use mongokit.SoftDelete.Laws.{
  IsNullable, get-delete_query, and_true, injected_lem, hidden_lem, holds-state_filter, found_lem,
}

module _ {D : Type 0} (m : Matching D) (nullable : IsNullable m) (options : SoftDeleteOptions) where
  open options use {deleted_field, deleted_by_field, filter_mode, soft}

  module _ (server : Server m "_id") where
    open server use {State, at, updated}

    -- The row that `restore` gives back, and what its deletion field holds.
    restored_lem :
        (id : String) (query : Option (Object Value)) (s t : State) (d : D)
        → str_eq deleted_field "_id" ≡ false
        → str_eq deleted_by_field "_id" ≡ false
        → has "_id" (or_empty query) ≡ false
        → restore options server (str id) query s ≡ returns (d, t)
        → (at id t ≡ some d) × (m.value_at deleted_field d ≡ null)
    unfolding restore restore_update get has
    restored_lem id query s t d a b n h =
        let u = restore_update options in
        let (e, p, r) =
          found_lem m nullable options server (delete_query "_id" (str id) query) u s t id d
            (get-delete_query "_id" (str id) query n) (rw (a, b) refl, refl, refl) h in
        (r, rw p (server.value_at-updated-set u e deleted_field null (rw eq_refl refl)))

    -- Where soft deletion is on and its field is no operator: a row that `restore` gives back is
    -- there, and with the default filter mode it is live, so a read that says nothing of the
    -- deletion field selects it exactly if its own filter does, and the filter of the deleted rows
    -- does not. The condition of the call does not name `_id`, which is no field of the plugin.
    pub restore-shows :
        (id : String) (query q : Option (Object Value)) (s t : State) (d : D)
        → soft ≡ true
        → filter_mode ≡ null_mode
        → is_operator deleted_field ≡ false
        → str_eq deleted_field "_id" ≡ false
        → str_eq deleted_by_field "_id" ≡ false
        → has "_id" (or_empty query) ≡ false
        → has deleted_field (or_empty q) ≡ false
        → restore options server (str id) query s ≡ returns (d, t)
        → (at id t ≡ some d)
          × (m.holds (or_empty (inject_delete_filter options false q)) d ≡ m.holds (or_empty q) d)
          × (m.holds (build_deletion_state_filter deleted_field filter_mode deleted) d ≡ false)
    unfolding condition
    restore-shows id query q s t d o f l a b n k h =
        let (r, v) = restored_lem id query s t d a b n h in
        let shown : m.clause deleted_field null d ≡ true =
          m.clause-eq deleted_field null d l tt ∙ rw (v, nullable.same-null) refl in
        let gone : m.clause deleted_field (operator "$ne" null) d ≡ false =
          m.clause-ne deleted_field null d l tt ∙ rw (v, nullable.same-null) refl in
        (
          r,
          rw (injected_lem m nullable options q o, f, put_new deleted_field null (or_empty q) k)
              (holds-append m (or_empty q) ((deleted_field, null) ∷ []) d
                ∙ rw (m.holds-cons, m.holds-nil, shown) (and_true _)),
          rw f (holds-state_filter m nullable options null_mode d ∙ gone),
        )

    -- Where soft deletion is on, its field is no operator and the filter mode is `exists`: a row
    -- that `restore` gives back is in neither view. Its field is null and not absent, so no read
    -- with the delete filter selects it, whatever else it asks for, and neither does the filter of
    -- the deleted rows. The condition of the call does not name `_id`, which is no field of the
    -- plugin.
    pub restore-limbo :
        (id : String) (query q : Option (Object Value)) (s t : State) (d : D)
        → soft ≡ true
        → filter_mode ≡ exists_mode
        → is_operator deleted_field ≡ false
        → str_eq deleted_field "_id" ≡ false
        → str_eq deleted_by_field "_id" ≡ false
        → has "_id" (or_empty query) ≡ false
        → restore options server (str id) query s ≡ returns (d, t)
        → (at id t ≡ some d)
          × (m.holds (or_empty (inject_delete_filter options false q)) d ≡ false)
          × (m.holds (build_deletion_state_filter deleted_field filter_mode deleted) d ≡ false)
    unfolding condition
    restore-limbo id query q s t d o f l a b n h =
        let (r, v) = restored_lem id query s t d a b n h in
        (
          r,
          hidden_lem m nullable options q d o
              (rw f (nullable.clause-exists_null deleted_field d l v)),
          rw f (
              holds-state_filter m nullable options exists_mode d
              ∙ nullable.clause-exists_not_null deleted_field d l v),
        )
