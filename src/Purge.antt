-- ===== src/Purge.antt =====
-- src/actions/purge.ts and src/actions/archive.ts: writes to all rows that a filter selects, chunk by
-- chunk. The cursor of a port and the collection are its state. Times are arguments.
pub mod Chunk
pub mod Functional
pub mod Step
pub mod Left
pub mod Walk
pub mod Archive
mod Tests
use mongokit.Prelude.{
  ℕ, zero, suc, ◌+◌, String, Bool, true, false, ◌||◌, Option, none, some, List, [], ◌∷◌, map,
  length, last, if◌then◌else◌, Outcome, returns, throws,
}
use mongokit.Js.Object.{Object, put}
use mongokit.Js.Value.{Value, null, bool, date}
use mongokit.Mongo.{Matching}
use mongokit.Mongo.Rows.{Rows, UpdateOne, CommandError}
use mongokit.IdChunks.{is_nullish, keyset_filter, narrow_to_ids, select_keyset_chunk}

-- What a field is replaced by: a value, or a function of the row.
pub data Replacer (D : Type 0) : Type 0 where
  fixed : Value → Replacer D
  computed : (D → Value) → Replacer D

pub data Strategy (D : Type 0) : Type 0 where
  hard : Strategy D
  -- `deletedField` and `deletedAtField`
  soft : Option String → Option String → Strategy D
  anonymize : Object (Replacer D) → Strategy D

abbrev pub name_or : String → Option String → String
name_or d none = d
name_or d (some f) = f

unfoldable pub soft_set : Option String → Option String → ℕ → Object Value
unfolding put
soft_set deleted_field deleted_at_field now =
    put (name_or "deletedAt" deleted_at_field) (date now)
      ((name_or "deleted" deleted_field, bool true) ∷ [])

module _ {D : Type 0} where
  unfoldable pub is_computed : Replacer D → Bool
  is_computed (fixed v) = false
  is_computed (computed f) = true

  -- `Object.values(strategy.fields).some((v) => typeof v === 'function')`
  unfoldable pub has_fn : Object (Replacer D) → Bool
  unfolding is_computed
  has_fn [] = false
  has_fn ((k, r) ∷ fields) = is_computed r || has_fn fields

  unfoldable pub replaced : Replacer D → D → Value
  replaced (fixed v) d = v
  replaced (computed f) d = f d

  -- `for (const [k, v] of Object.entries(fields)) set[k] = …`, where `set` are the entries so far.
  unfoldable pub set_of : Object (Replacer D) → D → Object Value → Object Value
  unfolding replaced put
  set_of [] d set = set
  set_of ((k, r) ∷ fields) d set = set_of fields d (put k (replaced r d) set)

  -- The fields of the branch in which none is a function.
  unfoldable pub static_fields : Object (Replacer D) → Object Value
  static_fields [] = []
  static_fields ((k, fixed v) ∷ fields) = (k, v) ∷ static_fields fields
  static_fields ((k, computed f) ∷ fields) = static_fields fields

module _ {D : Type 0} {m : Matching D} (repo : Rows m) where
  open repo use {State, delete_many, update_many, bulk_write}

  abbrev pub id_of : D → Value
  id_of d = m.value_at "_id" d

  abbrev pub last_id : List D → Value
  last_id docs = elim (last docs) [ none ↦ null | some d ↦ id_of d ]

  -- `{ _id: doc._id }` and `{ $set: set }`
  unfoldable pub update_of : Object (Replacer D) → D → UpdateOne
  unfolding set_of
  update_of fields d = record { filter_by = ("_id", id_of d) ∷ []; set = set_of fields d [] }

  -- What is left of a chunk's write: how many rows, and the cursor.
  abbrev pub Chunk : Type 0
  Chunk = Outcome CommandError ℕ × Value × State

  -- The cursor moves only behind a write that succeeded.
  abbrev pub committed : ℕ → Value → Value → Outcome CommandError (Unit {0}) × State → Chunk
  committed n next cursor (returns x, s) = (returns n, next, s)
  committed n next cursor (throws e, s) = (throws e, cursor, s)

  unfoldable pub purge_anonymize_functional :
      Object (Replacer D) → List D → State → Outcome CommandError (Unit {0}) × State
  unfolding update_of
  purge_anonymize_functional fields docs s = bulk_write (map (update_of fields) docs) s

  -- The write of a chunk whose ids are already asserted.
  unfoldable pub write_chunk :
      Strategy D → ℕ → Object Value → State → Outcome CommandError (Unit {0}) × State
  unfolding soft_set static_fields
  write_chunk hard now chunk_filter s = delete_many chunk_filter s
  write_chunk (soft field at) now chunk_filter s =
      update_many chunk_filter (soft_set field at now) s
  write_chunk (anonymize fields) now chunk_filter s =
      update_many chunk_filter (static_fields fields) s

  -- `cursor = lastId` if there is one.
  unfoldable pub advanced : Value → Value → Value
  unfolding is_nullish
  advanced cursor last = if is_nullish last then cursor else last

  unfoldable pub is_functional : Strategy D → Bool
  unfolding has_fn
  is_functional (anonymize fields) = has_fn fields
  is_functional _ = false

  unfoldable pub functional_fields : Strategy D → Object (Replacer D)
  functional_fields (anonymize fields) = fields
  functional_fields _ = []

  -- The clock, read anew for each chunk in the source, is taken to stand still during a purge.
  module _ (base_filter : Object Value) (strategy : Strategy D) (now limit : ℕ) where
    unfoldable pub purge_docs : List D → Value → State → Chunk
    unfolding purge_anonymize_functional write_chunk narrow_to_ids is_functional functional_fields
        advanced
    purge_docs [] cursor s = (returns 0, cursor, s)
    purge_docs (d ∷ docs) cursor s =
        let n = length (d ∷ docs) in
        let last = last_id (d ∷ docs) in
        if is_functional strategy
        then committed n (advanced cursor last) cursor
            (purge_anonymize_functional (functional_fields strategy) (d ∷ docs) s)
        else committed n last cursor
            (write_chunk strategy now (narrow_to_ids base_filter (map id_of (d ∷ docs))) s)

    unfoldable pub purge_chunk : Value → State → Chunk
    unfolding select_keyset_chunk keyset_filter purge_docs
    purge_chunk cursor s =
        purge_docs (select_keyset_chunk repo (keyset_filter base_filter cursor) limit s) cursor s

  -- `createMongoPurgePort`: the equality-bound port's base filter.
  abbrev pub field_filter : String → Value → Object Value
  field_filter field value = (field, value) ∷ []

  unfoldable pub read_chunk : Object Value → ℕ → State → List D
  unfolding select_keyset_chunk
  read_chunk filter limit s = select_keyset_chunk repo filter limit s

  unfoldable pub delete_chunk :
      Object Value → List D → State → Outcome CommandError (Unit {0}) × State
  unfolding narrow_to_ids
  delete_chunk filter docs s = delete_many (narrow_to_ids filter (map id_of docs)) s
