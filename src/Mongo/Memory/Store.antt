-- ===== src/Mongo/Memory/Store.antt =====
-- A collection in memory whose field `key` is unique: at each key, the document there.
use mongokit.Prelude.{
  ℕ, ◌+◌, String, Bool, true, Option, none, some, str_eq, if◌then◌else◌, Outcome, returns, throws,
}
use mongokit.Js.Object.{Object, get}
use mongokit.Js.Value.{ℤ, pos, Value, undefined, num, str}
use mongokit.Mongo.{Matching}
use mongokit.Mongo.Server.{
  Update, ServerError, is_named, select, mapped, upserted, found_or, count_of,
}
use mongokit.Mongo.Memory.{matching}

abbrev pub Document : Type 0
Document = String → Value

abbrev pub value_at : String → Document → Value
value_at f d = d f

abbrev pub documents : Matching Document
documents = matching value_at

abbrev pub Collection : Type 0
Collection = String → Option Document

-- A natural number, or nothing, is incremented by a natural number; any other value is left.
abbrev pub incremented : Option ℤ → Value → Value
incremented (some (pos n)) (num (pos m)) = num (pos (m + n))
incremented (some (pos n)) undefined = num (pos n)
incremented _ v = v

abbrev pub set_or : Option Value → Value → Value
set_or none v = v
set_or (some w) v = w

abbrev pub updated : Update → Document → Document
updated u d f =
    set_or (get f u.set) (if is_named u.unset f then undefined else incremented (get f u.inc) (d f))

abbrev pub inserted : Object Value → Update → Document
inserted q u f = set_or (get f u.set) (set_or (get f q) (set_or (get f u.set_on_insert) undefined))

abbrev pub created_from : Object Value → Object Value → Document
created_from q o f = set_or (get f o) (set_or (get f q) undefined)

abbrev pub text_of : Option Value → Option String
text_of (some (str v)) = some v
text_of _ = none

module _ (key : String) where
  abbrev pub pinned : String → Document → Document
  pinned v d f = if str_eq key f then str v else d f

  unfoldable pub at : String → Collection → Option Document
  at v s = mapped (pinned v) (s v)

  abbrev pub store : String → Option Document → Collection → Collection
  store v d s w = if str_eq v w then d else s w

  -- A reply that holds a document leaves that document in its place.
  abbrev pub keep : Option String → Option Document → Collection → Collection
  keep (some v) (some d) s = store v (some d) s
  keep _ _ s = s

  abbrev pub reply_doc : Outcome ServerError (Option Document) → Option Document
  reply_doc (returns d) = d
  reply_doc (throws e) = none

  abbrev pub target : Object Value → Option String
  target q = text_of (get key q)

  abbrev pub found_at : Object Value → Option String → Collection → Option Document
  found_at q none s = none
  found_at q (some v) s = select (documents.holds q) (at v s)

  abbrev pub found : Object Value → Collection → Option Document
  found q s = found_at q (target q) s

  abbrev pub found_one_and_updated :
      Object Value → Update → Collection → Option Document × Collection
  found_one_and_updated q u s = let r = mapped (updated u) (found q s) in (r, keep (target q) r s)

  abbrev pub upserted_at :
      Object Value → Update → Option String → Collection → Outcome ServerError (Option Document)
  upserted_at q u none s = returns none
  upserted_at q u (some v) s =
      upserted (updated u) (inserted q u) (select (documents.holds q) (at v s)) (at v s)

  abbrev pub found_one_and_upserted :
      Object Value → Update → Collection → Outcome ServerError (Option Document) × Collection
  found_one_and_upserted q u s =
      let r = upserted_at q u (target q) s in (r, keep (target q) (reply_doc r) s)

  abbrev pub removed_at : Option String → Option Document → Collection → Collection
  removed_at (some v) (some d) s = store v none s
  removed_at _ _ s = s

  abbrev pub found_one_and_deleted : Object Value → Collection → Option Document × Collection
  found_one_and_deleted q s = let r = found q s in (r, removed_at (target q) r s)

  abbrev pub got_or_created_at :
      Object Value → Object Value → Option String → Collection → (Document × Bool) × Collection
  got_or_created_at q o none s = ((created_from q o, true), s)
  got_or_created_at q o (some v) s =
      let r = found_or (created_from q o) (at v s) in (r, store v (some r.0) s)

  abbrev pub got_or_created :
      Object Value → Object Value → Collection → (Document × Bool) × Collection
  got_or_created q o s = got_or_created_at q o (target q) s

  abbrev pub deleted_many : Object Value → Collection → ℕ × Collection
  deleted_many q s = let r = found q s in (count_of r, removed_at (target q) r s)
