-- ===== src/Mongo/Memory/Instance.antt =====
-- The collection in memory as a server, and its order as a standard one.
use mongokit.Prelude.{String, ◌≡◌, refl, true, false, some}
use mongokit.Js.Object.{Object, get, has}
use mongokit.Js.Object.Laws.{get_absent}
use mongokit.Js.Value.{Value, undefined}
use mongokit.Mongo.Server.{Server, Update, IsStandard, is_named, Spares}
use mongokit.Mongo.Memory.{same}
use mongokit.Mongo.Memory.Order.{below}
use mongokit.Mongo.Memory.Store.{
  Document, Collection, documents, updated, inserted, created_from, at, found_one_and_updated,
  found_one_and_upserted, found_one_and_deleted, got_or_created, deleted_many,
}
use mongokit.Mongo.Memory.Commands.{
  at-key, find_one_and_update-reply, at-find_one_and_update, at-find_one_and_update-other,
  find_one_and_upsert-reply, at-find_one_and_upsert, at-find_one_and_upsert-other,
  find_one_and_delete-reply, at-find_one_and_delete, at-find_one_and_delete-other,
  delete_many-reply, at-delete_many, get_or_create-reply, at-get_or_create,
}

pub updated-set :
    (u : Update) (d : Document) (f : String) (v : Value) → get f u.set ≡ some v → updated u d f ≡ v
updated-set u d f v h = rw h refl

pub updated-unset :
    (u : Update) (d : Document) (f : String)
    → has f u.set ≡ false
    → is_named u.unset f ≡ true
    → updated u d f ≡ undefined
updated-unset u d f h n = rw (get_absent f u.set h, n) refl

pub updated-other : (u : Update) (d : Document) (f : String) → Spares u f → updated u d f ≡ d f
updated-other u d f (a, b, c) = rw (get_absent f u.set a, c, get_absent f u.inc b) refl

pub created_from-given :
    (q o : Object Value) (f : String) (v : Value) → get f o ≡ some v → created_from q o f ≡ v
created_from-given q o f v h = rw h refl

pub inserted-set :
    (q : Object Value) (u : Update) (f : String) (v : Value)
    → get f u.set ≡ some v
    → inserted q u f ≡ v
inserted-set q u f v h = rw h refl

abbrev pub collection : (key : String) → Server documents key
collection key = record {
  State = Collection;
  at = at key;
  updated = updated;
  inserted = inserted;
  find_one_and_update = found_one_and_updated key;
  find_one_and_upsert = found_one_and_upserted key;
  find_one_and_delete = found_one_and_deleted key;
  delete_many = deleted_many key;
  created_from = created_from;
  get_or_create = got_or_created key;
  value_at-key = at-key key;
  value_at-updated-set = updated-set;
  value_at-updated-unset = λ u d f a b c. updated-unset u d f a c;
  value_at-created_from = created_from-given;
  value_at-updated-other = updated-other;
  value_at-inserted = inserted-set;
  find_one_and_update-reply = find_one_and_update-reply key;
  at-find_one_and_update = at-find_one_and_update key;
  at-find_one_and_update-other = at-find_one_and_update-other key;
  find_one_and_upsert-reply = find_one_and_upsert-reply key;
  at-find_one_and_upsert = at-find_one_and_upsert key;
  at-find_one_and_upsert-other = at-find_one_and_upsert-other key;
  find_one_and_delete-reply = find_one_and_delete-reply key;
  at-find_one_and_delete = at-find_one_and_delete key;
  at-find_one_and_delete-other = at-find_one_and_delete-other key;
  delete_many-reply = delete_many-reply key;
  at-delete_many = at-delete_many key;
  get_or_create-reply = get_or_create-reply key;
  at-get_or_create = at-get_or_create key;
}

pub documents-IsStandard : IsStandard documents
unfolding below same
documents-IsStandard = record { below-date = λ a b. refl; same-str = λ a b. refl }
