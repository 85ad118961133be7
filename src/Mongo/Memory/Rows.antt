-- ===== src/Mongo/Memory/Rows.antt =====
-- A list of documents in memory as the rows of a collection whose commands do not fail.
use mongokit.Prelude.{◌≡◌, refl, none, some, List, take, filter, returns, String}
use mongokit.Js.Object.{Object, get}
use mongokit.Js.Value.{Value}
use mongokit.Mongo.Rows.{Rows, edited, applied}
use mongokit.Mongo.Memory.Store.{Document, documents, set_or}

abbrev pub set_on : Object Value → Document → Document
set_on o d f = set_or (get f o) (d f)

pub set_on-other :
    (o : Object Value) (f : String) (d : Document) → get f o ≡ none → set_on o d f ≡ d f
set_on-other o f d h = rw h refl

abbrev pub list_rows : Rows documents
list_rows = record {
  State = List Document;
  rows = λ s. s;
  find = λ q n s. take n (filter (λ d. documents.holds q d) s);
  delete_many = λ q s. (returns tt, edited (λ d. documents.holds q d) (λ d. none) s);
  update_many = λ q o s. (returns tt, edited (λ d. documents.holds q d) (λ d. some (set_on o d)) s);
  bulk_write = λ ops s. (returns tt, applied documents set_on ops s);
  set_on = set_on;
  find-eq = λ q n s h. refl;
  rows-delete_many = λ q s h. refl;
  rows-update_many = λ q o s h. refl;
  rows-bulk_write = λ ops s a h. refl;
  value_at-set_on = set_on-other;
}
