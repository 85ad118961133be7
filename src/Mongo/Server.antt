-- ===== src/Mongo/Server.antt =====
-- The commands of one collection that the source uses for compare-and-set: an interface with
-- MongoDB's documented behaviour. Each command is atomic. Only commands whose filter pins the unique
-- field `key` are described. Lost connections are not.
use mongokit.Prelude.{
  ℕ, ltb, String, ◌≡◌, ◌≢◌, Bool, true, false, Option, none, some, List, [], ◌∷◌, any, str_eq,
  if◌then◌else◌, Outcome, returns, throws,
}
use mongokit.Js.Object.{Object, get, has}
use mongokit.Js.Value.{ℤ, Value, undefined, str, date}
use mongokit.Mongo.{Matching}

-- `{ $set, $setOnInsert, $unset, $inc }`
pub record Update : Type 0 where
  pub set : Object Value
  pub set_on_insert : Object Value
  pub unset : List String
  pub inc : Object ℤ

pub data ServerError : Type 0 where
  duplicate_key other : ServerError

abbrev pub is_named : List String → String → Bool
is_named names f = any (λ n. str_eq n f) names

-- The document that a filter selects, given the one with the pinned key.
abbrev pub select {ℓ} : {D : Type ℓ} → (D → Bool) → Option D → Option D
select p none = none
select p (some d) = if p d then some d else none

abbrev pub or_kept {ℓ} : {D : Type ℓ} → Option D → Option D → Option D
or_kept none d = d
or_kept (some e) d = some e

abbrev pub mapped {ℓ κ} : {A : Type ℓ} {B : Type κ} → (A → B) → Option A → Option B
mapped f none = none
mapped f (some a) = some (f a)

-- With `upsert`: the selected document updated, or one inserted; if there is a document with the
-- key that the filter does not select, inserting fails.
abbrev pub upserted {ℓ} :
    {D : Type ℓ} → (D → D) → D → Option D → Option D → Outcome ServerError (Option D)
upserted f fresh (some d) at_key = returns (some (f d))
upserted f fresh none none = returns (some fresh)
upserted f fresh none (some d) = throws duplicate_key

abbrev pub kept_by {ℓ} : {D : Type ℓ} → Outcome ServerError (Option D) → Option D → Option D
kept_by (returns (some d)) e = some d
kept_by _ e = e

abbrev pub without {ℓ} : {D : Type ℓ} → Option D → Option D → Option D
without none d = d
without (some e) d = none

-- An update that leaves a field alone.
abbrev pub Spares : Update → String → Type 0
Spares u f = (has f u.set ≡ false) × (has f u.inc ≡ false) × (is_named u.unset f ≡ false)

-- `getOrCreate`'s command: the document there is, or the new one, and whether it is new.
abbrev pub found_or {ℓ} : {D : Type ℓ} → D → Option D → D × Bool
found_or fresh none = (fresh, true)
found_or fresh (some d) = (d, false)

abbrev pub count_of {ℓ} : {D : Type ℓ} → Option D → ℕ
count_of none = 0
count_of (some d) = 1

pub record Server {D : Type 0} (m : Matching D) (key : String) : Type 1 where
  pub State : Type 0
  pub at : String → State → Option D
  pub updated : Update → D → D
  pub inserted : Object Value → Update → D
  -- With `returnDocument: 'after'`, without and with `upsert: true`.
  pub find_one_and_update : Object Value → Update → State → Option D × State
  pub find_one_and_upsert : Object Value → Update → State → Outcome ServerError (Option D) × State
  pub find_one_and_delete : Object Value → State → Option D × State
  pub delete_many : Object Value → State → ℕ × State
  -- `findOneAndUpdate(query, { $setOnInsert: data }, { upsert: true, includeResultMetadata: true })`
  pub created_from : Object Value → Object Value → D
  pub get_or_create : Object Value → Object Value → State → (D × Bool) × State
  pub value_at-key : (s : State) (v : String) (d : D) → at v s ≡ some d → m.value_at key d ≡ str v
  pub value_at-updated-set :
      (u : Update) (d : D) (f : String) (v : Value)
      → get f u.set ≡ some v
      → m.value_at f (updated u d) ≡ v
  pub value_at-updated-unset :
      (u : Update) (d : D) (f : String)
      → has f u.set ≡ false
      → has f u.inc ≡ false
      → is_named u.unset f ≡ true
      → m.value_at f (updated u d) ≡ undefined
  pub value_at-created_from :
      (q o : Object Value) (f : String) (v : Value)
      → get f o ≡ some v
      → m.value_at f (created_from q o) ≡ v
  pub value_at-updated-other :
      (u : Update) (d : D) (f : String) → Spares u f → m.value_at f (updated u d) ≡ m.value_at f d
  pub value_at-inserted :
      (q : Object Value) (u : Update) (f : String) (v : Value)
      → get f u.set ≡ some v
      → m.value_at f (inserted q u) ≡ v
  pub find_one_and_update-reply :
      (q : Object Value) (u : Update) (s : State) (v : String)
      → get key q ≡ some (str v)
      → (find_one_and_update q u s).0 ≡ mapped (updated u) (select (m.holds q) (at v s))
  pub at-find_one_and_update :
      (q : Object Value) (u : Update) (s : State) (v : String)
      → get key q ≡ some (str v)
      → Spares u key
      → at v (find_one_and_update q u s).1 ≡ or_kept (find_one_and_update q u s).0 (at v s)
  pub at-find_one_and_update-other :
      (q : Object Value) (u : Update) (s : State) (v w : String)
      → get key q ≡ some (str v)
      → Spares u key
      → v ≢ w
      → at w (find_one_and_update q u s).1 ≡ at w s
  pub find_one_and_upsert-reply :
      (q : Object Value) (u : Update) (s : State) (v : String)
      → get key q ≡ some (str v)
      → (find_one_and_upsert q u s).0
        ≡ upserted (updated u) (inserted q u) (select (m.holds q) (at v s)) (at v s)
  pub at-find_one_and_upsert :
      (q : Object Value) (u : Update) (s : State) (v : String)
      → get key q ≡ some (str v)
      → Spares u key
      → at v (find_one_and_upsert q u s).1 ≡ kept_by (find_one_and_upsert q u s).0 (at v s)
  pub at-find_one_and_upsert-other :
      (q : Object Value) (u : Update) (s : State) (v w : String)
      → get key q ≡ some (str v)
      → Spares u key
      → v ≢ w
      → at w (find_one_and_upsert q u s).1 ≡ at w s
  pub find_one_and_delete-reply :
      (q : Object Value) (s : State) (v : String)
      → get key q ≡ some (str v)
      → (find_one_and_delete q s).0 ≡ select (m.holds q) (at v s)
  pub at-find_one_and_delete :
      (q : Object Value) (s : State) (v : String)
      → get key q ≡ some (str v)
      → at v (find_one_and_delete q s).1 ≡ without (find_one_and_delete q s).0 (at v s)
  pub at-find_one_and_delete-other :
      (q : Object Value) (s : State) (v w : String)
      → get key q ≡ some (str v)
      → v ≢ w
      → at w (find_one_and_delete q s).1 ≡ at w s
  pub delete_many-reply :
      (q : Object Value) (s : State) (v : String)
      → get key q ≡ some (str v)
      → (delete_many q s).0 ≡ count_of (select (m.holds q) (at v s))
  pub at-delete_many :
      (q : Object Value) (s : State) (v : String)
      → get key q ≡ some (str v)
      → at v (delete_many q s).1 ≡ without (select (m.holds q) (at v s)) (at v s)
  pub get_or_create-reply :
      (o : Object Value) (s : State) (v : String)
      → get key o ≡ some (str v)
      → (get_or_create ((key, str v) ∷ []) o s).0
        ≡ found_or (created_from ((key, str v) ∷ []) o) (at v s)
  pub at-get_or_create :
      (o : Object Value) (s : State) (v : String)
      → get key o ≡ some (str v)
      → at v (get_or_create ((key, str v) ∷ []) o s).1
        ≡ some (get_or_create ((key, str v) ∷ []) o s).0.0

-- How the order and the equality of filters read dates and strings.
pub record IsStandard {D : Type 0} (m : Matching D) : Type 0 where
  pub below-date : (a b : ℕ) → m.below (date a) (date b) ≡ ltb a b
  pub same-str : (a b : String) → m.same (str a) (str b) ≡ str_eq a b
