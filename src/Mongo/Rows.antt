-- ===== src/Mongo/Rows.antt =====
-- The rows of one collection under bulk commands: an interface with MongoDB's documented behaviour.
-- A write that throws may have changed any rows.
pub mod Laws
use mongokit.Prelude.{
  ℕ, ◌<◌, String, ◌≡◌, Bool, true, false, not, Option, none, some, List, [], ◌∷◌, map, take, filter,
  if◌then◌else◌, Outcome, returns, throws,
}
use mongokit.Js.Object.{Object, get}
use mongokit.Js.Value.{Value}
use mongokit.Mongo.{Matching, IsLiteral}

pub data CommandError : Type 0 where
  command_failed : CommandError

-- One `updateOne` of a bulk write: its filter, and what it sets.
pub record UpdateOne : Type 0 where
  pub filter_by : Object Value
  pub set : Object Value

abbrev pub put_if {ℓ} : {A : Type ℓ} → Option A → List A → List A
put_if none xs = xs
put_if (some x) xs = x ∷ xs

-- Each row becomes another, or none.
abbrev pub edit {ℓ} : {A : Type ℓ} → (A → Option A) → List A → List A
edit g [] = []
edit g (x ∷ xs) = put_if (g x) (edit g xs)

-- Only selected rows change.
abbrev pub chosen {ℓ} : {A : Type ℓ} → (A → Bool) → (A → Option A) → A → Option A
chosen p f x = if p x then f x else some x

abbrev pub edited {ℓ} : {A : Type ℓ} → (A → Bool) → (A → Option A) → List A → List A
edited p f = edit (chosen p f)

-- A filter that asks for one `_id`.
abbrev pub Pins : Object Value → Type 0
Pins q = (v : Value) × IsLiteral v × (get "_id" q ≡ some v)

abbrev pub AllPin : List UpdateOne → Type 0
AllPin [] = Unit
AllPin (op ∷ ops) = Pins op.filter_by × AllPin ops

module _ {D : Type 0} (m : Matching D) where
  -- Is a row behind another in the order of `_id`?
  abbrev pub past : D → D → Bool
  past c d = m.below (m.value_at "_id" c) (m.value_at "_id" d)

  abbrev pub applied : (Object Value → D → D) → List UpdateOne → List D → List D
  applied set_on [] rows = rows
  applied set_on (op ∷ ops) rows =
      applied set_on ops (edited (λ d. m.holds op.filter_by d) (λ d. some (set_on op.set d)) rows)

  pub record Rows : Type 1 where
    pub State : Type 0
    -- In ascending order of `_id`.
    pub rows : State → List D
    -- `find(filter).sort({ _id: 1 }).limit(n)`
    pub find : Object Value → ℕ → State → List D
    pub delete_many : Object Value → State → Outcome CommandError (Unit {0}) × State
    -- `updateMany(filter, { $set: … })`
    pub update_many : Object Value → Object Value → State → Outcome CommandError (Unit {0}) × State
    -- `bulkWrite(operations, { ordered: false })`
    pub bulk_write : List UpdateOne → State → Outcome CommandError (Unit {0}) × State
    -- What `$set` makes of a row.
    pub set_on : Object Value → D → D
    pub find-eq :
        (q : Object Value) (n : ℕ) (s : State)
        → 0 < n
        → find q n s ≡ take n (filter (λ d. m.holds q d) (rows s))
    pub rows-delete_many :
        (q : Object Value) (s : State)
        → (delete_many q s).0 ≡ returns tt
        → rows (delete_many q s).1 ≡ edited (λ d. m.holds q d) (λ d. none) (rows s)
    pub rows-update_many :
        (q o : Object Value) (s : State)
        → (update_many q o s).0 ≡ returns tt
        → rows (update_many q o s).1 ≡ edited (λ d. m.holds q d) (λ d. some (set_on o d)) (rows s)
    pub rows-bulk_write :
        (ops : List UpdateOne) (s : State)
        → AllPin ops
        → (bulk_write ops s).0 ≡ returns tt
        → rows (bulk_write ops s).1 ≡ applied set_on ops (rows s)
    pub value_at-set_on :
        (o : Object Value) (f : String) (d : D)
        → get f o ≡ none
        → m.value_at f (set_on o d) ≡ m.value_at f d
