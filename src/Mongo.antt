-- ===== src/Mongo.antt =====
-- MongoDB's side of the queries that the source builds: an interface with the documented behaviour
-- that the source relies on. No part of the server or the driver is modelled.
pub mod Server
pub mod Clauses
pub mod Operators
pub mod Rows
pub mod Memory
use mongokit.Prelude.{String, ◌≡◌, Bool, true, false, not, ◌&&◌, List, [], ◌∷◌, any, every}
use mongokit.Js.Object.{Object}
use mongokit.Js.Value.{Value, undefined, arr, obj, objects, object, is_operator}

-- Values that match literally as a filter value: not an operator object and not absent.
abbrev pub IsLiteral : Value → Type 0
IsLiteral undefined = ⊥
IsLiteral (obj f) = ⊥
IsLiteral (arr f) = ⊥
IsLiteral _ = Unit

-- `{ $op: v }`
abbrev pub operator : String → Value → Value
operator op v = object ((op, v) ∷ [])

pub record Matching (D : Type 0) : Type 0 where
  -- Does a filter select a document, and does one clause of a filter?
  pub holds : Object Value → D → Bool
  pub clause : String → Value → D → Bool
  -- What a document holds at a name, the equality of filters, and the order of `$lt` and `$gt`.
  pub value_at : String → D → Value
  pub same : Value → Value → Bool
  pub below : Value → Value → Bool
  -- A filter document is the conjunction of its clauses.
  pub holds-nil : (d : D) → holds [] d ≡ true
  pub holds-cons :
      (k : String) (v : Value) (q : Object Value) (d : D)
      → holds ((k, v) ∷ q) d ≡ (clause k v d && holds q d)
  pub clause-or :
      (qs : List (Object Value)) (d : D)
      → clause "$or" (arr (objects qs)) d ≡ any (λ q. holds q d) qs
  pub clause-and :
      (qs : List (Object Value)) (d : D)
      → clause "$and" (arr (objects qs)) d ≡ every (λ q. holds q d) qs
  pub clause-nor :
      (qs : List (Object Value)) (d : D)
      → clause "$nor" (arr (objects qs)) d ≡ not (any (λ q. holds q d) qs)
  pub clause-eq :
      (k : String) (v : Value) (d : D)
      → is_operator k ≡ false
      → IsLiteral v
      → clause k v d ≡ same (value_at k d) v
  pub clause-gt :
      (k : String) (v : Value) (d : D)
      → is_operator k ≡ false
      → clause k (operator "$gt" v) d ≡ below v (value_at k d)
  pub clause-lt :
      (k : String) (v : Value) (d : D)
      → is_operator k ≡ false
      → clause k (operator "$lt" v) d ≡ below (value_at k d) v
  pub clause-ne :
      (k : String) (v : Value) (d : D)
      → is_operator k ≡ false
      → IsLiteral v
      → clause k (operator "$ne" v) d ≡ not (same (value_at k d) v)
