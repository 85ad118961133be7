-- ===== src/Mongo/Memory.antt =====
-- MongoDB in memory: documents as functions from names to values, and a filter evaluated on them by
-- recursion. It stands in for the server where a theorem is applied at concrete data.
pub mod Order
pub mod Store
pub mod Commands
pub mod Instance
pub mod Extended
pub mod Strict
pub mod Rows
use mongokit.Prelude.{
  Bool-cases, inl, inr, subst, eq_iff, String, ◌≡◌, refl, Bool, true, false, not, ◌&&◌, ◌||◌, List,
  [], ◌∷◌, any, every, arith, ltb, ◌==◌, str_eq, if◌then◌else◌,
}
use mongokit.Js.Object.{Object}
use mongokit.Js.Value.{
  Value, undefined, null, bool, num, str, oid, date, arr, obj, Items, no_items, item, Fields, end,
  field, fields, object, objects, int_eq, is_operator,
}
use mongokit.Mongo.{Matching, IsLiteral, operator}
use Order.{below}

unfoldable pub same : Value → Value → Bool
unfolding int_eq
same null null = true
same (bool true) (bool b) = b
same (bool false) (bool b) = not b
same (num a) (num b) = int_eq a b
same (str a) (str b) = str_eq a b
same (oid a) (oid b) = str_eq a b
same (date a) (date b) = a == b
same _ _ = false

-- The values of an array, of which one is the same.
unfoldable pub member : Items → Value → Bool
unfolding same
member no_items w = false
member (item v xs) w = same w v || member xs w

unfoldable pub is_in : Value → Value → Bool
unfolding member
is_in (arr xs) w = member xs w
is_in v w = false

-- Is a value there, or not, as a Boolean says?
unfoldable pub is_there_as : Value → Value → Bool
is_there_as (bool b) undefined = not b
is_there_as (bool b) w = b
is_there_as v w = false

-- `{ $gt: v }` and the like, on a stored value. A regular expression is taken as its own text.
unfoldable pub satisfies : String → Value → Value → Bool
satisfies op v w =
    if str_eq op "$gt"
    then below v w
    else if str_eq op "$lt"
    then below w v
    else if str_eq op "$lte"
    then below w v || same w v
    else if str_eq op "$ne"
    then not (same w v)
    else if str_eq op "$gte"
    then below v w || same w v
    else if str_eq op "$in"
    then is_in v w
    else if str_eq op "$nin"
    then not (is_in v w)
    else if str_eq op "$regex"
    then same w v
    else if str_eq op "$exists"
    then is_there_as v w
    else str_eq op "$options"

unfoldable pub satisfies_all : Fields → Value → Bool
satisfies_all end w = true
satisfies_all (field op v r) w = satisfies op v w && satisfies_all r w

not_expr : (k : String) → is_operator k ≡ false → str_eq k "$expr" ≡ false
unfolding is_operator
not_expr k o = elim (Bool-cases (str_eq k "$expr")) [
  | inl e ↦ absurd (cc (subst (λ x. is_operator x ≡ false) ((eq_iff k "$expr").0 e) o))
  | inr e ↦ e
]

module _ {D : Type 0} (value_at : String → D → Value) where
  unfoldable mutual
    pub clause : Value → String → D → Bool
    clause (arr xs) k d =
        if str_eq k "$or"
        then any_item xs d
        else if str_eq k "$and"
        then every_item xs d
        else if str_eq k "$nor"
        then not (any_item xs d)
        else false
    clause (obj f) k d = satisfies_all f (value_at k d)
    clause (bool b) k d = if str_eq k "$expr" then b else same (value_at k d) (bool b)
    clause v k d = same (value_at k d) v

    pub selects : Value → D → Bool
    selects (obj f) d = every_field f d
    selects v d = false

    pub any_item : Items → D → Bool
    any_item no_items d = false
    any_item (item v xs) d = selects v d || any_item xs d

    pub every_item : Items → D → Bool
    every_item no_items d = true
    every_item (item v xs) d = selects v d && every_item xs d

    pub every_field : Fields → D → Bool
    every_field end d = true
    every_field (field k v r) d = clause v k d && every_field r d

  unfoldable pub holds : Object Value → D → Bool
  unfolding fields clause
  holds q d = every_field (fields q) d

  any_item-objects :
      (qs : List (Object Value)) (d : D) → any_item (objects qs) d ≡ any (λ q. holds q d) qs
  unfolding clause objects object holds
  any_item-objects [] d = refl
  any_item-objects (q ∷ qs) d = λ i. holds q d || any_item-objects qs d i

  every_item-objects :
      (qs : List (Object Value)) (d : D) → every_item (objects qs) d ≡ every (λ q. holds q d) qs
  unfolding clause objects object holds
  every_item-objects [] d = refl
  every_item-objects (q ∷ qs) d = λ i. holds q d && every_item-objects qs d i

  pub clause-literal :
      (k : String) (v : Value) (d : D)
      → is_operator k ≡ false
      → IsLiteral v
      → clause v k d ≡ same (value_at k d) v
  unfolding clause
  clause-literal k undefined d o l = absurd l
  clause-literal k null d o l = refl
  clause-literal k (bool b) d o l = rw (not_expr k o) refl
  clause-literal k (num n) d o l = refl
  clause-literal k (str s) d o l = refl
  clause-literal k (oid s) d o l = refl
  clause-literal k (date n) d o l = refl
  clause-literal k (arr xs) d o l = absurd l
  clause-literal k (obj f) d o l = absurd l

  pub clause-gt :
      (k : String) (v : Value) (d : D) → clause (operator "$gt" v) k d ≡ below v (value_at k d)
  unfolding clause satisfies_all satisfies object fields
  clause-gt k v d = ground arith

  pub clause-lt :
      (k : String) (v : Value) (d : D) → clause (operator "$lt" v) k d ≡ below (value_at k d) v
  unfolding clause satisfies_all satisfies object fields
  clause-lt k v d = ground arith

  pub clause-ne :
      (k : String) (v : Value) (d : D) → clause (operator "$ne" v) k d ≡ not (same (value_at k d) v)
  unfolding clause satisfies_all satisfies object fields
  clause-ne k v d = ground arith

  pub holds-cons :
      (k : String) (v : Value) (q : Object Value) (d : D)
      → holds ((k, v) ∷ q) d ≡ (clause v k d && holds q d)
  unfolding holds
  holds-cons k v q d = refl

  pub holds-nil : (d : D) → holds [] d ≡ true
  unfolding holds
  holds-nil d = refl

  pub clause-or :
      (qs : List (Object Value)) (d : D)
      → clause (arr (objects qs)) "$or" d ≡ any (λ q. holds q d) qs
  unfolding clause
  clause-or = any_item-objects

  pub clause-and :
      (qs : List (Object Value)) (d : D)
      → clause (arr (objects qs)) "$and" d ≡ every (λ q. holds q d) qs
  unfolding clause
  clause-and = every_item-objects

  pub clause-nor :
      (qs : List (Object Value)) (d : D)
      → clause (arr (objects qs)) "$nor" d ≡ not (any (λ q. holds q d) qs)
  unfolding clause
  clause-nor qs d = λ i. not (any_item-objects qs d i)

  abbrev pub matching : Matching D
  matching = record {
    holds = holds;
    clause = λ k v d. clause v k d;
    value_at = value_at;
    same = same;
    below = below;
    holds-nil = holds-nil;
    holds-cons = holds-cons;
    clause-or = clause-or;
    clause-and = clause-and;
    clause-nor = clause-nor;
    clause-eq = λ k v d o l. clause-literal k v d o l;
    clause-gt = λ k v d o. clause-gt k v d;
    clause-lt = λ k v d o. clause-lt k v d;
    clause-ne = λ k v d o l. clause-ne k v d;
  }
