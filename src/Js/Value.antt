-- ===== src/Js/Value.antt =====
-- JavaScript values: what filters, documents, updates and cursors are made of.
use Prim.Native.Char.{code}
use mongokit.Prelude.{ℕ, ◌==◌, ltb, true, false, String, Bool, List, [], ◌∷◌, ◌≡◌, refl}
use mongokit.Js.Object.{Object}

pub data ℤ : Type 0 where
  pos : ℕ → ℤ
  negsuc : ℕ → ℤ

mutual
  pub data Value : Type 0 where
    undefined null : Value
    bool : Bool → Value
    num : ℤ → Value
    str oid : String → Value
    date : ℕ → Value
    arr : Items → Value
    obj : Fields → Value

  pub data Fields : Type 0 where
    end : Fields
    field : String → Value → Fields → Fields

  pub data Items : Type 0 where
    no_items : Items
    item : Value → Items → Items

unfoldable pub fields : Object Value → Fields
fields [] = end
fields ((k, v) ∷ o) = field k v (fields o)

unfoldable pub entries : Fields → Object Value
entries end = []
entries (field k v r) = (k, v) ∷ entries r

-- An object, an array of objects, and an array of values, as values.
unfoldable pub object : Object Value → Value
unfolding fields
object o = obj (fields o)

unfoldable pub objects : List (Object Value) → Items
unfolding object
objects [] = no_items
objects (o ∷ os) = item (object o) (objects os)

unfoldable pub values : List Value → Items
values [] = no_items
values (v ∷ vs) = item v (values vs)

pub entries-fields : (o : Object Value) → entries (fields o) ≡ o
unfolding entries fields
entries-fields [] = refl
entries-fields ((k, v) ∷ o) = λ i. (k, v) ∷ entries-fields o i

unfoldable pub int_eq : ℤ → ℤ → Bool
int_eq (pos a) (pos b) = a == b
int_eq (negsuc a) (negsuc b) = a == b
int_eq _ _ = false

-- `key.startsWith('$')`: the names of MongoDB's operators.
unfoldable pub is_operator : String → Bool
is_operator String.[] = false
is_operator (String.◌∷◌ c s) = code c == b'$'

unfoldable pub int_lt : ℤ → ℤ → Bool
int_lt (pos a) (pos b) = ltb a b
int_lt (negsuc a) (negsuc b) = ltb b a
int_lt (negsuc a) (pos b) = true
int_lt (pos a) (negsuc b) = false
