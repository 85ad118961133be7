-- ===== src/Js/Object.antt =====
-- A JavaScript object (or `Map`) with string keys, as its entries in insertion order. Assignment to
-- a present key keeps the key's place; a new key goes to the end. (Integer-like keys, which engines
-- move to the front of an object, do not occur as field names or operators.)
pub mod Laws
use mongokit.Prelude.{
  String, ◌≡◌, refl, Bool, false, ◌||◌, Option, none, some, List, [], ◌∷◌, arith, str_eq, eq_iff,
  if◌then◌else◌,
}

abbrev pub Object {ℓ} : Type ℓ → Type ℓ
Object V = List (String × V)

module _ {ℓ} {V : Type ℓ} where
  unfoldable pub get : String → Object V → Option V
  get k [] = none
  get k ((j, v) ∷ o) = if str_eq j k then some v else get k o

  unfoldable pub has : String → Object V → Bool
  has k [] = false
  has k ((j, v) ∷ o) = str_eq j k || has k o

  -- `o[k] = v`
  unfoldable pub put : String → V → Object V → Object V
  put k v [] = (k, v) ∷ []
  put k v ((j, w) ∷ o) = if str_eq j k then (j, v) ∷ o else (j, w) ∷ put k v o

  -- `delete o[k]`
  unfoldable pub remove : String → Object V → Object V
  remove k [] = []
  remove k ((j, w) ∷ o) = if str_eq j k then remove k o else (j, w) ∷ remove k o

  -- `{ ...o, ...p }`
  unfoldable pub spread : Object V → Object V → Object V
  spread o [] = o
  spread o ((k, v) ∷ p) = spread (put k v o) p

  abbrev pub keys : Object V → List String
  keys [] = []
  keys ((k, v) ∷ o) = k ∷ keys o

  pub get-put :
      (k j : String) (v : V) (o : Object V)
      → get j (put k v o) ≡ (if str_eq k j then some v else get j o)
  unfolding get put
  get-put k j v [] = refl
  get-put k j v ((i, w) ∷ o) = ground (arith, eq_iff k j, eq_iff i k, eq_iff i j, get-put k j v o)

  pub get-remove :
      (k j : String) (o : Object V) → get j (remove k o) ≡ (if str_eq k j then none else get j o)
  unfolding get remove
  get-remove k j [] = ground arith
  get-remove k j ((i, w) ∷ o) = ground (arith, eq_iff k j, eq_iff i k, eq_iff i j, get-remove k j o)
