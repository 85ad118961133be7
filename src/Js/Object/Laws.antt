-- ===== src/Js/Object/Laws.antt =====
-- Laws of objects: absent keys, assignment of a new key, distinct keys.
use mongokit.Prelude.{
  String, ◌≡◌, refl, subst, Bool, true, false, not, ◌&&◌, ◌||◌, none, some, inl, inr, [], ◌∷◌, ◌++◌,
  arith, str_eq, eq_iff, Bool-cases,
}
use mongokit.Js.Object.{Object, get, has, put}

module _ {ℓ} {V : Type ℓ} where
  -- No key occurs twice.
  abbrev pub IsObject : Object V → Type 0
  IsObject [] = Unit
  IsObject ((k, v) ∷ o) = (has k o ≡ false) × IsObject o

  pub put_new : (k : String) (v : V) (o : Object V) → has k o ≡ false → put k v o ≡ o ++ (k, v) ∷ []
  unfolding put has
  put_new k v [] h = refl
  put_new k v ((j, w) ∷ o) h = ground (arith, put_new k v o)

  pub get_absent : (k : String) (o : Object V) → has k o ≡ false → get k o ≡ none
  unfolding get has
  get_absent k [] h = refl
  get_absent k ((j, w) ∷ o) h = ground (arith, get_absent k o)

  pub has-append : (k : String) (o p : Object V) → has k (o ++ p) ≡ (has k o || has k p)
  unfolding has
  has-append k [] p = refl
  has-append k ((j, w) ∷ o) p = ground (arith, has-append k o p)

  pub has-put : (k j : String) (v : V) (o : Object V) → has j (put k v o) ≡ (str_eq k j || has j o)
  unfolding has put
  has-put k j v [] = ground arith
  has-put k j v ((i, w) ∷ o) = ground (arith, eq_iff k j, eq_iff i k, eq_iff i j, has-put k j v o)

  pub IsObject-put : (k : String) (v : V) (o : Object V) → IsObject o → IsObject (put k v o)
  unfolding put has
  IsObject-put k v [] h = (refl, tt)
  IsObject-put k v ((j, w) ∷ o) h =
      ground (arith, has-put k j v o, eq_iff j k, eq_iff k j, IsObject-put k v o)

  pub get_of_has : (k : String) (o : Object V) → has k o ≡ true → (v : V) × (get k o ≡ some v)
  unfolding get has
  get_of_has k [] h = cc
  get_of_has k ((j, w) ∷ o) h = elim (Bool-cases (str_eq j k)) [
    | inl e ↦ (w, rw e)
    | inr e ↦ let (v, p) = get_of_has k o (ground arith) in (v, rw e p)
  ]

  pub has_of_get : (k : String) (o : Object V) (v : V) → get k o ≡ some v → has k o ≡ true
  unfolding get has
  has_of_get k [] v h = cc
  has_of_get k ((j, w) ∷ o) v h = ground (arith, has_of_get k o v)

  pub IsObject-append_one :
      (k : String) (v : V) (o : Object V)
      → IsObject o
      → has k o ≡ false
      → IsObject (o ++ (k, v) ∷ [])
  IsObject-append_one k v o h p = subst IsObject (put_new k v o p) (IsObject-put k v o h)

  -- A test that no key occurs twice.
  unfoldable pub distinct : Object V → Bool
  distinct [] = true
  distinct ((k, v) ∷ o) = not (has k o) && distinct o

  pub IsObject_of_distinct : (o : Object V) → distinct o ≡ true → IsObject o
  unfolding distinct
  IsObject_of_distinct [] h = tt
  IsObject_of_distinct ((k, v) ∷ o) h = (ground arith, IsObject_of_distinct o (ground arith))
