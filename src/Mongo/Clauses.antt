-- ===== src/Mongo/Clauses.antt =====
-- Filters that pin a field.
use mongokit.Prelude.{
  Bool, ◌&&◌, String, ◌≡◌, refl, true, false, some, [], ◌∷◌, ◌++◌, str_eq, eq_iff, arith,
  Bool-cases, inl, inr,
}
use mongokit.Js.Object.{Object, get}
use mongokit.Js.Value.{Value, is_operator}
use mongokit.Mongo.{Matching, IsLiteral}

some_injective : (a b : Value) → some a ≡ some b → a ≡ b
some_injective a b p = cc

and_assoc : (a b c : Bool) → (a && (b && c)) ≡ ((a && b) && c)
and_assoc true b c = refl
and_assoc false b c = refl

module _ {D : Type 0} (m : Matching D) where
  -- A clause that a document fails.
  pub holds-get :
      (q : Object Value) (k : String) (v : Value) (d : D)
      → get k q ≡ some v
      → m.clause k v d ≡ false
      → m.holds q d ≡ false
  unfolding get
  holds-get [] k v d h c = cc
  holds-get ((j, w) ∷ q) k v d h c = elim (Bool-cases (str_eq j k)) [
    | inl e ↦
        let j_lem = (eq_iff j k).0 e in
        let w_lem : w ≡ v = some_injective w v (rw e at h) in
        rw (m.holds-cons j w q d, j_lem, w_lem, c) refl
    | inr e ↦ rw (m.holds-cons j w q d, holds-get q k v d (ground arith) c) (ground arith)
  ]

  -- A filter with a literal at a field selects only documents that hold it there.
  pub same_of_holds :
      (q : Object Value) (k : String) (v : Value) (d : D)
      → is_operator k ≡ false
      → IsLiteral v
      → get k q ≡ some v
      → m.holds q d ≡ true
      → m.same (m.value_at k d) v ≡ true
  same_of_holds q k v d o l g h = elim (Bool-cases (m.same (m.value_at k d) v)) [
    | inl e ↦ e
    | inr e ↦ absurd (cc (holds-get q k v d g (rw (m.clause-eq k v d o l) e), h))
  ]

  pub holds-append :
      (p q : Object Value) (d : D) → m.holds (p ++ q) d ≡ (m.holds p d && m.holds q d)
  holds-append [] q d = rw m.holds-nil refl
  holds-append ((k, v) ∷ p) q d =
      rw (m.holds-cons k v (p ++ q) d, m.holds-cons k v p d, holds-append p q d)
        (and_assoc (m.clause k v d) (m.holds p d) (m.holds q d))
