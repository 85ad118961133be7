-- ===== src/Mongo/Memory/Strict.antt =====
-- The order and the equality of values in memory: strict, transitive and exact on scalars.
use mongokit.Prelude.{String, ◌≡◌, refl, ap, true, false, eq_iff, eq_refl, arith}
use mongokit.Js.Value.{
  ℤ, pos, negsuc, Value, undefined, null, bool, num, str, oid, date, arr, obj, int_lt, int_eq,
}
use mongokit.Mongo.{IsLiteral}
use mongokit.Mongo.Memory.{same}
use mongokit.Mongo.Memory.Order.{below, text_lt}

text_lt_irreflexive : (s : String) → text_lt s s ≡ false
unfolding text_lt
text_lt_irreflexive String.[] = refl
text_lt_irreflexive (String.◌∷◌ c s) = ground (arith, text_lt_irreflexive s)

text_lt_asymmetric : (s t : String) → text_lt s t ≡ true → text_lt t s ≡ false
unfolding text_lt
text_lt_asymmetric String.[] String.[] h = cc
text_lt_asymmetric String.[] (String.◌∷◌ d t) h = refl
text_lt_asymmetric (String.◌∷◌ c s) String.[] h = cc
text_lt_asymmetric (String.◌∷◌ c s) (String.◌∷◌ d t) h = ground (arith, text_lt_asymmetric s t)

pub below_irreflexive : (a : Value) → IsLiteral a → below a a ≡ false
unfolding below int_lt
below_irreflexive undefined l = refl
below_irreflexive null l = refl
below_irreflexive (bool b) l = ground arith
below_irreflexive (num (pos a)) l = ground arith
below_irreflexive (num (negsuc a)) l = ground arith
below_irreflexive (str s) l = text_lt_irreflexive s
below_irreflexive (oid s) l = text_lt_irreflexive s
below_irreflexive (date n) l = ground arith
below_irreflexive (arr xs) l = refl
below_irreflexive (obj f) l = refl

int_lt_asymmetric : (a b : ℤ) → int_lt a b ≡ true → int_lt b a ≡ false
unfolding int_lt
int_lt_asymmetric (pos a) (pos b) h = ground arith
int_lt_asymmetric (pos a) (negsuc b) h = cc
int_lt_asymmetric (negsuc a) (pos b) h = refl
int_lt_asymmetric (negsuc a) (negsuc b) h = ground arith

pub below_asymmetric : (a b : Value) → below a b ≡ true → below b a ≡ false
unfolding below
below_asymmetric (bool a) (bool b) h = ground arith
below_asymmetric (num a) (num b) h = int_lt_asymmetric a b h
below_asymmetric (str a) (str b) h = text_lt_asymmetric a b h
below_asymmetric (oid a) (oid b) h = text_lt_asymmetric a b h
below_asymmetric (date a) (date b) h = ground arith
below_asymmetric _ _ h = cc

pub same-eq : (a b : Value) → same a b ≡ true → a ≡ b
unfolding same int_eq
same-eq null null h = refl
same-eq (bool true) (bool b) h = ground arith
same-eq (bool false) (bool b) h = ground arith
same-eq (num (pos a)) (num (pos b)) h = ground arith
same-eq (num (negsuc a)) (num (negsuc b)) h = ground arith
same-eq (num (pos a)) (num (negsuc b)) h = cc
same-eq (num (negsuc a)) (num (pos b)) h = cc
same-eq (str a) (str b) h = ap str ((eq_iff a b).0 h)
same-eq (oid a) (oid b) h = ap oid ((eq_iff a b).0 h)
same-eq (date a) (date b) h = ground arith
same-eq _ _ h = cc

pub same_reflexive : (a : Value) → IsLiteral a → same a a ≡ true
unfolding same int_eq
same_reflexive undefined l = absurd l
same_reflexive (arr xs) l = absurd l
same_reflexive (obj f) l = absurd l
same_reflexive null l = refl
same_reflexive (bool true) l = refl
same_reflexive (bool false) l = refl
same_reflexive (num (pos a)) l = ground arith
same_reflexive (num (negsuc a)) l = ground arith
same_reflexive (str s) l = eq_refl s
same_reflexive (oid s) l = eq_refl s
same_reflexive (date n) l = ground arith

text_lt_transitive : (s t u : String) → text_lt s t ≡ true → text_lt t u ≡ true → text_lt s u ≡ true
unfolding text_lt
text_lt_transitive String.[] String.[] u h k = cc
text_lt_transitive String.[] (String.◌∷◌ d t) String.[] h k = cc
text_lt_transitive String.[] (String.◌∷◌ d t) (String.◌∷◌ e u) h k = refl
text_lt_transitive (String.◌∷◌ c s) String.[] u h k = cc
text_lt_transitive (String.◌∷◌ c s) (String.◌∷◌ d t) String.[] h k = cc
text_lt_transitive (String.◌∷◌ c s) (String.◌∷◌ d t) (String.◌∷◌ e u) h k =
    ground (arith, text_lt_transitive s t u)

int_lt_transitive : (a b c : ℤ) → int_lt a b ≡ true → int_lt b c ≡ true → int_lt a c ≡ true
unfolding int_lt
int_lt_transitive (pos a) (pos b) (pos c) h k = ground arith
int_lt_transitive (pos a) (pos b) (negsuc c) h k = cc
int_lt_transitive (pos a) (negsuc b) c h k = cc
int_lt_transitive (negsuc a) (pos b) (pos c) h k = refl
int_lt_transitive (negsuc a) (pos b) (negsuc c) h k = cc
int_lt_transitive (negsuc a) (negsuc b) (pos c) h k = refl
int_lt_transitive (negsuc a) (negsuc b) (negsuc c) h k = ground arith

pub below_transitive : (a b c : Value) → below a b ≡ true → below b c ≡ true → below a c ≡ true
unfolding below
below_transitive (bool a) (bool b) (bool c) h k = ground arith
below_transitive (num a) (num b) (num c) h k = int_lt_transitive a b c h k
below_transitive (str a) (str b) (str c) h k = text_lt_transitive a b c h k
below_transitive (oid a) (oid b) (oid c) h k = text_lt_transitive a b c h k
below_transitive (date a) (date b) (date c) h k = ground arith
below_transitive _ _ _ h k = cc
