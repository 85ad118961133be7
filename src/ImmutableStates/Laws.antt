-- ===== src/ImmutableStates/Laws.antt =====
-- Frozen values, and the conditions that they match.
use mongokit.Prelude.{
  String, ◌≡◌, refl, sym, ap, ◌∙◌, Bool, true, false, not, ◌&&◌, ◌||◌, Option, none, some, List, [],
  ◌∷◌, any, map, str_eq, eq_refl, eq_iff, Bool-cases, inl, inr, arith, if◌then◌else◌, returns,
  throw_if,
}
use mongokit.Js.Object.{Object, get, get-put}
use mongokit.Js.Value.{Value, undefined, null, bool, num, str, oid, date, arr, obj, is_operator}
use mongokit.Mongo.{Matching, IsLiteral}
use mongokit.Mongo.Operators.{Operators, AllLiteral}
use mongokit.Mongo.Server.{IsStandard}
use mongokit.Pagination.Sort.{includes}
use mongokit.Pagination.Keyset.Order.{IsOrder}
use mongokit.Claim.{From, one, many, from_spec}
use mongokit.ImmutableStates.{is_frozen, with_tenant, touches_frozen}

pub throw_if-passes : {E : Type 0} (b : Bool) (e : E) → throw_if b e ≡ returns tt → b ≡ false
throw_if-passes true e h = cc
throw_if-passes false e h = refl

or_true : (b : Bool) → (b || true) ≡ true
or_true b = ground arith

pub if_true :
    {A : Type 0} {b : Bool} (x y : A) {r : A} → b ≡ true → (if b then x else y) ≡ r → x ≡ r
if_true x y e h = rw e at h

pub if_false :
    {A : Type 0} {b : Bool} (x y : A) {r : A} → b ≡ false → (if b then x else y) ≡ r → y ≡ r
if_false x y e h = rw e at h

pub not_and : {a b : Bool} → (a && not b) ≡ false → b ≡ false → a ≡ false
not_and h e = ground arith

pub frozen_text :
    (states : List String) (v : Value)
    → is_frozen states v ≡ true
    → (x : String) × (v ≡ str x) × (includes states x ≡ true)
unfolding is_frozen
frozen_text states (str x) h = (x, refl, h)
frozen_text states undefined h = cc
frozen_text states null h = cc
frozen_text states (bool b) h = cc
frozen_text states (num n) h = cc
frozen_text states (oid x) h = cc
frozen_text states (date n) h = cc
frozen_text states (arr xs) h = cc
frozen_text states (obj f) h = cc

pub AllLiteral-str : (states : List String) → AllLiteral (map str states)
AllLiteral-str [] = tt
AllLiteral-str (x ∷ states) = (tt, AllLiteral-str states)

pub get-with_tenant :
    (base : Object Value) (t : String) (v : Option Value)
    → str_eq t "_id" ≡ false
    → get "_id" (with_tenant base t v) ≡ get "_id" base
unfolding with_tenant
get-with_tenant base t none h = refl
get-with_tenant base t (some v) h = rw (get-put t "_id" v base, h) refl

-- The values of a source state.
abbrev pub FromLiteral : From → Type 0
FromLiteral (one v) = IsLiteral v
FromLiteral (many vs) = AllLiteral vs

module _ {D : Type 0} {m : Matching D} (operators : Operators m) (standard : IsStandard m)
    (order : IsOrder m) where
  pub any_same :
      (states : List String) (x : String)
      → includes states x ≡ true
      → any (λ v. m.same (str x) v) (map str states) ≡ true
  unfolding includes
  any_same [] x h = cc
  any_same (y ∷ states) x h = elim (Bool-cases (str_eq y x)) [
    | inl e ↦ rw (standard.same-str x y, (eq_iff y x).0 e, eq_refl x) refl
    | inr e ↦ rw (any_same states x (rw e at h)) (or_true (m.same (str x) (str y)))
  ]

  any_touches :
      (text_of : Value → String) (states : List String) (x : String)
      → ((y : String) → text_of (str y) ≡ y)
      → includes states x ≡ true
      → (vs : List Value) → AllLiteral vs
      → any (λ v. m.same (str x) v) vs ≡ true
      → any (λ v. includes states (text_of v)) vs ≡ true
  any_touches text_of states x texts i [] l h = cc
  any_touches text_of states x texts i (v ∷ vs) l h = elim (Bool-cases (m.same (str x) v)) [
    | inl e ↦ rw (sym (order.same-eq (str x) v tt l.0 e), texts x, i) refl
    | inr e ↦
        rw (any_touches text_of states x texts i vs l.1 (rw e at h))
          (or_true (includes states (text_of v)))
  ]

  -- A source state that a frozen value matches is a frozen one.
  pub touches_of_clause :
      (text_of : Value → String) (states : List String) (f : From) (k x : String) (d : D)
      → ((y : String) → text_of (str y) ≡ y)
      → is_operator k ≡ false
      → FromLiteral f
      → m.value_at k d ≡ str x
      → includes states x ≡ true
      → m.clause k (from_spec f) d ≡ true
      → touches_frozen text_of states f ≡ true
  unfolding touches_frozen from_spec
  touches_of_clause text_of states (one v) k x d texts o l e i h =
      let p =
        order.same-eq (str x) v tt l
          (ap (λ w. m.same w v) (sym e) ∙ sym (m.clause-eq k v d o l) ∙ h) in
      rw (sym p, texts x) i
  touches_of_clause text_of states (many vs) k x d texts o l e i h =
      any_touches text_of states x texts i vs l
        (ap (λ w. any (λ v. m.same w v) vs) (sym e) ∙ sym (operators.clause-in k vs d o l) ∙ h)
