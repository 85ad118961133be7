-- ===== src/Pagination/Filter/Semantics.antt =====
-- The keyset filter selects the rows behind the cursor.
use mongokit.Prelude.{
  String, ◌≡◌, inl, inr, Bool, false, ◌&&◌, ◌||◌, Option, some, List, [], ◌∷◌, ◌++◌, arith,
  if◌then◌else◌, Bool-cases, any,
}
use mongokit.Js.Object.{Object, get, has, put}
use mongokit.Js.Object.Laws.{put_new}
use mongokit.Js.Value.{ℤ, Value, arr, objects, is_operator, int_eq}
use mongokit.Mongo.{Matching, IsLiteral, operator}
use mongokit.Pagination.Sort.{SortSpec, ascending}
use mongokit.Pagination.Filter.{Filter, read, operator_of, direction_or, with_or, cascade}

module _ {D : Type 0} (m : Matching D) where
  -- The order of one field, in a direction: is `b` behind `a`?
  unfoldable pub behind : ℤ → Value → Value → Bool
  behind d a b = if int_eq d ascending then m.below a b else m.below b a

  -- The lexicographic order on fields: is the document behind the values?
  unfoldable pub lex_behind : ℤ → (String → Value) → List String → D → Bool
  unfolding behind
  lex_behind d at [] x = false
  lex_behind d at (f ∷ fs) x =
      behind d (at f) (m.value_at f x) || (m.same (m.value_at f x) (at f) && lex_behind d at fs x)

  pub holds-append :
      (q : Filter) (k : String) (v : Value) (x : D)
      → m.holds (q ++ (k, v) ∷ []) x ≡ (m.holds q x && m.clause k v x)
  holds-append [] k v x = rw (m.holds-cons k v [] x, m.holds-nil x) (ground arith)
  holds-append ((j, w) ∷ q) k v x =
      rw (m.holds-cons j w (q ++ (k, v) ∷ []) x, m.holds-cons j w q x, holds-append q k v x)
        (ground arith)

  pub holds-one : (k : String) (v : Value) (x : D) → m.holds ((k, v) ∷ []) x ≡ m.clause k v x
  holds-one k v x = rw (m.holds-cons k v [] x, m.holds-nil x) (ground arith)

  pub holds-two :
      (k j : String) (v w : Value) (x : D)
      → m.holds ((k, v) ∷ (j, w) ∷ []) x ≡ (m.clause k v x && m.clause j w x)
  holds-two k j v w x = rw (m.holds-cons k v ((j, w) ∷ []) x, holds-one j w x)

  pub clause-operator_of :
      (d : ℤ) (k : String) (v : Value) (x : D)
      → is_operator k ≡ false
      → m.clause k (operator (operator_of (some d)) v) x ≡ behind d v (m.value_at k x)
  unfolding operator_of behind
  clause-operator_of d k v x h = elim (Bool-cases (int_eq d ascending)) [
    | inl e ↦ rw e (m.clause-gt k v x h)
    | inr e ↦ rw e (m.clause-lt k v x h)
  ]

  -- A condition of the loop: the equalities, and behind the cursor in the next field.
  pub holds-condition :
      (d : ℤ) (k : String) (v : Value) (q : Filter) (x : D)
      → has k q ≡ false
      → is_operator k ≡ false
      → m.holds (put k (operator (operator_of (some d)) v) q) x
        ≡ (m.holds q x && behind d v (m.value_at k x))
  holds-condition d k v q x h o = rw (
    put_new k (operator (operator_of (some d)) v) q h,
    holds-append,
    clause-operator_of d k v x o,
  )

  pub holds-equality :
      (k : String) (v : Value) (q : Filter) (x : D)
      → has k q ≡ false
      → is_operator k ≡ false
      → IsLiteral v
      → m.holds (put k v q) x ≡ (m.holds q x && m.same (m.value_at k x) v)
  holds-equality k v q x h o l = rw (put_new k v q h, holds-append, m.clause-eq k v x o l)

  pub holds-with_or :
      (q : Filter) (qs : List Filter) (x : D)
      → has "$or" q ≡ false
      → m.holds (with_or q qs) x ≡ (m.holds q x && any (λ c. m.holds c x) qs)
  unfolding with_or
  holds-with_or q qs x h = rw (put_new "$or" (arr (objects qs)) q h, holds-append, m.clause-or qs x)

  module _ (sort : SortSpec) (first : Option ℤ) (d : ℤ) (all_values : Object Value) where
    -- What the loop relies on at the fields ahead of it.
    abbrev pub IsReady : Object Value → List String → Type 0
    IsReady equal [] = Unit
    IsReady equal (f ∷ fs) =
        (has f equal ≡ false)
        × (is_operator f ≡ false)
        × IsLiteral (read all_values f)
        × (direction_or (get f sort) first ≡ some d)
        × IsReady (put f (read all_values f) equal) fs

    pub holds-cascade :
        (equal : Object Value) (fs : List String) (x : D)
        → IsReady equal fs
        → any (λ c. m.holds c x) (cascade sort first all_values equal fs)
          ≡ (m.holds equal x && lex_behind d (read all_values) fs x)
    unfolding cascade lex_behind
    holds-cascade equal [] x r = ground arith
    holds-cascade equal (f ∷ fs) x (fresh, plain, literal, dir, r) =
        rw
          (
            dir,
            holds-condition d f (read all_values f) equal x fresh plain,
            holds-cascade (put f (read all_values f) equal) fs x r,
            holds-equality f (read all_values f) equal x fresh plain literal,
          )
          (ground arith)
