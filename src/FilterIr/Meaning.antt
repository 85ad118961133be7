-- ===== src/FilterIr/Meaning.antt =====
-- What a portable filter means, and what the parts of a compiled one select.
use mongokit.Prelude.{
  String, ◌≡◌, refl, sym, ap, ◌∙◌, Bool, true, false, not, ◌&&◌, ◌||◌, List, [], ◌∷◌, any, every,
  str_eq, eq_iff, if◌then◌else◌, Bool-cases, inl, inr, arith,
}
use mongokit.Js.Object.{Object}
use mongokit.Js.Value.{Value, undefined, null, bool, num, str, oid, date, arr, obj, is_operator}
use mongokit.Mongo.{Matching, IsLiteral, operator}
use mongokit.Mongo.Operators.{Operators, AllLiteral}
use mongokit.Pagination.Cursor.{is_null}
use mongokit.FilterIr.{Filter, Filters, no_children, child, nothing, regex_of, ne_of, joined}
use mongokit.FilterIr.Like.{like_to_regex}

-- A filter on proper field names and scalar values.
unfoldable mutual
  pub IsPlain : Filter → Type 0
  IsPlain (Filter.eq k v) = (is_operator k ≡ false) × IsLiteral v
  IsPlain (Filter.ne k v) = (is_operator k ≡ false) × IsLiteral v
  IsPlain (Filter.gt k v) = is_operator k ≡ false
  IsPlain (Filter.gte k v) = is_operator k ≡ false
  IsPlain (Filter.lt k v) = is_operator k ≡ false
  IsPlain (Filter.lte k v) = is_operator k ≡ false
  IsPlain (Filter.in_ k vs) = (is_operator k ≡ false) × AllLiteral vs
  IsPlain (Filter.nin k vs) = (is_operator k ≡ false) × AllLiteral vs
  IsPlain (Filter.exists k b) = is_operator k ≡ false
  IsPlain (Filter.like k p s) = is_operator k ≡ false
  IsPlain (Filter.regex k p f) = is_operator k ≡ false
  IsPlain (Filter.and_ fs) = AllPlain fs
  IsPlain (Filter.or_ fs) = AllPlain fs
  IsPlain (Filter.not_ f) = IsPlain f
  IsPlain Filter.true_ = Unit
  IsPlain Filter.false_ = Unit
  IsPlain Filter.raw = Unit

  pub AllPlain : Filters → Type 0
  AllPlain no_children = Unit
  AllPlain (child f fs) = IsPlain f × AllPlain fs

-- Does SQL text occur in a filter?
unfoldable mutual
  pub has_raw : Filter → Bool
  has_raw Filter.raw = true
  has_raw (Filter.and_ fs) = any_raw fs
  has_raw (Filter.or_ fs) = any_raw fs
  has_raw (Filter.not_ f) = has_raw f
  has_raw _ = false

  pub any_raw : Filters → Bool
  any_raw no_children = false
  any_raw (child f fs) = has_raw f || any_raw fs

pub neither : (a b : Bool) → (a || b) ≡ false → (a ≡ false) × (b ≡ false)
neither true b h = cc
neither false b h = (refl, h)

pub is_null_lem : (v : Value) → is_null v ≡ true → v ≡ null
unfolding is_null
is_null_lem null h = refl
is_null_lem undefined h = cc
is_null_lem (bool b) h = cc
is_null_lem (num b) h = cc
is_null_lem (str b) h = cc
is_null_lem (oid b) h = cc
is_null_lem (date b) h = cc
is_null_lem (arr b) h = cc
is_null_lem (obj b) h = cc

module _ {D : Type 0} (m : Matching D) (ops : Operators m) where
  -- What a filter means: `ne` is not satisfied by null, and `exists` tests for null, as in SQL.
  unfoldable mutual
    pub selects : Filter → D → Bool
    selects Filter.true_ d = true
    selects Filter.false_ d = false
    selects Filter.raw d = false
    selects (Filter.eq k v) d = m.same (m.value_at k d) v
    selects (Filter.ne k v) d =
        not (m.same (m.value_at k d) v) && not (m.same (m.value_at k d) null)
    selects (Filter.gt k v) d = m.below v (m.value_at k d)
    selects (Filter.gte k v) d = m.below v (m.value_at k d) || m.same (m.value_at k d) v
    selects (Filter.lt k v) d = m.below (m.value_at k d) v
    selects (Filter.lte k v) d = m.below (m.value_at k d) v || m.same (m.value_at k d) v
    selects (Filter.in_ k vs) d = any (λ v. m.same (m.value_at k d) v) vs
    selects (Filter.nin k vs) d = not (any (λ v. m.same (m.value_at k d) v) vs)
    selects (Filter.exists k true) d = not (m.same (m.value_at k d) null)
    selects (Filter.exists k false) d = m.same (m.value_at k d) null
    selects (Filter.like k p sensitive) d =
        ops.matches (like_to_regex p) (if sensitive then "" else "i") (m.value_at k d)
    selects (Filter.regex k p flags) d = ops.matches p flags (m.value_at k d)
    selects (Filter.and_ fs) d = selects_all fs d
    selects (Filter.or_ fs) d = selects_any fs d
    selects (Filter.not_ f) d = not (selects f d)

    pub selects_all : Filters → D → Bool
    selects_all no_children d = true
    selects_all (child f fs) d = selects f d && selects_all fs d

    pub selects_any : Filters → D → Bool
    selects_any no_children d = false
    selects_any (child f fs) d = selects f d || selects_any fs d

  pub holds-one : (k : String) (v : Value) (d : D) → m.holds ((k, v) ∷ []) d ≡ m.clause k v d
  holds-one k v d = rw (m.holds-cons k v [] d, m.holds-nil d) (ground arith)

  pub holds-nothing : (d : D) → m.holds nothing d ≡ false
  holds-nothing d = holds-one "$expr" (bool false) d ∙ ops.clause-expr_false d

  pub and_true : (b : Bool) → (b && true) ≡ b
  and_true true = refl
  and_true false = refl

  pub and_same : (b : Bool) → (b && b) ≡ b
  and_same true = refl
  and_same false = refl

  pub or_false : (b : Bool) → (b || false) ≡ b
  or_false true = refl
  or_false false = refl

  pub holds-joined_and :
      (p : Object Value) (ps : List (Object Value)) (d : D)
      → m.holds (joined "$and" (p ∷ ps)) d ≡ every (λ q. m.holds q d) (p ∷ ps)
  unfolding joined
  holds-joined_and p [] d = sym (and_true _)
  holds-joined_and p (q ∷ ps) d = holds-one "$and" _ d ∙ m.clause-and (p ∷ q ∷ ps) d

  pub holds-joined_or :
      (p : Object Value) (ps : List (Object Value)) (d : D)
      → m.holds (joined "$or" (p ∷ ps)) d ≡ any (λ q. m.holds q d) (p ∷ ps)
  unfolding joined
  holds-joined_or p [] d = sym (or_false _)
  holds-joined_or p (q ∷ ps) d = holds-one "$or" _ d ∙ m.clause-or (p ∷ q ∷ ps) d

  pub holds-regex_of :
      (k pattern flags : String) (d : D)
      → is_operator k ≡ false
      → m.holds ((k, regex_of pattern flags) ∷ []) d ≡ ops.matches pattern flags (m.value_at k d)
  unfolding regex_of
  holds-regex_of k pattern flags d o = elim (Bool-cases (str_eq flags "")) [
    | inl e ↦ rw e (
        holds-one k _ d
        ∙ ops.clause-regex k pattern d o
        ∙ ap (λ f. ops.matches pattern f (m.value_at k d)) (sym ((eq_iff flags "").0 e)))
    | inr e ↦ rw e (holds-one k _ d ∙ ops.clause-regex_options k pattern flags d o)
  ]

  pub holds-ne_of :
      (k : String) (v : Value) (d : D)
      → is_operator k ≡ false
      → IsLiteral v
      → m.holds (ne_of k v) d
        ≡ (not (m.same (m.value_at k d) v) && not (m.same (m.value_at k d) null))
  unfolding ne_of
  holds-ne_of k v d o l = elim (Bool-cases (is_null v)) [
    | inl e ↦
        rw (e, is_null_lem v e) (holds-one k _ d ∙ m.clause-ne k null d o tt ∙ sym (and_same _))
    | inr e ↦ rw e (
        holds-one "$and" _ d
        ∙ m.clause-and (((k, operator "$ne" v) ∷ []) ∷ ((k, operator "$ne" null) ∷ []) ∷ []) d
        ∙ rw
            (
              holds-one k (operator "$ne" v) d,
              holds-one k (operator "$ne" null) d,
              m.clause-ne k v d o l,
              m.clause-ne k null d o tt,
            )
            (ap (λ b. not (m.same (m.value_at k d) v) && b) (and_true _)))
  ]
