-- ===== src/FilterIr/Compiled.antt =====
-- A compiled filter selects what the filter means, and SQL text is refused.
use mongokit.Prelude.{
  ◌≡◌, refl, ap, ◌∙◌, true, false, not, ◌&&◌, ◌||◌, List, [], ◌∷◌, any, every, if◌then◌else◌,
  Bool-cases, inl, inr, Outcome, returns, throws, ◌>>=◌,
}
use mongokit.Js.Object.{Object}
use mongokit.Js.Value.{Value, null, arr, objects, values}
use mongokit.Mongo.{Matching, operator}
use mongokit.Mongo.Operators.{Operators}
use mongokit.FilterIr.{
  Filter, Filters, no_children, child, FilterError, raw_is_sql, nothing, regex_of, ne_of, joined,
  in_of, nin_of, exists_of, compile, compile_all,
}
use mongokit.FilterIr.Like.{like_to_regex}
use mongokit.FilterIr.Meaning.{
  IsPlain, AllPlain, has_raw, any_raw, neither, holds-one, holds-nothing, or_false,
  holds-joined_and, holds-joined_or, holds-regex_of, holds-ne_of, selects, selects_all, selects_any,
}

module _ {D : Type 0} (m : Matching D) (ops : Operators m) where
  -- A compiled filter, and what it selects m ops.
  abbrev pub Means : Filter → Type 0
  Means f =
      (q : Object Value) × (compile f ≡ returns q) × ((d : D) → m.holds q d ≡ selects m ops f d)

  -- The operands of a conjunction or a disjunction, compiled.
  abbrev AllMean : Filters → Type 0
  AllMean fs =
      (qs : List (Object Value)) × (compile_all fs ≡ returns qs)
      × ((d : D) → every (λ q. m.holds q d) qs ≡ selects_all m ops fs d)
      × ((d : D) → any (λ q. m.holds q d) qs ≡ selects_any m ops fs d)

  and_lem : (f : Filter) (fs : Filters) → Means f → AllMean fs → Means (Filter.and_ (child f fs))
  unfolding compile selects
  and_lem f fs (q, e, h) (qs, g, a, o) = (
    joined "$and" (q ∷ qs),
    rw (e, g) refl,
    λ d. holds-joined_and m ops q qs d ∙ λ i. h d i && a d i,
  )

  or_lem : (f : Filter) (fs : Filters) → Means f → AllMean fs → Means (Filter.or_ (child f fs))
  unfolding compile selects
  or_lem f fs (q, e, h) (qs, g, a, o) = (
    joined "$or" (q ∷ qs),
    rw (e, g) refl,
    λ d. holds-joined_or m ops q qs d ∙ λ i. h d i || o d i,
  )

  mutual
    unfolding compile selects has_raw IsPlain in_of nin_of exists_of

    compile_lem : (f : Filter) → IsPlain f → has_raw f ≡ false → Means f
    compile_lem Filter.true_ p r = ([], refl, λ d. m.holds-nil d)
    compile_lem Filter.false_ p r = (nothing, refl, λ d. holds-nothing m ops d)
    compile_lem Filter.raw p r = cc
    compile_lem (Filter.eq k v) (o, l) r =
        ((k, v) ∷ [], refl, λ d. holds-one m ops k v d ∙ m.clause-eq k v d o l)
    compile_lem (Filter.ne k v) (o, l) r = (ne_of k v, refl, λ d. holds-ne_of m ops k v d o l)
    compile_lem (Filter.gt k v) o r =
        ((k, operator "$gt" v) ∷ [], refl, λ d. holds-one m ops k _ d ∙ m.clause-gt k v d o)
    compile_lem (Filter.gte k v) o r =
        ((k, operator "$gte" v) ∷ [], refl, λ d. holds-one m ops k _ d ∙ ops.clause-gte k v d o)
    compile_lem (Filter.lt k v) o r =
        ((k, operator "$lt" v) ∷ [], refl, λ d. holds-one m ops k _ d ∙ m.clause-lt k v d o)
    compile_lem (Filter.lte k v) o r =
        ((k, operator "$lte" v) ∷ [], refl, λ d. holds-one m ops k _ d ∙ ops.clause-lte k v d o)
    compile_lem (Filter.in_ k []) p r = (nothing, refl, λ d. holds-nothing m ops d)
    compile_lem (Filter.in_ k (v ∷ vs)) (o, l) r = (
      (k, operator "$in" (arr (values (v ∷ vs)))) ∷ [],
      refl,
      λ d. holds-one m ops k _ d ∙ ops.clause-in k (v ∷ vs) d o l,
    )
    compile_lem (Filter.nin k []) p r = ([], refl, λ d. m.holds-nil d)
    compile_lem (Filter.nin k (v ∷ vs)) (o, l) r = (
      (k, operator "$nin" (arr (values (v ∷ vs)))) ∷ [],
      refl,
      λ d. holds-one m ops k _ d ∙ ops.clause-nin k (v ∷ vs) d o l,
    )
    compile_lem (Filter.exists k true) o r = (
      (k, operator "$ne" null) ∷ [],
      refl,
      λ d. holds-one m ops k _ d ∙ m.clause-ne k null d o tt,
    )
    compile_lem (Filter.exists k false) o r =
        ((k, null) ∷ [], refl, λ d. holds-one m ops k null d ∙ m.clause-eq k null d o tt)
    compile_lem (Filter.like k p s) o r = (
      (k, regex_of (like_to_regex p) (if s then "" else "i")) ∷ [],
      refl,
      λ d. holds-regex_of m ops k (like_to_regex p) (if s then "" else "i") d o,
    )
    compile_lem (Filter.regex k p flags) o r =
        ((k, regex_of p flags) ∷ [], refl, λ d. holds-regex_of m ops k p flags d o)
    compile_lem (Filter.and_ no_children) p r = ([], refl, λ d. m.holds-nil d)
    compile_lem (Filter.and_ (child f fs)) (p, ps) r =
        let (a, b) = neither (has_raw f) (any_raw fs) r in
        and_lem f fs (compile_lem f p a) (compile_all_lem fs ps b)
    compile_lem (Filter.or_ no_children) p r = (nothing, refl, λ d. holds-nothing m ops d)
    compile_lem (Filter.or_ (child f fs)) (p, ps) r =
        let (a, b) = neither (has_raw f) (any_raw fs) r in
        or_lem f fs (compile_lem f p a) (compile_all_lem fs ps b)
    compile_lem (Filter.not_ f) p r =
        let (q, e, h) = compile_lem f p r in
        (
          ("$nor", arr (objects (q ∷ []))) ∷ [],
          rw e refl,
          λ d.
              holds-one m ops "$nor" _ d
              ∙ m.clause-nor (q ∷ []) d
              ∙ ap not (or_false m ops _ ∙ h d),
        )

    compile_all_lem : (fs : Filters) → AllPlain fs → any_raw fs ≡ false → AllMean fs
    compile_all_lem no_children p r = ([], refl, (λ d. refl), λ d. refl)
    compile_all_lem (child f fs) (p, ps) r =
        let (x, y) = neither (has_raw f) (any_raw fs) r in
        let (q, e, h) = compile_lem f p x in
        let (qs, g, a, o) = compile_all_lem fs ps y in
        (q ∷ qs, rw (e, g) refl, (λ d i. h d i && a d i), λ d i. h d i || o d i)

  -- A filter without SQL text, whose fields are no operators and whose equalities and lists have
  -- scalar values, is compiled, and the query selects m ops exactly the documents that the filter
  -- means, at any depth of conjunction, disjunction and negation.
  pub compile-Means : (f : Filter) → IsPlain f → has_raw f ≡ false → Means f
  compile-Means = compile_lem

refused_after :
    (o : Outcome FilterError (Object Value)) (p : Outcome FilterError (List (Object Value)))
    → p ≡ throws raw_is_sql
    → (o >>= λ q. p >>= λ qs. returns (q ∷ qs)) ≡ throws raw_is_sql
refused_after (returns q) p h = rw h refl
refused_after (throws raw_is_sql) p h = refl

mutual
  unfolding compile has_raw

  compile_raw : (f : Filter) → has_raw f ≡ true → compile f ≡ throws raw_is_sql
  compile_raw Filter.raw h = refl
  compile_raw (Filter.and_ no_children) h = cc
  compile_raw (Filter.and_ (child f fs)) h = rw (compile_all_raw (child f fs) h) refl
  compile_raw (Filter.or_ no_children) h = cc
  compile_raw (Filter.or_ (child f fs)) h = rw (compile_all_raw (child f fs) h) refl
  compile_raw (Filter.not_ f) h = rw (compile_raw f h) refl
  compile_raw Filter.true_ h = cc
  compile_raw Filter.false_ h = cc
  compile_raw (Filter.eq k v) h = cc
  compile_raw (Filter.ne k v) h = cc
  compile_raw (Filter.gt k v) h = cc
  compile_raw (Filter.gte k v) h = cc
  compile_raw (Filter.lt k v) h = cc
  compile_raw (Filter.lte k v) h = cc
  compile_raw (Filter.in_ k vs) h = cc
  compile_raw (Filter.nin k vs) h = cc
  compile_raw (Filter.exists k b) h = cc
  compile_raw (Filter.like k p s) h = cc
  compile_raw (Filter.regex k p s) h = cc

  compile_all_raw : (fs : Filters) → any_raw fs ≡ true → compile_all fs ≡ throws raw_is_sql
  compile_all_raw no_children h = cc
  compile_all_raw (child f fs) h = elim (Bool-cases (has_raw f)) [
    | inl e ↦ rw (compile_raw f e) refl
    | inr e ↦ refused_after (compile f) (compile_all fs) (compile_all_raw fs (rw e at h))
  ]

-- A filter in which SQL text occurs, at any depth, is refused as a whole.
compile-raw : (f : Filter) → has_raw f ≡ true → compile f ≡ throws raw_is_sql
compile-raw = compile_raw
