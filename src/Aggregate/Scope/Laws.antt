-- ===== src/Aggregate/Scope/Laws.antt =====
-- No aggregation escapes the conditions of a policy plugin.
use mongokit.Prelude.{
  ◌≡◌, refl, sym, ap, subst, ◌∙◌, Bool, true, ◌&&◌, Option, none, some, List, [], ◌∷◌, ◌++◌,
  append_assoc, every, arith, returns, >>=-eq-returns, returns-injective,
}
use mongokit.Js.Object.{Object}
use mongokit.Js.Value.{Value, end, field, entries, arr, objects}
use mongokit.Mongo.{Matching}
use mongokit.Pagination.Filter.Semantics.{holds-one}
use mongokit.FilterIr.{Input, absent, ir, query, compile_filter_to_mongo}
use mongokit.FilterIr.Shorthand.{expand_shorthands}
use mongokit.Aggregate.Scope.{
  scope_candidate, request_filter, with_part, merged_parts, parts_of, with_scope,
  inject_policy_scope_into_agg,
}

all_of : (a b : Bool) → b ≡ true → (a && b) ≡ a
all_of a b h = ground arith

both_true : (x y z : Bool) → (x && (y && z)) ≡ true → (x ≡ true) × (y ≡ true)
both_true x y z h = ground arith

and_true : (b : Bool) → b ≡ (b && true)
and_true b = ground arith

module _ {D : Type 0} (m : Matching D) (coerce_filter_dates : Object Value → Object Value) where
  -- Does a row meet every one of some filters, each compiled?
  abbrev pub MeetsAll : List Input → D → Bool → Type 0
  MeetsAll [] d b = b ≡ true
  MeetsAll (c ∷ cs) d b =
      (compiled : Object Value) × (rest : Bool) × (compile_filter_to_mongo coerce_filter_dates c
        ≡ returns compiled)
      × (b ≡ (m.holds compiled d && rest))
      × MeetsAll cs d rest

  holds-merged :
      (p : Object Value) (ps : List (Object Value)) (d : D)
      → (q : Object Value) × (merged_parts (p ∷ ps) ≡ some q)
        × (m.holds q d ≡ every (λ x. m.holds x d) (p ∷ ps))
  unfolding merged_parts
  holds-merged p [] d = (p, refl, and_true (m.holds p d))
  holds-merged p (r ∷ ps) d = (
    ("$and", arr (objects (p ∷ r ∷ ps))) ∷ [],
    refl,
    holds-one m "$and" (arr (objects (p ∷ r ∷ ps))) d ∙ m.clause-and (p ∷ r ∷ ps) d,
  )

  every-with_part :
      (p : Object Value) (ps : List (Object Value)) (d : D)
      → every (λ x. m.holds x d) (with_part p ps) ≡ (m.holds p d && every (λ x. m.holds x d) ps)
  unfolding with_part
  every-with_part [] ps d = ap (λ b. b && every (λ x. m.holds x d) ps) (sym (m.holds-nil d))
  every-with_part (e ∷ o) ps d = refl

  parts-MeetsAll :
      (cs : List Input) (ps : List (Object Value)) (d : D)
      → parts_of coerce_filter_dates cs ≡ returns ps
      → MeetsAll cs d (every (λ x. m.holds x d) ps)
  unfolding parts_of
  parts-MeetsAll [] ps d h = ap (every (λ x. m.holds x d)) (sym (returns-injective _ _ h))
  parts-MeetsAll (c ∷ cs) ps d h =
      let (compiled, a, b) = >>=-eq-returns (compile_filter_to_mongo coerce_filter_dates c) _ h in
      let (rest, x, y) = >>=-eq-returns (parts_of coerce_filter_dates cs) _ b in
      (
        compiled,
        every (λ z. m.holds z d) rest,
        a,
        ap (every (λ z. m.holds z d)) (sym (returns-injective _ _ y))
            ∙ every-with_part compiled rest d,
        parts-MeetsAll cs rest d x,
      )

  merged_lem :
      (ps : List (Object Value)) (q : Object Value) (d : D)
      → merged_parts ps ≡ some q
      → m.holds q d ≡ every (λ x. m.holds x d) ps
  unfolding merged_parts
  merged_lem [] q d h = cc
  merged_lem (p ∷ ps) q d h =
      let (r, a, b) = holds-merged p ps d in
      let same : r ≡ q = cc in ap (λ z. m.holds z d) (sym same) ∙ b

  no_parts : (ps : List (Object Value)) → merged_parts ps ≡ none → ps ≡ []
  unfolding merged_parts
  no_parts [] h = refl
  no_parts (p ∷ []) h = cc
  no_parts (p ∷ q ∷ ps) h = cc

  scoped_some :
      (cs : List Input) (filter : Input) (q : Object Value) (d : D)
      → with_scope coerce_filter_dates cs filter ≡ returns (some q)
      → MeetsAll (cs ++ request_filter filter) d (m.holds q d)
  unfolding with_scope
  scoped_some [] filter q d e = absurd (cc (returns-injective _ _ e))
  scoped_some (c ∷ cs) filter q d e =
      let all = (c ∷ cs) ++ request_filter filter in
      let (ps, a, b) = >>=-eq-returns (parts_of coerce_filter_dates all) _ e in
      subst (MeetsAll all d) (sym (merged_lem ps q d (returns-injective _ _ b)))
        (parts-MeetsAll all ps d a)

  scoped_none :
      (cs : List Input) (filter : Input) (d : D)
      → with_scope coerce_filter_dates cs filter ≡ returns none
      → (rest : List Input) × MeetsAll (cs ++ rest) d true
  unfolding with_scope
  scoped_none [] filter d e = ([], refl)
  scoped_none (c ∷ cs) filter d e =
      let all = (c ∷ cs) ++ request_filter filter in
      let (ps, a, b) = >>=-eq-returns (parts_of coerce_filter_dates all) _ e in
      (
        request_filter filter,
        subst (MeetsAll all d)
            (ap (every (λ x. m.holds x d)) (no_parts ps (returns-injective _ _ b)))
            (parts-MeetsAll all ps d a),
      )

  -- Does a row meet one filter, as compiled? A filter that is absent compiles to the empty query.
  abbrev pub Meets : Input → D → Bool → Type 0
  Meets c d b =
      (compiled : Object Value) × (compile_filter_to_mongo coerce_filter_dates c ≡ returns compiled)
      × (b ≡ m.holds compiled d)

  -- What the outcome says of a row: the new filter keeps it exactly when it meets the three filters;
  -- where there is none, it meets the two of the context.
  abbrev pub IsScoped : Input → Input → Input → D → Option (Object Value) → Type 0
  IsScoped filters scope filter d (some q) =
      (a : Bool) × (b : Bool) × (c : Bool) × Meets filters d a
      × Meets scope d b
      × Meets filter d c
      × (m.holds q d ≡ (a && (b && c)))
  IsScoped filters scope filter d none = Meets filters d true × Meets scope d true

  request-Meets : (c : Input) (d : D) (b : Bool) → MeetsAll (request_filter c) d b → Meets c d b
  unfolding request_filter compile_filter_to_mongo
  request-Meets absent d b h = ([], refl, h ∙ sym (m.holds-nil d))
  request-Meets (ir f) d b (q, rest, e, p, r) = (q, e, p ∙ all_of _ rest r)
  request-Meets (query f) d b (q, rest, e, p, r) = (q, e, p ∙ all_of _ rest r)

  module _ (dateless : coerce_filter_dates [] ≡ []) where
    candidate-Meets :
        (c : Input) (rest : List Input) (d : D) (b : Bool)
        → MeetsAll (scope_candidate c ++ rest) d b
        → (x : Bool) × (y : Bool) × Meets c d x × (b ≡ (x && y)) × MeetsAll rest d y
    unfolding scope_candidate compile_filter_to_mongo expand_shorthands entries
    candidate-Meets absent rest d b h = (true, b, ([], refl, sym (m.holds-nil d)), refl, h)
    candidate-Meets (query end) rest d b h =
        (true, b, ([], ap returns dateless, sym (m.holds-nil d)), refl, h)
    candidate-Meets (query (field k v f)) rest d b (q, y, e, p, r) =
        (m.holds q d, y, (q, e, refl), p, r)
    candidate-Meets (ir f) rest d b (q, y, e, p, r) = (m.holds q d, y, (q, e, refl), p, r)

    context-Meets :
        (filters scope : Input) (rest : List Input) (d : D) (b : Bool)
        → MeetsAll ((scope_candidate filters ++ scope_candidate scope) ++ rest) d b
        → (x : Bool) × (y : Bool) × (z : Bool) × Meets filters d x
          × Meets scope d y
          × (b ≡ (x && (y && z)))
          × MeetsAll rest d z
    context-Meets filters scope rest d b h =
        let (x, w, a, e, g) = candidate-Meets filters (scope_candidate scope ++ rest) d b (
          subst (λ cs. MeetsAll cs d b)
            (append_assoc (scope_candidate filters) (scope_candidate scope) rest) h) in
        let (y, z, c, f, k) = candidate-Meets scope rest d w g in
        (x, y, z, a, c, e ∙ ap (λ v. x && v) f, k)

    -- If the coercion of dates leaves a query without keys alone: where the context's filters and
    -- query give the request a new filter, the filter keeps exactly the rows that meet, each as
    -- compiled, the context's filters, the context's query and the request's own filter, of which an
    -- absent one is met by every row. Where the request is left as it is, every row meets the
    -- context's filters and its query.
    pub inject_policy_scope_into_agg-IsScoped :
        (filters scope filter : Input) (r : Option (Object Value)) (d : D)
        → inject_policy_scope_into_agg coerce_filter_dates filters scope filter ≡ returns r
        → IsScoped filters scope filter d r
    unfolding inject_policy_scope_into_agg
    inject_policy_scope_into_agg-IsScoped filters scope filter (some q) d h =
        let cs = scope_candidate filters ++ scope_candidate scope in
        let (x, y, z, a, b, e, k) =
          context-Meets filters scope (request_filter filter) d _ (scoped_some cs filter q d h) in
        (x, y, z, a, b, request-Meets filter d z k, e)
    inject_policy_scope_into_agg-IsScoped filters scope filter none d h =
        let cs = scope_candidate filters ++ scope_candidate scope in
        let (rest, t) = scoped_none cs filter d h in
        let (x, y, z, (p, a, b), (q, e, f), g, k) = context-Meets filters scope rest d true t in
        let (u, v) = both_true x y z (sym g) in ((p, a, sym u ∙ b), (q, e, sym v ∙ f))
