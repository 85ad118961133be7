-- ===== src/Sanitizer/Pipeline.antt =====
-- The stages of a sanitized pipeline.
use mongokit.Prelude.{
  String, ◌≡◌, refl, subst, Bool, true, false, not, ◌&&◌, ◌||◌, List, [], ◌∷◌, Option, none, some,
  All, str_eq, if◌then◌else◌, Bool-cases, inl, inr, returns, ◌>>◌, >>=-eq-returns,
  returns-injective,
}
use mongokit.Js.Value.{Value, obj, Fields, end, field}
use mongokit.Pagination.Sort.{includes}
use mongokit.Sanitizer.{
  ParserRuntime, logical_array_ops, blocked_stages, reject, entries_of, sanitize_match_config,
  sanitize_expressions, sanitize_config, sanitize_entries, sanitize_pipeline, push,
}
use mongokit.Sanitizer.Laws.{is_safe, sanitize_lem}

module _ (rt : ParserRuntime) where
  unfoldable pub is_safe_under : List String → Option Fields → Bool
  unfolding is_safe
  is_safe_under logical none = true
  is_safe_under logical (some f) = is_safe rt logical f

  -- What may stand under the operator of a stage.
  unfoldable pub is_safe_config : String → Option Fields → Bool
  unfolding is_safe_under
  is_safe_config op config =
      if str_eq op "$match"
      then is_safe_under logical_array_ops config
      else if str_eq op "$addFields" || str_eq op "$set"
      then is_safe_under [] config
      else true

  -- A stage with exactly one operator, which is not blocked.
  unfoldable pub is_safe_stage : Option Fields → Bool
  unfolding includes is_safe_config entries_of
  is_safe_stage (some (field op config end)) =
      not (includes blocked_stages op) && is_safe_config op (entries_of rt config)
  is_safe_stage _ = false

  abbrev pub IsSafe : Value → Type 0
  IsSafe v = is_safe_stage (entries_of rt v) ≡ true

  abbrev IsSafeEntry : Option Value → Type 0
  IsSafeEntry none = Unit
  IsSafeEntry (some v) = IsSafe v

  IsSafe-match :
      (g : Fields)
      → is_safe rt logical_array_ops g ≡ true
      → IsSafe (obj (field "$match" (obj g) end))
  unfolding is_safe_stage is_safe_config entries_of is_safe_under includes
  IsSafe-match g s = s

  IsSafe-expressions :
      (op : String) (g : Fields)
      → str_eq op "$match" ≡ false
      → (str_eq op "$addFields" || str_eq op "$set") ≡ true
      → includes blocked_stages op ≡ false
      → is_safe rt [] g ≡ true
      → IsSafe (obj (field op (obj g) end))
  unfolding is_safe_stage is_safe_config entries_of is_safe_under
  IsSafe-expressions op g a b n s = rw (n, a, b) s

  IsSafe-other :
      (op : String) (config v : Value)
      → entries_of rt v ≡ some (field op config end)
      → str_eq op "$match" ≡ false
      → (str_eq op "$addFields" || str_eq op "$set") ≡ false
      → includes blocked_stages op ≡ false
      → IsSafe v
  unfolding is_safe_stage is_safe_config
  IsSafe-other op config v e a b n = rw (e, n, a, b) refl

  safe_none : (op : String) → is_safe_config op none ≡ true
  unfolding is_safe_config is_safe_under
  safe_none op = elim (Bool-cases (str_eq op "$match")) [
    | inl a ↦ rw a refl
    | inr a ↦ elim (Bool-cases (str_eq op "$addFields" || str_eq op "$set")) [
      | inl b ↦ rw (a, b) refl
      | inr b ↦ rw (a, b) refl
    ]
  ]

  match_lem :
      (f g : Fields)
      → sanitize_match_config rt 0 f ≡ returns g
      → is_safe rt logical_array_ops g ≡ true
  unfolding sanitize_match_config
  match_lem f g h = sanitize_lem rt logical_array_ops 0 f g h

  expressions_lem :
      (f g : Fields) → sanitize_expressions rt 0 f ≡ returns g → is_safe rt [] g ≡ true
  unfolding sanitize_expressions
  expressions_lem f g h = sanitize_lem rt [] 0 f g h

  dropped : (o : Option Value) → (reject rt >> returns none) ≡ returns o → IsSafeEntry o
  dropped o h =
      let (u, a, b) = >>=-eq-returns (reject rt) _ h in
      subst IsSafeEntry (returns-injective none o b) tt

  pushed :
      (o : Option Value) (rest : List Value)
      → IsSafeEntry o
      → All IsSafe rest
      → All IsSafe (push rt o rest)
  unfolding push
  pushed none rest s r = r
  pushed (some v) rest s r = (s, r)

  IsSafe-scalar :
      (op : String) (config v : Value)
      → entries_of rt v ≡ some (field op config end)
      → entries_of rt config ≡ none
      → includes blocked_stages op ≡ false
      → IsSafe v
  unfolding is_safe_stage
  IsSafe-scalar op config v e c n = rw (e, n, c) (safe_none op)

  config_lem :
      (op : String) (config v : Value) (c : Option Fields) (o : Option Value)
      → entries_of rt v ≡ some (field op config end)
      → entries_of rt config ≡ c
      → includes blocked_stages op ≡ false
      → sanitize_config rt op c v ≡ returns o
      → IsSafeEntry o
  unfolding sanitize_config
  config_lem op config v none o e c n h =
      subst IsSafeEntry (returns-injective (some v) o h) (IsSafe-scalar op config v e c n)
  config_lem op config v (some f) o e c n h = elim (Bool-cases (str_eq op "$match")) [
    | inl a ↦
        let (g, p, q) = >>=-eq-returns (sanitize_match_config rt 0 f) _ (rw a at h) in
        subst IsSafeEntry (returns-injective _ _ q) (IsSafe-match g (match_lem f g p))
    | inr a ↦ elim (Bool-cases (str_eq op "$addFields" || str_eq op "$set")) [
      | inl b ↦
          let (g, p, q) = >>=-eq-returns (sanitize_expressions rt 0 f) _ (rw (a, b) at h) in
          subst IsSafeEntry (returns-injective _ _ q)
            (IsSafe-expressions op g a b n (expressions_lem f g p))
      | inr b ↦
          subst IsSafeEntry (returns-injective (some v) o (rw (a, b) at h))
            (IsSafe-other op config v e a b n)
    ]
  ]

  entries_lem :
      (v : Value) (f : Option Fields) (o : Option Value)
      → entries_of rt v ≡ f
      → sanitize_entries rt f v ≡ returns o
      → IsSafeEntry o
  unfolding sanitize_entries
  entries_lem v none o e h = dropped o h
  entries_lem v (some end) o e h = dropped o h
  entries_lem v (some (field op config (field k w r))) o e h = dropped o h
  entries_lem v (some (field op config end)) o e h =
      elim (Bool-cases (includes blocked_stages op)) [
        | inl b ↦ dropped o (rw b at h)
        | inr b ↦ config_lem op config v (entries_of rt config) o e refl b (rw b at h)
      ]

  -- What is left of a pipeline is stages with exactly one operator each, none of which is blocked;
  -- under `$match`, `$addFields` and `$set` there is no dangerous operator at any depth of objects
  -- and of arrays of objects (arrays in arrays are not looked into), and in a `$match` no `$and`,
  -- `$or` or `$nor` is empty or has an empty branch.
  pub sanitize_pipeline-IsSafe :
      (stages out : List Value) → sanitize_pipeline rt stages ≡ returns out → All IsSafe out
  unfolding sanitize_pipeline push
  sanitize_pipeline-IsSafe [] out h = subst (All IsSafe) (returns-injective [] out h) tt
  sanitize_pipeline-IsSafe (stage ∷ stages) out h =
      let (o, a, b) = >>=-eq-returns (sanitize_entries rt (entries_of rt stage) stage) _ h in
      let (rest, c, d) = >>=-eq-returns (sanitize_pipeline rt stages) _ b in
      subst (All IsSafe) (returns-injective _ _ d) (
        pushed o rest (entries_lem stage (entries_of rt stage) o refl a)
          (sanitize_pipeline-IsSafe stages rest c))
