-- ===== src/Sanitizer.antt =====
-- src/query/parser/pipeline-sanitizer.ts, on values that a URL can carry: JSON. (A date has no
-- entries of its own; an ObjectId does not occur.) The name of an array's index is the engine's.
pub mod Laws
pub mod Pipeline
mod Tests
use mongokit.Prelude.{
  ℕ, suc, ltb, String, Bool, true, false, not, ◌&&◌, ◌||◌, List, [], ◌∷◌, Option, none, some,
  str_eq, if◌then◌else◌, Outcome, returns, throws, ◌>>=◌, ◌>>◌, throw_if,
}
use mongokit.Js.Value.{
  Value, undefined, null, bool, num, str, oid, date, arr, obj, Items, no_items, item, Fields, end,
  field,
}
use mongokit.Pagination.Sort.{includes}

pub record ParserRuntime : Type 0 where
  pub dangerous_operators : List String
  pub max_filter_depth : ℕ
  -- `invalidInput: 'throw'`; otherwise `reject` writes to the log and goes on.
  pub throws_on_reject : Bool
  pub index_name : ℕ → String

pub data ParserError : Type 0 where
  invalid_query_input : ParserError

abbrev pub base_dangerous_operators : List String
base_dangerous_operators = "$where" ∷ "$function" ∷ "$accumulator" ∷ "$expr" ∷ []

abbrev pub logical_array_ops : List String
logical_array_ops = "$or" ∷ "$and" ∷ "$nor" ∷ []

unfoldable pub is_empty_object : Value → Bool
is_empty_object (obj end) = true
is_empty_object v = false

-- The branches that are not `{}`.
unfoldable pub drop_empty : Items → Items
unfolding is_empty_object
drop_empty no_items = no_items
drop_empty (item v xs) = let rest = drop_empty xs in if is_empty_object v then rest else item v rest

-- `sanitized[key] = …`, where the entry was not dropped.
unfoldable pub with_entry : String → Option Value → Fields → Fields
with_entry k none r = r
with_entry k (some v) r = field k v r

module _ (rt : ParserRuntime) where
  open rt use {dangerous_operators, max_filter_depth, throws_on_reject, index_name}

  abbrev pub reject : Outcome ParserError (Unit {0})
  reject = throw_if throws_on_reject invalid_query_input

  -- The guard on the depth, around what is done at that depth.
  unfoldable pub guarded : ℕ → Outcome ParserError Fields → Outcome ParserError Fields
  guarded depth inside = if ltb max_filter_depth depth then reject >> returns end else inside

  module _ (logical : List String) where
    -- What becomes of a logical operator whose branches are all gone.
    unfoldable pub kept_branches : Items → Outcome ParserError (Option Value)
    kept_branches no_items = reject >> returns none
    kept_branches (item v xs) = returns (some (arr (item v xs)))

    unfoldable pub branches : String → Items → Outcome ParserError (Option Value)
    unfolding includes drop_empty kept_branches
    branches k xs =
        if includes logical k then kept_branches (drop_empty xs) else returns (some (arr xs))

    -- `sanitizeMatchConfig` and `sanitizeExpressions` are one function here: the latter has no
    -- logical operators.
    unfoldable mutual
      unfolding includes branches with_entry guarded

      pub sanitize_fields : ℕ → Fields → Outcome ParserError Fields
      sanitize_fields depth end = returns end
      sanitize_fields depth (field k v r) =
          let rest = sanitize_fields depth r in
          let value = sanitize_value depth k v in
          if includes dangerous_operators k
          then reject >> rest
          else (value >>= λ o. rest >>= λ s. returns (with_entry k o s))

      pub sanitize_value : ℕ → String → Value → Outcome ParserError (Option Value)
      sanitize_value depth k (obj f) =
          guarded (suc depth) (sanitize_fields (suc depth) f) >>= λ g. returns (some (obj g))
      sanitize_value depth k (date n) =
          guarded (suc depth) (returns end) >>= λ g. returns (some (obj g))
      sanitize_value depth k (arr xs) = sanitize_items (suc depth) xs >>= branches k
      sanitize_value depth k v = returns (some v)

      pub sanitize_items : ℕ → Items → Outcome ParserError Items
      sanitize_items depth no_items = returns no_items
      sanitize_items depth (item v xs) =
          sanitize_item depth v >>= λ w. sanitize_items depth xs >>= λ ws. returns (item w ws)

      -- An array in an array is left as it is.
      pub sanitize_item : ℕ → Value → Outcome ParserError Value
      sanitize_item depth (obj f) = guarded depth (sanitize_fields depth f) >>= λ g. returns (obj g)
      sanitize_item depth (date n) = guarded depth (returns end) >>= λ g. returns (obj g)
      sanitize_item depth v = returns v

    unfoldable pub sanitize : ℕ → Fields → Outcome ParserError Fields
    unfolding guarded sanitize_fields
    sanitize depth f = guarded depth (sanitize_fields depth f)

  unfoldable pub sanitize_match_config : ℕ → Fields → Outcome ParserError Fields
  unfolding sanitize
  sanitize_match_config = sanitize logical_array_ops

  unfoldable pub sanitize_expressions : ℕ → Fields → Outcome ParserError Fields
  unfolding sanitize
  sanitize_expressions = sanitize []

  unfoldable pub index_fields : ℕ → Items → Fields
  index_fields n no_items = end
  index_fields n (item v xs) = field (index_name n) v (index_fields (suc n) xs)

  -- `Object.entries(v)`, where `v && typeof v === 'object'`.
  unfoldable pub entries_of : Value → Option Fields
  unfolding index_fields
  entries_of (obj f) = some f
  entries_of (arr xs) = some (index_fields 0 xs)
  entries_of (date n) = some end
  entries_of (oid s) = some end
  entries_of v = none

abbrev pub blocked_stages : List String
blocked_stages =
    "$out" ∷ "$merge" ∷ "$unionWith" ∷ "$collStats" ∷ "$currentOp" ∷ "$listSessions" ∷ []

module _ (rt : ParserRuntime) where
  -- One stage with the operator `op`, which is not blocked; `none` where it is dropped.
  unfoldable pub sanitize_config :
      String → Option Fields → Value → Outcome ParserError (Option Value)
  unfolding sanitize_match_config sanitize_expressions
  sanitize_config op none stage = returns (some stage)
  sanitize_config op (some config) stage =
      let as_match = sanitize_match_config rt 0 config in
      let as_expressions = sanitize_expressions rt 0 config in
      if str_eq op "$match"
      then (as_match >>= λ g. returns (some (obj (field "$match" (obj g) end))))
      else if str_eq op "$addFields" || str_eq op "$set"
      then (as_expressions >>= λ g. returns (some (obj (field op (obj g) end))))
      else returns (some stage)

  unfoldable pub sanitize_entries : Option Fields → Value → Outcome ParserError (Option Value)
  unfolding includes sanitize_config entries_of
  sanitize_entries (some (field op config end)) stage =
      if includes blocked_stages op
      then reject rt >> returns none
      else sanitize_config op (entries_of rt config) stage
  sanitize_entries _ stage = reject rt >> returns none

  unfoldable pub push : Option Value → List Value → List Value
  push none stages = stages
  push (some v) stages = v ∷ stages

  unfoldable pub sanitize_pipeline : List Value → Outcome ParserError (List Value)
  unfolding sanitize_entries entries_of push
  sanitize_pipeline [] = returns []
  sanitize_pipeline (stage ∷ stages) = sanitize_entries (entries_of rt stage) stage >>= λ o.
      sanitize_pipeline stages >>= λ rest. returns (push o rest)
