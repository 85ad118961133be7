-- ===== src/FilterIr/Shorthand.antt =====
-- `expandShorthands` of src/filter/compile.ts: `{ price: { gte: 5 } }` as `{ price: { $gte: 5 } }`.
use mongokit.Prelude.{
  String, Bool, true, false, not, ◌&&◌, ◌≡◌, refl, List, [], ◌∷◌, if◌then◌else◌, Bool-cases, inl,
  inr,
}
use mongokit.Js.Value.{
  Value, undefined, null, bool, num, str, oid, date, arr, obj, Items, no_items, item, Fields, end,
  field, is_operator,
}
use mongokit.Pagination.Sort.{includes}

abbrev pub shorthand_ops : List String
shorthand_ops =
    "eq" ∷ "ne" ∷ "gt" ∷ "gte" ∷ "lt" ∷ "lte" ∷ "in" ∷ "nin" ∷ "exists" ∷ "regex" ∷ "mod" ∷ []

abbrev pub logical_array_ops : List String
logical_array_ops = "$and" ∷ "$or" ∷ "$nor" ∷ []

-- `!k.startsWith('$') && SHORTHAND_OPS.has(k)`
unfoldable pub is_shorthand : String → Bool
unfolding is_operator includes
is_shorthand k = not (is_operator k) && includes shorthand_ops k

unfoldable pub all_shorthands : Fields → Bool
unfolding is_shorthand
all_shorthands end = true
all_shorthands (field k v r) = is_shorthand k && all_shorthands r

-- `keys.length > 0 && keys.every(…)`
unfoldable pub is_shorthands : Fields → Bool
unfolding all_shorthands
is_shorthands end = false
is_shorthands (field k v r) = all_shorthands (field k v r)

unfoldable pub prefixed : Fields → Fields
prefixed end = end
prefixed (field k v r) = field (String.◌∷◌ "$" k) v (prefixed r)

unfoldable pub expand_operand : Fields → Fields
unfolding is_shorthands prefixed
expand_operand f = if is_shorthands f then prefixed f else f

unfoldable mutual
  unfolding includes expand_operand

  pub expand_shorthands : Fields → Fields
  expand_shorthands end = end
  expand_shorthands (field k v r) =
      field k (expand_value v (includes logical_array_ops k)) (expand_shorthands r)

  -- The value under a key, which may be one of the logical operators.
  pub expand_value : Value → Bool → Value
  expand_value (arr xs) true = arr (expand_items xs)
  expand_value (obj f) b = obj (expand_operand f)
  expand_value v b = v

  pub expand_items : Items → Items
  expand_items no_items = no_items
  expand_items (item v xs) = item (expand_entry v) (expand_items xs)

  pub expand_entry : Value → Value
  expand_entry (obj f) = obj (expand_shorthands f)
  expand_entry v = v

is_shorthands-prefixed : (f : Fields) → is_shorthands (prefixed f) ≡ false
unfolding is_shorthands all_shorthands is_shorthand prefixed is_operator
is_shorthands-prefixed end = refl
is_shorthands-prefixed (field k v r) = refl

expand_operand_idem : (f : Fields) → expand_operand (expand_operand f) ≡ expand_operand f
unfolding expand_operand
expand_operand_idem f = elim (Bool-cases (is_shorthands f)) [
  | inl e ↦ rw (e, is_shorthands-prefixed f) refl
  | inr e ↦ rw (e, e) refl
]

mutual
  unfolding expand_shorthands

  expand_again : (f : Fields) → expand_shorthands (expand_shorthands f) ≡ expand_shorthands f
  expand_again end = refl
  expand_again (field k v r) =
      λ i. field k (expand_value_idem v (includes logical_array_ops k) i) (expand_again r i)

  expand_value_idem : (v : Value) (b : Bool) → expand_value (expand_value v b) b ≡ expand_value v b
  expand_value_idem undefined b = refl
  expand_value_idem null b = refl
  expand_value_idem (bool x) b = refl
  expand_value_idem (num x) b = refl
  expand_value_idem (str x) b = refl
  expand_value_idem (oid x) b = refl
  expand_value_idem (date x) b = refl
  expand_value_idem (arr xs) true = λ i. arr (expand_items_idem xs i)
  expand_value_idem (arr xs) false = refl
  expand_value_idem (obj f) b = λ i. obj (expand_operand_idem f i)

  expand_items_idem : (xs : Items) → expand_items (expand_items xs) ≡ expand_items xs
  expand_items_idem no_items = refl
  expand_items_idem (item v xs) = λ i. item (expand_entry_idem v i) (expand_items_idem xs i)

  expand_entry_idem : (v : Value) → expand_entry (expand_entry v) ≡ expand_entry v
  expand_entry_idem undefined = refl
  expand_entry_idem null = refl
  expand_entry_idem (bool x) = refl
  expand_entry_idem (num x) = refl
  expand_entry_idem (str x) = refl
  expand_entry_idem (oid x) = refl
  expand_entry_idem (date x) = refl
  expand_entry_idem (arr xs) = refl
  expand_entry_idem (obj f) = λ i. obj (expand_again f i)

-- Expanding a query again changes nothing, at any depth of `$and`, `$or` and `$nor`: what was
-- expanded is never taken for a shorthand.
expand_shorthands_idem :
    (f : Fields) → expand_shorthands (expand_shorthands f) ≡ expand_shorthands f
expand_shorthands_idem = expand_again
