-- ===== src/Sanitizer/Laws.antt =====
-- What is left after sanitizing has none of the dangerous operators.
use mongokit.Prelude.{
  ℕ, suc, ltb, String, ◌≡◌, refl, subst, Bool, true, false, not, ◌&&◌, ◌||◌, List, Option, none,
  some, Bool-cases, inl, inr, Outcome, returns, >>=-eq-returns, returns-injective,
}
use mongokit.Js.Value.{
  Value, undefined, null, bool, num, str, oid, date, arr, obj, Items, no_items, item, Fields, end,
  field,
}
use mongokit.Pagination.Sort.{includes}
use mongokit.Sanitizer.{
  ParserRuntime, ParserError, is_empty_object, drop_empty, with_entry, reject, guarded,
  kept_branches, branches, sanitize, sanitize_fields, sanitize_value, sanitize_items, sanitize_item,
}

-- Branches that are there and none of which is `{}`.
unfoldable pub all_nonempty : Items → Bool
unfolding is_empty_object
all_nonempty no_items = true
all_nonempty (item v xs) = not (is_empty_object v) && all_nonempty xs

unfoldable pub are_branches : Items → Bool
unfolding all_nonempty
are_branches no_items = false
are_branches (item v xs) = all_nonempty (item v xs)

first : (a b : Bool) → (a && b) ≡ true → a ≡ true
first true b h = refl
first false b h = cc

second : (a b : Bool) → (a && b) ≡ true → b ≡ true
second true b h = h
second false b h = cc

or_true : (a b : Bool) → b ≡ true → (a || b) ≡ true
or_true true b h = refl
or_true false b h = h

module _ (rt : ParserRuntime) (logical : List String) where
  open rt use {dangerous_operators, max_filter_depth, throws_on_reject}

  -- No dangerous operator at any object, and no empty branch under a logical operator, at any depth
  -- of objects and of arrays of objects. Arrays in arrays are not looked into.
  unfoldable mutual
    unfolding includes are_branches

    pub is_safe : Fields → Bool
    is_safe end = true
    is_safe (field k v r) = (not (includes dangerous_operators k) && is_safe_value k v) && is_safe r

    pub is_safe_value : String → Value → Bool
    is_safe_value k (obj f) = is_safe f
    is_safe_value k (arr xs) = are_safe xs && (not (includes logical k) || are_branches xs)
    is_safe_value k v = true

    pub are_safe : Items → Bool
    are_safe no_items = true
    are_safe (item v xs) = is_safe_item v && are_safe xs

    pub is_safe_item : Value → Bool
    is_safe_item (obj f) = is_safe f
    is_safe_item v = true

  abbrev is_safe_entry : String → Option Value → Bool
  is_safe_entry k none = true
  is_safe_entry k (some v) = is_safe_value k v

  both : (a b : Bool) → a ≡ true → b ≡ true → (a && b) ≡ true
  both a b p q = rw (p, q) refl

  drop_empty_lem :
      (xs : Items)
      → are_safe xs ≡ true
      → (are_safe (drop_empty xs) ≡ true) × (all_nonempty (drop_empty xs) ≡ true)
  unfolding drop_empty is_safe all_nonempty
  drop_empty_lem no_items h = (refl, refl)
  drop_empty_lem (item v xs) h =
      let (p, q) = drop_empty_lem xs (second (is_safe_item v) (are_safe xs) h) in
      elim (Bool-cases (is_empty_object v)) [
        | inl e ↦ rw e (p, q)
        | inr e ↦ rw e (both _ _ (first _ _ h) p, rw e q)
      ]

  are_branches_lem : (v : Value) (xs : Items) → are_branches (item v xs) ≡ all_nonempty (item v xs)
  unfolding are_branches
  are_branches_lem v xs = refl

  kept_branches_lem :
      (k : String) (xs : Items) (o : Option Value)
      → are_safe xs ≡ true
      → all_nonempty xs ≡ true
      → kept_branches rt logical xs ≡ returns o
      → is_safe_entry k o ≡ true
  unfolding kept_branches is_safe are_branches
  kept_branches_lem k no_items o s n h =
      let (u, a, b) = >>=-eq-returns (reject rt) _ h in
      subst (λ x. is_safe_entry k x ≡ true) (returns-injective none o b) refl
  kept_branches_lem k (item v xs) o s n h =
      subst (λ x. is_safe_entry k x ≡ true) (returns-injective (some (arr (item v xs))) o h)
        (both (are_safe (item v xs)) _ s (or_true (not (includes logical k)) _ n))

  branches_lem :
      (k : String) (xs : Items) (o : Option Value)
      → are_safe xs ≡ true
      → branches rt logical k xs ≡ returns o
      → is_safe_entry k o ≡ true
  unfolding branches is_safe
  branches_lem k xs o s h = elim (Bool-cases (includes logical k)) [
    | inl e ↦
        let (p, q) = drop_empty_lem xs s in kept_branches_lem k (drop_empty xs) o p q (rw e at h)
    | inr e ↦
        subst (λ x. is_safe_entry k x ≡ true) (returns-injective (some (arr xs)) o (rw e at h))
          (both (are_safe xs) _ s (rw e refl))
  ]

  guarded_lem :
      (depth : ℕ) (m : Outcome ParserError Fields) (g : Fields)
      → ((f : Fields) → m ≡ returns f → is_safe f ≡ true)
      → guarded rt depth m ≡ returns g
      → is_safe g ≡ true
  unfolding guarded is_safe
  guarded_lem depth m g i h = elim (Bool-cases (ltb max_filter_depth depth)) [
    | inl e ↦
        let (u, a, b) = >>=-eq-returns (reject rt) _ (rw e at h) in
        subst (λ x. is_safe x ≡ true) (returns-injective end g b) refl
    | inr e ↦ i g (rw e at h)
  ]

  end-safe :
      (f : Fields)
      → let r : Outcome ParserError Fields = returns end in r ≡ returns f → is_safe f ≡ true
  unfolding is_safe
  end-safe f h = subst (λ x. is_safe x ≡ true) (returns-injective end f h) refl

  with_entry_lem :
      (k : String) (o : Option Value) (r : Fields)
      → includes dangerous_operators k ≡ false
      → is_safe_entry k o ≡ true
      → is_safe r ≡ true
      → is_safe (with_entry k o r) ≡ true
  unfolding with_entry is_safe
  with_entry_lem k none r n s t = t
  with_entry_lem k (some v) r n s t = rw (n, s, t) refl

  mutual
    unfolding sanitize_fields is_safe

    fields_lem :
        (depth : ℕ) (f g : Fields)
        → sanitize_fields rt logical depth f ≡ returns g
        → is_safe g ≡ true
    fields_lem depth end g h = end-safe g h
    fields_lem depth (field k v r) g h = elim (Bool-cases (includes dangerous_operators k)) [
      | inl e ↦ let (u, a, b) = >>=-eq-returns (reject rt) _ (rw e at h) in fields_lem depth r g b
      | inr e ↦
          let (o, a, b) = >>=-eq-returns (sanitize_value rt logical depth k v) _ (rw e at h) in
          let (s, c, d) = >>=-eq-returns (sanitize_fields rt logical depth r) _ b in
          subst (λ x. is_safe x ≡ true) (returns-injective _ _ d)
            (with_entry_lem k o s e (value_lem depth k v o a) (fields_lem depth r s c))
    ]

    value_lem :
        (depth : ℕ) (k : String) (v : Value) (o : Option Value)
        → sanitize_value rt logical depth k v ≡ returns o
        → is_safe_entry k o ≡ true
    value_lem depth k (obj f) o h =
        let (g, a, b) =
          >>=-eq-returns (guarded rt (suc depth) (sanitize_fields rt logical (suc depth) f)) _ h in
        subst (λ x. is_safe_entry k x ≡ true) (returns-injective (some (obj g)) o b)
          (guarded_lem (suc depth) _ g (λ x. fields_lem (suc depth) f x) a)
    value_lem depth k (date n) o h =
        let (g, a, b) = >>=-eq-returns (guarded rt (suc depth) (returns end)) _ h in
        subst (λ x. is_safe_entry k x ≡ true) (returns-injective (some (obj g)) o b)
          (guarded_lem (suc depth) _ g end-safe a)
    value_lem depth k (arr xs) o h =
        let (ys, a, b) = >>=-eq-returns (sanitize_items rt logical (suc depth) xs) _ h in
        branches_lem k ys o (items_lem (suc depth) xs ys a) b
    value_lem depth k undefined o h =
        subst (λ x. is_safe_entry k x ≡ true) (returns-injective (some undefined) o h) refl
    value_lem depth k null o h =
        subst (λ x. is_safe_entry k x ≡ true) (returns-injective (some null) o h) refl
    value_lem depth k (bool b) o h =
        subst (λ x. is_safe_entry k x ≡ true) (returns-injective (some (bool b)) o h) refl
    value_lem depth k (num n) o h =
        subst (λ x. is_safe_entry k x ≡ true) (returns-injective (some (num n)) o h) refl
    value_lem depth k (str s) o h =
        subst (λ x. is_safe_entry k x ≡ true) (returns-injective (some (str s)) o h) refl
    value_lem depth k (oid s) o h =
        subst (λ x. is_safe_entry k x ≡ true) (returns-injective (some (oid s)) o h) refl

    items_lem :
        (depth : ℕ) (xs ys : Items)
        → sanitize_items rt logical depth xs ≡ returns ys
        → are_safe ys ≡ true
    items_lem depth no_items ys h =
        subst (λ x. are_safe x ≡ true) (returns-injective no_items ys h) refl
    items_lem depth (item v xs) ys h =
        let (w, a, b) = >>=-eq-returns (sanitize_item rt logical depth v) _ h in
        let (ws, c, d) = >>=-eq-returns (sanitize_items rt logical depth xs) _ b in
        subst (λ x. are_safe x ≡ true) (returns-injective (item w ws) ys d)
          (both (is_safe_item w) (are_safe ws) (item_lem depth v w a) (items_lem depth xs ws c))

    item_lem :
        (depth : ℕ) (v w : Value)
        → sanitize_item rt logical depth v ≡ returns w
        → is_safe_item w ≡ true
    item_lem depth (obj f) w h =
        let (g, a, b) =
          >>=-eq-returns (guarded rt depth (sanitize_fields rt logical depth f)) _ h in
        subst (λ x. is_safe_item x ≡ true) (returns-injective (obj g) w b)
          (guarded_lem depth _ g (λ x. fields_lem depth f x) a)
    item_lem depth (date n) w h =
        let (g, a, b) = >>=-eq-returns (guarded rt depth (returns end)) _ h in
        subst (λ x. is_safe_item x ≡ true) (returns-injective (obj g) w b)
          (guarded_lem depth _ g end-safe a)
    item_lem depth (arr xs) w h =
        subst (λ x. is_safe_item x ≡ true) (returns-injective (arr xs) w h) refl
    item_lem depth undefined w h =
        subst (λ x. is_safe_item x ≡ true) (returns-injective undefined w h) refl
    item_lem depth null w h = subst (λ x. is_safe_item x ≡ true) (returns-injective null w h) refl
    item_lem depth (bool b) w h =
        subst (λ x. is_safe_item x ≡ true) (returns-injective (bool b) w h) refl
    item_lem depth (num n) w h =
        subst (λ x. is_safe_item x ≡ true) (returns-injective (num n) w h) refl
    item_lem depth (str s) w h =
        subst (λ x. is_safe_item x ≡ true) (returns-injective (str s) w h) refl
    item_lem depth (oid s) w h =
        subst (λ x. is_safe_item x ≡ true) (returns-injective (oid s) w h) refl

  pub sanitize_lem :
      (depth : ℕ) (f g : Fields) → sanitize rt logical depth f ≡ returns g → is_safe g ≡ true
  unfolding sanitize
  sanitize_lem depth f g h = guarded_lem depth _ g (λ x. fields_lem depth f x) h
