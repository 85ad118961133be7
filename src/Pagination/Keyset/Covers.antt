-- ===== src/Pagination/Keyset/Covers.antt =====
-- Following the cursors from the first page to the last gives every row once, in order.
use native.Mathlib.Numerals.{add-one}
use mongokit.Prelude.{
  ℕ, zero, suc, ◌+◌, ◌<◌, String, ◌≡◌, ◌≢◌, refl, sym, ap, subst, ◌∙◌, true, false, Option, none,
  some, List, [], ◌∷◌, ◌++◌, append-nil, append_assoc, length, take, drop, last, filter,
  last-append, trim-take, ltb-length-take, take_all, take-append-drop, length-drop,
  length-take_of_le, arith, ltb, ltb→lt, str_eq, eq_iff, Bool-cases, inl, inr, returns,
  returns-injective,
}
use mongokit.Js.Object.{get, put, has, keys}
use mongokit.Js.Object.Laws.{IsObject}
use mongokit.Js.Value.{ℤ, int_lt}
use mongokit.Mongo.{Matching}
use mongokit.Pagination.Limits.{Number, validate_limit}
use mongokit.Pagination.Offset.{or_default}
use mongokit.Pagination.Sort.{
  SortSpec, is_direction, non_id, get_primary_field, validate_keyset_sort, normalize_sort,
}
use mongokit.Pagination.Sort.Laws.{directed, IsKeysetSort, validate_keyset_sort-IsKeysetSort}
use mongokit.Pagination.Filter.{Filter, append_id, build_keyset_filter}
use mongokit.Pagination.Filter.Behind.{directed-append_id, primary_of, cursor_values}
use mongokit.Pagination.Cursor.{Runtime, encode_cursor}
use mongokit.Pagination.Keyset.{
  Find, KeysetConfig, KeysetOptions, query_of, next_cursor, page_of, stream_sorted, stream,
  sort_result,
}
use mongokit.Pagination.Keyset.Order.{IsOrder}
use mongokit.Pagination.Keyset.Walk.{Source, IsKeyed, walk}
use mongokit.Pagination.Keyset.Resume.{query_of-token, filter_behind-rest}

regroup {ℓ} :
    {A : Type ℓ} (front init : List A) (c : A) (later : List A)
    → front ++ ((init ++ c ∷ []) ++ later) ≡ (front ++ init) ++ c ∷ later
regroup front init c later = simp append_assoc

module _ {D : Type 0} (rt : Runtime) (m : Matching D) (order : IsOrder m) (find : Find D)
    (source : Source rt m find) (config : KeysetConfig) (d : ℤ) (names : List String)
    (base : Filter) (direction : is_direction d ≡ true)
    (distinct : IsObject (directed d (append_id names))) (keyed : IsKeyed rt m find base names)
    (version : int_lt config.cursor_version config.min_cursor_version ≡ false) (limit : ℕ)
    (some_rows : 0 < limit) where
  abbrev the_sort : SortSpec
  the_sort = directed d (append_id names)

  abbrev all_rows : List D
  all_rows = filter (λ x. m.holds base x) (source.ordered the_sort)

  abbrev token_of : D → rt.Text
  token_of c =
      encode_cursor rt (λ f. m.value_at f c) (get_primary_field the_sort) the_sort
        config.cursor_version

  abbrev filter_behind_row : D → Filter
  filter_behind_row c =
      build_keyset_filter base the_sort (m.value_at (primary_of names) c) (m.value_at "_id" c)
        (cursor_values (λ f. m.value_at f c) names)

  fetched :
      (q : Filter) (rest : List D)
      → filter (λ x. m.holds q x) (source.ordered the_sort) ≡ rest
      → find q the_sort (limit + 1) ≡ take (suc limit) rest
  fetched q rest e =
      rw add-one (source.find-eq q the_sort (suc limit) (omega arith) ∙ ap (take (suc limit)) e)

  page_of-items :
      (rest : List D)
      → (page_of rt m.value_at find config the_sort limit (take (suc limit) rest)).items
        ≡ take limit rest
  unfolding page_of
  page_of-items rest = trim-take limit rest

  -- The last page has no cursor, and any other the cursor of its last row.
  page_of-next :
      (rest : List D)
      → (page_of rt m.value_at find config the_sort limit (take (suc limit) rest)).next
        ≡ next_cursor rt m.value_at find config the_sort
            (ltb limit (length rest))
            (last (take limit rest))
  unfolding page_of
  page_of-next rest =
      ap
        (λ l.
          next_cursor rt m.value_at find config the_sort
            (ltb limit (length (take (suc limit) rest))) (last l))
        (trim-take limit rest)
      ∙ ap (λ b. next_cursor rt m.value_at find config the_sort b (last (take limit rest)))
          (ltb-length-take limit rest)

  module _ (to_number : String → Number) (o : KeysetOptions rt.Text) (given : SortSpec)
      (asked : o.sort ≡ some given) (base_lem : o.filters ≡ base)
      (valid : validate_keyset_sort config.strict_keyset_sort_fields given ≡ returns the_sort)
      (limit_lem : validate_limit to_number (or_default o.limit config.default_limit) config.limits
        ≡ limit) where
    -- One call of `stream`, where its query is known.
    page_lem :
        (after : Option rt.Text) (q : Filter) (rest : List D)
        → query_of rt m.value_at find config the_sort base after ≡ returns q
        → filter (λ x. m.holds q x) (source.ordered the_sort) ≡ rest
        → stream rt m.value_at find to_number config (record o { after = after })
          ≡ returns (page_of rt m.value_at find config the_sort limit (take (suc limit) rest))
    unfolding stream stream_sorted sort_result
    page_lem after q rest e f = rw (asked, valid, limit_lem, base_lem, e, fetched q rest f)

    walk_rest :
        (n : ℕ) (after : Option rt.Text) (q : Filter) (front rest : List D)
        → query_of rt m.value_at find config the_sort base after ≡ returns q
        → filter (λ x. m.holds q x) (source.ordered the_sort) ≡ rest
        → all_rows ≡ front ++ rest
        → length rest < n
        → walk rt m find to_number config o n after ≡ rest
    unfolding walk next_cursor
    walk_rest zero after q front rest e f g h = absurd (omega arith)
    walk_rest (suc n) after q front rest e f g h =
        rw (page_lem after q rest e f, page_of-items rest, page_of-next rest)
          (elim (Bool-cases (ltb limit (length rest))) [
            | inl more ↦
                let fits = ltb→lt limit (length rest) more in
                let (c, init, split, at_end) =
                  last-append (take limit rest)
                    (omega (arith, length-take_of_le limit rest (omega arith))) in
                let later = drop limit rest in
                let place : all_rows ≡ (front ++ init) ++ c ∷ later =
                  g
                  ∙ ap (λ r. front ++ r) (sym (take-append-drop limit rest))
                  ∙ ap (λ t. front ++ (t ++ later)) split
                  ∙ regroup front init c later in
                rw (more, at_end)
                  (ap (λ r. take limit rest ++ r)
                      (walk_rest n (some (token_of c)) (filter_behind_row c)
                        ((front ++ init) ++ c ∷ []) later
                        (query_of-token rt m order find source config d names base direction
                          distinct keyed version c)
                        (filter_behind-rest rt m order find source config d names base direction
                          distinct keyed version (front ++ init) c later place)
                        (place ∙ sym (append_assoc (front ++ init) (c ∷ []) later))
                        (omega (arith, length-drop limit rest)))
                    ∙ take-append-drop limit rest)
            | inr done ↦
                rw (done, next_cursor)
                  (append-nil (take limit rest) ∙ take_all limit rest (ground arith))
          ])

-- The condition on a cursor's version.
abbrev pub Accepts : KeysetConfig → Type 0
Accepts config = int_lt config.cursor_version config.min_cursor_version ≡ false

head_eq : {j k : String} {js ks : List String} → let l : List String = j ∷ js in l ≡ k ∷ ks → j ≡ k
head_eq p = cc

keyset_form_of :
    (allowed : List String) (given t : SortSpec)
    → IsKeysetSort allowed (keys (non_id given)) t
    → (d : ℤ) × (is_direction d ≡ true)
      × (t ≡ directed d (append_id (keys (non_id given))))
      × IsObject t
keyset_form_of allowed given t k = (
  k.direction,
  k.valid,
  k.shape ∙ directed-append_id k.direction (keys (non_id given)),
  k.distinct,
)

other_name :
    (k : String) → str_eq k "_id" ≡ false → let ks : List String = k ∷ [] in ks ≢ "_id" ∷ []
other_name k q p = ground (arith, eq_iff k "_id", head_eq p)

-- A sort that is accepted, as fields in one direction; on `_id` alone, where its direction is valid.
keyset_form :
    (allowed : List String) (given t : SortSpec)
    → IsObject given
    → ((d : ℤ) → given ≡ ("_id", d) ∷ [] → is_direction d ≡ true)
    → validate_keyset_sort allowed given ≡ returns t
    → (d : ℤ) × (is_direction d ≡ true)
      × (t ≡ directed d (append_id (keys (non_id given))))
      × IsObject t
unfolding validate_keyset_sort non_id normalize_sort get put has
keyset_form allowed [] t h i e = cc
keyset_form allowed ((k, d) ∷ []) t h i e = elim (Bool-cases (str_eq k "_id")) [
  | inl q ↦
      let k_lem = (eq_iff k "_id").0 q in
      let t_lem : t ≡ ("_id", d) ∷ [] = sym (returns-injective _ _ (rw (k_lem) at e)) in
      (d, i d (ap (λ j. (j, d) ∷ []) k_lem), rw q t_lem, subst IsObject (sym t_lem) (refl, tt))
  | inr q ↦
      keyset_form_of allowed ((k, d) ∷ []) t
        (validate_keyset_sort-IsKeysetSort allowed ((k, d) ∷ []) t h (other_name k q) e)
]
keyset_form allowed ((k, d) ∷ x ∷ s) t h i e =
    keyset_form_of allowed ((k, d) ∷ x ∷ s) t
      (validate_keyset_sort-IsKeysetSort allowed ((k, d) ∷ x ∷ s) t h (cc) e)

-- Walking a keyset-paginated read from its first page, each time with the cursor that came with the
-- page before, gives exactly the rows that the caller's filter selects, each once and in the order
-- of the sort, and then ends: for any sort that is accepted (on `_id` alone, with a valid direction),
-- any positive limit and any number of rows, given more calls than rows. It takes that the filter
-- has no `$or` of its own, that the sort fields hold scalars, none null, in a strict order, and that
-- the cursor version is not below the minimum.
pub walk-covers :
    {D : Type 0} (rt : Runtime) (m : Matching D) (order : IsOrder m) (find : Find D)
    (source : Source rt m find) (config : KeysetConfig) (to_number : String → Number)
    (o : KeysetOptions rt.Text) (given t : SortSpec) (n : ℕ)
    → o.sort ≡ some given
    → IsObject given
    → ((d : ℤ) → given ≡ ("_id", d) ∷ [] → is_direction d ≡ true)
    → validate_keyset_sort config.strict_keyset_sort_fields given ≡ returns t
    → IsKeyed rt m find o.filters (keys (non_id given))
    → Accepts config
    → 0 < validate_limit to_number (or_default o.limit config.default_limit) config.limits
    → length (filter (λ x. m.holds o.filters x) (source.ordered t)) < n
    → walk rt m find to_number config o n none
      ≡ filter (λ x. m.holds o.filters x) (source.ordered t)
unfolding query_of
walk-covers rt m order find source config to_number o given t n asked object_ id_only valid keyed
      accepts some_rows enough =
    let (d, direction, e, distinct) =
      keyset_form config.strict_keyset_sort_fields given t object_ id_only valid in
    let names = keys (non_id given) in
    let rows_of = λ (s : SortSpec). filter (λ x. m.holds o.filters x) (source.ordered s) in
    walk_rest rt m order find source config d names o.filters direction (subst IsObject e distinct)
      keyed accepts
      (validate_limit to_number (or_default o.limit config.default_limit) config.limits) some_rows
      to_number o given asked refl (valid ∙ ap returns e) refl n none o.filters []
      (rows_of (directed d (append_id names))) refl refl refl
      (subst (λ s. length (rows_of s) < n) e enough)
    ∙ ap rows_of (sym e)
