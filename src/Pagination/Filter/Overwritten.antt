-- ===== src/Pagination/Filter/Overwritten.antt =====
-- What becomes of an `$or` in the caller's filter.
use mongokit.Prelude.{
  String, ◌≡◌, refl, Option, none, some, [], ◌∷◌, length, leb, false, str_eq, eq_refl, Bool-cases,
  inl, inr,
}
use mongokit.Js.Object.{Object, get, put, keys}
use mongokit.Js.Value.{ℤ, Value}
use mongokit.Pagination.Sort.{SortSpec, non_id}
use mongokit.Pagination.Filter.{
  Filter, is_nullish, with_or, single_field_filter, compound_filter, build_keyset_filter, first_key,
  or_id,
}

put-put : (k : String) (v w : Value) (o : Object Value) → put k w (put k v o) ≡ put k w o
unfolding put
put-put k v w [] = rw (eq_refl k) refl
put-put k v w ((j, x) ∷ o) = elim (Bool-cases (str_eq j k)) [
  | inl e ↦ rw (e, e) refl
  | inr e ↦ rw (e, e) (λ i. (j, x) ∷ put-put k v w o i)
]

compound_filter-put :
    (base : Filter) (sort : SortSpec) (values : Object Value) (id v : Value)
    → compound_filter (put "$or" v base) sort values id ≡ compound_filter base sort values id
unfolding compound_filter with_or
compound_filter-put base sort values id v = put-put "$or" v _ base

single_field_filter-put :
    (base : Filter) (primary : String) (d : Option ℤ) (value id v : Value)
    → is_nullish value ≡ false
    → single_field_filter (put "$or" v base) primary d value id
      ≡ single_field_filter base primary d value id
unfolding single_field_filter with_or
single_field_filter-put base primary d value id v h = rw h (put-put "$or" v _ base)

-- The filter behind a cursor whose value is not null is the same whatever `$or` the caller's filter
-- has: the cursor's own `$or` takes its place, so from the second page on the caller's is lost.
pub build_keyset_filter-put :
    (base : Filter) (sort : SortSpec) (value id v : Value) (vals : Option (Object Value))
    → is_nullish value ≡ false
    → build_keyset_filter (put "$or" v base) sort value id vals
      ≡ build_keyset_filter base sort value id vals
unfolding build_keyset_filter
build_keyset_filter-put base sort value id v (some vals) h = compound_filter-put base sort vals id v
build_keyset_filter-put base sort value id v none h =
    let primary = or_id (first_key (keys (non_id sort))) in
    elim (Bool-cases (leb (length (keys (non_id sort))) 1)) [
      | inl e ↦ rw e (single_field_filter-put base primary (get primary sort) value id v h)
      | inr e ↦ rw e (compound_filter-put base sort ((primary, value) ∷ []) id v)
    ]
