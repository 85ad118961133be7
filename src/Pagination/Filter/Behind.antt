-- ===== src/Pagination/Filter/Behind.antt =====
-- The keyset filter made from a row of a keyset sort selects exactly the rows behind that row.
use mongokit.Prelude.{
  String, ◌≡◌, refl, sym, ap, subst, inl, inr, true, false, ◌&&◌, ◌||◌, Option, none, some, List,
  [], ◌∷◌, ◌++◌, arith, str_eq, eq_iff, eq_refl, Bool-cases,
}
use mongokit.Js.Object.{Object, get, has, put, keys, get-put}
use mongokit.Js.Object.Laws.{IsObject, has-put}
use mongokit.Js.Value.{ℤ, Value, is_operator}
use mongokit.Mongo.{Matching, IsLiteral}
use mongokit.Pagination.Sort.{SortSpec, includes, non_id}
use mongokit.Pagination.Sort.Laws.{directed}
use mongokit.Pagination.Filter.{
  Filter, read, is_nullish, direction_or, first_direction, append_id, compound_filter,
  single_field_filter, build_keyset_filter,
}
use mongokit.Pagination.Filter.Semantics.{
  lex_behind, holds-with_or, holds-cascade, IsReady, clause-operator_of, holds-one, holds-two,
}

-- Sorts whose fields share a direction.
pub directed-append_id :
    (d : ℤ) (names : List String)
    → directed d names ++ ("_id", d) ∷ [] ≡ directed d (append_id names)
directed-append_id d [] = refl
directed-append_id d (f ∷ fs) = λ i. (f, d) ∷ directed-append_id d fs i

has-directed : (d : ℤ) (f : String) (fs : List String) → has f (directed d fs) ≡ includes fs f
unfolding has includes
has-directed d f [] = refl
has-directed d f (g ∷ fs) = rw (has-directed d f fs)

get-directed :
    (d : ℤ) (f : String) (fs : List String) → includes fs f ≡ true → get f (directed d fs) ≡ some d
unfolding get includes
get-directed d f [] h = cc
get-directed d f (g ∷ fs) h = ground (arith, get-directed d f fs)

pub keys-directed : (d : ℤ) (fs : List String) → keys (directed d fs) ≡ fs
keys-directed d [] = refl
keys-directed d (f ∷ fs) = λ i. f ∷ keys-directed d fs i

includes-append_id :
    (fs : List String) (f : String) → includes (append_id fs) f ≡ (includes fs f || str_eq "_id" f)
unfolding includes
includes-append_id [] f = ground arith
includes-append_id (g ∷ fs) f = ground (arith, includes-append_id fs f)

pub non_id-directed :
    (d : ℤ) (fs : List String)
    → includes fs "_id" ≡ false
    → non_id (directed d (append_id fs)) ≡ directed d fs
unfolding non_id includes
non_id-directed d [] h = ground arith
non_id-directed d (f ∷ fs) h = ground (arith, non_id-directed d fs)

pub includes_head : (f : String) (fs : List String) → includes (f ∷ fs) f ≡ true
unfolding includes
includes_head f fs = ground (arith, eq_iff f f)

pub includes_tail :
    (g f : String) (fs : List String) → includes fs g ≡ true → includes (f ∷ fs) g ≡ true
unfolding includes
includes_tail g f fs h = ground arith

-- `_id` is no other field.
pub no_id :
    (d : ℤ) (fs : List String) → IsObject (directed d (append_id fs)) → includes fs "_id" ≡ false
unfolding includes has
no_id d [] h = refl
no_id d (f ∷ fs) h = ground (
  arith,
  no_id d fs,
  has-directed d f (append_id fs),
  includes-append_id fs f,
  eq_iff f "_id",
  eq_iff "_id" f,
)

module _ {D : Type 0} (m : Matching D) (d : ℤ) (cursor : String → Value) where
  lex_behind-congr :
      (at : String → Value) (fs : List String) (x : D)
      → ((f : String) → includes fs f ≡ true → at f ≡ cursor f)
      → lex_behind m d at fs x ≡ lex_behind m d cursor fs x
  unfolding lex_behind includes
  lex_behind-congr at [] x h = refl
  lex_behind-congr at (f ∷ fs) x h =
      rw (h f (includes_head f fs), lex_behind-congr at fs x (λ g p. h g (includes_tail g f fs p)))

  module _ (sort : SortSpec) (first : Option ℤ) (all_values : Object Value) where
    ready :
        (equal : Object Value) (fs : List String)
        → IsObject (directed d fs)
        → ((f : String) → includes fs f ≡ true → has f equal ≡ false)
        → ((f : String) → includes fs f ≡ true → is_operator f ≡ false)
        → ((f : String) → includes fs f ≡ true → IsLiteral (read all_values f))
        → ((f : String) → includes fs f ≡ true → direction_or (get f sort) first ≡ some d)
        → IsReady m sort first d all_values equal fs
    unfolding includes
    ready equal [] distinct fresh plain literal dir = tt
    ready equal (f ∷ fs) distinct fresh plain literal dir =
        let here = includes_head f fs in
        (
          fresh f here,
          plain f here,
          literal f here,
          dir f here,
          ready (put f (read all_values f) equal) fs distinct.1
              (λ g p.
                rw (has-put f g (read all_values f) equal, fresh g (includes_tail g f fs p))
                  (ground (arith, p, eq_iff f g, distinct.0, has-directed d f fs)))
              (λ g p. plain g (includes_tail g f fs p)) (λ g p. literal g (includes_tail g f fs p))
              (λ g p. dir g (includes_tail g f fs p)),
        )

-- The values of a cursor's row in the fields of the sort, and when `encodeCursor` keeps them.
abbrev pub row_values : (String → Value) → List String → Object Value
row_values cursor [] = []
row_values cursor (f ∷ fs) = (f, cursor f) ∷ row_values cursor fs

abbrev pub cursor_values : (String → Value) → List String → Option (Object Value)
cursor_values cursor (f ∷ g ∷ fs) = some (row_values cursor (f ∷ g ∷ fs))
cursor_values cursor _ = none

abbrev pub primary_of : List String → String
primary_of [] = "_id"
primary_of (f ∷ fs) = f

-- What the keyset filter relies on: the caller's filter has no `$or` of its own, the fields are no
-- operators, and the cursor's row has a scalar, neither null nor absent, in each.
pub record IsUsable (base : Filter) (cursor : String → Value) (names : List String) : Type 0 where
  pub no_or : has "$or" base ≡ false
  pub plain : (f : String) → includes (append_id names) f ≡ true → is_operator f ≡ false
  pub literal : (f : String) → includes (append_id names) f ≡ true → IsLiteral (cursor f)
  pub present : (f : String) → includes (append_id names) f ≡ true → is_nullish (cursor f) ≡ false

get-row_values :
    (cursor : String → Value) (fs : List String) (f : String)
    → includes fs f ≡ true
    → get f (row_values cursor fs) ≡ some (cursor f)
unfolding get includes
get-row_values cursor [] f p = cc
get-row_values cursor (g ∷ fs) f p = elim (Bool-cases (str_eq g f)) [
  | inl e ↦ rw e (ap (λ k. some (cursor k)) ((eq_iff g f).0 e))
  | inr e ↦ rw e (get-row_values cursor fs f (rw e at p))
]

-- The source's `allValues`: the values of the sort fields, and of `_id`.
read-row_values :
    (cursor : String → Value) (fs : List String) (f : String)
    → includes (append_id fs) f ≡ true
    → read (put "_id" (cursor "_id") (row_values cursor fs)) f ≡ cursor f
unfolding read
read-row_values cursor fs f p = elim (Bool-cases (str_eq "_id" f)) [
  | inl e ↦
      rw (get-put "_id" f (cursor "_id") (row_values cursor fs), read, e)
        (ap cursor ((eq_iff "_id" f).0 e))
  | inr e ↦
      rw (get-put "_id" f (cursor "_id") (row_values cursor fs), read, e)
        (rw (get-row_values cursor fs f (ground (arith, includes-append_id fs f)), read) refl)
]

field-ne-id : (d : ℤ) (f : String) → IsObject (directed d (f ∷ "_id" ∷ [])) → str_eq f "_id" ≡ false
unfolding has
field-ne-id d f h = ground (arith, eq_iff f "_id", eq_iff "_id" f)

has-nil : (f : String) → has {V = Value} f [] ≡ false
unfolding has
has-nil f = refl

direction_or-some : {o : Option ℤ} {d : ℤ} (e : Option ℤ) → o ≡ some d → direction_or o e ≡ some d
unfolding direction_or
direction_or-some e h = rw h

module _ {D : Type 0} (m : Matching D) (d : ℤ) (cursor : String → Value) (base : Filter) where
  compound_filter-eq-behind :
      (names : List String) (x : D)
      → IsObject (directed d (append_id names))
      → IsUsable base cursor names
      → m.holds
          (compound_filter base
            (directed d (append_id names))
            (row_values cursor names)
            (cursor "_id"))
          x
        ≡ (m.holds base x && lex_behind m d cursor (append_id names) x)
  unfolding compound_filter
  compound_filter-eq-behind names x h u =
      let sort = directed d (append_id names) in
      let all_values = put "_id" (cursor "_id") (row_values cursor names) in
      let first = first_direction (directed d names) in
      let at : (f : String) → includes (append_id names) f ≡ true → read all_values f ≡ cursor f =
        read-row_values cursor names in
      rw
        (
          holds-with_or m base _ x u.no_or,
          non_id-directed d names (no_id d names h),
          keys-directed d names,
          holds-cascade m sort first d all_values [] (append_id names) x (
              ready m d cursor sort first all_values [] (append_id names) h (λ f p. has-nil f)
                u.plain (λ f p. subst IsLiteral (sym (at f p)) (u.literal f p))
                (λ f p. direction_or-some first (get-directed d f (append_id names) p))),
          m.holds-nil x,
          lex_behind-congr m d cursor (read all_values) (append_id names) x at,
        )
        refl

  single_filter-eq-behind :
      (f : String) (x : D)
      → has "$or" base ≡ false
      → is_operator f ≡ false
      → is_operator "_id" ≡ false
      → is_nullish (cursor f) ≡ false
      → IsLiteral (cursor f)
      → str_eq f "_id" ≡ false
      → m.holds (single_field_filter base f (some d) (cursor f) (cursor "_id")) x
        ≡ (m.holds base x && lex_behind m d cursor (f ∷ "_id" ∷ []) x)
  unfolding single_field_filter put lex_behind
  single_filter-eq-behind f x o p q n l e =
      rw
        (
          n,
          e,
          holds-with_or m base _ x o,
          holds-one m f _ x,
          holds-two m f "_id" _ _ x,
          clause-operator_of m d f _ x p,
          clause-operator_of m d "_id" _ x q,
          m.clause-eq f (cursor f) x p l,
        )
        (ground arith)

  id_filter-eq-behind :
      (x : D)
      → has "$or" base ≡ false
      → is_nullish (cursor "_id") ≡ false
      → m.holds (single_field_filter base "_id" (some d) (cursor "_id") (cursor "_id")) x
        ≡ (m.holds base x && lex_behind m d cursor ("_id" ∷ []) x)
  unfolding single_field_filter put lex_behind is_operator
  id_filter-eq-behind x o n =
      rw
        (
          n,
          holds-with_or m base _ x o,
          holds-one m "_id" _ x,
          clause-operator_of m d "_id" _ x refl,
        )
        (ground arith)

  -- For a sort on any different fields and then `_id`, all in one direction, none of them an operator;
  -- a caller's filter without an `$or`; and a cursor's row with a scalar, neither null nor absent, in
  -- each of these fields: the filter that is built from the values of the row selects exactly the
  -- rows that the caller's filter selects and that come behind that row, where rows are compared
  -- field by field, by `$gt` or `$lt` as the direction says.
  pub build_keyset_filter-eq-behind :
      (names : List String) (x : D)
      → IsObject (directed d (append_id names))
      → IsUsable base cursor names
      → m.holds
          (build_keyset_filter base
            (directed d (append_id names))
            (cursor (primary_of names))
            (cursor "_id")
            (cursor_values cursor names))
          x
        ≡ (m.holds base x && lex_behind m d cursor (append_id names) x)
  unfolding build_keyset_filter non_id get
  build_keyset_filter-eq-behind [] x h u =
      id_filter-eq-behind x u.no_or (u.present "_id" (includes_head "_id" []))
  build_keyset_filter-eq-behind (f ∷ []) x h u =
      let e = field-ne-id d f h in
      rw (e, eq_refl f)
        (single_filter-eq-behind f x u.no_or (u.plain f (includes_head f ("_id" ∷ [])))
          (u.plain "_id" (includes_tail "_id" f ("_id" ∷ []) (includes_head "_id" [])))
          (u.present f (includes_head f ("_id" ∷ []))) (u.literal f (includes_head f ("_id" ∷ [])))
          e)
  build_keyset_filter-eq-behind (f ∷ g ∷ fs) x h u = compound_filter-eq-behind (f ∷ g ∷ fs) x h u
