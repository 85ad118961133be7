-- ===== src/Aggregate/Keyset/Behind.antt =====
-- The stage behind a cursor keeps exactly the rows that come after the cursor's row.
use mongokit.Prelude.{
  String, ◌≡◌, refl, ◌∙◌, Bool, false, ◌&&◌, ◌||◌, some, List, [], ◌∷◌, any, arith, eq_iff,
}
use mongokit.Js.Object.{Object, get, put, has}
use mongokit.Js.Object.Laws.{IsObject, has-put}
use mongokit.Js.Value.{ℤ, Value, arr, objects, is_operator}
use mongokit.Mongo.{Matching, IsLiteral, operator}
use mongokit.Pagination.Sort.{SortSpec}
use mongokit.Pagination.Filter.{operator_of}
use mongokit.Pagination.Filter.Semantics.{behind, holds-condition, holds-equality, holds-one}
use mongokit.Aggregate.Keyset.{or_null, tail_op, branches, match_of, build_keyset_predicate}

-- Does a row come after the values of a cursor, key by key, each in its own direction?
unfoldable pub comes_after : {D : Type 0} → Matching D → (String → Value) → SortSpec → D → Bool
unfolding behind
comes_after m at [] x = false
comes_after m at ((k, d) ∷ sort) x =
    behind m d (at k) (m.value_at k x)
    || (m.same (m.value_at k x) (at k) && comes_after m at sort x)

-- The keys of a sort are no operators, and the cursor has a scalar for each.
abbrev pub IsAnchored : Object Value → SortSpec → Type 0
IsAnchored cursor [] = Unit
IsAnchored cursor ((k, d) ∷ sort) =
    (is_operator k ≡ false) × IsLiteral (or_null (get k cursor)) × IsAnchored cursor sort

-- Keys that are not in an object yet.
abbrev pub AllNew : Object Value → SortSpec → Type 0
AllNew equal [] = Unit
AllNew equal ((k, d) ∷ sort) = (has k equal ≡ false) × AllNew equal sort

or_false : (b : Bool) → b ≡ (b || false)
or_false b = ground arith

AllNew-put :
    (equal : Object Value) (j : String) (v : Value) (sort : SortSpec)
    → has j sort ≡ false
    → AllNew equal sort
    → AllNew (put j v equal) sort
unfolding has
AllNew-put equal j v [] h a = tt
AllNew-put equal j v ((k, d) ∷ sort) h (n, a) = (
  rw (has-put j k v equal, n) (ground (arith, h, eq_iff k j, eq_iff j k)),
  AllNew-put equal j v sort (ground arith) a,
)

module _ {D : Type 0} (m : Matching D) (cursor : Object Value) where
  -- The value of the cursor at a key.
  abbrev pub anchor : String → Value
  anchor k = or_null (get k cursor)

  holds-branches :
      (equal : Object Value) (sort : SortSpec) (x : D)
      → IsObject sort
      → AllNew equal sort
      → IsAnchored cursor sort
      → any (λ b. m.holds b x) (branches cursor equal sort)
        ≡ (m.holds equal x && comes_after m anchor sort x)
  unfolding branches comes_after tail_op operator_of
  holds-branches equal [] x o n a = ground arith
  holds-branches equal ((k, d) ∷ sort) x (f, o) (n, ns) (p, l, a) =
      rw
        (
          holds-condition m d k (anchor k) equal x n p,
          holds-branches (put k (anchor k) equal) sort x o (AllNew-put equal k (anchor k) sort f ns)
              a,
          holds-equality m k (anchor k) equal x n p l,
        )
        (ground arith)

  AllNew-nil : (sort : SortSpec) → AllNew [] sort
  unfolding has
  AllNew-nil [] = tt
  AllNew-nil ((k, d) ∷ sort) = (refl, AllNew-nil sort)

  match_of_lem :
      (bs : List (Object Value)) (b : Object Value)
      → (q : Object Value) × (match_of (b ∷ bs) ≡ some q)
        × ((x : D) → m.holds q x ≡ any (λ c. m.holds c x) (b ∷ bs))
  unfolding match_of
  match_of_lem [] b = (b, refl, (λ x. or_false (m.holds b x)))
  match_of_lem (c ∷ bs) b = (
    ("$or", arr (objects (b ∷ c ∷ bs))) ∷ [],
    refl,
    (λ x. holds-one m "$or" (arr (objects (b ∷ c ∷ bs))) x ∙ m.clause-or (b ∷ c ∷ bs) x),
  )

  -- For a sort with at least one key, none twice and none an operator, and a cursor that has at each
  -- key a scalar, null, or nothing, which counts as null: there is a stage behind the cursor (also
  -- where the cursor lacks every key), and it keeps exactly the rows that come after the cursor's
  -- values, key by key, by `$gt` or `$lt` as the key's own direction says. No row is after another by
  -- a key at which the database compares the two by neither, as null with a number.
  pub build_keyset_predicate-eq-comes_after :
      (k : String) (d : ℤ) (sort : SortSpec)
      → IsObject ((k, d) ∷ sort)
      → IsAnchored cursor ((k, d) ∷ sort)
      → (q : Object Value) × (build_keyset_predicate ((k, d) ∷ sort) cursor ≡ some q)
        × ((x : D) → m.holds q x ≡ comes_after m anchor ((k, d) ∷ sort) x)
  unfolding build_keyset_predicate branches
  build_keyset_predicate-eq-comes_after k d sort o a =
      let (q, e, h) =
        match_of_lem (branches cursor (put k (or_null (get k cursor)) []) sort)
          (put k (operator (tail_op d) (or_null (get k cursor))) []) in
      (
        q,
        e,
        (λ x.
            h x
            ∙ holds-branches [] ((k, d) ∷ sort) x o (AllNew-nil ((k, d) ∷ sort)) a
            ∙ rw (m.holds-nil x) refl),
      )
