-- ===== src/Purge/Tests.antt =====
-- Three rows in memory, purged and archived one by one.
use mongokit.Prelude.{
  ℕ, String, ◌≡◌, refl, true, some, List, [], ◌∷◌, ◌<◌, throws, str_eq, if◌then◌else◌, arith,
  returns, All,
}
use mongokit.Js.Object.{Object, get, has, put, spread, remove}
use mongokit.Js.Value.{Value, undefined, null, str, oid, object, fields, values, arr}
use mongokit.Mongo.{operator}
use mongokit.Mongo.Rows.{edited}
use mongokit.Mongo.Memory.{holds, clause, satisfies, satisfies_all, same, is_in, member}
use mongokit.Mongo.Memory.Order.{below, text_lt}
use mongokit.Mongo.Memory.Extended.{operators}
use mongokit.Mongo.Memory.Rows.{list_rows}
use mongokit.Mongo.Memory.Store.{Document, documents, value_at}
use mongokit.Mongo.Memory.Strict.{
  below_irreflexive, below_asymmetric, below_transitive, same-eq, same_reflexive,
}
use mongokit.IdChunks.{id_chunks, is_nullish, keyset_filter, narrow_to_ids, not_positive}
use mongokit.IdChunks.Laws.{IsSlice, concat, id_chunks-covers, keyset_filter-remove}
use mongokit.Purge.{Strategy, anonymize, fixed, computed, has_fn, set_of, is_computed, replaced}
use mongokit.Purge.Chunk.{IsIdOrder, IsKeyed}
use mongokit.Purge.Step.{IsReliable, effect}
use mongokit.Purge.Walk.{walk, walk-refines}
use mongokit.Purge.Archive.{archive, archive-covers}

documents-IsIdOrder : IsIdOrder documents
documents-IsIdOrder = record {
  order = record {
    irreflexive = below_irreflexive;
    asymmetric = λ a b l k h. below_asymmetric a b h;
    same-eq = λ a b l k h. same-eq a b h;
  };
  reflexive = same_reflexive;
  transitive = λ a b c l k n h i. below_transitive a b c h i;
}

list_rows-IsReliable : IsReliable list_rows
list_rows-IsReliable = record {
  deletes = λ q s. refl;
  updates = λ q o s. refl;
  writes = λ ops s. refl;
}

abbrev row : String → String → Document
row id org f = if str_eq f "_id" then oid id else if str_eq f "org" then str org else undefined

abbrev stored_rows : List Document
stored_rows = row "a" "acme" ∷ row "b" "other" ∷ row "c" "acme" ∷ []

abbrev base : Object Value
base = ("org", str "acme") ∷ []

-- Each row's owner is replaced by its own id.
abbrev redact : Strategy Document
redact = anonymize (("owner", computed (λ d. d "_id")) ∷ ("name", fixed null) ∷ [])

stored_rows-IsKeyed : IsKeyed documents stored_rows
unfolding below text_lt is_nullish
stored_rows-IsKeyed =
    (((tt, refl), ((tt, refl), ((tt, refl), tt))), ((refl, (refl, tt)), ((refl, tt), (tt, tt))))

walk-refines_example :
    (t : List Document) × (walk list_rows base redact 7 1 3 null stored_rows
      ≡ (returns (some 2), t))
    × (t ≡ edited (λ d. documents.holds base d) (effect list_rows redact 7) stored_rows)
unfolding holds clause same fields has has_fn is_computed set_of replaced get put
walk-refines_example =
    walk-refines list_rows (operators value_at) documents-IsIdOrder list_rows-IsReliable base refl
      redact 7 (λ d. refl) 1 (omega arith) 3 stored_rows stored_rows-IsKeyed (omega arith)

archive-covers_example :
    (chunks : List (List Document)) × (t : List Document) × (archive list_rows base 1 3 stored_rows
      ≡ (returns (some chunks), t))
    × (concat chunks ≡ row "a" "acme" ∷ row "c" "acme" ∷ [])
    × (t ≡ row "b" "other" ∷ [])
unfolding holds clause same fields has
archive-covers_example =
    archive-covers list_rows (operators value_at) documents-IsIdOrder list_rows-IsReliable base refl
      1 (omega arith) 3 stored_rows stored_rows-IsKeyed (omega arith)

abbrev five : List ℕ
five = 1 ∷ 2 ∷ 3 ∷ 4 ∷ 5 ∷ []

id_chunks-covers_example :
    ((size : ℕ)
      → 0 < size
      → (chunks : List (List ℕ)) × (id_chunks five size ≡ returns chunks)
        × (concat chunks ≡ five)
        × All (IsSlice size) chunks)
    × (id_chunks five 0 ≡ throws (not_positive 0))
id_chunks-covers_example = id_chunks-covers five

-- The base filter asks for the row "a" alone; behind "a", it selects "c".
abbrev by_id : Object Value
by_id = ("_id", operator "$in" (arr (values (oid "a" ∷ [])))) ∷ ("org", str "acme") ∷ []

escaped : documents.holds (keyset_filter by_id (oid "a")) (row "c" "acme") ≡ true
unfolding keyset_filter spread put is_nullish holds clause satisfies satisfies_all same fields
    object below text_lt
escaped = refl

keyset_filter-remove_example :
    (documents.holds (keyset_filter by_id (oid "a")) (row "c" "acme") ≡ true)
    × (documents.holds (narrow_to_ids by_id (oid "c" ∷ [])) (row "c" "acme") ≡ true)
unfolding holds clause same fields has remove below text_lt satisfies satisfies_all is_in member
    is_nullish
keyset_filter-remove_example =
    keyset_filter-remove documents (operators value_at) by_id (oid "a") (oid "c" ∷ [])
      (row "c" "acme") (refl, (refl, tt)) refl (tt, tt)
