-- ===== src/ImmutableStates/Tests.antt =====
-- Journal entries in memory, of which one is posted.
use mongokit.Prelude.{
  String, ◌≡◌, refl, sym, subst, ◌∙◌, Bool, true, false, Option, none, some, List, [], ◌∷◌, filter,
  str_eq, All, Mem, inl, inr, Bool-cases, if◌then◌else◌, returns, throws,
}
use mongokit.Js.Object.{put}
use mongokit.Js.Value.{Value, undefined, str, oid, fields, object, objects, values, is_operator}
use mongokit.Mongo.Memory.{holds, clause, same, satisfies, satisfies_all, is_in, member}
use mongokit.Mongo.Memory.Extended.{operators}
use mongokit.Mongo.Memory.Instance.{documents-IsStandard}
use mongokit.Mongo.Memory.Store.{Document, documents, value_at}
use mongokit.Mongo.Memory.Strict.{below_irreflexive, below_asymmetric, same-eq}
use mongokit.Pagination.Keyset.Order.{IsOrder}
use mongokit.Pagination.Sort.{includes}
use mongokit.IdChunks.{is_nullish}
use mongokit.Operations.{op_registry}
use mongokit.Claim.{one, Transition, claim_filter, from_spec}
use mongokit.ImmutableStates.{
  Reader, ImmutableStatesPluginOptions, Ctx, apply, hooks, unhandled, checked, guard_claim,
  guard_claimed, guard_transition, is_allowed, guard_many, frozen_filter, or_empty, refuse_hit,
  is_frozen, touches_frozen, guard_find_one_and_update, guard_by_id, read_state_by_id, refuse,
  state_of, scoped, immutable_state_violation,
}
use mongokit.ImmutableStates.Guards.{claim, guard-protects, IsIdentified}

abbrev first : List Document → Option Document
first [] = none
first (d ∷ ds) = some d

first-none :
    (p : Document → Bool) (ds : List Document)
    → first (filter p ds) ≡ none
    → All (λ d. p d ≡ false) ds
first-none p [] h = tt
first-none p (d ∷ ds) h = elim (Bool-cases (p d)) [
  | inl e ↦ absurd (cc (rw e at h))
  | inr e ↦ (e, first-none p ds (rw e at h))
]

some_injective : {a b : Document} → some a ≡ some b → a ≡ b
some_injective h = cc

first-some :
    (p : Document → Bool) (ds : List Document) (d : Document)
    → first (filter p ds) ≡ some d
    → Mem d ds × (p d ≡ true)
first-some p [] d h = cc
first-some p (x ∷ ds) d h = elim (Bool-cases (p x)) [
  | inl e ↦ let q = some_injective (rw e at h) in (inl (sym q), subst (λ y. p y ≡ true) q e)
  | inr e ↦ let (a, b) = first-some p ds d (rw e at h) in (inr a, b)
]

abbrev list_reader : Reader documents
list_reader = record {
  State = List Document;
  rows = λ s. s;
  find_one = λ q s. first (filter (λ d. documents.holds q d) s);
  find_one-none = λ q s. first-none (λ d. documents.holds q d) s;
  find_one-some = λ q s. first-some (λ d. documents.holds q d) s;
}

documents-IsOrder : IsOrder documents
documents-IsOrder = record {
  irreflexive = below_irreflexive;
  asymmetric = λ a b l k h. below_asymmetric a b h;
  same-eq = λ a b l k h. same-eq a b h;
}

abbrev text_of : Value → String
text_of (str x) = x
text_of v = "?"

abbrev options : ImmutableStatesPluginOptions
options = record {
  states = "posted" ∷ [];
  state_field = none;
  tenant_field = none;
  allow_claim = none;
}

abbrev entry : String → String → Document
entry id state f =
    if str_eq f "_id"
    then oid id
    else if str_eq f "slug"
    then str id
    else if str_eq f "state"
    then str state
    else undefined

abbrev draft : Document
draft = entry "a" "draft"

abbrev entries_of : List Document
entries_of = draft ∷ []

draft_own : (d : Document) → Mem d entries_of → d ≡ draft
draft_own d (inl e) = e
draft_own d (inr m) = absurd m

entries_of-IsIdentified :
    IsIdentified
      (operators value_at)
      documents-IsStandard
      documents-IsOrder
      list_reader
      text_of
      options
      (λ y. refl)
      entries_of
entries_of-IsIdentified = record {
  literal = λ d h. rw (draft_own d h) tt;
  unique = λ d e h k p. draft_own d h ∙ sym (draft_own e k);
  tenant = λ t h. absurd (cc h);
}

abbrev post : Transition
post = record {
  state_field = some "state";
  source = one (str "draft");
  to = str "posted";
  where_ = [];
}

abbrev call : Ctx
call = record {
  is_internal = false;
  id = oid "a";
  query = none;
  transition = some post;
  data_ = none;
}

guard-protects_example : is_frozen ("posted" ∷ []) (str "draft") ≡ false
unfolding guard_claim guard_claimed guard_transition is_allowed touches_frozen includes claim_filter
    from_spec put holds clause same fields is_operator
guard-protects_example =
    guard-protects (operators value_at) documents-IsStandard documents-IsOrder list_reader text_of
      options (λ y. refl) entries_of entries_of-IsIdentified refl claim "_id" call draft refl refl
      tt refl (post, refl, tt, ((λ e. refl), (λ e. absurd (cc e))))

-- Every mutating operation of the registry has a strategy.
handled :
    apply list_reader text_of options op_registry ≡ returns (hooks list_reader text_of options)
unfolding apply unhandled checked op_registry includes
handled = refl

abbrev both_states : List Document
both_states = entry "a" "draft" ∷ entry "b" "posted" ∷ []

-- The guard of `findOneAndUpdate` looks at the first row, whatever the sort of the call is.
first_only : guard_find_one_and_update list_reader text_of options call both_states ≡ returns tt
unfolding guard_find_one_and_update or_empty refuse state_of is_frozen includes holds fields
first_only = refl

-- With another id field than `_id`, the guard of a frozen row finds nothing to refuse.
by_slug :
    guard_by_id list_reader text_of options "update" (record call { id = str "b" }) both_states
    ≡ returns tt
unfolding guard_by_id read_state_by_id is_nullish scoped refuse state_of is_frozen includes holds
    clause same fields
by_slug = refl

refused :
    guard_many list_reader text_of options "deleteMany" call both_states
    ≡ throws (immutable_state_violation "deleteMany" none)
unfolding guard_many or_empty frozen_filter refuse_hit holds clause same fields object objects
    values satisfies_all satisfies is_in member
refused = refl
