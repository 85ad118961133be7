-- ===== src/Mongo/Memory/Commands.antt =====
-- The commands of the collection in memory behave as the interface says.
use mongokit.Prelude.{
  String, ◌≡◌, ◌≢◌, refl, sym, ap, ◌∙◌, Bool, false, Option, none, some, [], ◌∷◌, str_eq, eq_iff,
  eq_refl, Option-cases, Bool-cases, inl, inr,
}
use mathlib.Core.Path.{fun_ext}
use mongokit.Js.Object.{Object, get, has}
use mongokit.Js.Object.Laws.{get_absent}
use mongokit.Js.Value.{Value, str}
use mongokit.Mongo.Server.{
  Update, select, or_kept, mapped, upserted, kept_by, without, Spares, found_or, count_of,
}
use mongokit.Mongo.Memory.Store.{
  Document, Collection, documents, updated, inserted, created_from, pinned, at, store, keep,
  text_of, target, found_one_and_updated, found_one_and_upserted, removed_at, found_one_and_deleted,
  got_or_created, deleted_many,
}

some_injective : {a b : Document} → some a ≡ some b → a ≡ b
some_injective p = cc

module _ (key : String) where
  pinned-at_key : (v : String) (d : Document) → pinned key v d key ≡ str v
  pinned-at_key v d = rw (eq_refl key) refl

  -- A document that has the key already is left by pinning it.
  pinned_of_key : (v : String) (d : Document) → d key ≡ str v → pinned key v d ≡ d
  pinned_of_key v d h = fun_ext λ f. elim (Bool-cases (str_eq key f)) [
    | inl e ↦ rw e (sym (ap d (sym ((eq_iff key f).0 e)) ∙ h))
    | inr e ↦ rw e refl
  ]

  updated-at_key :
      (u : Update) (d : Document) (v : String)
      → Spares u key
      → d key ≡ str v
      → updated u d key ≡ str v
  updated-at_key u d v (a, b, c) h = rw (get_absent key u.set a, c, get_absent key u.inc b, h) refl

  pub at-key : (s : Collection) (v : String) (d : Document) → at key v s ≡ some d → d key ≡ str v
  unfolding at
  at-key s v d h = elim (Option-cases (s v)) [
    | inl e ↦ absurd (cc (rw e at h))
    | inr (c, e) ↦
        let p : some (pinned key v c) ≡ some d = rw e at h in
        ap (λ x. x key) (sym (some_injective p)) ∙ pinned-at_key v c
  ]

  at-store :
      (v : String) (d : Document) (s : Collection)
      → d key ≡ str v
      → at key v (store key v (some d) s) ≡ some d
  unfolding at
  at-store v d s h = rw (eq_refl v) (ap some (pinned_of_key v d h))

  at-store_other :
      (v w : String) (d : Option Document) (s : Collection)
      → v ≢ w
      → at key w (store key v d s) ≡ at key w s
  unfolding at
  at-store_other v w d s h = elim (Bool-cases (str_eq v w)) [
    | inl e ↦ absurd (h ((eq_iff v w).0 e))
    | inr e ↦ rw e refl
  ]

  target_of : (q : Object Value) (v : String) → get key q ≡ some (str v) → target key q ≡ some v
  target_of q v h = ap text_of h

  pub find_one_and_update-reply :
      (q : Object Value) (u : Update) (s : Collection) (v : String)
      → get key q ≡ some (str v)
      → (found_one_and_updated key q u s).0
        ≡ mapped (updated u) (select (documents.holds q) (at key v s))
  find_one_and_update-reply q u s v h = rw h refl

  at-selected :
      (p : Document → Bool) (s : Collection) (v : String) (d : Document)
      → select p (at key v s) ≡ some d
      → d key ≡ str v
  at-selected p s v d h = elim (Option-cases (at key v s)) [
    | inl e ↦ absurd (cc (rw e at h))
    | inr (c, e) ↦ elim (Bool-cases (p c)) [
      | inl t ↦ ap (λ x. x key) (sym (some_injective (rw (e, t) at h))) ∙ at-key s v c e
      | inr t ↦ absurd (cc (rw (e, t) at h))
    ]
  ]

  pub at-find_one_and_update :
      (q : Object Value) (u : Update) (s : Collection) (v : String)
      → get key q ≡ some (str v)
      → Spares u key
      → at key v (found_one_and_updated key q u s).1
        ≡ or_kept (found_one_and_updated key q u s).0 (at key v s)
  at-find_one_and_update q u s v h k =
      rw h (elim (Option-cases (select (documents.holds q) (at key v s))) [
        | inl e ↦ rw e refl
        | inr (d, e) ↦ rw e (
            at-store v (updated u d) s
              (updated-at_key u d v k (at-selected (documents.holds q) s v d e)))
      ])

  at-keep_other :
      (v w : String) (d : Option Document) (s : Collection)
      → v ≢ w
      → at key w (keep key (some v) d s) ≡ at key w s
  at-keep_other v w none s h = refl
  at-keep_other v w (some d) s h = at-store_other v w (some d) s h

  pub at-find_one_and_update-other :
      (q : Object Value) (u : Update) (s : Collection) (v w : String)
      → get key q ≡ some (str v)
      → Spares u key
      → v ≢ w
      → at key w (found_one_and_updated key q u s).1 ≡ at key w s
  at-find_one_and_update-other q u s v w h k n =
      rw h (at-keep_other v w (mapped (updated u) (select (documents.holds q) (at key v s))) s n)

  pub find_one_and_upsert-reply :
      (q : Object Value) (u : Update) (s : Collection) (v : String)
      → get key q ≡ some (str v)
      → (found_one_and_upserted key q u s).0
        ≡ upserted (updated u) (inserted q u) (select (documents.holds q) (at key v s)) (at key v s)
  find_one_and_upsert-reply q u s v h = rw h refl

  inserted-at_key :
      (q : Object Value) (u : Update) (v : String)
      → get key q ≡ some (str v)
      → has key u.set ≡ false
      → inserted q u key ≡ str v
  inserted-at_key q u v h a = rw (get_absent key u.set a, h) refl

  pub at-find_one_and_upsert :
      (q : Object Value) (u : Update) (s : Collection) (v : String)
      → get key q ≡ some (str v)
      → Spares u key
      → at key v (found_one_and_upserted key q u s).1
        ≡ kept_by (found_one_and_upserted key q u s).0 (at key v s)
  at-find_one_and_upsert q u s v h k =
      rw h (elim (Option-cases (select (documents.holds q) (at key v s))) [
        | inl e ↦ elim (Option-cases (at key v s)) [
          | inl n ↦ rw (e, n, upserted) (at-store v (inserted q u) s (inserted-at_key q u v h k.0))
          | inr (d, n) ↦ rw (e, n, upserted) n
        ]
        | inr (d, e) ↦
            rw (e, upserted)
              (at-store v (updated u d) s
                (updated-at_key u d v k (at-selected (documents.holds q) s v d e)))
      ])

  pub at-find_one_and_upsert-other :
      (q : Object Value) (u : Update) (s : Collection) (v w : String)
      → get key q ≡ some (str v)
      → Spares u key
      → v ≢ w
      → at key w (found_one_and_upserted key q u s).1 ≡ at key w s
  at-find_one_and_upsert-other q u s v w h k n = rw h (at-keep_other v w _ s n)

  pub find_one_and_delete-reply :
      (q : Object Value) (s : Collection) (v : String)
      → get key q ≡ some (str v)
      → (found_one_and_deleted key q s).0 ≡ select (documents.holds q) (at key v s)
  find_one_and_delete-reply q s v h = rw h refl

  at-removed : (v : String) (s : Collection) → at key v (store key v none s) ≡ none
  unfolding at
  at-removed v s = rw (eq_refl v) refl

  at-removed_at :
      (v : String) (r : Option Document) (s : Collection)
      → at key v (removed_at key (some v) r s) ≡ without r (at key v s)
  at-removed_at v none s = refl
  at-removed_at v (some d) s = at-removed v s

  at-removed_at_other :
      (v w : String) (r : Option Document) (s : Collection)
      → v ≢ w
      → at key w (removed_at key (some v) r s) ≡ at key w s
  at-removed_at_other v w none s h = refl
  at-removed_at_other v w (some d) s h = at-store_other v w none s h

  pub at-find_one_and_delete :
      (q : Object Value) (s : Collection) (v : String)
      → get key q ≡ some (str v)
      → at key v (found_one_and_deleted key q s).1
        ≡ without (found_one_and_deleted key q s).0 (at key v s)
  at-find_one_and_delete q s v h = rw h (at-removed_at v _ s)

  pub at-find_one_and_delete-other :
      (q : Object Value) (s : Collection) (v w : String)
      → get key q ≡ some (str v)
      → v ≢ w
      → at key w (found_one_and_deleted key q s).1 ≡ at key w s
  at-find_one_and_delete-other q s v w h n = rw h (at-removed_at_other v w _ s n)

  pub delete_many-reply :
      (q : Object Value) (s : Collection) (v : String)
      → get key q ≡ some (str v)
      → (deleted_many key q s).0 ≡ count_of (select (documents.holds q) (at key v s))
  delete_many-reply q s v h = rw h refl

  pub at-delete_many :
      (q : Object Value) (s : Collection) (v : String)
      → get key q ≡ some (str v)
      → at key v (deleted_many key q s).1
        ≡ without (select (documents.holds q) (at key v s)) (at key v s)
  at-delete_many q s v h = rw h (at-removed_at v _ s)

  get_own : (v : String) → get key ((key, str v) ∷ []) ≡ some (str v)
  unfolding get
  get_own v = rw (eq_refl key) refl

  pub get_or_create-reply :
      (o : Object Value) (s : Collection) (v : String)
      → get key o ≡ some (str v)
      → (got_or_created key ((key, str v) ∷ []) o s).0
        ≡ found_or (created_from ((key, str v) ∷ []) o) (at key v s)
  get_or_create-reply o s v h = rw (get_own v) refl

  at-found_or :
      (q o : Object Value) (s : Collection) (v : String)
      → get key o ≡ some (str v)
      → (found_or (created_from q o) (at key v s)).0 key ≡ str v
  at-found_or q o s v h = elim (Option-cases (at key v s)) [
    | inl e ↦ rw (e, h) refl
    | inr (d, e) ↦ rw e (at-key s v d e)
  ]

  pub at-get_or_create :
      (o : Object Value) (s : Collection) (v : String)
      → get key o ≡ some (str v)
      → at key v (got_or_created key ((key, str v) ∷ []) o s).1
        ≡ some (got_or_created key ((key, str v) ∷ []) o s).0.0
  at-get_or_create o s v h = rw (get_own v) (at-store v _ s (at-found_or _ o s v h))
