-- ===== src/SoftDelete/Laws.antt =====
-- A deleted row is hidden from every read.
use mongokit.Prelude.{
  ℕ, String, ◌≡◌, refl, sym, ap, subst, ◌∙◌, Bool, true, false, ◌&&◌, ◌||◌, Option, none, some, [],
  ◌∷◌, str_eq, eq_refl, Outcome, returns, throws, returns-injective,
}
use mongokit.Js.Object.{Object, get, has, put, spread, get-put}
use mongokit.Js.Value.{Value, null, bool, str, date, object, is_operator}
use mongokit.Mongo.{Matching, operator}
use mongokit.Mongo.Clauses.{holds-get}
use mongokit.Mongo.Server.{Server, Update, select, mapped, or_kept, Spares}
use mongokit.SoftDelete.{
  SoftDeleteOptions, SoftDeleteError, FilterMode, null_mode, exists_mode, live, deleted, or_empty,
  condition, build_deletion_state_filter, build_deleted_filter, merged, inject_delete_filter,
  delete_update, delete_query, found_or_throw, soft_deleted, before_delete,
}

left : (a b : Bool) → (a || b) ≡ false → a ≡ false
left true b h = cc
left false b h = refl

right : (a b : Bool) → (a || b) ≡ false → b ≡ false
right true b h = cc
right false b h = h

pub and_true : (b : Bool) → (b && true) ≡ b
and_true true = refl
and_true false = refl

-- How filters read null, and `$exists`: documented behaviour.
pub record IsNullable {D : Type 0} (m : Matching D) : Type 0 where
  pub same-null : m.same null null ≡ true
  pub same-date-null : (n : ℕ) → m.same (date n) null ≡ false
  pub clause-exists_null :
      (k : String) (d : D)
      → is_operator k ≡ false
      → m.value_at k d ≡ null
      → m.clause k (operator "$exists" (bool false)) d ≡ false
  pub clause-exists_date :
      (k : String) (d : D) (n : ℕ)
      → is_operator k ≡ false
      → m.value_at k d ≡ date n
      → m.clause k (operator "$exists" (bool false)) d ≡ false
  pub clause-exists_not_null :
      (k : String) (d : D)
      → is_operator k ≡ false
      → m.value_at k d ≡ null
      → m.clause k (object (("$exists", bool true) ∷ ("$ne", null) ∷ [])) d ≡ false
  pub clause-exists_deleted :
      (k : String) (d : D) (n : ℕ)
      → is_operator k ≡ false
      → m.value_at k d ≡ date n
      → m.clause k (object (("$exists", bool true) ∷ ("$ne", null) ∷ [])) d ≡ true

get-spread_absent :
    (k : String) (o p : Object Value) → has k p ≡ false → get k (spread o p) ≡ get k o
unfolding spread has
get-spread_absent k o [] h = refl
get-spread_absent k o ((j, v) ∷ p) h =
    get-spread_absent k (put j v o) p (right (str_eq j k) (has k p) h)
    ∙ rw (get-put j k v o, left (str_eq j k) (has k p) h) refl

pub get-delete_query :
    (key : String) (id : Value) (query : Option (Object Value))
    → has key (or_empty query) ≡ false
    → get key (delete_query key id query) ≡ some id
unfolding delete_query get
get-delete_query key id query h =
    get-spread_absent key ((key, id) ∷ []) (or_empty query) h ∙ rw eq_refl refl

mapped_lem :
    {A : Type 0} (f : A → A) (o : Option A) (d : A) → mapped f o ≡ some d → (e : A) × (f e ≡ d)
mapped_lem f none d h = cc
mapped_lem f (some e) d h = (e, cc)

module _ {D : Type 0} (m : Matching D) (nullable : IsNullable m) (options : SoftDeleteOptions) where
  open options use {deleted_field, deleted_by_field, filter_mode, soft}

  -- A row that is marked as deleted fails the filter of live rows, and passes its counterpart.
  marked_lem :
      (mode : FilterMode) (d : D) (now : ℕ)
      → is_operator deleted_field ≡ false
      → m.value_at deleted_field d ≡ date now
      → (m.clause deleted_field (condition mode live) d ≡ false)
        × (m.clause deleted_field (condition mode deleted) d ≡ true)
  unfolding condition
  marked_lem null_mode d now o e = (
    m.clause-eq deleted_field null d o tt ∙ rw (e, nullable.same-date-null) refl,
    m.clause-ne deleted_field null d o tt ∙ rw (e, nullable.same-date-null) refl,
  )
  marked_lem exists_mode d now o e = (
    nullable.clause-exists_date deleted_field d now o e,
    nullable.clause-exists_deleted deleted_field d now o e,
  )

  -- A filter of a read with the condition put in.
  pub injected_lem :
      (q : Option (Object Value))
      → soft ≡ true
      → inject_delete_filter options false q
        ≡ some (put deleted_field (condition filter_mode live) (or_empty q))
  unfolding inject_delete_filter build_deleted_filter build_deletion_state_filter merged spread
  injected_lem q s = rw s refl

  pub hidden_lem :
      (q : Option (Object Value)) (d : D)
      → soft ≡ true
      → m.clause deleted_field (condition filter_mode live) d ≡ false
      → m.holds (or_empty (inject_delete_filter options false q)) d ≡ false
  hidden_lem q d s c = rw (injected_lem q s) (
      holds-get m (put deleted_field (condition filter_mode live) (or_empty q)) deleted_field
        (condition filter_mode live) d (rw (get-put, eq_refl) refl) c)

  pub holds-state_filter :
      (mode : FilterMode) (d : D)
      → m.holds (build_deletion_state_filter deleted_field mode deleted) d
        ≡ m.clause deleted_field (condition mode deleted) d
  unfolding build_deletion_state_filter
  holds-state_filter mode d = rw (m.holds-cons, m.holds-nil) (and_true _)

  get-delete_update :
      (now : ℕ) (user : Option Value)
      → get deleted_field (delete_update options now user).set ≡ some (date now)
  unfolding delete_update get
  get-delete_update now none = rw eq_refl refl
  get-delete_update now (some user) = rw eq_refl refl

  Spares-delete_update :
      (key : String) (now : ℕ) (user : Option Value)
      → str_eq deleted_field key ≡ false
      → str_eq deleted_by_field key ≡ false
      → Spares (delete_update options now user) key
  unfolding delete_update has
  Spares-delete_update key now none a b = (rw a refl, refl, refl)
  Spares-delete_update key now (some user) a b = (rw (a, b) refl, refl, refl)

  module _ {key : String} (server : Server m key) where
    open server use {State, at, updated}

    soft_deleted_lem :
        (o : Outcome SoftDeleteError (D × State)) (t : State)
        → soft_deleted options server o ≡ returns (true, t)
        → (d : D) × (o ≡ returns (d, t))
    unfolding soft_deleted
    soft_deleted_lem (returns (d, s)) t h =
        (d, ap (λ x. returns (d, x)) (ap (λ x. x.1) (returns-injective _ _ h)))
    soft_deleted_lem (throws e) t h = cc

    found_reply :
        (r : Option D × State) (d : D) (t : State)
        → found_or_throw options server r ≡ returns (d, t)
        → (r.0 ≡ some d) × (r.1 ≡ t)
    unfolding found_or_throw
    found_reply (none, s) d t h = cc
    found_reply (some e, s) d t h =
        let p = returns-injective _ _ h in (ap (λ x. some x.0) p, ap (λ x. x.1) p)

    -- A write that found its row, by a filter that pins the row's key.
    pub found_lem :
        (q : Object Value) (u : Update) (s t : State) (id : String) (d : D)
        → get key q ≡ some (str id)
        → Spares u key
        → found_or_throw options server (server.find_one_and_update q u s) ≡ returns (d, t)
        → (e : D) × (d ≡ updated u e) × (at id t ≡ some d)
    found_lem q u s t id d g p h =
        let (n, a) = found_reply (server.find_one_and_update q u s) d t h in
        let reply = server.find_one_and_update-reply q u s id g in
        let after = server.at-find_one_and_update q u s id g p in
        let (e, f) = mapped_lem (updated u) (select (m.holds q) (at id s)) d (sym reply ∙ n) in
        (e, sym f, subst (λ x. at id x ≡ some d) a (after ∙ ap (λ x. or_kept x (at id s)) n))

    -- Where soft deletion is on and its field is no operator: once `delete` has marked a row, the
    -- row is there and holds its deletion, no read with the delete filter selects it, whatever
    -- else it asks for, and the filter of the deleted rows does. The condition of the call does
    -- not name the key field, and no field of the plugin is the key field.
    pub before_delete-hides :
        (id : String) (query q : Option (Object Value)) (now : ℕ) (user : Option Value)
        (s t : State)
        → soft ≡ true
        → is_operator deleted_field ≡ false
        → str_eq deleted_field key ≡ false
        → str_eq deleted_by_field key ≡ false
        → has key (or_empty query) ≡ false
        → before_delete options server false (str id) query now user s ≡ returns (true, t)
        → (d : D) × (at id t ≡ some d)
          × (m.holds (or_empty (inject_delete_filter options false q)) d ≡ false)
          × (m.holds (build_deletion_state_filter deleted_field filter_mode deleted) d ≡ true)
    unfolding before_delete
    before_delete-hides id query q now user s t o f a b n h =
        let pinned = delete_query key (str id) query in
        let u = delete_update options now user in
        let (d, g) =
          soft_deleted_lem (found_or_throw options server (server.find_one_and_update pinned u s)) t
            (rw o at h) in
        let (e, p, r) =
          found_lem pinned u s t id d (get-delete_query key (str id) query n)
            (Spares-delete_update key now user a b) g in
        let v : m.value_at deleted_field d ≡ date now =
          rw p (
            server.value_at-updated-set u e deleted_field (date now)
              (get-delete_update now user)) in
        let (x, y) = marked_lem filter_mode d now f v in
        (d, r, hidden_lem q d o x, holds-state_filter filter_mode d ∙ y)
