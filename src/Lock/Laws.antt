-- ===== src/Lock/Laws.antt =====
-- What a lock promises: an abstract lock that has a holder until a time, and the adapter as an
-- implementation of it.
use mongokit.Prelude.{
  ℕ, ◌+◌, String, ◌≡◌, ◌≢◌, refl, ap, ◌∙◌, Bool, true, false, ◌||◌, Option, none, some, [], ◌∷◌,
  ltb, str_eq, eq_refl, arith, Bool-cases, inl, inr, Outcome, returns,
}
use mongokit.Js.Object.{Object, get, has}
use mongokit.Js.Value.{Value, str, date, is_operator}
use mongokit.Mongo.{Matching, operator}
use mongokit.Mongo.Server.{Server, ServerError, IsStandard, select, upserted, kept_by, without}
use mongokit.Pagination.Cursor.{is_str}
use mongokit.Pagination.Filter.Semantics.{holds-one, holds-two}
use mongokit.Lock.{
  lease_of, acquire_filter, acquire_update, release_filter, acquired, try_acquire, release, is_some,
}

pub record Held : Type 0 where
  pub holder : String
  pub until : ℕ

-- Taking the lock: allowed when nobody has it, when its time is over, or to extend one's own.
abbrev pub may_take : Option Held → String → ℕ → Bool
may_take none holder now = true
may_take (some h) holder now = ltb h.until now || str_eq h.holder holder

abbrev pub taken : Bool → Option Held → Held → Bool × Option Held
taken true o new = (true, some new)
taken false o new = (false, o)

abbrev pub take : Option Held → String → ℕ → ℕ → Bool × Option Held
take o holder now until =
    taken (may_take o holder now) o (record { holder = holder; until = until })

abbrev pub is_held_by : Option Held → String → Bool
is_held_by none holder = false
is_held_by (some h) holder = str_eq h.holder holder

abbrev pub given_back : Bool → Option Held → Bool × Option Held
given_back true o = (true, none)
given_back false o = (false, o)

abbrev pub give_back : Option Held → String → Bool × Option Held
give_back o holder = given_back (is_held_by o holder) o

module _ {D : Type 0} {m : Matching D} (server : Server m "_id") (standard : IsStandard m) where
  open server use {State, at, updated, inserted, find_one_and_upsert, find_one_and_delete}

  -- A document says who holds the lock and until when.
  abbrev pub Says : Option D → Option Held → Type 0
  Says none none = Unit
  Says (some d) (some h) =
      (m.value_at "holder" d ≡ str h.holder) × (m.value_at "expiresAt" d ≡ date h.until)
  Says _ _ = ⊥

  abbrev pub Represents : State → String → Option Held → Type 0
  Represents s name o = Says (at name s) o

  clause-str :
      (k s : String) (d : D) {v : String}
      → is_operator k ≡ false
      → m.value_at k d ≡ str v
      → m.clause k (str s) d ≡ str_eq v s
  clause-str k s d {v} o e =
      m.clause-eq k (str s) d o tt ∙ ap (λ w. m.same w (str s)) e ∙ standard.same-str v s

  holds-acquire_filter :
      (name holder : String) (now : ℕ) (d : D) (h : Held)
      → m.value_at "_id" d ≡ str name
      → Says (some d) (some h)
      → m.holds (acquire_filter name holder now) d ≡ may_take (some h) holder now
  unfolding acquire_filter is_operator
  holds-acquire_filter name holder now d h e (p, q) =
      let by_time : Object Value = ("expiresAt", operator "$lt" (date now)) ∷ [] in
      let by_holder : Object Value = ("holder", str holder) ∷ [] in
      rw
        (
          holds-two m "_id" "$or" (str name) _ d,
          clause-str "_id" name d refl e,
          eq_refl name,
          m.clause-or (by_time ∷ by_holder ∷ []) d,
          holds-one m "expiresAt" (operator "$lt" (date now)) d,
          m.clause-lt "expiresAt" (date now) d refl,
          q,
          standard.below-date,
          holds-one m "holder" (str holder) d,
          clause-str "holder" holder d refl p,
        )
        (ground arith)

  holds-release_filter :
      (name holder : String) (d : D) (h : Held)
      → m.value_at "_id" d ≡ str name
      → Says (some d) (some h)
      → m.holds (release_filter name holder) d ≡ str_eq h.holder holder
  unfolding release_filter is_operator
  holds-release_filter name holder d h e (p, q) = rw (
    holds-two m "_id" "holder" (str name) (str holder) d,
    clause-str "_id" name d refl e,
    eq_refl name,
    clause-str "holder" holder d refl p,
  )

  -- The reply to `try_acquire` and what is stored afterwards, from the command's reply.
  abbrev Took : Bool × Option Held → String → Outcome ServerError (Option D) → Option D → Type 0
  Took r holder reply before =
      (acquired server holder reply ≡ returns r.0) × Says (kept_by reply before) r.1

  Took-update :
      (holder : String) (now until : ℕ) (d e : D)
      → m.value_at "holder" d ≡ str holder
      → m.value_at "expiresAt" d ≡ date until
      → Took
          (true, some (record { holder = holder; until = until }))
          holder
          (returns (some d))
          (some e)
  unfolding acquired is_str
  Took-update holder now until d e p q = (rw (p, eq_refl holder), (p, q))

  try_acquire-refines_at :
      (name holder : String) (now until : ℕ) (s : State) (o : Option Held) (before : Option D)
      → at name s ≡ before
      → Says before o
      → Took
          (take o holder now until)
          holder
          (upserted
            (updated (acquire_update holder now until))
            (inserted (acquire_filter name holder now) (acquire_update holder now until))
            (select (m.holds (acquire_filter name holder now)) before)
            before)
          before
  unfolding acquired is_str acquire_update get
  try_acquire-refines_at name holder now until s none none e p =
      let q = acquire_filter name holder now in
      let u = acquire_update holder now until in
      let a = server.value_at-inserted q u "holder" (str holder) refl in
      let b = server.value_at-inserted q u "expiresAt" (date until) refl in
      (rw (a, eq_refl holder), (a, b))
  try_acquire-refines_at name holder now until s none (some d) e p = elim p [ ]
  try_acquire-refines_at name holder now until s (some h) none e p = elim p [ ]
  try_acquire-refines_at name holder now until s (some h) (some d) e p =
      let u = acquire_update holder now until in
      let a = server.value_at-updated-set u d "holder" (str holder) refl in
      let b = server.value_at-updated-set u d "expiresAt" (date until) refl in
      let f = holds-acquire_filter name holder now d h (server.value_at-key s name d e) p in
      elim (Bool-cases (may_take (some h) holder now)) [
        | inl c ↦ rw (f, c, a, eq_refl holder) (refl, (refl, b))
        | inr c ↦ rw (f, c) (refl, p)
      ]

  release_at :
      (name holder : String) (s : State) (o : Option Held) (before : Option D)
      → at name s ≡ before
      → Says before o
      → let reply = select (m.holds (release_filter name holder)) before in
        (is_some reply ≡ (give_back o holder).0)
        × Says (without reply before) (give_back o holder).1
  release_at name holder s none none e p = (refl, p)
  release_at name holder s none (some d) e p = elim p [ ]
  release_at name holder s (some h) none e p = elim p [ ]
  release_at name holder s (some h) (some d) e p =
      let f = holds-release_filter name holder d h (server.value_at-key s name d e) p in
      elim (Bool-cases (str_eq h.holder holder)) [
        | inl c ↦ rw (f, c) (refl, tt)
        | inr c ↦ rw (f, c) (refl, p)
      ]

  module _ (default_lease_ms : ℕ) (name : String) where
    -- `tryAcquire` takes the lock exactly when the abstract lock may be taken (free, over, or one's
    -- own), says so in its reply, never fails, and leaves every other lock as it was.
    pub try_acquire-refines :
        (holder : String) (lease_ms now : ℕ) (s : State) (o : Option Held)
        → Represents s name o
        → let r = try_acquire server default_lease_ms name holder lease_ms now s in
          let t = take o holder now (now + lease_of default_lease_ms lease_ms) in
          (r.0 ≡ returns t.0)
          × Represents r.1 name t.1
          × ((other : String) → name ≢ other → at other r.1 ≡ at other s)
    unfolding try_acquire acquire_filter acquire_update get has
    try_acquire-refines holder lease_ms now s o p =
        let until = now + lease_of default_lease_ms lease_ms in
        let q = acquire_filter name holder now in
        let u = acquire_update holder now until in
        let (a, b) = try_acquire-refines_at name holder now until s o (at name s) refl p in
        (
          rw (server.find_one_and_upsert-reply q u s name refl) a,
          rw
              (
                server.at-find_one_and_upsert q u s name refl (refl, refl, refl),
                server.find_one_and_upsert-reply q u s name refl,
              )
              b,
          λ other h. server.at-find_one_and_upsert-other q u s name other refl (refl, refl, refl) h,
        )

    -- `release` frees the lock exactly when the caller has it, says so in its reply, and leaves
    -- every other lock as it was.
    pub release-refines :
        (holder : String) (s : State) (o : Option Held)
        → Represents s name o
        → let r = release server name holder s in
          (r.0 ≡ (give_back o holder).0)
          × Represents r.1 name (give_back o holder).1
          × ((other : String) → name ≢ other → at other r.1 ≡ at other s)
    unfolding release release_filter get
    release-refines holder s o p =
        let q = release_filter name holder in
        let (a, b) = release_at name holder s o (at name s) refl p in
        (
          rw (server.find_one_and_delete-reply q s name refl) a,
          rw
              (
                server.at-find_one_and_delete q s name refl,
                server.find_one_and_delete-reply q s name refl,
              )
              b,
          λ other h. server.at-find_one_and_delete-other q s name other refl h,
        )
