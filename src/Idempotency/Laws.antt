-- ===== src/Idempotency/Laws.antt =====
-- A claim that was completed is replayed, and a token that is no longer the row's changes nothing.
use mongokit.Prelude.{
  ℕ, ◌+◌, String, ◌≡◌, refl, sym, ap, subst, ◌∙◌, Bool, true, false, Option, none, some, [], ◌∷◌,
  ltb, str_eq, arith, Option-cases, inl, inr, returns, throw_if, >>=-eq-returns, returns-injective,
}
use mongokit.Js.Object.{Object, get, has, put, get-put}
use mongokit.Js.Object.Laws.{has-put}
use mongokit.Js.Value.{Value, str, is_operator}
use mongokit.Mongo.{Matching}
use mongokit.Mongo.Clauses.{holds-get}
use mongokit.Mongo.Server.{Server, IsStandard, select, mapped, or_kept, found_or, count_of, without}
use mongokit.Pagination.Cursor.{is_str}
use mongokit.Lock.{is_some}
use mongokit.Idempotency.{
  default_options, IdempotencyClaim, completed, failed, empty_failure_code, fresh_row, held_filter,
  set_only, with_optional, decide, claim_row, claim_found, claim_key, update_held, complete_claim,
  fail_claim, save_claim_progress, release_claim, expire_claim, or_ms,
}

none_true : false ≡ true → ⊥
none_true p = cc

module _ {D : Type 0} {m : Matching D} (server : Server m "key") where
  open server use {State, at, updated}

  -- A row that a later claim of its key replays.
  abbrev pub Replays : State → String → IdempotencyClaim → Type 0
  Replays s key c =
      (token : String) (now : ℕ) (lease_ms : Option ℕ) (seed : Object Value)
      → let r = claim_key default_options server key token now lease_ms seed s in
        (t : State) × (r ≡ returns (c, t)) × (at key t ≡ at key s)

  get-held_filter :
      (key token : String) (where_ : Object Value)
      → get "key" (held_filter default_options key token where_) ≡ some (str key)
  unfolding held_filter
  get-held_filter key token where_ =
      rw
        (
          get-put "status" "key" (str "in_flight")
              (put "leaseToken" (str token) (put "key" (str key) where_)),
          get-put "leaseToken" "key" (str token) (put "key" (str key) where_),
          get-put "key" "key" (str key) where_,
        )
        refl

  pub get-fresh_row :
      (seed : Object Value) (key token : String) (until : ℕ)
      → get "key" (fresh_row default_options seed key token until) ≡ some (str key)
  unfolding fresh_row
  get-fresh_row seed key token until = rw (get-put, get-put, get-put, get-put, get-put) refl

  -- A claim of a key that has a row goes by that row.
  pub claim_key-row :
      (key token : String) (now : ℕ) (lease_ms : Option ℕ) (seed : Object Value) (s : State) (d : D)
      → str_eq key "" ≡ false
      → at key s ≡ some d
      → (t : State) × (claim_key default_options server key token now lease_ms seed s
          ≡ returns (
              claim_row default_options server key token now
                (now + or_ms lease_ms 60000)
                d
                (decide default_options server now d)
                t))
        × (at key t ≡ some d)
  unfolding claim_key claim_found
  claim_key-row key token now lease_ms seed s d n e =
      let row = fresh_row default_options seed key token (now + or_ms lease_ms 60000) in
      let g = get-fresh_row seed key token (now + or_ms lease_ms 60000) in
      let r = server.get_or_create (("key", str key) ∷ []) row s in
      let reply = server.get_or_create-reply row s key g ∙ ap (found_or _) e in
      (r.1, rw (n, reply) refl, server.at-get_or_create row s key g ∙ ap (λ x. some x.0) reply)

  -- What a write under a held claim leaves in the row.
  updated_row :
      (key token : String) (where_ set : Object Value) (s : State)
      → has "key" set ≡ false
      → (update_held default_options server key token where_ set s).0 ≡ true
      → (d : D) × (at key (update_held default_options server key token where_ set s).1
          ≡ some (updated (set_only set) d))
  unfolding update_held has
  updated_row key token where_ set s h e =
      let q = held_filter default_options key token where_ in
      let g = get-held_filter key token where_ in
      let reply = server.find_one_and_update-reply q (set_only set) s key g in
      let after = server.at-find_one_and_update q (set_only set) s key g (h, refl, refl) in
      elim (Option-cases (select (m.holds q) (at key s))) [
        | inl n ↦ absurd (none_true (sym (ap is_some (reply ∙ ap (mapped _) n)) ∙ e))
        | inr (d, n) ↦ (d, after ∙ ap (λ x. or_kept x (at key s)) (reply ∙ ap (mapped _) n))
      ]

  claim_key-Replays :
      (s : State) (key : String) (d : D) (c : IdempotencyClaim)
      → str_eq key "" ≡ false
      → at key s ≡ some d
      → ((now : ℕ) → decide default_options server now d ≡ some c)
      → Replays s key c
  unfolding claim_row
  claim_key-Replays s key d c n e f token now lease_ms seed =
      let (t, a, b) = claim_key-row key token now lease_ms seed s d n e in
      (
        t,
        a
            ∙ ap
                (λ x. returns (
                  claim_row default_options server key token now (now + or_ms lease_ms 60000) d x
                    t))
                (f now),
        b ∙ sym e,
      )

  decide-succeeded :
      (now : ℕ) (d : D) {v : Value}
      → m.value_at "status" d ≡ str "succeeded"
      → m.value_at "result" d ≡ v
      → decide default_options server now d ≡ some (completed v)
  unfolding decide is_str
  decide-succeeded now d a b = rw (a, b) refl

  decide-failed :
      (now : ℕ) (d : D) {v : Value}
      → m.value_at "status" d ≡ str "failed"
      → m.value_at "failureCode" d ≡ v
      → decide default_options server now d ≡ some (failed v (m.value_at "lastError" d))
  unfolding decide is_str
  decide-failed now d a b = rw (a, b) refl

  -- With the default options and a key that is not empty: once `completeClaim` has succeeded with
  -- a result, every later claim of the key, with any token and at any time, replays that result
  -- and leaves the row alone, so the work is done once.
  pub complete_claim-Replays :
      (key token : String) (result : Value) (where_ : Object Value) (s : State)
      → str_eq key "" ≡ false
      → let r = complete_claim default_options server key token (some result) where_ s in
        r.0 ≡ true → Replays r.1 key (completed result)
  unfolding complete_claim with_optional put has get
  complete_claim-Replays key token result where_ s n e =
      let set : Object Value = ("status", str "succeeded") ∷ ("result", result) ∷ [] in
      let (d, h) = updated_row key token where_ set s refl e in
      claim_key-Replays _ key (updated (set_only set) d) (completed result) n h (λ now.
        decide-succeeded now (updated (set_only set) d)
          (server.value_at-updated-set (set_only set) d "status" (str "succeeded") refl)
          (server.value_at-updated-set (set_only set) d "result" result refl))

  -- With the default options and a key that is not empty: once `failClaim` has succeeded with a
  -- code and an error, every later claim of the key replays both and leaves the row alone.
  pub fail_claim-Replays :
      (key token code error : String) (where_ : Object Value) (s : State) (r : Bool × State)
      → str_eq key "" ≡ false
      → fail_claim default_options server key token code (some (str error)) where_ s ≡ returns r
      → r.0 ≡ true
      → Replays r.1 key (failed (str code) (str error))
  unfolding fail_claim with_optional put has get
  fail_claim-Replays key token code error where_ s r n f e =
      let set : Object Value =
        ("status", str "failed") ∷ ("failureCode", str code) ∷ ("lastError", str error) ∷ [] in
      let (x, a, b) = >>=-eq-returns (throw_if (str_eq code "") empty_failure_code) _ f in
      let done = returns-injective _ _ b in
      let (d, h) = updated_row key token where_ set s refl (ap (λ p. p.0) done ∙ e) in
      let u = updated (set_only set) d in
      claim_key-Replays r.1 key u (failed (str code) (str error)) n
        (ap (λ p. at key p.1) (sym done) ∙ h)
        (λ now.
          decide-failed now u
            (server.value_at-updated-set (set_only set) d "status" (str "failed") refl)
            (server.value_at-updated-set (set_only set) d "failureCode" (str code) refl)
          ∙ ap (λ v. some (failed (str code) v))
              (server.value_at-updated-set (set_only set) d "lastError" (str error) refl))

  -- A call said no, and left the row of the key alone.
  abbrev pub Refused : State → String → Bool × State → Type 0
  Refused s key r = (r.0 ≡ false) × (at key r.1 ≡ at key s)

  module _ (standard : IsStandard m) (key token owner : String) (s : State) (d : D)
      (row : at key s ≡ some d) (owned : m.value_at "leaseToken" d ≡ str owner)
      (stale : str_eq owner token ≡ false) where
    select-held_filter :
        (where_ : Object Value)
        → select (m.holds (held_filter default_options key token where_)) (at key s) ≡ none
    unfolding held_filter is_operator
    select-held_filter where_ =
        let q = held_filter default_options key token where_ in
        let g : get "leaseToken" q ≡ some (str token) = rw (get-put, get-put) refl in
        let c : m.clause "leaseToken" (str token) d ≡ false =
          rw (m.clause-eq "leaseToken" (str token) d refl tt, owned, standard.same-str) stale in
        rw (row, holds-get m q "leaseToken" (str token) d g c) refl

    update_held-Refused :
        (where_ set : Object Value)
        → has "key" set ≡ false
        → Refused s key (update_held default_options server key token where_ set s)
    unfolding update_held has
    update_held-Refused where_ set h =
        let q = held_filter default_options key token where_ in
        let g = get-held_filter key token where_ in
        let none_lem =
          server.find_one_and_update-reply q (set_only set) s key g
          ∙ ap (mapped (updated (set_only set))) (select-held_filter where_) in
        (
          ap is_some none_lem,
          server.at-find_one_and_update q (set_only set) s key g (h, refl, refl)
              ∙ ap (λ x. or_kept x (at key s)) none_lem,
        )

    has-with_optional :
        (v : Option Value) (k : String) (o : Object Value)
        → has "key" o ≡ false
        → str_eq k "key" ≡ false
        → has "key" (with_optional v k o) ≡ false
    unfolding with_optional
    has-with_optional none k o h n = h
    has-with_optional (some v) k o h n = rw (has-put k "key" v o, h) (ground (arith, n))

    -- With the default options and a token that is not the row's (its lease was taken over): no
    -- call that completes the claim (with a result or without), fails or lapses it (with an error or
    -- without), feeds it or drops it goes through, and none changes the row.
    pub stale_token-Refused :
        (result error : Option Value) (progress : Value) (now : ℕ) (where_ : Object Value)
        (code : String) (r : Bool × State)
        → fail_claim default_options server key token code error where_ s ≡ returns r
        → Refused s key (complete_claim default_options server key token result where_ s)
          × Refused s key r
          × Refused s key (save_claim_progress default_options server key token progress where_ s)
          × Refused s key (expire_claim default_options server key token now error s)
          × Refused s key (release_claim default_options server key token s)
    unfolding complete_claim fail_claim save_claim_progress expire_claim release_claim put has
    stale_token-Refused result error progress now where_ code r f =
        let g = get-held_filter key token [] in
        let q = held_filter default_options key token [] in
        let (x, a, b) = >>=-eq-returns (throw_if (str_eq code "") empty_failure_code) _ f in
        (
          update_held-Refused where_ _ (has-with_optional result "result" _ refl refl),
          subst (Refused s key) (returns-injective _ _ b)
              (update_held-Refused where_ _ (has-with_optional error "lastError" _ refl refl)),
          update_held-Refused where_ _ refl,
          update_held-Refused [] _ (has-with_optional error "lastError" _ refl refl),
          (
            ap (ltb 0) (server.delete_many-reply q s key g ∙ ap count_of (select-held_filter [])),
            server.at-delete_many q s key g
                ∙ ap (λ x. without x (at key s)) (select-held_filter []),
          ),
        )
