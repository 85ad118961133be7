-- ===== src/Idempotency/Exclusion.antt =====
-- A claim that was acquired is busy for everybody until its lease is over.
use mongokit.Prelude.{
  ℕ, ◌+◌, ◌<◌, String, ◌≡◌, refl, sym, ap, subst, ◌∙◌, Bool, true, false, Option, none, some, [],
  ◌∷◌, lt→ltb, str_eq, Bool-cases, Option-cases, inl, inr, returns, returns-injective,
}
use mongokit.Js.Object.{Object, get, has, put, get-put}
use mongokit.Js.Value.{ℤ, pos, Value, str, date}
use mongokit.Mongo.{Matching}
use mongokit.Mongo.Server.{Server, found_or}
use mongokit.Pagination.Cursor.{is_str}
use mongokit.Idempotency.{
  default_options, IdempotencyClaim, acquired, busy, fresh_row, stale_filter, reclaim_update,
  defined, decide, reclaimed, reclaim, claim_row, claim_found, claim_key, or_ms, is_live,
}
use mongokit.Idempotency.Laws.{claim_key-row, get-fresh_row}

no_path : true ≡ false → ⊥
no_path p = cc

module _ {D : Type 0} {m : Matching D} (server : Server m "key") where
  open server use {State, at, updated}

  -- A row that is in flight under a token until a time.
  pub record IsHeld (s : State) (key token : String) (until : ℕ) : Type 0 where
    pub row : D
    pub at_key : at key s ≡ some row
    pub not_succeeded : is_str (m.value_at "status" row) "succeeded" ≡ false
    pub not_failed : is_str (m.value_at "status" row) "failed" ≡ false
    pub token_is : m.value_at "leaseToken" row ≡ str token
    pub until_is : m.value_at "leaseExpiresAt" row ≡ date until

  decide-held :
      (s : State) (key token : String) (until later : ℕ) (h : IsHeld s key token until)
      → later < until
      → decide default_options server later h.row
        ≡ some (busy (defined (m.value_at "progress" h.row)) (some (str token)))
  unfolding decide is_live defined
  decide-held s key token until later h l =
      rw (h.not_succeeded, h.not_failed, h.until_is, lt→ltb later until l, h.token_is) refl

  decide-none :
      (now : ℕ) (row : D)
      → decide default_options server now row ≡ none
      → (is_str (m.value_at "status" row) "succeeded" ≡ false)
        × (is_str (m.value_at "status" row) "failed" ≡ false)
  unfolding decide
  decide-none now row h = elim (Bool-cases (is_str (m.value_at "status" row) "succeeded")) [
    | inl e ↦ absurd (cc (rw e at h))
    | inr e ↦ elim (Bool-cases (is_str (m.value_at "status" row) "failed")) [
      | inl f ↦ absurd (cc (rw (e, f) at h))
      | inr f ↦ (e, f)
    ]
  ]

  fresh-IsHeld :
      (s : State) (key token : String) (until : ℕ) (seed : Object Value)
      → at key s
        ≡ some (
            server.created_from
              (("key", str key) ∷ [])
              (fresh_row default_options seed key token until))
      → IsHeld s key token until
  unfolding fresh_row is_str
  fresh-IsHeld s key token until seed e =
      let q : Object Value = ("key", str key) ∷ [] in
      let o = fresh_row default_options seed key token until in
      let status =
        server.value_at-created_from q o "status" (str "in_flight")
          (rw (get-put, get-put, get-put, get-put) refl) in
      record {
        row = server.created_from q o;
        at_key = e;
        not_succeeded = rw status refl;
        not_failed = rw status refl;
        token_is =
            server.value_at-created_from q o "leaseToken" (str token)
              (rw (get-put, get-put, get-put) refl);
        until_is =
            server.value_at-created_from q o "leaseExpiresAt" (date until)
              (rw (get-put, get-put) refl);
      }

  reclaimed-IsHeld :
      (s : State) (key token : String) (until : ℕ) (row : D)
      → (is_str (m.value_at "status" row) "succeeded" ≡ false)
      → (is_str (m.value_at "status" row) "failed" ≡ false)
      → at key s ≡ some (updated (reclaim_update default_options token until) row)
      → IsHeld s key token until
  unfolding reclaim_update has put get
  reclaimed-IsHeld s key token until row a b e =
      let u = reclaim_update default_options token until in
      let same = server.value_at-updated-other u row "status" (refl, refl, refl) in
      record {
        row = updated u row;
        at_key = e;
        not_succeeded = rw same a;
        not_failed = rw same b;
        token_is = server.value_at-updated-set u row "leaseToken" (str token) refl;
        until_is = server.value_at-updated-set u row "leaseExpiresAt" (date until) refl;
      }

  -- A claim of a key without a row makes the row.
  claim_key-fresh :
      (key token : String) (now : ℕ) (lease_ms : Option ℕ) (seed : Object Value) (s : State)
      → str_eq key "" ≡ false
      → at key s ≡ none
      → (t : State) × (claim_key default_options server key token now lease_ms seed s
          ≡ returns (acquired token (pos 1) none, t))
        × (at key t
            ≡ some (
                server.created_from
                  (("key", str key) ∷ [])
                  (fresh_row default_options seed key token (now + or_ms lease_ms 60000))))
  unfolding claim_key claim_found
  claim_key-fresh key token now lease_ms seed s n e =
      let row = fresh_row default_options seed key token (now + or_ms lease_ms 60000) in
      let g = get-fresh_row server seed key token (now + or_ms lease_ms 60000) in
      let r = server.get_or_create (("key", str key) ∷ []) row s in
      let reply = server.get_or_create-reply row s key g ∙ ap (found_or _) e in
      (r.1, rw (n, reply) refl, server.at-get_or_create row s key g ∙ ap (λ x. some x.0) reply)

  abbrev is_acquired : Option IdempotencyClaim → Bool
  is_acquired (some (acquired token n p)) = true
  is_acquired _ = false

  -- What was in the row decides about a claim, but never that it is acquired.
  decide-not_acquired :
      (now : ℕ) (row : D) → is_acquired (decide default_options server now row) ≡ false
  unfolding decide
  decide-not_acquired now row =
      let a = is_str (m.value_at "status" row) "succeeded" in
      let b = is_str (m.value_at "status" row) "failed" in
      let c = is_live now (m.value_at "leaseExpiresAt" row) in
      elim (Bool-cases a) [
        | inl e ↦ rw e refl
        | inr e ↦ elim (Bool-cases b) [
          | inl f ↦ rw (e, f) refl
          | inr f ↦ elim (Bool-cases c) [ inl g ↦ rw (e, f, g) refl | inr g ↦ rw (e, f, g) refl ]
        ]
      ]

  -- The row after a re-acquisition that was won.
  reclaim-IsHeld :
      (key token : String) (now until : ℕ) (row : D) (s t : State) (winner : String) (n : ℤ)
      (p : Option Value)
      → decide default_options server now row ≡ none
      → at key s ≡ some row
      → reclaim default_options server key token now until row s ≡ (acquired winner n p, t)
      → IsHeld t key token until
  unfolding reclaim stale_filter reclaimed reclaim_update put has get
  reclaim-IsHeld key token now until row s t winner n p d e h =
      let q = stale_filter default_options key now in
      let u = reclaim_update default_options token until in
      let r = server.find_one_and_update q u s in
      let (a, b) = decide-none now row d in
      let g : get "key" q ≡ some (str key) = rw (get-put, get-put) refl in
      let reply = server.find_one_and_update-reply q u s key g in
      let after = server.at-find_one_and_update q u s key g (refl, refl, refl) in
      let same : r.1 ≡ t = ap (λ x. x.1) h in
      elim (Bool-cases (m.holds q row)) [
        | inl f ↦
            let won : r.0 ≡ some (updated u row) = reply ∙ rw (e, f) refl in
            reclaimed-IsHeld t key token until row a b
              (subst (λ x. at key x ≡ some (updated u row)) same (after ∙ rw won refl))
        | inr f ↦
            let lost : r.0 ≡ none = reply ∙ rw (e, f) refl in
            absurd (cc (rw lost at (ap (λ x. x.0) h)))
      ]

  claim_row-IsHeld :
      (key token : String) (now until : ℕ) (row : D) (o : Option IdempotencyClaim) (s t : State)
      (winner : String) (n : ℤ) (p : Option Value)
      → decide default_options server now row ≡ o
      → at key s ≡ some row
      → claim_row default_options server key token now until row o s ≡ (acquired winner n p, t)
      → IsHeld t key token until
  unfolding claim_row
  claim_row-IsHeld key token now until row (some c) s t winner n p d e h =
      let q : some c ≡ some (acquired winner n p) = ap (λ x. some x.0) h in
      absurd
        (no_path (sym (ap is_acquired q) ∙ sym (ap is_acquired d) ∙ decide-not_acquired now row))
  claim_row-IsHeld key token now until row none s t winner n p d e h =
      reclaim-IsHeld key token now until row s t winner n p d e h

  -- Whoever acquires a key holds its row.
  claim_key-IsHeld :
      (key token : String) (now : ℕ) (lease_ms : Option ℕ) (seed : Object Value) (s t : State)
      (winner : String) (n : ℤ) (p : Option Value)
      → str_eq key "" ≡ false
      → claim_key default_options server key token now lease_ms seed s
        ≡ returns (acquired winner n p, t)
      → IsHeld t key token (now + or_ms lease_ms 60000)
  claim_key-IsHeld key token now lease_ms seed s t winner n p k h = elim (Option-cases (at key s)) [
    | inr (row, e) ↦
        let (u, a, b) = claim_key-row server key token now lease_ms seed s row k e in
        claim_row-IsHeld key token now (now + or_ms lease_ms 60000) row _ u t winner n p refl b
          (returns-injective _ _ (sym a ∙ h))
    | inl e ↦
        let (u, a, b) = claim_key-fresh key token now lease_ms seed s k e in
        fresh-IsHeld t key token (now + or_ms lease_ms 60000) seed (
          subst
            (λ x.
              at key x
              ≡ some (
                  server.created_from (("key", str key) ∷ [])
                    (fresh_row default_options seed key token (now + or_ms lease_ms 60000))))
            (ap (λ x. x.1) (returns-injective _ _ (sym a ∙ h))) b)
  ]

  -- With the plugin's default options, who acquired a key that is not empty, by a new row or by
  -- taking a lapsed one over, has it alone until the lease is over: every claim before that time,
  -- with any token, is told that the key is busy under the holder's token, and leaves the row as
  -- it was.
  pub claim_key-excludes :
      (key token other : String) (now later : ℕ) (lease_ms other_ms : Option ℕ)
      (seed other_seed : Object Value) (s t : State) (winner : String) (n : ℤ) (p : Option Value)
      → str_eq key "" ≡ false
      → claim_key default_options server key token now lease_ms seed s
        ≡ returns (acquired winner n p, t)
      → later < now + or_ms lease_ms 60000
      → (progress : Option Value) × (u : State) × (claim_key default_options server key other later
            other_ms other_seed t
          ≡ returns (busy progress (some (str token)), u))
        × (at key u ≡ at key t)
  unfolding claim_row
  claim_key-excludes key token other now later lease_ms other_ms seed other_seed s t winner n p k h
        l =
      let held = claim_key-IsHeld key token now lease_ms seed s t winner n p k h in
      let (u, a, b) =
        claim_key-row server key other later other_ms other_seed t held.row k held.at_key in
      let d = decide-held t key token (now + or_ms lease_ms 60000) later held l in
      (
        defined (m.value_at "progress" held.row),
        u,
        a
            ∙ ap
                (λ x. returns (
                  claim_row default_options server key other later (later + or_ms other_ms 60000)
                    held.row x u))
                d,
        b ∙ sym held.at_key,
      )
