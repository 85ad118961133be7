-- ===== src/Lock/Exclusion.antt =====
-- Mutual exclusion: several holders call the adapter in any order.
use mongokit.Prelude.{
  ℕ, ◌+◌, ◌≤◌, String, ◌≡◌, ◌≢◌, refl, sym, ap, ◌∙◌, subst, Bool, true, false, ◌&&◌, ◌||◌, Option,
  some, List, [], ◌∷◌, str_eq, eq_iff, eq_refl, arith, Bool-cases, inl, inr, All, Outcome, returns,
  throws,
}
use mongokit.Js.Object.{get, has}
use mongokit.Mongo.{Matching}
use mongokit.Mongo.Server.{Server, ServerError, IsStandard}
use mongokit.Lock.{lease_of, acquire_filter, acquire_update, release_filter, try_acquire, release}
use mongokit.Lock.Laws.{
  Held, may_take, taken, given_back, Says, Represents, try_acquire-refines, release-refines,
}

-- One call, with what its caller's clock says.
pub data Call : Type 0 where
  acquires : String → String → ℕ → ℕ → Call
  releases : String → String → Call

-- A call by another holder; if it asks for the lock, then not after `until`.
abbrev pub IsBefore : String → String → ℕ → Call → Type 0
IsBefore name holder until (acquires n h lease_ms now) = (str_eq holder h ≡ false) × (now ≤ until)
IsBefore name holder until (releases n h) = str_eq holder h ≡ false

-- Did a call get the lock, and what does it leave?
abbrev pub granted : Outcome ServerError Bool → Bool
granted (returns b) = b
granted (throws e) = false

module _ {D : Type 0} {m : Matching D} (server : Server m "_id") (default_lease_ms : ℕ) where
  open server use {State}

  abbrev pub perform : Call → State → Outcome ServerError Bool × State
  perform (acquires name holder lease_ms now) s =
      try_acquire server default_lease_ms name holder lease_ms now s
  perform (releases name holder) s = let r = release server name holder s in (returns r.0, r.1)

  -- The calls one after the other, and whether any of them got the lock `name`.
  abbrev gets : String → Call → Outcome ServerError Bool → Bool
  gets name (acquires n h lease_ms now) r = str_eq n name && granted r
  gets name (releases n h) r = false

  abbrev pub run : String → List Call → State → Bool × State
  run name [] s = (false, s)
  run name (c ∷ cs) s =
      let r = perform c s in let rest = run name cs r.1 in (gets name c r.0 || rest.0, rest.1)

taken-granted : (b : Bool) (o : Option Held) (h : Held) → (taken b o h).0 ≡ true → b ≡ true
taken-granted true o h e = refl
taken-granted false o h e = e

module _ {D : Type 0} {m : Matching D} (server : Server m "_id") (standard : IsStandard m)
    (default_lease_ms : ℕ) (name holder : String) (until : ℕ) where
  abbrev ours : Option Held
  ours = some (record { holder = holder; until = until })

  other_lock : (n : String) → str_eq n name ≡ false → n ≢ name
  other_lock n e p = ground (arith, eq_iff n name)

  acquires-keeps :
      (h : String) (lease_ms now : ℕ) (s : server.State)
      → str_eq holder h ≡ false
      → now ≤ until
      → Represents server standard s name ours
      → let r = try_acquire server default_lease_ms name h lease_ms now s in
        (granted r.0 ≡ false) × Represents server standard r.1 name ours
  acquires-keeps h lease_ms now s p q r =
      let (a, b, c) =
        try_acquire-refines server standard default_lease_ms name h lease_ms now s ours r in
      let refused : may_take ours h now ≡ false = ground arith in
      let kept = λ (x : Bool).
        taken x ours (record { holder = h; until = now + lease_of default_lease_ms lease_ms }) in
      (
        rw a (ap (λ x. (kept x).0) refused),
        subst
            (λ x.
              Represents server standard
                (try_acquire server default_lease_ms name h lease_ms now s).1 name (kept x).1)
            refused b,
      )

  releases-keeps :
      (h : String) (s : server.State)
      → str_eq holder h ≡ false
      → Represents server standard s name ours
      → Represents server standard (release server name h s).1 name ours
  releases-keeps h s p r =
      let (a, b, c) = release-refines server standard default_lease_ms name h s ours r in
      subst (λ x. Represents server standard (release server name h s).1 name (given_back x ours).1)
        p b

  perform-keeps :
      (c : Call) (s : server.State)
      → IsBefore name holder until c
      → Represents server standard s name ours
      → (gets server default_lease_ms name c (perform server default_lease_ms c s).0 ≡ false)
        × Represents server standard (perform server default_lease_ms c s).1 name ours
  unfolding try_acquire release acquire_filter acquire_update release_filter get has
  perform-keeps (acquires n h lease_ms now) s (p, q) r = elim (Bool-cases (str_eq n name)) [
    | inl e ↦
        let n_lem = (eq_iff n name).0 e in
        rw (n_lem, eq_refl name) (acquires-keeps h lease_ms now s p q r)
    | inr e ↦ rw e (
      refl,
      subst (λ x. Says server standard x ours)
          (sym (
            server.at-find_one_and_upsert-other _ _ s n name refl (refl, refl, refl)
              (other_lock n e)))
          r,
    )
  ]
  perform-keeps (releases n h) s p r = elim (Bool-cases (str_eq n name)) [
    | inl e ↦ let n_lem = (eq_iff n name).0 e in (refl, rw n_lem (releases-keeps h s p r))
    | inr e ↦ (
      refl,
      subst (λ x. Says server standard x ours)
          (sym (server.at-find_one_and_delete-other _ s n name refl (other_lock n e))) r,
    )
  ]

  run-keeps :
      (cs : List Call) (s : server.State)
      → All (IsBefore name holder until) cs
      → Represents server standard s name ours
      → ((run server default_lease_ms name cs s).0 ≡ false)
        × Represents server standard (run server default_lease_ms name cs s).1 name ours
  run-keeps [] s h r = (refl, r)
  run-keeps (c ∷ cs) s h r =
      let (a, b) = perform-keeps c s h.0 r in
      let (d, e) = run-keeps cs (perform server default_lease_ms c s).1 h.1 b in (rw (a, d) refl, e)

-- Who gets a lock has it alone until its time is over: whatever other holders ask for or release
-- afterwards, in any order and on any locks, none of them gets this lock as long as no clock has
-- passed the end of the lease, and the holder can then still release it.
pub exclusion :
    {D : Type 0} {m : Matching D} (server : Server m "_id") (standard : IsStandard m)
    (default_lease_ms : ℕ) (name holder : String) (lease_ms now : ℕ) (cs : List Call)
    (s : server.State) (o : Option Held)
    → Represents server standard s name o
    → granted (try_acquire server default_lease_ms name holder lease_ms now s).0 ≡ true
    → All (IsBefore name holder (now + lease_of default_lease_ms lease_ms)) cs
    → let after = (try_acquire server default_lease_ms name holder lease_ms now s).1 in
      let r = run server default_lease_ms name cs after in
      (r.0 ≡ false) × ((release server name holder r.1).0 ≡ true)
exclusion server standard default_lease_ms name holder lease_ms now cs s o r g h =
    let until = now + lease_of default_lease_ms lease_ms in
    let new : Held = record { holder = holder; until = until } in
    let (a, b, c) =
      try_acquire-refines server standard default_lease_ms name holder lease_ms now s o r in
    let took : may_take o holder now ≡ true = taken-granted _ o new (sym (ap granted a) ∙ g) in
    let held =
      subst
        (λ x.
          Represents server standard
            (try_acquire server default_lease_ms name holder lease_ms now s).1 name
            (taken x o new).1)
        took b in
    let (d, e) = run-keeps server standard default_lease_ms name holder until cs _ h held in
    (
      d,
      (release-refines server standard default_lease_ms name holder _ (some new) e).0
          ∙ rw (eq_refl holder) refl,
    )
