-- ===== src/Lease/Laws.antt =====
-- A leased document is nobody else's until the lease is over.
use mongokit.Prelude.{
  ℕ, ◌+◌, ◌<◌, subst, String, ◌≡◌, refl, sym, ap, ◌∙◌, Bool, true, false, ◌&&◌, ◌||◌, Option, some,
  [], ◌∷◌, ltb, str_eq, arith, returns, throw_if, ◌>>◌, returns-injective,
}
use mongokit.Js.Object.{Object, get, has, put}
use mongokit.Js.Object.Laws.{put_new}
use mongokit.Js.Value.{Value, str, date, arr, objects, is_operator}
use mongokit.Mongo.{Matching, operator}
use mongokit.Mongo.Server.{Server, IsStandard, Update}
use mongokit.Pagination.Filter.Semantics.{holds-append, holds-one, holds-two}
use mongokit.Lease.{
  default_options, LeaseError, LeaseCommand, claim_filter, claim_update, lease, own_filter, release,
}

one_step :
    (b : Bool) (x : LeaseError) (c e : LeaseCommand)
    → (throw_if b x >> returns c) ≡ returns e
    → c ≡ e
one_step true x c e h = cc
one_step false x c e h = returns-injective _ _ h

last_step :
    (a b : Bool) (x y : LeaseError) (c e : LeaseCommand)
    → (throw_if a x >> throw_if b y >> returns c) ≡ returns e
    → c ≡ e
last_step true b x y c e h = cc
last_step false true x y c e h = cc
last_step false false x y c e h = returns-injective _ _ h

module _ {D : Type 0} {m : Matching D} (server : Server m "_id") (standard : IsStandard m) where
  open server use {updated}

  clause-str :
      (k s : String) (d : D) {v : String}
      → is_operator k ≡ false
      → m.value_at k d ≡ str v
      → m.clause k (str s) d ≡ str_eq v s
  clause-str k s d {v} o e =
      m.clause-eq k (str s) d o tt ∙ ap (λ w. m.same w (str s)) e ∙ standard.same-str v s

  -- A document with a status and an expiry, under the filter of `lease`.
  holds-claim_filter :
      (base : Object Value) (now until : ℕ) (status : String) (d : D)
      → has "$or" base ≡ false
      → m.value_at "status" d ≡ str status
      → m.value_at "leaseExpiresAt" d ≡ date until
      → m.holds (claim_filter default_options base now) d
        ≡ (m.holds base d && (str_eq status "pending" || ltb until now))
  unfolding claim_filter is_operator
  holds-claim_filter base now until status d h p q =
      let pending : Object Value = ("status", str "pending") ∷ [] in
      let dead : Object Value = ("leaseExpiresAt", operator "$lt" (date now)) ∷ [] in
      rw
        (
          put_new "$or" (arr (objects (pending ∷ dead ∷ []))) base h,
          holds-append m base "$or" (arr (objects (pending ∷ dead ∷ []))) d,
          m.clause-or (pending ∷ dead ∷ []) d,
          holds-one m "status" (str "pending") d,
          clause-str "status" "pending" d refl p,
          holds-one m "leaseExpiresAt" (operator "$lt" (date now)) d,
          m.clause-lt "leaseExpiresAt" (date now) d refl,
          q,
          standard.below-date,
        )
        (ground arith)

  holds-own_filter :
      (id : Value) (leased_by : String) (now until : ℕ) (owner : String) (d : D)
      → m.value_at "leasedBy" d ≡ str owner
      → m.value_at "leaseExpiresAt" d ≡ date until
      → m.holds (own_filter default_options "_id" id leased_by now) d
        ≡ ((m.clause "_id" id d && str_eq owner leased_by) && ltb now until)
  unfolding own_filter put is_operator
  holds-own_filter id leased_by now until owner d p q =
      rw
        (
          holds-append m (("_id", id) ∷ ("leasedBy", str leased_by) ∷ []) "leaseExpiresAt"
              (operator "$gt" (date now)) d,
          holds-two m "_id" "leasedBy" id (str leased_by) d,
          clause-str "leasedBy" leased_by d refl p,
          m.clause-gt "leaseExpiresAt" (date now) d refl,
          q,
          standard.below-date,
        )
        refl

  -- The document after the command of a lease.
  leased :
      (leased_by : String) (until : ℕ) (d : D)
      → let e = updated (claim_update default_options leased_by until) d in
        (m.value_at "status" e ≡ str "processing")
        × (m.value_at "leasedBy" e ≡ str leased_by)
        × (m.value_at "leaseExpiresAt" e ≡ date until)
  unfolding claim_update get
  leased leased_by until d =
      let u = claim_update default_options leased_by until in
      (
        server.value_at-updated-set u d "status" (str "processing") refl,
        server.value_at-updated-set u d "leasedBy" (str leased_by) refl,
        server.value_at-updated-set u d "leaseExpiresAt" (date until) refl,
      )

  -- With the default options: a document that `lease` has updated is, until its lease is over,
  -- selected by no call of `lease`, of this worker or another, whatever filter without an `$or` the
  -- call is given; and until then a `release` selects it exactly when it is given its id and the
  -- name of the worker that leased it.
  pub lease-exclusive :
      (filter : Object Value) (lease_for now : ℕ) (leased_by : String) (c : LeaseCommand)
      (base : Object Value) (other_for later : ℕ) (other : String) (c_other : LeaseCommand)
      (id : Value) (status : Option String) (releasing : LeaseCommand) (d : D)
      → lease default_options (some filter) lease_for leased_by now ≡ returns c
      → lease default_options (some base) other_for other later ≡ returns c_other
      → release default_options "_id" id other status later ≡ returns releasing
      → has "$or" base ≡ false
      → later < now + lease_for
      → let e = updated c.update d in
        (m.holds c_other.query e ≡ false)
        × (m.holds releasing.query e ≡ (m.clause "_id" id e && str_eq leased_by other))
  unfolding lease release
  lease-exclusive filter lease_for now leased_by c base other_for later other c_other id status
        releasing d h1 h2 h3 no_or soon =
      let until = now + lease_for in
      let e = updated c.update d in
      let c_lem = last_step _ _ _ _ _ _ h1 in
      let (p, q, r) = leased leased_by until d in
      let at_update = λ (x : Update). m.value_at "status" (updated x d) in
      let u_lem : claim_update default_options leased_by until ≡ c.update =
        ap (λ x. x.update) c_lem in
      let p_lem : m.value_at "status" e ≡ str "processing" =
        subst (λ x. m.value_at "status" (updated x d) ≡ str "processing") u_lem p in
      let q_lem : m.value_at "leasedBy" e ≡ str leased_by =
        subst (λ x. m.value_at "leasedBy" (updated x d) ≡ str leased_by) u_lem q in
      let r_lem : m.value_at "leaseExpiresAt" e ≡ date until =
        subst (λ x. m.value_at "leaseExpiresAt" (updated x d) ≡ date until) u_lem r in
      (
        ap (λ x. m.holds x.query e) (sym (last_step _ _ _ _ _ _ h2))
            ∙ holds-claim_filter base later until "processing" e no_or p_lem r_lem
            ∙ ground arith,
        ap (λ x. m.holds x.query e) (sym (one_step _ _ _ _ h3))
            ∙ holds-own_filter id other later until leased_by e q_lem r_lem
            ∙ ground arith,
      )
