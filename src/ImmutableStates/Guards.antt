-- ===== src/ImmutableStates/Guards.antt =====
-- No call that a guard lets through reaches a frozen row.
use mongokit.Prelude.{
  String, ◌≡◌, refl, sym, ap, subst, ◌∙◌, Bool, true, false, not, Option, none, some, [], ◌∷◌, any,
  map, str_eq, eq_refl, Mem, All-Mem, Bool-cases, Option-cases, inl, inr, if◌then◌else◌, returns,
}
use mongokit.Js.Object.{Object, get, put, get-put}
use mongokit.Js.Value.{Value, str, arr, values, is_operator}
use mongokit.Mongo.{Matching, IsLiteral, operator}
use mongokit.Mongo.Clauses.{same_of_holds, holds-get}
use mongokit.Mongo.Operators.{Operators}
use mongokit.Mongo.Server.{IsStandard}
use mongokit.IdChunks.{is_nullish}
use mongokit.Pagination.Keyset.Order.{IsOrder}
use mongokit.Claim.{Transition, or_name, from_spec, claim_filter}
use mongokit.ImmutableStates.{
  Reader, ImmutableStatesPluginOptions, Ctx, or_empty, is_frozen, with_tenant, scoped, is_allowed,
  field, Hook, state_of, read_state_by_id, refuse, guard_by_id, guard_find_one_and_update,
  frozen_filter, refuse_hit, guard_many, guard_bulk_write, guard_transition, guard_claimed,
  guard_claim,
}
use mongokit.ImmutableStates.Laws.{
  throw_if-passes, if_true, if_false, not_and, frozen_text, AllLiteral-str, get-with_tenant,
  any_same, touches_of_clause, FromLiteral,
}

-- The calls that the plugin guards.
pub data Call : Type 0 where
  by_id : String → Call
  find_one_and_update bulk_write claim : Call
  many_rows : String → Call

module _ {D : Type 0} {m : Matching D} (operators : Operators m) (standard : IsStandard m)
    (order : IsOrder m) where
  module _ (reader : Reader m) (text_of : Value → String) (options : ImmutableStatesPluginOptions)
      (texts : (y : String) → text_of (str y) ≡ y) where
    open reader use {State, rows}
    open options use {states, tenant_field, allow_claim}

    abbrev pub guarded_field : String
    guarded_field = field reader text_of options

    abbrev pub guard : Call → Hook reader text_of options
    guard (by_id op) = guard_by_id reader text_of options op
    guard find_one_and_update = guard_find_one_and_update reader text_of options
    guard (many_rows op) = guard_many reader text_of options op
    guard bulk_write = guard_bulk_write reader text_of options
    guard claim = guard_claim reader text_of options

    -- The filter by which the plugin reads a row by its id.
    abbrev pub id_filter : Ctx → Object Value
    id_filter ctx = scoped tenant_field (("_id", ctx.id) ∷ []) ctx

    -- The row that a call by an id writes to, in the scope of its tenant.
    abbrev pub HasId : Ctx → State → D → Type 0
    HasId ctx s d =
        (is_nullish ctx.id ≡ false) × Mem d (rows s) × (m.holds (id_filter ctx) d ≡ true)

    -- The rows that a claim can change: on the guarded field, those of its own filter.
    abbrev pub Claimed : String → Ctx → Transition → State → D → Type 0
    Claimed id_field ctx t s d =
        (str_eq (or_name t.state_field "status") guarded_field ≡ true
          → m.holds (claim_filter id_field ctx.id guarded_field t) d ≡ true)
        × (str_eq (or_name t.state_field "status") guarded_field ≡ false → HasId ctx s d)

    -- The rows that a call can change.
    abbrev pub Reaches : String → Call → Ctx → State → D → Type 0
    Reaches id_field (by_id op) ctx s d = HasId ctx s d
    Reaches id_field find_one_and_update ctx s d = reader.find_one (or_empty ctx.query) s ≡ some d
    Reaches id_field (many_rows op) ctx s d =
        Mem d (rows s) × (m.holds (or_empty ctx.query) d ≡ true)
    Reaches id_field bulk_write ctx s d = Unit
    Reaches id_field claim ctx s d =
        (t : Transition) × (ctx.transition ≡ some t)
        × FromLiteral t.source
        × Claimed id_field ctx t s d

    abbrev pub frozen : D → Bool
    frozen d = is_frozen states (m.value_at guarded_field d)

    -- Ids that are scalars and distinct, and a tenant field that is not the id.
    pub record IsIdentified (s : State) : Type 0 where
      pub literal : (d : D) → Mem d (rows s) → IsLiteral (m.value_at "_id" d)
      pub unique :
          (d e : D)
          → Mem d (rows s)
          → Mem e (rows s)
          → m.value_at "_id" d ≡ m.value_at "_id" e
          → d ≡ e
      pub tenant : (t : String) → tenant_field ≡ some t → str_eq t "_id" ≡ false

    get-id_filter :
        (tenant : Option String) (ctx : Ctx)
        → ((t : String) → tenant ≡ some t → str_eq t "_id" ≡ false)
        → get "_id" (scoped tenant (("_id", ctx.id) ∷ []) ctx) ≡ some ctx.id
    unfolding scoped with_tenant get or_empty
    get-id_filter none ctx h = refl
    get-id_filter (some t) ctx h = get-with_tenant (("_id", ctx.id) ∷ []) t _ (h t refl)

    holds-frozen_filter :
        (q : Object Value) (d : D)
        → is_operator guarded_field ≡ false
        → m.holds q d ≡ true
        → any (λ v. m.same (m.value_at guarded_field d) v) (map str states) ≡ true
        → m.holds (frozen_filter reader text_of options q) d ≡ true
    unfolding frozen_filter
    holds-frozen_filter q d o k hit =
        let within : Object Value =
          (guarded_field, operator "$in" (arr (values (map str states)))) ∷ [] in
        m.holds-cons "$and" _ [] d
        ∙ rw
            (
              m.clause-and (q ∷ within ∷ []) d,
              k,
              m.holds-cons guarded_field (operator "$in" (arr (values (map str states)))) [] d,
              operators.clause-in guarded_field (map str states) d o (AllLiteral-str states),
              hit,
              m.holds-nil d,
            )
            refl

    module _ (s : State) (identified : IsIdentified s) (o : is_operator guarded_field ≡ false) where
      -- What the plugin reads of a row by its id is the row's own state.
      read_lem :
          (ctx : Ctx) (d : D)
          → IsLiteral ctx.id
          → HasId ctx s d
          → read_state_by_id reader text_of options ctx s ≡ m.value_at guarded_field d
      unfolding read_state_by_id state_of is_operator
      read_lem ctx d l (n, mem, h) = elim (Option-cases (reader.find_one (id_filter ctx) s)) [
        | inl e ↦ absurd (
            cc (
              h,
              All-Mem (λ x. m.holds (id_filter ctx) x ≡ false) d (rows s)
                  (reader.find_one-none (id_filter ctx) s e) mem,
            ))
        | inr (x, e) ↦
            let (mx, hx) = reader.find_one-some (id_filter ctx) s x e in
            let pinned = get-id_filter tenant_field ctx identified.tenant in
            let a = same_of_holds m (id_filter ctx) "_id" ctx.id d refl l pinned h in
            let b = same_of_holds m (id_filter ctx) "_id" ctx.id x refl l pinned hx in
            let p = order.same-eq (m.value_at "_id" d) ctx.id (identified.literal d mem) l a in
            let q = order.same-eq (m.value_at "_id" x) ctx.id (identified.literal x mx) l b in
            rw (n, e) (ap (m.value_at guarded_field) (identified.unique x d mx mem (q ∙ sym p)))
      ]

      not_refused :
          (op : String) (v : Value)
          → refuse reader text_of options op v ≡ returns tt
          → is_frozen states v ≡ false
      unfolding refuse
      not_refused op v h = throw_if-passes (is_frozen states v) _ h

      many_lem :
          (op : String) (q : Object Value) (d : D)
          → refuse_hit reader text_of options op
              (reader.find_one (frozen_filter reader text_of options q) s)
            ≡ returns tt
          → Mem d (rows s)
          → m.holds q d ≡ true
          → frozen d ≡ false
      unfolding refuse_hit
      many_lem op q d h mem k =
          let fq = frozen_filter reader text_of options q in
          elim (Option-cases (reader.find_one fq s)) [
            | inl e ↦ elim (Bool-cases (frozen d)) [
              | inl f ↦
                  let (x, v, i) = frozen_text states (m.value_at guarded_field d) f in
                  let hit =
                    ap (λ w. any (λ y. m.same w y) (map str states)) v
                    ∙ any_same operators standard order states x i in
                  let missed =
                    All-Mem (λ y. m.holds fq y ≡ false) d (rows s) (reader.find_one-none fq s e)
                      mem in
                  absurd (cc (missed, holds-frozen_filter q d o k hit))
              | inr f ↦ f
            ]
            | inr (x, e) ↦
                absurd (cc (subst (λ r. refuse_hit reader text_of options op r ≡ returns tt) e h))
          ]

      claim_lem :
          (id_field : String) (ctx : Ctx) (t : Transition) (d : D)
          → allow_claim ≡ none
          → IsLiteral ctx.id
          → guard_transition reader text_of options t ctx s ≡ returns tt
          → FromLiteral t.source
          → Claimed id_field ctx t s d
          → frozen d ≡ false
      unfolding guard_transition is_allowed claim_filter
      claim_lem id_field ctx t d a l h f (same_field, other) =
          let none_allowed =
            ap
              (λ allow.
                is_allowed allow (record { id = ctx.id; transition = t; data_ = ctx.data_ }))
              a in
          elim (Bool-cases (str_eq (or_name t.state_field "status") guarded_field)) [
            | inl e ↦ elim (Bool-cases (frozen d)) [
              | inl z ↦
                  let (x, v, i) = frozen_text states (m.value_at guarded_field d) z in
                  let clear = not_and (throw_if-passes _ _ (if_true _ _ e h)) none_allowed in
                  let own =
                    get-put guarded_field guarded_field (from_spec t.source)
                      (put id_field ctx.id t.where_)
                    ∙ ap
                        (λ b.
                          if b
                          then some (from_spec t.source)
                          else get guarded_field (put id_field ctx.id t.where_))
                        (eq_refl guarded_field) in
                  elim (Bool-cases (m.clause guarded_field (from_spec t.source) d)) [
                    | inl c ↦ absurd (
                        cc (
                          clear,
                          touches_of_clause operators standard order text_of states t.source
                              guarded_field x d texts o f v i c,
                        ))
                    | inr c ↦ absurd (
                        cc (
                          same_field e,
                          holds-get m (claim_filter id_field ctx.id guarded_field t) guarded_field
                              (from_spec t.source) d own c,
                        ))
                  ]
              | inr z ↦ z
            ]
            | inr e ↦
                subst (λ v. is_frozen states v ≡ false) (read_lem ctx d l (other e))
                  (not_and (throw_if-passes _ _ (if_false _ _ e h)) none_allowed)
          ]

      -- A call that is not the engine's own and that its guard lets through, where no claim is
      -- exempted, changes no row in a frozen state: not the row with the call's id in its tenant,
      -- none of the rows that its filter selects, for `findOneAndUpdate` not the row that the
      -- guard found, for a claim no row that its compare-and-set reaches, and for `bulkWrite`,
      -- which is never let through, none at all. Ids are distinct scalars in `_id`, no tenant field
      -- is the id, and the values that a claim comes from are scalars.
      pub guard-protects :
          (call : Call) (id_field : String) (ctx : Ctx) (d : D)
          → ctx.is_internal ≡ false
          → allow_claim ≡ none
          → IsLiteral ctx.id
          → guard call ctx s ≡ returns tt
          → Reaches id_field call ctx s d
          → is_frozen states (m.value_at guarded_field d) ≡ false
      unfolding guard_by_id guard_find_one_and_update guard_many guard_bulk_write guard_claim
          guard_claimed state_of
      guard-protects (by_id op) id_field ctx d i a l h r =
          subst (λ v. is_frozen states v ≡ false) (read_lem ctx d l r)
            (not_refused op _ (if_false _ _ i h))
      guard-protects find_one_and_update id_field ctx d i a l h r =
          not_refused "findOneAndUpdate" _ (
            subst
              (λ x.
                refuse reader text_of options "findOneAndUpdate" (state_of reader text_of options x)
                ≡ returns tt)
              r (if_false _ _ i h))
      guard-protects (many_rows op) id_field ctx d i a l h (mem, k) =
          many_lem op (or_empty ctx.query) d (if_false _ _ i h) mem k
      guard-protects bulk_write id_field ctx d i a l h r =
          absurd (cc (throw_if-passes (not ctx.is_internal) _ h, ap not i))
      guard-protects claim id_field ctx d i a l h (t, e, f, c) =
          claim_lem id_field ctx t d a l
            (subst (λ x. guard_claimed reader text_of options x ctx s ≡ returns tt) e
              (if_false _ _ i h))
            f c
