-- ===== src/Purge/Walk.antt =====
-- A purge from its first chunk to its last: it ends, and does what one write to all rows would.
use mongokit.Prelude.{
  ℕ, zero, suc, ◌+◌, ◌<◌, ◌≡◌, refl, sym, ap, ◌∙◌, subst, Bool, false, Option, none, some, List, [],
  ◌∷◌, ◌++◌, filter, filter-congr, length, length-append, length-drop, take, drop, last-append,
  take-append-drop, inl, inr, arith, Outcome, returns, throws,
}
use mathlib.Core.Path.{fun_ext}
use mongokit.Js.Object.{Object, has}
use mongokit.Js.Value.{Value, null}
use mongokit.Mongo.{Matching}
use mongokit.Mongo.Operators.{Operators}
use mongokit.Mongo.Rows.{Rows, CommandError, edited}
use mongokit.IdChunks.{is_nullish, keyset_filter, select_keyset_chunk}
use mongokit.Purge.{Strategy, Chunk, purge_docs, purge_chunk}
use mongokit.Purge.Chunk.{IsIdOrder, id_at, IsKeyed}
use mongokit.Purge.Step.{IsReliable, SparesId, effect, holds-due, purge_docs-lem}
use mongokit.Purge.Left.{
  edited_none, due_at, IsCursor, left-IsKeyed, filter-left, edited-left, c_lem,
}

module _ {D : Type 0} {m : Matching D} (repo : Rows m) (base : Object Value) (strategy : Strategy D)
    (now limit : ℕ) where
  open repo use {State, rows}

  abbrev pub added :
      ℕ → Outcome CommandError (Option ℕ) × State → Outcome CommandError (Option ℕ) × State
  added n (returns (some k), s) = (returns (some (n + k)), s)
  added n r = r

  abbrev pub next :
      (Value → State → Outcome CommandError (Option ℕ) × State)
      → Chunk repo
      → Outcome CommandError (Option ℕ) × State
  next again (returns zero, cursor, s) = (returns (some 0), s)
  next again (returns (suc n), cursor, s) = added (suc n) (again cursor s)
  next again (throws e, cursor, s) = (throws e, s)

  -- Calls of `purgeChunk` with the port's cursor, until one finds nothing: how many rows were
  -- processed, or none if the calls did not suffice.
  unfoldable pub walk : ℕ → Value → State → Outcome CommandError (Option ℕ) × State
  unfolding purge_chunk
  walk zero cursor s = (returns none, s)
  walk (suc calls) cursor s = next (walk calls) (purge_chunk repo base strategy now limit cursor s)

pub take_cons :
    {A : Type 0} (n : ℕ) (y : A) (ys : List A) → 0 < n → (zs : List A) × (take n (y ∷ ys) ≡ y ∷ zs)
take_cons zero y ys h = absurd (omega arith)
take_cons (suc n) y ys h = (take n ys, refl)

pub take_nil : {A : Type 0} (n : ℕ) → (let e : List A = [] in take n e ≡ e)
take_nil zero = refl
take_nil (suc n) = refl

module _ {D : Type 0} {m : Matching D} (repo : Rows m) (operators : Operators m) (ids : IsIdOrder m)
    (reliable : IsReliable repo) (base : Object Value) (no_id : has "_id" base ≡ false)
    (strategy : Strategy D) (now : ℕ) (spares : SparesId strategy now) (limit : ℕ)
    (positive : 0 < limit) where
  open repo use {State, rows}

  abbrev due_behind : Value → D → Bool
  due_behind = due_at repo operators ids reliable base no_id strategy now spares limit positive

  docs_lem :
      (cursor : Value) (s : State) (found : List D)
      → filter (due_behind cursor) (rows s) ≡ found
      → select_keyset_chunk repo (keyset_filter base cursor) limit s ≡ take limit found
  unfolding select_keyset_chunk
  docs_lem cursor s found e =
      repo.find-eq (keyset_filter base cursor) limit s positive
      ∙ ap (take limit) (
          filter-congr _ _ (rows s) (
            holds-due repo operators ids reliable base no_id strategy now spares limit positive
              cursor)
          ∙ e)

  -- Given more calls than rows that are due.
  walk-all :
      (calls : ℕ) (cursor : Value) (s : State) (found : List D)
      → IsCursor repo operators ids reliable base no_id strategy now spares limit positive cursor
      → IsKeyed m (rows s)
      → filter (due_behind cursor) (rows s) ≡ found
      → length found < calls
      → (t : State) × (walk repo base strategy now limit calls cursor s
          ≡ (returns (some (length found)), t))
        × (rows t ≡ edited (due_behind cursor) (effect repo strategy now) (rows s))
  unfolding walk purge_chunk purge_docs
  walk-all zero cursor s found o k e h = absurd (omega arith)
  walk-all (suc calls) cursor s [] o k e h = (
    s,
    ap
        (λ docs.
          next repo base strategy now limit (walk repo base strategy now limit calls)
            (purge_docs repo base strategy now limit docs cursor s))
        (docs_lem cursor s [] e ∙ take_nil limit),
    sym (edited_none (due_behind cursor) (effect repo strategy now) (rows s) e),
  )
  walk-all (suc calls) cursor s (y ∷ ys) o k e h =
      let (zs, tk) = take_cons limit y ys positive in
      let (c, init, p, l) = last-append (y ∷ zs) (omega arith) in
      let rest = drop limit (y ∷ ys) in
      let whole = ap (λ x. x ++ rest) (sym tk) ∙ take-append-drop limit (y ∷ ys) in
      let parted = e ∙ sym whole ∙ ap (λ x. x ++ rest) p in
      let (t, eq, r) =
        purge_docs-lem repo operators ids reliable base no_id strategy now spares limit positive
          cursor s y zs init rest c p k parted in
      let left =
        filter-left repo operators ids reliable base no_id strategy now spares limit positive cursor
          o (rows s) init rest c k parted in
      let keyed =
        left-IsKeyed repo operators ids reliable base no_id strategy now spares limit positive
          cursor o (rows s) init rest c k parted in
      let (u, again, v) =
        walk-all calls (id_at m c) t rest
          (inr
            (c_lem repo operators ids reliable base no_id strategy now spares limit positive cursor
              o (rows s) init rest c k parted).0)
          (subst (IsKeyed m) (sym r) keyed) (ap (filter (due_behind (id_at m c))) r ∙ left)
          (omega (arith, length-drop limit (y ∷ ys))) in
      let go = next repo base strategy now limit (walk repo base strategy now limit calls) in
      (
        u,
        ap (λ docs. go (purge_docs repo base strategy now limit docs cursor s))
              (docs_lem cursor s (y ∷ ys) e ∙ tk)
            ∙ ap go eq
            ∙ ap (added repo base strategy now limit (suc (length zs))) again
            ∙ ap (λ n. (returns (some n), u)) (sym (length-append (y ∷ zs) rest) ∙ ap length whole),
        v
            ∙ ap (edited (due_behind (id_at m c)) (effect repo strategy now)) r
            ∙ edited-left repo operators ids reliable base no_id strategy now spares limit positive
                cursor o (rows s) init rest c k parted,
      )

  due_start : (d : D) → due_behind null d ≡ m.holds base d
  unfolding is_nullish
  due_start d = ground arith

  -- A purge by a filter that has no condition on `_id`, of any strategy that leaves the ids of
  -- rows, on a collection with distinct ids whose commands do not fail: with any positive chunk
  -- size, and more calls than rows that the filter selects, the calls come to an end, the counts
  -- that they return add up to the number of those rows, and the collection is then as after one
  -- write to all of them: each selected row is removed, marked or replaced exactly once, also where
  -- it is still selected afterwards, and the others are as they were.
  pub walk-refines :
      (calls : ℕ) (s : State)
      → IsKeyed m (rows s)
      → length (filter (λ d. m.holds base d) (rows s)) < calls
      → (t : State) × (walk repo base strategy now limit calls null s
          ≡ (returns (some (length (filter (λ d. m.holds base d) (rows s)))), t))
        × (rows t ≡ edited (λ d. m.holds base d) (effect repo strategy now) (rows s))
  unfolding is_nullish
  walk-refines calls s k h =
      let (t, e, r) =
        walk-all calls null s (filter (λ d. m.holds base d) (rows s)) (inl refl) k
          (filter-congr _ _ (rows s) due_start) h in
      (t, e, r ∙ ap (λ p. edited p (effect repo strategy now) (rows s)) (fun_ext due_start))
