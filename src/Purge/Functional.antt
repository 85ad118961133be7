-- ===== src/Purge/Functional.antt =====
-- A chunk whose replacers are functions: one bulk write, in which each row gets its own values.
use mongokit.Prelude.{
  ◌≡◌, refl, sym, ap, ◌∙◌, subst, All-append, Bool, true, false, some, List, [], ◌∷◌, ◌++◌, ◌&&◌,
  not, filter, map, All, if◌then◌else◌, Bool-cases, inl, inr, arith,
}
use mongokit.Js.Object.{Object, get}
use mongokit.Js.Value.{Value, is_operator}
use mongokit.Mongo.{Matching}
use mongokit.Mongo.Rows.{Rows, UpdateOne, past, edit, chosen, edited, applied, AllPin}
use mongokit.Mongo.Rows.Laws.{All-map, All-zip, All-split, All-of_filter, edit-edit, edit_congr}
use mongokit.Purge.{Replacer, update_of, set_of}
use mongokit.Purge.Chunk.{
  parts, Apart, unselected, selected, selected-IsKeyed, IsIdOrder, IsId, id_at, IsKeyed, same_false,
  same_before,
}

module _ {D : Type 0} (m : Matching D) (repo : Rows m) (ids : IsIdOrder m) where
  open repo use {set_on}

  -- What a list of updates makes of one row.
  abbrev pub run : List UpdateOne → D → D
  run [] d = d
  run (op ∷ ops) d = run ops (if m.holds op.filter_by d then set_on op.set d else d)

  All-any : (P : D → Type 0) (xs : List D) → ((d : D) → P d) → All P xs
  All-any P [] h = tt
  All-any P (x ∷ xs) h = (h x, All-any P xs h)

  pub applied-edit :
      (ops : List UpdateOne) (xs : List D)
      → applied m set_on ops xs ≡ edit (λ d. some (run ops d)) xs
  applied-edit [] [] = refl
  applied-edit [] (x ∷ xs) = ap (λ r. x ∷ r) (applied-edit [] xs)
  applied-edit (op ∷ ops) xs =
      applied-edit ops _
      ∙ edit-edit (chosen (λ d. m.holds op.filter_by d) (λ d. some (set_on op.set d)))
          (λ d. some (run ops d)) (λ d. some (run (op ∷ ops) d)) xs
          (All-any _ xs λ d. elim (Bool-cases (m.holds op.filter_by d)) [
            | inl e ↦ rw e refl
            | inr e ↦ rw e refl
          ])

  chosen_lem :
      (b : Bool) (y z : D) {x : D}
      → x ≡ (if not b then y else z)
      → some x ≡ (if not b then some y else some z)
  chosen_lem true y z h = ap some h
  chosen_lem false y z h = ap some h

  holds-own_id :
      (e d : D)
      → IsId (id_at m e)
      → m.holds (("_id", id_at m e) ∷ []) d ≡ m.same (id_at m d) (id_at m e)
  unfolding is_operator
  holds-own_id e d k =
      rw (m.holds-cons, m.holds-nil, m.clause-eq "_id" (id_at m e) d refl k.0) (ground arith)

  module _ (fields : Object (Replacer D)) where
    pub AllPin-map :
        (es : List D) → All (λ e. IsId (id_at m e)) es → AllPin (map (update_of repo fields) es)
    unfolding update_of get
    AllPin-map [] a = tt
    AllPin-map (e ∷ es) (k, a) = ((id_at m e, k.0, refl), AllPin-map es a)

    abbrev pub replaced_row : D → D
    replaced_row d = set_on (set_of fields d []) d

    -- The first update of a list, by whether it is about the row.
    run-cons :
        (e : D) (es : List D) (d : D) {b : Bool}
        → IsId (id_at m e)
        → m.same (id_at m d) (id_at m e) ≡ b
        → run (map (update_of repo fields) (e ∷ es)) d
          ≡ run (map (update_of repo fields) es) (if b then set_on (set_of fields e []) d else d)
    unfolding update_of
    run-cons e es d k h =
        ap
          (λ t.
            run (map (update_of repo fields) es) (if t then set_on (set_of fields e []) d else d))
          (holds-own_id e d k ∙ h)

    -- Updates of other rows.
    pub run_others :
        (es : List D) (d : D)
        → All (λ e. IsId (id_at m e)) es
        → All (λ e. m.same (id_at m d) (id_at m e) ≡ false) es
        → run (map (update_of repo fields) es) d ≡ d
    run_others [] d a b = refl
    run_others (e ∷ es) d (k, a) (h, b) = run-cons e es d k h ∙ run_others es d a b

    -- Where ids are kept, each row of a chunk gets its own values, once.
    pub run_own :
        ((d : D) → id_at m (replaced_row d) ≡ id_at m d)
        → (es : List D) → IsKeyed m es
        → All (λ d. run (map (update_of repo fields) es) d ≡ replaced_row d) es
    run_own keeps [] a = tt
    run_own keeps (e ∷ es) ((k, a), (h, s)) =
        let later = All-zip (λ d. IsId (id_at m d)) (λ d. past m e d ≡ true) es a h in
        (
          run-cons e es e k (ids.reflexive (id_at m e) k.0)
              ∙ run_others es (replaced_row e) a (
                  All-map
                    (λ d x.
                      ap (λ v. m.same v (id_at m d)) (keeps e)
                      ∙ same_before m ids (id_at m e) (id_at m d) k.0 x.0.0 x.1)
                    es later),
          All-map
              (λ d x.
                run-cons e es d k (same_false m ids (id_at m e) (id_at m d) k.0 x.1.0.0 x.1.1)
                ∙ x.0)
              es
              (All-zip (λ d. run (map (update_of repo fields) es) d ≡ replaced_row d)
                (λ d. IsId (id_at m d) × (past m e d ≡ true)) es (run_own keeps es (a, s)) later),
        )

    module _ (base : D → Bool) (q : Value → Bool) where
      -- The bulk write of a chunk changes the rows of the chunk, each once, and no others.
      pub applied-chunk :
          (rows init rest : List D) (c : D)
          → ((d : D) → id_at m (replaced_row d) ≡ id_at m d)
          → IsKeyed m rows
          → filter (selected m ids base q) rows ≡ (init ++ c ∷ []) ++ rest
          → applied m set_on (map (update_of repo fields) (init ++ c ∷ [])) rows
            ≡ edited
                (λ d. selected m ids base q d && not (past m c d))
                (λ d. some (replaced_row d))
                rows
      applied-chunk rows init rest c keeps k e =
          let front = init ++ c ∷ [] in
          let sel = selected m ids base q in
          let ops = map (update_of repo fields) front in
          let (kf, upto, behind) =
            parts m ids init rest c (subst (IsKeyed m) e (selected-IsKeyed m ids base q rows k)) in
          let Right : D → Type 0 =
            λ d. run ops d ≡ (if not (past m c d) then replaced_row d else d) in
          let among_selected : All Right (front ++ rest) =
            All-append Right front rest
              (All-map (λ d h. rw h.1 h.0) front
                (All-zip (λ d. run ops d ≡ replaced_row d) (λ d. past m c d ≡ false) front
                  (run_own keeps front kf) upto))
              (All-map (λ d h. rw h.0 (run_others front d kf.0 h.1)) rest behind) in
          let right = All-of_filter Right sel rows (subst (All Right) (sym e) among_selected) in
          let others =
            subst (λ M. All (λ d. sel d ≡ false → Apart m ids M d) rows) e
              (unselected m ids sel rows k) in
          applied-edit ops rows
          ∙ edit_congr (λ d. some (run ops d)) _ rows
              (All-map
                (λ d h. elim (Bool-cases (sel d)) [
                  | inl t ↦ rw t (chosen_lem (past m c d) (replaced_row d) d (h.0 t))
                  | inr t ↦ rw t (
                      ap some (
                        run_others front d kf.0
                          (All-split (λ x. m.same (id_at m d) (id_at m x) ≡ false) front rest
                            (h.1 t)).0))
                ])
                rows
                (All-zip (λ d. sel d ≡ true → Right d)
                  (λ d. sel d ≡ false → Apart m ids (front ++ rest) d) rows right others))
