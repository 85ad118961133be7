-- ===== src/Mongo/Memory/Extended.antt =====
-- The further operators of fields, in memory.
use mongokit.Prelude.{
  ◌&&◌, ◌∙◌, String, ◌≡◌, refl, ap, Bool, true, false, not, ◌||◌, List, [], ◌∷◌, any,
}
use mongokit.Js.Value.{Value, str, arr, object, fields, values}
use mongokit.Mongo.{operator}
use mongokit.Mongo.Operators.{Operators}
use mongokit.Mongo.Memory.{matching, clause, satisfies, satisfies_all, same, member, is_in}

pub and_true : (b : Bool) → (b && true) ≡ b
and_true true = refl
and_true false = refl

member-values : (vs : List Value) (w : Value) → member (values vs) w ≡ any (λ v. same w v) vs
unfolding member values
member-values [] w = refl
member-values (v ∷ vs) w = λ i. same w v || member-values vs w i

module _ {D : Type 0} (value_at : String → D → Value) where
  pub clause-one :
      (op k : String) (v : Value) (d : D)
      → clause value_at (operator op v) k d ≡ satisfies op v (value_at k d)
  unfolding clause satisfies_all object fields
  clause-one op k v d = and_true _

  pub clause-in :
      (k : String) (vs : List Value) (d : D)
      → clause value_at (operator "$in" (arr (values vs))) k d ≡ any (λ v. same (value_at k d) v) vs
  unfolding satisfies is_in
  clause-in k vs d = clause-one "$in" k _ d ∙ member-values vs (value_at k d)

  pub clause-nin :
      (k : String) (vs : List Value) (d : D)
      → clause value_at (operator "$nin" (arr (values vs))) k d
        ≡ not (any (λ v. same (value_at k d) v) vs)
  unfolding satisfies is_in
  clause-nin k vs d = clause-one "$nin" k _ d ∙ ap not (member-values vs (value_at k d))

  abbrev pub operators : Operators (matching value_at)
  unfolding satisfies satisfies_all clause object fields
  operators = record {
    matches = λ p o v. same v (str p);
    clause-gte = λ k v d o. clause-one "$gte" k v d;
    clause-lte = λ k v d o. clause-one "$lte" k v d;
    clause-in = λ k vs d o l. clause-in k vs d;
    clause-nin = λ k vs d o l. clause-nin k vs d;
    clause-regex = λ k p d o. clause-one "$regex" k (str p) d;
    clause-regex_options = λ k p options d o. and_true _;
    clause-expr_false = λ d. refl;
  }
