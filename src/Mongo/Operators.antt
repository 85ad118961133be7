-- ===== src/Mongo/Operators.antt =====
-- MongoDB's side of further operators of a field: documented behaviour, as an interface.
use mongokit.Prelude.{String, ◌≡◌, Bool, false, not, ◌||◌, List, [], ◌∷◌, any}
use mongokit.Js.Value.{Value, str, bool, arr, object, values, is_operator}
use mongokit.Mongo.{Matching, IsLiteral, operator}

-- Lists of values that match literally.
abbrev pub AllLiteral : List Value → Type 0
AllLiteral [] = Unit
AllLiteral (v ∷ vs) = IsLiteral v × AllLiteral vs

pub record Operators {D : Type 0} (m : Matching D) : Type 0 where
  -- Does a value match a regular expression, under options?
  pub matches : String → String → Value → Bool
  pub clause-gte :
      (k : String) (v : Value) (d : D)
      → is_operator k ≡ false
      → m.clause k (operator "$gte" v) d ≡ (m.below v (m.value_at k d) || m.same (m.value_at k d) v)
  pub clause-lte :
      (k : String) (v : Value) (d : D)
      → is_operator k ≡ false
      → m.clause k (operator "$lte" v) d ≡ (m.below (m.value_at k d) v || m.same (m.value_at k d) v)
  pub clause-in :
      (k : String) (vs : List Value) (d : D)
      → is_operator k ≡ false
      → AllLiteral vs
      → m.clause k (operator "$in" (arr (values vs))) d ≡ any (λ v. m.same (m.value_at k d) v) vs
  pub clause-nin :
      (k : String) (vs : List Value) (d : D)
      → is_operator k ≡ false
      → AllLiteral vs
      → m.clause k (operator "$nin" (arr (values vs))) d
        ≡ not (any (λ v. m.same (m.value_at k d) v) vs)
  pub clause-regex :
      (k : String) (pattern : String) (d : D)
      → is_operator k ≡ false
      → m.clause k (operator "$regex" (str pattern)) d ≡ matches pattern "" (m.value_at k d)
  pub clause-regex_options :
      (k : String) (pattern options : String) (d : D)
      → is_operator k ≡ false
      → m.clause k (object (("$regex", str pattern) ∷ ("$options", str options) ∷ [])) d
        ≡ matches pattern options (m.value_at k d)
  pub clause-expr_false : (d : D) → m.clause "$expr" (bool false) d ≡ false
