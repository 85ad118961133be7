-- ===== src/Sanitizer/Tests.antt =====
-- A pipeline with a blocked stage and a dangerous branch.
use mongokit.Prelude.{String, ◌≡◌, refl, Bool, true, false, List, [], ◌∷◌, All, returns, throws}
use mongokit.Js.Value.{Value, str, arr, obj, no_items, item, Fields, end, field}
use mongokit.Sanitizer.{
  ParserRuntime, base_dangerous_operators, invalid_query_input, sanitize_pipeline,
  sanitize_expressions,
}
use mongokit.Sanitizer.Pipeline.{IsSafe, sanitize_pipeline-IsSafe}

abbrev runtime : Bool → ParserRuntime
runtime strict = record {
  dangerous_operators = base_dangerous_operators;
  max_filter_depth = 10;
  throws_on_reject = strict;
  index_name = λ n. "0";
}

abbrev one : String → Value → Value
one k v = obj (field k v end)

-- `{ $match: { $or: [{ $where: 'true' }, { status: 'paid' }] } }`, and `{ $out: 'x' }`.
abbrev stages : List Value
stages =
    one "$match" (
      one "$or"
        (arr (item (one "$where" (str "true")) (item (one "status" (str "paid")) no_items))))
    ∷ one "$out" (str "x")
    ∷ []

abbrev safe_stages : List Value
safe_stages = one "$match" (one "$or" (arr (item (one "status" (str "paid")) no_items))) ∷ []

dropped : sanitize_pipeline (runtime false) stages ≡ returns safe_stages
unfolding sanitize_pipeline
dropped = refl

refused : sanitize_pipeline (runtime true) stages ≡ throws invalid_query_input
unfolding sanitize_pipeline
refused = refl

sanitize_pipeline-IsSafe_example : All (IsSafe (runtime false)) safe_stages
sanitize_pipeline-IsSafe_example =
    sanitize_pipeline-IsSafe (runtime false) stages safe_stages dropped

-- `{ x: [[{ $function: 'f' }]] }` is left as it is.
abbrev nested : Fields
nested = field "x" (arr (item (arr (item (one "$function" (str "f")) no_items)) no_items)) end

nested_array : sanitize_expressions (runtime true) 0 nested ≡ returns nested
unfolding sanitize_expressions
nested_array = refl
