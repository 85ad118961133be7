-- ===== src/FilterIr/Tests.antt =====
-- Filters on a row with a name and an age, in memory.
use mongokit.Prelude.{String, some, ◌≡◌, refl, [], ◌∷◌, returns}
use mongokit.Js.Value.{num, str, pos, arr, Fields, end, field, object, objects, is_operator, obj}
use mongokit.FilterIr.{Filter, no_children, child, compile}
use mongokit.FilterIr.Like.{like_to_regex, literally, text_of_regex, like_to_regex-literally}
use mongokit.FilterIr.Meaning.{IsPlain, has_raw}
use mongokit.FilterIr.Compiled.{Means, compile-Means}
use mongokit.Mongo.Memory.Store.{documents, value_at}
use mongokit.Mongo.Memory.Extended.{operators}
use mongokit.FilterIr.Shorthand.{expand_shorthands}

-- `age >= 18 and not (name = 'x')`
abbrev adult : Filter
adult = Filter.and_ (
    child (Filter.gte "age" (num (pos 18)))
      (child (Filter.not_ (Filter.eq "name" (str "x"))) no_children))

compiled :
    compile adult
    ≡ returns (
        (
          "$and",
          arr (
              objects (
                (("age", object (("$gte", num (pos 18)) ∷ [])) ∷ [])
                ∷ (("$nor", arr (objects ((("name", str "x") ∷ []) ∷ []))) ∷ [])
                ∷ [])),
        )
        ∷ [])
unfolding compile
compiled = refl

wildcard : like_to_regex "a%_\\%." ≡ "^a.*.%\\.$"
unfolding like_to_regex
wildcard = refl

like_to_regex-literally_example :
    (r : String) × (like_to_regex "50\\% (a\\_b)" ≡ String.◌∷◌ "^" r)
    × (text_of_regex r ≡ some "50% (a_b)")
unfolding literally
like_to_regex-literally_example = like_to_regex-literally "50% (a_b)"

-- `{ price: { gte: 5 } }`
abbrev price : Fields
price = field "price" (obj (field "gte" (num (pos 5)) end)) end

expanded : expand_shorthands price ≡ field "price" (obj (field "$gte" (num (pos 5)) end)) end
unfolding expand_shorthands
expanded = refl

compile-Means_example : Means documents (operators value_at) adult
unfolding IsPlain has_raw is_operator
compile-Means_example =
    compile-Means documents (operators value_at) adult (refl, ((refl, tt), tt)) refl
