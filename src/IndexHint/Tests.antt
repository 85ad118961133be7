-- ===== src/IndexHint/Tests.antt =====
-- An index on a tenant's posts by their status, newest first.
use mongokit.Prelude.{◌≡◌, refl, List, [], ◌∷◌, Mem}
use mongokit.Js.Object.{Object}
use mongokit.Js.Value.{pos, negsuc, Value, num, str}
use mongokit.Pagination.Sort.{SortSpec}
use mongokit.IndexHint.{equality_fields, has_compatible_keyset_index}
use mongokit.IndexHint.Laws.{Serves, has_compatible_keyset_index-Serves}

abbrev posts_index : Object Value
posts_index = ("status", num (pos 1)) ∷ ("createdAt", num (negsuc 0)) ∷ ("_id", num (negsuc 0)) ∷ []

abbrev schema_indexes : List (Object Value)
schema_indexes = (("_id", num (pos 1)) ∷ []) ∷ posts_index ∷ []

abbrev posts_sort : SortSpec
posts_sort = ("_id", negsuc 0) ∷ []

published : equality_fields (("status", str "published") ∷ []) ≡ "status" ∷ []
unfolding equality_fields
published = refl

has_compatible_keyset_index-Serves_example :
    (index : Object Value) × Mem index schema_indexes
    × Serves ("status" ∷ []) (("createdAt", negsuc 0) ∷ posts_sort) index
unfolding has_compatible_keyset_index
has_compatible_keyset_index-Serves_example =
    has_compatible_keyset_index-Serves schema_indexes ("status" ∷ []) ("createdAt", negsuc 0)
      posts_sort refl
