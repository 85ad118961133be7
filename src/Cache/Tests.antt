-- ===== src/Cache/Tests.antt =====
-- A cache of two entries.
use mongokit.Prelude.{ℕ, String, ◌≡◌, ◌≢◌, refl, none, [], ◌∷◌, arith}
use mongokit.Js.Object.{has, put, remove}
use mongokit.Cache.{
  MemoryCache, drop_expired, cleanup_if_needed, evict_oldest, get_value, make_room, set_value,
  escaped, is_special,
}
use mongokit.Cache.Laws.{IsBounded, set_value-IsBounded, get_value-set_value}

abbrev two : MemoryCache ℕ
two = record {
  cache =
      ("a", record { value = 1; expires_at = 9000 })
      ∷ ("b", record { value = 2; expires_at = 70000 })
      ∷ [];
  last_cleanup = 0;
}

b_lem : let k : String = "c" in k ≢ ""
b_lem p = cc

-- At the maximum, a write evicts.
set_value-IsBounded_example : IsBounded 2 (set_value 2 5000 "c" 3 10 two).cache
unfolding has
set_value-IsBounded_example =
    set_value-IsBounded 2 5000 "c" 3 10 two (omega arith) b_lem (refl, (refl, tt)) refl

get_value-set_value_example : (get_value 15001 "c" (set_value 2 5000 "c" 3 10 two)).0 ≡ none
get_value-set_value_example = get_value-set_value 2 5000 15001 "c" 3 10 two

-- The oldest entry goes, unless the cleanup has dropped an expired one.
evicted :
    (set_value 2 5000 "c" 3 10 two).cache
    ≡ ("b", record { value = 2; expires_at = 70000 })
      ∷ ("c", record { value = 3; expires_at = 15000 })
      ∷ []
unfolding set_value make_room cleanup_if_needed drop_expired evict_oldest put remove
evicted = refl

glob : escaped "user:*.?" ≡ "user:.*\\.."
unfolding escaped is_special
glob = refl
