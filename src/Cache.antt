-- ===== src/Cache.antt =====
-- src/utils/memory-cache.ts. A `Map` is its entries in insertion order; the clock is an argument, in
-- milliseconds, and so is `RegExp.test`, which is the engine's.
pub mod Laws
mod Tests
use Prim.Native.Char.{Char, code}
use mongokit.Prelude.{
  ℕ, zero, suc, ◌+◌, ◌-◌, ◌*◌, String, Bool, true, false, ◌||◌, Option, none, some, List, [], ◌∷◌,
  length, ltb, leb, ◌==◌, str_eq, if◌then◌else◌,
}
use mongokit.Js.Object.{Object, get, put, remove}

pub record CacheEntry (V : Type 0) : Type 0 where
  pub value : V
  pub expires_at : ℕ

-- The two variables that the adapter's methods share.
pub record MemoryCache (V : Type 0) : Type 0 where
  pub cache : Object (CacheEntry V)
  pub last_cleanup : ℕ

abbrev pub cleanup_interval_ms : ℕ
cleanup_interval_ms = 60000

module _ {V : Type 0} where
  -- The loop that deletes the entries that have expired.
  unfoldable pub drop_expired : ℕ → Object (CacheEntry V) → Object (CacheEntry V)
  drop_expired now [] = []
  drop_expired now ((k, e) ∷ c) =
      let rest = drop_expired now c in if ltb e.expires_at now then rest else (k, e) ∷ rest

  unfoldable pub cleanup_if_needed : ℕ → MemoryCache V → MemoryCache V
  cleanup_if_needed now s =
      if ltb (now - s.last_cleanup) cleanup_interval_ms
      then s
      else record { cache = drop_expired now s.cache; last_cleanup = now }

  -- The loop stops at an empty key, which is falsy. A key occurs once, so deleting the first key
  -- leaves the rest.
  unfoldable pub evict_oldest : ℕ → Object (CacheEntry V) → Object (CacheEntry V)
  evict_oldest max_entries [] = []
  evict_oldest max_entries ((k, e) ∷ c) =
      let rest = evict_oldest max_entries c in
      if leb max_entries (suc (length c))
      then (if str_eq k "" then (k, e) ∷ c else rest)
      else (k, e) ∷ c

  unfoldable pub get_entry :
      ℕ → String → Option (CacheEntry V) → MemoryCache V → Option V × MemoryCache V
  get_entry now k none s = (none, s)
  get_entry now k (some e) s =
      if ltb e.expires_at now
      then (none, record s { cache = remove k s.cache })
      else (some e.value, record s { cache = put k e (remove k s.cache) })

  unfoldable pub get_value : ℕ → String → MemoryCache V → Option V × MemoryCache V
  get_value now k s = get_entry now k (get k s.cache) s

  -- Room for one more entry.
  unfoldable pub make_room : ℕ → ℕ → MemoryCache V → MemoryCache V
  unfolding cleanup_if_needed
  make_room max_entries now s =
      if leb max_entries (length s.cache)
      then (let t = cleanup_if_needed now s in
          record t { cache = evict_oldest max_entries t.cache })
      else s

  unfoldable pub set_value : ℕ → ℕ → String → V → ℕ → MemoryCache V → MemoryCache V
  set_value max_entries now k v ttl s =
      let t = make_room max_entries now (record s { cache = remove k s.cache }) in
      record t { cache = put k (record { value = v; expires_at = now + ttl * 1000 }) t.cache }

  unfoldable pub delete : String → MemoryCache V → MemoryCache V
  delete k s = record s { cache = remove k s.cache }

-- The regular expression of a glob. The source replaces the special characters, then `*`, then `?`;
-- a replacement puts in no character that a later one replaces.
unfoldable pub is_special : ℕ → Bool
is_special c =
    c == 46
    || c == 43
    || c == 94
    || c == 36
    || c == 123
    || c == 125
    || c == 40
    || c == 41
    || c == 124
    || c == 91
    || c == 93
    || c == 92

unfoldable pub escaped : String → String
escaped String.[] = String.[]
escaped (String.◌∷◌ c s) =
    let rest = escaped s in
    if is_special (code c)
    then String.◌∷◌ "\\" (String.◌∷◌ c rest)
    else if code c == 42
    then String.◌∷◌ "." (String.◌∷◌ "*" rest)
    else if code c == 63
    then String.◌∷◌ "." rest
    else String.◌∷◌ c rest

module _ {V : Type 0} (matches : String → String → Bool) where
  unfoldable pub drop_matching : String → Object (CacheEntry V) → Object (CacheEntry V)
  drop_matching regex [] = []
  drop_matching regex ((k, e) ∷ c) =
      let rest = drop_matching regex c in if matches regex k then rest else (k, e) ∷ rest

  -- No pattern, or an empty one, clears everything.
  unfoldable pub clear : Option String → MemoryCache V → MemoryCache V
  clear none s = record s { cache = [] }
  clear (some String.[]) s = record s { cache = [] }
  clear (some (String.◌∷◌ c p)) s = record s {
    cache = drop_matching (escaped (String.◌∷◌ c p)) s.cache;
  }
