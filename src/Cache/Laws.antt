-- ===== src/Cache/Laws.antt =====
-- The cache keeps to its size, and gives back what was stored until it expires.
use mongokit.Prelude.{
  ℕ, suc, ◌+◌, ◌-◌, ◌*◌, ◌≤◌, ◌<◌, String, ◌≡◌, ◌≢◌, refl, ◌∙◌, false, ◌&&◌, none, some, [], ◌∷◌,
  length, ltb, leb, str_eq, eq_iff, eq_refl, if◌then◌else◌, arith, Bool-cases, inl, inr,
}
use mongokit.Js.Object.{Object, get, has, put, remove, get-put, get-remove}
use mongokit.Js.Object.Laws.{IsObject, has-put, IsObject-put}
use mongokit.Cache.{
  CacheEntry, MemoryCache, drop_expired, cleanup_if_needed, evict_oldest, get_entry, get_value,
  make_room, set_value, cleanup_interval_ms,
}

module _ {V : Type 0} where
  -- No key twice, no empty key, and not more entries than the maximum.
  pub record IsBounded (max_entries : ℕ) (c : Object (CacheEntry V)) : Type 0 where
    pub distinct : IsObject c
    pub named : has "" c ≡ false
    pub small : length c ≤ max_entries

  length-put :
      (k : String) (e : CacheEntry V) (c : Object (CacheEntry V))
      → length (put k e c) ≤ suc (length c)
  unfolding put
  length-put k e [] = omega arith
  length-put k e ((j, f) ∷ c) = ground (arith, length-put k e c)

  length-remove : (k : String) (c : Object (CacheEntry V)) → length (remove k c) ≤ length c
  unfolding remove
  length-remove k [] = omega arith
  length-remove k ((j, f) ∷ c) = ground (arith, length-remove k c)

  has-remove_le :
      (k j : String) (c : Object (CacheEntry V)) → has j c ≡ false → has j (remove k c) ≡ false
  unfolding has remove
  has-remove_le k j [] h = refl
  has-remove_le k j ((i, f) ∷ c) h = ground (arith, has-remove_le k j c)

  has-remove : (k : String) (c : Object (CacheEntry V)) → has k (remove k c) ≡ false
  unfolding has remove
  has-remove k [] = refl
  has-remove k ((i, f) ∷ c) = ground (arith, has-remove k c)

  IsObject-remove : (k : String) (c : Object (CacheEntry V)) → IsObject c → IsObject (remove k c)
  unfolding remove
  IsObject-remove k [] h = tt
  IsObject-remove k ((j, f) ∷ c) h = elim (Bool-cases (str_eq j k)) [
    | inl e ↦ rw e (IsObject-remove k c h.1)
    | inr e ↦ rw e (has-remove_le k j c h.0, IsObject-remove k c h.1)
  ]

  length-drop_expired :
      (now : ℕ) (c : Object (CacheEntry V)) → length (drop_expired now c) ≤ length c
  unfolding drop_expired
  length-drop_expired now [] = omega arith
  length-drop_expired now ((j, f) ∷ c) = ground (arith, length-drop_expired now c)

  has-drop_expired :
      (now : ℕ) (k : String) (c : Object (CacheEntry V))
      → has k c ≡ false
      → has k (drop_expired now c) ≡ false
  unfolding drop_expired has
  has-drop_expired now k [] h = refl
  has-drop_expired now k ((j, f) ∷ c) h = ground (arith, has-drop_expired now k c)

  IsObject-drop_expired :
      (now : ℕ) (c : Object (CacheEntry V)) → IsObject c → IsObject (drop_expired now c)
  unfolding drop_expired
  IsObject-drop_expired now [] h = tt
  IsObject-drop_expired now ((j, f) ∷ c) h = elim (Bool-cases (ltb f.expires_at now)) [
    | inl e ↦ rw e (IsObject-drop_expired now c h.1)
    | inr e ↦ rw e (has-drop_expired now j c h.0, IsObject-drop_expired now c h.1)
  ]

  has-evict_oldest :
      (n : ℕ) (k : String) (c : Object (CacheEntry V))
      → has k c ≡ false
      → has k (evict_oldest n c) ≡ false
  unfolding evict_oldest has
  has-evict_oldest n k [] h = refl
  has-evict_oldest n k ((j, f) ∷ c) h = ground (arith, has-evict_oldest n k c)

  IsObject-evict_oldest :
      (n : ℕ) (c : Object (CacheEntry V)) → IsObject c → IsObject (evict_oldest n c)
  unfolding evict_oldest
  IsObject-evict_oldest n [] h = tt
  IsObject-evict_oldest n ((j, f) ∷ c) h = elim (Bool-cases (leb n (suc (length c)))) [
    | inl a ↦ elim (Bool-cases (str_eq j "")) [
      | inl b ↦ rw (a, b) h
      | inr b ↦ rw (a, b) (IsObject-evict_oldest n c h.1)
    ]
    | inr a ↦ rw a h
  ]

  length-evict_oldest :
      (n : ℕ) (c : Object (CacheEntry V)) → has "" c ≡ false → 0 < n → length (evict_oldest n c) < n
  unfolding evict_oldest has
  length-evict_oldest n [] h p = omega arith
  length-evict_oldest n ((j, f) ∷ c) h p = ground (arith, length-evict_oldest n c)

  make_room-IsBounded :
      (n now : ℕ) (s : MemoryCache V)
      → 0 < n
      → IsObject s.cache
      → has "" s.cache ≡ false
      → IsObject (make_room n now s).cache
        × (has "" (make_room n now s).cache ≡ false)
        × (length (make_room n now s).cache < n)
  unfolding make_room cleanup_if_needed
  make_room-IsBounded n now s p h e = elim (Bool-cases (leb n (length s.cache))) [
    | inl a ↦ elim (Bool-cases (ltb (now - s.last_cleanup) cleanup_interval_ms)) [
      | inl b ↦
          rw (a, b)
            (
              IsObject-evict_oldest n s.cache h,
              has-evict_oldest n "" s.cache e,
              length-evict_oldest n s.cache e p,
            )
      | inr b ↦
          let kept = drop_expired now s.cache in
          let e_kept = has-drop_expired now "" s.cache e in
          rw (a, b)
            (
              IsObject-evict_oldest n kept (IsObject-drop_expired now s.cache h),
              has-evict_oldest n "" kept e_kept,
              length-evict_oldest n kept e_kept p,
            )
    ]
    | inr a ↦ rw a (h, e, ground arith)
  ]

  -- A write keeps the cache in bounds: from entries with distinct non-empty keys, however many they
  -- are, writing under a non-empty key leaves such entries, at most the maximum if that is positive.
  pub set_value-IsBounded :
      (n now : ℕ) (k : String) (v : V) (ttl : ℕ) (s : MemoryCache V)
      → 0 < n
      → k ≢ ""
      → IsObject s.cache
      → has "" s.cache ≡ false
      → IsBounded n (set_value n now k v ttl s).cache
  unfolding set_value
  set_value-IsBounded n now k v ttl s p q h e =
      let t : MemoryCache V = record s { cache = remove k s.cache } in
      let (a, b, c) =
        make_room-IsBounded n now t p (IsObject-remove k s.cache h)
          (has-remove_le k "" s.cache e) in
      let entry : CacheEntry V = record { value = v; expires_at = now + ttl * 1000 } in
      record {
        distinct = IsObject-put k entry _ a;
        named = has-put k "" entry _ ∙ ground (arith, eq_iff k "");
        small = omega (arith, length-put k entry (make_room n now t).cache);
      }

  -- What was just written can be read until its time is up, and not after it, whatever was evicted
  -- to make room; `set_value-IsBounded` says how much room that is.
  pub get_value-set_value :
      (n now later : ℕ) (k : String) (v : V) (ttl : ℕ) (s : MemoryCache V)
      → (get_value later k (set_value n now k v ttl s)).0
        ≡ (if ltb (now + ttl * 1000) later then none else some v)
  unfolding get_value get_entry set_value
  get_value-set_value n now later k v ttl s =
      let t = make_room n now (record s { cache = remove k s.cache }) in
      rw (get-put k k (record { value = v; expires_at = now + ttl * 1000 }) t.cache, eq_refl k)
        (elim (Bool-cases (ltb (now + ttl * 1000) later)) [ inl e ↦ rw e refl | inr e ↦ rw e refl ])

  -- A read changes what no other read gives: every key holds afterwards what it held before, except
  -- that an entry found expired is gone.
  get-get_value :
      (now : ℕ) (k j : String) (e : CacheEntry V) (s : MemoryCache V)
      → get k s.cache ≡ some e
      → get j (get_value now k s).1.cache
        ≡ (if str_eq k j && ltb e.expires_at now then none else get j s.cache)
  unfolding get_value get_entry
  get-get_value now k j e s h = elim (Bool-cases (ltb e.expires_at now)) [
    | inl a ↦ rw (h, a) (get-remove k j s.cache ∙ ground (arith, a))
    | inr a ↦
        rw (h, a)
          (get-put k j e (remove k s.cache) ∙ ground (arith, eq_iff k j, get-remove k j s.cache))
  ]
