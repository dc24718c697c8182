-- ===== src/Cache/Storing.antt =====
-- What `set` leaves of the cache: the new value, and every other entry that was not evicted.
use cyan_flame_control_plane.Prelude.{
  ℕ, ◌+◌, ◌≤◌, ◌<◌, ◌≡◌, refl, ◌∙◌, arith, Bool, String, false, Option, none, some, ◌⊎◌, inl, inr,
  Bool-cases, List, [], ◌∷◌, length, leb, add64, sub64, saturating_sub, str_eq, ok,
}
use cyan_flame_control_plane.Prelude.Dict.{Dict, lookup, remove, lookup-insert, lookup-remove}
use cyan_flame_control_plane.Cache.{
  CacheEntry, Cache, size_of, update_stats_internal, sort_scored, evict_loop, evict_if_needed,
  ttl_or_zero, store, set, set_compressed, compress,
}
use cyan_flame_control_plane.Cache.Sizes.{IsSized}
use cyan_flame_control_plane.Cache.Eviction.{set-IsSized}

module _ (score_less : CacheEntry → CacheEntry → Bool) (j : String) where
  -- The key holds in `c'` what it holds in `c`, or nothing.
  abbrev Keeps : Cache → Cache → Type 0
  Keeps c c' = (lookup j c'.entries ≡ lookup j c.entries) ⊎ (lookup j c'.entries ≡ none)

  evict_loop-Keeps :
      (needed : ℕ) (xs : Dict CacheEntry) (freed : ℕ) (c : Cache)
      → Keeps c (evict_loop score_less needed xs freed c)
  unfolding evict_loop
  evict_loop-Keeps needed [] freed c = inl refl
  evict_loop-Keeps needed ((key, e) ∷ xs) freed c = elim (Bool-cases (leb needed freed)) [
    | inl done ↦ rw done (inl refl)
    | inr more ↦ rw more (
        through _ (
          evict_loop-Keeps needed xs (add64 freed (size_of e)) (record c {
            entries = remove key c.entries;
            current_size = sub64 c.current_size (size_of e);
            stats = record c.stats { evictions = add64 c.stats.evictions 1 };
          })))
  ]
    where
      through :
          (held : Option CacheEntry)
          → (held ≡ lookup j (remove key c.entries)) ⊎ (held ≡ none)
          → (held ≡ lookup j c.entries) ⊎ (held ≡ none)
      through held (inr gone) = inr gone
      through held (inl kept) = elim (Bool-cases (str_eq key j)) [
        | inl same ↦ inr (kept ∙ rw (lookup-remove key j c.entries, same) refl)
        | inr other ↦ inl (kept ∙ rw (lookup-remove key j c.entries, other) refl)
      ]

  -- What is evicted is evicted for want of space.
  evict_if_needed-keeps :
      (c : Cache) (size : ℕ)
      → IsSized c
      → size ≤ c.max_size
      → (lookup j (evict_if_needed score_less c size).entries ≡ lookup j c.entries)
        ⊎ ((lookup j (evict_if_needed score_less c size).entries ≡ none)
            × (c.max_size < c.current_size + size))
  unfolding evict_if_needed
  evict_if_needed-keeps c size h fits =
      elim (Bool-cases (leb (add64 c.current_size size) c.max_size)) [
        | inl roomy ↦ rw roomy (inl refl)
        | inr full ↦
            rw full
              (elim (evict_loop-Keeps (saturating_sub (add64 c.current_size size) c.max_size)
                (sort_scored score_less c.entries) 0 c) [
                  | inl kept ↦ inl kept
                  | inr gone ↦ inr (gone, ground (arith, h.bounded, h.in_word, fits))
                ])
      ]

  store-other :
      (c : Cache) (key : String) (e : CacheEntry)
      → str_eq key j ≡ false
      → lookup j (store score_less c key e).entries ≡ lookup j c.entries
  unfolding store
  store-other c key e other = rw (lookup-insert key j e c.entries, other) refl

  -- On a cache whose recorded size is the sum of the sizes of its entries and in bounds, and whatever
  -- the order of the scores: a value whose compressed bytes fit the cache at all is stored. Its key
  -- holds these bytes, the recorded size is again the sum of the sizes and at most the maximum, and
  -- any other key holds the entry that it held, or has been evicted, which happens only where the
  -- bytes do not fit beside what was there.
  pub set-stores :
      (c : Cache) (key : String) (value : List ℕ) (ttl : Option ℕ) (now : ℕ) (bytes : List ℕ)
      → IsSized c
      → compress c.compression_ratio value ≡ ok bytes
      → length bytes ≤ c.max_size
      → str_eq key j ≡ false
      → let r = set score_less c key value ttl now in
        (r.1 ≡ ok tt)
        × IsSized r.0
        × ((e : CacheEntry) × (lookup key r.0.entries ≡ some e)
            × (e.compressed_value ≡ bytes)
            × (e.original_size ≡ length value))
        × ((lookup j r.0.entries ≡ lookup j c.entries)
            ⊎ ((lookup j r.0.entries ≡ none) × (c.max_size < c.current_size + length bytes)))
  unfolding set set_compressed update_stats_internal
  set-stores c key value ttl now bytes h made fits other =
      let (done, sized, held) = set-IsSized score_less c key value ttl now bytes h made fits in
      (done, sized, held, frame)
    where
      e : CacheEntry
      e = record {
        compressed_value = bytes;
        original_size = length value;
        created_at = now;
        last_accessed = now;
        access_count = 0;
        ttl = ttl_or_zero score_less ttl;
      }

      frame :
          (lookup j (set score_less c key value ttl now).0.entries ≡ lookup j c.entries)
          ⊎ ((lookup j (set score_less c key value ttl now).0.entries ≡ none)
              × (c.max_size < c.current_size + length bytes))
      frame =
          rw (made, store-other (evict_if_needed score_less c (length bytes)) key e other)
            (evict_if_needed-keeps c (length bytes) h fits)
