-- ===== src/Cache/Eviction.antt =====
-- Eviction makes the space that a new value needs, and keeps the sizes right.
use cyan_flame_control_plane.Prelude.{
  ℕ, ◌+◌, ◌^◌, ◌≤◌, ◌<◌, ◌≡◌, refl, arith, Bool, String, Option, some, inl, inr, Option-cases,
  Bool-cases, List, [], ◌∷◌, length, leb, add64, sub64, saturating_sub, eq_iff, ok,
}
use cyan_flame_control_plane.Prelude.Dict.{
  Dict, lookup, remove, total, weight, total-insert, total-remove, insert-IsUnique, lookup-insert,
}
use cyan_flame_control_plane.Cache.{
  CacheEntry, CacheStats, Cache, size_of, update_stats_internal, sort_scored, evict_loop,
  evict_if_needed, ttl_or_zero, store, set, set_compressed, compress,
}
use cyan_flame_control_plane.Cache.Sizes.{IsSized, removed-IsSized}
use cyan_flame_control_plane.Cache.Order.{
  Listed, Listed-remove, Listed-all, sort_scored-Listed, total-sort_scored,
}

module _ (score_less : CacheEntry → CacheEntry → Bool) where
  -- A sized cache of the same maximum and ratio that holds `size` bytes at most.
  record Fits (c c' : Cache) (needed freed : ℕ) : Type 0 where
    pub sized : IsSized c'
    pub space : c'.current_size + needed ≤ c.current_size + freed
    pub same_max : c'.max_size ≡ c.max_size

  evict_loop-Fits :
      (needed : ℕ) (xs : Dict CacheEntry) (freed : ℕ) (c : Cache)
      → IsSized c
      → Listed c.entries xs
      → total size_of xs ≡ total size_of c.entries
      → freed + c.current_size < 2 ^ 64
      → needed ≤ freed + c.current_size
      → Fits c (evict_loop score_less needed xs freed c) needed freed
  unfolding evict_loop total
  evict_loop-Fits needed [] freed c h listed sum word enough = record {
    sized = h;
    space = omega (arith, sum, h.exact, enough);
    same_max = refl;
  }
  evict_loop-Fits needed ((key, e) ∷ xs) freed c h listed sum word enough =
      elim (Bool-cases (leb needed freed)) [
        | inl done ↦ rw done (record { sized = h; space = ground arith; same_max = refl })
        | inr more ↦ rw more (
            widen (
              evict_loop-Fits needed xs (add64 freed (size_of e)) next
                (removed-IsSized c key e _ listed.0 h)
                (Listed-remove c.entries key xs listed.1 listed.2) (omega (arith, left, there, sum))
                (omega (arith, left, there, sum, word, h.exact))
                (omega (arith, left, there, sum, word, h.exact, enough, h.in_word, h.bounded))))
      ]
    where
      next : Cache
      next = record c {
        entries = remove key c.entries;
        current_size = sub64 c.current_size (size_of e);
        stats = record c.stats { evictions = add64 c.stats.evictions 1 };
      }

      left :
          total size_of (remove key c.entries) + weight size_of (lookup key c.entries)
          ≡ total size_of c.entries
      left = total-remove size_of key c.entries h.unique

      there : weight size_of (lookup key c.entries) ≡ size_of e
      there = rw listed.0 refl

      widen : {c' : Cache} → Fits next c' needed (add64 freed (size_of e)) → Fits c c' needed freed
      widen f = record {
        sized = f.sized;
        space = omega (arith, f.space, left, there, word, h.exact, h.in_word, h.bounded);
        same_max = f.same_max;
      }

  record HasSpace (c c' : Cache) (size : ℕ) : Type 0 where
    pub sized : IsSized c'
    pub space : c'.current_size + size ≤ c'.max_size
    pub same_max : c'.max_size ≡ c.max_size

  evict_if_needed-HasSpace :
      (c : Cache) (size : ℕ)
      → IsSized c
      → size ≤ c.max_size
      → HasSpace c (evict_if_needed score_less c size) size
  unfolding evict_if_needed
  evict_if_needed-HasSpace c size h fits =
      elim (Bool-cases (leb (add64 c.current_size size) c.max_size)) [
        | inl roomy ↦
            rw roomy
              (record { sized = h; space = ground (arith, h.bounded, h.in_word); same_max = refl })
        | inr full ↦ rw full (
            from (
              evict_loop-Fits (saturating_sub (add64 c.current_size size) c.max_size)
                (sort_scored score_less c.entries) 0 c h
                (sort_scored-Listed score_less c.entries c.entries (Listed-all c.entries h.unique))
                (total-sort_scored score_less c.entries) (omega (arith, h.bounded, h.in_word))
                (omega (arith, h.bounded, h.in_word, fits))))
      ]
    where
      from :
          {c' : Cache}
          → Fits c c' (saturating_sub (add64 c.current_size size) c.max_size) 0
          → HasSpace c c' size
      from f = record {
        sized = f.sized;
        space = omega (arith, f.space, f.same_max, h.bounded, h.in_word, fits);
        same_max = f.same_max;
      }

  store-IsSized :
      (c : Cache) (key : String) (e : CacheEntry) (s : CacheStats)
      → IsSized c
      → c.current_size + size_of e ≤ c.max_size
      → IsSized (record (store score_less c key e) { stats = s })
  unfolding store
  store-IsSized c key e s h space = elim (Option-cases (lookup key c.entries)) [
    | inl absent ↦
        let there : weight size_of (lookup key c.entries) ≡ 0 = rw absent refl in
        rw absent (record {
          exact =
              omega (arith, total-insert size_of key e c.entries, there, space, h.exact, h.in_word);
          bounded = omega (arith, space, h.in_word);
          unique = insert-IsUnique key e c.entries h.unique;
          in_word = h.in_word;
        })
    | inr (old, found) ↦
        let there : weight size_of (lookup key c.entries) ≡ size_of old = rw found refl in
        let sum = total-insert size_of key e c.entries in
        let part = total-remove size_of key c.entries h.unique in
        rw found (record {
          exact = omega (arith, sum, part, there, space, h.exact, h.in_word);
          bounded = omega (arith, part, there, space, h.exact, h.in_word);
          unique = insert-IsUnique key e c.entries h.unique;
          in_word = h.in_word;
        })
  ]

  -- On a sized cache, whatever the order of the scores: a value whose compressed bytes fit the cache at
  -- all is stored. Afterwards the recorded size is the sum of the sizes of the entries and at most the
  -- maximum, and the key holds these bytes.
  pub set-IsSized :
      (c : Cache) (key : String) (value : List ℕ) (ttl : Option ℕ) (now : ℕ) (bytes : List ℕ)
      → IsSized c
      → compress c.compression_ratio value ≡ ok bytes
      → length bytes ≤ c.max_size
      → let r = set score_less c key value ttl now in
        (r.1 ≡ ok tt)
        × IsSized r.0
        × ((e : CacheEntry) × (lookup key r.0.entries ≡ some e)
            × (e.compressed_value ≡ bytes)
            × (e.original_size ≡ length value))
  unfolding set set_compressed update_stats_internal store
  set-IsSized c key value ttl now bytes h made fits =
      let e : CacheEntry = record {
        compressed_value = bytes;
        original_size = length value;
        created_at = now;
        last_accessed = now;
        access_count = 0;
        ttl = ttl_or_zero score_less ttl;
      } in
      let evicted = evict_if_needed-HasSpace c (length bytes) h fits in
      let roomy = evict_if_needed score_less c (length bytes) in
      rw made (
        refl,
        store-IsSized roomy key e _ evicted.sized evicted.space,
        (e, ground (arith, lookup-insert key key e roomy.entries, eq_iff key key), refl, refl),
      )
