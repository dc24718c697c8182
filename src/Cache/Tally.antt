-- ===== src/Cache/Tally.antt =====
-- The counters of hits and misses: only `get` changes them.
use cyan_flame_control_plane.Prelude.{
  ℕ, ◌≡◌, Bool, refl, ap, ◌∙◌, String, Option, none, some, List, [], ◌∷◌, inl, inr, Bool-cases,
  length, leb, saturating_sub, add64, Outcome, ok, err, panic,
}
use cyan_flame_control_plane.Prelude.Dict.{Dict, lookup}
use cyan_flame_control_plane.Prelude.Int.{ℤ}
use cyan_flame_control_plane.Cache.{
  CacheEntry, Cache, compress, update_stats_internal, expired, counted, get_found, get,
  delete_found, delete, serve_stats, evict_loop, sort_scored, evict_if_needed, store,
  set_compressed, set,
}
use cyan_flame_control_plane.Cache.Counter.{
  next_counter, to_string, first_counter, write_counter, incr_found, incr,
}

-- The numbers of hits and misses stay.
abbrev pub KeepsTally : Cache → Cache → Type 0
KeepsTally c c' = (c'.stats.hits ≡ c.stats.hits) × (c'.stats.misses ≡ c.stats.misses)

KeepsTally-trans : (a b c : Cache) → KeepsTally a b → KeepsTally b c → KeepsTally a c
KeepsTally-trans a b c (h, m) (h', m') = (h' ∙ h, m' ∙ m)

pub serve_stats-KeepsTally : (c : Cache) → KeepsTally c (serve_stats c).0
unfolding serve_stats update_stats_internal
serve_stats-KeepsTally c = (refl, refl)

found-KeepsTally :
    (c : Cache) (key : String) (o : Option CacheEntry) → KeepsTally c (delete_found c key o).0
unfolding delete_found
found-KeepsTally c key none = (refl, refl)
found-KeepsTally c key (some e) = (refl, refl)

pub delete-KeepsTally : (c : Cache) (key : String) → KeepsTally c (delete c key).0
unfolding delete
delete-KeepsTally c key = found-KeepsTally c key (lookup key c.entries)

module _ (score_less : CacheEntry → CacheEntry → Bool) where
  evict_loop-KeepsTally :
      (needed : ℕ) (d : Dict CacheEntry) (freed : ℕ) (c : Cache)
      → KeepsTally c (evict_loop score_less needed d freed c)
  unfolding evict_loop
  evict_loop-KeepsTally needed [] freed c = (refl, refl)
  evict_loop-KeepsTally needed ((key, e) ∷ rest) freed c = elim (Bool-cases (leb needed freed)) [
    | inl enough ↦ rw enough (refl, refl)
    | inr more ↦ rw more (evict_loop-KeepsTally needed rest _ _)
  ]

  evict_if_needed-KeepsTally :
      (c : Cache) (size : ℕ) → KeepsTally c (evict_if_needed score_less c size)
  unfolding evict_if_needed
  evict_if_needed-KeepsTally c size =
      elim (Bool-cases (leb (add64 c.current_size size) c.max_size)) [
        | inl room ↦ rw room (refl, refl)
        | inr full ↦ rw full (
            evict_loop-KeepsTally (saturating_sub (add64 c.current_size size) c.max_size)
              (sort_scored score_less c.entries) 0 c)
      ]

  set_compressed-KeepsTally :
      (c : Cache) (key : String) (value : List ℕ) (ttl : Option ℕ) (now : ℕ)
      (bytes : Outcome String (List ℕ))
      → KeepsTally c (set_compressed score_less c key value ttl now bytes).0
  unfolding set_compressed store update_stats_internal
  set_compressed-KeepsTally c key value ttl now (ok bytes) =
      evict_if_needed-KeepsTally c (length bytes)
  set_compressed-KeepsTally c key value ttl now (err x) = (refl, refl)
  set_compressed-KeepsTally c key value ttl now panic = (refl, refl)

  pub set-KeepsTally :
      (c : Cache) (key : String) (value : List ℕ) (ttl : Option ℕ) (now : ℕ)
      → KeepsTally c (set score_less c key value ttl now).0
  unfolding set
  set-KeepsTally c key value ttl now =
      set_compressed-KeepsTally c key value ttl now (compress c.compression_ratio value)

  first-KeepsTally :
      (c : Cache) (made : Cache × Outcome String (Unit {0}))
      → KeepsTally c made.0
      → KeepsTally c (first_counter score_less made).0
  first-KeepsTally c (c', ok x) h = h
  first-KeepsTally c (c', err x) h = h
  first-KeepsTally c (c', panic) h = h

  write-KeepsTally :
      (c : Cache) (key : String) (e : CacheEntry) (value : List ℕ) (counter : ℤ) (now : ℕ)
      (bytes : Outcome String (List ℕ))
      → KeepsTally c (write_counter c key e value counter now bytes).0
  write-KeepsTally c key e value counter now (ok bytes) = (refl, refl)
  write-KeepsTally c key e value counter now (err x) = (refl, refl)
  write-KeepsTally c key e value counter now panic = (refl, refl)

  incr_found-KeepsTally :
      (c : Cache) (key : String) (now : ℕ) (o : Option CacheEntry)
      → KeepsTally c (incr_found score_less c key now o).0
  unfolding incr_found
  incr_found-KeepsTally c key now none =
      first-KeepsTally c (set score_less c key (49 ∷ []) none now)
        (set-KeepsTally c key (49 ∷ []) none now)
  incr_found-KeepsTally c key now (some e) =
      write-KeepsTally c key e (to_string (next_counter e)) (next_counter e) now
        (compress c.compression_ratio (to_string (next_counter e)))

  pub incr-KeepsTally :
      (c : Cache) (key : String) (now : ℕ) → KeepsTally c (incr score_less c key now).0
  unfolding incr
  incr-KeepsTally c key now = incr_found-KeepsTally c key now (lookup key c.entries)

-- A lookup that finds nothing, or an expired entry, is a miss, and each other is a hit.
abbrev pub Tallies : Cache → Option (List ℕ) → Cache → Type 0
Tallies c none c' = (c'.stats.hits ≡ c.stats.hits) × (c'.stats.misses ≡ add64 c.stats.misses 1)
Tallies c (some bs) c' = (c'.stats.hits ≡ add64 c.stats.hits 1) × (c'.stats.misses ≡ c.stats.misses)

get_found-KeepsTally :
    (c : Cache) (key : String) (now : ℕ) (o : Option CacheEntry)
    → KeepsTally c (get_found c key now o).0
unfolding get_found
get_found-KeepsTally c key now none = (refl, refl)
get_found-KeepsTally c key now (some e) = elim (Bool-cases (expired e now)) [
  | inl late ↦ rw late (refl, refl)
  | inr fresh ↦ rw fresh (refl, refl)
]

counted-Tallies :
    (c c' : Cache) (result : Option (List ℕ))
    → KeepsTally c c'
    → Tallies c result (counted c' result)
unfolding update_stats_internal
counted-Tallies c c' none (h, m) = (h, ap (λ n. add64 n 1) m)
counted-Tallies c c' (some bs) (h, m) = (ap (λ n. add64 n 1) h, m)

pub get-Tallies :
    (c : Cache) (key : String) (now : ℕ) → Tallies c (get c key now).1 (get c key now).0
unfolding get
get-Tallies c key now =
    let (c', result) = get_found c key now (lookup key c.entries) in
    counted-Tallies c c' result (get_found-KeepsTally c key now (lookup key c.entries))
