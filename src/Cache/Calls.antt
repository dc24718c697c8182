-- ===== src/Cache/Calls.antt =====
-- Histories of calls of the cache.
use cyan_flame_control_plane.Prelude.{
  ℕ, ◌≤◌, ◌<◌, ◌^◌, ◌≡◌, Bool, String, Option, List, [], ◌∷◌, length, ok,
}
use cyan_flame_control_plane.Cache.{CacheEntry, Cache, new, compress, get, delete, clear, set}
use cyan_flame_control_plane.Cache.Sizes.{
  IsSized, new-IsSized, get-IsSized, delete-IsSized, clear-IsSized,
}
use cyan_flame_control_plane.Cache.Eviction.{set-IsSized}

pub data Call : Type 0 where
  sets : (key : String) → (value : List ℕ) → (ttl : Option ℕ) → (now : ℕ) → Call
  gets : (key : String) → (now : ℕ) → Call
  deletes : (key : String) → Call
  clears : Call

module _ (score_less : CacheEntry → CacheEntry → Bool) where
  unfoldable pub step : Cache → Call → Cache
  step c (sets key value ttl now) = (set score_less c key value ttl now).0
  step c (gets key now) = (get c key now).0
  step c (deletes key) = (delete c key).0
  step c clears = clear c

  unfoldable pub run : Cache → List Call → Cache
  run c [] = c
  run c (x ∷ xs) = run (step c x) xs

  abbrev IsFitting : Cache → Call → Type 0
  IsFitting c (sets key value ttl now) =
      (bytes : List ℕ) × (compress c.compression_ratio value ≡ ok bytes)
      × (length bytes ≤ c.max_size)
  IsFitting c (gets key now) = Unit
  IsFitting c (deletes key) = Unit
  IsFitting c clears = Unit

  -- Each value that is set has compressed bytes that fit the cache.
  abbrev pub AreFitting : Cache → List Call → Type 0
  AreFitting c [] = Unit
  AreFitting c (x ∷ xs) = IsFitting c x × AreFitting (step c x) xs

  step-IsSized : (c : Cache) (x : Call) → IsFitting c x → IsSized c → IsSized (step c x)
  unfolding step
  step-IsSized c (sets key value ttl now) (bytes, made, fits) h =
      (set-IsSized score_less c key value ttl now bytes h made fits).1
  step-IsSized c (gets key now) fits h = get-IsSized c key now h
  step-IsSized c (deletes key) fits h = delete-IsSized c key h
  step-IsSized c clears fits h = clear-IsSized c h

  run-IsSized : (c : Cache) (xs : List Call) → AreFitting c xs → IsSized c → IsSized (run c xs)
  unfolding run
  run-IsSized c [] fits h = h
  run-IsSized c (x ∷ xs) fits h = run-IsSized (step c x) xs fits.1 (step-IsSized c x fits.0 h)

  -- After any history of sets, gets, deletes and clears on a new cache, in which each value that is
  -- set fits the cache when compressed, the recorded size is the sum of the sizes of the entries,
  -- it is at most the maximum, and no key occurs twice, whatever the order of the scores.
  pub history-IsSized :
      (max_size ratio : ℕ) (xs : List Call)
      → max_size < 2 ^ 63
      → AreFitting (new max_size ratio) xs
      → IsSized (run (new max_size ratio) xs)
  history-IsSized max_size ratio xs small fits =
      run-IsSized (new max_size ratio) xs fits (new-IsSized max_size ratio small)
