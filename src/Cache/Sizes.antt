-- ===== src/Cache/Sizes.antt =====
-- The recorded size of the cache is the size of its entries, and at most the maximum.
use cyan_flame_control_plane.Prelude.{
  ℕ, ◌^◌, ◌≤◌, ◌<◌, ◌≡◌, refl, arith, String, some, inl, inr, Option-cases, Bool-cases, sub64,
}
use cyan_flame_control_plane.Prelude.Dict.{
  lookup, insert, remove, total, weight, IsUnique, total-insert, total-remove, insert-IsUnique,
  remove-IsUnique,
}
use cyan_flame_control_plane.Cache.{
  CacheEntry, CacheStats, Cache, new, size_of, update_stats_internal, expired, get_found, get,
  delete_found, delete, clear,
}

pub record IsSized (c : Cache) : Type 0 where
  pub exact : c.current_size ≡ total size_of c.entries
  pub bounded : c.current_size ≤ c.max_size
  pub unique : IsUnique c.entries
  pub in_word : c.max_size < 2 ^ 63

pub new-IsSized : (max_size ratio : ℕ) → max_size < 2 ^ 63 → IsSized (new max_size ratio)
unfolding new total
new-IsSized max_size ratio h = record {
  exact = refl;
  bounded = omega arith;
  unique = tt;
  in_word = h;
}

-- An entry removed, with its size taken off.
pub removed-IsSized :
    (c : Cache) (key : String) (e : CacheEntry) (s : CacheStats)
    → lookup key c.entries ≡ some e
    → IsSized c
    → IsSized (record c {
      entries = remove key c.entries;
      current_size = sub64 c.current_size (size_of e);
      stats = s;
    })
removed-IsSized c key e s found h =
    let sum = total-remove size_of key c.entries h.unique in
    let there : weight size_of (lookup key c.entries) ≡ size_of e = rw found refl in
    record {
      exact = omega (arith, sum, there, h.exact, h.bounded, h.in_word);
      bounded = omega (arith, sum, there, h.exact, h.bounded, h.in_word);
      unique = remove-IsUnique key c.entries h.unique;
      in_word = h.in_word;
    }

-- An entry replaced by one of the same size.
touched-IsSized :
    (c : Cache) (key : String) (e e' : CacheEntry) (s : CacheStats)
    → lookup key c.entries ≡ some e
    → size_of e' ≡ size_of e
    → IsSized c
    → IsSized (record c { entries = insert key e' c.entries; stats = s })
touched-IsSized c key e e' s found same h =
    let sum = total-insert size_of key e' c.entries in
    let there : weight size_of (lookup key c.entries) ≡ size_of e = rw found refl in
    record {
      exact = omega (arith, sum, there, same, h.exact);
      bounded = h.bounded;
      unique = insert-IsUnique key e' c.entries h.unique;
      in_word = h.in_word;
    }

pub get-IsSized : (c : Cache) (key : String) (now : ℕ) → IsSized c → IsSized (get c key now).0
unfolding get get_found update_stats_internal
get-IsSized c key now h = elim (Option-cases (lookup key c.entries)) [
  | inl absent ↦
      rw absent
        (record { exact = h.exact; bounded = h.bounded; unique = h.unique; in_word = h.in_word })
  | inr (e, found) ↦ elim (Bool-cases (expired e now)) [
    | inl old ↦ rw (found, old) (removed-IsSized c key e _ found h)
    | inr alive ↦ rw (found, alive) (touched-IsSized c key e _ _ found refl h)
  ]
]

pub delete-IsSized : (c : Cache) (key : String) → IsSized c → IsSized (delete c key).0
unfolding delete delete_found
delete-IsSized c key h = elim (Option-cases (lookup key c.entries)) [
  | inl absent ↦ rw absent h
  | inr (e, found) ↦ rw found (removed-IsSized c key e _ found h)
]

pub clear-IsSized : (c : Cache) → IsSized c → IsSized (clear c)
unfolding clear total
clear-IsSized c h = record { exact = refl; bounded = omega arith; unique = tt; in_word = h.in_word }
