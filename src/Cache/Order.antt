-- ===== src/Cache/Order.antt =====
-- The order of the scores: sorting keeps the entries, their keys and their sizes.
use cyan_flame_control_plane.Prelude.{
  ◌+◌, ◌≡◌, refl, arith, Bool, false, String, none, some, inl, inr, Bool-cases, [], ◌∷◌, str_eq,
  eq_iff,
}
use cyan_flame_control_plane.Prelude.Dict.{Dict, lookup, remove, total, IsUnique, lookup-remove}
use cyan_flame_control_plane.Cache.{CacheEntry, size_of, insert_scored, sort_scored}

-- The entry stands under its key.
abbrev pub Holds : Dict CacheEntry → String × CacheEntry → Type 0
Holds d x = lookup x.0 d ≡ some x.1

-- Entries of the dictionary under different keys.
abbrev pub Listed : Dict CacheEntry → Dict CacheEntry → Type 0
Listed d [] = Unit
Listed d (x ∷ xs) = Holds d x × (lookup x.0 xs ≡ none) × Listed d xs

-- What is listed is listed still when a key that is not listed is removed.
pub Listed-remove :
    (d : Dict CacheEntry) (key : String) (xs : Dict CacheEntry)
    → lookup key xs ≡ none
    → Listed d xs
    → Listed (remove key d) xs
unfolding lookup
Listed-remove d key [] apart h = tt
Listed-remove d key ((k, e) ∷ xs) apart h = (
  ground (arith, lookup-remove key k d, eq_iff k key, eq_iff key k),
  h.1,
  Listed-remove d key xs (ground arith) h.2,
)

Listed-cons :
    (d : Dict CacheEntry) (key : String) (v : CacheEntry) (xs : Dict CacheEntry)
    → lookup key xs ≡ none
    → Listed d xs
    → Listed ((key, v) ∷ d) xs
unfolding lookup
Listed-cons d key v [] apart h = tt
Listed-cons d key v ((k, e) ∷ xs) apart h =
    (ground (arith, eq_iff k key, eq_iff key k), h.1, Listed-cons d key v xs (ground arith) h.2)

pub Listed-all : (d : Dict CacheEntry) → IsUnique d → Listed d d
unfolding lookup
Listed-all [] u = tt
Listed-all ((k, v) ∷ d) u =
    (ground (arith, eq_iff k k), u.0, Listed-cons d k v d u.0 (Listed-all d u.1))

module _ (score_less : CacheEntry → CacheEntry → Bool) where
  lookup-insert_scored :
      (key : String) (x : String × CacheEntry) (ys : Dict CacheEntry)
      → str_eq x.0 key ≡ false
      → lookup key ys ≡ none
      → lookup key (insert_scored score_less x ys) ≡ none
  unfolding lookup insert_scored
  lookup-insert_scored key x [] apart h = rw apart refl
  lookup-insert_scored key x ((k, e) ∷ ys) apart h =
      ground (arith, lookup-insert_scored key x ys apart)

  insert_scored-Listed :
      (d : Dict CacheEntry) (x : String × CacheEntry) (ys : Dict CacheEntry)
      → Holds d x
      → lookup x.0 ys ≡ none
      → Listed d ys
      → Listed d (insert_scored score_less x ys)
  unfolding lookup insert_scored
  insert_scored-Listed d x [] holds apart h = (holds, refl, tt)
  insert_scored-Listed d x ((k, e) ∷ ys) holds apart h = elim (Bool-cases (score_less e x.1)) [
    | inl less ↦ rw less (
      h.0,
      lookup-insert_scored k x ys (ground (arith, eq_iff k x.0, eq_iff x.0 k)) h.1,
      insert_scored-Listed d x ys holds (ground arith) h.2,
    )
    | inr more ↦ rw more (holds, apart, h)
  ]

  total-insert_scored :
      (x : String × CacheEntry) (ys : Dict CacheEntry)
      → total size_of (insert_scored score_less x ys) ≡ size_of x.1 + total size_of ys
  unfolding total insert_scored
  total-insert_scored x [] = omega arith
  total-insert_scored x (y ∷ ys) = ground (arith, total-insert_scored x ys)

  -- Sorting keeps the entries: their keys, and the sum of their sizes.
  lookup-sort_scored :
      (key : String) (xs : Dict CacheEntry)
      → lookup key xs ≡ none
      → lookup key (sort_scored score_less xs) ≡ none
  unfolding lookup sort_scored
  lookup-sort_scored key [] h = refl
  lookup-sort_scored key ((k, e) ∷ xs) h =
      lookup-insert_scored key (k, e) (sort_scored score_less xs) (ground arith)
        (lookup-sort_scored key xs (ground arith))

  pub sort_scored-Listed :
      (d xs : Dict CacheEntry) → Listed d xs → Listed d (sort_scored score_less xs)
  unfolding sort_scored
  sort_scored-Listed d [] h = tt
  sort_scored-Listed d (x ∷ xs) h =
      insert_scored-Listed d x (sort_scored score_less xs) h.0 (lookup-sort_scored x.0 xs h.1)
        (sort_scored-Listed d xs h.2)

  pub total-sort_scored :
      (xs : Dict CacheEntry) → total size_of (sort_scored score_less xs) ≡ total size_of xs
  unfolding total sort_scored
  total-sort_scored [] = refl
  total-sort_scored (x ∷ xs) =
      omega (arith, total-insert_scored x (sort_scored score_less xs), total-sort_scored xs)
