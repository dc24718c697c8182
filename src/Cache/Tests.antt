-- ===== src/Cache/Tests.antt =====
-- Runs of the code of src/uao_qtcam_cache.rs.
use cyan_flame_control_plane.Prelude.{
  ℕ, ◌⊎◌, length, ◌<◌, ◌+◌, ◌≡◌, refl, arith, Bool, none, some, List, [], ◌∷◌, replicate, ltb, ok,
}
use cyan_flame_control_plane.Prelude.Dict.{lookup, insert, remove}
use cyan_flame_control_plane.Cache.{
  CacheEntry, Cache, fill, new, checksum, samples, compress, decompress, update_stats_internal,
  insert_scored, sort_scored, evict_loop, evict_if_needed, store, set, set_compressed,
}
use cyan_flame_control_plane.Cache.Codec.{decompress-compress}
use cyan_flame_control_plane.Cache.Counter.{ReadsEleven, incr_times, incr_times-stuck}
use cyan_flame_control_plane.Prelude.Int.{pos}
use cyan_flame_control_plane.Cache.Sizes.{IsSized, new-IsSized}
use cyan_flame_control_plane.Cache.Storing.{set-stores}
use cyan_flame_control_plane.Cache.Calls.{
  Call, sets, gets, deletes, step, run, AreFitting, history-IsSized,
}

abbrev less : CacheEntry → CacheEntry → Bool
less a b = ltb a.last_accessed b.last_accessed

abbrev one_two : List ℕ
one_two = 49 ∷ 48 ∷ []

abbrev packed : List ℕ
packed = 2 ∷ 0 ∷ 0 ∷ 0 ∷ 0 ∷ 0 ∷ 0 ∷ 0 ∷ 97 ∷ 0 ∷ 0 ∷ 0 ∷ 0 ∷ 0 ∷ 0 ∷ 0 ∷ 49 ∷ []

packs : compress 250 one_two ≡ ok packed
unfolding compress checksum samples
packs = refl

-- The text 10 comes back as 11.
decompress-compress_example : decompress packed 2 ≡ replicate 2 49
decompress-compress_example = decompress-compress 250 49 (48 ∷ []) packed (omega arith) packs

set-stores_example :
    ((set less (new 20 250) "a" one_two none 1).1 ≡ ok tt)
    × IsSized (set less (new 20 250) "a" one_two none 1).0
    × ((e : CacheEntry) × (lookup "a" (set less (new 20 250) "a" one_two none 1).0.entries ≡ some e)
        × (e.compressed_value ≡ packed)
        × (e.original_size ≡ 2))
    × ((lookup "b" (set less (new 20 250) "a" one_two none 1).0.entries ≡ none)
        ⊎ ((lookup "b" (set less (new 20 250) "a" one_two none 1).0.entries ≡ none)
            × (20 < 0 + length packed)))
unfolding new lookup
set-stores_example =
    set-stores less "b" (new 20 250) "a" one_two none 1 packed (new-IsSized 20 250 (omega arith))
      packs (omega arith) refl

-- The second value evicts the first.
abbrev calls : List Call
calls = sets "a" one_two none 1 ∷ sets "b" one_two none 2 ∷ gets "b" 3 ∷ deletes "a" ∷ []

calls-AreFitting : AreFitting less (new 20 250) calls
unfolding new step set set_compressed store evict_if_needed evict_loop sort_scored insert_scored
    update_stats_internal compress checksum samples insert lookup remove
calls-AreFitting = ((packed, refl, omega arith), ((packed, refl, omega arith), (tt, (tt, tt))))

history-IsSized_example : IsSized (run less (new 20 250) calls)
history-IsSized_example = history-IsSized less 20 250 calls (omega arith) calls-AreFitting

-- The cache that an `incr` from 9 leaves.
abbrev counting : Cache
counting = record (new 20 250) {
  entries =
      (
        "hits",
        record {
          compressed_value = packed;
          original_size = 2;
          created_at = 1;
          last_accessed = 1;
          access_count = 0;
          ttl = 0;
        },
      )
      ∷ [];
}

counting-ReadsEleven : ReadsEleven less counting "hits"
unfolding new lookup decompress fill
counting-ReadsEleven = record { entry = _; found = refl; two = refl; eleven = refl }

counting_ratio : counting.compression_ratio ≡ 250
unfolding new
counting_ratio = refl

incr_times-stuck_example : incr_times less 3 counting "hits" 5 ≡ replicate 3 (ok (pos 12))
incr_times-stuck_example =
    incr_times-stuck less 3 counting "hits" 5 (omega (arith, counting_ratio)) counting-ReadsEleven
