-- ===== src/Cache.antt =====
-- `UaoQtcamCache` of src/uao_qtcam_cache.rs. The order of the floating-point scores is a parameter,
-- the ratio is the whole part that `as usize` takes, and the ratios of the statistics are left out.
-- Times are seconds since 1970; each reading of the clock is an argument. A call is one step.
pub mod Codec
pub mod Counter
pub mod Sizes
pub mod Order
pub mod Eviction
pub mod Storing
pub mod Calls
pub mod Tally
mod Tests
use cyan_flame_control_plane.Prelude.{
  ℕ, zero, suc, ◌+◌, ◌*◌, ◌/◌, ◌%◌, ◌^◌, Bool, true, false, ◌&&◌, String, Option, none, some, List,
  [], ◌∷◌, ◌++◌, length, replicate, ltb, leb, ◌==◌, if◌then◌else◌, u64, add64, sub64,
  saturating_sub, Outcome, ok, err, panic, ◌>>=◌,
}
use cyan_flame_control_plane.Prelude.Int.{ℤ, pos, negsuc, signed64, add_i64}
use cyan_flame_control_plane.Prelude.Dict.{Dict, lookup, insert, remove, total}

pub record CacheEntry : Type 0 where
  pub compressed_value : List ℕ
  pub original_size : ℕ
  pub created_at : ℕ
  pub last_accessed : ℕ
  pub access_count : ℕ
  pub ttl : ℕ

pub record CacheStats : Type 0 where
  pub hits : ℕ
  pub misses : ℕ
  pub sets : ℕ
  pub deletes : ℕ
  pub evictions : ℕ
  pub entry_count : ℕ
  pub compressed_bytes : ℕ
  pub original_bytes : ℕ

pub record Cache : Type 0 where
  pub entries : Dict CacheEntry
  pub max_size : ℕ
  pub current_size : ℕ
  pub stats : CacheStats
  pub compression_ratio : ℕ

unfoldable pub new : ℕ → ℕ → Cache
new max_size compression_ratio = record {
  entries = [];
  max_size = max_size;
  current_size = 0;
  stats = record {
    hits = 0;
    misses = 0;
    sets = 0;
    deletes = 0;
    evictions = 0;
    entry_count = 0;
    compressed_bytes = 0;
    original_bytes = 0;
  };
  compression_ratio = compression_ratio;
}

abbrev pub at_least_one : ℕ → ℕ
at_least_one n = if ltb n 1 then 1 else n

-- `to_le_bytes` of a `u64`.
abbrev pub to_le_bytes : ℕ → List ℕ
to_le_bytes n =
    n % 256
    ∷ n / 2 ^ 8 % 256
    ∷ n / 2 ^ 16 % 256
    ∷ n / 2 ^ 24 % 256
    ∷ n / 2 ^ 32 % 256
    ∷ n / 2 ^ 40 % 256
    ∷ n / 2 ^ 48 % 256
    ∷ n / 2 ^ 56 % 256
    ∷ []

unfoldable pub checksum : List ℕ → ℕ
checksum [] = 0
checksum (b ∷ bs) = add64 b (checksum bs)

-- The bytes whose place, counted from `i`, is a multiple of the rate.
unfoldable pub samples : ℕ → ℕ → List ℕ → List ℕ
samples rate i [] = []
samples rate i (b ∷ bs) =
    let rest = samples rate (i + 1) bs in if i % rate == 0 then b ∷ rest else rest

abbrev pub target_size : ℕ → ℕ → ℕ
target_size ratio n = at_least_one (n / ratio)

abbrev pub sample_rate : ℕ → ℕ → ℕ
sample_rate ratio n = at_least_one (n / target_size ratio n)

-- The division by a ratio of 0 panics.
unfoldable pub compress : ℕ → List ℕ → Outcome String (List ℕ)
unfolding checksum samples
compress ratio bs =
    if ratio == 0
    then panic
    else ok (
        to_le_bytes (length bs)
        ++ (to_le_bytes (checksum bs) ++ samples (sample_rate ratio (length bs)) 0 bs))

abbrev pub drop : ℕ → List ℕ → List ℕ
drop zero bs = bs
drop (suc n) [] = []
drop (suc n) (b ∷ bs) = drop n bs

-- The loop of `decompress` from place `i` on: the samples that are left and the last byte pushed,
-- or 0 where there is none.
unfoldable pub fill : ℕ → ℕ → ℕ → List ℕ → ℕ → List ℕ
fill zero i rate ss last = []
fill (suc left) i rate [] last = last ∷ fill left (i + 1) rate [] last
fill (suc left) i rate (s ∷ ss) last =
    if i % rate == 0
    then s ∷ fill left (i + 1) rate ss s
    else last ∷ fill left (i + 1) rate (s ∷ ss) last

-- The result has the original size, so what the source cuts off or adds behind the loop is nothing.
unfoldable pub decompress : List ℕ → ℕ → List ℕ
unfolding fill
decompress compressed original_size =
    if ltb (length compressed) 16
    then replicate original_size 0
    else let ss = drop 16 compressed in
      fill original_size 0 (at_least_one (original_size / at_least_one (length ss))) ss 0

abbrev pub size_of : CacheEntry → ℕ
size_of e = length e.compressed_value

unfoldable pub update_stats_internal : Cache → Cache
update_stats_internal c = record c {
  stats = record c.stats {
    entry_count = length c.entries;
    compressed_bytes = c.current_size;
    original_bytes = u64 (total (λ e. e.original_size) c.entries);
  };
}

-- The statistics with one counter changed, and the sizes brought up to date.
abbrev pub with_stats : Cache → CacheStats → Cache
with_stats c s = update_stats_internal (record c { stats = s })

-- `now > t` for an `i64` and a time after 1970.
abbrev has_passed : ℤ → ℕ → Bool
has_passed (pos t) now = ltb t now
has_passed (negsuc t) now = true

unfoldable pub expired : CacheEntry → ℕ → Bool
unfolding add_i64
expired e now = ltb 0 e.ttl && has_passed (add_i64 (pos e.created_at) (signed64 e.ttl)) now

unfoldable pub get_found : Cache → String → ℕ → Option CacheEntry → Cache × Option (List ℕ)
unfolding decompress expired
get_found c key now none = (c, none)
get_found c key now (some e) =
    if expired e now
    then (
      record c { entries = remove key c.entries; current_size = sub64 c.current_size (size_of e) },
      none,
    )
    else (
      record c {
        entries =
            insert key (record e { last_accessed = now; access_count = add64 e.access_count 1 })
              c.entries;
      },
      some (decompress e.compressed_value e.original_size),
    )

abbrev pub counted : Cache → Option (List ℕ) → Cache
counted c none = with_stats c (record c.stats { misses = add64 c.stats.misses 1 })
counted c (some bs) = with_stats c (record c.stats { hits = add64 c.stats.hits 1 })

unfoldable pub get : Cache → String → ℕ → Cache × Option (List ℕ)
unfolding get_found update_stats_internal
get c key now =
    let (c', result) = get_found c key now (lookup key c.entries) in (counted c' result, result)

unfoldable pub delete_found : Cache → String → Option CacheEntry → Cache × Bool
delete_found c key none = (c, false)
delete_found c key (some e) = (
  record c {
    entries = remove key c.entries;
    current_size = sub64 c.current_size (size_of e);
    stats = record c.stats { deletes = add64 c.stats.deletes 1 };
  },
  true,
)

unfoldable pub delete : Cache → String → Cache × Bool
unfolding delete_found
delete c key = delete_found c key (lookup key c.entries)

unfoldable pub exists : Cache → String → Bool
exists c key = elim (lookup key c.entries) [ none ↦ false | some e ↦ true ]

-- The call `stats`.
unfoldable pub serve_stats : Cache → Cache × CacheStats
unfolding update_stats_internal
serve_stats c = let c' = update_stats_internal c in (c', c'.stats)

unfoldable pub clear : Cache → Cache
clear c = record c { entries = []; current_size = 0 }

-- The lower score stands first, and of equal scores the earlier entry.
module _ (score_less : CacheEntry → CacheEntry → Bool) where
  unfoldable pub insert_scored : String × CacheEntry → Dict CacheEntry → Dict CacheEntry
  insert_scored x [] = x ∷ []
  insert_scored x (y ∷ ys) = if score_less y.1 x.1 then y ∷ insert_scored x ys else x ∷ y ∷ ys

  unfoldable pub sort_scored : Dict CacheEntry → Dict CacheEntry
  unfolding insert_scored
  sort_scored [] = []
  sort_scored (x ∷ xs) = insert_scored x (sort_scored xs)

  unfoldable pub evict_loop : ℕ → Dict CacheEntry → ℕ → Cache → Cache
  evict_loop needed [] freed c = c
  evict_loop needed ((key, e) ∷ rest) freed c =
      if leb needed freed
      then c
      else evict_loop needed rest (add64 freed (size_of e)) (record c {
        entries = remove key c.entries;
        current_size = sub64 c.current_size (size_of e);
        stats = record c.stats { evictions = add64 c.stats.evictions 1 };
      })

  unfoldable pub evict_if_needed : Cache → ℕ → Cache
  unfolding evict_loop sort_scored
  evict_if_needed c new_size =
      if leb (add64 c.current_size new_size) c.max_size
      then c
      else evict_loop (saturating_sub (add64 c.current_size new_size) c.max_size)
          (sort_scored c.entries) 0 c

  abbrev pub without : Option CacheEntry → ℕ → ℕ
  without none size = size
  without (some old) size = sub64 size (size_of old)

  abbrev pub ttl_or_zero : Option ℕ → ℕ
  ttl_or_zero none = 0
  ttl_or_zero (some t) = t

  -- The second block of `set`, on the cache with enough space.
  unfoldable pub store : Cache → String → CacheEntry → Cache
  store c key e = record c {
    entries = insert key e c.entries;
    current_size = add64 (without (lookup key c.entries) c.current_size) (size_of e);
  }

  -- `set` with the compressed bytes.
  unfoldable pub set_compressed :
      Cache
      → String
      → List ℕ
      → Option ℕ
      → ℕ
      → Outcome String (List ℕ)
      → Cache × Outcome String (Unit {0})
  unfolding store evict_if_needed update_stats_internal
  set_compressed c key value ttl now (ok bytes) =
      let e : CacheEntry = record {
        compressed_value = bytes;
        original_size = length value;
        created_at = now;
        last_accessed = now;
        access_count = 0;
        ttl = ttl_or_zero ttl;
      } in
      let c' = store (evict_if_needed c (length bytes)) key e in
      (with_stats c' (record c'.stats { sets = add64 c'.stats.sets 1 }), ok tt)
  set_compressed c key value ttl now (err x) = (c, err x)
  set_compressed c key value ttl now panic = (c, panic)

  unfoldable pub set : Cache → String → List ℕ → Option ℕ → ℕ → Cache × Outcome String (Unit {0})
  unfolding set_compressed compress
  set c key value ttl now = set_compressed c key value ttl now (compress c.compression_ratio value)
