-- ===== src/Tcam/Ahgf.antt =====
-- `AHGFEngine` of uao-qtcam/src/phase1/algebraic_heterodyning.rs and `FrobeniusCompressor` of
-- phase1/frobenius_compression.rs. The measured times are left out; a prefix in a result stands for
-- its text.
pub mod Search
use cyan_flame_control_plane.Prelude.{
  ℕ, zero, suc, ◌+◌, ◌*◌, ◌/◌, ◌%◌, ◌^◌, Bool, true, false, String, as_bytes, Option, none, some,
  List, [], ◌∷◌, ◌++◌, length, get_elem?, ltb, ◌==◌, if◌then◌else◌, u64, add64, Outcome, ok, err,
  panic,
}
use cyan_flame_control_plane.Prelude.Bits.{xor_bits}
use cyan_flame_control_plane.Tcam.Field.{frobenius}
use cyan_flame_control_plane.Tcam.Prefix.{Prefix, PrefixError, invalid_address, parse_ipv4, matches}

pub record CompressedPrefix : Type 0 where
  pub original_prefix : Prefix
  pub compressed_value : ℕ
  pub hash : ℕ
  pub frobenius_power : ℕ

abbrev pub power : ℕ
power = 5

-- `hash ^= hash >> 33`.
abbrev fold_high : ℕ → ℕ
fold_high h = xor_bits 64 h (h / 2 ^ 33)

unfoldable pub compute_hash : ℕ → ℕ → ℕ
unfolding xor_bits
compute_hash value prefix_len =
    let mixed = fold_high (xor_bits 64 value (prefix_len * 2 ^ 32)) in
    let once = fold_high (u64 (mixed * 0xff51afd7ed558ccd)) in
    fold_high (u64 (once * 0xc4ceb9fe1a85ec53))

unfoldable pub compress : Prefix → CompressedPrefix
unfolding compute_hash frobenius
compress p =
    let value = frobenius p.addr power in
    record {
      original_prefix = p;
      compressed_value = value;
      hash = compute_hash value p.len;
      frobenius_power = power;
    }

unfoldable pub decompress : CompressedPrefix → Prefix
decompress c = c.original_prefix

unfoldable pub compressed_matches : CompressedPrefix → ℕ → Bool
unfolding matches
compressed_matches c ip = matches c.original_prefix ip

pub record CompressedRoute : Type 0 where
  pub compressed_prefix : CompressedPrefix
  pub next_hop : String
  pub metric : ℕ

pub record EngineStats : Type 0 where
  pub total_lookups : ℕ
  pub total_inserts : ℕ
  pub total_deletes : ℕ
  pub cache_hits : ℕ
  pub cache_misses : ℕ

pub record AhgfEngine : Type 0 where
  pub routes : List CompressedRoute
  pub hash_index : List (ℕ × List ℕ)
  pub stats : EngineStats

pub record LookupResult : Type 0 where
  pub prefix : Prefix
  pub next_hop : String
  pub metric : ℕ

unfoldable pub new : AhgfEngine
new = record {
  routes = [];
  hash_index = [];
  stats = record {
    total_lookups = 0;
    total_inserts = 0;
    total_deletes = 0;
    cache_hits = 0;
    cache_misses = 0;
  };
}

-- `entry(hash).or_insert_with(Vec::new).push(index)`.
unfoldable pub push_index : ℕ → ℕ → List (ℕ × List ℕ) → List (ℕ × List ℕ)
push_index hash index [] = (hash, index ∷ []) ∷ []
push_index hash index ((h, is) ∷ rest) =
    if h == hash then (h, is ++ (index ∷ [])) ∷ rest else (h, is) ∷ push_index hash index rest

unfoldable pub insert : AhgfEngine → Prefix → String → ℕ → AhgfEngine
unfolding compress push_index
insert e p next_hop metric =
    let c = compress p in
    record {
      routes =
          e.routes ++ (record { compressed_prefix = c; next_hop = next_hop; metric = metric } ∷ []);
      hash_index = push_index c.hash (length e.routes) e.hash_index;
      stats = record e.stats { total_inserts = add64 e.stats.total_inserts 1 };
    }

-- The match that is held after an entry of the given length that fits.
unfoldable pub better : ℕ → ℕ → Option (ℕ × ℕ) → Option (ℕ × ℕ)
better idx prefix_len none = some (idx, prefix_len)
better idx prefix_len (some (i, best_len)) =
    if ltb best_len prefix_len then some (idx, prefix_len) else some (i, best_len)

-- The loop of `lookup_internal` from place `idx` on.
unfoldable pub best_loop : ℕ → ℕ → List CompressedRoute → Option (ℕ × ℕ) → Option (ℕ × ℕ)
unfolding compressed_matches better
best_loop ip idx [] best = best
best_loop ip idx (r ∷ rs) best = best_loop ip (idx + 1) rs (
    if compressed_matches r.compressed_prefix ip
    then better idx r.compressed_prefix.original_prefix.len best
    else best)

abbrev pub result_of : CompressedRoute → LookupResult
result_of r = record {
  prefix = r.compressed_prefix.original_prefix;
  next_hop = r.next_hop;
  metric = r.metric;
}

abbrev pub result_at : Option CompressedRoute → Option LookupResult
result_at none = none
result_at (some r) = some (result_of r)

-- The index is one of the table, so the access does not panic.
unfoldable pub at_index : List CompressedRoute → Option (ℕ × ℕ) → Option LookupResult
at_index rs none = none
at_index rs (some (i, l)) = result_at (get_elem? rs i)

unfoldable pub lookup_internal : List CompressedRoute → ℕ → Option LookupResult
unfolding best_loop at_index
lookup_internal rs ip = at_index rs (best_loop ip 0 rs none)

abbrev counted : EngineStats → Option LookupResult → EngineStats
counted s none = record s {
  total_lookups = add64 s.total_lookups 1;
  cache_misses = add64 s.cache_misses 1;
}
counted s (some r) = record s {
  total_lookups = add64 s.total_lookups 1;
  cache_hits = add64 s.cache_hits 1;
}

abbrev lookup_parsed :
    AhgfEngine → Option ℕ → AhgfEngine × Outcome PrefixError (Option LookupResult)
lookup_parsed e none = (e, err invalid_address)
lookup_parsed e (some ip) =
    let result = lookup_internal e.routes ip in
    (record e { stats = counted e.stats result }, ok result)

unfoldable pub lookup : AhgfEngine → String → AhgfEngine × Outcome PrefixError (Option LookupResult)
unfolding lookup_internal parse_ipv4
lookup e ip = lookup_parsed e (parse_ipv4 (as_bytes ip))

unfoldable pub route_count : AhgfEngine → ℕ
route_count e = length e.routes
