-- ===== src/Tcam/Scrtt.antt =====
-- `SCRTTEngine` of uao-qtcam/src/phase3/scrtt_engine.rs. The radix table of 65536 words is a
-- function; the tensor factors and the children of the nodes, which nothing fills, are left out, as
-- are the measured times. `Arc::get_mut` succeeds, since the tables are never shared.
pub mod Shadow
use cyan_flame_control_plane.Prelude.{
  ℕ, zero, suc, ◌+◌, ◌-◌, ◌*◌, ◌/◌, ◌%◌, ◌^◌, Bool, true, false, ◌&&◌, String, as_bytes, Option,
  none, some, List, [], ◌∷◌, ◌++◌, ltb, leb, ◌==◌, if◌then◌else◌, add64, Outcome, ok, err, panic,
}
use cyan_flame_control_plane.Prelude.Bits.{and_bits, xor_bits}
use cyan_flame_control_plane.Tcam.Longest.{scan}
use cyan_flame_control_plane.Tcam.Prefix.{
  Prefix, PrefixError, invalid_address, parse_ipv4, high_bits,
}

pub record PatriciaNode : Type 0 where
  pub pattern : ℕ
  pub pattern_len : ℕ
  pub next_hop : Option String
  pub metric : ℕ

pub record SheafSection : Type 0 where
  pub prefix : Prefix
  pub next_hop : String
  pub metric : ℕ
  pub cohomology_class : ℕ

pub record ScrttStats : Type 0 where
  pub lookups : ℕ
  pub cache_hits : ℕ
  pub num_routes : ℕ
  pub radix_hits : ℕ
  pub patricia_traversals : ℕ

pub record ScrttEngine : Type 0 where
  pub radix_table : ℕ → ℕ
  pub patricia_nodes : List PatriciaNode
  pub sheaf_sections : List SheafSection
  pub stats : ScrttStats

unfoldable pub new : ScrttEngine
new = record {
  radix_table = λ i. 0;
  patricia_nodes = [];
  sheaf_sections = [];
  stats = record {
    lookups = 0;
    cache_hits = 0;
    num_routes = 0;
    radix_hits = 0;
    patricia_traversals = 0;
  };
}

unfoldable pub compute_cohomology_class : Prefix → ℕ
unfolding xor_bits
compute_cohomology_class p = xor_bits 32 (p.addr * 0x9e3779b9 % 2 ^ 32) p.len

abbrev set_word : (ℕ → ℕ) → ℕ → ℕ → ℕ → ℕ
set_word table index value i = if i == index then value else table i

-- The loop of `insert_into_hybrid_trie` with `left` words to go, the first of them at `index`.
unfoldable pub fill_radix : ℕ → ℕ → ℕ → (ℕ → ℕ) → ℕ → ℕ
fill_radix zero index metric table = table
fill_radix (suc left) index metric table =
    fill_radix left (index + 1) metric
      (if ltb index 65536 then set_word table index metric else table)

abbrev pub node_of : Prefix → String → ℕ → PatriciaNode
node_of p next_hop metric = record {
  pattern = p.addr;
  pattern_len = p.len;
  next_hop = some next_hop;
  metric = metric;
}

unfoldable pub insert_into_hybrid_trie : ScrttEngine → Prefix → String → ℕ → ScrttEngine
unfolding fill_radix
insert_into_hybrid_trie e p next_hop metric =
    if leb p.len 16
    then record e {
      radix_table = fill_radix (2 ^ (16 - p.len)) (p.addr / 2 ^ 16) metric e.radix_table;
    }
    else record e { patricia_nodes = e.patricia_nodes ++ (node_of p next_hop metric ∷ []) }

abbrev pub with_section : ScrttEngine → Prefix → String → ℕ → ScrttEngine
with_section e p next_hop metric = record e {
  sheaf_sections =
      e.sheaf_sections
      ++ (record {
        prefix = p;
        next_hop = next_hop;
        metric = metric;
        cohomology_class = compute_cohomology_class p;
      }
          ∷ []);
  stats = record e.stats { num_routes = add64 e.stats.num_routes 1 };
}

unfoldable pub insert : ScrttEngine → Prefix → String → ℕ → ScrttEngine
unfolding compute_cohomology_class insert_into_hybrid_trie
insert e p next_hop metric =
    insert_into_hybrid_trie (with_section e p next_hop metric) p next_hop metric

unfoldable pub lookup_from_radix : ℕ → Option (String × ℕ)
lookup_from_radix radix_entry =
    if radix_entry == 0 then none else some ("gateway_radix", radix_entry)

abbrev pub node_mask : ℕ → ℕ
node_mask len = if len == 0 then 0 else high_bits len

unfoldable pub node_matches : ℕ → PatriciaNode → Bool
unfolding high_bits and_bits
node_matches ip n =
    and_bits 32 ip (node_mask n.pattern_len) == and_bits 32 n.pattern (node_mask n.pattern_len)

abbrev pub has_hop : PatriciaNode → Bool
has_hop n = elim n.next_hop [ none ↦ false | some hop ↦ true ]

abbrev pub node_result : Option PatriciaNode → Option (String × ℕ)
node_result none = none
node_result (some n) = elim n.next_hop [ none ↦ none | some hop ↦ some (hop, n.metric) ]

-- The loop holds a node in place of its next hop and its metric.
unfoldable pub lookup_from_patricia : List PatriciaNode → ℕ → Option (String × ℕ)
unfolding node_matches scan
lookup_from_patricia nodes ip =
    node_result (scan (λ n. node_matches ip n && has_hop n) (λ n. n.pattern_len) nodes none 0)

-- The part of `lookup` for the address as a number.
unfoldable pub find : ScrttEngine → ℕ → Option (String × ℕ)
unfolding lookup_from_radix lookup_from_patricia
find e ip =
    let radix_entry = e.radix_table (ip / 2 ^ 16) in
    if radix_entry == 0
    then lookup_from_patricia e.patricia_nodes ip
    else lookup_from_radix radix_entry

abbrev counted : ScrttEngine → ℕ → Option (String × ℕ) → ScrttStats
counted e ip result =
    let s = e.stats in
    let radix = if e.radix_table (ip / 2 ^ 16) == 0 then 0 else 1 in
    record s {
      lookups = add64 s.lookups 1;
      cache_hits = elim result [ none ↦ s.cache_hits | some r ↦ add64 s.cache_hits 1 ];
      radix_hits = add64 s.radix_hits radix;
      patricia_traversals = add64 s.patricia_traversals (1 - radix);
    }

abbrev lookup_parsed :
    ScrttEngine → Option ℕ → ScrttEngine × Outcome PrefixError (Option (String × ℕ))
lookup_parsed e none = (e, err invalid_address)
lookup_parsed e (some ip) =
    let result = find e ip in (record e { stats = counted e ip result }, ok result)

unfoldable pub lookup :
    ScrttEngine → String → ScrttEngine × Outcome PrefixError (Option (String × ℕ))
unfolding find parse_ipv4
lookup e ip = lookup_parsed e (parse_ipv4 (as_bytes ip))
