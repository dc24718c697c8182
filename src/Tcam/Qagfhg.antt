-- ===== src/Tcam/Qagfhg.antt =====
-- `QAGFHGEngine` of uao-qtcam/src/phase2/qagfhg_engine.rs. The quantum state of an address is floats
-- that only choose the cluster of a result: the state that it collapses to is a parameter. The
-- measured times are left out.
use cyan_flame_control_plane.Prelude.{
  ℕ, ◌%◌, ◌^◌, String, as_bytes, Option, none, some, List, [], ◌∷◌, ◌++◌, length, ltb,
  if◌then◌else◌, add64, Outcome, ok, err,
}
use cyan_flame_control_plane.Tcam.Longest.{scan}
use cyan_flame_control_plane.Tcam.Prefix.{
  Prefix, PrefixError, invalid_address, invalid_prefix_length, parse_ipv4, matches,
}

pub record RouteEntry : Type 0 where
  pub prefix : Prefix
  pub next_hop : String
  pub metric : ℕ

pub record QagfhgStats : Type 0 where
  pub lookups : ℕ
  pub cache_hits : ℕ
  pub num_routes : ℕ

pub record QagfhgEngine : Type 0 where
  pub routes : List RouteEntry
  pub stats : QagfhgStats
  pub num_clusters : ℕ

pub record QagfhgLookupResult : Type 0 where
  pub prefix : Prefix
  pub next_hop : String
  pub metric : ℕ
  pub cluster_id : ℕ

unfoldable pub new : ℕ → QagfhgEngine
new num_clusters = record {
  routes = [];
  stats = record { lookups = 0; cache_hits = 0; num_routes = 0 };
  num_clusters = num_clusters;
}

-- `rebuild_hints`, which follows from three routes on, does nothing.
unfoldable pub insert :
    QagfhgEngine → Prefix → String → ℕ → QagfhgEngine × Outcome PrefixError (Unit {0})
insert e p next_hop metric =
    if ltb 32 p.len
    then (e, err (invalid_prefix_length p.len))
    else let routes =
        e.routes ++ (record { prefix = p; next_hop = next_hop; metric = metric } ∷ []) in
      (record e { routes = routes; stats = record e.stats { num_routes = length routes } }, ok tt)

-- The loop of `lookup`.
unfoldable pub best_match : List RouteEntry → ℕ → Option RouteEntry
unfolding matches scan
best_match rs ip = scan (λ r. matches r.prefix ip) (λ r. r.prefix.len) rs none 0

module _ (collapse : ℕ → ℕ) where
  abbrev result_of : QagfhgEngine → ℕ → RouteEntry → QagfhgLookupResult
  result_of e ip r = record {
    prefix = r.prefix;
    next_hop = r.next_hop;
    metric = r.metric;
    cluster_id = collapse ip % e.num_clusters % 2 ^ 16;
  }

  abbrev answer :
      QagfhgEngine
      → ℕ
      → Option RouteEntry
      → QagfhgEngine × Outcome PrefixError (Option QagfhgLookupResult)
  answer e ip none =
      (record e { stats = record e.stats { lookups = add64 e.stats.lookups 1 } }, ok none)
  answer e ip (some r) = (
    record e {
      stats = record e.stats {
        lookups = add64 e.stats.lookups 1;
        cache_hits = add64 e.stats.cache_hits 1;
      };
    },
    ok (some (result_of e ip r)),
  )

  abbrev lookup_parsed :
      QagfhgEngine → Option ℕ → QagfhgEngine × Outcome PrefixError (Option QagfhgLookupResult)
  lookup_parsed e none = (e, err invalid_address)
  lookup_parsed e (some ip) = answer e ip (best_match e.routes ip)

  unfoldable pub lookup :
      QagfhgEngine → String → QagfhgEngine × Outcome PrefixError (Option QagfhgLookupResult)
  unfolding best_match parse_ipv4
  lookup e ip = lookup_parsed e (parse_ipv4 (as_bytes ip))
