-- ===== src/Tcam.antt =====
-- `TCAMEngine` of uao-qtcam/src/unified/tcam_engine.rs: three routing tables behind one interface.
-- The measured times and their averages are left out; a result of the first two phases names its
-- prefix, one of the third the address that was asked for.
pub mod Prefix
pub mod Field
pub mod Longest
pub mod Ahgf
pub mod Qagfhg
pub mod Scrtt
pub mod Routes
pub mod Agreement
pub mod Rejected
mod Tests
use cyan_flame_control_plane.Prelude.{
  ℕ, String, Option, none, some, List, [], ◌∷◌, add64, Outcome, ok, err, panic,
}
use cyan_flame_control_plane.Tcam.Prefix.{Prefix as NetPrefix, PrefixError}
use cyan_flame_control_plane.Tcam.Ahgf as Phase1
use cyan_flame_control_plane.Tcam.Ahgf.{AhgfEngine}
use cyan_flame_control_plane.Tcam.Qagfhg as Phase2
use cyan_flame_control_plane.Tcam.Qagfhg.{QagfhgEngine, QagfhgLookupResult}
use cyan_flame_control_plane.Tcam.Scrtt as Phase3
use cyan_flame_control_plane.Tcam.Scrtt.{ScrttEngine}

pub data PhaseStrategy : Type 0 where
  phase1_only phase2_only phase3_only adaptive : PhaseStrategy

pub record EngineMonitor : Type 0 where
  pub total_lookups : ℕ
  pub total_inserts : ℕ
  pub total_deletes : ℕ
  pub phase1_lookups : ℕ
  pub phase2_lookups : ℕ
  pub phase3_lookups : ℕ

pub record TcamEngine : Type 0 where
  pub phase1 : AhgfEngine
  pub phase2 : QagfhgEngine
  pub phase3 : ScrttEngine
  pub monitor : EngineMonitor
  pub strategy : PhaseStrategy

pub record Route : Type 0 where
  pub prefix : NetPrefix
  pub next_hop : String
  pub metric : ℕ

-- What the text of a result's prefix is made from.
pub data ResultPrefix : Type 0 where
  of_route : NetPrefix → ResultPrefix
  of_address : String → ResultPrefix

pub record LookupResult : Type 0 where
  pub prefix : ResultPrefix
  pub next_hop : String
  pub metric : ℕ
  pub phase : String

unfoldable pub with_strategy : PhaseStrategy → TcamEngine
unfolding Phase1.new Phase2.new Phase3.new
with_strategy strategy = record {
  phase1 = Phase1.new;
  phase2 = Phase2.new 3;
  phase3 = Phase3.new;
  monitor = record {
    total_lookups = 0;
    total_inserts = 0;
    total_deletes = 0;
    phase1_lookups = 0;
    phase2_lookups = 0;
    phase3_lookups = 0;
  };
  strategy = strategy;
}

-- The rest of `insert` behind the second phase.
unfoldable pub insert_rest :
    TcamEngine
    → Route
    → QagfhgEngine × Outcome PrefixError (Unit {0})
    → TcamEngine × Outcome PrefixError (Unit {0})
unfolding Phase3.insert
insert_rest e r (phase2, ok x) = (
  record e {
    phase2 = phase2;
    phase3 = Phase3.insert e.phase3 r.prefix r.next_hop r.metric;
    monitor = record e.monitor { total_inserts = add64 e.monitor.total_inserts 1 };
  },
  ok x,
)
insert_rest e r (phase2, err x) = (record e { phase2 = phase2 }, err x)
insert_rest e r (phase2, panic) = (record e { phase2 = phase2 }, panic)

unfoldable pub insert : TcamEngine → Route → TcamEngine × Outcome PrefixError (Unit {0})
unfolding Phase1.insert Phase2.insert insert_rest
insert e r =
    insert_rest (record e { phase1 = Phase1.insert e.phase1 r.prefix r.next_hop r.metric }) r
      (Phase2.insert e.phase2 r.prefix r.next_hop r.metric)

abbrev map_found {ℓ κ} :
    {A : Type ℓ} {B : Type κ}
    → (A → B)
    → Outcome PrefixError (Option A)
    → Outcome PrefixError (Option B)
map_found f (ok none) = ok none
map_found f (ok (some a)) = ok (some (f a))
map_found f (err x) = err x
map_found f panic = panic

-- A counter of lookups grows where the phase gives no error.
abbrev bump {ℓ} : {A : Type ℓ} → Outcome PrefixError A → ℕ → ℕ
bump (ok a) n = add64 n 1
bump (err x) n = n
bump panic n = n

abbrev begun : TcamEngine → EngineMonitor
begun e = record e.monitor { total_lookups = add64 e.monitor.total_lookups 1 }

abbrev by_phase3 :
    TcamEngine → String → String → TcamEngine × Outcome PrefixError (Option LookupResult)
by_phase3 e ip phase =
    let (phase3, result) = Phase3.lookup e.phase3 ip in
    (
      record e {
        phase3 = phase3;
        monitor = record (begun e) { phase3_lookups = bump result e.monitor.phase3_lookups };
      },
      map_found
          (λ r. record { prefix = of_address ip; next_hop = r.0; metric = r.1; phase = phase })
          result,
    )

module _ (collapse : ℕ → ℕ) where
  unfoldable pub lookup_by :
      PhaseStrategy → TcamEngine → String → TcamEngine × Outcome PrefixError (Option LookupResult)
  unfolding Phase1.lookup Phase2.lookup Phase3.lookup
  lookup_by phase1_only e ip =
      let (phase1, result) = Phase1.lookup e.phase1 ip in
      (
        record e {
          phase1 = phase1;
          monitor = record (begun e) { phase1_lookups = bump result e.monitor.phase1_lookups };
        },
        map_found
            (λ r. record {
              prefix = of_route r.prefix;
              next_hop = r.next_hop;
              metric = r.metric;
              phase = "Phase1-AHGF";
            })
            result,
      )
  lookup_by phase2_only e ip =
      let (phase2, result) = Phase2.lookup collapse e.phase2 ip in
      (
        record e {
          phase2 = phase2;
          monitor = record (begun e) { phase2_lookups = bump result e.monitor.phase2_lookups };
        },
        map_found
            (λ (r : QagfhgLookupResult). record {
              prefix = of_route r.prefix;
              next_hop = r.next_hop;
              metric = r.metric;
              phase = "Phase2-QAGFHG";
            })
            result,
      )
  lookup_by phase3_only e ip = by_phase3 e ip "Phase3-SCRTT"
  lookup_by adaptive e ip = by_phase3 e ip "Phase3-SCRTT-Adaptive"

  unfoldable pub lookup :
      TcamEngine → String → TcamEngine × Outcome PrefixError (Option LookupResult)
  unfolding lookup_by
  lookup e ip = lookup_by e.strategy e ip

-- A deletion is counted; no table changes.
unfoldable pub delete : TcamEngine → NetPrefix → TcamEngine
delete e p = record e {
  monitor = record e.monitor { total_deletes = add64 e.monitor.total_deletes 1 };
}
