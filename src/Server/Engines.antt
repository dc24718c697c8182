-- ===== src/Server/Engines.antt =====
-- The calls of the engines that the commands make: src/qagml_integration.rs,
-- src/qanban_integration.rs and src/uao_qtcam_integration.rs. Floats are of the parameter `F`.
use cyan_flame_control_plane.Prelude.{
  ℕ, Bool, String, as_bytes, Option, none, some, if◌then◌else◌, add64, Outcome, ok, err, panic,
}
use cyan_flame_control_plane.Prelude.Decimal.{parse_unsigned}
use cyan_flame_control_plane.Prelude.Floats.{Floats}
use cyan_flame_control_plane.Tcam.{TcamEngine, LookupResult, insert, lookup, delete}
use cyan_flame_control_plane.Tcam.Prefix.{Prefix as NetPrefix, PrefixError}

pub record VirtualMemoryAllocationResult : Type 0 where
  pub virtual_address : ℕ
  pub size : ℕ
  pub region_type : String

unfoldable pub allocate_virtual_memory : ℕ → Outcome String ℕ
allocate_virtual_memory size = ok (add64 0x1000_0000_0000 size)

abbrev allocation_at : ℕ → String → Outcome String ℕ → Outcome String VirtualMemoryAllocationResult
allocation_at size region (ok address) =
    ok (record { virtual_address = address; size = size; region_type = region })
allocation_at size region (err x) = err x
allocation_at size region panic = panic

unfoldable pub allocate_amplified_region : ℕ → String → Outcome String VirtualMemoryAllocationResult
unfolding allocate_virtual_memory
allocate_amplified_region size_bytes region =
    allocation_at size_bytes region (allocate_virtual_memory size_bytes)

-- The region of the identifier is not looked for.
unfoldable pub free_amplified_region : String → Outcome String (Unit {0})
free_amplified_region allocation_id = ok tt

pub record FlowOptimizationResult (F : Type 0) : Type 0 where
  pub flow_id : String
  pub original_bandwidth_gbps : F
  pub optimized_bandwidth_pbps : F
  pub amplification_factor : F
  pub latency_reduction_percent : F

unfoldable pub optimize_flow :
    {F : Type 0} → Floats F → String → F → Outcome String (FlowOptimizationResult F)
optimize_flow fl flow_id target_gbps = ok (record {
  flow_id = flow_id;
  original_bandwidth_gbps = target_gbps;
  optimized_bandwidth_pbps = fl.div (fl.mul target_gbps (fl.of_ℕ 1000000)) (fl.of_ℕ 1000);
  amplification_factor = fl.of_ℕ 1000000;
  latency_reduction_percent = fl.literal "99.9";
})

-- What the tokio runtime says at the place of a call: whether `Handle::try_current` finds it, and
-- whether `block_on` may block there; it panics where the thread drives asynchronous tasks.
pub record Runtime : Type 0 where
  pub has_current : Bool
  pub may_block : Bool

pub data SyncError : Type 0 where
  no_runtime : SyncError
  engine : PrefixError → SyncError

abbrev with_engine_error {ℓ} : {A : Type ℓ} → Outcome PrefixError A → Outcome SyncError A
with_engine_error (ok a) = ok a
with_engine_error (err x) = err (engine x)
with_engine_error panic = panic

-- A call that waits for the result and the new engine.
unfoldable pub block_on {ℓ} :
    {A : Type ℓ}
    → Runtime
    → TcamEngine
    → TcamEngine × Outcome PrefixError A
    → TcamEngine × Outcome SyncError A
block_on rt e (e', result) =
    if rt.has_current
    then if rt.may_block then (e', with_engine_error result) else (e, panic)
    else (e, err no_runtime)

pub record ControlPlaneLookupResult : Type 0 where
  pub key : String
  pub next_hop : String
  pub phase : String

abbrev keyed :
    String
    → Outcome PrefixError (Option LookupResult)
    → Outcome PrefixError (Option ControlPlaneLookupResult)
keyed key (ok none) = ok none
keyed key (ok (some r)) = ok (some (record { key = key; next_hop = r.next_hop; phase = r.phase }))
keyed key (err x) = err x
keyed key panic = panic

-- The measured latency is left out.
unfoldable pub sync_lookup :
    (ℕ → ℕ)
    → Runtime
    → TcamEngine
    → String
    → TcamEngine × Outcome SyncError (Option ControlPlaneLookupResult)
unfolding block_on lookup
sync_lookup collapse rt e key =
    let (e', result) = lookup collapse e key in block_on rt e (e', keyed key result)

abbrev or_zero : Option ℕ → ℕ
or_zero none = 0
or_zero (some n) = n

-- `key.parse().unwrap_or(0)` as a `u32`, with 24 bits.
unfoldable pub route_prefix : String → NetPrefix
unfolding parse_unsigned
route_prefix key = record { addr = or_zero (parse_unsigned 4294967296 (as_bytes key)); len = 24 }

unfoldable pub sync_insert_route :
    Runtime → TcamEngine → String → String → ℕ → TcamEngine × Outcome SyncError (Unit {0})
unfolding block_on insert route_prefix
sync_insert_route rt e key value priority =
    block_on rt e
      (insert e (record { prefix = route_prefix key; next_hop = value; metric = priority }))

unfoldable pub sync_delete_route :
    Runtime → TcamEngine → String → TcamEngine × Outcome SyncError (Unit {0})
unfolding block_on delete route_prefix
sync_delete_route rt e key = block_on rt e (delete e (route_prefix key), ok tt)
