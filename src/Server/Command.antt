-- ===== src/Server/Command.antt =====
-- The commands, the responses and the state of src/bin/control_plane_server.rs. Floats are of the
-- parameter `F`, and a message is the parts that `format!` joins.
use cyan_flame_control_plane.Prelude.{ℕ, Bool, String, Option, List, Outcome}
use cyan_flame_control_plane.Prelude.Int.{ℤ}
use cyan_flame_control_plane.Cache.{Cache as UaoQtcamCache}
use cyan_flame_control_plane.Tcam.{TcamEngine}
use cyan_flame_control_plane.Server.Json.{Json}
use cyan_flame_control_plane.Server.Engines.{SyncError}

pub data ControlCommand (F : Type 0) : Type 0 where
  health stats get_memory_stats get_bandwidth_stats cache_stats get_cascade_stats get_gfef_status :
      ControlCommand F
  allocate_memory : (size_bytes : ℕ) → (region : String) → ControlCommand F
  free_memory : (allocation_id : String) → ControlCommand F
  optimize_bandwidth : (flow_id : String) → (target_gbps : F) → ControlCommand F
  lookup : (key : String) → ControlCommand F
  insert_route : (key : String) → (value : String) → (priority : ℕ) → ControlCommand F
  delete_route : (key : String) → ControlCommand F
  cache_set : (key : String) → (value : String) → (ttl_seconds : Option ℕ) → ControlCommand F
  cache_get : (key : String) → ControlCommand F
  cache_delete : (key : String) → ControlCommand F
  cache_incr : (key : String) → ControlCommand F
  get_calibration_matrix : (tier : Option String) → ControlCommand F
  predict_activation_of :
      (customer_id : String)
      → (model_id : String) → (layer_index : ℕ) → (input_hash : String) → ControlCommand F
  upload_gfef_index : (model_id : String) → (index_data : String) → ControlCommand F

pub data Part (F : Type 0) : Type 0 where
  text : String → Part F
  number : ℤ → Part F
  decimal : F → Part F
  failure : SyncError → Part F

pub record ControlResponse (F : Type 0) : Type 0 where
  pub success : Bool
  pub message : List (Part F)
  pub payload : Option (Json F)
  pub latency_ns : ℕ

pub record ServerStats : Type 0 where
  pub commands_processed : ℕ
  pub vxlan_packets : ℕ
  pub http_requests : ℕ
  pub cache_hits : ℕ
  pub cache_misses : ℕ
  pub total_latency_ns : ℕ
  pub start_time : ℕ

pub record QagmlMetrics (F : Type 0) : Type 0 where
  pub memory_amplification : ℕ
  pub bus_width_amplification : F
  pub physical_memory_gb : ℕ
  pub effective_memory_pb : ℕ
  pub physical_bus_width_bits : ℕ
  pub effective_bus_width_bits : ℕ
  pub cache_hit_rate : F
  pub total_allocations : ℕ
  pub bytes_processed : ℕ
  pub is_healthy : Bool

pub record QanbanMetrics (F : Type 0) : Type 0 where
  pub packets_processed : ℕ
  pub is_healthy : Bool
  pub uptime_seconds : ℕ
  pub postulates_active : ℕ
  pub memory_usage_mb : F
  pub throughput_pps : F

-- The four numbers of `get_unified_stats` that a response shows.
pub record UnifiedCascadeStats : Type 0 where
  pub physical_bytes_processed : ℕ
  pub cascade_effective_bytes : ℕ
  pub memory_physical_bytes : ℕ
  pub memory_effective_bytes : ℕ

-- No command changes what the first three engines report, so their reports stand for them.
pub record ServerInternals (F : Type 0) : Type 0 where
  pub qagml : QagmlMetrics F
  pub qanban : Outcome String (QanbanMetrics F)
  pub bandwidth_cascade : UnifiedCascadeStats
  pub cache : UaoQtcamCache
  pub uao_qtcam : TcamEngine
  pub stats : ServerStats

-- The readings of one call: the time in seconds and in milliseconds, and the two elapsed times.
pub record Readings : Type 0 where
  pub now : ℕ
  pub now_ms : ℕ
  pub elapsed : ℕ
  pub elapsed_at_end : ℕ

-- What the branch of a command gives: success, message and data.
pub record Answer (F : Type 0) : Type 0 where
  pub success : Bool
  pub message : List (Part F)
  pub payload : Option (Json F)
