-- ===== src/Server/Answers.antt =====
-- What the branches of `process_command` answer, src/bin/control_plane_server.rs.
use cyan_flame_control_plane.Prelude.{
  ℕ, ◌+◌, ◌*◌, ◌/◌, true, false, String, Option, none, some, List, [], ◌∷◌, Outcome, ok, err, panic,
}
use cyan_flame_control_plane.Prelude.Int.{pos, ◌-ℤ◌}
use cyan_flame_control_plane.Cache.{CacheStats}
use cyan_flame_control_plane.Server.Json.{
  Json, bool, float, str, formatted, array, elements, json, nat, int, numbers, floats,
}
use cyan_flame_control_plane.Prelude.Floats.{Floats}
use cyan_flame_control_plane.Server.Engines.{VirtualMemoryAllocationResult, FlowOptimizationResult}
use cyan_flame_control_plane.Server.Command.{
  Part, text, number, decimal, QanbanMetrics, ServerInternals, Readings, Answer,
}
use cyan_flame_control_plane.Server.Calibration.{calibration_tier, matrix_rows, tier_or_default}

module _ {F : Type 0} where
  abbrev pub good : List (Part F) → Option (Json F) → Answer F
  good m d = record { success = true; message = m; payload = d }

  abbrev pub bad : List (Part F) → Answer F
  bad m = record { success = false; message = m; payload = none }

  abbrev said : String → List (Part F)
  said s = text s ∷ []

  abbrev quoted : String → String → String → List (Part F)
  quoted front key back = text front ∷ text key ∷ text back ∷ []

  unfoldable pub health_answer : ServerInternals F → Readings → String → Answer F
  health_answer s r version = good (said "SYMMETRIX Control Plane Server is healthy") (
      some (
        json (
          ("status", str "healthy")
          ∷ ("version", str version)
          ∷ ("uptime_seconds", int (pos r.now -ℤ pos s.stats.start_time))
          ∷ [])))

  unfoldable pub stats_answer : ServerInternals F → Answer F
  stats_answer s = good (said "Server statistics") (
      some (
        json (
          ("commands_processed", nat s.stats.commands_processed)
          ∷ ("vxlan_packets", nat s.stats.vxlan_packets)
          ∷ ("http_requests", nat s.stats.http_requests)
          ∷ ("cache_hits", nat s.stats.cache_hits)
          ∷ ("cache_misses", nat s.stats.cache_misses)
          ∷ ("total_latency_ns", nat s.stats.total_latency_ns)
          ∷ ("start_time", nat s.stats.start_time)
          ∷ [])))

  unfoldable pub cascade_answer : ServerInternals F → Answer F
  cascade_answer s =
      let c = s.bandwidth_cascade in
      good (said "Cascade statistics") (
        some (
          json (
            ("bandwidth_amplification", str "250,000,000× (250 MILLION)")
            ∷ ("memory_amplification", str "2,500,000,000× (2.5 BILLION)")
            ∷ ("tcam_speedup", str "1,250×")
            ∷ ("physical_bandwidth_gbps", nat 800)
            ∷ ("virtual_bandwidth_exabps", nat 200)
            ∷ ("physical_memory_gb", nat 80)
            ∷ ("virtual_memory_exabytes", nat 200)
            ∷ ("bandwidth_physical_bytes", nat c.physical_bytes_processed)
            ∷ ("bandwidth_effective_bytes", nat c.cascade_effective_bytes)
            ∷ ("memory_physical_bytes", nat c.memory_physical_bytes)
            ∷ ("memory_effective_bytes", nat c.memory_effective_bytes)
            ∷ [])))

  unfoldable pub memory_answer : Floats F → ServerInternals F → Answer F
  memory_answer fl s =
      let m = s.qagml in
      good (said "Memory statistics") (
        some (
          json (
            ("amplification", formatted "{}×" (nat m.memory_amplification))
            ∷ ("bus_width_amplification", formatted "{:.0}×" (float m.bus_width_amplification))
            ∷ ("physical_memory_gb", nat m.physical_memory_gb)
            ∷ ("effective_memory_pb", nat m.effective_memory_pb)
            ∷ ("physical_bus_width_bits", nat m.physical_bus_width_bits)
            ∷ ("effective_bus_width_bits", nat m.effective_bus_width_bits)
            ∷ ("cache_hit_rate", formatted "{:.1}%" (float (fl.mul m.cache_hit_rate (fl.of_ℕ 100))))
            ∷ ("total_allocations", nat m.total_allocations)
            ∷ ("bytes_processed", nat m.bytes_processed)
            ∷ ("is_healthy", bool m.is_healthy)
            ∷ [])))

  unfoldable pub bandwidth_answer : Outcome String (QanbanMetrics F) → Answer F
  bandwidth_answer (ok b) = good (said "Bandwidth statistics") (
      some (
        json (
          ("amplification", str "1,000,000×")
          ∷ ("packets_processed", nat b.packets_processed)
          ∷ ("is_healthy", bool b.is_healthy)
          ∷ ("uptime_seconds", nat b.uptime_seconds)
          ∷ ("postulates_active", nat b.postulates_active)
          ∷ ("memory_usage_mb", float b.memory_usage_mb)
          ∷ ("throughput_pps", float b.throughput_pps)
          ∷ [])))
  bandwidth_answer (err e) = bad (quoted "Failed to get bandwidth stats: " e "")
  bandwidth_answer panic = bad []

  -- The `u64` of the ratio is its whole part, which the model of the cache holds.
  unfoldable pub cache_stats_answer : ℕ → CacheStats → Answer F
  cache_stats_answer ratio c = good (said "Cache statistics") (
      some (
        json (
          ("compression_ratio", formatted "{}×" (nat ratio))
          ∷ ("entries", nat c.entry_count)
          ∷ ("compressed_mb", nat (c.compressed_bytes / (1024 * 1024)))
          ∷ ("effective_mb", nat (c.original_bytes / (1024 * 1024)))
          ∷ ("hits", nat c.hits)
          ∷ ("misses", nat c.misses)
          ∷ ("evictions", nat c.evictions)
          ∷ [])))

  abbrev allocation_json : VirtualMemoryAllocationResult → Json F
  allocation_json a = json (
      ("virtual_address", nat a.virtual_address)
      ∷ ("size", nat a.size)
      ∷ ("region_type", str a.region_type)
      ∷ [])

  unfoldable pub allocate_answer :
      ℕ → String → Outcome String VirtualMemoryAllocationResult → Answer F
  allocate_answer size region (ok a) =
      good
        (text "Allocated "
          ∷ number (pos size)
          ∷ text " bytes in region '"
          ∷ text region
          ∷ text "'"
          ∷ [])
        (some (allocation_json a))
  allocate_answer size region (err e) = bad (quoted "Allocation error: " e "")
  allocate_answer size region panic = bad []

  unfoldable pub free_answer : String → Outcome String (Unit {0}) → Answer F
  free_answer allocation_id (ok x) = good (quoted "Freed allocation '" allocation_id "'") none
  free_answer allocation_id (err e) = bad (quoted "Free error: " e "")
  free_answer allocation_id panic = bad []

  abbrev flow_json : FlowOptimizationResult F → Json F
  flow_json f = json (
      ("flow_id", str f.flow_id)
      ∷ ("original_bandwidth_gbps", float f.original_bandwidth_gbps)
      ∷ ("optimized_bandwidth_pbps", float f.optimized_bandwidth_pbps)
      ∷ ("amplification_factor", float f.amplification_factor)
      ∷ ("latency_reduction_percent", float f.latency_reduction_percent)
      ∷ [])

  unfoldable pub flow_answer : String → F → Outcome String (FlowOptimizationResult F) → Answer F
  flow_answer flow_id target_gbps (ok f) =
      good
        (text "Optimized flow '"
          ∷ text flow_id
          ∷ text "' to "
          ∷ decimal target_gbps
          ∷ text " Gbps"
          ∷ [])
        (some (flow_json f))
  flow_answer flow_id target_gbps (err e) = bad (quoted "Optimization error: " e "")
  flow_answer flow_id target_gbps panic = bad []

  -- `none` where the fuel of the prediction ends.
  unfoldable pub predict_answer :
      Floats F → String → String → ℕ → String → Option (List ℕ) → Option (Answer F)
  predict_answer fl customer_id model_id layer_index input_hash none = none
  predict_answer fl customer_id model_id layer_index input_hash (some active_neurons) = some (
      good (text "GFEF prediction for layer " ∷ number (pos layer_index) ∷ []) (
        some (
          json (
            ("layer_id", nat layer_index)
            ∷ ("layer_index", nat layer_index)
            ∷ ("input_hash", str input_hash)
            ∷ ("active_neurons", array (elements (numbers active_neurons)))
            ∷ ("sparsity", float (fl.literal "0.95"))
            ∷ ("confidence", float (fl.literal "0.99"))
            ∷ ("method", str "galois_field_eigenmode_folding")
            ∷ ("gf_order", nat 2048)
            ∷ ("customer_id", str customer_id)
            ∷ ("model_id", str model_id)
            ∷ []))))

  -- `to_lowercase` of the tier is a parameter.
  unfoldable pub calibration_answer :
      Floats F → (String → String) → Readings → Option String → Answer F
  unfolding calibration_tier matrix_rows
  calibration_answer fl to_lowercase r tier =
      let tier_name = tier_or_default tier in
      let (ratio, tier_code) = calibration_tier (to_lowercase tier_name) in
      good (quoted "Calibration matrix for tier '" tier_name "'") (
        some (
          json (
            ("rows", nat 64)
            ∷ ("cols", nat 64)
            ∷ ("values", array (elements (floats (matrix_rows fl ratio 64 0))))
            ∷ ("session_id", formatted "cal-{}" (nat r.now_ms))
            ∷ ("expires_at", nat (r.now + 60))
            ∷ ("tier", nat tier_code)
            ∷ ("tier_name", str tier_name)
            ∷ ("compression_ratio", float (fl.of_ℕ ratio))
            ∷ [])))

  unfoldable pub gfef_status_answer : Answer F
  gfef_status_answer = good (said "GFEF system status") (
      some (
        json (
          ("status", str "active")
          ∷ ("version", str "1.0.0")
          ∷ (
            "capabilities",
            json (
                ("sparsity_prediction", bool true)
                ∷ ("galois_field_order", nat 2048)
                ∷ ("max_layers", nat 384)
                ∷ ("compression_ratio", str "20x")
                ∷ []),
          )
          ∷ ("models_indexed", nat 1)
          ∷ (
            "triple_ip_lock",
            json (
                ("lock_1", str "GFEF Index (SECURED)")
                ∷ ("lock_2", str "Calibration Matrix (rotating)")
                ∷ ("lock_3", str "Activation Prediction Service (real-time)")
                ∷ []),
          )
          ∷ [])))
