-- ===== src/Server/Process.antt =====
-- `process_command` of src/bin/control_plane_server.rs. The calls of the cache do not fail, since its
-- locks are not poisoned; the rates in its statistics are left out.
pub mod Agreement
pub mod Counters
pub mod Faultless
use cyan_flame_control_plane.Prelude.{
  ℕ, zero, suc, ◌+◌, ◌-◌, ◌*◌, ◌/◌, ◌^◌, Bool, true, false, String, as_bytes, str_eq, Option, none,
  some, List, [], ◌∷◌, ◌++◌, length, if◌then◌else◌, add64, sub64, Outcome, ok, err, panic,
}
use cyan_flame_control_plane.Prelude.Int.{ℤ, pos, ◌-ℤ◌}
use cyan_flame_control_plane.Cache as Cache
use cyan_flame_control_plane.Cache.{Cache as UaoQtcamCache, CacheEntry, CacheStats}
use cyan_flame_control_plane.Cache.Counter.{incr}
use cyan_flame_control_plane.Server.Json.{
  Json, null, bool, float, str, lossy, formatted, array, object, elements, json, nat, int, numbers,
  floats,
}
use cyan_flame_control_plane.Prelude.Floats.{Floats}
use cyan_flame_control_plane.Server.Engines.{
  VirtualMemoryAllocationResult, FlowOptimizationResult, Runtime, SyncError,
  ControlPlaneLookupResult, allocate_amplified_region, free_amplified_region, optimize_flow,
  sync_lookup, sync_insert_route, sync_delete_route,
}
use cyan_flame_control_plane.Server.Command.{
  ControlCommand, Part, text, number, decimal, failure, ControlResponse, ServerStats, QagmlMetrics,
  QanbanMetrics, UnifiedCascadeStats, ServerInternals, Readings, Answer,
}
use cyan_flame_control_plane.Server.Command.{
  health, stats, get_memory_stats, get_bandwidth_stats, cache_stats, get_cascade_stats,
  get_gfef_status, allocate_memory, free_memory, optimize_bandwidth, lookup, insert_route,
  delete_route, cache_set, cache_get, cache_delete, cache_incr, get_calibration_matrix,
  predict_activation_of, upload_gfef_index,
}
use cyan_flame_control_plane.Server.Answers.{
  good, bad, health_answer, stats_answer, cascade_answer, memory_answer, bandwidth_answer,
  cache_stats_answer, allocate_answer, free_answer, flow_answer, calibration_answer, predict_answer,
  gfef_status_answer,
}
use cyan_flame_control_plane.Server.Predict.{predict_activation}
use cyan_flame_control_plane.Server.Branches.{
  Branch, set_branch, get_branch, delete_branch, incr_branch, lookup_branch, insert_branch,
  delete_route_branch, upload_branch, or_stopped, stats_branch,
}
use Prim.Native.String.{◌++◌ as joined}
use cyan_flame_control_plane.Tcam.{TcamEngine}

-- The rounds of the prediction's `while` loop, of which enough are given.
abbrev pub rounds : ℕ
rounds = 102 * 2 ^ 64 + 1

-- What a call takes from elsewhere: the operations on floats, the order of the cache's scores, the
-- state that a route's address collapses to, the runtime, the version, and `to_lowercase`.
pub record Surroundings (F : Type 0) : Type 0 where
  pub floats_ : Floats F
  pub score_less : CacheEntry → CacheEntry → Bool
  pub collapse : ℕ → ℕ
  pub runtime : Runtime
  pub version : String
  pub to_lowercase : String → String

module _ {F : Type 0} (w : Surroundings F) where
  unfoldable pub branch : ServerInternals F → Readings → ControlCommand F → Branch F
  unfolding health_answer stats_answer cascade_answer memory_answer bandwidth_answer
      cache_stats_answer allocate_answer free_answer flow_answer calibration_answer predict_answer
      gfef_status_answer set_branch get_branch delete_branch incr_branch lookup_branch insert_branch
      delete_route_branch upload_branch Cache.set Cache.get Cache.delete Cache.serve_stats incr
      allocate_amplified_region free_amplified_region optimize_flow sync_lookup sync_insert_route
      sync_delete_route predict_activation
  branch s r health = (s, ok (health_answer s r w.version))
  branch s r stats = (s, ok (stats_answer s))
  branch s r get_cascade_stats = (s, ok (cascade_answer s))
  branch s r get_memory_stats = (s, ok (memory_answer w.floats_ s))
  branch s r get_bandwidth_stats = (s, ok (bandwidth_answer s.qanban))
  branch s r (cache_set key value ttl_seconds) =
      set_branch s key (Cache.set w.score_less s.cache key (as_bytes value) ttl_seconds r.now)
  branch s r (cache_get key) = get_branch s key (Cache.get s.cache key r.now)
  branch s r (cache_delete key) = delete_branch s key (Cache.delete s.cache key)
  branch s r (cache_incr key) = incr_branch s key (incr w.score_less s.cache key r.now)
  branch s r cache_stats = stats_branch s (Cache.serve_stats s.cache)
  branch s r (allocate_memory size_bytes region) =
      (s, ok (allocate_answer size_bytes region (allocate_amplified_region size_bytes region)))
  branch s r (free_memory allocation_id) =
      (s, ok (free_answer allocation_id (free_amplified_region allocation_id)))
  branch s r (optimize_bandwidth flow_id target_gbps) =
      (s, ok (flow_answer flow_id target_gbps (optimize_flow w.floats_ flow_id target_gbps)))
  branch s r (lookup key) = lookup_branch s key (sync_lookup w.collapse w.runtime s.uao_qtcam key)
  branch s r (insert_route key value priority) =
      insert_branch s key priority (sync_insert_route w.runtime s.uao_qtcam key value priority)
  branch s r (delete_route key) =
      delete_route_branch s key (sync_delete_route w.runtime s.uao_qtcam key)
  branch s r (get_calibration_matrix tier) =
      (s, ok (calibration_answer w.floats_ w.to_lowercase r tier))
  branch s r (predict_activation_of customer_id model_id layer_index input_hash) = (
    s,
    or_stopped (
        predict_answer w.floats_ customer_id model_id layer_index input_hash
          (predict_activation rounds input_hash layer_index)),
  )
  branch s r (upload_gfef_index model_id index_data) = upload_branch s model_id index_data (
      Cache.set w.score_less s.cache (joined "gfef_index:" model_id) (as_bytes index_data)
        (some 86400) r.now)
  branch s r get_gfef_status = (s, ok gfef_status_answer)

  abbrev answered :
      Readings
      → ServerInternals F
      → Answer F
      → ServerInternals F × Outcome String (ControlResponse F)
  answered r s a = (
    record s {
      stats = record s.stats {
        commands_processed = add64 s.stats.commands_processed 1;
        total_latency_ns = add64 s.stats.total_latency_ns r.elapsed;
      };
    },
    ok (record {
      success = a.success;
      message = a.message;
      payload = a.payload;
      latency_ns = r.elapsed_at_end;
    }),
  )

  unfoldable pub respond :
      Readings → Branch F → ServerInternals F × Outcome String (ControlResponse F)
  respond r (s, ok a) = answered r s a
  respond r (s, err e) = (s, err e)
  respond r (s, panic) = (s, panic)

  -- A panic ends the task of the call, which then counts nothing and answers nothing.
  unfoldable pub process_command :
      ServerInternals F
      → Readings
      → ControlCommand F
      → ServerInternals F × Outcome String (ControlResponse F)
  unfolding respond branch
  process_command s r command = respond r (branch s r command)
