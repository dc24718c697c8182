-- ===== src/Server/Process/Counters.antt =====
-- The counters of the server over a history of commands.
use cyan_flame_control_plane.Prelude.{
  ℕ, ◌+◌, ◌%◌, ◌^◌, ◌<◌, ◌≡◌, ap, arith, String, as_bytes, some, List, [], ◌∷◌, Outcome, ok, err,
  panic, add64,
}
use Prim.Native.String.{◌++◌ as joined}
use cyan_flame_control_plane.Cache as Cache
use cyan_flame_control_plane.Cache.{Cache as UaoQtcamCache, CacheStats}
use cyan_flame_control_plane.Cache.Counter.{incr}
use cyan_flame_control_plane.Cache.Tally.{
  serve_stats-KeepsTally, delete-KeepsTally, set-KeepsTally, incr-KeepsTally, get-Tallies,
}
use cyan_flame_control_plane.Server.Engines.{sync_lookup, sync_insert_route, sync_delete_route}
use cyan_flame_control_plane.Server.Command.{
  ControlCommand, health, stats, get_memory_stats, get_bandwidth_stats, cache_stats,
  get_cascade_stats, get_gfef_status, allocate_memory, free_memory, optimize_bandwidth, lookup,
  insert_route, delete_route, cache_set, cache_get, cache_delete, cache_incr,
  get_calibration_matrix, predict_activation_of, upload_gfef_index, ControlResponse,
  ServerInternals, Readings,
}
use cyan_flame_control_plane.Server.Branches.{Branch}
use cyan_flame_control_plane.Server.Process.{Surroundings, branch, respond, process_command}
use cyan_flame_control_plane.Server.Process.Agreement.{
  Agrees, Sound, kept-Sound, set-Sound, upload-Sound, delete-Sound, incr-Sound, get-Sound,
  lookup-Sound, insert-Sound, delete_route-Sound, same-Sound,
}

module _ {F : Type 0} (w : Surroundings F) where
  pub branch-Sound :
      (s : ServerInternals F) (r : Readings) (command : ControlCommand F)
      → Agrees s
      → Sound s (branch w s r command)
  unfolding branch
  branch-Sound s r health a = same-Sound s _ a
  branch-Sound s r stats a = same-Sound s _ a
  branch-Sound s r get_memory_stats a = same-Sound s _ a
  branch-Sound s r get_bandwidth_stats a = same-Sound s _ a
  branch-Sound s r get_cascade_stats a = same-Sound s _ a
  branch-Sound s r get_gfef_status a = same-Sound s _ a
  branch-Sound s r (allocate_memory size_bytes region) a = same-Sound s _ a
  branch-Sound s r (free_memory allocation_id) a = same-Sound s _ a
  branch-Sound s r (optimize_bandwidth flow_id target_gbps) a = same-Sound s _ a
  branch-Sound s r (get_calibration_matrix tier) a = same-Sound s _ a
  branch-Sound s r (predict_activation_of customer_id model_id layer_index input_hash) a =
      same-Sound s _ a
  branch-Sound s r cache_stats a =
      kept-Sound s (Cache.serve_stats s.cache).0 _ (serve_stats-KeepsTally s.cache) a
  branch-Sound s r (cache_set key value ttl_seconds) a =
      set-Sound s key (Cache.set w.score_less s.cache key (as_bytes value) ttl_seconds r.now)
        (set-KeepsTally w.score_less s.cache key (as_bytes value) ttl_seconds r.now) a
  branch-Sound s r (cache_get key) a =
      get-Sound s key (Cache.get s.cache key r.now) (get-Tallies s.cache key r.now) a
  branch-Sound s r (cache_delete key) a =
      delete-Sound s key (Cache.delete s.cache key) (delete-KeepsTally s.cache key) a
  branch-Sound s r (cache_incr key) a =
      incr-Sound s key (incr w.score_less s.cache key r.now)
        (incr-KeepsTally w.score_less s.cache key r.now) a
  branch-Sound s r (lookup key) a =
      lookup-Sound s key (sync_lookup w.collapse w.runtime s.uao_qtcam key) a
  branch-Sound s r (insert_route key value priority) a =
      insert-Sound s key priority (sync_insert_route w.runtime s.uao_qtcam key value priority) a
  branch-Sound s r (delete_route key) a =
      delete_route-Sound s key (sync_delete_route w.runtime s.uao_qtcam key) a
  branch-Sound s r (upload_gfef_index model_id index_data) a =
      upload-Sound s model_id index_data _
        (set-KeepsTally w.score_less s.cache (joined "gfef_index:" model_id) (as_bytes index_data)
          (some 86400) r.now)
        a

  unfoldable pub run : ServerInternals F → List (Readings × ControlCommand F) → ServerInternals F
  unfolding process_command
  run s [] = s
  run s ((r, command) ∷ rest) = run (process_command w s r command).0 rest

  abbrev answer_count : Outcome String (ControlResponse F) → ℕ
  answer_count (ok a) = 1
  answer_count (err e) = 0
  answer_count panic = 0

  -- The number of the commands that are answered.
  unfoldable pub answers : ServerInternals F → List (Readings × ControlCommand F) → ℕ
  unfolding process_command
  answers s [] = 0
  answers s ((r, command) ∷ rest) =
      answer_count (process_command w s r command).1
      + answers (process_command w s r command).0 rest

  -- One command: the counters agree, and the answered command is counted.
  record Counted (s : ServerInternals F)
      (out : ServerInternals F × Outcome String (ControlResponse F)) : Type 0 where
    agrees : Agrees out.0
    counted :
        out.0.stats.commands_processed ≡ (s.stats.commands_processed + answer_count out.1) % 2 ^ 64

  respond-Counted :
      (s : ServerInternals F) (r : Readings) (b : Branch F)
      → s.stats.commands_processed < 2 ^ 64
      → Sound s b
      → Counted s (respond w r b)
  unfolding respond
  respond-Counted s r (s', ok a) small h = record {
    agrees = record { hits = h.agrees.hits; misses = h.agrees.misses };
    counted = ap (λ n. add64 n 1) h.uncounted;
  }
  respond-Counted s r (s', err e) small h = record {
    agrees = h.agrees;
    counted = omega (arith, h.uncounted);
  }
  respond-Counted s r (s', panic) small h = record {
    agrees = h.agrees;
    counted = omega (arith, h.uncounted);
  }

  process_command-Counted :
      (s : ServerInternals F) (r : Readings) (command : ControlCommand F)
      → s.stats.commands_processed < 2 ^ 64
      → Agrees s
      → Counted s (process_command w s r command)
  unfolding process_command
  process_command-Counted s r command small a =
      respond-Counted s r (branch w s r command) small (branch-Sound s r command a)

  wrap : (a b c n m : ℕ) → a ≡ (b + n) % 2 ^ 64 → c ≡ (a + m) % 2 ^ 64 → c ≡ (b + (n + m)) % 2 ^ 64
  wrap a b c n m ea ec = omega (arith, ea, ec)

  -- Over any history of commands on a server whose counters of hits and misses agree with those of
  -- its cache, they agree at the end, and the counter of commands has grown by the number of the
  -- commands that were answered, modulo 2^64: one that panics is not counted.
  pub history-Agrees :
      (s : ServerInternals F) (xs : List (Readings × ControlCommand F))
      → s.stats.commands_processed < 2 ^ 64
      → Agrees s
      → Agrees (run s xs)
        × ((run s xs).stats.commands_processed
            ≡ (s.stats.commands_processed + answers s xs) % 2 ^ 64)
  unfolding run answers
  history-Agrees s [] small a = (a, omega arith)
  history-Agrees s ((r, command) ∷ rest) small a =
      let one = process_command-Counted s r command small a in
      let (agrees, total) =
        history-Agrees (process_command w s r command).0 rest (omega (arith, one.counted))
          one.agrees in
      (
        agrees,
        wrap (process_command w s r command).0.stats.commands_processed s.stats.commands_processed _
            (answer_count (process_command w s r command).1) _ one.counted total,
      )
