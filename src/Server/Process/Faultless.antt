-- ===== src/Server/Process/Faultless.antt =====
-- `process_command` gives a response or panics: its branches turn every error into a response.
use cyan_flame_control_plane.Prelude.{
  ℕ, Bool, true, false, String, Option, none, some, List, ◌≡◌, Outcome, ok, err, panic, ◌⊎◌, inl,
  inr, refl, as_bytes,
}
use cyan_flame_control_plane.Prelude.Int.{ℤ}
use Prim.Native.String.{◌++◌ as joined}
use cyan_flame_control_plane.Cache as Cache
use cyan_flame_control_plane.Cache.{Cache as UaoQtcamCache}
use cyan_flame_control_plane.Cache.Counter.{incr}
use cyan_flame_control_plane.Tcam.{TcamEngine}
use cyan_flame_control_plane.Server.Engines.{
  SyncError, ControlPlaneLookupResult, sync_lookup, sync_insert_route, sync_delete_route,
}
use cyan_flame_control_plane.Server.Command.{
  ControlCommand, health, stats, get_memory_stats, get_bandwidth_stats, cache_stats,
  get_cascade_stats, get_gfef_status, allocate_memory, free_memory, optimize_bandwidth, lookup,
  insert_route, delete_route, cache_set, cache_get, cache_delete, cache_incr,
  get_calibration_matrix, predict_activation_of, upload_gfef_index, ControlResponse,
  ServerInternals, Readings, Answer,
}
use cyan_flame_control_plane.Server.Branches.{
  Branch, set_branch, get_branch, delete_branch, incr_branch, lookup_branch, insert_branch,
  delete_route_branch, upload_branch, or_stopped,
}
use cyan_flame_control_plane.Server.Process.{Surroundings, branch, respond, process_command, rounds}
use cyan_flame_control_plane.Server.Answers.{predict_answer}
use cyan_flame_control_plane.Server.Predict.{predict_activation}

abbrev IsFaultless : {A : Type 0} → Outcome String A → Type 0
IsFaultless (ok a) = Unit
IsFaultless (err e) = ⊥
IsFaultless panic = Unit

module _ {F : Type 0} (s : ServerInternals F) (key : String) where
  set-Faultless :
      (made : UaoQtcamCache × Outcome String (Unit {0})) → IsFaultless (set_branch s key made).1
  unfolding set_branch
  set-Faultless (c, ok x) = tt
  set-Faultless (c, err e) = tt
  set-Faultless (c, panic) = tt

  upload-Faultless :
      (data_ : String) (made : UaoQtcamCache × Outcome String (Unit {0}))
      → IsFaultless (upload_branch s key data_ made).1
  unfolding upload_branch
  upload-Faultless data_ (c, ok x) = tt
  upload-Faultless data_ (c, err e) = tt
  upload-Faultless data_ (c, panic) = tt

  get-Faultless : (made : UaoQtcamCache × Option (List ℕ)) → IsFaultless (get_branch s key made).1
  unfolding get_branch
  get-Faultless (c, none) = tt
  get-Faultless (c, some value) = tt

  delete-Faultless : (made : UaoQtcamCache × Bool) → IsFaultless (delete_branch s key made).1
  unfolding delete_branch
  delete-Faultless (c, true) = tt
  delete-Faultless (c, false) = tt

  incr-Faultless :
      (made : UaoQtcamCache × Outcome String ℤ) → IsFaultless (incr_branch s key made).1
  unfolding incr_branch
  incr-Faultless (c, ok x) = tt
  incr-Faultless (c, err e) = tt
  incr-Faultless (c, panic) = tt

  lookup-Faultless :
      (made : TcamEngine × Outcome SyncError (Option ControlPlaneLookupResult))
      → IsFaultless (lookup_branch s key made).1
  unfolding lookup_branch
  lookup-Faultless (e, ok x) = tt
  lookup-Faultless (e, err x) = tt
  lookup-Faultless (e, panic) = tt

  insert-Faultless :
      (priority : ℕ) (made : TcamEngine × Outcome SyncError (Unit {0}))
      → IsFaultless (insert_branch s key priority made).1
  unfolding insert_branch
  insert-Faultless priority (e, ok x) = tt
  insert-Faultless priority (e, err x) = tt
  insert-Faultless priority (e, panic) = tt

  delete_route-Faultless :
      (made : TcamEngine × Outcome SyncError (Unit {0}))
      → IsFaultless (delete_route_branch s key made).1
  unfolding delete_route_branch
  delete_route-Faultless (e, ok x) = tt
  delete_route-Faultless (e, err x) = tt
  delete_route-Faultless (e, panic) = tt

-- A branch that ends with no error.
record Ends {F : Type 0} (b : Branch F) : Type 0 where
  faultless : IsFaultless b.1

stopped-Ends : {F : Type 0} (s : ServerInternals F) (a : Option (Answer F)) → Ends (s, or_stopped a)
stopped-Ends s none = record { faultless = tt }
stopped-Ends s (some a) = record { faultless = tt }

ok-Ends : {F : Type 0} (s : ServerInternals F) (a : Answer F) → Ends (s, ok a)
ok-Ends s a = record { faultless = tt }

module _ {F : Type 0} (w : Surroundings F) where
  branch-Ends :
      (s : ServerInternals F) (r : Readings) (command : ControlCommand F)
      → Ends (branch w s r command)
  unfolding branch
  branch-Ends s r health = ok-Ends s _
  branch-Ends s r stats = ok-Ends s _
  branch-Ends s r get_memory_stats = ok-Ends s _
  branch-Ends s r get_bandwidth_stats = ok-Ends s _
  branch-Ends s r get_cascade_stats = ok-Ends s _
  branch-Ends s r get_gfef_status = ok-Ends s _
  branch-Ends s r cache_stats = record { faultless = tt }
  branch-Ends s r (allocate_memory size_bytes region) = ok-Ends s _
  branch-Ends s r (free_memory allocation_id) = ok-Ends s _
  branch-Ends s r (optimize_bandwidth flow_id target_gbps) = ok-Ends s _
  branch-Ends s r (get_calibration_matrix tier) = ok-Ends s _
  branch-Ends s r (predict_activation_of customer_id model_id layer_index input_hash) =
      stopped-Ends s (
        predict_answer w.floats_ customer_id model_id layer_index input_hash
          (predict_activation rounds input_hash layer_index))
  branch-Ends s r (cache_set key value ttl_seconds) = record {
    faultless =
        set-Faultless s key (Cache.set w.score_less s.cache key (as_bytes value) ttl_seconds r.now);
  }
  branch-Ends s r (cache_get key) = record {
    faultless = get-Faultless s key (Cache.get s.cache key r.now);
  }
  branch-Ends s r (cache_delete key) = record {
    faultless = delete-Faultless s key (Cache.delete s.cache key);
  }
  branch-Ends s r (cache_incr key) = record {
    faultless = incr-Faultless s key (incr w.score_less s.cache key r.now);
  }
  branch-Ends s r (lookup key) = record {
    faultless = lookup-Faultless s key (sync_lookup w.collapse w.runtime s.uao_qtcam key);
  }
  branch-Ends s r (insert_route key value priority) = record {
    faultless =
        insert-Faultless s key priority
          (sync_insert_route w.runtime s.uao_qtcam key value priority);
  }
  branch-Ends s r (delete_route key) = record {
    faultless = delete_route-Faultless s key (sync_delete_route w.runtime s.uao_qtcam key);
  }
  branch-Ends s r (upload_gfef_index model_id index_data) = record {
    faultless = upload-Faultless s model_id index_data (
        Cache.set w.score_less s.cache (joined "gfef_index:" model_id) (as_bytes index_data)
          (some 86400) r.now);
  }

  respond-cases :
      (r : Readings) (b : Branch F)
      → IsFaultless b.1
      → ((a : ControlResponse F) × ((respond w r b).1 ≡ ok a)) ⊎ ((respond w r b).1 ≡ panic)
  unfolding respond
  respond-cases r (s, ok a) h = inl (_, refl)
  respond-cases r (s, err e) h = absurd h
  respond-cases r (s, panic) h = inr refl

  -- A command is answered, or its task panics.
  pub process_command-cases :
      (s : ServerInternals F) (r : Readings) (command : ControlCommand F)
      → ((a : ControlResponse F) × ((process_command w s r command).1 ≡ ok a))
        ⊎ ((process_command w s r command).1 ≡ panic)
  unfolding process_command
  process_command-cases s r command =
      respond-cases r (branch w s r command) (branch-Ends s r command).faultless
