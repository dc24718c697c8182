-- ===== src/Server/Branches.antt =====
-- What the branches of `process_command` make of the calls of the cache and the routes.
use cyan_flame_control_plane.Prelude.{
  ℕ, Bool, true, false, String, as_bytes, Option, none, some, List, [], ◌∷◌, length, add64, Outcome,
  ok, err, panic,
}
use cyan_flame_control_plane.Prelude.Int.{ℤ, pos}
use cyan_flame_control_plane.Cache.{Cache as UaoQtcamCache, CacheStats}
use cyan_flame_control_plane.Server.Json.{Json, null, str, lossy, json, nat, int}
use cyan_flame_control_plane.Server.Engines.{SyncError, ControlPlaneLookupResult}
use cyan_flame_control_plane.Server.Command.{text, number, failure, ServerInternals, Answer}
use cyan_flame_control_plane.Server.Answers.{good, bad, cache_stats_answer}
use cyan_flame_control_plane.Tcam.{TcamEngine}

abbrev pub Branch : Type 0 → Type 0
Branch F = ServerInternals F × Outcome String (Answer F)

module _ {F : Type 0} where
  abbrev pub with_cache : ServerInternals F → UaoQtcamCache → ServerInternals F
  with_cache s c = record s { cache = c }

  unfoldable pub set_branch :
      ServerInternals F → String → UaoQtcamCache × Outcome String (Unit {0}) → Branch F
  set_branch s key (c, ok x) =
      (with_cache s c, ok (good (text "Key '" ∷ text key ∷ text "' set successfully" ∷ []) none))
  set_branch s key (c, err e) = (with_cache s c, ok (bad (text "Cache SET error: " ∷ text e ∷ [])))
  set_branch s key (c, panic) = (with_cache s c, panic)

  unfoldable pub get_branch :
      ServerInternals F → String → UaoQtcamCache × Option (List ℕ) → Branch F
  get_branch s key (c, some value) = (
    record s { cache = c; stats = record s.stats { cache_hits = add64 s.stats.cache_hits 1 } },
    ok (
        good (text "Cache hit" ∷ [])
          (some (json (("key", str key) ∷ ("value", lossy value) ∷ [])))),
  )
  get_branch s key (c, none) = (
    record s { cache = c; stats = record s.stats { cache_misses = add64 s.stats.cache_misses 1 } },
    ok (bad (text "Key '" ∷ text key ∷ text "' not found" ∷ [])),
  )

  unfoldable pub delete_branch : ServerInternals F → String → UaoQtcamCache × Bool → Branch F
  delete_branch s key (c, true) =
      (with_cache s c, ok (good (text "Key '" ∷ text key ∷ text "' deleted" ∷ []) none))
  delete_branch s key (c, false) =
      (with_cache s c, ok (bad (text "Key '" ∷ text key ∷ text "' not found" ∷ [])))

  unfoldable pub incr_branch :
      ServerInternals F → String → UaoQtcamCache × Outcome String ℤ → Branch F
  incr_branch s key (c, ok value) = (
    with_cache s c,
    ok (
        good (text "Key '" ∷ text key ∷ text "' incremented to " ∷ number value ∷ [])
          (some (json (("value", int value) ∷ [])))),
  )
  incr_branch s key (c, err e) =
      (with_cache s c, ok (bad (text "Cache INCR error: " ∷ text e ∷ [])))
  incr_branch s key (c, panic) = (with_cache s c, panic)

  abbrev lookup_json : Option ControlPlaneLookupResult → Json F
  lookup_json none = null
  lookup_json (some r) =
      json (("key", str r.key) ∷ ("next_hop", str r.next_hop) ∷ ("phase", str r.phase) ∷ [])

  unfoldable pub lookup_branch :
      ServerInternals F
      → String
      → TcamEngine × Outcome SyncError (Option ControlPlaneLookupResult)
      → Branch F
  lookup_branch s key (e, ok result) = (
    record s { uao_qtcam = e },
    ok (good (text "Lookup result for '" ∷ text key ∷ text "'" ∷ []) (some (lookup_json result))),
  )
  lookup_branch s key (e, err x) =
      (record s { uao_qtcam = e }, ok (bad (text "Lookup error: " ∷ failure x ∷ [])))
  lookup_branch s key (e, panic) = (record s { uao_qtcam = e }, panic)

  unfoldable pub insert_branch :
      ServerInternals F → String → ℕ → TcamEngine × Outcome SyncError (Unit {0}) → Branch F
  insert_branch s key priority (e, ok x) = (
    record s { uao_qtcam = e },
    ok (
        good
          (text "Route '"
            ∷ text key
            ∷ text "' inserted with priority "
            ∷ number (pos priority)
            ∷ [])
          none),
  )
  insert_branch s key priority (e, err x) =
      (record s { uao_qtcam = e }, ok (bad (text "Insert error: " ∷ failure x ∷ [])))
  insert_branch s key priority (e, panic) = (record s { uao_qtcam = e }, panic)

  unfoldable pub delete_route_branch :
      ServerInternals F → String → TcamEngine × Outcome SyncError (Unit {0}) → Branch F
  delete_route_branch s key (e, ok x) = (
    record s { uao_qtcam = e },
    ok (good (text "Route '" ∷ text key ∷ text "' deleted" ∷ []) none),
  )
  delete_route_branch s key (e, err x) =
      (record s { uao_qtcam = e }, ok (bad (text "Delete error: " ∷ failure x ∷ [])))
  delete_route_branch s key (e, panic) = (record s { uao_qtcam = e }, panic)

  unfoldable pub upload_branch :
      ServerInternals F → String → String → UaoQtcamCache × Outcome String (Unit {0}) → Branch F
  upload_branch s model_id index_data (c, ok x) = (
    with_cache s c,
    ok (
        good (text "GFEF index uploaded for model '" ∷ text model_id ∷ text "'" ∷ []) (
          some (
            json (
              ("model_id", str model_id)
              ∷ ("index_size_bytes", nat (length (as_bytes index_data)))
              ∷ ("status", str "stored")
              ∷ [])))),
  )
  upload_branch s model_id index_data (c, err e) =
      (with_cache s c, ok (bad (text "Failed to store GFEF index: " ∷ text e ∷ [])))
  upload_branch s model_id index_data (c, panic) = (with_cache s c, panic)

  -- The fuel of the prediction does not end.
  abbrev pub or_stopped : Option (Answer F) → Outcome String (Answer F)
  or_stopped none = panic
  or_stopped (some a) = ok a

  abbrev pub stats_branch : ServerInternals F → UaoQtcamCache × CacheStats → Branch F
  stats_branch s (c, found) = (with_cache s c, ok (cache_stats_answer c.compression_ratio found))
