-- ===== src/Server/Http.antt =====
-- `handle_http_request` and `load_gfef_index` of src/bin/control_plane_server.rs.
pub mod Reads
use cyan_flame_control_plane.Prelude.{
  ℕ, Bool, true, false, ◌||◌, String, List, [], ◌∷◌, Outcome, ok, err, panic, add64, ◌⊎◌, inl, inr,
  ◌==◌, if◌then◌else◌,
}
use cyan_flame_control_plane.Server.Json.{Json}
use cyan_flame_control_plane.Server.Command.{
  ControlCommand, ControlResponse, ServerInternals, Readings, health, stats, get_cascade_stats,
  get_memory_stats, get_bandwidth_stats, cache_stats,
}
use cyan_flame_control_plane.Server.Process.{Surroundings, process_command}
use cyan_flame_control_plane.Server.Request.{path_of, body_of, is_path}
use cyan_flame_control_plane.Server.Index.{GfefIndex, uploaded_index, loaded_index}
use cyan_flame_control_plane.Server.Pages.{
  PredictorStats, Predictor, socket_page, index_page, no_index_page, ready_page, prediction_page,
  empty_page, unreadable_page, uploaded_page,
}

-- The text of a reply is the pretty-printed value or response.
pub data Reply (F : Type 0) : Type 0 where
  page : Json F → Reply F
  response : ControlResponse F → Reply F

-- The server with its predictor.
pub record Site (F P : Type 0) : Type 0 where
  pub internals : ServerInternals F
  pub predictor : P

abbrev pub is_empty : List ℕ → Bool
is_empty [] = true
is_empty (c ∷ s) = false

module _ {F : Type 0} where
  unfoldable pub command_of : List ℕ → ControlCommand F
  unfolding is_path
  command_of path =
      if is_path path "/" || is_path path "/health"
      then health
      else if is_path path "/stats"
      then stats
      else if is_path path "/cascade"
      then get_cascade_stats
      else if is_path path "/memory"
      then get_memory_stats
      else if is_path path "/bandwidth"
      then get_bandwidth_stats
      else if is_path path "/cache/stats"
      then cache_stats
      else health

  abbrev pub counted : ServerInternals F → ServerInternals F
  counted s = record s { stats = record s.stats { http_requests = add64 s.stats.http_requests 1 } }

module _ {F P : Type 0} where
  abbrev pub replied :
      P
      → ServerInternals F × Outcome String (ControlResponse F)
      → Site F P × Outcome String (Reply F)
  replied p (s, ok r) = (record { internals = s; predictor = p }, ok (response r))
  replied p (s, err e) = (record { internals = s; predictor = p }, err e)
  replied p (s, panic) = (record { internals = s; predictor = p }, panic)

module _ {F P : Type 0} (w : Surroundings F) (g : Predictor F P) where
  unfoldable pub predict_page : PredictorStats F → List ℕ → String → Json F
  unfolding no_index_page ready_page prediction_page
  predict_page st body request_id =
      if st.models_loaded == 0
      then no_index_page
      else if is_empty body
      then ready_page st
      else prediction_page g.singles g.truncate st request_id

  -- The index of a body that was parsed is registered.
  unfoldable pub upload : Site F P → String ⊎ Json F → String → Site F P × Outcome String (Reply F)
  unfolding unreadable_page uploaded_page uploaded_index
  upload s (inr v) index_id =
      let index = uploaded_index v in
      let predictor = g.register_index s.predictor index in
      (
        record s { predictor = predictor },
        ok (page (uploaded_page g.singles (g.read_stats predictor) index index_id)),
      )
  upload s (inl e) index_id = (s, ok (page (unreadable_page e)))

  -- The branches for a path and a body. `from_str` is `serde_json::from_str`, and `uuid` the random
  -- identifier of the call.
  unfoldable pub route :
      (List ℕ → String ⊎ Json F)
      → Site F P
      → Readings
      → String
      → List ℕ
      → List ℕ
      → Site F P × Outcome String (Reply F)
  unfolding is_path socket_page index_page predict_page empty_page upload command_of process_command
  route from_str s r uuid path body =
      if is_path path "/ws" || is_path path "/websocket"
      then (s, ok (page socket_page))
      else if is_path path "/v1/indices/stats" || is_path path "/v1/health"
      then (s, ok (page (index_page g.singles (g.read_stats s.predictor))))
      else if is_path path "/v1/predict"
      then (s, ok (page (predict_page (g.read_stats s.predictor) body uuid)))
      else if is_path path "/v1/index/upload"
      then if is_empty body then (s, ok (page empty_page)) else upload s (from_str body) uuid
      else replied s.predictor (process_command w s.internals r (command_of path))

  unfoldable pub handle_http_request :
      (List ℕ → String ⊎ Json F)
      → Site F P
      → Readings
      → String
      → List ℕ
      → Site F P × Outcome String (Reply F)
  unfolding route path_of body_of
  handle_http_request from_str s r uuid request =
      route from_str (record s { internals = counted s.internals }) r uuid (path_of request)
        (body_of request)

  abbrev loading : Site F P → Outcome String GfefIndex → Site F P × Outcome String (Unit {0})
  loading s (ok index) = (record s { predictor = g.register_index s.predictor index }, ok tt)
  loading s (err e) = (s, err e)
  loading s panic = (s, panic)

  -- `load_gfef_index`, of the parsed text of the file.
  unfoldable pub load_gfef_index : Site F P → String ⊎ Json F → Site F P × Outcome String (Unit {0})
  unfolding loaded_index
  load_gfef_index s (inr v) = loading s (loaded_index v)
  load_gfef_index s (inl e) = (s, err e)
