-- ===== src/Server/Http/Reads.antt =====
-- What an HTTP request can change.
use cyan_flame_control_plane.Prelude.{
  ℕ, ◌+◌, ◌≡◌, refl, true, ◌||◌, ◌⊎◌, inl, inr, if-holds, if◌then◌else◌, String, List, Outcome, ok,
  ◌%◌, ◌^◌,
}
use cyan_flame_control_plane.Cache.{serve_stats}
use cyan_flame_control_plane.Server.Json.{Json}
use cyan_flame_control_plane.Server.Command.{
  ControlCommand, ControlResponse, ServerInternals, Readings, health, stats, get_cascade_stats,
  get_memory_stats, get_bandwidth_stats, cache_stats,
}
use cyan_flame_control_plane.Server.Process.{Surroundings, branch, respond, process_command}
use cyan_flame_control_plane.Server.Request.{path_of, body_of, is_path}
use cyan_flame_control_plane.Server.Index.{uploaded_index}
use cyan_flame_control_plane.Server.Pages.{Predictor, socket_page, index_page, empty_page}
use cyan_flame_control_plane.Server.Http.{
  Reply, page, response, Site, command_of, replied, counted, predict_page, upload, route, is_empty,
  handle_http_request,
}

module _ {F : Type 0} (w : Surroundings F) where
  -- A command that is answered and keeps the entries, the routes and the number of requests.
  pub record IsReading (command : ControlCommand F) : Type 0 where
    pub reads :
        (s : ServerInternals F) (r : Readings)
        → ((answer : ControlResponse F) × ((process_command w s r command).1 ≡ ok answer))
          × ((process_command w s r command).0.cache.entries ≡ s.cache.entries)
          × ((process_command w s r command).0.uao_qtcam ≡ s.uao_qtcam)
          × ((process_command w s r command).0.stats.http_requests ≡ s.stats.http_requests)

  health-IsReading : IsReading health
  unfolding process_command respond branch
  health-IsReading = record { reads = λ s r. ((_, refl), refl, refl, refl) }

  stats-IsReading : IsReading stats
  unfolding process_command respond branch
  stats-IsReading = record { reads = λ s r. ((_, refl), refl, refl, refl) }

  get_cascade_stats-IsReading : IsReading get_cascade_stats
  unfolding process_command respond branch
  get_cascade_stats-IsReading = record { reads = λ s r. ((_, refl), refl, refl, refl) }

  get_memory_stats-IsReading : IsReading get_memory_stats
  unfolding process_command respond branch
  get_memory_stats-IsReading = record { reads = λ s r. ((_, refl), refl, refl, refl) }

  get_bandwidth_stats-IsReading : IsReading get_bandwidth_stats
  unfolding process_command respond branch
  get_bandwidth_stats-IsReading = record { reads = λ s r. ((_, refl), refl, refl, refl) }

  cache_stats-IsReading : IsReading cache_stats
  unfolding process_command respond branch serve_stats
  cache_stats-IsReading = record { reads = λ s r. ((_, refl), refl, refl, refl) }

  command_of-IsReading : (path : List ℕ) → IsReading (command_of path)
  unfolding command_of
  command_of-IsReading path =
      if-holds IsReading _ _ _ (λ e. health-IsReading)
        (if-holds IsReading _ _ _ (λ e. stats-IsReading)
          (if-holds IsReading _ _ _ (λ e. get_cascade_stats-IsReading)
            (if-holds IsReading _ _ _ (λ e. get_memory_stats-IsReading)
              (if-holds IsReading _ _ _ (λ e. get_bandwidth_stats-IsReading)
                (if-holds IsReading _ _ _ (λ e. cache_stats-IsReading) health-IsReading)))))

module _ {F P : Type 0} (w : Surroundings F) (g : Predictor F P)
    (from_str : List ℕ → String ⊎ Json F) where
  -- The request is answered; entries, routes and the number of requests stay; and the predictor stays
  -- or has got the index of the body.
  record Reads (s : Site F P) (path body : List ℕ) (out : Site F P × Outcome String (Reply F))
      : Type 0 where
    answered : (reply : Reply F) × (out.1 ≡ ok reply)
    entries : out.0.internals.cache.entries ≡ s.internals.cache.entries
    routes : out.0.internals.uao_qtcam ≡ s.internals.uao_qtcam
    requests : out.0.internals.stats.http_requests ≡ s.internals.stats.http_requests
    registered :
        (out.0.predictor ≡ s.predictor)
        ⊎ ((v : Json F) × (is_path path "/v1/index/upload" ≡ true)
            × (from_str body ≡ inr v)
            × (out.0.predictor ≡ g.register_index s.predictor (uploaded_index v)))

  paged :
      (s : Site F P) (path body : List ℕ) (value : Json F) → Reads s path body (s, ok (page value))
  paged s path body value = record {
    answered = (_, refl);
    entries = refl;
    routes = refl;
    requests = refl;
    registered = inl refl;
  }

  replied-Reads :
      (s : Site F P) (path body : List ℕ)
      (out : ServerInternals F × Outcome String (ControlResponse F))
      → ((answer : ControlResponse F) × (out.1 ≡ ok answer))
        × (out.0.cache.entries ≡ s.internals.cache.entries)
        × (out.0.uao_qtcam ≡ s.internals.uao_qtcam)
        × (out.0.stats.http_requests ≡ s.internals.stats.http_requests)
      → Reads s path body (replied s.predictor out)
  replied-Reads s path body (i, o) ((answer, e), entries, routes, requests) = record {
    answered = rw e (response answer, refl);
    entries = rw e entries;
    routes = rw e routes;
    requests = rw e requests;
    registered = rw e (inl refl);
  }

  upload-Reads :
      (s : Site F P) (path body : List ℕ) (uuid : String) (parsed : String ⊎ Json F)
      → is_path path "/v1/index/upload" ≡ true
      → from_str body ≡ parsed
      → Reads s path body (upload w g s parsed uuid)
  unfolding upload
  upload-Reads s path body uuid (inl e) here eq = paged s path body _
  upload-Reads s path body uuid (inr v) here eq = record {
    answered = (_, refl);
    entries = refl;
    routes = refl;
    requests = refl;
    registered = inr (v, here, eq, refl);
  }

  uploading-Reads :
      (s : Site F P) (path body : List ℕ) (uuid : String)
      → is_path path "/v1/index/upload" ≡ true
      → Reads s path body
          (if is_empty body then (s, ok (page empty_page)) else upload w g s (from_str body) uuid)
  uploading-Reads s path body uuid here =
      if-holds (Reads s path body) _ _ _ (λ e. paged s path body _)
        (upload-Reads s path body uuid (from_str body) here refl)

  route-Reads :
      (s : Site F P) (r : Readings) (uuid : String) (path body : List ℕ)
      → Reads s path body (route w g from_str s r uuid path body)
  unfolding route
  route-Reads s r uuid path body =
      let reads = Reads s path body in
      let socket = socket_page {F = F} in
      let indices = index_page g.singles (g.read_stats s.predictor) in
      let predicted = predict_page w g (g.read_stats s.predictor) body uuid in
      let command = process_command w s.internals r (command_of path) in
      if-holds reads (is_path path "/ws" || is_path path "/websocket") (s, ok (page socket)) _
        (λ e. paged s path body socket)
        (if-holds reads (is_path path "/v1/indices/stats" || is_path path "/v1/health")
          (s, ok (page indices)) _ (λ e. paged s path body indices)
          (if-holds reads (is_path path "/v1/predict") (s, ok (page predicted)) _
            (λ e. paged s path body predicted)
            (if-holds reads (is_path path "/v1/index/upload") _ _
              (λ here. uploading-Reads s path body uuid here)
              (replied-Reads s path body command
                ((command_of-IsReading w path).reads s.internals r)))))

  -- Whatever the text of a request, it is answered, the cache keeps its entries and the routing engine
  -- its tables, and the request is counted modulo 2^64. The predictor stays, or the path is
  -- /v1/index/upload and the predictor has got the index of the JSON value that the body is read as.
  pub handle_http_request-Reads :
      (s : Site F P) (r : Readings) (uuid : String) (request : List ℕ)
      → ((reply : Reply F) × ((handle_http_request w g from_str s r uuid request).1 ≡ ok reply))
        × ((handle_http_request w g from_str s r uuid request).0.internals.cache.entries
            ≡ s.internals.cache.entries)
        × ((handle_http_request w g from_str s r uuid request).0.internals.uao_qtcam
            ≡ s.internals.uao_qtcam)
        × ((handle_http_request w g from_str s r uuid request).0.internals.stats.http_requests
            ≡ (s.internals.stats.http_requests + 1) % 2 ^ 64)
        × (((handle_http_request w g from_str s r uuid request).0.predictor ≡ s.predictor)
            ⊎ ((v : Json F) × (is_path (path_of request) "/v1/index/upload" ≡ true)
                × (from_str (body_of request) ≡ inr v)
                × ((handle_http_request w g from_str s r uuid request).0.predictor
                    ≡ g.register_index s.predictor (uploaded_index v))))
  unfolding handle_http_request
  handle_http_request-Reads s r uuid request =
      let h =
        route-Reads (record { internals = counted s.internals; predictor = s.predictor }) r uuid
          (path_of request) (body_of request) in
      (h.answered, h.entries, h.routes, h.requests, h.registered)
