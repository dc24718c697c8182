-- ===== src/Server/Sockets/Tests.antt =====
-- Runs of the HTTP requests, packets and sessions of src/bin/control_plane_server.rs.
use cyan_flame_control_plane.Prelude.{
  none, some, ℕ, ◌+◌, ◌*◌, ◌^◌, ◌%◌, ◌≡◌, refl, arith, as_bytes, true, false, none, some, List, [],
  panic, ◌∷◌, length, All, ◌++◌, ◌⊎◌, inr, err, ok, String, Outcome,
}
use cyan_flame_control_plane.Cache.{new}
use cyan_flame_control_plane.Tcam.{with_strategy}
use cyan_flame_control_plane.Server.Command.{cache_get}
use cyan_flame_control_plane.Server.Json.{Elements, Json, str, array, elements, json, nat}
use cyan_flame_control_plane.Server.Request.{path_of, body_of, is_path}
use cyan_flame_control_plane.Server.Index.{
  get, as_array, chain, GfefIndex, uploaded_index, loaded_index,
}
use cyan_flame_control_plane.Server.Index.Agreement.{loaded_index-uploaded_index}
use cyan_flame_control_plane.Server.Pages.{Predictor}
use cyan_flame_control_plane.Server.Sockets.{Wire, Round, text_message, ping, binary, message_loop}
use cyan_flame_control_plane.Server.Sockets.Rounds.{answers_in, flow_text, flow_binary, flow_ping}
use cyan_flame_control_plane.Server.Sockets.Replies.{BreaksAt, message_loop-replies}
use cyan_flame_control_plane.Server.Sockets.Traffic.{
  Event, request, packet, opening, received, requests_in, packets_in, traffic, traffic-Agrees,
}
use cyan_flame_control_plane.Server.Http.{Reply, Site, handle_http_request}
use cyan_flame_control_plane.Server.Http.Reads.{handle_http_request-Reads}
use cyan_flame_control_plane.Server.Process.Agreement.{Agrees}
use cyan_flame_control_plane.Server.Samples.{whole, around, server, readings}

-- A predictor that keeps the indices.
abbrev shelf : Predictor ℕ (List GfefIndex)
shelf = record {
  read_stats = λ p. record {
    models_loaded = length p;
    total_neurons = 0;
    total_layers = 0;
    target_sparsity = 0;
  };
  register_index = λ p index. index ∷ p;
  singles = whole;
  truncate = λ n. n;
}

abbrev small_index : Json ℕ
small_index = json (
    ("model", str "m")
    ∷ ("layers", array (elements (json (("layer_id", nat 3) ∷ ("name", str "l") ∷ []) ∷ [])))
    ∷ [])

abbrev upload_request : List ℕ
upload_request = as_bytes "POST /v1/index/upload" ++ (13 ∷ 10 ∷ 13 ∷ 10 ∷ as_bytes "{}")

request_parts :
    (path_of upload_request ≡ as_bytes "/v1/index/upload")
    × (body_of upload_request ≡ as_bytes "{}")
unfolding path_of body_of as_bytes
request_parts = (refl, refl)

loaded_index-uploaded_index_example :
    ((xs : Elements ℕ) × (chain (get small_index "layers") as_array ≡ some xs)
      × (loaded_index small_index ≡ ok (uploaded_index small_index)))
    ⊎ ((chain (get small_index "layers") as_array ≡ none)
        × (loaded_index small_index ≡ err "Missing layers array")
        × ((uploaded_index small_index).layers ≡ []))
loaded_index-uploaded_index_example = loaded_index-uploaded_index small_index

abbrev small_site : Site ℕ (List GfefIndex)
small_site = record { internals = server; predictor = [] }

abbrev handled : Site ℕ (List GfefIndex) × Outcome String (Reply ℕ)
handled =
    handle_http_request around shelf (λ body. inr small_index) small_site readings "uuid"
      upload_request

registered_once : length handled.0.predictor ≡ 1
unfolding handle_http_request as_bytes
registered_once = refl

handle_http_request-Reads_example :
    ((reply : Reply ℕ) × (handled.1 ≡ ok reply))
    × (handled.0.internals.cache.entries ≡ [])
    × (handled.0.internals.uao_qtcam ≡ server.uao_qtcam)
    × (handled.0.internals.stats.http_requests ≡ (0 + 1) % 2 ^ 64)
    × ((handled.0.predictor ≡ [])
        ⊎ ((v : Json ℕ) × (is_path (path_of upload_request) "/v1/index/upload" ≡ true)
            × (◌≡◌ {A = String ⊎ Json ℕ} (inr small_index) (inr v))
            × (handled.0.predictor ≡ uploaded_index v ∷ [])))
unfolding new
handle_http_request-Reads_example =
    handle_http_request-Reads around shelf (λ body. inr small_index) small_site readings "uuid"
      upload_request

-- A wire on which every text is the command that reads the key "k".
abbrev lines_only : Wire ℕ
lines_only = record {
  from_str = λ t. inr (cache_get "k");
  from_slice = λ t. inr (cache_get "k");
  lower = λ t. t;
  accept_key = λ key. "accepted";
}

abbrev events : List Event
events =
    request readings "uuid" upload_request
    ∷ packet readings (0 ∷ [])
    ∷ packet readings (as_bytes "12345678{}")
    ∷ opening (as_bytes "sec-websocket-key: abc") true
    ∷ opening (as_bytes "no key") true
    ∷ received (record { readings = readings; sends = true; message = text_message [] })
    ∷ []

two_requests : requests_in lines_only events ≡ 2
unfolding requests_in as_bytes cyan_flame_control_plane.Server.Sockets.ws_key
two_requests = refl

traffic-Agrees_example :
    Agrees (traffic around shelf (λ body. inr small_index) lines_only small_site events).internals
    × ((traffic around shelf
          (λ body. inr small_index)
          lines_only
          small_site
          events).internals.stats.http_requests
        ≡ (0 + requests_in lines_only events) % 2 ^ 64)
    × ((traffic around shelf
          (λ body. inr small_index)
          lines_only
          small_site
          events).internals.stats.vxlan_packets
        ≡ (0 + packets_in events) % 2 ^ 64)
traffic-Agrees_example =
    traffic-Agrees around shelf (λ body. inr small_index) lines_only small_site events
      (record { requests = omega arith; packets = omega arith })
      (unfold new with_strategy in record { hits = refl; misses = refl })

-- A text, a ping and a binary message that is too short.
abbrev rounds : List Round
rounds =
    record { readings = readings; sends = true; message = text_message [] }
    ∷ record { readings = readings; sends = true; message = ping (7 ∷ []) }
    ∷ record { readings = readings; sends = true; message = binary (1 ∷ []) }
    ∷ []

two_answers :
    (answers_in lines_only rounds ≡ 2)
    × (length (message_loop around lines_only server rounds).sent ≡ 2)
unfolding answers_in message_loop new with_strategy cyan_flame_control_plane.Prelude.Dict.lookup
two_answers = (refl, refl)

message_loop-replies_example :
    (((message_loop around lines_only server rounds).outcome ≡ ok tt)
      × (length (message_loop around lines_only server rounds).sent ≡ answers_in lines_only rounds))
    ⊎ BreaksAt around lines_only server rounds
message_loop-replies_example =
    message_loop-replies around lines_only server rounds
      (flow_text readings [], (flow_ping readings (7 ∷ []), (flow_binary readings (1 ∷ []), tt)))
