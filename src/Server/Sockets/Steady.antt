-- ===== src/Server/Sockets/Steady.antt =====
-- The counters behind one HTTP request and one WebSocket message.
use cyan_flame_control_plane.Prelude.{
  ℕ, ◌≡◌, refl, Bool, true, false, ◌||◌, String, List, length, ltb, Outcome, ok, err, panic, ◌⊎◌,
  inl, inr, if-holds, if◌then◌else◌,
}
use cyan_flame_control_plane.Server.Json.{Json}
use cyan_flame_control_plane.Server.Command.{
  ControlCommand, ControlResponse, ServerInternals, Readings,
}
use cyan_flame_control_plane.Server.Branches.{Branch}
use cyan_flame_control_plane.Server.Process.{Surroundings, branch, respond, process_command}
use cyan_flame_control_plane.Server.Process.Agreement.{Agrees, Sound}
use cyan_flame_control_plane.Server.Process.Counters.{branch-Sound}
use cyan_flame_control_plane.Server.Pages.{Predictor, socket_page, index_page, empty_page}
use cyan_flame_control_plane.Server.Request.{is_path}
use cyan_flame_control_plane.Server.Http.{
  Reply, page, Site, is_empty, upload, replied, route, predict_page, command_of,
}
use cyan_flame_control_plane.Server.Sockets.{
  Message, text_message, binary, ping, close, other, failed, Sent, Ended, Wire, drop, ended, last,
  sending, answering, text_round, binary_round, round, reply_text, reply_binary, pong, invalid,
}

module _ {F : Type 0} where
  -- The counters of hits and misses agree, and the numbers of requests and packets have stayed.
  pub record Steady (s s' : ServerInternals F) : Type 0 where
    pub agrees : Agrees s'
    pub requests : s'.stats.http_requests ≡ s.stats.http_requests
    pub packets : s'.stats.vxlan_packets ≡ s.stats.vxlan_packets

  pub same-Steady : (s : ServerInternals F) → Agrees s → Steady s s
  same-Steady s a = record { agrees = a; requests = refl; packets = refl }

  respond-Steady :
      (w : Surroundings F) (s : ServerInternals F) (r : Readings) (b : Branch F)
      → Sound s b
      → Steady s (respond w r b).0
  unfolding respond
  respond-Steady w s r (s', ok a) h = record {
    agrees = record { hits = h.agrees.hits; misses = h.agrees.misses };
    requests = h.requests;
    packets = h.packets;
  }
  respond-Steady w s r (s', err e) h = record {
    agrees = h.agrees;
    requests = h.requests;
    packets = h.packets;
  }
  respond-Steady w s r (s', panic) h = record {
    agrees = h.agrees;
    requests = h.requests;
    packets = h.packets;
  }

  pub command-Steady :
      (w : Surroundings F) (s : ServerInternals F) (r : Readings) (command : ControlCommand F)
      → Agrees s
      → Steady s (process_command w s r command).0
  unfolding process_command
  command-Steady w s r command a =
      respond-Steady w s r (branch w s r command) (branch-Sound w s r command a)

  sending-internals :
      (sends : Bool) (m : Sent F) (s : ServerInternals F)
      → (sending sends m s (ended s (ok tt))).internals ≡ s
  sending-internals true m s = refl
  sending-internals false m s = refl

  -- The state behind an answer is that behind the command.
  answering-internals :
      (reply : ControlResponse F → Sent F) (sends : Bool)
      (out : ServerInternals F × Outcome String (ControlResponse F))
      → (answering reply sends (λ s. ended s (ok tt)) out).internals ≡ out.0
  unfolding answering
  answering-internals reply sends (s, ok a) = sending-internals sends (reply a) s
  answering-internals reply sends (s, err e) = refl
  answering-internals reply sends (s, panic) = refl

module _ {F P : Type 0} (w : Surroundings F) (g : Predictor F P) (parse : List ℕ → String ⊎ Json F)
    (wire : Wire F) where
  upload-internals :
      (s : Site F P) (parsed : String ⊎ Json F) (uuid : String)
      → (upload w g s parsed uuid).0.internals ≡ s.internals
  unfolding upload
  upload-internals s (inl e) uuid = refl
  upload-internals s (inr v) uuid = refl

  replied-internals :
      (p : P) (out : ServerInternals F × Outcome String (ControlResponse F))
      → (replied p out).0.internals ≡ out.0
  replied-internals p (s, ok a) = refl
  replied-internals p (s, err e) = refl
  replied-internals p (s, panic) = refl

  pub record SteadySite (s : Site F P) (out : Site F P × Outcome String (Reply F)) : Type 0 where
    pub steady : Steady s.internals out.0.internals

  paged-Steady :
      (s : Site F P) (value : Json F) → Agrees s.internals → SteadySite s (s, ok (page value))
  paged-Steady s value a = record { steady = same-Steady s.internals a }

  uploaded-Steady :
      (s : Site F P) (body : List ℕ) (uuid : String)
      → Agrees s.internals
      → SteadySite s
          (if is_empty body then (s, ok (page empty_page)) else upload w g s (parse body) uuid)
  uploaded-Steady s body uuid a =
      if-holds (SteadySite s) (is_empty body) _ (upload w g s (parse body) uuid)
        (λ e. paged-Steady s empty_page a)
        (record { steady = rw (upload-internals s (parse body) uuid) (same-Steady s.internals a) })

  pub route-Steady :
      (s : Site F P) (r : Readings) (uuid : String) (path body : List ℕ)
      → Agrees s.internals
      → SteadySite s (route w g parse s r uuid path body)
  unfolding route
  route-Steady s r uuid path body a =
      let steady = SteadySite s in
      let socket = socket_page {F = F} in
      let indices = index_page g.singles (g.read_stats s.predictor) in
      let predicted = predict_page w g (g.read_stats s.predictor) body uuid in
      if-holds steady (is_path path "/ws" || is_path path "/websocket") (s, ok (page socket)) _
        (λ e. paged-Steady s socket a)
        (if-holds steady (is_path path "/v1/indices/stats" || is_path path "/v1/health")
          (s, ok (page indices)) _ (λ e. paged-Steady s indices a)
          (if-holds steady (is_path path "/v1/predict") (s, ok (page predicted)) _
            (λ e. paged-Steady s predicted a)
            (if-holds steady (is_path path "/v1/index/upload") _ _
              (λ here. uploaded-Steady s body uuid a)
              (record {
                steady =
                    rw
                      (replied-internals s.predictor
                        (process_command w s.internals r (command_of path)))
                      (command-Steady w s.internals r (command_of path) a);
              }))))

  text_round-Steady :
      (s : ServerInternals F) (r : Readings) (sends : Bool) (parsed : String ⊎ ControlCommand F)
      → Agrees s
      → Steady s (text_round w wire s r sends last parsed).internals
  unfolding text_round
  text_round-Steady s r sends (inr command) a =
      rw (answering-internals reply_text sends (process_command w s r command))
        (command-Steady w s r command a)
  text_round-Steady s r sends (inl e) a =
      rw (sending-internals sends (reply_text (invalid e)) s) (same-Steady s a)

  binary_round-Steady :
      (s : ServerInternals F) (r : Readings) (sends : Bool) (parsed : String ⊎ ControlCommand F)
      → Agrees s
      → Steady s (binary_round w wire s r sends last parsed).internals
  unfolding binary_round
  binary_round-Steady s r sends (inr command) a =
      rw (answering-internals reply_binary sends (process_command w s r command))
        (command-Steady w s r command a)
  binary_round-Steady s r sends (inl e) a = same-Steady s a

  pub record SteadyEnd (s : ServerInternals F) (out : Ended F) : Type 0 where
    pub steady : Steady s out.internals

  pub round-Steady :
      (s : ServerInternals F) (r : Readings) (sends : Bool) (m : Message)
      → Agrees s
      → SteadyEnd s (round w wire s r sends last m)
  unfolding round
  round-Steady s r sends (text_message t) a = record {
    steady = text_round-Steady s r sends (wire.from_str t) a;
  }
  round-Steady s r sends (binary bytes) a =
      if-holds (SteadyEnd s) (ltb 8 (length bytes))
        (binary_round w wire s r sends last (wire.from_slice (drop 8 bytes))) (last s)
        (λ e. record { steady = binary_round-Steady s r sends (wire.from_slice (drop 8 bytes)) a })
        (record { steady = same-Steady s a })
  round-Steady s r sends (ping bytes) a = record {
    steady = rw (sending-internals sends (pong bytes) s) (same-Steady s a);
  }
  round-Steady s r sends close a = record { steady = same-Steady s a }
  round-Steady s r sends failed a = record { steady = same-Steady s a }
  round-Steady s r sends other a = record { steady = same-Steady s a }
