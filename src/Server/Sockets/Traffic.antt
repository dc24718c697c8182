-- ===== src/Server/Sockets/Traffic.antt =====
-- The counters of the server over any traffic of HTTP requests, VXLAN packets and WebSocket messages.
-- The commands of the traffic are taken one after the other.
use cyan_flame_control_plane.Prelude.{
  ℕ, ◌+◌, ◌%◌, ◌^◌, ◌<◌, ◌≡◌, refl, arith, Bool, true, false, String, Option, none, some, List, [],
  ◌∷◌, length, ltb, Outcome, ok, err, panic, ◌⊎◌, inl, inr, if-holds,
}
use cyan_flame_control_plane.Server.Json.{Json}
use cyan_flame_control_plane.Server.Command.{
  ControlCommand, ControlResponse, ServerInternals, Readings,
}
use cyan_flame_control_plane.Server.Process.{Surroundings, process_command}
use cyan_flame_control_plane.Server.Process.Agreement.{Agrees}
use cyan_flame_control_plane.Server.Pages.{Predictor}
use cyan_flame_control_plane.Server.Request.{path_of, body_of}
use cyan_flame_control_plane.Server.Http.{Site, counted, handle_http_request}
use cyan_flame_control_plane.Server.Sockets.{
  Round, Wire, drop, last, packet_counted, round, ws_key, message_loop, handle_websocket, handshake,
  packet_command, dropping, handle_vxlan_packet,
}
use cyan_flame_control_plane.Server.Sockets.Steady.{
  Steady, same-Steady, command-Steady, route-Steady, round-Steady,
}

-- What reaches the server. The messages of several sessions may stand between each other.
pub data Event : Type 0 where
  request : Readings → String → List ℕ → Event
  packet : Readings → List ℕ → Event
  opening : List ℕ → Bool → Event
  received : Round → Event

abbrev opened : Bool → Option (List ℕ) → ℕ
opened true (some key) = 1
opened true none = 0
opened false (some key) = 0
opened false none = 0

-- An HTTP request and a session that is opened are counted as requests.
unfoldable pub requests_of : {F : Type 0} → Wire F → Event → ℕ
requests_of wire (request r uuid x) = 1
requests_of wire (packet r bytes) = 0
requests_of wire (opening x sends) = opened sends (ws_key wire.lower x)
requests_of wire (received x) = 0

unfoldable pub packets_of : Event → ℕ
packets_of (request r uuid x) = 0
packets_of (packet r bytes) = 1
packets_of (opening x sends) = 0
packets_of (received x) = 0

unfoldable pub requests_in : {F : Type 0} → Wire F → List Event → ℕ
unfolding requests_of
requests_in wire [] = 0
requests_in wire (x ∷ xs) = requests_of wire x + requests_in wire xs

unfoldable pub packets_in : List Event → ℕ
unfolding packets_of
packets_in [] = 0
packets_in (x ∷ xs) = packets_of x + packets_in xs

-- Behind `q` requests and `p` packets.
record Tallied {F : Type 0} (q p : ℕ) (s s' : ServerInternals F) : Type 0 where
  agrees : Agrees s'
  requests : s'.stats.http_requests ≡ (s.stats.http_requests + q) % 2 ^ 64
  packets : s'.stats.vxlan_packets ≡ (s.stats.vxlan_packets + p) % 2 ^ 64

-- The counters are 64-bit numbers.
pub record IsWord {F : Type 0} (s : ServerInternals F) : Type 0 where
  pub requests : s.stats.http_requests < 2 ^ 64
  pub packets : s.stats.vxlan_packets < 2 ^ 64

Steady-Tallied : {F : Type 0} (s s' : ServerInternals F) → IsWord s → Steady s s' → Tallied 0 0 s s'
Steady-Tallied s s' small h = record {
  agrees = h.agrees;
  requests = omega (arith, h.requests, small.requests);
  packets = omega (arith, h.packets, small.packets);
}

Tallied-IsWord : {F : Type 0} (q p : ℕ) (s s' : ServerInternals F) → Tallied q p s s' → IsWord s'
Tallied-IsWord q p s s' h = record {
  requests = omega (arith, h.requests);
  packets = omega (arith, h.packets);
}

wrap : (a b c n m : ℕ) → b ≡ (a + n) % 2 ^ 64 → c ≡ (b + m) % 2 ^ 64 → c ≡ (a + (n + m)) % 2 ^ 64
wrap a b c n m eb ec = omega (arith, eb, ec)

Tallied-trans :
    {F : Type 0} (q p q' p' : ℕ) (s s' s'' : ServerInternals F)
    → Tallied q p s s'
    → Tallied q' p' s' s''
    → Tallied (q + q') (p + p') s s''
Tallied-trans q p q' p' s s' s'' h h' = record {
  agrees = h'.agrees;
  requests = wrap _ _ _ q q' h.requests h'.requests;
  packets = wrap _ _ _ p p' h.packets h'.packets;
}

module _ {F P : Type 0} (w : Surroundings F) (g : Predictor F P) (parse : List ℕ → String ⊎ Json F)
    (wire : Wire F) where
  unfoldable pub step : Site F P → Event → Site F P
  unfolding handle_http_request handle_vxlan_packet handle_websocket round
  step s (request r uuid x) = (handle_http_request w g parse s r uuid x).0
  step s (packet r bytes) = record s {
    internals = (handle_vxlan_packet w wire s.internals r bytes).0;
  }
  step s (opening x sends) = record s {
    internals = (handle_websocket w wire s.internals x sends []).internals;
  }
  step s (received x) = record s {
    internals = (round w wire s.internals x.readings x.sends last x.message).internals;
  }

  unfoldable pub traffic : Site F P → List Event → Site F P
  unfolding step
  traffic s [] = s
  traffic s (x ∷ xs) = traffic (step s x) xs

  counted-Tallied : (s t : ServerInternals F) → IsWord s → Steady (counted s) t → Tallied 1 0 s t
  counted-Tallied s t small h = record {
    agrees = h.agrees;
    requests = h.requests;
    packets = omega (arith, h.packets, small.packets);
  }

  counted-Agrees : (s : ServerInternals F) → Agrees s → Agrees (counted s)
  counted-Agrees s a = record { hits = a.hits; misses = a.misses }

  packet_counted-Agrees : (s : ServerInternals F) → Agrees s → Agrees (packet_counted s)
  packet_counted-Agrees s a = record { hits = a.hits; misses = a.misses }

  packet-Tallied :
      (s t : ServerInternals F) → IsWord s → Steady (packet_counted s) t → Tallied 0 1 s t
  packet-Tallied s t small h = record {
    agrees = h.agrees;
    requests = omega (arith, h.requests, small.requests);
    packets = h.packets;
  }

  dropping-state :
      (out : ServerInternals F × Outcome String (ControlResponse F))
      → (dropping w wire out).0 ≡ out.0
  dropping-state (s, ok a) = refl
  dropping-state (s, err e) = refl
  dropping-state (s, panic) = refl

  packet_command-Steady :
      (s : ServerInternals F) (r : Readings) (parsed : String ⊎ ControlCommand F)
      → Agrees s
      → Steady s (packet_command w wire s r parsed).0
  packet_command-Steady s r (inl e) a = same-Steady s a
  packet_command-Steady s r (inr command) a =
      rw (dropping-state (process_command w s r command)) (command-Steady w s r command a)

  vxlan-Tallied :
      (s : ServerInternals F) (r : Readings) (bytes : List ℕ)
      → IsWord s
      → Agrees s
      → Tallied 0 1 s (handle_vxlan_packet w wire s r bytes).0
  unfolding handle_vxlan_packet
  vxlan-Tallied s r bytes small a =
      if-holds (λ (out : ServerInternals F × Outcome String (Unit {0})). Tallied 0 1 s out.0)
        (ltb (length bytes) 8) (packet_counted s, ok tt)
        (packet_command w wire (packet_counted s) r (wire.from_slice (drop 8 bytes)))
        (λ e.
          packet-Tallied s (packet_counted s) small
            (same-Steady (packet_counted s) (packet_counted-Agrees s a)))
        (packet-Tallied s _ small (
          packet_command-Steady (packet_counted s) r (wire.from_slice (drop 8 bytes))
            (packet_counted-Agrees s a)))

  handshake-Tallied :
      (s : ServerInternals F) (sends : Bool) (key : Option (List ℕ))
      → IsWord s
      → Agrees s
      → Tallied (opened sends key) 0 s (handshake w wire s sends [] key).internals
  unfolding message_loop
  handshake-Tallied s true (some key) small a =
      counted-Tallied s (counted s) small (same-Steady (counted s) (counted-Agrees s a))
  handshake-Tallied s true none small a = Steady-Tallied s s small (same-Steady s a)
  handshake-Tallied s false (some key) small a = Steady-Tallied s s small (same-Steady s a)
  handshake-Tallied s false none small a = Steady-Tallied s s small (same-Steady s a)

  http-Tallied :
      (s : Site F P) (r : Readings) (uuid : String) (x : List ℕ)
      → IsWord s.internals
      → Agrees s.internals
      → Tallied 1 0 s.internals (handle_http_request w g parse s r uuid x).0.internals
  unfolding handle_http_request
  http-Tallied s r uuid x small a =
      counted-Tallied s.internals _ small
        (route-Steady w g parse wire
          (record { internals = counted s.internals; predictor = s.predictor }) r uuid (path_of x)
          (body_of x) (counted-Agrees s.internals a)).steady

  step-Tallied :
      (s : Site F P) (x : Event)
      → IsWord s.internals
      → Agrees s.internals
      → Tallied (requests_of wire x) (packets_of x) s.internals (step s x).internals
  unfolding step requests_of packets_of handle_websocket
  step-Tallied s (request r uuid x) small a = http-Tallied s r uuid x small a
  step-Tallied s (packet r bytes) small a = vxlan-Tallied s.internals r bytes small a
  step-Tallied s (opening x sends) small a =
      handshake-Tallied s.internals sends (ws_key wire.lower x) small a
  step-Tallied s (received x) small a =
      Steady-Tallied s.internals _ small
        (round-Steady w g parse wire s.internals x.readings x.sends x.message a).steady

  traffic-Tallied :
      (s : Site F P) (xs : List Event)
      → IsWord s.internals
      → Agrees s.internals
      → Tallied (requests_in wire xs) (packets_in xs) s.internals (traffic s xs).internals
  unfolding traffic requests_in packets_in
  traffic-Tallied s [] small a =
      Steady-Tallied s.internals s.internals small (same-Steady s.internals a)
  traffic-Tallied s (x ∷ xs) small a =
      let one = step-Tallied s x small a in
      let rest =
        traffic-Tallied (step s x) xs
          (Tallied-IsWord (requests_of wire x) (packets_of x) s.internals _ one) one.agrees in
      Tallied-trans (requests_of wire x) (packets_of x) _ _ s.internals (step s x).internals _ one
        rest

  -- Over any traffic on a server whose counters are 64-bit numbers and whose counters of hits and misses
  -- agree with those of its cache, they agree at the end; the counter of requests has grown by the
  -- number of the HTTP requests and of the WebSocket sessions that were opened, and that of packets
  -- by the number of the packets, modulo 2^64.
  pub traffic-Agrees :
      (s : Site F P) (xs : List Event)
      → IsWord s.internals
      → Agrees s.internals
      → Agrees (traffic s xs).internals
        × ((traffic s xs).internals.stats.http_requests
            ≡ (s.internals.stats.http_requests + requests_in wire xs) % 2 ^ 64)
        × ((traffic s xs).internals.stats.vxlan_packets
            ≡ (s.internals.stats.vxlan_packets + packets_in xs) % 2 ^ 64)
  traffic-Agrees s xs small a =
      let h = traffic-Tallied s xs small a in (h.agrees, h.requests, h.packets)
