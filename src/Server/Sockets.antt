-- ===== src/Server/Sockets.antt =====
-- `handle_vxlan_packet` and `handle_websocket` of src/bin/control_plane_server.rs. The parser of JSON
-- and the accept key, a SHA-1 hash in base64, are parameters; so is `to_lowercase` of a text.
pub mod Steady
pub mod Traffic
pub mod Rounds
pub mod Replies
mod Tests
use cyan_flame_control_plane.Prelude.{
  ℕ, zero, suc, ◌+◌, Bool, true, false, String, as_bytes, Option, none, some, List, [], ◌∷◌, ◌++◌,
  length, ltb, Outcome, ok, err, panic, add64, ◌⊎◌, inl, inr, if◌then◌else◌,
}
use cyan_flame_control_plane.Prelude.Decimal.{split_at}
use cyan_flame_control_plane.Server.Command.{
  ControlCommand, Part, text, ControlResponse, ServerInternals, Readings,
}
use cyan_flame_control_plane.Server.Process.{Surroundings, process_command}
use cyan_flame_control_plane.Server.Request.{strip, without_return, is_whitespace, second}

abbrev pub drop : ℕ → List ℕ → List ℕ
drop zero bs = bs
drop (suc n) [] = []
drop (suc n) (b ∷ bs) = drop n bs

-- The lines of the parts between the line feeds.
abbrev lines_of : List (List ℕ) → List (List ℕ)
lines_of [] = []
lines_of ([] ∷ []) = []
lines_of ((c ∷ s) ∷ []) = (c ∷ s) ∷ []
lines_of (p ∷ q ∷ rest) = without_return p ∷ lines_of (q ∷ rest)

unfoldable pub lines : List ℕ → List (List ℕ)
unfolding split_at
lines s = lines_of (split_at 10 s)

abbrev trim_start : List ℕ → List ℕ
trim_start [] = []
trim_start (c ∷ s) = let rest = trim_start s in if is_whitespace c then rest else c ∷ s

abbrev trim_behind : ℕ → List ℕ → List ℕ
trim_behind c [] = if is_whitespace c then [] else c ∷ []
trim_behind c (d ∷ s) = c ∷ d ∷ s

abbrev trim_end : List ℕ → List ℕ
trim_end [] = []
trim_end (c ∷ s) = trim_behind c (trim_end s)

abbrev is_some {ℓ} : {A : Type ℓ} → Option A → Bool
is_some none = false
is_some (some a) = true

abbrev find {ℓ} : {A : Type ℓ} → (A → Bool) → List A → Option A
find test [] = none
find test (a ∷ rest) = let later = find test rest in if test a then some a else later

abbrev value_in : Option (List ℕ) → Option (List ℕ)
value_in none = none
value_in (some value) = some (trim_start (trim_end value))

abbrev value_of : Option (List ℕ) → Option (List ℕ)
value_of none = none
value_of (some line) = value_in (second (split_at 58 line))

unfoldable pub ws_key : (List ℕ → List ℕ) → List ℕ → Option (List ℕ)
unfolding lines split_at strip as_bytes is_whitespace
ws_key lower request =
    value_of
      (find (λ line. is_some (strip (as_bytes "sec-websocket-key:") (lower line))) (lines request))

-- What comes in on an open session.
pub data Message : Type 0 where
  text_message : List ℕ → Message
  binary : List ℕ → Message
  ping : List ℕ → Message
  close : Message
  other : Message
  failed : Message

-- What the server sends.
pub data Sent (F : Type 0) : Type 0 where
  switched : String → Sent F
  welcome : String → Sent F
  reply_text : ControlResponse F → Sent F
  reply_binary : ControlResponse F → Sent F
  pong : List ℕ → Sent F

-- One round of the loop: the readings of its call, whether its send succeeds, and the message.
pub record Round : Type 0 where
  pub readings : Readings
  pub sends : Bool
  pub message : Message

pub data SessionError : Type 0 where
  missing_key : SessionError
  send_failed : SessionError

-- The state at the end, what was sent, and how the task ends.
pub record Ended (F : Type 0) : Type 0 where
  pub internals : ServerInternals F
  pub sent : List (Sent F)
  pub outcome : Outcome SessionError (Unit {0})

-- `serde_json::from_str` and `from_slice` of a command, `to_lowercase`, and the accept key of a key.
pub record Wire (F : Type 0) : Type 0 where
  pub from_str : List ℕ → String ⊎ ControlCommand F
  pub from_slice : List ℕ → String ⊎ ControlCommand F
  pub lower : List ℕ → List ℕ
  pub accept_key : List ℕ → String

module _ {F : Type 0} where
  abbrev pub ended : ServerInternals F → Outcome SessionError (Unit {0}) → Ended F
  ended s o = record { internals = s; sent = []; outcome = o }

  -- A session that ends here.
  abbrev pub last : ServerInternals F → Ended F
  last s = ended s (ok tt)

  -- A send, and what goes on behind it.
  abbrev pub sending : Bool → Sent F → ServerInternals F → Ended F → Ended F
  sending true m s rest = record rest { sent = m ∷ rest.sent }
  sending false m s rest = ended s (err send_failed)

  -- The answer of a command is sent; `process_command` gives no error.
  unfoldable pub answering :
      (ControlResponse F → Sent F)
      → Bool
      → (ServerInternals F → Ended F)
      → ServerInternals F × Outcome String (ControlResponse F)
      → Ended F
  answering reply sends go (s, ok a) = sending sends (reply a) s (go s)
  answering reply sends go (s, err e) = ended s panic
  answering reply sends go (s, panic) = ended s panic

  abbrev pub invalid : String → ControlResponse F
  invalid e = record {
    success = false;
    message = text "Invalid command: " ∷ text e ∷ [];
    payload = none;
    latency_ns = 0;
  }

  abbrev pub request_counted : ServerInternals F → ServerInternals F
  request_counted s = record s {
    stats = record s.stats { http_requests = add64 s.stats.http_requests 1 };
  }

  abbrev pub packet_counted : ServerInternals F → ServerInternals F
  packet_counted s = record s {
    stats = record s.stats { vxlan_packets = add64 s.stats.vxlan_packets 1 };
  }

module _ {F : Type 0} (w : Surroundings F) (wire : Wire F) where
  unfoldable pub text_round :
      ServerInternals F
      → Readings
      → Bool
      → (ServerInternals F → Ended F)
      → String ⊎ ControlCommand F
      → Ended F
  unfolding answering process_command
  text_round s r sends go (inr command) =
      answering reply_text sends go (process_command w s r command)
  text_round s r sends go (inl e) = sending sends (reply_text (invalid e)) s (go s)

  unfoldable pub binary_round :
      ServerInternals F
      → Readings
      → Bool
      → (ServerInternals F → Ended F)
      → String ⊎ ControlCommand F
      → Ended F
  unfolding answering process_command
  binary_round s r sends go (inr command) =
      answering reply_binary sends go (process_command w s r command)
  binary_round s r sends go (inl e) = go s

  unfoldable pub round :
      ServerInternals F → Readings → Bool → (ServerInternals F → Ended F) → Message → Ended F
  unfolding text_round binary_round
  round s r sends go (text_message t) = text_round s r sends go (wire.from_str t)
  round s r sends go (binary bytes) =
      if ltb 8 (length bytes)
      then binary_round s r sends go (wire.from_slice (drop 8 bytes))
      else go s
  round s r sends go (ping bytes) = sending sends (pong bytes) s (go s)
  round s r sends go close = ended s (ok tt)
  round s r sends go failed = ended s (ok tt)
  round s r sends go other = go s

  unfoldable pub message_loop : ServerInternals F → List Round → Ended F
  unfolding round
  message_loop s [] = ended s (ok tt)
  message_loop s (x ∷ xs) = round s x.readings x.sends (λ s'. message_loop s' xs) x.message

  abbrev pub handshake : ServerInternals F → Bool → List Round → Option (List ℕ) → Ended F
  handshake s sends rounds none = ended s (err missing_key)
  handshake s sends rounds (some key) =
      sending sends (switched (wire.accept_key key)) s
        (sending sends (welcome w.version) s (message_loop (request_counted s) rounds))

  -- `sends` says whether the two messages of the handshake can be sent.
  unfoldable pub handle_websocket : ServerInternals F → List ℕ → Bool → List Round → Ended F
  unfolding ws_key message_loop
  handle_websocket s request sends rounds = handshake s sends rounds (ws_key wire.lower request)

  -- The answer is dropped.
  abbrev pub dropping :
      ServerInternals F × Outcome String (ControlResponse F)
      → ServerInternals F × Outcome String (Unit {0})
  dropping (s, ok a) = (s, ok tt)
  dropping (s, err e) = (s, err e)
  dropping (s, panic) = (s, panic)

  abbrev pub packet_command :
      ServerInternals F
      → Readings
      → String ⊎ ControlCommand F
      → ServerInternals F × Outcome String (Unit {0})
  packet_command s r (inl e) = (s, ok tt)
  packet_command s r (inr command) = dropping (process_command w s r command)

  unfoldable pub handle_vxlan_packet :
      ServerInternals F → Readings → List ℕ → ServerInternals F × Outcome String (Unit {0})
  unfolding process_command
  handle_vxlan_packet s r packet =
      if ltb (length packet) 8
      then (packet_counted s, ok tt)
      else packet_command (packet_counted s) r (wire.from_slice (drop 8 packet))
