-- ===== src/Server/Sockets/Rounds.antt =====
-- What one round of an open WebSocket session sends.
use cyan_flame_control_plane.Prelude.{
  ℕ, ◌+◌, ◌≡◌, refl, Option, none, some, ◌++◌, true, String, List, [], ◌∷◌, length, ltb, Outcome,
  ok, panic, ◌⊎◌, inl, inr, Bool-cases, if◌then◌else◌,
}
use cyan_flame_control_plane.Server.Command.{
  ControlCommand, ControlResponse, ServerInternals, Readings,
}
use cyan_flame_control_plane.Server.Process.{Surroundings, process_command}
use cyan_flame_control_plane.Server.Process.Faultless.{process_command-cases}
use cyan_flame_control_plane.Server.Sockets.{
  Message, text_message, binary, ping, close, other, failed, Sent, pong, reply_text, reply_binary,
  Round, Ended, Wire, drop, ended, invalid, answering, text_round, binary_round, round,
}

abbrev parsed : {F : Type 0} → String ⊎ ControlCommand F → Option (ControlCommand F)
parsed (inl e) = none
parsed (inr command) = some command

-- The command that a message carries: a text, or what is behind the first eight bytes of a longer
-- binary message.
unfoldable pub command_in : {F : Type 0} → Wire F → Message → Option (ControlCommand F)
command_in wire (text_message t) = parsed (wire.from_str t)
command_in wire (binary bytes) =
    if ltb 8 (length bytes) then parsed (wire.from_slice (drop 8 bytes)) else none
command_in wire (ping bytes) = none
command_in wire close = none
command_in wire other = none
command_in wire failed = none

abbrev count : {F : Type 0} → Option (ControlCommand F) → ℕ
count none = 0
count (some command) = 1

-- The number of answers to a message: one to each text, one to a binary message that carries a
-- command, and one to a ping.
unfoldable pub answers_to : {F : Type 0} → Wire F → Message → ℕ
unfolding command_in
answers_to wire (text_message t) = 1
answers_to wire (binary bytes) = count (command_in wire (binary bytes))
answers_to wire (ping bytes) = 1
answers_to wire close = 0
answers_to wire other = 0
answers_to wire failed = 0

unfoldable pub answers_in : {F : Type 0} → Wire F → List Round → ℕ
unfolding answers_to
answers_in wire [] = 0
answers_in wire (x ∷ xs) = answers_to wire x.message + answers_in wire xs

-- A round whose send succeeds and whose message does not end the session.
pub data IsFlowing : Round → Type 0 where
  flow_text :
      (r : Readings) (t : List ℕ)
      → IsFlowing (record { readings = r; sends = true; message = text_message t })
  flow_binary :
      (r : Readings) (t : List ℕ)
      → IsFlowing (record { readings = r; sends = true; message = binary t })
  flow_ping :
      (r : Readings) (t : List ℕ)
      → IsFlowing (record { readings = r; sends = true; message = ping t })
  flow_other : (r : Readings) → IsFlowing (record { readings = r; sends = true; message = other })

-- What was sent stands in front of what the rest of the session sends.
abbrev pub prefixed : {F : Type 0} → List (Sent F) → Ended F → Ended F
prefixed front e = record e { sent = front ++ e.sent }

module _ {F : Type 0} (w : Surroundings F) (wire : Wire F) where
  -- One round that goes on in a next state, with its answers sent.
  pub record GoesOn (n : ℕ) (f : (ServerInternals F → Ended F) → Ended F) : Type 0 where
    pub next : ServerInternals F
    pub front : List (Sent F)
    pub counted : length front ≡ n
    pub goes : (go : ServerInternals F → Ended F) → f go ≡ prefixed front (go next)

  -- One round that ends in the panic of the command of its message.
  pub record Breaks (s : ServerInternals F) (r : Readings) (found : Option (ControlCommand F))
      (f : (ServerInternals F → Ended F) → Ended F) : Type 0 where
    pub command : ControlCommand F
    pub carried : found ≡ some command
    pub panics : (process_command w s r command).1 ≡ panic
    pub breaks :
        (go : ServerInternals F → Ended F) → f go ≡ ended (process_command w s r command).0 panic

  answering-cases :
      (s : ServerInternals F) (r : Readings) (command : ControlCommand F)
      (reply : ControlResponse F → Sent F)
      → GoesOn 1 (λ go. answering reply true go (process_command w s r command))
        ⊎ Breaks s r (some command) (λ go. answering reply true go (process_command w s r command))
  answering-cases s r command reply = elim (process_command-cases w s r command) [
    | inl (a, e) ↦ inl (record {
      next = (process_command w s r command).0;
      front = reply a ∷ [];
      counted = refl;
      goes = λ go. answered (process_command w s r command) a e go;
    })
    | inr e ↦ inr (record {
      command = command;
      carried = refl;
      panics = e;
      breaks = λ go. broken (process_command w s r command) e go;
    })
  ]
    where
      answered :
          (out : ServerInternals F × Outcome String (ControlResponse F)) (a : ControlResponse F)
          → out.1 ≡ ok a
          → (go : ServerInternals F → Ended F)
          → answering reply true go out ≡ prefixed (reply a ∷ []) (go out.0)
      answered (s', o) a e go = rw e (unfold answering in refl)

      broken :
          (out : ServerInternals F × Outcome String (ControlResponse F))
          → out.1 ≡ panic
          → (go : ServerInternals F → Ended F) → answering reply true go out ≡ ended out.0 panic
      broken (s', o) e go = rw e (unfold answering in refl)

  text_round-cases :
      (s : ServerInternals F) (r : Readings) (found : String ⊎ ControlCommand F)
      → GoesOn 1 (λ go. text_round w wire s r true go found)
        ⊎ Breaks s r (parsed found) (λ go. text_round w wire s r true go found)
  unfolding text_round
  text_round-cases s r (inr command) = answering-cases s r command reply_text
  text_round-cases s r (inl e) =
      inl (record {
        next = s;
        front = reply_text (invalid e) ∷ [];
        counted = refl;
        goes = λ go. refl;
      })

  -- A round without an answer.
  silent : (s : ServerInternals F) → GoesOn 0 (λ go. go s)
  silent s = record { next = s; front = []; counted = refl; goes = λ go. refl }

  binary_round-cases :
      (s : ServerInternals F) (r : Readings) (found : String ⊎ ControlCommand F)
      → GoesOn (count (parsed found)) (λ go. binary_round w wire s r true go found)
        ⊎ Breaks s r (parsed found) (λ go. binary_round w wire s r true go found)
  unfolding binary_round
  binary_round-cases s r (inr command) = answering-cases s r command reply_binary
  binary_round-cases s r (inl e) = inl (silent s)

  pub round-cases :
      (s : ServerInternals F) (x : Round)
      → IsFlowing x
      → GoesOn (answers_to wire x.message) (λ go. round w wire s x.readings x.sends go x.message)
        ⊎ Breaks s x.readings
            (command_in wire x.message)
            (λ go. round w wire s x.readings x.sends go x.message)
  unfolding round answers_to command_in
  round-cases s x (flow_text r t) = text_round-cases s r (wire.from_str t)
  round-cases s x (flow_binary r t) = elim (Bool-cases (ltb 8 (length t))) [
    | inl long ↦ rw long (binary_round-cases s r (wire.from_slice (drop 8 t)))
    | inr short ↦ rw short (inl (silent s))
  ]
  round-cases s x (flow_ping r t) =
      inl (record { next = s; front = pong t ∷ []; counted = refl; goes = λ go. refl })
  round-cases s x (flow_other r) = inl (silent s)
