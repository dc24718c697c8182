-- ===== src/Server/Sockets/Replies.antt =====
-- What an open WebSocket session sends.
use cyan_flame_control_plane.Prelude.{
  ℕ, ◌+◌, ◌≡◌, refl, ap, ◌∙◌, arith, some, ◌++◌, length-append, List, [], ◌∷◌, length, ok, panic,
  ◌⊎◌, inl, inr, All,
}
use cyan_flame_control_plane.Server.Command.{ControlCommand, ServerInternals}
use cyan_flame_control_plane.Server.Process.{Surroundings, process_command}
use cyan_flame_control_plane.Server.Sockets.{Sent, Round, Ended, Wire, round, message_loop}
use cyan_flame_control_plane.Server.Sockets.Rounds.{
  command_in, answers_to, answers_in, IsFlowing, GoesOn, Breaks, round-cases,
}

module _ {F : Type 0} (w : Surroundings F) (wire : Wire F) where
  -- The session answered the rounds before one whose command panics, and nothing from there on.
  pub record BreaksAt (s : ServerInternals F) (xs : List Round) : Type 0 where
    pub before : List Round
    pub x : Round
    pub after : List Round
    pub parts : xs ≡ before ++ x ∷ after
    pub command : ControlCommand F
    pub carried : command_in wire x.message ≡ some command
    pub well : (message_loop w wire s before).outcome ≡ ok tt
    pub panics :
        (process_command w (message_loop w wire s before).internals x.readings command).1 ≡ panic
    pub outcome : (message_loop w wire s xs).outcome ≡ panic
    pub sent : length (message_loop w wire s xs).sent ≡ answers_in wire before

  record Ending (s : ServerInternals F) (xs : List Round) : Type 0 where
    ends :
        (((message_loop w wire s xs).outcome ≡ ok tt)
          × (length (message_loop w wire s xs).sent ≡ answers_in wire xs))
        ⊎ BreaksAt s xs

  broken-Ending :
      (s : ServerInternals F) (x : Round) (xs : List Round)
      → Breaks w wire s x.readings
          (command_in wire x.message)
          (λ go. round w wire s x.readings x.sends go x.message)
      → Ending s (x ∷ xs)
  unfolding message_loop answers_in
  broken-Ending s x xs b =
      let end = b.breaks (λ s'. message_loop w wire s' xs) in
      record {
        ends = inr (record {
          before = [];
          x = x;
          after = xs;
          parts = refl;
          command = b.command;
          carried = b.carried;
          well = refl;
          panics = b.panics;
          outcome = ap (λ e. e.outcome) end;
          sent = ap (λ e. length e.sent) end;
        });
      }

  longer :
      (n : ℕ) (front : List (Sent F)) (e : Ended F) (k : ℕ)
      → length front ≡ n
      → length e.sent ≡ k
      → length (front ++ e.sent) ≡ n + k
  longer n front e k hn hk = omega (arith, length-append front e.sent, hn, hk)

  further-Ending :
      (s : ServerInternals F) (x : Round) (xs : List Round)
      (g : GoesOn w wire
        (answers_to wire x.message)
        (λ go. round w wire s x.readings x.sends go x.message))
      → Ending g.next xs
      → Ending s (x ∷ xs)
  unfolding message_loop answers_in
  further-Ending s x xs g h =
      let whole = g.goes (λ s'. message_loop w wire s' xs) in
      record {
        ends = elim h.ends [
          | inl (o, l) ↦ inl (
            ap (λ e. e.outcome) whole ∙ o,
            ap (λ e. length e.sent) whole
                ∙ longer _ g.front (message_loop w wire g.next xs) _ g.counted l,
          )
          | inr b ↦
              let part = g.goes (λ s'. message_loop w wire s' b.before) in
              inr (record {
                before = x ∷ b.before;
                x = b.x;
                after = b.after;
                parts = ap (λ ys. x ∷ ys) b.parts;
                command = b.command;
                carried = b.carried;
                well = ap (λ e. e.outcome) part ∙ b.well;
                panics =
                    ap (λ e. (process_command w e.internals b.x.readings b.command).1) part
                    ∙ b.panics;
                outcome = ap (λ e. e.outcome) whole ∙ b.outcome;
                sent =
                    ap (λ e. length e.sent) whole
                    ∙ longer _ g.front (message_loop w wire g.next xs) _ g.counted b.sent;
              })
        ];
      }

  loop-Ending : (s : ServerInternals F) (xs : List Round) → All IsFlowing xs → Ending s xs
  loop-Ending s [] h = record { ends = inl (unfold message_loop answers_in in (refl, refl)) }
  loop-Ending s (x ∷ xs) (hx, h) = elim (round-cases w wire s x hx) [
    | inl g ↦ further-Ending s x xs g (loop-Ending g.next xs h)
    | inr b ↦ broken-Ending s x xs b
  ]

  -- A session in which no send fails and no message closes or breaks the connection ends well and has
  -- sent one answer to each text, to each ping, and to each binary message of more than eight bytes
  -- whose rest is a command; or the command of one of its messages panics on the state behind the
  -- messages before, and the session ends with that panic, those messages answered in the same way.
  pub message_loop-replies :
      (s : ServerInternals F) (xs : List Round)
      → All IsFlowing xs
      → (((message_loop w wire s xs).outcome ≡ ok tt)
          × (length (message_loop w wire s xs).sent ≡ answers_in wire xs))
        ⊎ BreaksAt s xs
  message_loop-replies s xs h = (loop-Ending s xs h).ends
