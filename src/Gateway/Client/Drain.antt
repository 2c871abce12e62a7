-- ===== src/Gateway/Client/Drain.antt =====
-- internal/gateway/client.go: the end of the write pump.
use uncord_server.Prelude.{
  ◌+◌, ◌≤◌, ◌<◌, ◌≡◌, refl, ◌∙◌, ap, ◌&&◌, if◌then◌else◌, Bool, true, false, List, [], ◌∷◌, ◌++◌,
  length, arith,
}
use mathlib.Core.List.{append_assoc, append-nil}
use uncord_server.Gateway.Frame.{Frame}
use uncord_server.Gateway.Client.{
  Client, open_connection, closed, writing, draining, ended, close_connection, end_writer,
  write_message, receive_message, await_done, pump_from, pump,
}

-- Rounds of the pump, each with the case that its `select` takes when both are ready.
unfoldable pub pumps : List Bool → Client → Client
pumps [] c = c
pumps (pick ∷ picks) c = pumps picks (pump pick c)

-- The pump has returned after writing these messages, and the connection is closed.
abbrev pub IsDrained : List Frame → Client → Type 0
IsDrained frames c = (c.send ≡ []) × (c.written ≡ frames) × (c.writer ≡ ended) × (c.conn ≡ closed)

-- A pump that has returned does nothing.
pump_ended : (pick : Bool) (c : Client) → c.writer ≡ ended → pump pick c ≡ c
unfolding pump pump_from
pump_ended pick c w = ap (λ x. pump_from x pick c) w

-- When `done` is closed, the pump takes it, or has nothing else to take.
pump_picked :
    (c : Client) → c.done ≡ true → c.writer ≡ writing → pump true c ≡ record c { writer = draining }
unfolding pump pump_from
pump_picked c shut w =
    ap (λ x. pump_from x true c) w
    ∙ ap
        (λ b.
          if b && true then record c { writer = draining } else receive_message await_done c.send c)
        shut

pump_idle :
    (c : Client)
    → c.done ≡ true
    → c.send ≡ []
    → c.writer ≡ writing
    → pump false c ≡ record c { writer = draining }
unfolding pump pump_from receive_message await_done
pump_idle c shut e w =
    ap (λ x. pump_from x false c) w
    ∙ ap
        (λ b.
          if b && false
          then record c { writer = draining }
          else receive_message await_done c.send c)
        shut
    ∙ ap (λ xs. receive_message await_done xs c) e
    ∙ ap (λ b. if b then record c { writer = draining } else c) shut

pumps-ended :
    (frames : List Frame) (picks : List Bool) (c : Client)
    → IsDrained frames c
    → IsDrained frames (pumps picks c)
unfolding pumps
pumps-ended frames [] c h = h
pumps-ended frames (pick ∷ picks) c h = simp (pump_ended pick c h.2) (pumps-ended frames picks c h)

pumps-draining :
    (waiting : List Frame) (picks : List Bool) (c : Client)
    → c.send ≡ waiting
    → c.conn ≡ open_connection
    → c.writer ≡ draining
    → length waiting < length picks
    → IsDrained (c.written ++ waiting) (pumps picks c)
unfolding pumps pump pump_from receive_message write_message end_writer close_connection
pumps-draining waiting [] c e up w enough = absurd (omega (arith, enough))
pumps-draining [] (pick ∷ picks) c e up w enough =
    rw (e, up, w, append-nil c.written)
      (pumps-ended c.written picks (record c { send = []; writer = ended; conn = closed })
        (refl, refl, refl, refl))
pumps-draining (m ∷ rest) (pick ∷ picks) c e up w enough =
    let next : Client = record c {
      send = rest;
      written = c.written ++ m ∷ [];
      writer = draining;
      conn = open_connection;
    } in
    rw (e, up, w, ← append_assoc c.written (m ∷ []) rest)
      (pumps-draining rest picks next refl refl refl (omega (arith, enough)))

-- When a client is shut down while its connection is open and its write pump is in the outer loop, the
-- pump writes all messages that wait, in order, returns, and leaves the connection closed. Two rounds
-- more than there are messages are enough, whichever case the select takes in each round.
pub pumps-IsDrained :
    (waiting : List Frame) (picks : List Bool) (c : Client)
    → c.done ≡ true
    → c.send ≡ waiting
    → c.conn ≡ open_connection
    → c.writer ≡ writing
    → length waiting + 2 ≤ length picks
    → IsDrained (c.written ++ waiting) (pumps picks c)
unfolding pumps pump pump_from receive_message write_message
pumps-IsDrained waiting [] c shut e up w enough = absurd (omega (arith, enough))
pumps-IsDrained waiting (true ∷ picks) c shut e up w enough = simp (pump_picked c shut w) (
    pumps-draining waiting picks (record c { writer = draining }) e up refl (omega (arith, enough)))
pumps-IsDrained [] (false ∷ picks) c shut e up w enough =
    simp (pump_idle c shut e w)
      (pumps-draining [] picks (record c { writer = draining }) e up refl (omega (arith, enough)))
pumps-IsDrained (m ∷ rest) (false ∷ picks) c shut e up w enough =
    let next : Client = record c {
      send = rest;
      written = c.written ++ m ∷ [];
      conn = open_connection;
      done = true;
      writer = writing;
    } in
    rw (shut, e, up, w, ← append_assoc c.written (m ∷ []) rest)
      (pumps-IsDrained rest picks next refl refl refl refl (omega (arith, enough)))
