-- ===== src/Gateway/Client/Queue.antt =====
-- The write queue of a client: bounded, in order, and without gaps while the client is alive.
use uncord_server.Prelude.{
  of_either, ◌≤◌, ◌≡◌, refl, sym, subst, ◌∙◌, ap, Bool, true, false, ◌&&◌, inl, inr, Bool-cases,
  List, [], ◌∷◌, ◌++◌, length, length-append, ltb, arith,
}
use uncord_server.Gateway.Frame.{Frame}
use uncord_server.Gateway.Client.{
  CloseCode, Connection, open_connection, closed, closed_with, Client, send_buffer, new_client,
  close_send, close_connection, send_close, close_with_code, enqueue, pump, Writer, writing,
  draining, ended, end_writer, write_message, receive_message, await_done, pump_from,
}
use mathlib.Core.List.{append_assoc, append-nil}

-- What happens to a client's queue: the hub or the client puts a message in it, the write pump takes
-- one out, and either side may close it.
pub data Act : Type 0 where
  put_message : Frame → Act
  round_of_pump : Bool → Act
  close_queue drop_connection : Act
  close_code : CloseCode → Act

unfoldable pub act : Act → Client → Client
act (put_message f) c = enqueue f c
act (round_of_pump picks_done) c = pump picks_done c
act close_queue c = close_send c
act drop_connection c = record c { conn = close_connection c.conn }
act (close_code code) c = close_with_code code c

unfoldable pub act_all : List Act → Client → Client
act_all [] c = c
act_all (a ∷ rest) c = act_all rest (act a c)

-- The messages that a history puts into the queue.
abbrev pub messages : List Act → List Frame
messages [] = []
messages (put_message f ∷ rest) = f ∷ messages rest
messages (_ ∷ rest) = messages rest

abbrev pub IsAlive : Client → Type 0
IsAlive c = (c.done ≡ false) × (c.conn ≡ open_connection)

-- With what has been put in so far.
record IsQueue (given : List Frame) (c : Client) : Type 0 where
  bounded : length c.send ≤ send_buffer
  complete : IsAlive c → c.written ++ c.send ≡ given

enqueue-IsQueue :
    (f : Frame) (given : List Frame) (c : Client)
    → IsQueue given c
    → IsQueue (given ++ f ∷ []) (enqueue f c)
unfolding enqueue
enqueue-IsQueue f given c h = elim (Bool-cases c.done) [
  | inl over ↦
      rw (over, enqueue) (record { bounded = h.bounded; complete = λ a. absurd (ground arith) })
  | inr live ↦ elim (Bool-cases (ltb (length c.send) send_buffer)) [
    | inl room ↦
        rw (live, room, enqueue)
          (record {
            bounded = ground (arith, length-append c.send (f ∷ []));
            complete = λ a.
                sym (append_assoc c.written c.send (f ∷ []))
                ∙ ap (λ xs. xs ++ f ∷ []) (h.complete (live, a.1));
          })
    | inr full ↦
        rw (live, full, enqueue)
          (record { bounded = h.bounded; complete = λ a. absurd (ground arith) })
  ]
]

still_open : (conn : Connection) → close_connection conn ≡ open_connection → conn ≡ open_connection
unfolding close_connection
still_open open_connection h = refl
still_open closed h = h
still_open (closed_with code) h = h

end_writer-IsQueue :
    (given : List Frame) (c : Client) → IsQueue given c → IsQueue given (end_writer c)
unfolding end_writer
end_writer-IsQueue given c h = record {
  bounded = h.bounded;
  complete = λ a. h.complete (a.0, still_open c.conn a.1);
}

write_message-IsQueue :
    (given : List Frame) (m : Frame) (rest : List Frame) (c : Client)
    → c.send ≡ m ∷ rest
    → IsQueue given c
    → IsQueue given (write_message m (record c { send = rest }))
unfolding write_message end_writer close_connection
write_message-IsQueue given m rest c e h = by_connection c.conn refl
  where
    by_connection :
        (conn : Connection)
        → c.conn ≡ conn
        → IsQueue given (write_message m (record c { send = rest }))
    by_connection open_connection k =
        rw (k, write_message)
          (record {
            bounded = omega (arith, h.bounded, ap length e);
            complete = λ a.
                append_assoc c.written (m ∷ []) rest
                ∙ ap (λ xs. c.written ++ xs) (sym e)
                ∙ h.complete (a.0, k);
          })
    by_connection closed k =
        rw (k, write_message)
          (record {
            bounded = omega (arith, h.bounded, ap length e);
            complete = λ a. absurd (ground arith);
          })
    by_connection (closed_with code) k =
        rw (k, write_message)
          (record {
            bounded = omega (arith, h.bounded, ap length e);
            complete = λ a. absurd (ground arith);
          })

receive_message-IsQueue :
    (default : Client → Client) (given : List Frame) (waiting : List Frame) (c : Client)
    → c.send ≡ waiting
    → IsQueue given (default c)
    → IsQueue given c
    → IsQueue given (receive_message default waiting c)
unfolding receive_message
receive_message-IsQueue default given [] c e idle h = idle
receive_message-IsQueue default given (m ∷ rest) c e idle h =
    write_message-IsQueue given m rest c e h

draining-IsQueue :
    (given : List Frame) (c : Client)
    → IsQueue given c
    → IsQueue given (record c { writer = draining })
draining-IsQueue given c h = record { bounded = h.bounded; complete = h.complete }

await_done-IsQueue :
    (given : List Frame) (c : Client) → IsQueue given c → IsQueue given (await_done c)
unfolding await_done
await_done-IsQueue given c h = of_either (IsQueue given) c.done (draining-IsQueue given c h) h

pump_from-IsQueue :
    (writer : Writer) (picks_done : Bool) (given : List Frame) (c : Client)
    → IsQueue given c
    → IsQueue given (pump_from writer picks_done c)
unfolding pump_from
pump_from-IsQueue writing picks_done given c h =
    of_either (IsQueue given) (c.done && picks_done) (draining-IsQueue given c h)
      (receive_message-IsQueue await_done given c.send c refl (await_done-IsQueue given c h) h)
pump_from-IsQueue draining picks_done given c h =
    receive_message-IsQueue end_writer given c.send c refl (end_writer-IsQueue given c h) h
pump_from-IsQueue ended picks_done given c h = h

pump-IsQueue :
    (picks_done : Bool) (given : List Frame) (c : Client)
    → IsQueue given c
    → IsQueue given (pump picks_done c)
unfolding pump
pump-IsQueue picks_done given c h = pump_from-IsQueue c.writer picks_done given c h

drop-IsQueue :
    (conn : Connection) (given : List Frame) (c : Client)
    → (conn ≡ open_connection → c.conn ≡ open_connection)
    → IsQueue given c
    → IsQueue given (record c { conn = conn })
drop-IsQueue conn given c only h = record {
  bounded = h.bounded;
  complete = λ a. h.complete (a.0, only a.1);
}

still_open_code :
    (code : CloseCode) (conn : Connection)
    → send_close code conn ≡ open_connection
    → conn ≡ open_connection
unfolding send_close
still_open_code code open_connection h = refl
still_open_code code closed h = h
still_open_code code (closed_with other) h = h

act_all-IsQueue :
    (given : List Frame) (acts : List Act) (c : Client)
    → IsQueue given c
    → IsQueue (given ++ messages acts) (act_all acts c)
unfolding act_all act close_send close_with_code
act_all-IsQueue given [] c h = rw (append-nil given) h
act_all-IsQueue given (put_message f ∷ acts) c h =
    subst (λ g. IsQueue g (act_all acts (enqueue f c)))
      (append_assoc given (f ∷ []) (messages acts))
      (act_all-IsQueue (given ++ f ∷ []) acts (enqueue f c) (enqueue-IsQueue f given c h))
act_all-IsQueue given (round_of_pump picks_done ∷ acts) c h =
    act_all-IsQueue given acts (pump picks_done c) (pump-IsQueue picks_done given c h)
act_all-IsQueue given (close_queue ∷ acts) c h =
    act_all-IsQueue given acts (record c { done = true })
      (record { bounded = h.bounded; complete = λ a. absurd (ground arith) })
act_all-IsQueue given (drop_connection ∷ acts) c h =
    act_all-IsQueue given acts (record c { conn = close_connection c.conn })
      (drop-IsQueue (close_connection c.conn) given c (still_open c.conn) h)
act_all-IsQueue given (close_code code ∷ acts) c h =
    act_all-IsQueue given acts (record c { conn = send_close code c.conn })
      (drop-IsQueue (send_close code c.conn) given c (still_open_code code c.conn) h)

-- After any history of a new client that leaves it alive, its queue holds at most 256 messages, and what
-- was written to the connection and what waits are, in order, all messages that were put in.
pub act_all_complete :
    (acts : List Act)
    → IsAlive (act_all acts new_client)
    → (length (act_all acts new_client).send ≤ send_buffer)
      × ((act_all acts new_client).written ++ (act_all acts new_client).send ≡ messages acts)
act_all_complete acts alive = (end.bounded, end.complete alive)
  where
    end : IsQueue (messages acts) (act_all acts new_client)
    end =
        act_all-IsQueue [] acts new_client (record { bounded = omega arith; complete = λ _. refl })
