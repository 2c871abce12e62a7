-- ===== src/Gateway/Client.antt =====
-- internal/gateway/client.go: one WebSocket connection. The channels `send` and `done` are a list and a
-- flag; what was written to the connection is kept, for the theorems.
pub mod Queue
pub mod Rate
pub mod Drain
use uncord_server.Prelude.{
  ℕ, suc, ◌+◌, ◌-◌, Bool, true, false, Option, none, some, List, [], ◌∷◌, ◌++◌, length, Bytes, ltb,
  if◌then◌else◌, ◌&&◌,
}
use uncord_server.Uuid.{Uuid}
use uncord_server.Gateway.Frame.{Frame}

-- Close codes of the protocol.
pub data CloseCode : Type 0 where
  close_unknown_error close_unknown_opcode close_decode_error close_not_authenticated : CloseCode
  close_auth_failed close_already_authenticated close_rate_limited close_going_away : CloseCode

-- The connection: open, closed without a close frame, or with one.
pub data Connection : Type 0 where
  open_connection closed : Connection
  closed_with : CloseCode → Connection

-- Where the write pump is: in its outer loop, in the loop that empties the queue after `done` was closed,
-- or returned.
pub data Writer : Type 0 where
  writing draining ended : Writer

pub record Client : Type 0 where
  pub user_id : Uuid
  pub session_id : Bytes
  pub seq : ℕ
  pub identified : Bool
  pub send : List Frame
  pub done : Bool
  pub conn : Connection
  pub written : List Frame
  pub writer : Writer
  pub event_count : ℕ
  pub window_start : ℕ

-- The capacity of `send`.
abbrev pub send_buffer : ℕ
send_buffer = 256

abbrev pub new_client : Client
new_client = record {
  user_id = 0;
  session_id = [];
  seq = 0;
  identified = false;
  send = [];
  done = false;
  conn = open_connection;
  written = [];
  writer = writing;
  event_count = 0;
  window_start = 0;
}

unfoldable pub close_send : Client → Client
close_send c = record c { done = true }

-- Closing a closed connection does nothing.
unfoldable pub close_connection : Connection → Connection
close_connection open_connection = closed
close_connection conn = conn

unfoldable pub send_close : CloseCode → Connection → Connection
send_close code open_connection = closed_with code
send_close code conn = conn

unfoldable pub close_with_code : CloseCode → Client → Client
close_with_code code c = record c { conn = send_close code c.conn }

unfoldable pub next_seq : Client → Client
next_seq c = record c { seq = suc c.seq }

-- A full queue drops the message, and the client.
unfoldable pub enqueue : Frame → Client → Client
enqueue msg c =
    if c.done
    then c
    else if ltb (length c.send) send_buffer
    then record c { send = c.send ++ msg ∷ [] }
    else record c { done = true; conn = close_connection c.conn }

-- The write pump returns, and its deferred call closes the connection.
unfoldable pub end_writer : Client → Client
end_writer c = record c { writer = ended; conn = close_connection c.conn }

-- A received message goes to the connection, while that is open. A write to a closed one fails: the
-- message is lost, and the pump returns.
unfoldable pub write_message : Frame → Client → Client
write_message msg c = elim c.conn [
  | open_connection ↦ record c { written = c.written ++ msg ∷ [] }
  | closed ↦ end_writer c
  | closed_with code ↦ end_writer c
]

-- The case of a message in either `select`, with the queue, and what is done when none waits.
unfoldable pub receive_message : (Client → Client) → List Frame → Client → Client
receive_message default [] c = default c
receive_message default (msg ∷ rest) c = write_message msg (record c { send = rest })

-- With neither a message nor `done`, the outer `select` waits.
unfoldable pub await_done : Client → Client
await_done c = if c.done then record c { writer = draining } else c

-- One round of `writePump`. With `done` closed and messages waiting, `select` takes either case: the
-- argument says whether it takes `done`.
unfoldable pub pump_from : Writer → Bool → Client → Client
pump_from writing picks_done c =
    if c.done && picks_done
    then record c { writer = draining }
    else receive_message await_done c.send c
pump_from draining _ c = receive_message end_writer c.send c
pump_from ended _ c = c

unfoldable pub pump : Bool → Client → Client
pump picks_done c = pump_from c.writer picks_done c

-- `rateLimited`, at a time: whether the message is over the limit, and the counters after it.
unfoldable pub rate_limited : ℕ → ℕ → ℕ → Client → Bool × Client
rate_limited count window now c =
    let fresh = ltb window (now - c.window_start) in
    let start = if fresh then now else c.window_start in
    let events = suc (if fresh then 0 else c.event_count) in
    (ltb count events, record c { event_count = events; window_start = start })
