-- ===== src/Gateway/Frame.antt =====
-- internal/gateway/frame.go and the opcodes of the protocol: a frame as a value. Its JSON text is left
-- out; the builders cannot fail on the values that the gateway gives them.
use uncord_server.Prelude.{ℕ, Bool, Bytes}
use uncord_server.Json.{Document}

pub data Frame : Type 0 where
  hello : ℕ → Frame
  heartbeat_ack reconnect : Frame
  -- `NewDispatchFrame`: sequence number, event type and data.
  dispatch : ℕ → Bytes → Document → Frame
  -- `NewEphemeralDispatchFrame`: no sequence number.
  ephemeral : Bytes → Document → Frame
  invalid_session : Bool → Frame
