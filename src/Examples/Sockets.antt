-- ===== src/Examples/Sockets.antt =====
-- The theorems of the gateway, applied to the example server.
use uncord_server.Prelude.{
  ℕ, ◌≡◌, ◌≢◌, ◌≤◌, refl, ◌++◌, true, false, ◌⊎◌, some, List, [], ◌∷◌, length, arith, codes,
  bytes_eq, if◌then◌else◌, ok, err, invalid_token,
}
use uncord_server.Strconv.{pos}
use uncord_server.Json.{Document, object, str}
use uncord_server.Valkey.Call.{World, call, answered}
use uncord_server.Permission.Resolver.{server_perm_key}
use uncord_server.Auth.Ticket.{ticket_user, consume_gateway_ticket}
use uncord_server.Presence.{set_presence, visible, get_many_presence}
use uncord_server.Gateway.Frame.{Frame, dispatch, ephemeral, heartbeat_ack}
use uncord_server.Gateway.Session.{SessionStore, save_session, load_session, replay}
use uncord_server.Gateway.Session.Replay.{append_all, replay-append_all}
use uncord_server.Gateway.Session.Resume.{KeepsOthers, save_session-load_session}
use uncord_server.Gateway.Client.{
  open_connection, new_client, send_buffer, next_seq, enqueue, pump, pump_from, receive_message,
  write_message, close_send, Client, rate_limited,
}
use uncord_server.Gateway.Client.Queue.{
  Act, put_message, round_of_pump, close_queue, act, act_all, messages, act_all_complete,
}
use uncord_server.Gateway.Client.Drain.{pumps, IsDrained, pumps-IsDrained}
use uncord_server.Gateway.Client.Rate.{accepted, accepted-bound}
use uncord_server.Gateway.Hub.{
  Reads, HubDeps, Hub, new_hub, on_client, total_clients, register, publish_presence,
}
use uncord_server.Gateway.Hub.Registry.{IsRegistry}
use uncord_server.Gateway.Hub.Connect.{
  send_dispatch, become_identified, authenticate_token, read_ready, assemble_ready, greet, welcome,
  identify_user, handle_identify,
}
use uncord_server.Gateway.Hub.Dispatch.{
  Envelope, channel_text, scoped_text, parse_scope, handle_event,
}
use uncord_server.Gateway.Hub.Delivery.{MayReceive, handle_event-MayReceive}
use uncord_server.Gateway.Hub.Steps.{
  identify, heartbeat, received, pumped, waited, published, shut_down, receive, route,
  client_identify, with_token, Step, run,
}
use uncord_server.Gateway.Hub.Bounded.{run-IsRegistry}
use uncord_server.Gateway.Hub.Identity.{EnteredBy, receive-EnteredBy}
use uncord_server.Examples.Server.{Memory, memory, memory_lists, uuid_text, empty_memory}
use uncord_server.Examples.Permissions.{flags, database}
use uncord_server.Examples.Access.{idle, idle-Coherent}
use uncord_server.Examples.Codec.{codec}

abbrev nothing_new : Document
nothing_new = object []

abbrev reads : Reads
reads = record {
  get_user = λ u. ok nothing_new;
  get_server = ok nothing_new;
  list_channels = ok nothing_new;
  list_roles = ok nothing_new;
  list_members = ok (2 ∷ [], nothing_new);
  list_read_states = λ u. ok nothing_new;
  get_onboarding = err invalid_token;
}

abbrev sessions : SessionStore
sessions = record { ttl = 300; max_replay = 2 }

-- The access token "t" is one of user 2.
abbrev deps : HubDeps
deps = record {
  valkey = memory;
  lists = memory_lists;
  uuid_text = uuid_text;
  codec = codec;
  bitfield = flags;
  store = database;
  scan_fuel = 5;
  sessions = sessions;
  reads = reads;
  access_subject =
      λ token. if bytes_eq token (codes "t") then ok (uuid_text.to_text 2) else err invalid_token;
  ready_document = λ ready. object (("session_id", str ready.session_id) ∷ []);
  gateway_max_connections = 2;
  rate_limit_count = 5;
  rate_limit_window = 60;
}

abbrev some_frames : List Frame
some_frames =
    dispatch 4 (codes "A") nothing_new
    ∷ (dispatch 5 (codes "B") nothing_new ∷ (dispatch 6 (codes "C") nothing_new ∷ []))

replay-append_all_example :
    (replay memory memory_lists uuid_text codec sessions
      (codes "s")
      (pos 4)
      (append_all memory memory_lists uuid_text codec sessions (codes "s") 3 some_frames idle)).0
    ≡ ok (dispatch 5 (codes "B") nothing_new ∷ (dispatch 6 (codes "C") nothing_new ∷ []))
replay-append_all_example =
    replay-append_all memory memory_lists uuid_text codec sessions (codes "s") 3 4 some_frames idle
      refl refl (omega arith) (omega arith) (omega arith)

expire-KeepsOthers : KeepsOthers memory
expire-KeepsOthers k t s j other = rw (other) refl

abbrev later : World Memory
later = record {
  server = empty_memory;
  schedule =
      record { elapsed = 0; link = answered } ∷ (record { elapsed = 299; link = answered } ∷ []);
}

saved :
    (save_session memory memory_lists uuid_text codec sessions (codes "s") 2 9 1000 later).0 ≡ ok tt
unfolding save_session call
saved = refl

saved_schedule :
    (save_session memory memory_lists uuid_text codec sessions
      (codes "s")
      2
      9
      1000
      later).1.schedule
    ≡ record { elapsed = 299; link = answered } ∷ []
unfolding save_session call
saved_schedule = refl

save_session-load_session_example :
    (load_session memory memory_lists uuid_text codec sessions
      (codes "s")
      (save_session memory memory_lists uuid_text codec sessions (codes "s") 2 9 1000 later).1).0
    ≡ ok (record { user_id = 2; last_seq = 9 })
save_session-load_session_example =
    save_session-load_session memory memory_lists uuid_text codec sessions expire-KeepsOthers
      (codes "s") 2 9 1000 299 [] later saved saved_schedule (omega arith)

abbrev acts : List Act
acts =
    put_message heartbeat_ack
    ∷ (put_message (ephemeral (codes "A") nothing_new)
        ∷ (put_message heartbeat_ack ∷ (round_of_pump false ∷ [])))

alive :
    ((act_all acts new_client).done ≡ false) × ((act_all acts new_client).conn ≡ open_connection)
unfolding act_all act enqueue pump pump_from receive_message write_message
alive = (refl, refl)

act_all_complete_example :
    (length (act_all acts new_client).send ≤ send_buffer)
    × ((act_all acts new_client).written ++ (act_all acts new_client).send ≡ messages acts)
act_all_complete_example = act_all_complete acts alive

-- Shut down with two messages waiting. The select takes a message first, then `done`.
abbrev shut : Client
shut = act close_queue (act_all acts new_client)

pumps-IsDrained_example :
    IsDrained (shut.written ++ shut.send) (pumps (false ∷ (true ∷ (false ∷ (false ∷ [])))) shut)
unfolding act_all act enqueue pump pump_from receive_message write_message close_send
pumps-IsDrained_example =
    pumps-IsDrained shut.send (false ∷ (true ∷ (false ∷ (false ∷ [])))) shut refl refl refl refl
      (omega arith)

accepted-bound_example : accepted 2 60 (100 ∷ (110 ∷ (120 ∷ (160 ∷ [])))) new_client ≤ 2
accepted-bound_example =
    accepted-bound 2 60 100 (110 ∷ (120 ∷ (160 ∷ []))) new_client (omega arith)
      ((omega arith), ((omega arith), ((omega arith), tt)))

new_hub-IsRegistry : IsRegistry deps (new_hub deps idle)
unfolding total_clients
new_hub-IsRegistry = record { owned = tt; bounded = omega arith }

abbrev typing : Envelope
typing = record {
  event = codes "TYPING_START";
  payload = object (("channel_id", str (uuid_text.to_text 21)) ∷ []);
  targets = [];
}

abbrev steps : List (Step deps)
steps =
    received 0 5 (codes "s") (identify (ok (codes "t")))
    ∷ (pumped 0 false
        ∷ (published typing ∷ (received 0 6 [] heartbeat ∷ (shut_down ∷ (waited 2 ∷ [])))))

run-IsRegistry_example : IsRegistry deps (run deps steps (new_hub deps idle))
run-IsRegistry_example = run-IsRegistry deps steps (new_hub deps idle) new_hub-IsRegistry

let_in :
    ((receive deps 0 5 (codes "s") (identify (ok (codes "t"))) (new_hub deps idle)).table
      0).identified
    ≡ true
unfolding receive rate_limited on_client route client_identify with_token handle_identify
    authenticate_token consume_gateway_ticket ticket_user identify_user set_presence call
    assemble_ready read_ready get_many_presence visible welcome register total_clients
    become_identified greet publish_presence send_dispatch next_seq enqueue bytes_eq
let_in = refl

receive-EnteredBy_example :
    EnteredBy deps
      (identify (ok (codes "t")))
      idle
      ((receive deps 0 5 (codes "s") (identify (ok (codes "t"))) (new_hub deps idle)).table 0)
receive-EnteredBy_example =
    receive-EnteredBy deps 0 5 (codes "s") (identify (ok (codes "t"))) (new_hub deps idle) refl
      let_in

-- A hub with one connection, of user 2.
abbrev one_client : Hub deps
one_client = record (new_hub deps idle) {
  clients = (2, 0 ∷ []) ∷ [];
  table = λ j. record new_client { user_id = 2; session_id = codes "s"; identified = true };
}

one_client-IsRegistry : IsRegistry deps one_client
unfolding total_clients
one_client-IsRegistry = record { owned = (((refl, refl), tt), tt); bounded = omega arith }

real_channel :
    (c : ℕ) → parse_scope uuid_text (channel_text typing.payload) ≡ some c → c ≢ server_perm_key
unfolding parse_scope channel_text scoped_text
real_channel c e zero_uuid = absurd (ground arith)

handle_event-MayReceive_example :
    ((handle_event deps typing one_client).table 0 ≡ one_client.table 0)
    ⊎ (((one_client.table 0).identified ≡ true)
        × MayReceive deps [] (parse_scope uuid_text (channel_text typing.payload)) 2)
handle_event-MayReceive_example =
    handle_event-MayReceive deps typing one_client 0 one_client-IsRegistry idle-Coherent
      real_channel
