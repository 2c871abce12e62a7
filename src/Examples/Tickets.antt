-- ===== src/Examples/Tickets.antt =====
-- The ticket theorems, applied to the example server.
use uncord_server.Prelude.{
  ◌≡◌, refl, true, ◌⊎◌, [], ◌∷◌, arith, Bytes, codes, bytes_eq, ok, err, wrap, failed,
  invalid_token,
}
use uncord_server.Valkey.Call.{World, call, answered}
use uncord_server.Auth.Ticket.{
  create_gateway_ticket, create_mfa_ticket, ticket_user, consume_gateway_ticket, consume_mfa_ticket,
}
use uncord_server.Auth.Ticket.Histories.{
  gateway, mfa, create_gateway, create_mfa, consume_ticket, perform, perform_all, Strings,
}
use uncord_server.Auth.Ticket.SingleUse.{consume-consume}
use uncord_server.Auth.Ticket.Origin.{issued, consume-issued, create-consume_gateway}
use uncord_server.Examples.Server.{Memory, memory, uuid_text, empty_memory}

abbrev pass : Bytes
pass = codes "t"

abbrev at_start : World Memory
at_start = record { server = empty_memory; schedule = [] }

abbrev with_ticket : World Memory
with_ticket = (create_gateway_ticket memory uuid_text pass 7 at_start).1

first_use : (consume_ticket memory uuid_text gateway pass with_ticket).0 ≡ ok 7
unfolding consume_ticket consume_gateway_ticket create_gateway_ticket ticket_user call bytes_eq
first_use = refl

consume-consume_example :
    let w' =
      perform_all memory uuid_text
        (create_mfa 7 pass 60 ∷ [])
        (consume_ticket memory uuid_text gateway pass with_ticket).1 in
    ((consume_ticket memory uuid_text gateway pass w').0 ≡ err invalid_token)
    ⊎ ((consume_ticket memory uuid_text gateway pass w').0
        ≡ err (wrap "consume gateway ticket" failed))
consume-consume_example =
    consume-consume memory uuid_text gateway pass 7 (create_mfa 7 pass 60 ∷ []) with_ticket
      first_use (refl, tt)

no_tickets : Strings memory uuid_text (λ _ _ _. ⊥) empty_memory
no_tickets k t v live = ground arith

history_use :
    (consume_ticket memory uuid_text mfa pass
      (perform_all memory uuid_text (create_gateway 8 pass ∷ create_mfa 7 pass 60 ∷ []) at_start)).0
    ≡ ok 7
unfolding perform_all perform consume_ticket consume_mfa_ticket create_gateway_ticket
    create_mfa_ticket ticket_user call bytes_eq
history_use = refl

consume-issued_example :
    issued mfa pass 7 (create_gateway 8 pass ∷ create_mfa 7 pass 60 ∷ []) ≡ true
consume-issued_example =
    consume-issued memory uuid_text (create_gateway 8 pass ∷ create_mfa 7 pass 60 ∷ []) mfa pass 7
      at_start no_tickets history_use

abbrev later : World Memory
later = record {
  server = empty_memory;
  schedule =
      record { elapsed = 0; link = answered } ∷ record { elapsed = 29; link = answered } ∷ [];
}

later_created : (create_gateway_ticket memory uuid_text pass 7 later).0 ≡ ok pass
unfolding create_gateway_ticket call
later_created = refl

later_schedule :
    (create_gateway_ticket memory uuid_text pass 7 later).1.schedule
    ≡ record { elapsed = 29; link = answered } ∷ []
unfolding create_gateway_ticket call
later_schedule = refl

create-consume_gateway_example :
    (consume_gateway_ticket memory uuid_text pass
      (create_gateway_ticket memory uuid_text pass 7 later).1).0
    ≡ ok 7
create-consume_gateway_example =
    create-consume_gateway memory uuid_text pass 7 29 [] later later_created later_schedule
      (omega arith)
