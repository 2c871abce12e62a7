-- ===== src/Examples/Tokens.antt =====
-- The refresh-token theorems, applied to the example server.
use uncord_server.Prelude.{
  ◌≡◌, ◌≢◌, refl, ◌⊎◌, [], ◌∷◌, arith, ok, err, wrap, failed, codes, Bytes, refresh_token_reused,
  bytes_eq,
}
use uncord_server.Valkey.Call.{World, call, answered}
use uncord_server.Auth.Refresh.{
  create_script, rotate_script, revoke_all_script, rotated, remove_stale, stale_entries, srem_all,
  store_token, create_refresh_token, validate_refresh_token, rotate_refresh_token,
  revoke_all_refresh_tokens,
}
use uncord_server.Auth.Refresh.Safety.{
  IsSound, create, rotate, perform, perform_all, perform_all-IsSound,
}
use uncord_server.Auth.Refresh.Guarantees.{revoke-validate}
use uncord_server.Auth.Refresh.SingleUse.{rotate-rotate, rotate-validate}
use uncord_server.Examples.Server.{Memory, memory, uuid_text, empty_memory}

abbrev calm : World Memory
calm = record { server = empty_memory; schedule = [] }

abbrev token_a : Bytes
token_a = codes "a"

abbrev token_b : Bytes
token_b = codes "b"

empty-IsSound : IsSound memory uuid_text 100 empty_memory
empty-IsSound = record {
  tracked = λ t u live. absurd (ground arith);
  written = λ t u live. absurd (ground arith);
}

perform_all-IsSound_example :
    IsSound memory uuid_text 100
      (perform_all memory uuid_text 100
        (create 7 token_a ∷ rotate token_b token_a ∷ [])
        calm).server
perform_all-IsSound_example =
    perform_all-IsSound memory uuid_text 100 (create 7 token_a ∷ rotate token_b token_a ∷ []) calm
      empty-IsSound

-- User 7 has logged in.
abbrev logged_in : World Memory
logged_in = (create_refresh_token memory uuid_text token_a 7 100 calm).1

logged_in-IsSound : IsSound memory uuid_text 100 logged_in.server
unfolding perform_all perform
logged_in-IsSound =
    perform_all-IsSound memory uuid_text 100 (create 7 token_a ∷ []) calm empty-IsSound

revoke_succeeds : (revoke_all_refresh_tokens memory uuid_text 7 logged_in).0 ≡ ok tt
unfolding revoke_all_refresh_tokens revoke_all_script call create_refresh_token create_script
revoke_succeeds = refl

revoke-validate_example :
    let w' =
      perform_all memory uuid_text 100
        (rotate token_b token_a ∷ [])
        (revoke_all_refresh_tokens memory uuid_text 7 logged_in).1 in
    ((t : Bytes) → (validate_refresh_token memory uuid_text t w').0 ≢ ok 7)
    × ((new old t : Bytes) → (rotate_refresh_token memory uuid_text new old 100 w').0 ≢ ok (t, 7))
revoke-validate_example =
    revoke-validate memory uuid_text 100 7 (rotate token_b token_a ∷ []) logged_in logged_in-IsSound
      revoke_succeeds (refl, tt)

rotation_succeeds :
    (rotate_refresh_token memory uuid_text token_b token_a 100 logged_in).0 ≡ ok (token_b, 7)
unfolding rotate_refresh_token rotate_script rotated call create_refresh_token create_script
    remove_stale stale_entries srem_all store_token bytes_eq
rotation_succeeds = refl

rotate-rotate_example :
    let w' = (rotate_refresh_token memory uuid_text token_b token_a 100 logged_in).1 in
    ((rotate_refresh_token memory uuid_text token_b token_a 100 w').0 ≡ err refresh_token_reused)
    ⊎ ((rotate_refresh_token memory uuid_text token_b token_a 100 w').0
        ≡ err (wrap "rotate refresh token" failed))
unfolding perform_all bytes_eq
rotate-rotate_example =
    rotate-rotate memory uuid_text token_a token_b token_b 100 [] logged_in (token_b, 7) refl
      rotation_succeeds tt

-- The second call comes five seconds after the first.
abbrev slow : World Memory
slow = record {
  server = logged_in.server;
  schedule = record { elapsed = 0; link = answered } ∷ record { elapsed = 5; link = answered } ∷ [];
}

slow_succeeds : (rotate_refresh_token memory uuid_text token_b token_a 100 slow).0 ≡ ok (token_b, 7)
unfolding rotate_refresh_token rotate_script rotated call create_refresh_token create_script
    remove_stale stale_entries srem_all store_token bytes_eq
slow_succeeds = refl

slow_schedule :
    (rotate_refresh_token memory uuid_text token_b token_a 100 slow).1.schedule
    ≡ record { elapsed = 5; link = answered } ∷ []
unfolding rotate_refresh_token call
slow_schedule = refl

abbrev SameToken : Bytes → Bytes → Type 0
SameToken a b = a ≡ b

rotate-validate_example :
    SameToken token_b token_b
    × ((validate_refresh_token memory uuid_text token_b
          (rotate_refresh_token memory uuid_text token_b token_a 100 slow).1).0
        ≡ ok 7)
rotate-validate_example =
    rotate-validate memory uuid_text token_a token_b 100 5 [] slow (token_b, 7) slow_succeeds
      slow_schedule (omega arith)
