-- ===== src/Auth/Service/Sessions/Spent.antt =====
-- A refresh token that is presented again.
use uncord_server.Prelude.{◌≡◌, ◌⊎◌, Bytes, failed, wrap, refresh_token_reused, Result, err}
use uncord_server.Actions.{◌>>=◌ as then}
use uncord_server.Uuid.{Uuid}
use uncord_server.Valkey.Call.{OnlyTime}
use uncord_server.Auth.Refresh.SingleUse.{IsSpent}
use uncord_server.Auth.Service.{Service, Site}

module _ (S : Service) where
  open S use {valkey, uuid_text}
  open valkey use {State, string_at, elapse}

  abbrev SpentAt : Bytes → State → Type 0
  SpentAt token = IsSpent valkey uuid_text token

  -- The token is refused as reused, or the call failed for the connection. Nothing is written.
  abbrev pub Refused : {A : Type 0} → Site S → Result A × Site S → Type 0
  Refused s out =
      ((out.0 ≡ err refresh_token_reused) ⊎ (out.0 ≡ err (wrap "rotate refresh token" failed)))
      × (out.1.database ≡ s.database)
      × (out.1.invalidated ≡ s.invalidated)
      × OnlyTime elapse s.world.server out.1.world.server

  -- While a token stays spent, and only time passes.
  abbrev Idle : Bytes → State → State → Type 0
  Idle token start s = SpentAt token s × OnlyTime elapse start s
