-- ===== src/Auth/Service/Accounts/Deleted.antt =====
-- What the deletion of an account leaves.
use uncord_server.Prelude.{
  ◌≡◌, refl, sym, ◌∙◌, true, false, not, ◌⊎◌, List, [], ◌∷◌, Bytes, ok, ok_injective, context-eq-ok,
  ◌==◌, arith,
}
use uncord_server.Actions.{refuse_if, refuse_if-state, >>=-state, Refuses, >>=-Refuses}
use Prim.Native.String.{String}
use uncord_server.Uuid.{Uuid}
use uncord_server.Auth.Refresh.{revoke_all_refresh_tokens}
use uncord_server.Auth.Service.{Service, Credentials, Tombstone, tombstone_username, Site}
use uncord_server.Auth.Service.Sessions.{invalid_credentials}
use uncord_server.Auth.Service.Mfa.{check_password}
use uncord_server.Auth.Service.Accounts.{not_the_owner, delete_account}

module _ (S : Service) where
  check_password-state :
      (what : String) (password : Bytes) (c : Credentials) (s : Site S)
      → (check_password S what password c s).1 ≡ s
  unfolding check_password
  check_password-state what password c s =
      >>=-state _ _ s refl (λ match. refuse_if-state (not match) invalid_credentials s)

  -- The owner of the server is not deleted: the call fails, and neither the database nor Valkey changes.
  pub delete_account-owner :
      (user_id : Uuid) (password : Bytes) (s : Site S)
      → S.users.owner_id s.database ≡ ok user_id
      → Refuses (delete_account S user_id password) s
  unfolding delete_account
  delete_account-owner user_id password s owner = >>=-Refuses _ _ s refl (λ c _.
      >>=-Refuses _ _ s (check_password-state "verify password for account deletion" password c s)
        (λ _ _. >>=-Refuses _ _ s refl (λ o found.
          let same : o ≡ user_id =
            ok_injective (sym (context-eq-ok "get server config" _ found) ∙ owner) in
          >>=-Refuses _ _ s (refuse_if-state (o == user_id) _ s)
            (λ _ passed. absurd (owner_refused o same passed)))))
    where
      owner_refused :
          (o : Uuid) → o ≡ user_id → (refuse_if (o == user_id) not_the_owner s).0 ≡ ok tt → ⊥
      owner_refused o same passed = absurd (ground arith)

  -- The tombstone of a username is written where the configuration says so, for its lower-case form.
  abbrev pub NameTombstones : Bytes → List Tombstone → Type 0
  NameTombstones username more =
      ((S.deletion_tombstone_usernames ≡ false) × (more ≡ []))
      ⊎ ((S.deletion_tombstone_usernames ≡ true)
          × ((h : Bytes) × (S.hmac_identifier (S.addresses.to_lower username) ≡ ok h)
              × (more ≡ record { identifier_type = tombstone_username; hmac_hash = h } ∷ [])))

  -- The user has been deleted with these tombstones, the refresh tokens have been revoked, and the
  -- permission caches told.
  abbrev pub Erased : Uuid → List Tombstone → Site S → Site S → Type 0
  Erased user_id ts s t =
      (S.users.delete_with_tombstones user_id ts s.database ≡ (ok tt, t.database))
      × (t.world ≡ (revoke_all_refresh_tokens S.valkey S.uuid_text user_id s.world).1)
      × (t.invalidated ≡ user_id ∷ s.invalidated)
