-- ===== src/Examples/Accounts.antt =====
-- The theorems of the service, applied to a database of two users: 1 owns the server, 2 has a second
-- factor if the database says so. Hashes are the texts themselves.
use uncord_server.Prelude.{
  ◌≡◌, refl, Bool, true, false, not, ◌&&◌, ◌||◌, none, some, List, [], ◌∷◌, ◌++◌, keep_if, length,
  Bytes, codes, bytes_eq, ◌==◌, if◌then◌else◌, user_not_found, used_verification, Result, ok, err,
}
use uncord_server.Actions.{◌>>=◌ as then, Refuses}
use uncord_server.Uuid.{Uuid}
use uncord_server.Valkey.Call.{World, call}
use uncord_server.Auth.Credentials.{split_at_sign, email_parts, checked_email, validate_email}
use uncord_server.Auth.Refresh.{create_refresh_token, create_script}
use uncord_server.Auth.Refresh.Safety.{rotate, perform_all}
use uncord_server.Auth.Ticket.{create_mfa_ticket, consume_mfa_ticket, ticket_user}
use uncord_server.Auth.Service.{
  User, Credentials, TombstoneType, tombstone_email, tombstone_username, Tombstone, Users, Service,
  AuthResult, Site, TokenPair,
}
use uncord_server.Auth.Service.Sessions.{
  LoginRequest, logged_in, record_attempt, found_account, refuse_mismatch, rehash, issue_tokens,
  login_tokens, login_by_factor, login, refresh,
}
use uncord_server.Auth.Service.Sessions.Verified.{Fits, login-Fits}
use uncord_server.Auth.Service.Mfa.{
  complete_mfa_login, first_match, use_match, try_recovery_code, mfa_secret_of, check_code,
  verify_mfa,
}
use uncord_server.Auth.Service.Mfa.Checked.{Checked, issued, verify_mfa-Checked}
use uncord_server.Auth.Service.Accounts.{delete_account}
use uncord_server.Auth.Service.Accounts.Deleted.{delete_account-owner}
use uncord_server.Auth.Pending.{mfa_pending_key, store_pending_mfa_secret}
use uncord_server.Auth.Service.Setup.{confirm_mfa_setup}
use uncord_server.Auth.Service.Setup.Locked.{Counted, confirm_mfa_setup-Counted}
use uncord_server.Examples.Server.{Memory, memory, memory_counters, uuid_text, empty_memory}

record Tables : Type 0 where
  accounts : List Credentials
  tombstones : List Tombstone
  used : List Uuid

abbrev find_account : (Credentials → Bool) → List Credentials → Result Credentials
find_account p [] = err user_not_found
find_account p (c ∷ cs) = if p c then ok c else find_account p cs

abbrev user_of : Result Credentials → Result User
user_of (ok c) = ok c.user
user_of (err e) = err e

abbrev same_type : TombstoneType → TombstoneType → Bool
same_type tombstone_email tombstone_email = true
same_type tombstone_email tombstone_username = false
same_type tombstone_username tombstone_email = false
same_type tombstone_username tombstone_username = true

abbrev has_tombstone : TombstoneType → Bytes → List Tombstone → Bool
has_tombstone k h [] = false
has_tombstone k h (t ∷ ts) =
    same_type t.identifier_type k && bytes_eq t.hmac_hash h || has_tombstone k h ts

abbrev users : Users
users = record {
  Database = Tables;
  get_by_id = λ u db. user_of (find_account (λ c. c.user.id == u) db.accounts);
  get_by_email = λ e db. find_account (λ c. bytes_eq c.user.email e) db.accounts;
  get_credentials_by_id = λ u db. find_account (λ c. c.user.id == u) db.accounts;
  check_tombstone = λ k h db. ok (has_tombstone k h db.tombstones);
  get_unused_recovery_codes = λ u db. ok (record { id = 50; code_hash = codes "r" } ∷ []);
  owner_id = λ db. ok 1;
  create = λ p db. (ok 9, db);
  verify_email = λ t db. (err used_verification, db);
  replace_verification_token = λ u t e c db. (ok tt, db);
  record_login_attempt = λ e ip b db. (ok tt, db);
  update_password_hash = λ u h db. (ok tt, db);
  use_recovery_code = λ u db. (ok tt, record db { used = u ∷ db.used });
  replace_recovery_codes = λ u hs db. (ok tt, db);
  enable_mfa = λ u e hs db. (ok tt, db);
  disable_mfa = λ u db. (ok tt, db);
  delete_with_tombstones = λ u ts db. (
    ok tt,
    record db {
      accounts = keep_if (λ c. not (c.user.id == u)) db.accounts;
      tombstones = ts ++ db.tombstones;
    },
  );
}

abbrev service : Service
service = record {
  users = users;
  valkey = memory;
  counters = memory_counters;
  uuid_text = uuid_text;
  addresses = record { parse_address = λ a. ok a; to_lower = λ a. a; rune_count = λ a. length a };
  is_blocked = λ d. ok false;
  hmac_identifier = λ a. ok a;
  hash_password = λ p. ok p;
  verify_password = λ p h. ok (bytes_eq p h);
  needs_rehash = λ h. ok false;
  new_access_token = λ u b. ok (codes "jwt");
  encrypt_totp_secret = λ e. ok e;
  decrypt_totp_secret = λ e. ok e;
  totp_validate = λ now code secret. bytes_eq code secret;
  hash_recovery_code = λ c. ok c;
  verify_recovery_code = λ c h. ok (bytes_eq c h);
  mfa_configured = true;
  mfa_ticket_ttl = 300;
  jwt_refresh_ttl = 1000;
  deletion_tombstone_usernames = false;
}

abbrev address : Bytes
address = codes "b@x.y"

abbrev account : Uuid → Bool → Credentials
account u mfa = record {
  user = record {
    id = u;
    email = address;
    username = codes "b";
    mfa_enabled = mfa;
    email_verified = true;
  };
  password_hash = codes "secret-word";
  mfa_secret = if mfa then some (codes "s") else none;
}

abbrev site : Credentials → World Memory → Site service
site c w = record {
  database = record { accounts = c ∷ []; tombstones = []; used = [] };
  world = w;
  invalidated = [];
}

abbrev calm : World Memory
calm = record { server = empty_memory; schedule = [] }

abbrev request : LoginRequest
request = record { email = address; password = codes "secret-word"; ip = codes "1" }

abbrev session : AuthResult
session = record {
  user = (account 2 false).user;
  tokens = record { access_token = codes "jwt"; refresh_token = codes "t" };
}

login_succeeds :
    (login service (codes "t") request (site (account 2 false) calm)).0 ≡ ok (logged_in session)
unfolding login then validate_email checked_email split_at_sign email_parts found_account bytes_eq
    refuse_mismatch login_by_factor login_tokens rehash record_attempt issue_tokens
    create_refresh_token create_script call
login_succeeds = refl

login-Fits_example :
    (a : Bytes × Bytes) × (c : Credentials) × (validate_email service.addresses address ≡ ok a)
    × (users.get_by_email a.0 (site (account 2 false) calm).database ≡ ok c)
    × (service.verify_password (codes "secret-word") c.password_hash ≡ ok true)
    × Fits service c (logged_in session)
login-Fits_example =
    login-Fits service (codes "t") request (site (account 2 false) calm) (logged_in session)
      login_succeeds

-- User 2 has the token "a", and exchanges it for "b".
abbrev with_token : Site service
with_token =
    site (account 2 false) (create_refresh_token memory uuid_text (codes "a") 2 1000 calm).1

abbrev pair : TokenPair
pair = record { access_token = codes "jwt"; refresh_token = codes "b" }

-- The token "b" is exchanged for "c", and then "a" is presented again.
abbrev later_site : Site service
later_site = site (account 2 false) (
    perform_all memory uuid_text service.jwt_refresh_ttl (rotate (codes "c") (codes "b") ∷ [])
      (refresh service (codes "b") (codes "a") with_token).1.world)

abbrev ticketed : World Memory
ticketed = (create_mfa_ticket memory uuid_text (codes "k") 2 300 calm).1

abbrev mfa_session : AuthResult
mfa_session = record {
  user = (account 2 true).user;
  tokens = record { access_token = codes "jwt"; refresh_token = codes "t" };
}

mfa_succeeds :
    (verify_mfa service (codes "t") 5 (codes "k") (codes "r") (site (account 2 true) ticketed)).0
    ≡ ok mfa_session
unfolding verify_mfa then consume_mfa_ticket create_mfa_ticket ticket_user call bytes_eq
    mfa_secret_of check_code try_recovery_code first_match use_match complete_mfa_login issue_tokens
    create_refresh_token create_script
mfa_succeeds = refl

verify_mfa-Checked_example :
    (u : Uuid) × (c : Credentials) × (encrypted : Bytes) × (secret : Bytes) × ((consume_mfa_ticket
        memory uuid_text
        (codes "k")
        ticketed).0
      ≡ ok u)
    × (users.get_credentials_by_id u (site (account 2 true) ticketed).database ≡ ok c)
    × (c.mfa_secret ≡ some encrypted)
    × (service.decrypt_totp_secret encrypted ≡ ok secret)
    × (mfa_session.user ≡ c.user)
    × Checked service 5 secret u
        (codes "r")
        (site (account 2 true) ticketed).database
        (verify_mfa service
          (codes "t")
          5
          (codes "k")
          (codes "r")
          (site (account 2 true) ticketed)).1.database
    × ((verify_mfa service
          (codes "t")
          5
          (codes "k")
          (codes "r")
          (site (account 2 true) ticketed)).1.world
        ≡ issued service
            (codes "t")
            c.user.id
            (consume_mfa_ticket memory uuid_text (codes "k") ticketed).1)
verify_mfa-Checked_example =
    verify_mfa-Checked service (codes "t") 5 (codes "k") (codes "r")
      (site (account 2 true) ticketed) mfa_session mfa_succeeds

delete_account-owner_example :
    Refuses (delete_account service 1 (codes "secret-word")) (site (account 1 false) calm)
delete_account-owner_example =
    delete_account-owner service 1 (codes "secret-word") (site (account 1 false) calm) refl

-- User 2 has begun the setup with the secret "s".
abbrev setting_up : Memory
setting_up = (store_pending_mfa_secret memory memory_counters uuid_text 2 (codes "s") calm).1.server

secret_pending :
    memory.string_at (mfa_pending_key (uuid_text.to_text 2)) setting_up ≡ some (codes "s")
unfolding store_pending_mfa_secret call bytes_eq
secret_pending = refl

wrong_guess : bytes_eq (codes "x") (codes "s") ≡ false
unfolding bytes_eq
wrong_guess = refl

confirm_mfa_setup-Counted_example : Counted service 2 (codes "s") setting_up (
    confirm_mfa_setup service
      (codes "r" ∷ [])
      5
      2
      (codes "x")
      (site (account 2 false) (record { server = setting_up; schedule = [] })))
confirm_mfa_setup-Counted_example =
    confirm_mfa_setup-Counted service 2 (codes "r" ∷ []) 5 (codes "x") (codes "s") (codes "s")
      setting_up (site (account 2 false) (record { server = setting_up; schedule = [] })) refl refl
      secret_pending refl wrong_guess
