-- ===== src/Lib.antt =====
-- The server of the uncord chat: its permissions, its authentication and its gateway, and
-- theorems about them.
--
-- Parts of the program and the files that model them (paths from the repository's root):
--   internal/permission/store.go       Permission/Store: rows and the interface `Store`
--   internal/permission/resolver.go    Permission/Resolver, Permission/Overrides: `Resolver` (Resolve,
--       HasPermission, ResolveServer, HasServerPermission, FilterPermitted, FilterUsersPermitted)
--   internal/permission/cache.go       Permission/Cache: the interface `Cache`; Permission/ValkeyCache:
--       the implementation `ValkeyCache`
--   internal/permission/invalidate.go  Permission/Invalidate: `Publisher` and `Subscriber`
--   internal/permission/middleware.go  Permission/Middleware: RequirePermission, RequireServerPermission
--   internal/auth/refresh.go           Auth/Refresh: the refresh tokens and their Lua scripts
--   internal/auth/gateway_ticket.go, internal/auth/mfa_ticket.go  Auth/Ticket: single-use tickets
--   internal/auth/validation.go        Auth/Credentials: the checks of addresses, names and passwords
--   internal/auth/service.go           Auth/Service: `Service`, over the interface of internal/user; Sessions
--       (Login, Refresh, VerifyEmail), Registration (Register), Mfa (VerifyMFA, DisableMFA, recovery codes),
--       Setup (BeginMFASetup, ConfirmMFASetup) and Accounts (DeleteAccount)
--   internal/auth/mfa_pending.go       Auth/Pending: the pending secret of a setup and the counter of codes
--   internal/presence/presence.go      Presence: statuses and typing indicators
--   internal/gateway/frame.go          Gateway/Frame: the frames of the protocol as values
--   internal/gateway/session.go        Gateway/Session: `SessionStore`, sessions and replay buffers
--   internal/gateway/client.go         Gateway/Client: the queue and the rate limit of a connection;
--       Gateway/Hub/Steps: the handlers of its messages
--   internal/gateway/hub.go            Gateway/Hub: the registry; Gateway/Hub/Connect: Identify, Resume and
--       presence; Gateway/Hub/Dispatch: handlePubSubEvent and Shutdown
--   internal/{channel,category,server,thread,role,member,user,invite,message}  Validation: the checks
--       of input (ValidateName and the like, ClampLimit, Invite.Validate)
--
-- Examples holds concrete instances of the parameters, and runs of the theorems on them.
--
-- The resolver reads the database through `Store` and asks the cache first; a handler that changes
-- permissions publishes a message, and the subscriber deletes what it covers from the cache. A function
-- that changes the cache or the server takes its state and returns it. The resolver is stated over
-- any cache with the laws `IsCache`, which the theorem about `ValkeyCache` fills.
--
-- The gateway is a hub, with a table of clients and the users' connections, and the steps that may happen
-- to it: a message of a client, a round of a write pump, a timer, an event, the end of a wait, a shutdown.
-- The pump is the loop of writePump, one round at a time, and a round takes the case that a select picked.
-- A step runs to its end before the next one, so the locks of the source are not modelled. Identify and
-- Resume consume tickets, presence is set through the presence store, and an event asks the resolver
-- who may view its channel.
--
-- Actions has the functions that take a state and return a result and the state; the auth service is
-- written with them, over the database and Valkey, and calls the refresh tokens and the tickets.
--
-- Parameters, since their code is not in the repository: the bitfield of uncord-protocol (Bitfield),
-- the text of a UUID (Uuid), trimming and counting of characters (Validation), and the Valkey server
-- (Valkey), with the documented effect of its commands, those of its lists (Valkey/Lists) and counters
-- (Valkey/Counters; the script that counts is Auth/Pending), and the JSON of sessions (Codec). The gateway also takes the reads of the database
-- for READY, the JSON of READY and the check of an access token (HubDeps); the auth service takes the
-- repository of users (Users) and the cryptography (Service).
--
-- `World` is the server and a schedule of what happens at the calls to come: time passes before a call,
-- and a call may fail before or after the server has run the command. Errors are values of `Error`; a
-- wrapped error keeps the text of the source, without the formatted arguments. Numbers read from a cache
-- are written and read by Strconv, which stands for the package strconv.
--
-- Fuel: the loop over the pages of SCAN takes fuel and fails without it. It is enough if it exceeds
-- the number of pages that the server still has, which is stated as a rank of the cursors.
--
-- Not modelled: SQL and the repositories over it, the HTTP handlers, cryptography, configuration and
-- wiring, which are I/O or calls of libraries; logging; the JSON text below the fields of an object, whose
-- keys are matched as they are written; the loops `Run` of the subscriber and of the hub; the worker pool
-- of the gateway's publisher. UUIDs are numbers, whose zero stands for the server in the cache. The kinds
-- of keys of Valkey do not overlap, so a command never meets a key of the wrong type. The reads of one
-- resolution see one state of the database.
pub mod Prelude
pub mod Uuid
pub mod Json
pub mod Strconv
pub mod Valkey
pub mod Actions
pub mod Auth
pub mod Examples
pub mod Gateway
pub mod Permission
pub mod Presence
pub mod Validation
