-- ===== src/Auth.antt =====
-- internal/auth: refresh tokens, single-use tickets, and the service over them and the database.
pub mod Refresh
pub mod Ticket
pub mod Pending
pub mod Credentials
pub mod Service
