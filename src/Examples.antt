-- ===== src/Examples.antt =====
-- Concrete instances of what the development takes as parameters, and runs of the theorems on them.
mod Server
mod Permissions
mod Access
mod Tokens
mod Tickets
mod Statuses
mod Requests
mod Inputs
mod Codec
mod Sockets
mod Accounts
