-- ===== src/Accounts.antt =====
-- internal/auth and the handlers of internal/app that keep accounts and sessions.
pub mod Rows
pub mod Names
pub mod Store
pub mod Sessions
pub mod Calls
pub mod Roles
pub mod Writes
pub mod Invariant
pub mod Lifetime
pub mod Tokens
pub mod Tests
