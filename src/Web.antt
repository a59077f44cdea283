-- ===== src/Web.antt =====
-- internal/app/app.go, auth.go and admin.go: the chain that every request passes, and the handlers of
-- accounts and administration.
pub mod House
pub mod Signing
pub mod Admin
pub mod AutoQueue
pub mod Routes
pub mod Tuning
pub mod Effects
pub mod Handled
pub mod Rights
pub mod Authority
pub mod Guards
pub mod Administrators
pub mod Departure
pub mod Anonymous
pub mod Tests
