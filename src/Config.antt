-- ===== src/Config.antt =====
-- internal/settings/store.go: the settings of the application, with secrets encrypted.
pub mod Store
pub mod Secrets
pub mod Tests
