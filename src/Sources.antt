-- ===== src/Sources.antt =====
-- internal/source/source.go: the adapters of the sources, and the registry with its cache.
pub mod Adapters
pub mod Registry
pub mod Classes
pub mod Tests
