-- ===== src/Library.antt =====
-- internal/library and the handlers of internal/app/library.go: stations, playlists, history and likes.
pub mod Rows
pub mod Store
pub mod Playlists
pub mod History
pub mod Segments
pub mod Plays
pub mod Single
pub mod Handlers
pub mod Ownership
pub mod Privacy
pub mod Tests
