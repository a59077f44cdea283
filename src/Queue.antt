-- ===== src/Queue.antt =====
-- internal/queue/store.go: the shared queue and the playback state, as tables of the database.
pub mod Rows
pub mod Table
pub mod Store
pub mod Playing
pub mod Updates
pub mod Sorting
pub mod Numbering
pub mod Wellformed
pub mod Deletion
pub mod Shuffles
pub mod Arrangements
pub mod Reordering
pub mod Permuting
pub mod Sizes
pub mod Insertion
pub mod Contract
pub mod Admission
pub mod Statuses
pub mod Calls
pub mod Invariant
pub mod Traces
pub mod Line
pub mod Movements
pub mod Refinement
pub mod Tests
