-- ===== src/Playback.antt =====
-- internal/playback/controller.go: the loop that keeps the player at the head of the queue. A
-- method is one step; the answers of the player and of the source adapters are arguments.
pub mod Model
pub mod Reconcile
pub mod Events
pub mod Commands
pub mod Steps
pub mod Consistency
pub mod Reports
pub mod Reachable
pub mod Outcomes
pub mod Failures
pub mod Tests
pub mod Mpv
pub mod Reported
pub mod Requests
