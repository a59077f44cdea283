-- ===== src/Voting.antt =====
-- internal/app/voting.go: who is listening, who votes to skip or to remove, and what a vote does.
pub mod Policy
pub mod Manager
pub mod Thresholds
pub mod Ballots
pub mod Tests
