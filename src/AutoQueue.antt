-- ===== src/AutoQueue.antt =====
-- internal/autoqueue: whose preferences fill the queue next.
pub mod Turns
pub mod Order
pub mod Fairness
pub mod Ages
pub mod Tests
