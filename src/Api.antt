-- ===== src/Api.antt =====
-- internal/app: the HTTP handlers of the queue, behind the router, the JSON decoder and the session.
pub mod Limiter
pub mod Requests
pub mod Handlers
pub mod Submission
pub mod Effects
pub mod Service
pub mod Permissions
pub mod Tests
