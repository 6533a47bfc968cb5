-- ===== src/Social.antt =====
-- The social graph: backend/internal/social, and the worker that applies its events.
pub mod Entity
pub mod Follow
mod Tests
