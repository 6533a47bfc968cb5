-- ===== src/Video.antt =====
-- Videos, likes and comments.
pub mod Entity
pub mod Messages
pub mod Repo
pub mod Likes
pub mod Comments
pub mod Service
pub mod Fanout
mod Tests
