-- ===== src/Video/Entity.antt =====
-- The rows of videos, likes, comments, inboxes and outboxes: video_entity.go, like_entity.go and
-- comment_entity.go of backend/internal/video. `int64` columns are integers, `uint` columns natural
-- numbers, times integers in nanoseconds from the Unix epoch, and a text column is a text.
use feedsystem_video_go_medi.Prelude.{ℕ, ℤ, String}

pub record Video : Type 0 where
  pub id : ℕ
  pub author_id : ℕ
  pub username : String
  pub title : String
  pub tags : String
  pub description : String
  pub play_url : String
  pub cover_url : String
  pub create_time : ℤ
  pub likes_count : ℤ
  pub popularity : ℤ

pub record Like : Type 0 where
  pub id : ℕ
  pub video_id : ℕ
  pub account_id : ℕ
  pub created_at : ℤ

pub record Comment : Type 0 where
  pub id : ℕ
  pub username : String
  pub video_id : ℕ
  pub author_id : ℕ
  pub content : String
  pub created_at : ℤ

pub record FollowFeedInbox : Type 0 where
  pub id : ℕ
  pub user_id : ℤ
  pub post_id : ℤ
  pub author_id : ℤ
  pub score : ℤ
  pub is_read : ℤ
  pub is_deleted : ℤ
  pub created_at : ℤ

pub record FeedOutbox : Type 0 where
  pub id : ℕ
  pub author_id : ℤ
  pub post_id : ℤ
  pub score : ℤ
  pub created_at : ℤ
