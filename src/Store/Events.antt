-- ===== src/Store/Events.antt =====
-- The events that the services hand to the message queues: the event types of
-- backend/internal/middleware/rabbitmq. Their random identifiers, and the times that no
-- consumer reads, are left out.
use feedsystem_video_go_medi.Prelude.{ℕ, ℤ, String}

pub record LikeEvent : Type 0 where
  pub action : String
  pub user_id : ℕ
  pub video_id : ℕ

pub record CommentEvent : Type 0 where
  pub action : String
  pub comment_id : ℕ
  pub username : String
  pub video_id : ℕ
  pub author_id : ℕ
  pub content : String

pub record SocialEvent : Type 0 where
  pub action : String
  pub follower_id : ℕ
  pub vlogger_id : ℕ

pub record PopularityEvent : Type 0 where
  pub video_id : ℕ
  pub change : ℤ

pub record VideoEvent : Type 0 where
  pub action : String
  pub video_id : ℕ
  pub author_id : ℕ
  pub occurred_at : ℤ

pub record OrchestrationEvent : Type 0 where
  pub video_id : ℕ
  pub author_id : ℕ
  pub title : String
  pub description : String

-- An event, by the queue that it goes to.
pub data Event : Type 0 where
  to_likes : LikeEvent → Event
  to_comments : CommentEvent → Event
  to_social : SocialEvent → Event
  to_popularity : PopularityEvent → Event
  to_videos : VideoEvent → Event
  to_orchestration : OrchestrationEvent → Event
