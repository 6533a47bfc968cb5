-- ===== src/Social/Entity.antt =====
-- Who follows whom: backend/internal/social/entity.go.
use feedsystem_video_go_medi.Prelude.{ℕ}

pub record Social : Type 0 where
  pub id : ℕ
  pub follower_id : ℕ
  pub vlogger_id : ℕ
