-- ===== src/Account/Entity.antt =====
-- Accounts: backend/internal/account/entity.go.
use feedsystem_video_go_medi.Prelude.{ℕ, String}

pub record Account : Type 0 where
  pub id : ℕ
  pub username : String
  pub password : String
  pub token : String
  pub role : String
