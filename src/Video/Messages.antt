-- ===== src/Video/Messages.antt =====
-- What the services of videos, likes, comments and followings publish: the `Like`, `Unlike`,
-- `Publish`, `Delete`, `Follow`, `UnFollow`, `Update`, `PublishInbox` and `PublishOutbox` methods of
-- backend/internal/middleware/rabbitmq, and `UpdatePopularityCache` of
-- backend/internal/video/popularity_cache.go. An action is true where the method returns no error;
-- whether the random source and the broker do their part is the world's choice.
use feedsystem_video_go_medi.Prelude.{
  ℕ, ℤ, pos, eqb_ℤ, Bool, false, not, ◌||◌, String, if◌then◌else◌, ◌==◌,
}
use feedsystem_video_go_medi.Store.{
  Env, Action, ⊤, pure, now, publish, contact, ◌>>=◌, ◌>>◌, to_likes, to_comments, to_social,
  to_popularity, to_videos,
}

module _ (env : Env) where
  unfoldable pub publish_like : String → ℕ → ℕ → Action Bool
  publish_like action user video =
      if (user == 0) || (video == 0)
      then pure false
      else publish env (to_likes (record { action = action; user_id = user; video_id = video }))

  unfoldable pub publish_comment : String → ℕ → ℕ → String → Action Bool
  publish_comment username video author content = publish env (
      to_comments (record {
        action = "publish";
        comment_id = 0;
        username = username;
        video_id = video;
        author_id = author;
        content = content;
      }))

  unfoldable pub publish_comment_delete : ℕ → Action Bool
  publish_comment_delete comment = publish env (
      to_comments (record {
        action = "delete";
        comment_id = comment;
        username = "";
        video_id = 0;
        author_id = 0;
        content = "";
      }))

  unfoldable pub publish_social : String → ℕ → ℕ → Action Bool
  publish_social action follower vlogger =
      if (follower == 0) || (vlogger == 0)
      then pure false
      else publish env
          (to_social (record { action = action; follower_id = follower; vlogger_id = vlogger }))

  unfoldable pub publish_popularity : ℕ → ℤ → Action Bool
  publish_popularity video change =
      if (video == 0) || eqb_ℤ change (pos 0)
      then pure false
      else publish env (to_popularity (record { video_id = video; change = change }))

  unfoldable pub publish_video : String → ℕ → ℕ → Action Bool
  publish_video action video author = if video == 0 then pure false else do
    t ← now env
    publish env (
        to_videos
          (record { action = action; video_id = video; author_id = author; occurred_at = t }))

  -- A publisher that the service may not have.
  unfoldable pub enqueue : Bool → Action Bool → Action Bool
  enqueue has_queue m = if has_queue then m else pure false

-- Two calls of the cache, whose outcome is not read, where there is a cache and something to change.
unfoldable pub update_popularity_cache : Env → Bool → ℕ → ℤ → Action ⊤
update_popularity_cache env has_cache video change =
    if not has_cache || (video == 0) || eqb_ℤ change (pos 0)
    then pure tt
    else do contact; t ← now env; contact
