-- ===== src/Video/Likes.antt =====
-- Liking and unliking: backend/internal/video/like_service.go, and the consumer of its events,
-- backend/internal/worker/likeworker.go. The service hands an event to the queue, and writes to the
-- database itself where the queue does not take it.
pub mod Outcome
pub mod Matches
pub mod Kept
pub mod Equivalence
use feedsystem_video_go_medi.Prelude.{
  ℕ, ℤ, pos, negsuc, ◌+ℤ◌, Bool, true, false, not, ◌&&◌, ◌||◌, Option, none, some, String, str_eq,
  if◌then◌else◌, ◌==◌,
}
use feedsystem_video_go_medi.Video.Entity.{Video, Like}
use feedsystem_video_go_medi.Store.{
  Env, Error, Result, Action, ⊤, ok, err, pure, raise, or_raise, raise_if, now, query, execute,
  execute_unique, update_rows, attempt, transaction, is_dup_key, ◌>>=◌, ◌>>◌, message, LikeEvent,
}
use feedsystem_video_go_medi.Video.Repo.{
  find_video_row, update_videos, with_likes, with_popularity, like_taken, add_like, count_likes,
  delete_likes, new_like, video_exists, is_liked, like_ignore_duplicate,
  delete_by_video_and_account, change_likes_count, change_popularity,
}
use feedsystem_video_go_medi.Video.Messages.{
  publish_like, publish_popularity, enqueue, update_popularity_cache,
}

-- Which of its parts the service was made with.
pub record LikeService : Type 0 where
  pub has_video_repo : Bool
  pub has_cache : Bool
  pub has_like_mq : Bool
  pub has_popularity_mq : Bool

abbrev pub one_more_like : Video → Video
one_more_like v = record v { likes_count = v.likes_count +ℤ pos 1 }

abbrev pub more_popular : Video → Video
more_popular v = record v { popularity = v.popularity +ℤ pos 1 }

-- A duplicate key has its own message here.
abbrev pub liked_once : Result ⊤ → Action ⊤
liked_once (ok _) = pure tt
liked_once (err e) = if is_dup_key e then raise (message "user has liked this video") else raise e

module _ (env : Env) where
  -- The transaction of `Like`, for a row that was made at the time `t`.
  unfoldable pub like_directly : ℕ → ℕ → ℤ → Action ⊤
  like_directly video account t = transaction env (do
    found ← query env (find_video_row video)
    v ← or_raise found (message "video not found")
    created ← attempt (
        execute_unique env (like_taken (new_like video account t))
          (add_like (new_like video account t)))
    liked_once created
    execute env (update_videos video one_more_like)
    execute env (update_videos video more_popular))

  -- The transaction of `Unlike`.
  unfoldable pub unlike_directly : ℕ → ℕ → Action ⊤
  unlike_directly video account = transaction env (do
    n ← update_rows env (λ _. false) (count_likes video account) (delete_likes video account)
    raise_if (n == 0) (message "user has not liked this video")
    execute env (update_videos video (with_likes (negsuc 0)))
    execute env (update_videos video (with_popularity (negsuc 0))))

  -- `VideoRepo` may be missing, and then the video is not looked for.
  unfoldable pub require_video : Bool → ℕ → Action ⊤
  require_video has_video_repo video =
      if not has_video_repo
      then pure tt
      else do there ← video_exists env video; raise_if (not there) (message "video not found")

  unfoldable pub like_video : LikeService → ℕ → ℕ → Action ⊤
  like_video s video account = do
    raise_if ((video == 0) || (account == 0)) (message "video_id and account_id are required")
    require_video s.has_video_repo video
    already ← is_liked env video account
    raise_if already (message "user has liked this video")
    t ← now env
    mysql_enqueued ← enqueue env s.has_like_mq (publish_like env "like" account video)
    redis_enqueued ← enqueue env s.has_popularity_mq (publish_popularity env video (pos 1))
    if mysql_enqueued then pure tt else like_directly video account t
    if redis_enqueued then pure tt else update_popularity_cache env s.has_cache video (pos 1)

  unfoldable pub unlike_video : LikeService → ℕ → ℕ → Action ⊤
  unlike_video s video account = do
    raise_if ((video == 0) || (account == 0)) (message "video_id and account_id are required")
    require_video s.has_video_repo video
    already ← is_liked env video account
    raise_if (not already) (message "user has not liked this video")
    mysql_enqueued ← enqueue env s.has_like_mq (publish_like env "unlike" account video)
    redis_enqueued ← enqueue env s.has_popularity_mq (publish_popularity env video (negsuc 0))
    if mysql_enqueued then pure tt else unlike_directly video account
    if redis_enqueued then pure tt else update_popularity_cache env s.has_cache video (negsuc 0)

  -- The worker's part, statement by statement.
  unfoldable pub apply_like : ℕ → ℕ → Action ⊤
  apply_like user video = do
    there ← video_exists env video
    if not there then pure tt else do
      t ← now env
      created ← like_ignore_duplicate env (new_like video user t)
      if not created
          then pure tt
          else do change_likes_count env video (pos 1); change_popularity env video (pos 1)

  unfoldable pub apply_unlike : ℕ → ℕ → Action ⊤
  apply_unlike user video = do
    there ← video_exists env video
    if not there then pure tt else do
      deleted ← delete_by_video_and_account env video user
      if not deleted
          then pure tt
          else do change_likes_count env video (negsuc 0); change_popularity env video (negsuc 0)

  unfoldable pub apply_like_event : LikeEvent → Action ⊤
  apply_like_event e =
      if (e.user_id == 0) || (e.video_id == 0)
      then pure tt
      else (if str_eq e.action "like"
          then apply_like e.user_id e.video_id
          else (if str_eq e.action "unlike" then apply_unlike e.user_id e.video_id else pure tt))

  abbrev pub apply_if_read : Option LikeEvent → Action ⊤
  apply_if_read none = pure tt
  apply_if_read (some e) = apply_like_event e

  -- `process`: a body that is not in form is dropped.
  unfoldable pub process_like : (String → Option LikeEvent) → String → Action ⊤
  process_like decode body = apply_if_read (decode body)
