-- ===== src/Video/Comments.antt =====
-- Comments: backend/internal/video/comment_service.go, and the consumer of its events,
-- backend/internal/worker/commentworker.go. `trim` is Go's `strings.TrimSpace`.
use feedsystem_video_go_medi.Prelude.{
  ℕ, ℤ, pos, negsuc, Bool, not, ◌||◌, Option, none, some, List, String, str_eq, if◌then◌else◌, ◌==◌,
}
use feedsystem_video_go_medi.Video.Entity.{Comment}
use feedsystem_video_go_medi.Store.{
  Env, Action, ⊤, pure, or_raise, raise_if, now, query, execute, transaction, ◌>>=◌, ◌>>◌, message,
  CommentEvent,
}
use feedsystem_video_go_medi.Video.Repo.{
  find_video_row, update_videos, add_comment, video_exists, create_comment, delete_comment,
  get_comment, get_all_comments, change_popularity,
}
use feedsystem_video_go_medi.Video.Likes.{more_popular}
use feedsystem_video_go_medi.Video.Messages.{
  publish_comment, publish_comment_delete, publish_popularity, enqueue, update_popularity_cache,
}

-- Which of its parts the service was made with.
pub record CommentService : Type 0 where
  pub has_cache : Bool
  pub has_comment_mq : Bool
  pub has_popularity_mq : Bool

-- What a request to comment holds.
pub record CommentDraft : Type 0 where
  pub username : String
  pub video_id : ℕ
  pub author_id : ℕ
  pub content : String

abbrev pub trimmed : (String → String) → CommentDraft → CommentDraft
trimmed trim c = record c { username = trim c.username; content = trim c.content }

-- A row to insert at the time `t`.
abbrev pub new_comment : CommentDraft → ℤ → Comment
new_comment c t = record {
  id = 0;
  username = c.username;
  video_id = c.video_id;
  author_id = c.author_id;
  content = c.content;
  created_at = t;
}

abbrev pub event_draft : CommentEvent → CommentDraft
event_draft e = record {
  username = e.username;
  video_id = e.video_id;
  author_id = e.author_id;
  content = e.content;
}

module _ (env : Env) where
  -- The transaction of `Publish`.
  unfoldable pub comment_directly : CommentDraft → Action ⊤
  comment_directly c = transaction env (do
    found ← query env (find_video_row c.video_id)
    v ← or_raise found (message "video not found")
    t ← now env
    execute env (add_comment (new_comment c t))
    execute env (update_videos c.video_id more_popular))

  -- `Publish`, for a comment whose texts are trimmed.
  unfoldable pub publish_trimmed : CommentService → CommentDraft → Action ⊤
  publish_trimmed s c = do
    raise_if ((c.video_id == 0) || (c.author_id == 0))
        (message "video_id and author_id are required")
    raise_if (str_eq c.content "") (message "content is required")
    there ← video_exists env c.video_id
    raise_if (not there) (message "video not found")
    mysql_enqueued ←
        enqueue env s.has_comment_mq
          (publish_comment env c.username c.video_id c.author_id c.content)
    redis_enqueued ← enqueue env s.has_popularity_mq (publish_popularity env c.video_id (pos 1))
    if mysql_enqueued then pure tt else comment_directly c
    if redis_enqueued then pure tt else update_popularity_cache env s.has_cache c.video_id (pos 1)

  unfoldable pub comment_on : (String → String) → CommentService → CommentDraft → Action ⊤
  comment_on trim s c = publish_trimmed s (trimmed trim c)

  -- The end of both deletions, for a comment that was found and may be deleted.
  unfoldable pub remove_comment : CommentService → Comment → Action ⊤
  remove_comment s c = do
    enqueued ← enqueue env s.has_comment_mq (publish_comment_delete env c.id)
    if enqueued then pure tt else delete_comment env c
    popularity_sent ← enqueue env s.has_popularity_mq (publish_popularity env c.video_id (negsuc 0))
    if popularity_sent
        then pure tt
        else update_popularity_cache env s.has_cache c.video_id (negsuc 0)

  unfoldable pub delete_own_comment : CommentService → ℕ → ℕ → Action ⊤
  delete_own_comment s id account = do
    found ← get_comment env id
    c ← or_raise found (message "comment not found")
    raise_if (not (c.author_id == account)) (message "permission denied")
    remove_comment s c

  unfoldable pub admin_delete_comment : CommentService → ℕ → Action ⊤
  admin_delete_comment s id = do
    found ← get_comment env id
    c ← or_raise found (message "comment not found")
    remove_comment s c

  unfoldable pub comments_of : ℕ → Action (List Comment)
  comments_of video = do
    there ← video_exists env video
    raise_if (not there) (message "video not found")
    get_all_comments env video

  -- The worker's part, statement by statement.
  unfoldable pub apply_comment : CommentDraft → Action ⊤
  apply_comment c = do
    there ← video_exists env c.video_id
    if not there then pure tt else do
      t ← now env
      create_comment env (new_comment c t)
      change_popularity env c.video_id (pos 1)

  unfoldable pub apply_comment_publish : (String → String) → CommentEvent → Action ⊤
  apply_comment_publish trim e =
      if (e.video_id == 0) || (e.author_id == 0) || str_eq (trim e.content) ""
      then pure tt
      else apply_comment (trimmed trim (event_draft e))

  unfoldable pub apply_found_delete : Option Comment → Action ⊤
  apply_found_delete none = pure tt
  apply_found_delete (some c) = do delete_comment env c; change_popularity env c.video_id (negsuc 0)

  unfoldable pub apply_comment_delete : ℕ → Action ⊤
  apply_comment_delete id =
      if id == 0 then pure tt else do found ← get_comment env id; apply_found_delete found

  unfoldable pub apply_comment_event : (String → String) → CommentEvent → Action ⊤
  apply_comment_event trim e =
      if str_eq e.action "publish"
      then apply_comment_publish trim e
      else (if str_eq e.action "delete" then apply_comment_delete e.comment_id else pure tt)

  -- `process`: a body that is not in form is dropped.
  unfoldable pub process_comment :
      (String → String) → (String → Option CommentEvent) → String → Action ⊤
  process_comment trim decode body = elim (decode body) [
    | none ↦ pure tt
    | some e ↦ apply_comment_event trim e
  ]
