-- ===== src/Video/Service.antt =====
-- Publishing, deleting and counting of videos: `Publish`, `Delete`, `AdminDelete`, `UpdateLikesCount` and
-- `UpdatePopularity` of backend/internal/video/video_service.go, with what they use of video_repo.go.
-- `trim` is Go's `strings.TrimSpace`. Calls of the caches are made and their outcome is not read.
use feedsystem_video_go_medi.Prelude.{
  unix_milli, ℕ, suc, ℤ, pos, ◌+ℤ◌, eqb_ℤ, Bool, false, not, ◌&&◌, ◌||◌, ◌∷◌, String, str_eq,
  if◌then◌else◌, ◌==◌, any, filter,
}
use feedsystem_video_go_medi.Video.Entity.{Video, FeedOutbox}
use feedsystem_video_go_medi.Store.{
  Db, Env, Action, ⊤, pure, raise_if, now, execute, execute_unique, insert_unique, attempt, publish,
  contact, ◌>>=◌, ◌>>◌, message, to_orchestration,
}
use feedsystem_video_go_medi.Video.Repo.{has_video_id, update_videos, get_video}
use feedsystem_video_go_medi.Video.Messages.{
  publish_video, publish_popularity, enqueue, update_popularity_cache,
}

-- Which of its parts the service was made with.
pub record VideoService : Type 0 where
  pub has_cache : Bool
  pub has_popularity_mq : Bool
  pub has_video_mq : Bool
  pub has_orchestration_mq : Bool

-- What a request to publish holds, with the author that the handler adds.
pub record VideoDraft : Type 0 where
  pub author_id : ℕ
  pub username : String
  pub title : String
  pub description : String
  pub play_url : String
  pub cover_url : String

abbrev pub trimmed_draft : (String → String) → VideoDraft → VideoDraft
trimmed_draft trim v = record v {
  title = trim v.title;
  play_url = trim v.play_url;
  cover_url = trim v.cover_url;
}

abbrev pub new_video : VideoDraft → ℤ → Video
new_video v t = record {
  id = 0;
  author_id = v.author_id;
  username = v.username;
  title = v.title;
  tags = "";
  description = v.description;
  play_url = v.play_url;
  cover_url = v.cover_url;
  create_time = t;
  likes_count = pos 0;
  popularity = pos 0;
}

unfoldable pub add_video : Video → Db → Video × Db
add_video v d =
    let row = record v { id = d.next_id } in
    (row, record d { videos = row ∷ d.videos; next_id = suc d.next_id })

unfoldable pub delete_video_rows : ℕ → Db → Db
delete_video_rows id d = record d { videos = filter (λ v. not (has_video_id id v)) d.videos }

-- The unique index `uk_author_post`.
abbrev pub is_outbox_of : ℤ → ℤ → FeedOutbox → Bool
is_outbox_of author post o = eqb_ℤ o.author_id author && eqb_ℤ o.post_id post

unfoldable pub outbox_taken : ℤ → ℤ → Db → Bool
outbox_taken author post d = any (is_outbox_of author post) d.outboxes

unfoldable pub add_outbox : FeedOutbox → Db → Db
add_outbox o d = record d {
  outboxes = record o { id = d.next_id } ∷ d.outboxes;
  next_id = suc d.next_id;
}

abbrev pub new_outbox : ℤ → ℤ → ℤ → ℤ → FeedOutbox
new_outbox author post score t = record {
  id = 0;
  author_id = author;
  post_id = post;
  score = score;
  created_at = t;
}

abbrev pub set_likes : ℤ → Video → Video
set_likes n v = record v { likes_count = n }

abbrev pub add_popularity : ℤ → Video → Video
add_popularity change v = record v { popularity = v.popularity +ℤ change }

module _ (env : Env) where
  -- A row that takes its `id` and its `create_time` on the way in.
  unfoldable pub create_video : VideoDraft → Action Video
  create_video v = do t ← now env; insert_unique env (λ _. false) (add_video (new_video v t))

  -- A score of 0 stands for the time of the call.
  unfoldable pub insert_feed_outbox : ℤ → ℤ → ℤ → Action ⊤
  insert_feed_outbox author post score = do
    raise_if (eqb_ℤ author (pos 0) || eqb_ℤ post (pos 0))
        (message "authorID and postID are required")
    t ← now env
    let at_score = if eqb_ℤ score (pos 0) then unix_milli t else score
    created ← now env
    execute_unique env (outbox_taken author post)
        (add_outbox (new_outbox author post at_score created))

  -- The video goes to the inboxes and to the outbox by the queue; where the queue does not take the
  -- second event, the outbox is written, and what comes of it is not read.
  unfoldable pub announce_video : Video → Action ⊤
  announce_video v = do
    inbox_sent ← publish_video env "publish_inbox" v.id v.author_id
    outbox_sent ← publish_video env "publish_outbox" v.id v.author_id
    if outbox_sent
        then pure tt
        else do outcome ← attempt (insert_feed_outbox (pos v.author_id) (pos v.id) (pos 0)); pure tt

  unfoldable pub ask_analysis : Video → Action ⊤
  ask_analysis v = if v.id == 0 then pure tt else do
    sent ← publish env (
        to_orchestration (record {
          video_id = v.id;
          author_id = v.author_id;
          title = v.title;
          description = v.description;
        }))
    pure tt

  unfoldable pub publish_draft : VideoService → VideoDraft → Action Video
  publish_draft s v = do
    raise_if (str_eq v.title "") (message "title is required")
    raise_if (str_eq v.play_url "") (message "play url is required")
    raise_if (str_eq v.cover_url "") (message "cover url is required")
    row ← create_video v
    if s.has_video_mq then announce_video row else pure tt
    if s.has_orchestration_mq then ask_analysis row else pure tt
    pure row

  unfoldable pub publish_new_video : (String → String) → VideoService → VideoDraft → Action Video
  publish_new_video trim s v = publish_draft s (trimmed_draft trim v)

  -- The detail in the cache, and the place in the ranking.
  abbrev pub forget_video : Bool → Action ⊤
  forget_video has_cache = if has_cache then (contact >> contact) else pure tt

  unfoldable pub delete_own_video : VideoService → ℕ → ℕ → Action ⊤
  delete_own_video s id author = do
    v ← get_video env id
    raise_if (not (v.author_id == author)) (message "unauthorized")
    execute env (delete_video_rows id)
    forget_video s.has_cache

  unfoldable pub admin_delete_video : VideoService → ℕ → Action ⊤
  admin_delete_video s id = do
    v ← get_video env id
    execute env (delete_video_rows id)
    forget_video s.has_cache

  unfoldable pub update_likes_count : VideoService → ℕ → ℤ → Action ⊤
  update_likes_count s id n = do
    execute env (update_videos id (set_likes n))
    if s.has_cache then contact else pure tt

  unfoldable pub update_popularity : VideoService → ℕ → ℤ → Action ⊤
  update_popularity s id change = do
    execute env (update_videos id (add_popularity change))
    sent ← enqueue env s.has_popularity_mq (publish_popularity env id change)
    if sent then pure tt else update_popularity_cache env s.has_cache id change
