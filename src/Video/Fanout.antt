-- ===== src/Video/Fanout.antt =====
-- The worker that spreads a published video, backend/internal/worker/videoworker.go, with
-- `BatchInsertFollowFeedInbox` of backend/internal/video/video_repo.go, and the worker of the hot list,
-- backend/internal/worker/popularityworker.go. An author with few followers has the video put into
-- their inboxes, one with many into the outbox.
pub mod Counts
pub mod Batch
pub mod Delivery
pub mod Once
pub mod Spread
pub mod Again
use feedsystem_video_go_medi.Prelude.{
  ℕ, zero, suc, ℤ, pos, ◌+◌, ltb, leb_ℤ, ltb_ℤ, eqb_ℤ, Bool, true, false, not, ◌&&◌, ◌||◌, Option,
  none, some, List, [], ◌∷◌, ◌++◌, String, str_eq, if◌then◌else◌, ◌==◌, any, filter, map, length,
  unix_milli,
}
use feedsystem_video_go_medi.Account.Entity.{Account}
use feedsystem_video_go_medi.Video.Entity.{FollowFeedInbox}
use feedsystem_video_go_medi.Video.Service.{insert_feed_outbox}
use feedsystem_video_go_medi.Video.Messages.{update_popularity_cache}
use feedsystem_video_go_medi.Store.{
  Db, Env, Action, ⊤, pure, raise, raise_if, now, execute_unique, contact, ignore_dup, message,
  VideoEvent, PopularityEvent, Result, ok, err, attempt, is_dup_key, ◌>>=◌, ◌>>◌,
}
use feedsystem_video_go_medi.Social.Follow.{count_followers, get_followers_batch}

-- The unique index `uk_user_post`.
abbrev pub is_inbox_of : ℤ → ℤ → FollowFeedInbox → Bool
is_inbox_of user post r = eqb_ℤ r.user_id user && eqb_ℤ r.post_id post

-- The rows of one statement, each with its own `id`.
unfoldable pub add_inbox : FollowFeedInbox → Db → Db
add_inbox i d = record d {
  inboxes = record i { id = d.next_id } ∷ d.inboxes;
  next_id = suc d.next_id;
}

unfoldable pub add_inboxes : List FollowFeedInbox → Db → Db
unfolding add_inbox
add_inboxes [] d = d
add_inboxes (i ∷ is) d = add_inboxes is (add_inbox i d)

-- Whether one of the rows meets its key, in the table or in a row before it.
unfoldable pub inbox_taken : List FollowFeedInbox → Db → Bool
unfolding add_inbox
inbox_taken [] d = false
inbox_taken (i ∷ is) d =
    any (is_inbox_of i.user_id i.post_id) d.inboxes || inbox_taken is (add_inbox i d)

abbrev pub new_inbox : ℤ → ℤ → ℤ → ℤ → Account → FollowFeedInbox
new_inbox post author score t a = record {
  id = 0;
  user_id = pos a.id;
  post_id = post;
  author_id = author;
  score = score;
  is_read = pos 0;
  is_deleted = pos 0;
  created_at = t;
}

abbrev pub inboxes_of : ℤ → ℤ → ℤ → ℤ → List Account → List FollowFeedInbox
inboxes_of post author score t followers =
    map (new_inbox post author score t) (filter (λ a. not (a.id == 0)) followers)

module _ (env : Env) where
  abbrev pub insert_inboxes : List FollowFeedInbox → Action ⊤
  insert_inboxes [] = pure tt
  insert_inboxes (i ∷ is) = execute_unique env (inbox_taken (i ∷ is)) (add_inboxes (i ∷ is))

  -- One statement in one transaction: there are at most 500 rows.
  unfoldable pub batch_insert_follow_feed_inbox : List Account → ℤ → ℤ → ℤ → Action ⊤
  batch_insert_follow_feed_inbox [] post author score = pure tt
  batch_insert_follow_feed_inbox (a ∷ others) post author score = do
    raise_if (eqb_ℤ post (pos 0) || eqb_ℤ author (pos 0))
        (message "postID and authorID are required")
    t ← now env
    insert_inboxes (inboxes_of post author score t (a ∷ others))

  -- What becomes of the loop after a batch was written: a duplicate key ends it without an error.
  abbrev pub after_batch : Result ⊤ → Action ⊤ → Action ⊤
  after_batch (ok _) m = do contact; m
  after_batch (err e) m = if is_dup_key e then pure tt else raise e

  -- The loop over the batches of `size` followers; `fuel` bounds the rounds.
  unfoldable pub fan_out : ℕ → ℕ → VideoEvent → ℤ → ℕ → Action ⊤
  fan_out zero size e score last_relation = raise (message "out of fuel")
  fan_out (suc fuel) size e score last_relation = do
    batch ← get_followers_batch env e.author_id last_relation size
    if length batch.0 == 0 then pure tt else do
      written ←
          attempt (batch_insert_follow_feed_inbox batch.0 (pos e.video_id) (pos e.author_id) score)
      after_batch written
          (if ltb (length batch.0) size then pure tt else fan_out fuel size e score batch.1)

  abbrev pub batch_size : ℕ
  batch_size = 500

  unfoldable pub publish_inbox : ℕ → ℕ → VideoEvent → ℤ → Action ⊤
  publish_inbox threshold fuel e score = do
    followers ← count_followers env e.author_id
    if not (ltb followers threshold) then pure tt else fan_out fuel batch_size e score 0

  unfoldable pub publish_outbox : ℕ → VideoEvent → ℤ → Action ⊤
  publish_outbox threshold e score = do
    followers ← count_followers env e.author_id
    if ltb followers threshold
        then pure tt
        else ignore_dup (insert_feed_outbox env (pos e.author_id) (pos e.video_id) score)

  -- The score is the time of the event, or the present where the event has none.
  abbrev pub score_of : VideoEvent → Action ℤ
  score_of e =
      if leb_ℤ (unix_milli e.occurred_at) (pos 0)
      then (do t ← now env; pure (unix_milli t))
      else pure (unix_milli e.occurred_at)

  unfoldable pub apply_video_event : ℕ → ℕ → VideoEvent → Action ⊤
  apply_video_event threshold fuel e =
      if (e.video_id == 0) || (e.author_id == 0) then pure tt else do
        score ← score_of e
        if str_eq e.action "publish_inbox"
            then publish_inbox threshold fuel e score
            else (if str_eq e.action "publish_outbox"
                then publish_outbox threshold e score
                else pure tt)

  abbrev pub apply_if_video : ℕ → ℕ → Option VideoEvent → Action ⊤
  apply_if_video threshold fuel none = pure tt
  apply_if_video threshold fuel (some e) = apply_video_event threshold fuel e

  -- `process`: a body that is not in form is dropped.
  unfoldable pub process_video : ℕ → ℕ → (String → Option VideoEvent) → String → Action ⊤
  process_video threshold fuel decode body = apply_if_video threshold fuel (decode body)

  abbrev pub apply_popularity : Bool → Option PopularityEvent → Action ⊤
  apply_popularity has_cache none = pure tt
  apply_popularity has_cache (some e) =
      if (e.video_id == 0) || eqb_ℤ e.change (pos 0)
      then pure tt
      else update_popularity_cache env has_cache e.video_id e.change

  unfoldable pub process_popularity : Bool → (String → Option PopularityEvent) → String → Action ⊤
  process_popularity has_cache decode body = apply_popularity has_cache (decode body)

-- `NewVideoWorker`: a threshold that is not positive stands for 1000.
abbrev pub big_v_threshold : ℤ → ℤ
big_v_threshold n = if leb_ℤ n (pos 0) then pos 1000 else n
