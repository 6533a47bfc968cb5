-- ===== src/Feed/Lister.antt =====
-- The four feeds: backend/internal/feed/lister.go. What Redis holds is the world's answer at each tick;
-- a call that times out fails.
use feedsystem_video_go_medi.Prelude.{
  ℕ, ℤ, pos, add64, sub64, ltb, ltb_ℤ, eqb_ℤ, Bool, not, Option, none, some, List, [], ◌∷◌, String,
  str_eq, if◌then◌else◌, ◌==◌, find, map, length, last, keep_some, unix, from_unix,
}
use feedsystem_video_go_medi.Video.Entity.{Video}
use feedsystem_video_go_medi.Store.{
  Env, Result, Action, ok, err, pure, raise, observe, attempt, message, ◌>>=◌,
}
use feedsystem_video_go_medi.Social.Follow.{following_ids}
use feedsystem_video_go_medi.Feed.{merge_by_create_time, reorder_by_ids}
use feedsystem_video_go_medi.Feed.Entity.{
  BucketDetail, BucketCollection, new_bucket, latest, order_by_likes, followings,
  order_by_popularity, LikesCountCursor,
}
use feedsystem_video_go_medi.Feed.Repo.{
  list_latest, list_likes_count_with_cursor, list_by_popularity, list_by_following_inbox,
  get_outbox_by_authors, get_by_ids, score_or_zero,
}

-- What the cache gives for a key.
pub data Reply : Type 0 where
  hit : String → Reply
  miss failed : Reply

-- What Redis answers at a tick: the bytes under a key, whether a lock was won, the members of the hot list
-- between two ranks, and the members of an account's inbox, with their scores, below a score and
-- up to a number.
pub record Redis : Type 0 where
  pub get_bytes : ℕ → String → Reply
  pub lock : ℕ → String → Bool
  pub hot_range : ℕ → ℤ → ℤ → Option (List String)
  pub inbox_range : ℕ → ℕ → Option ℤ → ℕ → Option (List (String × ℤ))

-- What the feeds use of libraries: JSON of the cursors, and numbers in digits.
pub record Formats : Type 0 where
  pub decode_bucket : String → Option BucketCollection
  pub encode_bucket : BucketCollection → String
  pub parse_id : String → Option ℕ
  pub print : ℤ → String

-- `FeedLister`: the cursor that a request brings or starts with, and a page with the cursor after it.
pub record FeedLister : Type 0 where
  pub build_buckets : Option String → BucketDetail
  pub fetch_video_list : ℕ → ℕ → BucketDetail → Action (List Video × BucketDetail)

abbrev pub or_new : String → Option (String × BucketDetail) → BucketDetail
or_new kind none = new_bucket kind
or_new kind (some (_, b)) = b

abbrev pub restored : String → Option BucketCollection → BucketDetail
restored kind none = new_bucket kind
restored kind (some bc) = or_new kind (find (λ (k, b). str_eq k kind) bc)

abbrev pub bucket_of : Formats → String → Option String → BucketDetail
bucket_of x kind none = new_bucket kind
bucket_of x kind (some s) = restored kind (x.decode_bucket s)

abbrev pub latest_buckets : Formats → Option String → BucketDetail
latest_buckets x s = bucket_of x latest s

abbrev pub followings_buckets : Formats → Option String → BucketDetail
followings_buckets x s = bucket_of x followings s

abbrev pub likes_buckets : Formats → Option String → BucketDetail
likes_buckets x s = bucket_of x order_by_likes s

abbrev pub popularity_buckets : Formats → Option String → BucketDetail
popularity_buckets x s = bucket_of x order_by_popularity s

-- The cursor after a page; a page with nothing on it leaves it alone.
abbrev pub after_latest : BucketDetail → Option Video → BucketDetail
after_latest b none = b
after_latest b (some v) = record b { score_before = unix v.create_time }

abbrev pub after_likes : BucketDetail → Option Video → BucketDetail
after_likes b none = b
after_likes b (some v) = record b { score_before = v.likes_count; id_before = v.id }

abbrev pub after_popularity : BucketDetail → Option Video → BucketDetail
after_popularity b none = b
after_popularity b (some v) = record b {
  score_before = v.popularity;
  time_before = unix v.create_time;
  id_before = v.id;
}

-- Each cursor of the followings moves to the end of what was read, where something was.
abbrev pub after_followings : BucketDetail → ℤ → ℤ → BucketDetail
after_followings b inbox outbox = record b {
  score_before = if ltb_ℤ (pos 0) inbox then inbox else b.score_before;
  outbox_score_before = if ltb_ℤ (pos 0) outbox then outbox else b.outbox_score_before;
}

abbrev pub likes_cursor : BucketDetail → Option LikesCountCursor
likes_cursor b =
    if ltb 0 b.id_before
    then some (record { likes_count = b.score_before; id = b.id_before })
    else none

-- A number that is an id.
abbrev pub positive : Option ℕ → Option ℕ
positive none = none
positive (some n) = if ltb 0 n then some n else none

unfoldable pub parse_ids : Formats → List String → List ℕ
parse_ids x members = keep_some (λ m. positive (x.parse_id m)) members

-- What `tryRedisInbox` returns.
pub data InboxRead : Type 0 where
  inbox_hit : List Video → ℤ → InboxRead
  inbox_empty inbox_failed : InboxRead

abbrev pub in_order : List ℕ → ℤ → Result (List Video) → InboxRead
in_order ids score (ok videos) = inbox_hit (reorder_by_ids videos ids) score
in_order ids score (err _) = inbox_failed

module _ (env : Env) (x : Formats) (has_cache : Bool) (redis : Redis) where
  unfoldable pub latest_list : ℕ → BucketDetail → Action (List Video × BucketDetail)
  latest_list limit b = do
    let before = if ltb_ℤ (pos 0) b.score_before then some (from_unix b.score_before) else none
    videos ← list_latest env limit before
    pure (videos, after_latest b (last videos))

  unfoldable pub likes_list : ℕ → BucketDetail → Action (List Video × BucketDetail)
  likes_list limit b = do
    videos ← list_likes_count_with_cursor env limit (likes_cursor b)
    pure (videos, after_likes b (last videos))

  abbrev pub read_inbox : Option (List (String × ℤ)) → Action InboxRead
  read_inbox none = pure inbox_failed
  read_inbox (some []) = pure inbox_empty
  read_inbox (some (i ∷ is)) = do
    let ids = parse_ids x (map (λ (m, s). m) (i ∷ is))
    videos ← attempt (get_by_ids env ids)
    pure (in_order ids (score_or_zero (last (map (λ (m, s). s) (i ∷ is)))) videos)

  unfoldable pub try_redis_inbox : ℕ → ℤ → ℕ → Action InboxRead
  try_redis_inbox viewer score_before limit = do
    let bound = if ltb_ℤ (pos 0) score_before then some score_before else none
    items ← observe (λ n. redis.inbox_range n viewer bound limit)
    read_inbox items

  -- An inbox that is empty in Redis counts only after the first page.
  abbrev pub inbox_or_table : ℕ → ℤ → ℕ → InboxRead → Action (List Video × ℤ)
  inbox_or_table viewer score_before limit (inbox_hit videos score) = pure (videos, score)
  inbox_or_table viewer score_before limit inbox_empty =
      if eqb_ℤ score_before (pos 0)
      then list_by_following_inbox env viewer score_before limit
      else pure ([], pos 0)
  inbox_or_table viewer score_before limit inbox_failed =
      list_by_following_inbox env viewer score_before limit

  unfoldable pub fetch_inbox : ℕ → ℤ → ℕ → Action (List Video × ℤ)
  fetch_inbox viewer score_before limit =
      if not has_cache then list_by_following_inbox env viewer score_before limit else do
        read ← try_redis_inbox viewer score_before limit
        inbox_or_table viewer score_before limit read

  unfoldable pub followings_list : ℕ → ℕ → BucketDetail → Action (List Video × BucketDetail)
  followings_list viewer limit b =
      if viewer == 0 then raise (message "followings feed requires login") else do
        inbox ← fetch_inbox viewer b.score_before limit
        authors ← following_ids env viewer
        outbox ← get_outbox_by_authors env authors b.outbox_score_before limit
        pure (merge_by_create_time inbox.0 outbox.0 limit, after_followings b inbox.1 outbox.1)

  -- The tables' answer, where Redis has none.
  unfoldable pub popularity_fallback : ℕ → BucketDetail → Action (List Video × BucketDetail)
  popularity_fallback limit b = do
    videos ←
        (if ltb 0 b.id_before
          then list_by_popularity env limit b.score_before (some (from_unix b.time_before))
              b.id_before
          else list_by_popularity env limit (pos 0) none 0)
    pure (videos, after_popularity b (last videos))

  abbrev pub hot_or_table :
      ℕ → BucketDetail → List ℕ → Result (List Video) → Action (List Video × BucketDetail)
  hot_or_table limit b ids (ok videos) =
      pure (reorder_by_ids videos ids, record b { offset = add64 b.offset (pos (length videos)) })
  hot_or_table limit b ids (err _) = popularity_fallback limit b

  abbrev pub hot_list : ℕ → BucketDetail → Option (List String) → Action (List Video × BucketDetail)
  hot_list limit b none = popularity_fallback limit b
  hot_list limit b (some []) =
      if ltb_ℤ (pos 0) b.offset then pure ([], b) else popularity_fallback limit b
  hot_list limit b (some (m ∷ ms)) = do
    let ids = parse_ids x (m ∷ ms)
    videos ← attempt (get_by_ids env ids)
    hot_or_table limit b ids videos

  unfoldable pub popularity_list : ℕ → BucketDetail → Action (List Video × BucketDetail)
  popularity_list limit b = if not has_cache then popularity_fallback limit b else do
    members ← observe (λ n. redis.hot_range n b.offset (sub64 (add64 b.offset (pos limit)) (pos 1)))
    hot_list limit b members

  -- `listerMap`
  unfoldable pub lister_map : String → Option FeedLister
  lister_map q =
      if str_eq q latest
      then some (record {
        build_buckets = latest_buckets x;
        fetch_video_list = λ viewer limit b. latest_list limit b;
      })
      else (if str_eq q followings
          then some (record {
            build_buckets = followings_buckets x;
            fetch_video_list = λ viewer limit b. followings_list viewer limit b;
          })
          else (if str_eq q order_by_likes
              then some (record {
                build_buckets = likes_buckets x;
                fetch_video_list = λ viewer limit b. likes_list limit b;
              })
              else (if str_eq q order_by_popularity
                  then some (record {
                    build_buckets = popularity_buckets x;
                    fetch_video_list = λ viewer limit b. popularity_list limit b;
                  })
                  else none)))
