-- ===== src/Feed/Service.antt =====
-- The feed service: backend/internal/feed/service.go. `list_latest_feed` and `list_following_feed` stand for
-- the service's `ListLatest` and `ListByFollowing`, which keep pages in Redis for five seconds.
use feedsystem_video_go_medi.Prelude.{
  ℕ, zero, suc, ℤ, pos, add64, sub64, ltb_ℤ, Bool, false, not, ◌&&◌, Option, none, some, List, [],
  ◌∷◌, String, str_append, if◌then◌else◌, ◌==◌, map, length, last, unix,
}
use feedsystem_video_go_medi.Video.Entity.{Video}
use feedsystem_video_go_medi.Video.Repo.{batch_get_liked}
use feedsystem_video_go_medi.Store.{
  Env, Result, Action, ok, err, pure, raise, observe, contact, now, attempt, message, ◌>>=◌, ◌>>◌,
}
use feedsystem_video_go_medi.Feed.{reorder_by_ids}
use feedsystem_video_go_medi.Feed.Entity.{
  FeedVideoItem, FetchFeedsRequest, FetchFeedsResponse, TimedPage, LikesCountCursor,
  ListLikesCountResponse, ListByPopularityResponse,
}
use feedsystem_video_go_medi.Feed.Repo.{
  list_latest, list_by_following, list_likes_count_with_cursor, list_by_popularity, get_by_ids,
}
use feedsystem_video_go_medi.Feed.Lister.{
  Reply, hit, miss, failed, Redis, Formats, FeedLister, lister_map, parse_ids,
}
use feedsystem_video_go_medi.Feed.Responses.{
  feed_video, time_of_last, minute, unix_or_zero, likes_response, popularity_response,
}

abbrev pub reraise : {A : Type 0} → Result A → Action A
reraise (ok a) = pure a
reraise (err e) = raise e

module _ (env : Env) where
  unfoldable pub build_feed_videos : List Video → ℕ → Action (List FeedVideoItem)
  build_feed_videos videos viewer = do
    liked ← batch_get_liked env (map (λ v. v.id) videos) viewer
    pure (map (feed_video liked) videos)

  -- `doListLatestFromDB` and `doListByFollowingFromDB`
  abbrev pub timed_page : ℕ → ℕ → List Video → Action TimedPage
  timed_page limit viewer videos = do
    items ← build_feed_videos videos viewer
    pure (record {
      video_list = items;
      next_time = time_of_last (last videos);
      has_more = length videos == limit;
    })

  unfoldable pub latest_from_db : ℕ → Option ℤ → ℕ → Action TimedPage
  latest_from_db limit before viewer = do
    videos ← list_latest env limit before
    timed_page limit viewer videos

  unfoldable pub following_from_db : ℕ → Option ℤ → ℕ → Action TimedPage
  following_from_db limit before viewer = do
    videos ← list_by_following env limit viewer before
    timed_page limit viewer videos

  unfoldable pub list_likes_count : ℕ → Option LikesCountCursor → ℕ → Action ListLikesCountResponse
  list_likes_count limit cursor viewer = do
    videos ← list_likes_count_with_cursor env limit cursor
    items ← build_feed_videos videos viewer
    pure (likes_response items (length videos == limit) (last videos))

  -- The end of `ListByPopularity`: the tables' answer.
  unfoldable pub popularity_from_db : ℕ → ℕ → ℤ → Option ℤ → ℕ → Action ListByPopularityResponse
  popularity_from_db limit viewer popularity before id = do
    videos ← list_by_popularity env limit popularity before id
    items ← build_feed_videos videos viewer
    pure (popularity_response items (pos 0) (pos 0) (length items == limit) (last videos))

module _ (env : Env) (x : Formats) (has_cache : Bool) (redis : Redis) where
  abbrev pub fetched : FetchFeedsRequest → ℕ → Option FeedLister → Action FetchFeedsResponse
  fetched req viewer none = raise (message (str_append "unsupported query type: " req.q_type))
  fetched req viewer (some lister) = do
    page ← lister.fetch_video_list viewer req.limit (lister.build_buckets req.bucket)
    items ← build_feed_videos env page.0 viewer
    pure (record {
      video_list = items;
      has_more = length page.0 == req.limit;
      bucket = x.encode_bucket ((req.q_type, page.1) ∷ []);
    })

  unfoldable pub fetch_feeds : FetchFeedsRequest → ℕ → Action FetchFeedsResponse
  fetch_feeds req viewer = fetched req viewer (lister_map env x has_cache redis req.q_type)

  abbrev pub hot_page :
      ℕ
      → ℕ
      → ℤ
      → ℤ
      → List ℕ
      → Result (List Video)
      → Action ListByPopularityResponse
      → Action ListByPopularityResponse
  hot_page limit viewer as_of offset ids (err _) from_db = from_db
  hot_page limit viewer as_of offset ids (ok videos) from_db = do
    items ← build_feed_videos env (reorder_by_ids videos ids) viewer
    pure (
        popularity_response items as_of (add64 offset (pos (length items))) (length items == limit)
          (last (reorder_by_ids videos ids)))

  abbrev pub hot_members :
      ℕ
      → ℕ
      → ℤ
      → ℤ
      → Option (List String)
      → Action ListByPopularityResponse
      → Action ListByPopularityResponse
  hot_members limit viewer as_of offset none from_db = from_db
  hot_members limit viewer as_of offset (some []) from_db =
      if ltb_ℤ (pos 0) offset
      then pure (popularity_response [] as_of offset false none)
      else from_db
  hot_members limit viewer as_of offset (some (m ∷ ms)) from_db = do
    let ids = parse_ids x (m ∷ ms)
    videos ← attempt (get_by_ids env ids)
    hot_page limit viewer as_of offset ids videos from_db

  unfoldable pub list_popularity_feed :
      ℕ → ℤ → ℤ → ℕ → ℤ → Option ℤ → ℕ → Action ListByPopularityResponse
  list_popularity_feed limit req_as_of offset viewer popularity before id =
      if not has_cache then popularity_from_db env limit viewer popularity before id else do
        t ← now env
        let as_of = minute (if ltb_ℤ (pos 0) req_as_of then req_as_of else unix t)
        members ← observe (λ n. redis.hot_range n offset (sub64 (add64 offset (pos limit)) (pos 1)))
        hot_members limit viewer as_of offset members
            (popularity_from_db env limit viewer popularity before id)

module _ (env : Env) (x : Formats) (has_cache : Bool) (redis : Redis)
    (decode_page : String → Option TimedPage) where
  -- The page is read from the tables and put into the cache.
  abbrev pub and_set : Action TimedPage → Action TimedPage
  and_set from_db = do page ← from_db; contact; pure page

  abbrev pub page_in : Reply → Option TimedPage
  page_in (hit b) = decode_page b
  page_in miss = none
  page_in failed = none

  abbrev pub page_or : Option TimedPage → Action TimedPage → Action TimedPage
  page_or (some page) m = pure page
  page_or none m = m

  -- At most `n` more looks at the cache while another request fills it.
  unfoldable pub wait_for_page : ℕ → String → Action TimedPage → Action TimedPage
  wait_for_page zero key from_db = and_set from_db
  wait_for_page (suc n) key from_db = do
    reply ← observe (λ t. redis.get_bytes t key)
    page_or (page_in reply) (wait_for_page n key from_db)

  -- The lock is given back whatever comes of the page.
  abbrev pub with_lock : String → Action TimedPage → Action TimedPage
  with_lock key from_db = do
    reply ← observe (λ t. redis.get_bytes t key)
    page ← attempt (page_or (page_in reply) (and_set from_db))
    contact
    reraise page

  abbrev pub after_reply : String → Action TimedPage → Reply → Action TimedPage
  after_reply key from_db (hit b) = page_or (decode_page b) (and_set from_db)
  after_reply key from_db failed = and_set from_db
  after_reply key from_db miss = do
    locked ← observe (λ t. redis.lock t (str_append "lock:" key))
    if locked then with_lock key from_db else wait_for_page 5 key from_db

  unfoldable pub read_through : String → Action TimedPage → Action TimedPage
  read_through key from_db = do
    reply ← observe (λ t. redis.get_bytes t key)
    after_reply key from_db reply

  abbrev pub latest_key : ℕ → Option ℤ → String
  latest_key limit before =
      str_append "feed:listLatest:limit="
        (str_append (x.print (pos limit)) (str_append ":before=" (x.print (unix_or_zero before))))

  abbrev pub following_key : ℕ → ℕ → Option ℤ → String
  following_key limit viewer before = str_append "feed:listByFollowing:limit=" (
      str_append (x.print (pos limit)) (
        str_append ":accountID=" (
          str_append (x.print (pos viewer))
            (str_append ":before=" (x.print (unix_or_zero before))))))

  -- Only a viewer who is not logged in shares pages with others.
  unfoldable pub list_latest_feed : ℕ → Option ℤ → ℕ → Action TimedPage
  list_latest_feed limit before viewer =
      if (viewer == 0) && has_cache
      then read_through (latest_key limit before) (latest_from_db env limit before viewer)
      else latest_from_db env limit before viewer

  unfoldable pub list_following_feed : ℕ → Option ℤ → ℕ → Action TimedPage
  list_following_feed limit before viewer =
      if not (viewer == 0) && has_cache
      then read_through (following_key limit viewer before)
          (following_from_db env limit before viewer)
      else following_from_db env limit before viewer
