-- ===== src/Feed/Repo.antt =====
-- The queries of the feeds: backend/internal/feed/repo.go. Rows that tie come in the table's order. A
-- time that is none is Go's zero time.
use feedsystem_video_go_medi.Prelude.{
  ℕ, ℤ, pos, ltb, ltb_ℤ, eqb_ℤ, Bool, true, not, ◌&&◌, ◌||◌, Option, none, some, List, [], ◌∷◌,
  if◌then◌else◌, ◌==◌, any, filter, map, take, order_by, last, to_uint,
}
use feedsystem_video_go_medi.Video.Entity.{Video, FollowFeedInbox, FeedOutbox}
use feedsystem_video_go_medi.Store.{Db, Env, Action, pure, query, ◌>>=◌}
use feedsystem_video_go_medi.Feed.{reorder_by_ids}
use feedsystem_video_go_medi.Feed.Entity.{LikesCountCursor}

-- `create_time DESC`, and `create_time < ?` where there is a time.
abbrev pub newer : Video → Video → Bool
newer a b = ltb_ℤ b.create_time a.create_time

abbrev pub is_before : Option ℤ → Video → Bool
is_before none v = true
is_before (some t) v = ltb_ℤ v.create_time t

-- `likes_count DESC, id DESC`
abbrev pub more_liked : Video → Video → Bool
more_liked a b =
    ltb_ℤ b.likes_count a.likes_count || (eqb_ℤ b.likes_count a.likes_count && ltb b.id a.id)

-- `(likes_count < ?) OR (likes_count = ? AND id < ?)`
abbrev pub is_less_liked : Option LikesCountCursor → Video → Bool
is_less_liked none v = true
is_less_liked (some c) v =
    ltb_ℤ v.likes_count c.likes_count || (eqb_ℤ v.likes_count c.likes_count && ltb v.id c.id)

-- `popularity DESC, create_time DESC, id DESC`
abbrev pub more_popular : Video → Video → Bool
more_popular a b =
    ltb_ℤ b.popularity a.popularity
    || (eqb_ℤ b.popularity a.popularity && ltb_ℤ b.create_time a.create_time)
    || (eqb_ℤ b.popularity a.popularity && eqb_ℤ b.create_time a.create_time && ltb b.id a.id)

-- A cursor counts only where it is complete.
abbrev pub is_less_popular : ℤ → Option ℤ → ℕ → Video → Bool
is_less_popular popularity none id v = true
is_less_popular popularity (some t) id v =
    if ltb 0 id
    then ltb_ℤ v.popularity popularity
      || (eqb_ℤ v.popularity popularity && ltb_ℤ v.create_time t)
      || (eqb_ℤ v.popularity popularity && eqb_ℤ v.create_time t && ltb v.id id)
    else true

-- The authors whom an account follows; an account that is none stands for no condition.
abbrev pub is_by_followed : ℕ → Db → Video → Bool
is_by_followed viewer d v =
    not (ltb 0 viewer)
    || any (λ s. (s.follower_id == viewer) && (s.vlogger_id == v.author_id)) d.socials

-- `score DESC, id DESC`, and `score < ?` where a score is given.
abbrev pub higher_inbox : FollowFeedInbox → FollowFeedInbox → Bool
higher_inbox a b = ltb_ℤ b.score a.score || (eqb_ℤ b.score a.score && ltb b.id a.id)

abbrev pub higher_outbox : FeedOutbox → FeedOutbox → Bool
higher_outbox a b = ltb_ℤ b.score a.score || (eqb_ℤ b.score a.score && ltb b.id a.id)

abbrev pub is_below : ℤ → ℤ → Bool
is_below bound score = not (ltb_ℤ (pos 0) bound) || ltb_ℤ score bound

unfoldable pub latest_rows : ℕ → Option ℤ → Db → List Video
latest_rows limit before d = take limit (order_by newer (filter (is_before before) d.videos))

unfoldable pub liked_rows : ℕ → Option LikesCountCursor → Db → List Video
liked_rows limit cursor d =
    take limit (order_by more_liked (filter (is_less_liked cursor) d.videos))

unfoldable pub followed_rows : ℕ → ℕ → Option ℤ → Db → List Video
followed_rows limit viewer before d =
    take limit
      (order_by newer (filter (λ v. is_by_followed viewer d v && is_before before v) d.videos))

unfoldable pub popular_rows : ℕ → ℤ → Option ℤ → ℕ → Db → List Video
popular_rows limit popularity before id d =
    take limit (order_by more_popular (filter (is_less_popular popularity before id) d.videos))

unfoldable pub inbox_rows : ℕ → ℤ → ℕ → Db → List FollowFeedInbox
inbox_rows user bound limit d = take limit (
    order_by higher_inbox (
      filter
        (λ r. eqb_ℤ r.user_id (pos user) && eqb_ℤ r.is_deleted (pos 0) && is_below bound r.score)
        d.inboxes))

unfoldable pub outbox_rows : List ℕ → ℤ → ℕ → Db → List FeedOutbox
outbox_rows authors bound limit d = take limit (
    order_by higher_outbox (
      filter (λ r. any (λ a. eqb_ℤ r.author_id (pos a)) authors && is_below bound r.score)
        d.outboxes))

-- `id IN ?`
unfoldable pub videos_in : List ℕ → Db → List Video
videos_in ids d = filter (λ v. any (λ i. v.id == i) ids) d.videos

-- The score of the last row; 0 where there is none.
abbrev pub score_or_zero : Option ℤ → ℤ
score_or_zero none = pos 0
score_or_zero (some s) = s

module _ (env : Env) where
  unfoldable pub list_latest : ℕ → Option ℤ → Action (List Video)
  list_latest limit before = query env (latest_rows limit before)

  unfoldable pub list_likes_count_with_cursor : ℕ → Option LikesCountCursor → Action (List Video)
  list_likes_count_with_cursor limit cursor = query env (liked_rows limit cursor)

  unfoldable pub list_by_following : ℕ → ℕ → Option ℤ → Action (List Video)
  list_by_following limit viewer before = query env (followed_rows limit viewer before)

  unfoldable pub list_by_popularity : ℕ → ℤ → Option ℤ → ℕ → Action (List Video)
  list_by_popularity limit popularity before id =
      query env (popular_rows limit popularity before id)

  -- The videos of the posts, in the posts' order, and the score after which the next page starts.
  abbrev pub posted : List ℕ → ℤ → Action (List Video × ℤ)
  posted [] score = pure ([], pos 0)
  posted (id ∷ ids) score = do
    videos ← query env (videos_in (id ∷ ids))
    pure (reorder_by_ids videos (id ∷ ids), score)

  unfoldable pub list_by_following_inbox : ℕ → ℤ → ℕ → Action (List Video × ℤ)
  list_by_following_inbox user bound limit = do
    items ← query env (inbox_rows user bound limit)
    posted (map (λ r. to_uint r.post_id) items) (score_or_zero (last (map (λ r. r.score) items)))

  unfoldable pub get_outbox_by_authors : List ℕ → ℤ → ℕ → Action (List Video × ℤ)
  get_outbox_by_authors [] bound limit = pure ([], pos 0)
  get_outbox_by_authors (a ∷ authors) bound limit = do
    items ← query env (outbox_rows (a ∷ authors) bound limit)
    posted (map (λ r. to_uint r.post_id) items) (score_or_zero (last (map (λ r. r.score) items)))

  unfoldable pub get_by_ids : List ℕ → Action (List Video)
  get_by_ids [] = pure []
  get_by_ids (id ∷ ids) = query env (videos_in (id ∷ ids))
