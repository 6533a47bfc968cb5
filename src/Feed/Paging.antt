-- ===== src/Feed/Paging.antt =====
-- A client that follows the feed of the most liked videos, page by page.
pub mod Cursor
pub mod Complete
use feedsystem_video_go_medi.Prelude.{
  ℕ, zero, suc, ℤ, pos, ◌+◌, ◌≤◌, ◌<◌, ltb, ltb_ℤ, eqb_ℤ, ◌≡◌, refl, ap, sym, subst, ◌∙◌, Bool,
  true, false, ◌&&◌, ◌||◌, Option, none, some, List, [], ◌∷◌, ◌++◌, map, String, str_eq, ◌==◌,
  if◌then◌else◌, length, take, last, All, arith, order_by, filter, find, Bool-cases, inl, inr, ◌⊎◌,
}
use mathlib.Core.List.{append_assoc, map-append}
use feedsystem_video_go_medi.Prelude.Lists.Ordered.{IsOrder, IsApart}
use feedsystem_video_go_medi.Prelude.Lists.Pages.{
  drop, take-append-drop, drop_short, length-drop, last-append, order_by_after,
}
use feedsystem_video_go_medi.Video.Entity.{Video}
use feedsystem_video_go_medi.Video.Repo.{batch_get_liked}
use feedsystem_video_go_medi.Store.{Db, World, Env, Error, Action, pure, query, ◌>>=◌, ◌>>◌}
use feedsystem_video_go_medi.Store.Ensures.{
  Ensures, OnResult, Ensures-pure, Ensures-if, Ensures-bind, query-then, pure-then, chain-then,
  start,
}
use feedsystem_video_go_medi.Store.Ensures.Outcome.{Fails, Fails-Tolerates}
use feedsystem_video_go_medi.Feed.Entity.{
  FeedVideoItem, FetchFeedsRequest, FetchFeedsResponse, BucketDetail, order_by_likes,
  LikesCountCursor,
}
use feedsystem_video_go_medi.Feed.Repo.{
  more_liked, is_less_liked, liked_rows, list_likes_count_with_cursor,
}
use feedsystem_video_go_medi.Feed.Lister.{
  Redis, Formats, likes_buckets, likes_cursor, after_likes, likes_list, lister_map, bucket_of,
}
use feedsystem_video_go_medi.Feed.Responses.{feed_video}
use feedsystem_video_go_medi.Feed.Service.{build_feed_videos, fetch_feeds, fetched}

abbrev pub item_ids : List FeedVideoItem → List ℕ
item_ids items = map (λ i. i.id) items

abbrev pub video_ids : List Video → List ℕ
video_ids vs = map (λ v. v.id) vs

pub more_liked-IsOrder : IsOrder more_liked
more_liked-IsOrder = record {
  trans = λ x y z h k. ground (arith, h, k);
  irrefl = λ x. ground arith;
}

-- No two videos have the same id, and every id is positive.
abbrev pub HasIds : List Video → Type 0
HasIds [] = Unit
HasIds (v ∷ vs) = (0 < v.id) × All (λ u. (u.id == v.id) ≡ false) vs × HasIds vs

apart :
    (v : Video) (vs : List Video)
    → All (λ u. (u.id == v.id) ≡ false) vs
    → All (λ u. (more_liked v u ≡ true) ⊎ (more_liked u v ≡ true)) vs
apart v [] h = tt
apart v (u ∷ vs) h = (
  elim (Bool-cases (more_liked v u)) [
    | inl first ↦ inl first
    | inr later ↦ inr (ground (arith, later, h.0))
  ],
  apart v vs h.1,
)

pub HasIds-IsApart : (vs : List Video) → HasIds vs → IsApart more_liked vs
HasIds-IsApart [] h = tt
HasIds-IsApart (v ∷ vs) h = (apart v vs h.1, HasIds-IsApart vs h.2)

feed_video_ids :
    (liked : List ℕ) (vs : List Video) → item_ids (map (feed_video liked) vs) ≡ video_ids vs
feed_video_ids liked [] = refl
feed_video_ids liked (v ∷ vs) = ap (λ l. v.id ∷ l) (feed_video_ids liked vs)

module _ {env : Env} {E : Error → Type 0} {d : Db} where
  liked_ids-Ensures :
      (ids : List ℕ) (viewer : ℕ)
      → Ensures env d (batch_get_liked env ids viewer) (λ _ d'. d' ≡ d) E
  unfolding batch_get_liked
  liked_ids-Ensures [] viewer = Ensures-pure _ refl
  liked_ids-Ensures (id ∷ ids) viewer =
      Ensures-if (viewer == 0) _ _ (λ nobody. Ensures-pure _ refl)
        (λ known. query-then _ _ (Ensures-pure _ refl))

  build_feed_videos-Ensures :
      (videos : List Video) (viewer : ℕ)
      → Ensures env d
          (build_feed_videos env videos viewer)
          (λ items d'. (d' ≡ d) × (item_ids items ≡ video_ids videos))
          E
  unfolding build_feed_videos
  build_feed_videos-Ensures videos viewer =
      Ensures-bind _ _ (liked_ids-Ensures (video_ids videos) viewer)
        (λ liked d' same. Ensures-pure _ (same, feed_video_ids liked videos))

abbrev pub likes_request : ℕ → Option String → FetchFeedsRequest
likes_request limit bucket = record {
  q_type = order_by_likes;
  limit = limit;
  user_id = 0;
  bucket = bucket;
}

module _ (env : Env) (x : Formats) (has_cache : Bool) (redis : Redis) (viewer limit : ℕ) where
  -- What a page holds and how it goes on, for the cursor `b`.
  pub record IsLikesPage (b : BucketDetail) (d : Db) (r : FetchFeedsResponse) : Type 0 where
    pub ids : item_ids r.video_list ≡ video_ids (liked_rows limit (likes_cursor b) d)
    pub more : r.has_more ≡ (length (liked_rows limit (likes_cursor b) d) == limit)
    pub next :
        r.bucket
        ≡ x.encode_bucket
            ((order_by_likes, after_likes b (last (liked_rows limit (likes_cursor b) d))) ∷ [])

  pub fetch_likes-Ensures :
      {E : Error → Type 0} (bucket : Option String) (d : Db)
      → Ensures env d
          (fetch_feeds env x has_cache redis (likes_request limit bucket) viewer)
          (λ r d'. (d' ≡ d) × IsLikesPage (likes_buckets x bucket) d r)
          E
  unfolding fetch_feeds lister_map likes_list list_likes_count_with_cursor
  fetch_likes-Ensures bucket d = chain-then _ _ _ (
      query-then _ _ (
        pure-then _ _ (
          Ensures-bind _ _ (build_feed_videos-Ensures _ viewer)
            (λ items d' h. Ensures-pure _ (h.0, record { ids = h.1; more = refl; next = refl })))))

  abbrev pub and_rest :
      FetchFeedsResponse → Action (List FeedVideoItem) → Action (List FeedVideoItem)
  and_rest page m =
      if page.has_more then (do rest ← m; pure (page.video_list ++ rest)) else pure page.video_list

  -- The pages that a client reads who brings each cursor back, `n` of them at most.
  unfoldable pub follow_likes : ℕ → Option String → Action (List FeedVideoItem)
  follow_likes zero bucket = pure []
  follow_likes (suc n) bucket = do
    page ← fetch_feeds env x has_cache redis (likes_request limit bucket) viewer
    and_rest page (follow_likes n (some page.bucket))
