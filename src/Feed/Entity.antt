-- ===== src/Feed/Entity.antt =====
-- Requests, responses and cursors of the feeds: backend/internal/feed/entity.go and bucket.go. A limit
-- is a natural number: the handlers let only positive ones through.
use feedsystem_video_go_medi.Prelude.{ℕ, ℤ, pos, Bool, Option, List, String}

pub record FeedAuthor : Type 0 where
  pub id : ℕ
  pub username : String

pub record FeedVideoItem : Type 0 where
  pub id : ℕ
  pub author : FeedAuthor
  pub title : String
  pub description : String
  pub play_url : String
  pub cover_url : String
  pub create_time : ℤ
  pub likes_count : ℤ
  pub is_liked : Bool

abbrev pub latest : String
latest = "latest"

abbrev pub order_by_likes : String
order_by_likes = "order_by_likes"

abbrev pub followings : String
followings = "followings"

abbrev pub order_by_popularity : String
order_by_popularity = "order_by_popularity"

-- The state of a cursor, which the client brings back.
pub record BucketDetail : Type 0 where
  pub kind : String
  pub score_before : ℤ
  pub outbox_score_before : ℤ
  pub id_before : ℕ
  pub offset : ℤ
  pub as_of : ℤ
  pub time_before : ℤ

abbrev pub new_bucket : String → BucketDetail
new_bucket kind = record {
  kind = kind;
  score_before = pos 0;
  outbox_score_before = pos 0;
  id_before = 0;
  offset = pos 0;
  as_of = pos 0;
  time_before = pos 0;
}

-- A map from kinds of feeds to cursors; an entry without a cursor is left out.
abbrev pub BucketCollection : Type 0
BucketCollection = List (String × BucketDetail)

pub record FetchFeedsRequest : Type 0 where
  pub q_type : String
  pub limit : ℕ
  pub user_id : ℕ
  pub bucket : Option String

pub record FetchFeedsResponse : Type 0 where
  pub video_list : List FeedVideoItem
  pub has_more : Bool
  pub bucket : String

-- `ListLatestResponse` and `ListByFollowingResponse`, which have the same fields.
pub record TimedPage : Type 0 where
  pub video_list : List FeedVideoItem
  pub next_time : ℤ
  pub has_more : Bool

pub record LikesCountCursor : Type 0 where
  pub likes_count : ℤ
  pub id : ℕ

pub record ListLikesCountResponse : Type 0 where
  pub video_list : List FeedVideoItem
  pub next_likes_count_before : Option ℤ
  pub next_id_before : Option ℕ
  pub has_more : Bool

pub record ListByPopularityResponse : Type 0 where
  pub video_list : List FeedVideoItem
  pub as_of : ℤ
  pub next_offset : ℤ
  pub has_more : Bool
  pub next_latest_popularity : Option ℤ
  pub next_latest_before : Option ℤ
  pub next_latest_id_before : Option ℕ
