-- ===== src/Feed/Responses.antt =====
-- What the feed service answers from the videos of a page: backend/internal/feed/service.go.
use feedsystem_video_go_medi.Prelude.{
  ℕ, ℤ, pos, negsuc, ◌+◌, ◌*◌, ◌/◌, Bool, Option, none, some, List, ◌==◌, any, unix,
}
use feedsystem_video_go_medi.Video.Entity.{Video}
use feedsystem_video_go_medi.Feed.Entity.{
  FeedVideoItem, ListLikesCountResponse, ListByPopularityResponse,
}

-- A video as a viewer sees it, who likes the videos `liked`.
abbrev pub feed_video : List ℕ → Video → FeedVideoItem
feed_video liked v = record {
  id = v.id;
  author = record { id = v.author_id; username = v.username };
  title = v.title;
  description = v.description;
  play_url = v.play_url;
  cover_url = v.cover_url;
  create_time = unix v.create_time;
  likes_count = v.likes_count;
  is_liked = any (λ i. i == v.id) liked;
}

abbrev pub time_of_last : Option Video → ℤ
time_of_last none = pos 0
time_of_last (some v) = unix v.create_time

-- `UTC().Truncate(time.Minute)`, in seconds.
abbrev pub minute : ℤ → ℤ
minute (pos n) = pos (n / 60 * 60)
minute (negsuc n) = negsuc (n / 60 * 60 + 59)

abbrev pub unix_or_zero : Option ℤ → ℤ
unix_or_zero none = pos 0
unix_or_zero (some t) = unix t

abbrev pub likes_response : List FeedVideoItem → Bool → Option Video → ListLikesCountResponse
likes_response items more none = record {
  video_list = items;
  next_likes_count_before = none;
  next_id_before = none;
  has_more = more;
}
likes_response items more (some v) = record {
  video_list = items;
  next_likes_count_before = some v.likes_count;
  next_id_before = some v.id;
  has_more = more;
}

abbrev pub popularity_response :
    List FeedVideoItem → ℤ → ℤ → Bool → Option Video → ListByPopularityResponse
popularity_response items as_of offset more none = record {
  video_list = items;
  as_of = as_of;
  next_offset = offset;
  has_more = more;
  next_latest_popularity = none;
  next_latest_before = none;
  next_latest_id_before = none;
}
popularity_response items as_of offset more (some v) = record {
  video_list = items;
  as_of = as_of;
  next_offset = offset;
  has_more = more;
  next_latest_popularity = some v.popularity;
  next_latest_before = some v.create_time;
  next_latest_id_before = some v.id;
}
