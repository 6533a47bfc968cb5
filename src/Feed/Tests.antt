-- ===== src/Feed/Tests.antt =====
-- Two small lists of videos, merged and put in order, and the feeds of a table with two videos.
use feedsystem_video_go_medi.Prelude.{
  ℕ, pos, ◌≡◌, refl, List, [], ◌∷◌, map, filter, any, All, true, Option, none, some, ◌⊎◌, String,
  str_eq, if◌then◌else◌, ◌==◌, order_by, insert_by, arith,
}
use feedsystem_video_go_medi.Store.{World, empty_db}
use feedsystem_video_go_medi.Store.Ensures.{OnResult}
use feedsystem_video_go_medi.Store.Ensures.Outcome.{Fails}
use feedsystem_video_go_medi.Pay.Sample.{calm}
use feedsystem_video_go_medi.Feed.Entity.{BucketCollection, TimedPage}
use feedsystem_video_go_medi.Feed.Repo.{more_liked}
use feedsystem_video_go_medi.Feed.Lister.{Redis, Formats, miss}
use feedsystem_video_go_medi.Feed.Service.{latest_key, list_latest_feed}
use feedsystem_video_go_medi.Feed.Paging.{HasIds, follow_likes, item_ids, video_ids}
use feedsystem_video_go_medi.Feed.Paging.Cursor.{IsReadable, bucket_at}
use feedsystem_video_go_medi.Feed.Paging.Complete.{follow_likes_complete}
use feedsystem_video_go_medi.Feed.Shared.{page_of}
use feedsystem_video_go_medi.Feed.Shared.Outcome.{IsHeld, list_latest_feed_outcome}
use feedsystem_video_go_medi.Video.Entity.{Video}
use feedsystem_video_go_medi.Feed.{merge_by_create_time, reorder_by_ids}
use feedsystem_video_go_medi.Feed.Order.{
  IsSorted, IsPageOf, merge_by_create_time-IsSorted, merge_by_create_time-IsPageOf,
}
use feedsystem_video_go_medi.Feed.Reorder.{has_id, reorder_by_ids-filter}

abbrev video : ℕ → ℕ → Video
video id seconds = record {
  id = id;
  author_id = 7;
  username = "ann";
  title = "a walk";
  tags = "";
  description = "";
  play_url = "/v";
  cover_url = "/c";
  create_time = pos seconds;
  likes_count = pos 0;
  popularity = pos 0;
}

abbrev inbox : List Video
inbox = video 1 50 ∷ video 2 30 ∷ []

abbrev outbox : List Video
outbox = video 3 40 ∷ video 4 20 ∷ []

three_newest : merge_by_create_time inbox outbox 3 ≡ video 1 50 ∷ video 3 40 ∷ video 2 30 ∷ []
unfolding merge_by_create_time
three_newest = refl

inbox-IsSorted : IsSorted inbox
inbox-IsSorted = (omega arith, (tt, tt))

outbox-IsSorted : IsSorted outbox
outbox-IsSorted = (omega arith, (tt, tt))

merge_by_create_time-IsSorted_example : IsSorted (merge_by_create_time inbox outbox 3)
merge_by_create_time-IsSorted_example =
    merge_by_create_time-IsSorted inbox outbox 3 inbox-IsSorted outbox-IsSorted

merge_by_create_time-IsPageOf_example :
    IsPageOf inbox outbox (merge_by_create_time inbox outbox 3) 3
merge_by_create_time-IsPageOf_example = merge_by_create_time-IsPageOf inbox outbox 3

reorder_by_ids-filter_example :
    map (λ (v : Video). v.id) (reorder_by_ids inbox (2 ∷ 9 ∷ 1 ∷ []))
    ≡ filter (λ id. any (has_id id) inbox) (2 ∷ 9 ∷ 1 ∷ [])
reorder_by_ids-filter_example = reorder_by_ids-filter inbox (2 ∷ 9 ∷ 1 ∷ [])

abbrev two_videos : World
two_videos = record { db = record empty_db { videos = inbox; next_id = 3 }; tick = 0 }

-- Cursors in one letter, for the video that a page ended with.
abbrev letter : BucketCollection → String
letter [] = "none"
letter ((k, b) ∷ bc) = if b.id_before == 1 then "a" else "b"

abbrev read_letter : String → Option BucketCollection
read_letter s =
    if str_eq s "a" then some (bucket_at (video 1 50)) else some (bucket_at (video 2 30))

abbrev letters : Formats
letters = record {
  decode_bucket = read_letter;
  encode_bucket = letter;
  parse_id = λ _. none;
  print = λ _. "0";
}

-- A cache that has nothing and gives every lock.
abbrev empty_redis : Redis
empty_redis = record {
  get_bytes = λ _ _. miss;
  lock = λ _ _. true;
  hot_range = λ _ _ _. some [];
  inbox_range = λ _ _ _ _. some [];
}

two_videos-HasIds : HasIds two_videos.db.videos
two_videos-HasIds = (omega arith, (refl, tt), (omega arith, tt, tt))

two_videos-IsReadable : All (IsReadable letters) two_videos.db.videos
two_videos-IsReadable = (refl, (refl, tt))

follow_likes_complete_example :
    OnResult
      (λ items d.
        (d ≡ two_videos.db)
        × (item_ids items ≡ video_ids (order_by more_liked two_videos.db.videos)))
      (Fails calm (λ _. ⊥))
      (follow_likes calm letters true empty_redis 4 1 3 none two_videos)
follow_likes_complete_example =
    follow_likes_complete calm letters true empty_redis 4 0 3 two_videos two_videos-HasIds
      two_videos-IsReadable (omega arith)

two_liked : video_ids (order_by more_liked two_videos.db.videos) ≡ 2 ∷ 1 ∷ []
unfolding order_by insert_by
two_liked = refl

abbrev no_page : String → Option TimedPage
no_page _ = none

list_latest_feed_outcome_example :
    OnResult
      (λ page d.
        (d ≡ two_videos.db)
        × ((page ≡ page_of 1 none 0 two_videos.db)
            ⊎ (◌≡◌ {A = ℕ} 0 0
                × IsHeld calm letters true empty_redis no_page
                    (latest_key calm letters true empty_redis no_page 1 none)
                    page)))
      (Fails calm (λ _. ⊥))
      (list_latest_feed calm letters true empty_redis no_page 1 none 0 two_videos)
list_latest_feed_outcome_example =
    list_latest_feed_outcome calm letters true empty_redis no_page 1 none 0 two_videos
