-- ===== src/Video/Tests.antt =====
-- Likes at a small state: one video that account 3 likes, and account 4 who likes it too. A video of account
-- 9, whom accounts 3 and 4 follow.
use feedsystem_video_go_medi.Prelude.{
  ℕ, pos, ◌≡◌, ltb, true, refl, some, [], ◌∷◌, arith, String, Option, count_where, filter, any, All,
  ◌==◌,
}
use feedsystem_video_go_medi.Video.Entity.{Video, Like}
use feedsystem_video_go_medi.Video.Likes.{like_directly, unlike_directly, apply_like, process_like}
use feedsystem_video_go_medi.Video.Likes.Matches.{LikesMatch}
use feedsystem_video_go_medi.Video.Likes.Kept.{directly-LikesMatch, process_like-LikesMatch}
use feedsystem_video_go_medi.Video.Likes.Equivalence.{apply_like-like_directly}
use feedsystem_video_go_medi.Account.Entity.{Account}
use feedsystem_video_go_medi.Social.Entity.{Social}
use feedsystem_video_go_medi.Video.Fanout.{publish_inbox}
use feedsystem_video_go_medi.Video.Fanout.Once.{CanSpread, IsSpread}
use feedsystem_video_go_medi.Video.Fanout.Counts.{row_of}
use feedsystem_video_go_medi.Video.Fanout.Delivery.{followers_of}
use feedsystem_video_go_medi.Video.Fanout.Again.{HasVideo, publish_inbox_again}
use feedsystem_video_go_medi.Video.Fanout.Spread.{publish_inbox-IsSpread}
use feedsystem_video_go_medi.Store.{World, LikeEvent, VideoEvent, empty_db}
use feedsystem_video_go_medi.Store.Ensures.{OnResult}
use feedsystem_video_go_medi.Store.Ensures.Outcome.{Fails}
use feedsystem_video_go_medi.Pay.Sample.{calm}

abbrev clip : Video
clip = record {
  id = 5;
  author_id = 9;
  username = "ann";
  title = "Cats";
  tags = "";
  description = "";
  play_url = "/cats.mp4";
  cover_url = "/cats.jpg";
  create_time = pos 1600000000000000000;
  likes_count = pos 1;
  popularity = pos 1;
}

abbrev like_3 : Like
like_3 = record { id = 1; video_id = 5; account_id = 3; created_at = pos 1600000001000000000 }

abbrev liked_clip : World
liked_clip = record {
  db = record empty_db { videos = clip ∷ []; likes = like_3 ∷ []; next_id = 2 };
  tick = 0;
}

liked_clip-LikesMatch : LikesMatch liked_clip.db
unfolding count_where
liked_clip-LikesMatch = record { counts = (refl, tt); once = λ video account. ground arith }

directly-LikesMatch_example :
    LikesMatch (like_directly calm 5 4 (pos 1700000000000000000) liked_clip).1.db
    × LikesMatch (unlike_directly calm 5 4 liked_clip).1.db
directly-LikesMatch_example =
    directly-LikesMatch calm 5 4 (pos 1700000000000000000) liked_clip liked_clip-LikesMatch

abbrev like_4 : String → Option LikeEvent
like_4 _ = some (record { action = "like"; user_id = 4; video_id = 5 })

process_like-LikesMatch_example : LikesMatch (process_like calm like_4 "body" liked_clip).1.db
process_like-LikesMatch_example =
    process_like-LikesMatch calm like_4 "body" liked_clip (λ n. refl) liked_clip-LikesMatch

apply_like-like_directly_example :
    (apply_like calm 4 5 liked_clip).1.db
    ≡ (like_directly calm 5 4 (pos 1700000000000000000) liked_clip).1.db
apply_like-like_directly_example =
    apply_like-like_directly calm 5 4 (pos 1700000000000000000) liked_clip (λ n. refl) (λ n. refl)
      refl refl ((omega arith, omega arith), tt)

abbrev account : ℕ → Account
account id = record { id = id; username = "user"; password = "p"; token = "t"; role = "user" }

abbrev follows : ℕ → ℕ → Social
follows id follower = record { id = id; follower_id = follower; vlogger_id = 9 }

abbrev followed : World
followed = record {
  db = record empty_db {
    accounts = account 3 ∷ account 4 ∷ account 9 ∷ [];
    socials = follows 2 4 ∷ follows 1 3 ∷ [];
    next_id = 10;
  };
  tick = 0;
}

followed-CanSpread : CanSpread 9 5 followed.db
unfolding count_where filter
followed-CanSpread = record {
  relation_ids = (omega arith, (refl, tt), (omega arith, tt, tt));
  once = λ u. ground arith;
  accounts = (refl, (refl, tt));
  account_ids = (omega arith, (omega arith, (omega arith, tt)));
  fresh = λ u. refl;
}

abbrev clip_published : VideoEvent
clip_published = record {
  action = "publish_inbox";
  video_id = 5;
  author_id = 9;
  occurred_at = pos 1600000000000000000;
}

two_followers : ltb (count_where (λ s. s.vlogger_id == 9) followed.db.socials) 1000 ≡ true
unfolding count_where
two_followers = refl

publish_inbox-IsSpread_example :
    OnResult
      (λ _ d. IsSpread 9 5 followed.db d)
      (Fails calm (λ _. ⊥))
      (publish_inbox calm 1000 3 clip_published (pos 1600000000000) followed)
publish_inbox-IsSpread_example =
    publish_inbox-IsSpread calm 1000 3 clip_published (pos 1600000000000) followed
      followed-CanSpread refl refl two_followers (omega arith)

abbrev delivered : World
delivered = record {
  db = record followed.db {
    inboxes =
        row_of 5 (pos 9) (pos 1600000000000) (pos 1600000000500000000) (account 3)
        ∷ row_of 5 (pos 9) (pos 1600000000000) (pos 1600000000500000000) (account 4)
        ∷ [];
  };
  tick = 0;
}

delivered_to_all : All (λ s. HasVideo 5 delivered.db s.follower_id) (followers_of 9 delivered.db)
unfolding filter any
delivered_to_all = (refl, (refl, tt))

publish_inbox_again_example :
    OnResult
      (λ _ d. d ≡ delivered.db)
      (Fails calm (λ _. ⊥))
      (publish_inbox calm 1000 1 clip_published (pos 1600000000000) delivered)
publish_inbox_again_example =
    publish_inbox_again calm 1000 0 clip_published (pos 1600000000000) delivered delivered_to_all
      (omega arith, (omega arith, (omega arith, tt))) refl refl
