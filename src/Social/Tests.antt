-- ===== src/Social/Tests.antt =====
-- Following at a small state: two accounts, neither of which follows the other.
use feedsystem_video_go_medi.Prelude.{String, Option, some, true, [], ◌∷◌}
use feedsystem_video_go_medi.Account.Entity.{Account}
use feedsystem_video_go_medi.Store.{World, SocialEvent, empty_db}
use feedsystem_video_go_medi.Store.Ensures.{OnAtomic}
use feedsystem_video_go_medi.Store.Ensures.Outcome.{Fails}
use feedsystem_video_go_medi.Social.Follow.{follow, process_social}
use feedsystem_video_go_medi.Social.Follow.Outcome.{FollowDone, FollowRefused, follow_outcome}
use feedsystem_video_go_medi.Pay.Sample.{calm}

abbrev ann : Account
ann = record { id = 3; username = "ann"; password = ""; token = ""; role = "user" }

abbrev bob : Account
bob = record { id = 4; username = "bob"; password = ""; token = ""; role = "user" }

abbrev strangers : World
strangers = record { db = record empty_db { accounts = bob ∷ ann ∷ [] }; tick = 0 }

follow_outcome_example :
    OnAtomic strangers.db
      (FollowDone 3 4 strangers.db)
      (Fails calm (FollowRefused 3 4 strangers.db))
      (follow calm true 3 4 strangers)
follow_outcome_example = follow_outcome calm true 3 4 strangers

abbrev follow_bob : String → Option SocialEvent
follow_bob _ = some (record { action = "follow"; follower_id = 3; vlogger_id = 4 })

abbrev ann_follows : World
ann_follows = (process_social calm follow_bob "body" strangers).1
