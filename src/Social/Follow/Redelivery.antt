-- ===== src/Social/Follow/Redelivery.antt =====
-- The social worker, worker/socialworker.go of backend/internal, under repeated delivery of a message.
use feedsystem_video_go_medi.Prelude.{ℕ, ◌≡◌, ◌||◌, ◌==◌, str_eq, if◌then◌else◌}
use feedsystem_video_go_medi.Store.{Db, World, Result, ⊤, SocialEvent}
use feedsystem_video_go_medi.Store.Ensures.{OnAtomic}
use feedsystem_video_go_medi.Social.Follow.{relation_taken, add_relation, delete_relations}

-- The tables after an event.
unfoldable followed : ℕ → ℕ → Db → Db
followed follower vlogger d =
    if relation_taken follower vlogger d then d else add_relation follower vlogger d

unfoldable after_event : SocialEvent → Db → Db
after_event e d =
    if (e.follower_id == 0) || (e.vlogger_id == 0)
    then d
    else (if str_eq e.action "follow"
        then followed e.follower_id e.vlogger_id d
        else (if str_eq e.action "unfollow"
            then delete_relations e.follower_id e.vlogger_id d
            else d))

abbrev Does : (Db → Db) → World → Result ⊤ × World → Type 0
Does f w x = OnAtomic w.db (λ _ d. d ≡ f w.db) (λ _. Unit) x
