-- ===== src/Video/Likes/Equivalence.antt =====
-- The two ways in which a like is written, by the service and by the worker, against one description.
use feedsystem_video_go_medi.Prelude.{
  ℕ, ℤ, pos, negsuc, ◌+ℤ◌, ◌≤ℤ◌, ◌≡◌, refl, ap, sym, subst, ◌∙◌, Bool, true, false, not, ◌&&◌, List,
  ◌==◌, if◌then◌else◌, update_where, All, arith,
}
use feedsystem_video_go_medi.Prelude.Lists.Unique.{update_same, All-update, All-map}
use feedsystem_video_go_medi.Video.Entity.{Video}
use feedsystem_video_go_medi.Store.{Db, World, Env, ok, err, Result, Error, ⊤}
use feedsystem_video_go_medi.Store.Ensures.{OnResult, OnAtomic}
use feedsystem_video_go_medi.Store.Ensures.Outcome.{reliable-Tolerates}
use feedsystem_video_go_medi.Video.Repo.{
  has_video_id, like_taken, new_like, with_likes, with_popularity, greatest_zero, add_like,
  update_videos, find_video_row, is_found,
}
use feedsystem_video_go_medi.Video.Likes.{one_more_like, more_popular, like_directly, apply_like}
use feedsystem_video_go_medi.Video.Likes.Outcome.{
  liked, worker_liked, like_directly-Atomic, apply_like-Ensures, LikeRefused, no_video,
  liked_before,
}

-- The tables after a like, whichever way it is written: unchanged where there is no such video or the
-- account likes it already.
unfoldable pub after_like : ℕ → ℕ → ℤ → Db → Db
after_like video account t d =
    if is_found (find_video_row video d) && not (like_taken (new_like video account t) d)
    then liked video account t d
    else d

-- No count and no popularity is negative, so that the worker's bound at 0 makes no difference.
abbrev pub IsCountable : Video → Type 0
IsCountable v = (pos 0 ≤ℤ v.likes_count) × (pos 0 ≤ℤ v.popularity)

up_by_one : (n : ℤ) → pos 0 ≤ℤ n → greatest_zero n (pos 1) ≡ n +ℤ pos 1
unfolding greatest_zero ◌+ℤ◌
up_by_one (pos n) h = ground arith
up_by_one (negsuc n) h = absurd (omega arith)

not_smaller : (n : ℤ) → pos 0 ≤ℤ n → pos 0 ≤ℤ n +ℤ pos 1
unfolding ◌+ℤ◌
not_smaller n h = ground arith

more_likes_same : (v : Video) → IsCountable v → with_likes (pos 1) v ≡ one_more_like v
more_likes_same v h = ap (λ n. record v { likes_count = n }) (up_by_one v.likes_count h.0)

more_popular_same : (v : Video) → IsCountable v → with_popularity (pos 1) v ≡ more_popular v
more_popular_same v h = ap (λ n. record v { popularity = n }) (up_by_one v.popularity h.1)

same_videos :
    (video : ℕ) (vs : List Video)
    → All IsCountable vs
    → update_where
        (has_video_id video)
        (with_popularity (pos 1))
        (update_where (has_video_id video) (with_likes (pos 1)) vs)
      ≡ update_where
          (has_video_id video)
          more_popular
          (update_where (has_video_id video) one_more_like vs)
same_videos video vs h =
    ap (update_where (has_video_id video) (with_popularity (pos 1))) (
      update_same (has_video_id video) (with_likes (pos 1)) one_more_like vs
        (All-map IsCountable _ vs more_likes_same h))
    ∙ update_same (has_video_id video) (with_popularity (pos 1)) more_popular _ (
        All-map IsCountable _ _ more_popular_same (
          All-update (has_video_id video) one_more_like vs
            (λ v _ k. (not_smaller v.likes_count k.0, k.1)) h))

same_likes :
    (video account : ℕ) (t : ℤ) (d : Db)
    → All IsCountable d.videos
    → (worker_liked video account t d).videos ≡ (liked video account t d).videos
unfolding worker_liked liked update_videos add_like
same_likes video account t d h = same_videos video d.videos h

after_like-unliked :
    (video account : ℕ) (t : ℤ) (d : Db)
    → (is_found (find_video_row video d) && not (like_taken (new_like video account t) d)) ≡ false
    → d ≡ after_like video account t d
unfolding after_like
after_like-unliked video account t d h = rw h

after_like-liked :
    (video account : ℕ) (t : ℤ) (d : Db)
    → is_found (find_video_row video d) ≡ true
    → like_taken (new_like video account t) d ≡ false
    → liked video account t d ≡ after_like video account t d
unfolding after_like
after_like-liked video account t d there free = rw (there, free)

worker_liked-liked :
    (video account : ℕ) (t : ℤ) (d : Db)
    → All IsCountable d.videos
    → worker_liked video account t d ≡ liked video account t d
unfolding worker_liked liked update_videos
worker_liked-liked video account t d h =
    ap (λ vs. record (add_like (new_like video account t) d) { videos = vs })
      (same_likes video account t d h)

and-false : (b : Bool) → (b && false) ≡ false
and-false true = refl
and-false false = refl

refused_unchanged :
    (video account : ℕ) (t : ℤ) (d : Db) (e : Error)
    → LikeRefused video account t d e
    → d ≡ after_like video account t d
refused_unchanged video account t d _ (no_video missing) =
    after_like-unliked video account t d (rw missing refl)
refused_unchanged video account t d _ (liked_before old) =
    after_like-unliked video account t d (rw old (and-false _))

read_off :
    (d goal : Db) (E : Error → Type 0) (x : Result ⊤ × World)
    → ((e : Error) → E e → d ≡ goal)
    → OnAtomic d (λ _ d'. d' ≡ goal) E x
    → x.1.db ≡ goal
read_off d goal E (ok a, w) f h = h
read_off d goal E (err e, w) f h = h.1 ∙ f e h.0

directly-after_like :
    (env : Env) (video account : ℕ) (t : ℤ) (w : World)
    → ((n : ℕ) → env.statement_ok n ≡ true)
    → (like_directly env video account t w).1.db ≡ after_like video account t w.db
directly-after_like env video account t w up =
    read_off w.db (after_like video account t w.db) (LikeRefused video account t w.db)
      (like_directly env video account t w) (refused_unchanged video account t w.db)
      ((like_directly-Atomic video account (LikeRefused video account t w.db) w.db t (λ e h. h)
          (λ v found free. after_like-liked video account t w.db (rw found refl) free)).at
        (reliable-Tolerates up) w.tick)

read_result :
    (goal : Db) (x : Result ⊤ × World) → OnResult (λ _ d. d ≡ goal) (λ _. ⊥) x → x.1.db ≡ goal
read_result goal (ok a, w) h = h
read_result goal (err e, w) h = absurd h

module _ (env : Env) (video account : ℕ) (t : ℤ) (w : World) (still : (n : ℕ) → env.clock n ≡ t)
    (h : All IsCountable w.db.videos) where
  worker_old :
      (n : ℕ)
      → like_taken (new_like video account (env.clock n)) w.db ≡ true
      → w.db ≡ after_like video account t w.db
  worker_old n old = after_like-unliked video account t w.db (
      rw (subst (λ k. like_taken (new_like video account k) w.db ≡ true) (still n) old)
        (and-false _))

  worker_fresh :
      (n : ℕ)
      → is_found (find_video_row video w.db) ≡ true
      → like_taken (new_like video account (env.clock n)) w.db ≡ false
      → worker_liked video account (env.clock n) w.db ≡ after_like video account t w.db
  worker_fresh n there free =
      let free' : like_taken (new_like video account t) w.db ≡ false =
        subst (λ k. like_taken (new_like video account k) w.db ≡ false) (still n) free in
      ap (λ k. worker_liked video account k w.db) (still n)
      ∙ worker_liked-liked video account t w.db h
      ∙ after_like-liked video account t w.db there free'

-- The transaction of the like service and the like worker lead to the same tables, whether the video
-- exists or not and whether it is liked already or not, where every statement goes through, the
-- clock stands still and no count is negative.
pub apply_like-like_directly :
    (env : Env) (video account : ℕ) (t : ℤ) (w : World)
    → ((n : ℕ) → env.statement_ok n ≡ true)
    → ((n : ℕ) → env.clock n ≡ t)
    → (video == 0) ≡ false
    → (account == 0) ≡ false
    → All IsCountable w.db.videos
    → (apply_like env account video w).1.db ≡ (like_directly env video account t w).1.db
apply_like-like_directly env video account t w up still some_video some_account h =
    read_result (after_like video account t w.db) (apply_like env account video w) (
      (apply_like-Ensures video account (λ _. ⊥) w.db
          (λ missing. after_like-unliked video account t w.db (rw missing refl))
          (worker_old env video account t w still h) (worker_fresh env video account t w still h)
          some_video some_account).at
        (reliable-Tolerates up) w.tick)
    ∙ sym (directly-after_like env video account t w up)
