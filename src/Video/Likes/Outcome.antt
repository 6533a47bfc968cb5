-- ===== src/Video/Likes/Outcome.antt =====
-- What a like and its taking back do to the tables, by the service's own transaction and by the worker.
use feedsystem_video_go_medi.Prelude.{
  ℕ, ℤ, pos, negsuc, ltb, ◌≡◌, refl, true, false, ◌||◌, Option, none, some, arith, ◌==◌, not-true,
  not-false,
}
use feedsystem_video_go_medi.Video.Entity.{Video}
use feedsystem_video_go_medi.Store.{Db, Env, Error, ⊤, message}
use feedsystem_video_go_medi.Store.Ensures.{
  Ensures, Atomic, Atomic-transaction, query-then, or_raise-then, raise_if-then, execute-then,
  update_rows-then, Ensures-execute, Ensures-pure, Ensures-if, clock-then, pure-then, chain-then,
  if-then,
}
use feedsystem_video_go_medi.Store.Ensures.Attempt.{attempt_unique-then, raise-then}
use feedsystem_video_go_medi.Video.Repo.{
  find_video_row, update_videos, with_likes, with_popularity, like_taken, add_like, count_likes,
  delete_likes, new_like, video_exists, like_ignore_duplicate, delete_by_video_and_account,
  change_likes_count, change_popularity, is_found,
}
use feedsystem_video_go_medi.Video.Likes.{
  one_more_like, more_popular, like_directly, unlike_directly, apply_like, apply_unlike,
}

-- The tables after a like, and after it is taken back.
unfoldable pub liked : ℕ → ℕ → ℤ → Db → Db
liked video account t d =
    update_videos video more_popular
      (update_videos video one_more_like (add_like (new_like video account t) d))

unfoldable pub unliked : ℕ → ℕ → Db → Db
unliked video account d =
    update_videos video (with_popularity (negsuc 0))
      (update_videos video (with_likes (negsuc 0)) (delete_likes video account d))

-- The worker's like: no count falls below 0.
unfoldable pub worker_liked : ℕ → ℕ → ℤ → Db → Db
worker_liked video account t d =
    update_videos video (with_popularity (pos 1))
      (update_videos video (with_likes (pos 1)) (add_like (new_like video account t) d))

pub data LikeRefused (video account : ℕ) (t : ℤ) (d : Db) : Error → Type 0 where
  no_video :
      find_video_row video d ≡ none → LikeRefused video account t d (message "video not found")
  liked_before :
      like_taken (new_like video account t) d ≡ true
      → LikeRefused video account t d (message "user has liked this video")

not_found : {A : Type 0} (o : Option A) → is_found o ≡ false → o ≡ none
not_found none h = refl
not_found (some a) h = cc

both_given :
    (video account : ℕ)
    → (video == 0) ≡ false
    → (account == 0) ≡ false
    → ((video == 0) || (account == 0)) ≡ true
    → ⊥
both_given video account v a h = ground arith

module _ {env : Env} (video account : ℕ) {Q : ⊤ → Db → Type 0} (E : Error → Type 0) (d : Db) where
  pub like_directly-Atomic :
      (t : ℤ)
      → ((e : Error) → LikeRefused video account t d e → E e)
      → ((v : Video)
          → find_video_row video d ≡ some v
          → like_taken (new_like video account t) d ≡ false
          → Q tt (liked video account t d))
      → Atomic env d (like_directly env video account t) Q E
  unfolding like_directly liked
  like_directly-Atomic t fails done = Atomic-transaction _ (
      query-then (find_video_row video) _ (
        or_raise-then _ _ _ (λ missing. fails _ (no_video missing))
          (λ v found.
            attempt_unique-then (like_taken (new_like video account t))
              (add_like (new_like video account t)) _ (λ lost. raise-then _ _ lost)
              (λ dup. raise-then _ _ (fails _ (liked_before dup)))
              (λ free. pure-then tt _ (execute-then _ _ (Ensures-execute _ (done v found free)))))))

  pub unlike_directly-Atomic :
      ((count_likes video account d == 0) ≡ true → E (message "user has not liked this video"))
      → ((count_likes video account d == 0) ≡ false → Q tt (unliked video account d))
      → Atomic env d (unlike_directly env video account) Q E
  unfolding unlike_directly unliked
  unlike_directly-Atomic missing done = Atomic-transaction _ (
      update_rows-then _ _ _ _ (λ dup. cc)
        (λ free.
          raise_if-then _ _ _ missing (λ there. execute-then _ _ (Ensures-execute _ (done there)))))

  pub apply_like-Ensures :
      ((find_video_row video d ≡ none) → Q tt d)
      → ((n : ℕ) → like_taken (new_like video account (env.clock n)) d ≡ true → Q tt d)
      → ((n : ℕ)
          → is_found (find_video_row video d) ≡ true
          → like_taken (new_like video account (env.clock n)) d ≡ false
          → Q tt (worker_liked video account (env.clock n) d))
      → (video == 0) ≡ false
      → (account == 0) ≡ false
      → Ensures env d (apply_like env account video) Q E
  unfolding apply_like worker_liked video_exists like_ignore_duplicate change_likes_count
      change_popularity
  apply_like-Ensures missing old fresh some_video some_account = chain-then _ _ _ (
      query-then (find_video_row video) _ (
        pure-then _ _ (
          Ensures-if _ _ _ (λ gone. Ensures-pure tt (missing (not_found _ (not-true _ gone))))
            (λ there. clock-then _ (λ n.
              if-then _ _ _ _
                (λ zero. absurd (both_given video account some_video some_account zero))
                (λ given. chain-then _ _ _ (
                  attempt_unique-then (like_taken (new_like video account (env.clock n)))
                    (add_like (new_like video account (env.clock n))) _
                    (λ lost. raise-then _ _ lost)
                    (λ dup. pure-then false _ (Ensures-pure tt (old n dup)))
                    (λ free. pure-then true _ (
                      execute-then _ _
                        (Ensures-execute _ (fresh n (not-false _ there) free)))))))))))

  pub apply_unlike-Ensures :
      (find_video_row video d ≡ none → Q tt d)
      → (ltb 0 (count_likes video account d) ≡ false → Q tt (delete_likes video account d))
      → (ltb 0 (count_likes video account d) ≡ true → Q tt (unliked video account d))
      → (video == 0) ≡ false
      → (account == 0) ≡ false
      → Ensures env d (apply_unlike env account video) Q E
  unfolding apply_unlike unliked video_exists delete_by_video_and_account change_likes_count
      change_popularity
  apply_unlike-Ensures missing old fresh some_video some_account = chain-then _ _ _ (
      query-then (find_video_row video) _ (
        pure-then _ _ (
          Ensures-if _ _ _ (λ gone. Ensures-pure tt (missing (not_found _ (not-true _ gone))))
            (λ there.
              if-then _ _ _ _
                (λ zero. absurd (both_given video account some_video some_account zero))
                (λ given. chain-then _ _ _ (
                  update_rows-then _ _ _ _ (λ dup. cc)
                    (λ free. pure-then _ _ (
                      Ensures-if _ _ _ (λ none_left. Ensures-pure tt (old (not-true _ none_left)))
                        (λ deleted.
                          execute-then _ _
                            (Ensures-execute _ (fresh (not-false _ deleted))))))))))))
