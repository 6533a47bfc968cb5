-- ===== src/Video/Likes/Kept.antt =====
-- Likes by the service's transactions and by the worker: the counts stay right, and both ways lead to
-- the same tables.
use feedsystem_video_go_medi.Prelude.{
  ℕ, ℤ, ltb, ◌≤◌, ◌≡◌, sym, subst, true, false, some, none, ◌==◌, arith, Bool-cases, inl, inr, ◌||◌,
  or-false, str_eq, String, Option, count_where,
}
use feedsystem_video_go_medi.Prelude.Lists.Unique.{filter_none}
use feedsystem_video_go_medi.Store.{Db, World, Env, ok, err, Result, ⊤, LikeEvent, pure}
use feedsystem_video_go_medi.Store.Ensures.{OnResult}
use feedsystem_video_go_medi.Store.Ensures.Outcome.{Atomic-keeps, reliable-Tolerates}
use feedsystem_video_go_medi.Video.Repo.{count_likes, is_like_of, delete_likes}
use feedsystem_video_go_medi.Video.Likes.{
  like_directly, unlike_directly, apply_like, apply_unlike, apply_like_event, apply_if_read,
  process_like,
}
use feedsystem_video_go_medi.Video.Likes.Outcome.{
  like_directly-Atomic, unlike_directly-Atomic, apply_like-Ensures, apply_unlike-Ensures,
}
use feedsystem_video_go_medi.Video.Likes.Matches.{
  LikesMatch, liked-LikesAgree, unliked-LikesAgree, worker_liked-LikesAgree,
}

just_one : (n : ℕ) → n ≤ 1 → (n == 0) ≡ false → n ≡ 1
just_one n few some_left = ground arith

at_least_one : (n : ℕ) → ltb 0 n ≡ true → (n == 0) ≡ false
at_least_one n h = ground arith

-- The transactions of the like service keep the count of every video equal to the number of its likes, with
-- no account liking a video twice, whether they succeed or fail.
pub directly-LikesMatch :
    (env : Env) (video account : ℕ) (t : ℤ) (w : World)
    → LikesMatch w.db
    → LikesMatch (like_directly env video account t w).1.db
      × LikesMatch (unlike_directly env video account w).1.db
unfolding count_likes
directly-LikesMatch env video account t w h = (
  Atomic-keeps LikesMatch w h (
      like_directly-Atomic video account (λ _. Unit) w.db t (λ e _. tt)
        (λ v found free. liked-LikesAgree video account t w.db free h)),
  Atomic-keeps LikesMatch w h (
      unlike_directly-Atomic video account (λ _. Unit) w.db (λ _. tt)
        (λ there.
          unliked-LikesAgree video account w.db (just_one _ (h.once video account) there) h)),
)

returned : (P : Db → Type 0) (x : Result ⊤ × World) → OnResult (λ _ d. P d) (λ _. ⊥) x → P x.1.db
returned P (ok a, w) h = h
returned P (err e, w) h = absurd h

deleted_none :
    (video account : ℕ) (d : Db)
    → ltb 0 (count_likes video account d) ≡ false
    → delete_likes video account d ≡ d
unfolding count_likes delete_likes
deleted_none video account d h =
    let none_there : count_where (is_like_of video account) d.likes ≡ 0 = ground arith in
    rw (filter_none (is_like_of video account) d.likes none_there)

module _ (env : Env) (up : (n : ℕ) → env.statement_ok n ≡ true) (video account : ℕ) (w : World)
    (some_video : (video == 0) ≡ false) (some_account : (account == 0) ≡ false)
    (h : LikesMatch w.db) where
  apply_like-LikesMatch : LikesMatch (apply_like env account video w).1.db
  apply_like-LikesMatch = returned LikesMatch (apply_like env account video w) (
      (apply_like-Ensures video account (λ _. ⊥) w.db (λ _. h) (λ n _. h)
          (λ n _ free. worker_liked-LikesAgree video account (env.clock n) w.db free h) some_video
          some_account).at
        (reliable-Tolerates up) w.tick)

  apply_unlike-LikesMatch : LikesMatch (apply_unlike env account video w).1.db
  unfolding count_likes
  apply_unlike-LikesMatch = returned LikesMatch (apply_unlike env account video w) (
      (apply_unlike-Ensures video account (λ _. ⊥) w.db (λ _. h)
          (λ none_there. subst LikesMatch (sym (deleted_none video account w.db none_there)) h)
          (λ there.
            unliked-LikesAgree video account w.db
              (just_one _ (h.once video account) (at_least_one _ there)) h)
          some_video some_account).at
        (reliable-Tolerates up) w.tick)

apply_like_event-LikesMatch :
    (env : Env) (e : LikeEvent) (w : World)
    → ((n : ℕ) → env.statement_ok n ≡ true)
    → LikesMatch w.db
    → LikesMatch (apply_like_event env e w).1.db
unfolding apply_like_event pure
apply_like_event-LikesMatch env e w up h =
    elim (Bool-cases ((e.user_id == 0) || (e.video_id == 0))) [
      | inl missing ↦ rw missing h
      | inr given ↦
          let (user, video) = or-false _ _ given in
          rw given (elim (Bool-cases (str_eq e.action "like")) [
            | inl like ↦ rw like (apply_like-LikesMatch env up e.video_id e.user_id w video user h)
            | inr other ↦ rw other (elim (Bool-cases (str_eq e.action "unlike")) [
              | inl unlike ↦
                  rw unlike (apply_unlike-LikesMatch env up e.video_id e.user_id w video user h)
              | inr unknown ↦ rw unknown h
            ])
          ])
    ]

read-LikesMatch :
    (env : Env) (e : Option LikeEvent) (w : World)
    → ((n : ℕ) → env.statement_ok n ≡ true)
    → LikesMatch w.db
    → LikesMatch (apply_if_read env e w).1.db
unfolding pure
read-LikesMatch env none w up h = h
read-LikesMatch env (some e) w up h = apply_like_event-LikesMatch env e w up h

-- Whatever message the like worker takes from its queue, a second delivery of one it has seen
-- included, the count of every video stays equal to the number of its likes, where every statement
-- goes through.
pub process_like-LikesMatch :
    (env : Env) (decode : String → Option LikeEvent) (body : String) (w : World)
    → ((n : ℕ) → env.statement_ok n ≡ true)
    → LikesMatch w.db
    → LikesMatch (process_like env decode body w).1.db
unfolding process_like
process_like-LikesMatch env decode body w up h = read-LikesMatch env (decode body) w up h
