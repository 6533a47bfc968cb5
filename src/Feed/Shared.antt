-- ===== src/Feed/Shared.antt =====
-- The feed of the newest videos, whose pages Redis keeps for viewers who are not logged in.
pub mod Outcome
use feedsystem_video_go_medi.Prelude.{
  ℕ, zero, suc, ℤ, ◌≡◌, refl, ap, ◌∙◌, sym, subst, Bool, true, false, not, ◌&&◌, ◌||◌, Option, none,
  some, ◌⊎◌, inl, inr, List, [], ◌∷◌, ◌++◌, map, filter, any, last, length, All, String, str_append,
  if◌then◌else◌, ◌==◌, ==→eq, ==-refl, Bool-cases, arith,
}
use feedsystem_video_go_medi.Prelude.Lists.Unique.{All-map}
use feedsystem_video_go_medi.Video.Entity.{Video, Like}
use feedsystem_video_go_medi.Video.Repo.{batch_get_liked, is_like_of}
use feedsystem_video_go_medi.Store.{
  Db, World, Env, Error, Action, Result, ok, err, pure, query, attempt, contact, observe, ◌>>=◌,
  ◌>>◌,
}
use feedsystem_video_go_medi.Store.Ensures.{
  Ensures, OnResult, Tolerates, Ensures-pure, Ensures-if, Ensures-bind, query-then, pure-then,
  start,
}
use feedsystem_video_go_medi.Store.Ensures.Attempt.{contact-then, observe-then}
use feedsystem_video_go_medi.Store.Ensures.Outcome.{Fails, Fails-Tolerates}
use feedsystem_video_go_medi.Feed.Entity.{FeedVideoItem, TimedPage}
use feedsystem_video_go_medi.Feed.Repo.{latest_rows, list_latest}
use feedsystem_video_go_medi.Feed.Lister.{Redis, Formats, Reply, hit, miss, failed}
use feedsystem_video_go_medi.Feed.Responses.{feed_video, time_of_last}
use feedsystem_video_go_medi.Feed.Service.{build_feed_videos, latest_from_db, timed_page}

-- Whether the viewer, who may be nobody, likes a video.
abbrev pub likes : ℕ → Db → Video → Bool
likes viewer d v = not (viewer == 0) && any (is_like_of v.id viewer) d.likes

-- What a viewer sees of a video.
abbrev pub seen_by : ℕ → Db → Video → FeedVideoItem
seen_by viewer d v = record (feed_video [] v) { is_liked = likes viewer d v }

-- The page of the newest videos before a time, by the tables.
abbrev pub page_of : ℕ → Option ℤ → ℕ → Db → TimedPage
page_of limit before viewer d =
    let rows = latest_rows limit before d in
    record {
      video_list = map (seen_by viewer d) rows;
      next_time = time_of_last (last rows);
      has_more = length rows == limit;
    }

abbrev ids_of : List Video → List ℕ
ids_of vs = map (λ v. v.id) vs

abbrev liked_ids : List ℕ → ℕ → List Like → List ℕ
liked_ids ids viewer ls =
    map (λ l. l.video_id)
      (filter (λ l. any (λ i. l.video_id == i) ids && (l.account_id == viewer)) ls)

any-liked :
    (ids : List ℕ) (viewer k : ℕ) (ls : List Like)
    → any (λ i. k == i) ids ≡ true
    → any (λ i. i == k) (liked_ids ids viewer ls) ≡ any (is_like_of k viewer) ls
unfolding filter any
any-liked ids viewer k [] h = refl
any-liked ids viewer k (l ∷ ls) h = elim (Bool-cases (l.video_id == k)) [
  | inl same ↦
      let there : any (λ i. l.video_id == i) ids ≡ true =
        subst (λ j. any (λ i. j == i) ids ≡ true) (sym (==→eq l.video_id k same)) h in
      elim (Bool-cases (l.account_id == viewer)) [
        | inl own ↦ rw (there, own) (rw same refl)
        | inr other ↦ rw (there, same, other, any-liked ids viewer k ls h)
      ]
  | inr other ↦ elim (Bool-cases (any (λ i. l.video_id == i) ids && (l.account_id == viewer))) [
    | inl kept ↦ rw (kept, other, any-liked ids viewer k ls h)
    | inr left ↦ rw (left, other, any-liked ids viewer k ls h)
  ]
]

is_listed : (ids : List ℕ) (k : ℕ) → any (λ i. k == i) (k ∷ ids) ≡ true
unfolding any
is_listed ids k = rw (==-refl k)

listed_later :
    (i : ℕ) (ids : List ℕ) (k : ℕ)
    → any (λ j. k == j) ids ≡ true
    → any (λ j. k == j) (i ∷ ids) ≡ true
unfolding any
listed_later i ids k h = ground (arith, h)

all_listed : (vs : List Video) → All (λ v. any (λ i. v.id == i) (ids_of vs) ≡ true) vs
all_listed [] = tt
all_listed (v ∷ vs) = (
  is_listed (ids_of vs) v.id,
  All-map (λ u. any (λ i. u.id == i) (ids_of vs) ≡ true)
      (λ u. any (λ i. u.id == i) (ids_of (v ∷ vs)) ≡ true) vs
      (λ u h. listed_later v.id (ids_of vs) u.id h) (all_listed vs),
)

same_items :
    (viewer : ℕ) (d : Db) (liked : List ℕ) (vs : List Video)
    → All (λ v. any (λ i. i == v.id) liked ≡ likes viewer d v) vs
    → map (feed_video liked) vs ≡ map (seen_by viewer d) vs
same_items viewer d liked [] h = refl
same_items viewer d liked (v ∷ vs) h =
    rw (same_items viewer d liked vs h.1)
      (ap (λ b. record (feed_video [] v) { is_liked = b } ∷ map (seen_by viewer d) vs) h.0)

nobody_likes :
    (viewer : ℕ) (d : Db)
    → (viewer == 0) ≡ true
    → (vs : List Video) → All (λ v. any (λ i. i == v.id) [] ≡ likes viewer d v) vs
unfolding any
nobody_likes viewer d nobody [] = tt
nobody_likes viewer d nobody (v ∷ vs) = (rw nobody, nobody_likes viewer d nobody vs)

they_like :
    (viewer : ℕ) (d : Db)
    → (viewer == 0) ≡ false
    → (vs : List Video)
    → All (λ v. any (λ i. i == v.id) (liked_ids (ids_of vs) viewer d.likes) ≡ likes viewer d v) vs
they_like viewer d somebody vs =
    All-map (λ v. any (λ i. v.id == i) (ids_of vs) ≡ true)
      (λ v. any (λ i. i == v.id) (liked_ids (ids_of vs) viewer d.likes) ≡ likes viewer d v) vs
      (λ v h. rw somebody (any-liked (ids_of vs) viewer v.id d.likes h)) (all_listed vs)

module _ {env : Env} {E : Error → Type 0} {d : Db} where
  batch_get_liked-Ensures :
      (vs : List Video) (viewer : ℕ)
      → Ensures env d
          (batch_get_liked env (ids_of vs) viewer)
          (λ liked d'. (d' ≡ d) × All (λ v. any (λ i. i == v.id) liked ≡ likes viewer d v) vs)
          E
  unfolding batch_get_liked
  batch_get_liked-Ensures [] viewer = Ensures-pure _ (refl, tt)
  batch_get_liked-Ensures (v ∷ vs) viewer =
      Ensures-if (viewer == 0) _ _
        (λ nobody. Ensures-pure _ (refl, nobody_likes viewer d nobody (v ∷ vs)))
        (λ somebody. query-then _ _ (Ensures-pure _ (refl, they_like viewer d somebody (v ∷ vs))))

  build-Ensures :
      (vs : List Video) (viewer : ℕ)
      → Ensures env d
          (build_feed_videos env vs viewer)
          (λ items d'. (d' ≡ d) × (items ≡ map (seen_by viewer d) vs))
          E
  unfolding build_feed_videos
  build-Ensures vs viewer =
      Ensures-bind _ _ (batch_get_liked-Ensures vs viewer)
        (λ liked d' h. Ensures-pure _ (h.0, same_items viewer d liked vs h.1))

  latest_from_db-Ensures :
      (limit : ℕ) (before : Option ℤ) (viewer : ℕ)
      → Ensures env d
          (latest_from_db env limit before viewer)
          (λ page d'. (d' ≡ d) × (page ≡ page_of limit before viewer d))
          E
  unfolding latest_from_db list_latest
  latest_from_db-Ensures limit before viewer = query-then _ _ (
      Ensures-bind _ _ (build-Ensures (latest_rows limit before d) viewer) (λ items d' h.
        Ensures-pure _ (
          h.0,
          ap
              (λ l. record {
                video_list = l;
                next_time = time_of_last (last (latest_rows limit before d));
                has_more = length (latest_rows limit before d) == limit;
              })
              h.1,
        )))
