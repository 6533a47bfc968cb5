-- ===== src/Video/Fanout/Delivery.antt =====
-- All batches together: a video reaches the inbox of each follower once.
use feedsystem_video_go_medi.Prelude.{
  ℕ, ◌+◌, ◌<◌, ◌≡◌, refl, Bool, true, false, ◌&&◌, ◌⊎◌, List, [], ◌∷◌, ◌++◌, ◌==◌, filter, map, All,
  arith, Bool-cases, inl, inr, order_by, insert_by, count_where,
}
use feedsystem_video_go_medi.Prelude.Lists.Ordered.{IsOrder, IsApart}
use feedsystem_video_go_medi.Prelude.Lists.Unique.{All-filter}
use feedsystem_video_go_medi.Social.Entity.{Social}
use feedsystem_video_go_medi.Social.Follow.{is_relation, older}
use feedsystem_video_go_medi.Store.{Db}
use feedsystem_video_go_medi.Video.Fanout.Counts.{id_count}

abbrev pub follower_ids : List Social → List ℕ
follower_ids rs = map (λ s. s.follower_id) rs

-- The relations of an author's followers.
abbrev pub followers_of : ℕ → Db → List Social
followers_of author d = filter (λ s. s.vlogger_id == author) d.socials

pub older-IsOrder : IsOrder older
older-IsOrder = record { trans = λ x y z h k. ground (arith, h, k); irrefl = λ x. ground arith }

-- Relations with ids that are positive and differ.
abbrev pub HasRelationIds : List Social → Type 0
HasRelationIds [] = Unit
HasRelationIds (s ∷ ss) = (0 < s.id) × All (λ r. (r.id == s.id) ≡ false) ss × HasRelationIds ss

apart :
    (s : Social) (ss : List Social)
    → All (λ r. (r.id == s.id) ≡ false) ss
    → All (λ r. (older s r ≡ true) ⊎ (older r s ≡ true)) ss
apart s [] h = tt
apart s (r ∷ ss) h = (
  elim (Bool-cases (older s r)) [
    | inl first ↦ inl first
    | inr later ↦ inr (ground (arith, later, h.0))
  ],
  apart s ss h.1,
)

pub HasRelationIds-IsApart : (ss : List Social) → HasRelationIds ss → IsApart older ss
HasRelationIds-IsApart [] h = tt
HasRelationIds-IsApart (s ∷ ss) h = (apart s ss h.1, HasRelationIds-IsApart ss h.2)

pub filter-HasRelationIds :
    (p : Social → Bool) (ss : List Social) → HasRelationIds ss → HasRelationIds (filter p ss)
unfolding filter
filter-HasRelationIds p [] h = tt
filter-HasRelationIds p (s ∷ ss) h = elim (Bool-cases (p s)) [
  | inl kept ↦
      rw kept
        (h.0, All-filter (λ r. (r.id == s.id) ≡ false) p ss h.1, filter-HasRelationIds p ss h.2)
  | inr left ↦ rw left (filter-HasRelationIds p ss h.2)
]

pub positive_ids : (ss : List Social) → HasRelationIds ss → All (λ s. 0 < s.id) ss
positive_ids [] h = tt
positive_ids (s ∷ ss) h = (h.0, positive_ids ss h.2)

pub filter_both :
    (p q : Social → Bool) (ss : List Social) → filter (λ s. p s && q s) ss ≡ filter q (filter p ss)
unfolding filter
filter_both p q [] = refl
filter_both p q (s ∷ ss) = elim (Bool-cases (p s)) [
  | inl kept ↦ rw kept (elim (Bool-cases (q s)) [
    | inl stays ↦ rw (stays, filter_both p q ss)
    | inr goes ↦ rw (goes, filter_both p q ss)
  ])
  | inr left ↦ rw (left, filter_both p q ss)
]

pub count-followers :
    (u author : ℕ) (ss : List Social)
    → id_count u (follower_ids (filter (λ s. s.vlogger_id == author) ss))
      ≡ count_where (is_relation u author) ss
unfolding filter count_where
count-followers u author [] = refl
count-followers u author (s ∷ ss) = ground (arith, count-followers u author ss)

count-insert :
    (u : ℕ) (s : Social) (ss : List Social)
    → id_count u (follower_ids (insert_by older s ss)) ≡ id_count u (follower_ids (s ∷ ss))
unfolding insert_by count_where
count-insert u s [] = refl
count-insert u s (r ∷ ss) = ground (arith, count-insert u s ss)

pub count-order_by :
    (u : ℕ) (ss : List Social)
    → id_count u (follower_ids (order_by older ss)) ≡ id_count u (follower_ids ss)
unfolding order_by count_where
count-order_by u [] = refl
count-order_by u (s ∷ ss) = omega (arith, count-insert u s (order_by older ss), count-order_by u ss)

pub count-append : (u : ℕ) (a b : List ℕ) → id_count u (a ++ b) ≡ id_count u a + id_count u b
unfolding count_where
count-append u [] b = omega arith
count-append u (i ∷ a) b = omega (arith, count-append u a b)
