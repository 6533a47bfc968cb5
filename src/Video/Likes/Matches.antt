-- ===== src/Video/Likes/Matches.antt =====
-- Like counts against likes: the count of a video is the number of its rows in the table of likes.
use feedsystem_video_go_medi.Prelude.{
  ℕ, suc, ℤ, pos, negsuc, ◌+◌, ◌+ℤ◌, ◌≤◌, ◌≡◌, refl, ap, sym, subst, ◌∙◌, Bool, true, false, not,
  List, [], ◌∷◌, ◌==◌, ==→eq, count_where, filter, any, update_where, All, arith,
}
use feedsystem_video_go_medi.Prelude.Lists.Unique.{
  All-update, All-updated, count-of_none, count-filter,
}
use feedsystem_video_go_medi.Video.Entity.{Video, Like}
use feedsystem_video_go_medi.Store.{Db}
use feedsystem_video_go_medi.Video.Repo.{
  has_video_id, is_like_of, like_taken, new_like, count_likes, with_likes, with_popularity,
  greatest_zero, add_like, delete_likes, update_videos,
}
use feedsystem_video_go_medi.Video.Likes.{one_more_like, more_popular}
use feedsystem_video_go_medi.Video.Likes.Outcome.{liked, unliked, worker_liked}

abbrev pub is_like_on : ℕ → Like → Bool
is_like_on video l = l.video_id == video

abbrev pub IsCounted : List Like → Video → Type 0
IsCounted ls v = v.likes_count ≡ pos (count_where (is_like_on v.id) ls)

-- Each video counts its likes, and no account likes a video twice.
pub record LikesAgree (vs : List Video) (ls : List Like) : Type 0 where
  pub counts : All (IsCounted ls) vs
  pub once : (video account : ℕ) → count_where (is_like_of video account) ls ≤ 1

abbrev pub LikesMatch : Db → Type 0
LikesMatch d = LikesAgree d.videos d.likes

more_popular-IsCounted :
    (ls : List Like) (video : ℕ) (f : Video → Video) (vs : List Video)
    → ((v : Video) → (f v).id ≡ v.id)
    → ((v : Video) → (f v).likes_count ≡ v.likes_count)
    → All (IsCounted ls) vs
    → All (IsCounted ls) (update_where (has_video_id video) f vs)
more_popular-IsCounted ls video f vs same_id same_count h =
    All-update (has_video_id video) f vs (λ v _ e. rw (same_id v, same_count v) e) h

module _ (ls : List Like) (l : Like) where
  grown :
      (i j : ℕ)
      → j ≡ i
      → (i == l.video_id) ≡ true
      → suc (count_where (is_like_on i) ls) ≡ count_where (is_like_on j) (l ∷ ls)
  unfolding count_where
  grown i j e here =
      subst (λ k. suc (count_where (is_like_on i) ls) ≡ count_where (is_like_on k) (l ∷ ls)) (sym e)
        (ground arith)

  unmoved :
      (i : ℕ)
      → (i == l.video_id) ≡ false
      → count_where (is_like_on i) ls ≡ count_where (is_like_on i) (l ∷ ls)
  unfolding count_where
  unmoved i other = ground arith

  -- A like that is not there yet, with a count that goes up by one.
  added-IsCounted :
      (f : Video → Video) (vs : List Video)
      → ((v : Video) → (f v).id ≡ v.id)
      → ((v : Video) (n : ℕ) → v.likes_count ≡ pos n → (f v).likes_count ≡ pos (suc n))
      → All (IsCounted ls) vs
      → All (IsCounted (l ∷ ls)) (update_where (has_video_id l.video_id) f vs)
  unfolding count_where
  added-IsCounted f vs same_id one_more h =
      All-updated (IsCounted ls) (IsCounted (l ∷ ls)) (has_video_id l.video_id) f vs
        (λ v here e. one_more v _ e ∙ ap pos (grown v.id (f v).id (same_id v) here))
        (λ v other e. e ∙ ap pos (unmoved v.id other)) h

  added-once :
      any (is_like_of l.video_id l.account_id) ls ≡ false
      → ((video account : ℕ) → count_where (is_like_of video account) ls ≤ 1)
      → (video account : ℕ) → count_where (is_like_of video account) (l ∷ ls) ≤ 1
  unfolding count_where
  added-once free once video account =
      ground (arith, once video account, count-of_none (is_like_of l.video_id l.account_id) ls free)

module _ (video account : ℕ) where
  abbrev keeps_like : Like → Bool
  keeps_like l = not (is_like_of video account l)

  filter_same :
      (ls : List Like)
      → count_where (is_like_on video) (filter keeps_like ls)
          + count_where (is_like_of video account) ls
        ≡ count_where (is_like_on video) ls
  unfolding filter count_where
  filter_same [] = refl
  filter_same (l ∷ ls) = ground (arith, filter_same ls)

  filter_other :
      (k : ℕ) (ls : List Like)
      → (k == video) ≡ false
      → count_where (is_like_on k) (filter keeps_like ls) ≡ count_where (is_like_on k) ls
  unfolding filter count_where
  filter_other k [] other = refl
  filter_other k (l ∷ ls) other = ground (arith, filter_other k ls other)

  one_less :
      (ls : List Like) (i j : ℕ) (n : ℤ)
      → count_where (is_like_of video account) ls ≡ 1
      → j ≡ i
      → (i == video) ≡ true
      → n ≡ pos (count_where (is_like_on i) ls)
      → greatest_zero n (negsuc 0) ≡ pos (count_where (is_like_on j) (filter keeps_like ls))
  unfolding greatest_zero ◌+ℤ◌
  one_less ls i j n one e here h =
      let own : i ≡ video = ==→eq i video here in
      let less = filter_same ls in rw (e, h, own) (ground (arith, less, one))

  removed-IsCounted :
      (ls : List Like) (vs : List Video)
      → count_where (is_like_of video account) ls ≡ 1
      → All (IsCounted ls) vs
      → All
          (IsCounted (filter keeps_like ls))
          (update_where (has_video_id video) (with_likes (negsuc 0)) vs)
  removed-IsCounted ls vs one h =
      All-updated (IsCounted ls) (IsCounted (filter keeps_like ls)) (has_video_id video)
        (with_likes (negsuc 0)) vs (λ v here e. one_less ls v.id v.id v.likes_count one refl here e)
        (λ v other e. e ∙ ap pos (sym (filter_other v.id ls other))) h

one_up : (n : ℕ) → pos n +ℤ pos 1 ≡ pos (suc n)
unfolding ◌+ℤ◌
one_up n = ground arith

worker_one_up : (n : ℕ) → greatest_zero (pos n) (pos 1) ≡ pos (suc n)
unfolding greatest_zero
worker_one_up n = rw (one_up n)

pub liked-LikesAgree :
    (video account : ℕ) (t : ℤ) (d : Db)
    → like_taken (new_like video account t) d ≡ false
    → LikesMatch d
    → LikesMatch (liked video account t d)
unfolding liked update_videos add_like like_taken
liked-LikesAgree video account t d free h = record {
  counts =
      more_popular-IsCounted _ video more_popular _ (λ v. refl) (λ v. refl)
        (added-IsCounted d.likes _ one_more_like d.videos (λ v. refl) (λ v n e. rw e (one_up n))
          h.counts);
  once = added-once d.likes _ free h.once;
}

pub unliked-LikesAgree :
    (video account : ℕ) (d : Db)
    → count_likes video account d ≡ 1
    → LikesMatch d
    → LikesMatch (unliked video account d)
unfolding unliked update_videos delete_likes count_likes
unliked-LikesAgree video account d one h = record {
  counts =
      more_popular-IsCounted _ video (with_popularity (negsuc 0)) _ (λ v. refl) (λ v. refl)
        (removed-IsCounted video account d.likes d.videos one h.counts);
  once = λ v a.
      omega (arith, count-filter (is_like_of v a) (keeps_like video account) d.likes, h.once v a);
}

pub worker_liked-LikesAgree :
    (video account : ℕ) (t : ℤ) (d : Db)
    → like_taken (new_like video account t) d ≡ false
    → LikesMatch d
    → LikesMatch (worker_liked video account t d)
unfolding worker_liked update_videos add_like like_taken
worker_liked-LikesAgree video account t d free h = record {
  counts =
      more_popular-IsCounted _ video (with_popularity (pos 1)) _ (λ v. refl) (λ v. refl)
        (added-IsCounted d.likes _ (with_likes (pos 1)) d.videos (λ v. refl)
          (λ v n e. rw e (worker_one_up n)) h.counts);
  once = added-once d.likes _ free h.once;
}
