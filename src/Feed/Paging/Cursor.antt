-- ===== src/Feed/Paging/Cursor.antt =====
-- Where a client of the most liked videos stands after some pages, and what its cursor gives.
use feedsystem_video_go_medi.Prelude.{
  ℕ, zero, suc, ◌<◌, ltb, ◌≡◌, refl, ap, sym, subst, ◌∙◌, true, Option, none, some, String, find,
  List, [], ◌∷◌, ◌++◌, ◌==◌, length, take, last, All, arith, order_by, filter, inl, inr, ◌⊎◌,
}
use mathlib.Core.List.{append_assoc}
use feedsystem_video_go_medi.Prelude.Lists.Ordered.{All-order_by}
use feedsystem_video_go_medi.Prelude.Lists.Pages.{
  drop, take-append-drop, last-append, order_by_after, All-last, All-append_left,
}
use feedsystem_video_go_medi.Video.Entity.{Video}
use feedsystem_video_go_medi.Store.{Db}
use feedsystem_video_go_medi.Feed.Entity.{BucketCollection, order_by_likes, new_bucket}
use feedsystem_video_go_medi.Feed.Repo.{more_liked, is_less_liked, liked_rows}
use feedsystem_video_go_medi.Feed.Lister.{Formats, likes_buckets, likes_cursor, after_likes}
use feedsystem_video_go_medi.Feed.Paging.{more_liked-IsOrder, HasIds, HasIds-IsApart}

-- The cursor after a video, and what the client is given.
abbrev pub bucket_at : Video → BucketCollection
bucket_at v = (order_by_likes, after_likes (new_bucket order_by_likes) (some v)) ∷ []

-- The cursor after a video is read as it was written.
abbrev pub IsReadable : Formats → Video → Type 0
IsReadable x v = x.decode_bucket (x.encode_bucket (bucket_at v)) ≡ some (bucket_at v)

-- Where the client stands, who has read the videos `read`.
abbrev pub StandsAt : Formats → List Video → Option String → Type 0
StandsAt x read bucket =
    ((read ≡ []) × (bucket ≡ none))
    ⊎ ((v : Video) × (last read ≡ some v)
        × (bucket ≡ some (x.encode_bucket (bucket_at v)))
        × IsReadable x v
        × (0 < v.id))

pub positive_ids : (vs : List Video) → HasIds vs → All (λ v. 0 < v.id) vs
positive_ids [] h = tt
positive_ids (v ∷ vs) h = (h.0, positive_ids vs h.2)

filter_any : (vs : List Video) → filter (is_less_liked none) vs ≡ vs
unfolding filter
filter_any [] = refl
filter_any (v ∷ vs) = ap (λ l. v ∷ l) (filter_any vs)

pub page_last :
    (n : ℕ) (vs : List Video)
    → (length (take (suc n) vs) == suc n) ≡ true
    → (v : Video) × (last (take (suc n) vs) ≡ some v)
unfolding last
page_last zero [] h = absurd (ground arith)
page_last zero (v ∷ vs) h = (v, refl)
page_last (suc n) [] h = absurd (ground arith)
page_last (suc n) (v ∷ []) h = absurd (ground arith)
page_last (suc n) (v ∷ u ∷ vs) h = page_last n (u ∷ vs) (ground arith)

module _ (x : Formats) (d : Db) (h : HasIds d.videos) (limit : ℕ) where
  pub rows_at :
      (read rest : List Video) (bucket : Option String)
      → order_by more_liked d.videos ≡ read ++ rest
      → StandsAt x read bucket
      → liked_rows limit (likes_cursor (likes_buckets x bucket)) d ≡ take limit rest
  unfolding liked_rows find
  rows_at read rest bucket split (inl (e, b)) = rw (b, filter_any d.videos, split, e) refl
  rows_at read rest bucket split (inr (v, at, b, reads, positive)) =
      let there : ltb 0 v.id ≡ true = ground arith in
      rw (b, reads, there)
        (ap (take limit) (
          order_by_after more_liked more_liked-IsOrder d.videos read rest v
            (HasIds-IsApart d.videos h) at split))

  pub stands_after :
      (read rest : List Video) (bucket : Option String) (v : Video)
      → order_by more_liked d.videos ≡ read ++ rest
      → All (IsReadable x) d.videos
      → last (take limit rest) ≡ some v
      → StandsAt x (read ++ take limit rest) (some (x.encode_bucket (bucket_at v)))
  stands_after read rest bucket v split reads at =
      let all : order_by more_liked d.videos ≡ (read ++ take limit rest) ++ drop limit rest =
        split
        ∙ ap (λ l. read ++ l) (sym (take-append-drop limit rest))
        ∙ sym (append_assoc read (take limit rest) (drop limit rest)) in
      let at' : last (read ++ take limit rest) ≡ some v = last-append read (take limit rest) v at in
      inr (
        v,
        at',
        refl,
        All-last (IsReadable x) (read ++ take limit rest) v at' (
            All-append_left (IsReadable x) (read ++ take limit rest) (drop limit rest) (
              subst (All (IsReadable x)) all
                (All-order_by more_liked (IsReadable x) d.videos reads))),
        All-last (λ u. 0 < u.id) (read ++ take limit rest) v at'
            (All-append_left (λ u. 0 < u.id) (read ++ take limit rest) (drop limit rest)
              (subst (All (λ u. 0 < u.id)) all
                (All-order_by more_liked (λ u. 0 < u.id) d.videos (positive_ids d.videos h)))),
      )

pub next_bucket :
    (x : Formats) (read : List Video) (bucket : Option String) (v : Video)
    → StandsAt x read bucket
    → (order_by_likes, after_likes (likes_buckets x bucket) (some v)) ∷ [] ≡ bucket_at v
unfolding find
next_bucket x read bucket v (inl (e, b)) = rw b refl
next_bucket x read bucket v (inr (u, at, b, reads, positive)) = rw (b, reads) refl
