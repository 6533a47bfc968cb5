-- ===== src/Feed/Paging/Complete.antt =====
-- The pages of the most liked videos together.
use feedsystem_video_go_medi.Prelude.{
  ℕ, zero, suc, ◌<◌, ◌≡◌, refl, ap, sym, subst, ◌∙◌, Bool, true, Option, none, some, String, List,
  [], ◌∷◌, ◌++◌, ◌==◌, length, take, last, All, arith, order_by, inl,
}
use mathlib.Core.List.{append_assoc, append-nil, map-append}
use feedsystem_video_go_medi.Prelude.Lists.Ordered.{length-order_by}
use feedsystem_video_go_medi.Prelude.Lists.Pages.{drop, take-append-drop, drop_short, length-drop}
use feedsystem_video_go_medi.Video.Entity.{Video}
use feedsystem_video_go_medi.Store.{Db, World, Env, Error}
use feedsystem_video_go_medi.Store.Ensures.{
  Ensures, OnResult, Ensures-pure, Ensures-bind, Ensures-if,
}
use feedsystem_video_go_medi.Store.Ensures.Outcome.{Fails, Fails-Tolerates}
use feedsystem_video_go_medi.Feed.Entity.{FeedVideoItem, FetchFeedsResponse, order_by_likes}
use feedsystem_video_go_medi.Feed.Repo.{more_liked, liked_rows}
use feedsystem_video_go_medi.Feed.Lister.{Redis, Formats, likes_buckets, likes_cursor, after_likes}
use feedsystem_video_go_medi.Feed.Paging.{
  item_ids, video_ids, HasIds, IsLikesPage, fetch_likes-Ensures, follow_likes, and_rest,
}
use feedsystem_video_go_medi.Feed.Paging.Cursor.{
  bucket_at, IsReadable, StandsAt, page_last, rows_at, stands_after, next_bucket,
}

module _ (env : Env) (x : Formats) (has_cache : Bool) (redis : Redis) (viewer k : ℕ) (d : Db)
    (h : HasIds d.videos) (reads : All (IsReadable x) d.videos) where
  abbrev Reads : List Video → List FeedVideoItem → Db → Type 0
  Reads rest items d' = (d' ≡ d) × (item_ids items ≡ video_ids rest)

  more_ids :
      (rest : List Video) (page items : List FeedVideoItem)
      → item_ids page ≡ video_ids (take (suc k) rest)
      → item_ids items ≡ video_ids (drop (suc k) rest)
      → item_ids (page ++ items) ≡ video_ids rest
  more_ids rest page items hp hi =
      map-append (λ i. i.id) page items
      ∙ (rw (hp, hi) refl)
      ∙ sym (map-append (λ v. v.id) (take (suc k) rest) (drop (suc k) rest))
      ∙ ap video_ids (take-append-drop (suc k) rest)

  abbrev Follows : (Error → Type 0) → ℕ → List Video → Option String → Type 0
  Follows E n rest bucket =
      Ensures env d (follow_likes env x has_cache redis viewer (suc k) n bucket) (Reads rest) E

  -- What follows a page.
  after_page :
      {E : Error → Type 0} (n : ℕ) (read rest : List Video) (bucket : Option String)
      (page : FetchFeedsResponse)
      → order_by more_liked d.videos ≡ read ++ rest
      → StandsAt x read bucket
      → length rest < suc n
      → ((read' rest' : List Video) (bucket' : Option String)
          → order_by more_liked d.videos ≡ read' ++ rest'
          → StandsAt x read' bucket'
          → length rest' < n
          → Follows E n rest' bucket')
      → IsLikesPage env x has_cache redis viewer (suc k) (likes_buckets x bucket) d page
      → Ensures env d
          (and_rest env x has_cache redis viewer
            (suc k)
            page
            (follow_likes env x has_cache redis viewer (suc k) n (some page.bucket)))
          (Reads rest)
          E
  after_page n read rest bucket page split stands enough ih p =
      let rows : liked_rows (suc k) (likes_cursor (likes_buckets x bucket)) d ≡ take (suc k) rest =
        rows_at x d h (suc k) read rest bucket split stands in
      let ids : item_ids page.video_list ≡ video_ids (take (suc k) rest) =
        p.ids ∙ ap video_ids rows in
      let more : page.has_more ≡ (length (take (suc k) rest) == suc k) =
        p.more ∙ ap (λ l. length l == suc k) rows in
      Ensures-if page.has_more _ _
        (λ full.
          let full' : (length (take (suc k) rest) == suc k) ≡ true = sym more ∙ full in
          let (v, at) = page_last k rest full' in
          let next : page.bucket ≡ x.encode_bucket (bucket_at v) =
            p.next
            ∙ ap
                (λ o.
                  x.encode_bucket ((order_by_likes, after_likes (likes_buckets x bucket) o) ∷ []))
                (ap last rows ∙ at)
            ∙ ap x.encode_bucket (next_bucket x read bucket v stands) in
          let stands' : StandsAt x (read ++ take (suc k) rest) (some page.bucket) =
            subst (λ b. StandsAt x (read ++ take (suc k) rest) (some b)) (sym next)
              (stands_after x d h (suc k) read rest bucket v split reads at) in
          let split' : order_by more_liked d.videos
              ≡ (read ++ take (suc k) rest) ++ drop (suc k) rest =
            split
            ∙ ap (λ l. read ++ l) (sym (take-append-drop (suc k) rest))
            ∙ sym (append_assoc read (take (suc k) rest) (drop (suc k) rest)) in
          Ensures-bind _ _
            (ih (read ++ take (suc k) rest) (drop (suc k) rest) (some page.bucket) split' stands'
              (ground (arith, length-drop (suc k) rest, full')))
            (λ items d' r. Ensures-pure _ (r.0, more_ids rest page.video_list items ids r.1)))
        (λ short.
          let none_left : drop (suc k) rest ≡ [] = drop_short (suc k) rest (sym more ∙ short) in
          Ensures-pure _ (
            refl,
            ids
                ∙ ap video_ids (
                    sym (append-nil (take (suc k) rest))
                    ∙ ap (λ l. take (suc k) rest ++ l) (sym none_left)
                    ∙ take-append-drop (suc k) rest),
          ))

  walk-Ensures :
      {E : Error → Type 0} (n : ℕ) (read rest : List Video) (bucket : Option String)
      → order_by more_liked d.videos ≡ read ++ rest
      → StandsAt x read bucket
      → length rest < n
      → Follows E n rest bucket
  unfolding follow_likes
  walk-Ensures zero read rest bucket split stands enough = absurd (omega arith)
  walk-Ensures {E} (suc n) read rest bucket split stands enough =
      Ensures-bind _ _ (fetch_likes-Ensures env x has_cache redis viewer (suc k) bucket d)
        (λ page d' p.
          subst
            (λ e.
              Ensures env e
                (and_rest env x has_cache redis viewer (suc k) page
                  (follow_likes env x has_cache redis viewer (suc k) n (some page.bucket)))
                (Reads rest) E)
            (sym p.0)
            (after_page n read rest bucket page split stands enough
              (λ read' rest' bucket' s t m. walk-Ensures n read' rest' bucket' s t m) p.1))

-- A client that follows the feed of the most liked videos, bringing each cursor back until there are no
-- more pages, sees every video exactly once, the most liked first and the newer id first among
-- equals: it ends within one page more than there are videos, and fails only where a statement does
-- not go through. This holds while the videos do not change, with ids that are positive and
-- differ, for pages of at least one video, where the cursors are read as they are written.
pub follow_likes_complete :
    (env : Env) (x : Formats) (has_cache : Bool) (redis : Redis) (viewer k n : ℕ) (w : World)
    → HasIds w.db.videos
    → All (IsReadable x) w.db.videos
    → length w.db.videos < n
    → OnResult
        (λ items d. (d ≡ w.db) × (item_ids items ≡ video_ids (order_by more_liked w.db.videos)))
        (Fails env (λ _. ⊥))
        (follow_likes env x has_cache redis viewer (suc k) n none w)
follow_likes_complete env x has_cache redis viewer k n w h reads enough =
    (walk-Ensures env x has_cache redis viewer k w.db h reads n [] (order_by more_liked w.db.videos)
        none refl (inl (refl, refl)) (omega (arith, length-order_by more_liked w.db.videos))).at
      Fails-Tolerates w.tick
