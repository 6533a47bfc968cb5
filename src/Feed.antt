-- ===== src/Feed.antt =====
-- Pages of a feed: `mergeByCreateTime` and `reorderByIDs` of backend/internal/feed/lister.go. A page's
-- limit is a natural number.
pub mod Entity
pub mod Repo
pub mod Lister
pub mod Responses
pub mod Service
pub mod Paging
pub mod Shared
pub mod Order
pub mod Reorder
mod Tests
use feedsystem_video_go_medi.Prelude.{
  ℕ, zero, suc, ltb_ℤ, Bool, true, false, Option, none, some, List, [], ◌∷◌, ◌==◌, if◌then◌else◌,
}
use feedsystem_video_go_medi.Video.Entity.{Video}

-- `a.CreateTime.After(b.CreateTime)`
abbrev pub is_after : Video → Video → Bool
is_after a b = ltb_ℤ b.create_time a.create_time

-- The next video of two lists that both have one, and what is left of them.
abbrev pub pick : Video → List Video → Video → List Video → Video × List Video × List Video
pick x a y b = if is_after x y then (x, a, y ∷ b) else (y, x ∷ a, b)

unfoldable pub merge_by_create_time : List Video → List Video → ℕ → List Video
merge_by_create_time a b zero = []
merge_by_create_time [] [] (suc n) = []
merge_by_create_time [] (y ∷ b) (suc n) = y ∷ merge_by_create_time [] b n
merge_by_create_time (x ∷ a) [] (suc n) = x ∷ merge_by_create_time a [] n
merge_by_create_time (x ∷ a) (y ∷ b) (suc n) =
    let next = pick x a y b in next.0 ∷ merge_by_create_time next.1 next.2 n

abbrev pub or_this : Option Video → Bool → Video → Option Video
or_this (some w) _ _ = some w
or_this none true v = some v
or_this none false v = none

-- `byID[id]`: a later video takes the place of an earlier one with the same id.
unfoldable pub by_id : List Video → ℕ → Option Video
by_id [] id = none
by_id (v ∷ vs) id = or_this (by_id vs id) (v.id == id) v

abbrev pub put_if_some : Option Video → List Video → List Video
put_if_some none vs = vs
put_if_some (some v) vs = v ∷ vs

unfoldable pub reorder_by_ids : List Video → List ℕ → List Video
unfolding by_id
reorder_by_ids videos [] = []
reorder_by_ids videos (id ∷ ids) = put_if_some (by_id videos id) (reorder_by_ids videos ids)
