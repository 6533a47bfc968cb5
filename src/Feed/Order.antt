-- ===== src/Feed/Order.antt =====
-- The order and the contents of a merged page.
use feedsystem_video_go_medi.Prelude.{
  ℕ, zero, suc, ◌≤ℤ◌, ◌≡◌, refl, ap, true, false, List, [], ◌∷◌, ◌++◌, arith, Bool-cases, inl, inr,
  length, ◌≤◌, ◌⊎◌,
}
use feedsystem_video_go_medi.Video.Entity.{Video}
use feedsystem_video_go_medi.Feed.{is_after, merge_by_create_time}

-- The first video of a list, where there is one, is not newer than `v`.
abbrev pub IsAtMost : Video → List Video → Type 0
IsAtMost v [] = Unit
IsAtMost v (w ∷ ws) = w.create_time ≤ℤ v.create_time

-- The newest first.
abbrev pub IsSorted : List Video → Type 0
IsSorted [] = Unit
IsSorted (v ∷ vs) = IsAtMost v vs × IsSorted vs

-- A list made of two others, each in its own order.
pub data Interleaves : List Video → List Video → List Video → Type 0 where
  done : Interleaves [] [] []
  from_left : (x : Video) (a b c : List Video) → Interleaves a b c → Interleaves (x ∷ a) b (x ∷ c)
  from_right : (y : Video) (a b c : List Video) → Interleaves a b c → Interleaves a (y ∷ b) (y ∷ c)

merge-IsAtMost :
    (v : Video) (a b : List Video) (n : ℕ)
    → IsAtMost v a
    → IsAtMost v b
    → IsAtMost v (merge_by_create_time a b n)
unfolding merge_by_create_time
merge-IsAtMost v a b zero ha hb = tt
merge-IsAtMost v [] [] (suc n) ha hb = tt
merge-IsAtMost v [] (y ∷ b) (suc n) ha hb = hb
merge-IsAtMost v (x ∷ a) [] (suc n) ha hb = ha
merge-IsAtMost v (x ∷ a) (y ∷ b) (suc n) ha hb = elim (Bool-cases (is_after x y)) [
  | inl newer ↦ rw newer ha
  | inr older ↦ rw older hb
]

after_bound : (x y : Video) → is_after x y ≡ true → y.create_time ≤ℤ x.create_time
after_bound x y h = ground arith

not_after_bound : (x y : Video) → is_after x y ≡ false → x.create_time ≤ℤ y.create_time
not_after_bound x y h = ground arith

-- The page that is merged from two lists in order, the newest first, is in order too.
pub merge_by_create_time-IsSorted :
    (a b : List Video) (n : ℕ) → IsSorted a → IsSorted b → IsSorted (merge_by_create_time a b n)
unfolding merge_by_create_time
merge_by_create_time-IsSorted a b zero ha hb = tt
merge_by_create_time-IsSorted [] [] (suc n) ha hb = tt
merge_by_create_time-IsSorted [] (y ∷ b) (suc n) ha hb =
    (merge-IsAtMost y [] b n tt hb.0, merge_by_create_time-IsSorted [] b n tt hb.1)
merge_by_create_time-IsSorted (x ∷ a) [] (suc n) ha hb =
    (merge-IsAtMost x a [] n ha.0 tt, merge_by_create_time-IsSorted a [] n ha.1 tt)
merge_by_create_time-IsSorted (x ∷ a) (y ∷ b) (suc n) ha hb = elim (Bool-cases (is_after x y)) [
  | inl newer ↦ rw newer (
    merge-IsAtMost x a (y ∷ b) n ha.0 (after_bound x y newer),
    merge_by_create_time-IsSorted a (y ∷ b) n ha.1 hb,
  )
  | inr older ↦ rw older (
    merge-IsAtMost y (x ∷ a) b n (not_after_bound x y older) hb.0,
    merge_by_create_time-IsSorted (x ∷ a) b n ha hb.1,
  )
]

-- How a page divides two lists: into what it takes of each, in order, and what it leaves.
pub record IsPageOf (a b page : List Video) (n : ℕ) : Type 0 where
  pub left : List Video
  pub left_rest : List Video
  pub right : List Video
  pub right_rest : List Video
  pub left_split : left ++ left_rest ≡ a
  pub right_split : right ++ right_rest ≡ b
  pub taken : Interleaves left right page
  pub bound : length page ≤ n
  pub full : (length page ≡ n) ⊎ ((left_rest ≡ []) × (right_rest ≡ []))

still_full : (k n : ℕ) (P : Type 0) → (k ≡ n) ⊎ P → (suc k ≡ suc n) ⊎ P
still_full k n P (inl e) = inl (ap suc e)
still_full k n P (inr p) = inr p

module _ (x : Video) (a b page : List Video) (n : ℕ) (p : IsPageOf a b page n) where
  take_left : IsPageOf (x ∷ a) b (x ∷ page) (suc n)
  take_left = record {
    left = x ∷ p.left;
    left_rest = p.left_rest;
    right = p.right;
    right_rest = p.right_rest;
    left_split = ap (λ l. x ∷ l) p.left_split;
    right_split = p.right_split;
    taken = from_left x p.left p.right page p.taken;
    bound = omega (arith, p.bound);
    full = still_full (length page) n _ p.full;
  }

  take_right : IsPageOf a (x ∷ b) (x ∷ page) (suc n)
  take_right = record {
    left = p.left;
    left_rest = p.left_rest;
    right = x ∷ p.right;
    right_rest = p.right_rest;
    left_split = p.left_split;
    right_split = ap (λ l. x ∷ l) p.right_split;
    taken = from_right x p.left p.right page p.taken;
    bound = omega (arith, p.bound);
    full = still_full (length page) n _ p.full;
  }

empty_page : (a b : List Video) → IsPageOf a b [] 0
empty_page a b = record {
  left = [];
  left_rest = a;
  right = [];
  right_rest = b;
  left_split = refl;
  right_split = refl;
  taken = done;
  bound = omega arith;
  full = inl refl;
}

whole_page : (n : ℕ) → IsPageOf [] [] [] n
whole_page n = record {
  left = [];
  left_rest = [];
  right = [];
  right_rest = [];
  left_split = refl;
  right_split = refl;
  taken = done;
  bound = omega arith;
  full = inr (refl, refl);
}

-- A merged page has at most `limit` videos, takes a beginning of each of the two lists, keeps the order
-- of each and adds nothing, and is shorter than `limit` only where it takes both lists whole.
pub merge_by_create_time-IsPageOf :
    (a b : List Video) (limit : ℕ) → IsPageOf a b (merge_by_create_time a b limit) limit
unfolding merge_by_create_time
merge_by_create_time-IsPageOf a b zero = empty_page a b
merge_by_create_time-IsPageOf [] [] (suc n) = whole_page (suc n)
merge_by_create_time-IsPageOf [] (y ∷ b) (suc n) =
    take_right y [] b _ n (merge_by_create_time-IsPageOf [] b n)
merge_by_create_time-IsPageOf (x ∷ a) [] (suc n) =
    take_left x a [] _ n (merge_by_create_time-IsPageOf a [] n)
merge_by_create_time-IsPageOf (x ∷ a) (y ∷ b) (suc n) = elim (Bool-cases (is_after x y)) [
  | inl newer ↦ rw newer (take_left x a (y ∷ b) _ n (merge_by_create_time-IsPageOf a (y ∷ b) n))
  | inr older ↦ rw older (take_right y (x ∷ a) b _ n (merge_by_create_time-IsPageOf (x ∷ a) b n))
]
