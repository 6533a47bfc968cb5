-- ===== src/Prelude/Lists.antt =====
-- Lists measured by native numbers, and the queries that the program makes of a table's rows.
pub mod Laws
pub mod Unique
pub mod Ordered
pub mod Pages
use Prim.Native.Nat.{ℕ, zero, suc, ◌+◌}
use mathlib.Core.Bool.{Bool, false, ◌||◌}
use mathlib.Core.Option.{Option, none, some}
use mathlib.Core.List.{List, [], ◌∷◌}
use feedsystem_video_go_medi.Prelude.Tests.{if◌then◌else◌}
use feedsystem_video_go_medi.Prelude.Int.{ℤ, pos, ◌+ℤ◌}

module _ {ℓ} {A : Type ℓ} where
  abbrev pub length : List A → ℕ
  length [] = 0
  length (x ∷ xs) = suc (length xs)

  abbrev pub put_some : Option A → List A → List A
  put_some none xs = xs
  put_some (some x) xs = x ∷ xs

  abbrev pub take : ℕ → List A → List A
  take zero xs = []
  take (suc n) [] = []
  take (suc n) (x ∷ xs) = x ∷ take n xs

  -- `SELECT … WHERE p`
  unfoldable pub filter : (A → Bool) → List A → List A
  filter p [] = []
  filter p (x ∷ xs) = if p x then x ∷ filter p xs else filter p xs

  -- `SELECT … WHERE p LIMIT 1`, in the order of the rows.
  unfoldable pub find : (A → Bool) → List A → Option A
  find p [] = none
  find p (x ∷ xs) = if p x then some x else find p xs

  -- Whether a row satisfies `p`.
  unfoldable pub any : (A → Bool) → List A → Bool
  any p [] = false
  any p (x ∷ xs) = p x || any p xs

  -- `UPDATE … SET f WHERE p`
  unfoldable pub update_where : (A → Bool) → (A → A) → List A → List A
  update_where p f [] = []
  update_where p f (x ∷ xs) = (if p x then f x else x) ∷ update_where p f xs

  unfoldable pub count_where : (A → Bool) → List A → ℕ
  count_where p [] = 0
  count_where p (x ∷ xs) = (if p x then 1 else 0) + count_where p xs

  -- The sum of a column.
  unfoldable pub sum_of : (A → ℤ) → List A → ℤ
  sum_of g [] = pos 0
  sum_of g (x ∷ xs) = g x +ℤ sum_of g xs

  abbrev pub All {κ} : (A → Type κ) → List A → Type κ
  All P [] = Unit
  All P (x ∷ xs) = P x × All P xs

  -- A row among rows that are in order: `before y x` says that `y` comes strictly before `x`, and rows
  -- that tie keep their places.
  unfoldable pub insert_by : (A → A → Bool) → A → List A → List A
  insert_by before x [] = x ∷ []
  insert_by before x (y ∷ ys) =
      let rest = insert_by before x ys in if before y x then y ∷ rest else x ∷ y ∷ ys

  -- `ORDER BY`
  unfoldable pub order_by : (A → A → Bool) → List A → List A
  order_by before [] = []
  order_by before (x ∷ xs) = insert_by before x (order_by before xs)

  -- The last row, where there is one.
  unfoldable pub last : List A → Option A
  last [] = none
  last (x ∷ []) = some x
  last (x ∷ y ∷ ys) = last (y ∷ ys)

  -- The values that are there, in order.
  unfoldable pub keep_some {κ} : {B : Type κ} → (B → Option A) → List B → List A
  keep_some f [] = []
  keep_some f (b ∷ bs) = put_some (f b) (keep_some f bs)
