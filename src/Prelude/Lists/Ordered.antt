-- ===== src/Prelude/Lists/Ordered.antt =====
-- Rows in order: what `ORDER BY`, `WHERE` and `LIMIT` do together.
use Prim.Native.Nat.{suc}
use mathlib.Core.Path.{◌≡◌, refl, ap, ◌∙◌, sym}
use mathlib.Core.Logic.{◌⊎◌, inl, inr}
use mathlib.Core.Bool.{Bool, true, false}
use mathlib.Core.List.{List, [], ◌∷◌}
use feedsystem_video_go_medi.Prelude.Tests.{Bool-cases}
use feedsystem_video_go_medi.Prelude.Lists.Unique.{All-filter}
use feedsystem_video_go_medi.Prelude.Lists.{length, filter, insert_by, order_by, All}

-- `before` puts rows in a line, save for those that tie.
pub record IsOrder {ℓ} {A : Type ℓ} (before : A → A → Bool) : Type ℓ where
  pub trans : (x y z : A) → before x y ≡ true → before y z ≡ true → before x z ≡ true
  pub irrefl : (x : A) → before x x ≡ false

module _ {ℓ} {A : Type ℓ} (before : A → A → Bool) where
  -- Each row comes before all that follow it.
  abbrev pub IsInOrder : List A → Type 0
  IsInOrder [] = Unit
  IsInOrder (x ∷ xs) = All (λ y. before x y ≡ true) xs × IsInOrder xs

  -- No two rows tie.
  abbrev pub IsApart : List A → Type 0
  IsApart [] = Unit
  IsApart (x ∷ xs) = All (λ y. (before x y ≡ true) ⊎ (before y x ≡ true)) xs × IsApart xs

module _ {ℓ} {A : Type ℓ} (before : A → A → Bool) where
  length-insert_by : (x : A) (ys : List A) → length (insert_by before x ys) ≡ suc (length ys)
  unfolding insert_by
  length-insert_by x [] = refl
  length-insert_by x (y ∷ ys) = elim (Bool-cases (before y x)) [
    | inl first ↦ rw (first, length-insert_by x ys)
    | inr late ↦ rw late
  ]

  pub length-order_by : (xs : List A) → length (order_by before xs) ≡ length xs
  unfolding order_by
  length-order_by [] = refl
  length-order_by (x ∷ xs) = length-insert_by x (order_by before xs) ∙ ap suc (length-order_by xs)

module _ {ℓ} {A : Type ℓ} (before : A → A → Bool) (P : A → Type 0) where
  All-insert_by : (x : A) (ys : List A) → P x → All P ys → All P (insert_by before x ys)
  unfolding insert_by
  All-insert_by x [] h hs = (h, tt)
  All-insert_by x (y ∷ ys) h hs = elim (Bool-cases (before y x)) [
    | inl first ↦ rw first (hs.0, All-insert_by x ys h hs.1)
    | inr later ↦ rw later (h, hs)
  ]

  pub All-order_by : (xs : List A) → All P xs → All P (order_by before xs)
  unfolding order_by
  All-order_by [] h = tt
  All-order_by (x ∷ xs) h = All-insert_by x (order_by before xs) h.0 (All-order_by xs h.1)

module _ {ℓ} {A : Type ℓ} (before : A → A → Bool) (o : IsOrder before) where
  All-before :
      (x y : A) (zs : List A)
      → before x y ≡ true
      → All (λ z. before y z ≡ true) zs
      → All (λ z. before x z ≡ true) zs
  All-before x y [] first h = tt
  All-before x y (z ∷ zs) first h = (o.trans x y z first h.0, All-before x y zs first h.1)

  insert_by-IsInOrder :
      (x : A) (ys : List A)
      → All (λ y. (before x y ≡ true) ⊎ (before y x ≡ true)) ys
      → IsInOrder before ys
      → IsInOrder before (insert_by before x ys)
  unfolding insert_by
  insert_by-IsInOrder x [] apart h = (tt, tt)
  insert_by-IsInOrder x (y ∷ ys) (inl first, apart) h = elim (Bool-cases (before y x)) [
    | inl both ↦ absurd (cc (o.trans x y x first both, o.irrefl x))
    | inr later ↦ rw later ((first, All-before x y ys first h.0), h)
  ]
  insert_by-IsInOrder x (y ∷ ys) (inr later, apart) h = rw later (
    All-insert_by before (λ z. before y z ≡ true) x ys later h.0,
    insert_by-IsInOrder x ys apart h.1,
  )

  pub order_by-IsInOrder : (xs : List A) → IsApart before xs → IsInOrder before (order_by before xs)
  unfolding order_by
  order_by-IsInOrder [] h = tt
  order_by-IsInOrder (x ∷ xs) h =
      insert_by-IsInOrder x (order_by before xs)
        (All-order_by before (λ y. (before x y ≡ true) ⊎ (before y x ≡ true)) xs h.0)
        (order_by-IsInOrder xs h.1)

  insert_first :
      (x : A) (zs : List A) → All (λ z. before z x ≡ false) zs → insert_by before x zs ≡ x ∷ zs
  unfolding insert_by
  insert_first x [] h = refl
  insert_first x (z ∷ zs) h = rw h.0

  not_before : (x y z : A) → before y x ≡ false → before y z ≡ true → before z x ≡ false
  not_before x y z late early = elim (Bool-cases (before z x)) [
    | inl first ↦ absurd (cc (o.trans y z x early first, late))
    | inr h ↦ h
  ]

  none_before :
      (x y : A) (zs : List A)
      → before y x ≡ false
      → All (λ z. before y z ≡ true) zs
      → All (λ z. before z x ≡ false) zs
  none_before x y [] late h = tt
  none_before x y (z ∷ zs) late h = (not_before x y z late h.0, none_before x y zs late h.1)

  module _ (p : A → Bool) where
    filter-insert_by_kept :
        (x : A) (ys : List A)
        → p x ≡ true
        → IsInOrder before ys
        → filter p (insert_by before x ys) ≡ insert_by before x (filter p ys)
    unfolding insert_by filter
    filter-insert_by_kept x [] kept h = rw kept
    filter-insert_by_kept x (y ∷ ys) kept h = elim (Bool-cases (before y x)) [
      | inl first ↦ rw first (elim (Bool-cases (p y)) [
        | inl stays ↦ rw (stays, first, filter-insert_by_kept x ys kept h.1)
        | inr goes ↦ rw (goes, filter-insert_by_kept x ys kept h.1)
      ])
      | inr late ↦
          let all_late : All (λ z. before z x ≡ false) (filter p (y ∷ ys)) =
            All-filter (λ z. before z x ≡ false) p (y ∷ ys) (late, none_before x y ys late h.0) in
          rw (late, kept) (sym (insert_first x (filter p (y ∷ ys)) all_late))
    ]

    filter-insert_by_left :
        (x : A) (ys : List A) → p x ≡ false → filter p (insert_by before x ys) ≡ filter p ys
    unfolding insert_by filter
    filter-insert_by_left x [] left = rw left
    filter-insert_by_left x (y ∷ ys) left = elim (Bool-cases (before y x)) [
      | inl first ↦ rw (first, filter-insert_by_left x ys left)
      | inr late ↦ rw (late, left)
    ]

    -- `WHERE` before `ORDER BY` is `WHERE` after it.
    pub order_by-filter :
        (xs : List A)
        → IsApart before xs
        → order_by before (filter p xs) ≡ filter p (order_by before xs)
    unfolding order_by filter
    order_by-filter [] h = refl
    order_by-filter (x ∷ xs) h = elim (Bool-cases (p x)) [
      | inl kept ↦ rw kept (
          ap (insert_by before x) (order_by-filter xs h.1)
          ∙ sym (filter-insert_by_kept x (order_by before xs) kept (order_by-IsInOrder xs h.1)))
      | inr left ↦
          rw left (order_by-filter xs h.1 ∙ sym (filter-insert_by_left x (order_by before xs) left))
    ]
