-- ===== src/Prelude/Lists/Pages.antt =====
-- Pages of rows in order, each of which starts after the last row of the page before it.
use Prim.Native.Nat.{ℕ, zero, suc, ◌+◌}
use mathlib.Core.Path.{◌≡◌, refl, ap, ◌∙◌, subst}
use mathlib.Core.Logic.{inl, inr}
use mathlib.Core.Bool.{Bool, true, false}
use mathlib.Core.Option.{Option, none, some}
use mathlib.Core.List.{List, [], ◌∷◌, ◌++◌}
use native.Mathlib.Omega.{arith}
use feedsystem_video_go_medi.Prelude.Tests.{Bool-cases, ◌==◌}
use feedsystem_video_go_medi.Prelude.Lists.{length, take, filter, order_by, last, All}
use feedsystem_video_go_medi.Prelude.Lists.Ordered.{
  IsOrder, IsInOrder, IsApart, order_by-IsInOrder, order_by-filter,
}

module _ {ℓ} {A : Type ℓ} where
  -- What `take` leaves.
  unfoldable pub drop : ℕ → List A → List A
  drop zero xs = xs
  drop (suc n) [] = []
  drop (suc n) (x ∷ xs) = drop n xs

  pub take-append-drop : (n : ℕ) (xs : List A) → take n xs ++ drop n xs ≡ xs
  unfolding drop
  take-append-drop zero xs = refl
  take-append-drop (suc n) [] = refl
  take-append-drop (suc n) (x ∷ xs) = ap (λ l. x ∷ l) (take-append-drop n xs)

  pub drop_short : (n : ℕ) (xs : List A) → (length (take n xs) == n) ≡ false → drop n xs ≡ []
  unfolding drop
  drop_short zero xs h = absurd (ground arith)
  drop_short (suc n) [] h = refl
  drop_short (suc n) (x ∷ xs) h = drop_short n xs (ground arith)

  pub length-drop : (n : ℕ) (xs : List A) → length (drop n xs) + length (take n xs) ≡ length xs
  unfolding drop
  length-drop zero xs = omega arith
  length-drop (suc n) [] = omega arith
  length-drop (suc n) (x ∷ xs) = omega (arith, length-drop n xs)

  pub last-append : (xs ys : List A) (y : A) → last ys ≡ some y → last (xs ++ ys) ≡ some y
  unfolding last
  last-append [] ys y h = h
  last-append (x ∷ []) [] y h = absurd (cc h)
  last-append (x ∷ []) (z ∷ zs) y h = h
  last-append (x ∷ x' ∷ xs) ys y h = last-append (x' ∷ xs) ys y h

  abbrev pub OptionIs : (A → Type 0) → Option A → Type 0
  OptionIs P none = Unit
  OptionIs P (some x) = P x

  pub All-last : (P : A → Type 0) (xs : List A) (y : A) → last xs ≡ some y → All P xs → P y
  unfolding last
  All-last P [] y h hs = absurd (cc h)
  All-last P (x ∷ []) y h hs = subst (λ o. OptionIs P o) h hs.0
  All-last P (x ∷ x' ∷ xs) y h hs = All-last P (x' ∷ xs) y h hs.1

  pub All-append_left : (P : A → Type 0) (xs ys : List A) → All P (xs ++ ys) → All P xs
  All-append_left P [] ys h = tt
  All-append_left P (x ∷ xs) ys h = (h.0, All-append_left P xs ys h.1)

  pub All-append_right : (P : A → Type 0) (xs ys : List A) → All P (xs ++ ys) → All P ys
  All-append_right P [] ys h = h
  All-append_right P (x ∷ xs) ys h = All-append_right P xs ys h.1

  pub filter_all : (p : A → Bool) (xs : List A) → All (λ x. p x ≡ true) xs → filter p xs ≡ xs
  unfolding filter
  filter_all p [] h = refl
  filter_all p (x ∷ xs) h = rw (h.0, filter_all p xs h.1)

module _ {ℓ} {A : Type ℓ} (before : A → A → Bool) (o : IsOrder before) where
  not_after : (x c : A) → before x c ≡ true → before c x ≡ false
  not_after x c first = elim (Bool-cases (before c x)) [
    | inl back ↦ absurd (cc (o.trans x c x first back, o.irrefl x))
    | inr h ↦ h
  ]

  filter_after :
      (xs ys : List A) (c : A)
      → last xs ≡ some c
      → IsInOrder before (xs ++ ys)
      → filter (before c) (xs ++ ys) ≡ ys
  unfolding last filter
  filter_after [] ys c h k = absurd (cc h)
  filter_after (x ∷ []) ys c h k =
      let same : x ≡ c = cc h in
      subst (λ d. filter (before d) (x ∷ ys) ≡ ys) same
        (rw (o.irrefl x) (filter_all (before x) ys k.0))
  filter_after (x ∷ x' ∷ xs) ys c h k =
      let first : before x c ≡ true =
        All-last (λ y. before x y ≡ true) (x' ∷ xs) c h
          (All-append_left (λ y. before x y ≡ true) (x' ∷ xs) ys k.0) in
      rw (not_after x c first) (filter_after (x' ∷ xs) ys c h k.1)

  -- The rows after the last one of a beginning are what follows the beginning.
  pub order_by_after :
      (rows xs ys : List A) (c : A)
      → IsApart before rows
      → last xs ≡ some c
      → order_by before rows ≡ xs ++ ys
      → order_by before (filter (before c) rows) ≡ ys
  order_by_after rows xs ys c apart h split =
      order_by-filter before o (before c) rows apart
      ∙ ap (filter (before c)) split
      ∙ filter_after xs ys c h
          (subst (IsInOrder before) split (order_by-IsInOrder before o rows apart))
