-- ===== src/Prelude/Lists/Unique.antt =====
-- Rows that a condition selects at most once, and conditions on all rows.
use Prim.Native.Nat.{◌≤◌}
use mathlib.Core.Path.{◌≡◌, refl, subst}
use mathlib.Core.Bool.{Bool, true, false, not}
use mathlib.Core.Option.{some}
use mathlib.Core.List.{List, [], ◌∷◌}
use mathlib.Core.Logic.{inl, inr}
use native.Mathlib.Omega.{arith}
use feedsystem_video_go_medi.Prelude.Tests.{Bool-cases}
use feedsystem_video_go_medi.Prelude.Lists.{
  length, find, any, filter, update_where, count_where, All,
}

module _ {ℓ} {A : Type ℓ} where
  pub count-of_find :
      (p q : A → Bool) (xs : List A) (x : A)
      → find p xs ≡ some x
      → q x ≡ true
      → 1 ≤ count_where q xs
  unfolding find count_where
  count-of_find p q [] x h here = cc
  count-of_find p q (y ∷ xs) x h here = ground (arith, count-of_find p q xs x)

  -- What is found by one condition and selected once by another is what that one finds.
  pub find_unique :
      (p q : A → Bool) (xs : List A) (x : A)
      → find p xs ≡ some x
      → q x ≡ true
      → count_where q xs ≤ 1
      → (find q xs ≡ some x) × (count_where q xs ≡ 1)
  unfolding find count_where
  find_unique p q [] x h here one = cc
  find_unique p q (y ∷ xs) x h here one =
      ground (arith, find_unique p q xs x, count-of_find p q xs x)

  pub update_none :
      (p : A → Bool) (f : A → A) (xs : List A) → count_where p xs ≡ 0 → update_where p f xs ≡ xs
  unfolding count_where update_where
  update_none p f [] h = refl
  update_none p f (x ∷ xs) h = ground (arith, update_none p f xs)

  pub All-update {κ} :
      {P : A → Type κ} (q : A → Bool) (f : A → A) (xs : List A)
      → ((x : A) → q x ≡ true → P x → P (f x))
      → All P xs
      → All P (update_where q f xs)
  unfolding update_where
  All-update q f [] step h = h
  All-update {P = P} q f (x ∷ xs) step h = (
    elim (Bool-cases (q x)) [ inl here ↦ rw here (step x here h.0) | inr other ↦ rw other h.0 ],
    All-update q f xs step h.1,
  )

  pub All-find {κ} :
      (P : A → Type κ) (p : A → Bool) (xs : List A) (x : A) → find p xs ≡ some x → All P xs → P x
  unfolding find
  All-find P p [] x e h = cc
  All-find P p (y ∷ xs) x e h = elim (Bool-cases (p y)) [
    | inl here ↦ let same : y ≡ x = ground arith in subst P same h.0
    | inr later ↦ All-find P p xs x (rw later at e) h.1
  ]

  pub All-filter {κ} :
      (P : A → Type κ) (p : A → Bool) (xs : List A) → All P xs → All P (filter p xs)
  unfolding filter
  All-filter P p [] h = h
  All-filter P p (x ∷ xs) h = elim (Bool-cases (p x)) [
    | inl kept ↦ rw kept (h.0, All-filter P p xs h.1)
    | inr left ↦ rw left (All-filter P p xs h.1)
  ]

  -- What is kept satisfies the condition.
  pub All-filtered : (p : A → Bool) (xs : List A) → All (λ x. p x ≡ true) (filter p xs)
  unfolding filter
  All-filtered p [] = tt
  All-filtered p (x ∷ xs) = elim (Bool-cases (p x)) [
    | inl kept ↦ rw kept (kept, All-filtered p xs)
    | inr left ↦ rw left (All-filtered p xs)
  ]

  -- An update that takes the rows it touches, and the rows that it leaves, from one condition to another.
  pub All-updated {κ} :
      (P Q : A → Type κ) (p : A → Bool) (f : A → A) (xs : List A)
      → ((x : A) → p x ≡ true → P x → Q (f x))
      → ((x : A) → p x ≡ false → P x → Q x)
      → All P xs
      → All Q (update_where p f xs)
  unfolding update_where
  All-updated P Q p f [] on off h = tt
  All-updated P Q p f (x ∷ xs) on off h = (
    elim (Bool-cases (p x)) [
      | inl here ↦ rw here (on x here h.0)
      | inr other ↦ rw other (off x other h.0)
    ],
    All-updated P Q p f xs on off h.1,
  )

  pub count-of_none : (p : A → Bool) (xs : List A) → any p xs ≡ false → count_where p xs ≡ 0
  unfolding any count_where
  count-of_none p [] h = refl
  count-of_none p (x ∷ xs) h = ground (arith, count-of_none p xs)

  pub count-filter : (p q : A → Bool) (xs : List A) → count_where p (filter q xs) ≤ count_where p xs
  unfolding filter count_where
  count-filter p q [] = omega arith
  count-filter p q (x ∷ xs) = ground (arith, count-filter p q xs)

  pub filter_none :
      (q : A → Bool) (xs : List A) → count_where q xs ≡ 0 → filter (λ x. not (q x)) xs ≡ xs
  unfolding filter count_where
  filter_none q [] h = refl
  filter_none q (x ∷ xs) h = ground (arith, filter_none q xs)

  pub update_same :
      (p : A → Bool) (f g : A → A) (xs : List A)
      → All (λ x. f x ≡ g x) xs
      → update_where p f xs ≡ update_where p g xs
  unfolding update_where
  update_same p f g [] h = refl
  update_same p f g (x ∷ xs) h = rw (h.0, update_same p f g xs h.1)

  pub All-map {κ} : (P Q : A → Type κ) (xs : List A) → ((x : A) → P x → Q x) → All P xs → All Q xs
  All-map P Q [] f h = tt
  All-map P Q (x ∷ xs) f h = (f x h.0, All-map P Q xs f h.1)

  pub length-filter : (p : A → Bool) (xs : List A) → length (filter p xs) ≤ length xs
  unfolding filter
  length-filter p [] = omega arith
  length-filter p (x ∷ xs) = ground (arith, length-filter p xs)
