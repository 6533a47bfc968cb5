-- ===== src/Prelude/Lists/Laws.antt =====
-- Queries and updates of a table's rows: what is found and counted after an update.
use mathlib.Core.Path.{◌≡◌, refl}
use mathlib.Core.Bool.{Bool, true, false}
use mathlib.Core.Option.{Option, none, some, some-injective}
use mathlib.Core.Option
use mathlib.Core.List.{List, [], ◌∷◌}
use native.Mathlib.Omega.{arith}
use feedsystem_video_go_medi.Prelude.Tests.{if◌then◌else◌}
use feedsystem_video_go_medi.Prelude.Lists.{find, any, update_where, count_where}

module _ {ℓ} {A : Type ℓ} (p : A → Bool) where
  pub any-of_find : (xs : List A) → find p xs ≡ none → any p xs ≡ false
  unfolding find any
  any-of_find [] h = refl
  any-of_find (x ∷ xs) h = ground (arith, any-of_find xs)

  -- A row that is found satisfies the condition.
  pub find_sound : (xs : List A) (x : A) → find p xs ≡ some x → p x ≡ true
  unfolding find
  find_sound [] x h = cc
  find_sound (y ∷ xs) x h = ground (arith, find_sound xs x)

  -- An update that does not touch what is searched by maps the row that is found.
  pub find-update :
      (q : A → Bool) (f : A → A) (xs : List A)
      → ((x : A) → p (f x) ≡ p x)
      → find p (update_where q f xs) ≡ Option.map (λ x. if q x then f x else x) (find p xs)
  unfolding find update_where
  find-update q f [] keeps = refl
  find-update q f (x ∷ xs) keeps = ground (arith, keeps x, find-update q f xs keeps)

  pub count-of_any : (xs : List A) → count_where p xs ≡ 0 → any p xs ≡ false
  unfolding count_where any
  count-of_any [] h = refl
  count-of_any (x ∷ xs) h = ground (arith, count-of_any xs)

module _ {ℓ} {A : Type ℓ} (p q : A → Bool) where
  pub any-weaken :
      ((x : A) → q x ≡ false → p x ≡ false) → (xs : List A) → any q xs ≡ false → any p xs ≡ false
  unfolding any
  any-weaken h [] none_q = refl
  any-weaken h (x ∷ xs) none_q = ground (arith, h x, any-weaken h xs)
