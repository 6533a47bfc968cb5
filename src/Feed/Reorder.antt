-- ===== src/Feed/Reorder.antt =====
-- The order of a page that is read by ids.
use feedsystem_video_go_medi.Prelude.{
  ℕ, ◌≡◌, refl, ap, Bool, true, false, none, some, List, [], ◌∷◌, ◌==◌, ==→eq, map, filter, any,
  Bool-cases, ◌⊎◌, inl, inr, ◌||◌,
}
use feedsystem_video_go_medi.Video.Entity.{Video}
use feedsystem_video_go_medi.Feed.{by_id, reorder_by_ids}

abbrev pub has_id : ℕ → Video → Bool
has_id id v = v.id == id

abbrev Found : List Video → ℕ → Type 0
Found vs id =
    ((by_id vs id ≡ none) × (any (has_id id) vs ≡ false))
    ⊎ ((w : Video) × (by_id vs id ≡ some w) × (w.id ≡ id) × (any (has_id id) vs ≡ true))

or_true : (b : Bool) → (b || true) ≡ true
or_true true = refl
or_true false = refl

by_id-cases : (vs : List Video) (id : ℕ) → Found vs id
unfolding by_id any
by_id-cases [] id = inl (refl, refl)
by_id-cases (v ∷ vs) id = elim (by_id-cases vs id) [
  | inl missing ↦ elim (Bool-cases (has_id id v)) [
    | inl this ↦ inr (v, rw (missing.0, this) refl, ==→eq _ _ this, rw this refl)
    | inr other ↦ inl (rw (missing.0, other) refl, rw (other, missing.1) refl)
  ]
  | inr (w, found, same, some_row) ↦
      inr (w, rw found refl, same, rw some_row (or_true (has_id id v)))
]

-- A page that is read by ids holds a video for each id that has one, in the order of the ids.
pub reorder_by_ids-filter :
    (videos : List Video) (ids : List ℕ)
    → map (λ (v : Video). v.id) (reorder_by_ids videos ids)
      ≡ filter (λ id. any (has_id id) videos) ids
unfolding reorder_by_ids filter
reorder_by_ids-filter videos [] = refl
reorder_by_ids-filter videos (id ∷ ids) = elim (by_id-cases videos id) [
  | inl (missing, no_row) ↦ rw (missing, no_row) (reorder_by_ids-filter videos ids)
  | inr (w, found, same, some_row) ↦
      rw (found, some_row, same) (ap (λ l. id ∷ l) (reorder_by_ids-filter videos ids))
]
