-- ===== src/Pay/Journal.antt =====
-- The fiat journal as a double-entry book: debits and credits balance.
pub mod Methods
use feedsystem_video_go_medi.Prelude.{
  ℕ, ℤ, pos, ◌+ℤ◌, ◌-ℤ◌, eqb_ℤ, ◌≡◌, refl, ◌∙◌, ap, Bool, true, false, ◌&&◌, ◌||◌, List, [], ◌∷◌,
  String, str_eq, str_eq_refl, if◌then◌else◌, ◌==◌, ==-refl, sum_of, any, arith, int_laws, inl, inr,
  Bool-cases,
}
use feedsystem_video_go_medi.Prelude.Lists.Laws.{any-weaken}
use feedsystem_video_go_medi.Pay.Entity.{
  Direction, credit, debit, FiatJournal, BizType, FiatAccount, biz_code, direction_code,
  fiat_account_code,
}
use feedsystem_video_go_medi.Pay.Rows.{same_fiat_key}
use feedsystem_video_go_medi.Pay.Books.{fiat_row}
use feedsystem_video_go_medi.Pay.Steps.{posted}

-- A debit counts as positive, a credit as negative.
abbrev pub fiat_amount : Direction → ℤ → ℤ
fiat_amount debit a = a
fiat_amount credit a = pos 0 -ℤ a

abbrev pub fiat_change : FiatJournal → ℤ
fiat_change r = fiat_amount r.direction r.amount_fen

unfoldable pub balance : List FiatJournal → ℤ
balance rows = sum_of fiat_change rows

-- Rows of one business document.
abbrev pub is_row_of : BizType → String → FiatJournal → Bool
is_row_of biz number r = (biz_code r.biz_type == biz_code biz) && str_eq r.biz_no number

abbrev pub IsUnposted : BizType → String → List FiatJournal → Type 0
IsUnposted biz number rows = any (is_row_of biz number) rows ≡ false

-- No row has the key of `r`.
unfoldable pub IsFree : FiatJournal → List FiatJournal → Type 0
IsFree r rows = any (same_fiat_key r) rows ≡ false

module _ (biz : BizType) (number : String) (account : FiatAccount) (direction : Direction)
    (amount : ℤ) where
  key_of_row :
      (x : FiatJournal)
      → is_row_of biz number x ≡ false
      → same_fiat_key (fiat_row biz number account direction amount) x ≡ false
  key_of_row x h = ground arith

  -- The key of a row is free where its document has no row.
  pub unposted-IsFree :
      (rows : List FiatJournal)
      → IsUnposted biz number rows
      → IsFree (fiat_row biz number account direction amount) rows
  unfolding IsFree
  unposted-IsFree = any-weaken _ _ key_of_row

-- A row that was posted leaves the other keys free.
pub posted-IsFree :
    (k r : FiatJournal) (rows : List FiatJournal)
    → same_fiat_key k r ≡ false
    → IsFree k rows
    → IsFree k (posted r rows)
unfolding IsFree any posted
posted-IsFree k r rows other free = ground (arith, other, free)

nothing_posted : (x : Direction) (a s : ℤ) → eqb_ℤ a (pos 0) ≡ true → s ≡ fiat_amount x a +ℤ s
unfolding ◌+ℤ◌ ◌-ℤ◌
nothing_posted credit a s h = ground arith
nothing_posted debit a s h = ground arith

-- A row under a free key changes the balance by its amount.
pub balance-posted :
    (r : FiatJournal) (rows : List FiatJournal)
    → IsFree r rows
    → balance (posted r rows) ≡ fiat_change r +ℤ balance rows
unfolding balance sum_of posted IsFree
balance-posted r rows free = elim (Bool-cases (eqb_ℤ r.amount_fen (pos 0))) [
  | inl nothing ↦
      rw nothing (nothing_posted r.direction r.amount_fen (sum_of fiat_change rows) nothing)
  | inr something ↦ rw (something, free) refl
]

pub balance-change :
    (r : FiatJournal) (rows : List FiatJournal) (b : ℤ)
    → IsFree r rows
    → balance rows ≡ b
    → balance (posted r rows) ≡ fiat_change r +ℤ b
balance-change r rows b free h = balance-posted r rows free ∙ ap (λ x. fiat_change r +ℤ x) h
