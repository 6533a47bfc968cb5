-- ===== src/Pay/Books/Fee.antt =====
-- The fee of the payment channel: `splitFee`.
use feedsystem_video_go_medi.Prelude.{
  ℕ, pos, ◌-◌, ◌*◌, ◌/◌, ◌≤◌, ◌≡◌, arith, mul64, div64, sub64, wrap, ◌*ℤ◌, ◌-ℤ◌, if◌then◌else◌, ltb,
}
use feedsystem_video_go_medi.Pay.Books.{split_fee}

-- 0.6 percent, at least one fen.
abbrev pub share : ℕ → ℕ
share a = if ltb (a * 60) 10000 then 1 else a * 60 / 10000

-- A positive amount whose product with 60 does not overflow is split without a remainder: the fee is
-- 0.6 percent of it, rounded down, but at least one fen and at most the amount.
pub split_fee_exact :
    (a : ℕ)
    → 1 ≤ a
    → a * 60 ≤ 9223372036854775807
    → (split_fee (pos a) ≡ (pos (share a), pos (a - share a))) × (1 ≤ share a) × (share a ≤ a)
unfolding split_fee mul64 div64 sub64 wrap ◌*ℤ◌ ◌-ℤ◌
split_fee_exact a some_fen small = (ground arith, ground arith, ground arith)
