-- ===== src/Pay/Cashier/Compare.antt =====
-- The comparison of signatures in constant time: `hmacEqual` of backend/internal/pay/cashier.go, over the
-- bytes of the two texts.
pub mod Equality
use feedsystem_video_go_medi.Prelude.{
  ℕ, zero, suc, ◌+◌, ◌*◌, ◌/◌, ◌%◌, Bool, true, false, not, List, [], ◌∷◌, if◌then◌else◌, ◌==◌,
  length,
}

-- The low `n` bits of the exclusive or, and of the or.
unfoldable pub xor_bits : ℕ → ℕ → ℕ → ℕ
xor_bits zero a b = 0
xor_bits (suc n) a b = (if a % 2 == b % 2 then 0 else 1) + 2 * xor_bits n (a / 2) (b / 2)

unfoldable pub or_bits : ℕ → ℕ → ℕ → ℕ
or_bits zero a b = 0
or_bits (suc n) a b = (if a % 2 + b % 2 == 0 then 0 else 1) + 2 * or_bits n (a / 2) (b / 2)

-- `diff |= a[i] ^ b[i]`, over texts of one length.
unfoldable pub differences : ℕ → List ℕ → List ℕ → ℕ
differences diff (x ∷ xs) (y ∷ ys) = differences (or_bits 8 diff (xor_bits 8 x y)) xs ys
differences diff [] ys = diff
differences diff (x ∷ xs) [] = diff

unfoldable pub hmac_equal : List ℕ → List ℕ → Bool
hmac_equal a b = if not (length a == length b) then false else differences 0 a b == 0
