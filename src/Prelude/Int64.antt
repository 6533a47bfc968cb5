-- ===== src/Prelude/Int64.antt =====
-- Go's `int64`: an integer between -2^63 and 2^63 - 1, whose sums, differences and products wrap
-- around, and whose quotient is rounded towards 0.
use Prim.Native.Nat.{ℕ, ◌+◌, ◌-◌, ◌/◌, ◌%◌}
use mathlib.Core.Path.{◌≡◌}
use native.Mathlib.Omega.{arith}
use feedsystem_video_go_medi.Prelude.Tests.{ltb, if◌then◌else◌}
use feedsystem_video_go_medi.Prelude.Int.{ℤ, pos, negsuc, sub_ℕ, ◌+ℤ◌, ◌-ℤ◌, ◌*ℤ◌}

-- 2^63 and 2^64
abbrev pub half_range : ℕ
half_range = 9223372036854775808

abbrev pub full_range : ℕ
full_range = 18446744073709551616

-- The bit pattern of an integer, and the integer that a bit pattern stands for.
residue : ℤ → ℕ
residue (pos n) = n % full_range
residue (negsuc n) = full_range - 1 - n % full_range

signed : ℕ → ℤ
signed r = if ltb r half_range then pos r else negsuc (full_range - 1 - r)

unfoldable pub wrap : ℤ → ℤ
unfolding residue signed
wrap a = signed (residue a)

unfoldable pub add64 : ℤ → ℤ → ℤ
add64 a b = wrap (a +ℤ b)

unfoldable pub sub64 : ℤ → ℤ → ℤ
sub64 a b = wrap (a -ℤ b)

unfoldable pub mul64 : ℤ → ℤ → ℤ
mul64 a b = wrap (a *ℤ b)

-- Division by a positive constant.
unfoldable pub div64 : ℤ → ℕ → ℤ
div64 (pos n) k = pos (n / k)
div64 (negsuc n) k = sub_ℕ 0 ((n + 1) / k)

pub wrap-add : (a b : ℤ) → wrap (wrap a +ℤ b) ≡ wrap (a +ℤ b)
unfolding wrap ◌+ℤ◌
wrap-add a b = ground arith

pub wrap-sub : (a b : ℤ) → wrap (wrap a -ℤ b) ≡ wrap (a -ℤ b)
unfolding wrap ◌-ℤ◌
wrap-sub a b = ground arith
