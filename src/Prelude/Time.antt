-- ===== src/Prelude/Time.antt =====
-- Times, as nanoseconds from the Unix epoch, in the units that the program stores, and Go's `uint`.
use Prim.Native.Nat.{ℕ, ◌+◌, ◌-◌, ◌*◌, ◌/◌, ◌%◌}
use feedsystem_video_go_medi.Prelude.Int.{ℤ, pos, negsuc}
use feedsystem_video_go_medi.Prelude.Int64.{full_range}

-- `Unix()` and `UnixMilli()` of a time: whole units, rounded down.
abbrev pub unix : ℤ → ℤ
unix (pos n) = pos (n / 1000000000)
unix (negsuc n) = negsuc (n / 1000000000)

abbrev pub unix_milli : ℤ → ℤ
unix_milli (pos n) = pos (n / 1000000)
unix_milli (negsuc n) = negsuc (n / 1000000)

-- `time.Unix(seconds, 0)`
abbrev pub from_unix : ℤ → ℤ
from_unix (pos n) = pos (n * 1000000000)
from_unix (negsuc n) = negsuc (n * 1000000000 + 999999999)

-- The conversion of an `int64` to `uint`.
abbrev pub to_uint : ℤ → ℕ
to_uint (pos n) = n
to_uint (negsuc n) = full_range - 1 - n % full_range
