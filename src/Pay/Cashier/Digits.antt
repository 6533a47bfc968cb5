-- ===== src/Pay/Cashier/Digits.antt =====
-- The digits of a text: `digitsOnly` of backend/internal/pay/cashier.go.
use Prim.Native.String.{String, [], ◌∷◌}
use Prim.Native.Char.{code}
use feedsystem_video_go_medi.Prelude.{leb, ◌&&◌, if◌then◌else◌}

unfoldable pub digits_only : String → String
digits_only [] = []
digits_only (c ∷ s) =
    let rest = digits_only s in if leb 48 (code c) && leb (code c) 57 then c ∷ rest else rest
