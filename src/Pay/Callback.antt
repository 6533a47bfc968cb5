-- ===== src/Pay/Callback.antt =====
-- `HandleCallback` of backend/internal/pay/service.go; its counters for monitoring are left out.
pub mod Signature
use feedsystem_video_go_medi.Prelude.{ℤ, Bool, not, String, if◌then◌else◌}
use feedsystem_video_go_medi.Pay.Entity.{CallbackBody}
use feedsystem_video_go_medi.Store.{
  Env, Error, bad_signature, Action, ⊤, Result, ok, err, pure, raise, raise_if, now, ◌>>=◌, ◌>>◌,
}
use feedsystem_video_go_medi.Pay.Gateway.{Codec, known_channel, verify_body, parse_callback}
use feedsystem_video_go_medi.Pay.Credit.{credit, mark_failed}

-- A result that was computed, as an action.
abbrev pub from_result : {A : Type 0} → Result A → Action A
from_result (ok a) = pure a
from_result (err e) = raise e

module _ (env : Env) where
  abbrev pub apply_callback : String → CallbackBody → Action ⊤
  apply_callback channel cb =
      if cb.paid then (credit env channel cb >>= λ _. pure tt) else mark_failed env channel cb

  unfoldable pub handle_callback : Codec → String → String → String → String → Action ⊤
  handle_callback c secret channel body signature = do
    raise_if (not (known_channel channel)) Error.channel
    raise_if (not (verify_body c secret signature body)) bad_signature
    t ← now env
    cb ← from_result (parse_callback c body t)
    apply_callback channel cb
