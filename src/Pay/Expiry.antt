-- ===== src/Pay/Expiry.antt =====
-- `closeIfExpired` and `releaseGatewayHold` of backend/internal/pay/service.go.
pub mod Outcome
use feedsystem_video_go_medi.Prelude.{ℕ, ltb_ℤ, Bool, not, ◌&&◌, String, ◌==◌, if◌then◌else◌}
use feedsystem_video_go_medi.Pay.Entity.{Status, PayOrder}
use feedsystem_video_go_medi.Store.{Env, Action, ⊤, pure, now, post, execute, ◌>>=◌, ◌>>◌}
use feedsystem_video_go_medi.Pay.Rows.{update_orders}
use feedsystem_video_go_medi.Pay.Credit.{with_status}
use feedsystem_video_go_medi.Pay.Credit.Failure.{is_open}

-- An order that is returned alone, or together with `ErrOrderExpired`.
pub data Closing : Type 0 where
  live : PayOrder → Closing
  expired : PayOrder → Closing

-- `WHERE id = ? AND status IN ('created', 'paying')`
abbrev pub has_id_open : ℕ → PayOrder → Bool
has_id_open id o = (o.id == id) && is_open o.status

module _ (env : Env) where
  -- The answer is not read.
  unfoldable pub release_gateway_hold : String → Action ⊤
  release_gateway_hold number = do reply ← post env "/trade/close" number; pure tt

  unfoldable pub close_if_expired : PayOrder → Action Closing
  close_if_expired order = if not (is_open order.status) then pure (live order) else do
    t ← now env
    if not (ltb_ℤ order.expire_at t) then pure (live order) else do
      execute env (update_orders (has_id_open order.id) (with_status Status.closed))
      release_gateway_hold order.order_no
      pure (expired (with_status Status.closed order))
