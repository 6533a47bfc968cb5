-- ===== src/Pay/Batch.antt =====
-- `Refund`, `Chargeback` and `SettleDue` of backend/internal/pay/books.go.
use feedsystem_video_go_medi.Prelude.{
  ℕ, ℤ, ◌+◌, ◌-ℤ◌, leb_ℤ, Bool, true, false, ◌&&◌, Option, none, some, List, [], ◌∷◌, String,
  filter,
}
use feedsystem_video_go_medi.Pay.Entity.{Status, SettleStatus, PayOrder, status_eq, settle_eq}
use feedsystem_video_go_medi.Store.{
  Env, Error, Action, ok, err, pure, now, query, attempt, ◌>>=◌, ◌>>◌,
}
use feedsystem_video_go_medi.Pay.Gateway.{gateway_mutate}
use feedsystem_video_go_medi.Pay.Books.{reverse, settle_one}

-- `paid_at IS NOT NULL AND paid_at <= ?`
abbrev pub paid_until : ℤ → Option ℤ → Bool
paid_until deadline none = false
paid_until deadline (some t) = leb_ℤ t deadline

abbrev pub is_due : ℤ → PayOrder → Bool
is_due deadline o =
    status_eq o.status Status.paid
    && settle_eq o.settle_status SettleStatus.pending
    && paid_until deadline o.paid_at

module _ (env : Env) where
  unfoldable pub refund_order : ℕ → String → Action PayOrder
  refund_order account number = do
    gateway_mutate env number "/trade/refund"
    reverse env account number false

  unfoldable pub chargeback_order : ℕ → String → Action PayOrder
  chargeback_order account number = do
    gateway_mutate env number "/trade/chargeback"
    reverse env account number true

  -- The orders settled so far, and the error at which the loop stopped.
  unfoldable pub settle_all : List PayOrder → ℕ → Action (ℕ × Option Error)
  settle_all [] n = pure (n, none)
  settle_all (o ∷ os) n = do
    r ← attempt (settle_one env o.order_no)
    elim r [ ok u ↦ settle_all os (n + 1) | err e ↦ pure (n, some e) ]

  -- `after` is what `settleAfter` reads from the environment.
  unfoldable pub settle_due : ℤ → Action (ℕ × Option Error)
  settle_due after = do
    t ← now env
    due ← query env (λ d. filter (is_due (t -ℤ after)) d.orders)
    settle_all due 0
