-- ===== src/Pay/Credit.antt =====
-- Callbacks of the payment channel: `credit` and `markFailed` of backend/internal/pay/service.go.
pub mod Failure
pub mod Outcome
pub mod Ledger
pub mod Once
pub mod Refinement
use feedsystem_video_go_medi.Prelude.{
  ℕ, ℤ, add64, eqb_ℤ, Bool, true, false, not, ◌&&◌, ◌||◌, some, String, str_eq, if◌then◌else◌, ◌==◌,
  count_where,
}
use feedsystem_video_go_medi.Pay.Entity.{
  Status, credit as credit_direction, recharge, coin, PayOrder, LedgerEntry, PayCallbackLog,
  CallbackBody, status_eq,
}
use feedsystem_video_go_medi.Store.{
  Db, Env, Action, ⊤, Error, pure, raise, or_raise, raise_if, ◌>>=◌, ◌>>◌, query, now, execute,
  execute_unique, update_rows, ignore_dup, transaction, order_not_found, order_closed,
  amount_mismatch, trade_conflict,
}
use feedsystem_video_go_medi.Pay.Rows.{
  find_order, update_orders, has_id_status, trade_taken, holds_trade, set_coin, entry_taken,
  add_entry, callback_taken, add_callback,
}
use feedsystem_video_go_medi.Pay.LockWallet.{lock_wallet}
use feedsystem_video_go_medi.Pay.Books.{post_pay_fiat}

-- The statuses that `credit` lets a payment through in.
abbrev pub is_creditable : Status → Bool
is_creditable s =
    status_eq s Status.created || status_eq s Status.paying || status_eq s Status.closed

abbrev pub as_paid : String → ℤ → Bool → PayOrder → PayOrder
as_paid trade t late o = record o {
  status = Status.paid;
  channel_trade_no = some trade;
  paid_after_close = late;
  paid_at = some t;
}

abbrev pub recharge_entry : PayOrder → ℤ → LedgerEntry
recharge_entry order next = record {
  id = 0;
  account_id = order.account_id;
  currency = coin;
  direction = credit_direction;
  amount = order.coins;
  balance_after = next;
  biz_type = recharge;
  biz_no = order.order_no;
  idempotency_key = order.idempotency_key;
}

abbrev pub callback_log : String → CallbackBody → PayCallbackLog
callback_log channel cb = record {
  channel = channel;
  channel_trade_no = cb.channel_trade_no;
  order_no = cb.order_no;
  amount_fen = cb.amount_fen;
  signature_ok = true;
  processed = true;
}

-- The rows of the order that is being updated, in the status in which it was read.
abbrev pub count_orders : (PayOrder → Bool) → Db → ℕ
count_orders p d = count_where p d.orders

abbrev pub never_taken : Db → Bool
never_taken _ = false

abbrev pub with_status : Status → PayOrder → PayOrder
with_status s o = record o { status = s }

-- A second notice of a payment: the same trade is no error, another one is.
unfoldable pub already_paid : PayOrder → CallbackBody → Action Bool
already_paid order cb =
    if holds_trade cb.channel_trade_no order.channel_trade_no
    then pure false
    else raise trade_conflict

module _ (env : Env) where
  -- The writes of a payment, from the order as it was read.
  unfoldable pub credit_order : String → CallbackBody → PayOrder → Action Bool
  credit_order channel cb order = do
    t ← now env
    rows ←
        update_rows env (trade_taken cb.channel_trade_no order.id)
          (count_orders (has_id_status order.id order.status))
          (update_orders (has_id_status order.id order.status)
            (as_paid cb.channel_trade_no t (status_eq order.status Status.closed)))
    raise_if (not (rows == 1)) trade_conflict
    wallet ← lock_wallet env order.account_id
    let next = add64 wallet.coin_available order.coins
    execute env (set_coin order.account_id next)
    let entry = recharge_entry order next
    execute_unique env (entry_taken entry) (add_entry entry)
    post_pay_fiat env order
    let row = callback_log channel cb
    ignore_dup (execute_unique env (callback_taken row) (add_callback row))
    pure true

  unfoldable pub credit : String → CallbackBody → Action Bool
  credit channel cb = transaction env (do
    found ← query env (find_order cb.order_no)
    order ← or_raise found order_not_found
    raise_if (not (str_eq order.channel channel)) Error.channel
    if status_eq order.status Status.paid then already_paid order cb else do
      raise_if (not (eqb_ℤ order.amount_fen cb.amount_fen)) amount_mismatch
      raise_if (not (is_creditable order.status)) order_closed
      credit_order channel cb order)

  unfoldable pub mark_failed : String → CallbackBody → Action ⊤
  mark_failed channel cb = transaction env (do
    found ← query env (find_order cb.order_no)
    order ← or_raise found order_not_found
    raise_if (not (str_eq order.channel channel) || not (eqb_ℤ order.amount_fen cb.amount_fen))
        amount_mismatch
    if status_eq order.status Status.paid
          || status_eq order.status Status.failed
          || status_eq order.status Status.closed
        then pure tt
        else do
          raise_if
              (not (status_eq order.status Status.created)
                && not (status_eq order.status Status.paying))
              order_closed
          rows ←
              update_rows env never_taken (count_orders (has_id_status order.id order.status))
                (update_orders (has_id_status order.id order.status) (with_status Status.failed))
          raise_if (not (rows == 1)) trade_conflict)
