-- ===== src/Pay/Confirm.antt =====
-- Orders that are looked up and confirmed: `QueryRecharge`, `compensateFromGateway`, `MockConfirm` and
-- `Ledger` of backend/internal/pay/service.go.
use feedsystem_video_go_medi.Prelude.{
  ℕ, ℤ, pos, ◌+◌, leb_ℤ, eqb_ℤ, ltb, Bool, true, not, ◌&&◌, ◌||◌, Option, none, some, List, [], ◌∷◌,
  String, str_append, str_eq, if◌then◌else◌, ◌==◌, filter, take, length, pos_part, unix,
}
use feedsystem_video_go_medi.Pay.Entity.{
  Status, PayOrder, Wallet, LedgerEntry, CallbackBody, status_eq,
}
use feedsystem_video_go_medi.Store.{
  Env, Result, Action, ⊤, ok, err, pure, raise, raise_if, now, query, execute, new_token, ask_trade,
  attempt, ◌>>=◌, ◌>>◌, order_closed, order_expired,
}
use feedsystem_video_go_medi.Pay.Rows.{update_orders, has_id_status}
use feedsystem_video_go_medi.Pay.Credit.{with_status}
use feedsystem_video_go_medi.Pay.Credit.Failure.{is_open}
use feedsystem_video_go_medi.Pay.Wallet.{wallet}
use feedsystem_video_go_medi.Pay.Recharge.{order_of}
use feedsystem_video_go_medi.Pay.Gateway.{Codec, verify_body, build_callback}
use feedsystem_video_go_medi.Pay.Callback.{handle_callback}
use feedsystem_video_go_medi.Pay.Expiry.{Closing, live, expired, close_if_expired}

-- What the gateway reports of a trade.
pub record TradeReport : Type 0 where
  pub trade_status : String
  pub amount_fen : ℤ
  pub channel_trade_no : String
  pub channel : String

abbrev pub closing_order : Closing → PayOrder
closing_order (live o) = o
closing_order (expired o) = o

abbrev pub unless_expired : Closing → Action PayOrder
unless_expired (live o) = pure o
unless_expired (expired _) = raise order_expired

-- A report that the service acts on: about this order's amount and channel, and final.
abbrev pub is_final : PayOrder → TradeReport → Bool
is_final order r =
    eqb_ℤ r.amount_fen order.amount_fen
    && str_eq r.channel order.channel
    && (str_eq r.trade_status "TRADE_SUCCESS" || str_eq r.trade_status "TRADE_CLOSED")

-- The report in an answer, where the answer is there, signed, and in form.
abbrev pub trusted_report :
    Codec
    → (String → Option TradeReport)
    → String
    → Option (ℕ × String × String)
    → Option TradeReport
trusted_report c decode secret none = none
trusted_report c decode secret (some (code, signature, raw)) =
    if not (code == 200) || not (verify_body c secret signature raw) then none else decode raw

abbrev pub compensation : PayOrder → TradeReport → ℤ → String → CallbackBody
compensation order r seconds nonce = record {
  order_no = order.order_no;
  channel_trade_no = r.channel_trade_no;
  amount_fen = r.amount_fen;
  paid = str_eq r.trade_status "TRADE_SUCCESS";
  timestamp = seconds;
  nonce = nonce;
}

abbrev pub confirmation : PayOrder → String → ℤ → String → CallbackBody
confirmation order trade seconds nonce = record {
  order_no = order.order_no;
  channel_trade_no = str_append "M" trade;
  amount_fen = order.amount_fen;
  paid = true;
  timestamp = seconds;
  nonce = nonce;
}

module _ (env : Env) (c : Codec) (secret : String) where
  -- A callback that the service makes itself from the gateway's report; its outcome is not read.
  unfoldable pub compensate_with : PayOrder → TradeReport → Result String → Action ⊤
  compensate_with order r (err _) = pure tt
  compensate_with order r (ok nonce) = do
    t ← now env
    let built = build_callback c secret (compensation order r (unix t) nonce)
    outcome ← attempt (handle_callback env c secret order.channel built.0 built.1)
    pure tt

  unfoldable pub compensate_by : PayOrder → Option TradeReport → Action ⊤
  compensate_by order none = pure tt
  compensate_by order (some r) =
      if not (is_final order r)
      then pure tt
      else do nonce ← attempt (new_token env 4); compensate_with order r nonce

  -- `decode` reads the JSON of a report.
  unfoldable pub compensate_from_gateway : (String → Option TradeReport) → PayOrder → Action ⊤
  compensate_from_gateway decode order = if not (is_open order.status) then pure tt else do
    answer ← ask_trade env order.order_no
    compensate_by order (trusted_report c decode secret answer)

  unfoldable pub query_recharge : (String → Option TradeReport) → ℕ → String → Action PayOrder
  query_recharge decode account number = do
    before ← order_of env account number
    compensate_from_gateway decode before
    order ← order_of env account number
    closing ← close_if_expired env order
    pure (closing_order closing)

  -- The rest of `MockConfirm`, for an order that is not paid.
  unfoldable pub confirm_open : ℕ → PayOrder → Action (PayOrder × Wallet)
  confirm_open account order = do
    raise_if (not (is_open order.status)) order_closed
    execute env (update_orders (has_id_status order.id order.status) (with_status Status.paying))
    trade ← new_token env 8
    nonce ← new_token env 8
    t ← now env
    let built = build_callback c secret (confirmation order trade (unix t) nonce)
    handle_callback env c secret "mock" built.0 built.1
    paid ← order_of env account order.order_no
    left ← wallet env account
    pure (paid, left)

  unfoldable pub mock_confirm : ℕ → String → Action (PayOrder × Wallet)
  mock_confirm account number = do
    read ← order_of env account number
    closing ← close_if_expired env read
    order ← unless_expired closing
    if status_eq order.status Status.paid
        then (do left ← wallet env account; pure (order, left))
        else confirm_open account order

pub record LedgerResponse : Type 0 where
  pub entries : List LedgerEntry
  pub next_before : ℕ
  pub has_more : Bool

-- 20 entries where the request asks for none, and at most 50.
abbrev pub page_limit : ℤ → ℕ
page_limit limit =
    if leb_ℤ limit (pos 0) then 20 else (if ltb 50 (pos_part limit) then 50 else pos_part limit)

-- `WHERE account_id = ?`, and `AND id < ?` where the request names an entry.
abbrev pub is_listed : ℕ → ℕ → LedgerEntry → Bool
is_listed account before_id e =
    (e.account_id == account) && (not (ltb 0 before_id) || ltb e.id before_id)

abbrev pub last_id : List LedgerEntry → ℕ
last_id [] = 0
last_id (e ∷ []) = e.id
last_id (e ∷ x ∷ rest) = last_id (x ∷ rest)

unfoldable pub ledger_page : ℕ → List LedgerEntry → LedgerResponse
ledger_page limit rows =
    let shown = if ltb limit (length rows) then take limit rows else rows in
    record { entries = shown; next_before = last_id shown; has_more = ltb limit (length rows) }

unfoldable pub ledger : Env → ℕ → ℕ → ℤ → Action LedgerResponse
ledger env account before_id limit_asked = do
  let limit = page_limit limit_asked
  rows ← query env (λ d. take (limit + 1) (filter (is_listed account before_id) d.ledger))
  pure (ledger_page limit rows)
