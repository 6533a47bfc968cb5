-- ===== src/Pay/Cashier/Trades.antt =====
-- The trades of the payment gateway: `gatewayTrade`, `remember`, `frozenOf`, `tradeOf` and `mutateTrade` of
-- backend/internal/pay/cashier.go, and the rows `GatewayTrade` of entity.go. The gateway keeps a map
-- in its memory and, where it has a database, one row for each trade.
use feedsystem_video_go_medi.Prelude.{
  ℕ, ℤ, pos, ◌+◌, Bool, false, not, ◌&&◌, ◌||◌, Option, none, some, List, ◌∷◌, String, str_eq,
  if◌then◌else◌, ◌==◌, find, filter,
}

-- The words of a trade's status: `tradeWait` and the others.
pub data TradeStatus : Type 0 where
  wait success closed refund chargeback : TradeStatus

abbrev pub trade_code : TradeStatus → ℕ
trade_code wait = 0
trade_code success = 1
trade_code closed = 2
trade_code refund = 3
trade_code chargeback = 4

abbrev pub trade_is : TradeStatus → TradeStatus → Bool
trade_is a b = trade_code a == trade_code b

pub record Trade : Type 0 where
  pub order_no : String
  pub amount_fen : ℤ
  pub channel : String
  pub status : TradeStatus
  pub channel_trade_no : String
  pub notify_url : String

-- `idle` stands for "none", and for the empty word that `Save` writes over an old row.
pub data NotifyStatus : Type 0 where
  idle pending sent : NotifyStatus

abbrev pub notify_code : NotifyStatus → ℕ
notify_code idle = 0
notify_code pending = 1
notify_code sent = 2

-- `updated_at` is left out, since no statement reads it.
pub record GatewayTrade : Type 0 where
  pub order_no : String
  pub amount_fen : ℤ
  pub frozen_fen : ℤ
  pub channel : String
  pub status : TradeStatus
  pub channel_trade_no : String
  pub notify_url : String
  pub notify_action : String
  pub notify_paid : Bool
  pub notify_status : NotifyStatus
  pub notify_attempts : ℕ
  pub next_notify_at : Option ℤ

-- What the gateway holds. The newest entry of `trades` for an order is the one in the map; `tick`
-- counts the contacts with the world.
pub record Cashier : Type 0 where
  pub has_db : Bool
  pub trades : List Trade
  pub rows : List GatewayTrade
  pub tick : ℕ

abbrev pub is_trade : String → Trade → Bool
is_trade number t = str_eq t.order_no number

abbrev pub is_trade_row : String → GatewayTrade → Bool
is_trade_row number r = str_eq r.order_no number

-- `c.trades[orderNo]`
unfoldable pub trade_in : String → List Trade → Option Trade
trade_in number ts = find (is_trade number) ts

unfoldable pub frozen_of : Trade → ℤ
frozen_of t = if trade_is t.status wait then t.amount_fen else pos 0

-- A row of a trade that has no notification waiting.
abbrev pub trade_row : Trade → GatewayTrade
trade_row t = record {
  order_no = t.order_no;
  amount_fen = t.amount_fen;
  frozen_fen = frozen_of t;
  channel = t.channel;
  status = t.status;
  channel_trade_no = t.channel_trade_no;
  notify_url = t.notify_url;
  notify_action = "";
  notify_paid = false;
  notify_status = idle;
  notify_attempts = 0;
  next_notify_at = none;
}

abbrev pub row_trade : GatewayTrade → Trade
row_trade r = record {
  order_no = r.order_no;
  amount_fen = r.amount_fen;
  channel = r.channel;
  status = r.status;
  channel_trade_no = r.channel_trade_no;
  notify_url = r.notify_url;
}

-- `Save`: the row takes the place of the one with its key.
unfoldable pub save_row : GatewayTrade → List GatewayTrade → List GatewayTrade
save_row r rows = r ∷ filter (λ x. not (is_trade_row r.order_no x)) rows

-- A trade that is paid is not written over, except by one that is paid, refunded or charged back.
abbrev pub is_final_status : TradeStatus → Bool
is_final_status s = trade_is s success || trade_is s refund || trade_is s chargeback

abbrev pub stays_paid : Option Trade → Trade → Bool
stays_paid none next = false
stays_paid (some prev) next = trade_is prev.status success && not (is_final_status next.status)

abbrev pub step_on : Cashier → Cashier
step_on s = record s { tick = s.tick + 1 }

-- Whether the statement at a tick goes through is the world's choice.
module _ (statement_ok : ℕ → Bool) where
  abbrev pub saved : Trade → Cashier → Cashier
  saved t s = if not s.has_db then s else record s {
    rows = if statement_ok s.tick then save_row (trade_row t) s.rows else s.rows;
    tick = s.tick + 1;
  }

  unfoldable pub remember : Trade → Cashier → Cashier
  remember t s =
      if stays_paid (trade_in t.order_no s.trades) t
      then s
      else saved t (record s { trades = t ∷ s.trades })

  abbrev pub row_or_memory : Option GatewayTrade → Option Trade → Option Trade
  row_or_memory (some r) m = some (row_trade r)
  row_or_memory none m = m

  -- The row where there is one and it can be read, and otherwise the map.
  unfoldable pub trade_of : String → Cashier → Option Trade × Cashier
  trade_of number s = if not s.has_db then (trade_in number s.trades, s) else (
    row_or_memory (if statement_ok s.tick then find (is_trade_row number) s.rows else none)
        (trade_in number s.trades),
    step_on s,
  )

  -- The status of the answer, and the trade's status where the answer tells one.
  abbrev pub moved : TradeStatus → Trade → Cashier → (ℕ × Option TradeStatus) × Cashier
  moved next t s =
      if trade_is next closed && not (trade_is t.status wait)
      then ((200, some t.status), s)
      else (if (trade_is next refund || trade_is next chargeback) && not (trade_is t.status success)
          then ((409, none), s)
          else ((200, some next), remember (record t { status = next }) s))

  abbrev pub mutate_found :
      TradeStatus → Option Trade × Cashier → (ℕ × Option TradeStatus) × Cashier
  mutate_found next (none, s) = ((404, none), s)
  mutate_found next (some t, s) = moved next t s

  -- `mutateTrade`, for an order number that was signed.
  unfoldable pub mutate_trade : TradeStatus → String → Cashier → (ℕ × Option TradeStatus) × Cashier
  mutate_trade next number s = mutate_found next (trade_of number s)
