-- ===== src/Pay/Cashier/Notices.antt =====
-- Notifications of the merchant: `notify`, `enqueueNotify` and `RetryNotifies` of
-- backend/internal/pay/cashier.go.
use feedsystem_video_go_medi.Prelude.{
  ℕ, zero, suc, ℤ, pos, ◌+◌, ◌+ℤ◌, leb_ℤ, ltb, leb, Bool, true, false, not, ◌&&◌, Option, none,
  some, List, [], ◌∷◌, String, str_append, if◌then◌else◌, ◌==◌, filter, update_where,
}
use feedsystem_video_go_medi.Pay.Entity.{CallbackBody}
use feedsystem_video_go_medi.Pay.Gateway.{Codec, build_callback}
use feedsystem_video_go_medi.Prelude.{unix}
use feedsystem_video_go_medi.Pay.Values.{Values, Texts, get}
use feedsystem_video_go_medi.Pay.Cashier.Trades.{
  Cashier, GatewayTrade, is_trade_row, pending, sent, notify_code, step_on,
}

-- What becomes of one request to the merchant: the address is no address, there is no answer, or an
-- answer with its status.
pub data Delivery : Type 0 where
  bad_address unreachable : Delivery
  answered : ℕ → Delivery

-- The world of the gateway: the clock, the database, the random source, and the merchant, who is sent
-- an address, an action, a body and a signature.
pub record Outside : Type 0 where
  pub clock : ℕ → ℤ
  pub statement_ok : ℕ → Bool
  pub token : ℕ → ℕ → Option String
  pub deliver : ℕ → String → String → String × String → Delivery

abbrev pub notice_body : Texts → Values → Bool → ℤ → String → CallbackBody
notice_body x q paid seconds nonce = record {
  order_no = get "order_no" q;
  channel_trade_no = str_append (if paid then "T" else "F") (get "order_no" q);
  amount_fen = (x.parse (get "amount_fen" q)).0;
  paid = paid;
  timestamp = seconds;
  nonce = nonce;
}

-- `WHERE notify_status = ? AND notify_attempts < ? AND (next_notify_at IS NULL OR next_notify_at <= ?)`
abbrev pub is_reached : ℤ → Option ℤ → Bool
is_reached now none = true
is_reached now (some t) = leb_ℤ t now

abbrev pub max_attempts : ℕ
max_attempts = 20

abbrev pub is_retried : ℤ → GatewayTrade → Bool
is_retried now r =
    (notify_code r.notify_status == notify_code pending)
    && ltb r.notify_attempts max_attempts
    && is_reached now r.next_notify_at

-- Two and five seconds, in nanoseconds.
abbrev pub first_delay : ℤ
first_delay = pos 2000000000

abbrev pub retry_delay : ℤ
retry_delay = pos 5000000000

abbrev pub with_pending : Values → Bool → String → ℤ → GatewayTrade → GatewayTrade
with_pending q paid action next r = record r {
  notify_url = get "notify_url" q;
  notify_action = action;
  notify_paid = paid;
  notify_status = pending;
  next_notify_at = some next;
}

-- What a retry writes, for the row as it was read.
abbrev pub with_outcome : Bool → ℕ → ℤ → GatewayTrade → GatewayTrade
with_outcome delivered attempts again r =
    if delivered
    then record r { notify_attempts = attempts; notify_status = sent }
    else record r { notify_attempts = attempts; next_notify_at = some again }

abbrev pub retry_values : Texts → GatewayTrade → Values
retry_values x r =
    ("order_no", r.order_no)
    ∷ ("amount_fen", x.print r.amount_fen)
    ∷ ("notify_url", r.notify_url)
    ∷ []

-- An update of the row of an order.
unfoldable pub update_trade_row :
    Outside → String → (GatewayTrade → GatewayTrade) → Cashier → Cashier
update_trade_row o number f s = record s {
  rows = if o.statement_ok s.tick then update_where (is_trade_row number) f s.rows else s.rows;
  tick = s.tick + 1;
}

-- A request that was answered with 200 to 299 ends the attempts, and so does a bad address.
abbrev pub delivered_or : Bool × Cashier → Delivery → Cashier → Bool × Cashier
delivered_or later bad_address s = (false, step_on s)
delivered_or later unreachable s = later
delivered_or later (answered code) s =
    if leb 200 code && ltb code 300 then (true, step_on s) else later

module _ (o : Outside) (c : Codec) (x : Texts) (secret : String) where
  -- At most `n` requests, until one is answered with 200 to 299. Whether the notice is delivered.
  unfoldable pub attempts : ℕ → Values → String → String × String → Cashier → Bool × Cashier
  attempts zero q action message s = (false, s)
  attempts (suc n) q action message s =
      let later = attempts n q action message (step_on s) in
      delivered_or later (o.deliver s.tick (get "notify_url" q) action message) s

  abbrev pub notify_with : Option String → Values → Bool → String → Cashier → Bool × Cashier
  notify_with none q paid action s = (false, s)
  notify_with (some nonce) q paid action s =
      attempts 3 q action
        (build_callback c secret (notice_body x q paid (unix (o.clock s.tick)) nonce)) (step_on s)

  unfoldable pub notify : Values → Bool → String → Cashier → Bool × Cashier
  notify q paid action s = notify_with (o.token s.tick 6) q paid action (step_on s)

  unfoldable pub enqueue_notify : Values → Bool → String → Cashier → Cashier
  unfolding update_trade_row
  enqueue_notify q paid action s =
      if not s.has_db
      then s
      else update_trade_row o (get "order_no" q)
          (with_pending q paid action (o.clock s.tick +ℤ first_delay)) (step_on s)

  -- The end of `Submit`: a notice that is not delivered waits in its row.
  unfoldable pub notify_or_enqueue : Values → Bool → String → Cashier → Cashier
  unfolding notify enqueue_notify
  notify_or_enqueue q paid action s =
      let (delivered, s') = notify q paid action s in
      if delivered then s' else enqueue_notify q paid action s'

  unfoldable pub retry_row : ℤ → GatewayTrade → Cashier → Cashier
  unfolding notify update_trade_row
  retry_row now r s =
      let (delivered, s') = notify (retry_values x r) r.notify_paid r.notify_action s in
      update_trade_row o r.order_no
        (with_outcome delivered (r.notify_attempts + 1) (now +ℤ retry_delay)) s'

  unfoldable pub retry_rows : ℤ → List GatewayTrade → Cashier → Cashier
  unfolding retry_row
  retry_rows now [] s = s
  retry_rows now (r ∷ rs) s = retry_rows now rs (retry_row now r s)

  unfoldable pub retry_notifies : Cashier → Cashier
  unfolding retry_rows
  retry_notifies s =
      if not s.has_db
      then s
      else (let now = o.clock s.tick in
          let s' = step_on s in
          if o.statement_ok s'.tick
          then retry_rows now (filter (is_retried now) s'.rows) (step_on s')
          else step_on s')
