-- ===== src/Pay/Cashier/Requests.antt =====
-- The requests that the payment gateway answers: `Show`, `Submit`, `QueryTrade`, `CloseTrade`, `RefundTrade`
-- and `ChargebackTrade` of backend/internal/pay/cashier.go. The pages themselves are left out.
pub mod Checkout
use feedsystem_video_go_medi.Prelude.{
  ℕ, ℤ, pos, ◌+◌, leb_ℤ, ltb_ℤ, ltb, Bool, true, false, not, ◌&&◌, ◌||◌, Option, none, some, List,
  [], ◌∷◌, String, str_append, str_eq, str_len, if◌then◌else◌, map, filter,
}
use feedsystem_video_go_medi.Pay.Gateway.{Codec, sign_body, known_channel}
use feedsystem_video_go_medi.Prelude.{unix}
use feedsystem_video_go_medi.Pay.Values.{Values, Texts, get, verify_values}
use feedsystem_video_go_medi.Pay.Cashier.Digits.{digits_only}
use feedsystem_video_go_medi.Pay.Cashier.Compare.{hmac_equal}
use feedsystem_video_go_medi.Pay.Cashier.Trades.{
  Cashier, Trade, TradeStatus, wait, success, closed, refund, chargeback, remember, trade_of,
  mutate_trade, step_on,
}
use feedsystem_video_go_medi.Pay.Cashier.Notices.{Outside}

-- Why the gateway turns a page or a payment down.
pub data Refusal : Type 0 where
  bad_form bad_sign incomplete bad_expiry order_expired no_channel : Refusal
  unknown_action wrong_password card_incomplete unknown_card bad_return_url : Refusal

abbrev pub signed_names : List String
signed_names =
    "order_no" ∷ "amount_fen" ∷ "coins" ∷ "channel" ∷ "subject" ∷ "notify_url" ∷ "return_url"
    ∷ "expire_at" ∷ "sign" ∷ []

abbrev pub is_given : Values → String → Bool
is_given q k = not (str_eq (get k q) "")

unfoldable pub signed_fields : Values → Values
signed_fields q = map (λ k. (k, get k q)) (filter (is_given q) signed_names)

unfoldable pub validate : Codec → Texts → String → ℤ → Values → Option Refusal
validate c x secret seconds q =
    if not (verify_values c x secret (signed_fields q))
    then some bad_sign
    else (let (amount, is_amount) = x.parse (get "amount_fen" q) in
        if not is_amount
          || leb_ℤ amount (pos 0)
          || str_eq (get "order_no" q) ""
          || str_eq (get "notify_url" q) ""
        then some incomplete
        else (let (expire_at, is_time) = x.parse (get "expire_at" q) in
            if not is_time
            then some bad_expiry
            else (if ltb_ℤ expire_at seconds
                then some order_expired
                else (if not (known_channel (get "channel" q)) then some no_channel else none))))

-- Whether the buyer pays, with the action to report, or why not.
pub data Verdict : Type 0 where
  verdict : Bool → String → Verdict
  declined : Refusal → Verdict

unfoldable pub authorize_card : Texts → Values → Verdict
authorize_card x q =
    let pan = digits_only (get "card_number" q) in
    let exp = x.trim (get "card_exp" q) in
    let cvv = digits_only (get "card_cvv" q) in
    if ltb (str_len exp) 4 || ltb (str_len cvv) 3
    then declined card_incomplete
    else (if str_eq pan "4242424242424242"
        then verdict true "success"
        else (if str_eq pan "4000000000000002"
            then verdict false "fail"
            else declined unknown_card))

unfoldable pub authorize : Texts → Values → Verdict
authorize x q =
    let action = get "action" q in
    if str_eq action "cancel" || str_eq action "fail"
    then verdict false action
    else (if not (str_eq action "success")
        then declined unknown_action
        else (if str_eq (get "channel" q) "card"
            then authorize_card x q
            else (if not (str_eq (get "sandbox_password" q) "111111")
                then declined wrong_password
                else verdict true "success")))

-- The trade of a page that is shown, and that of a form that is sent.
abbrev pub shown_trade : Texts → Values → Trade
shown_trade x q = record {
  order_no = get "order_no" q;
  amount_fen = (x.parse (get "amount_fen" q)).0;
  channel = get "channel" q;
  status = wait;
  channel_trade_no = "";
  notify_url = get "notify_url" q;
}

abbrev pub submitted_trade : Texts → Values → Bool → Trade
submitted_trade x q paid = record {
  order_no = get "order_no" q;
  amount_fen = (x.parse (get "amount_fen" q)).0;
  channel = get "channel" q;
  status = if paid then success else closed;
  channel_trade_no = str_append (if paid then "T" else "F") (get "order_no" q);
  notify_url = get "notify_url" q;
}

-- A notice that is to be sent once the answer is on its way: at once, or after a delay.
pub record Notice : Type 0 where
  pub values : Values
  pub paid : Bool
  pub action : String

pub data Submitted : Type 0 where
  refused : Refusal → Submitted
  taken : Notice → Submitted

-- The order number of a request from the merchant.
pub data SignedNumber : Type 0 where
  number_missing not_signed : SignedNumber
  number_of : String → SignedNumber

module _ (o : Outside) (c : Codec) (x : Texts) (secret : String) where
  abbrev pub seconds_at : Cashier → ℤ
  seconds_at s = unix (o.clock s.tick)

  abbrev pub show_valid : Values → Option Refusal → Cashier → Option Refusal × Cashier
  show_valid q (some r) s = (some r, s)
  show_valid q none s = (none, remember o.statement_ok (shown_trade x q) s)

  unfoldable pub show : Values → Cashier → Option Refusal × Cashier
  show q s = show_valid q (validate c x secret (seconds_at s) q) (step_on s)

  -- The trade is remembered even where the address to return to turns out to be none.
  abbrev pub submit_authorized : Values → Verdict → Cashier → Submitted × Cashier
  submit_authorized q (declined r) s = (refused r, s)
  submit_authorized q (verdict paid action) s = (
    if x.is_url (get "return_url" q)
        then taken (record { values = q; paid = paid; action = action })
        else refused bad_return_url,
    remember o.statement_ok (submitted_trade x q paid) s,
  )

  abbrev pub submit_valid : Values → Option Refusal → Cashier → Submitted × Cashier
  submit_valid q (some r) s = (refused r, s)
  submit_valid q none s = submit_authorized q (authorize x q) s

  abbrev pub submit_form : Option Values → Cashier → Submitted × Cashier
  submit_form none s = (refused bad_form, s)
  submit_form (some q) s = submit_valid q (validate c x secret (seconds_at s) q) (step_on s)

  -- `Submit` up to the notice; the form may not be one.
  unfoldable pub submit : Option Values → Cashier → Submitted × Cashier
  submit form s = submit_form form s

  -- `bytes` are those of a text; the number is missing where the body is not in form.
  unfoldable pub signed_order_no : (String → List ℕ) → Option String → String → SignedNumber
  signed_order_no bytes none header = number_missing
  signed_order_no bytes (some number) header =
      if str_eq number ""
      then number_missing
      else (if not (hmac_equal (bytes (sign_body c secret number)) (bytes header))
          then not_signed
          else number_of number)

  abbrev pub mutate_numbered :
      TradeStatus → SignedNumber → Cashier → (ℕ × Option TradeStatus) × Cashier
  mutate_numbered next number_missing s = ((400, none), s)
  mutate_numbered next not_signed s = ((401, none), s)
  mutate_numbered next (number_of number) s = mutate_trade o.statement_ok next number s

  -- `CloseTrade`, `RefundTrade` and `ChargebackTrade`, by the status they lead to.
  unfoldable pub mutate_request :
      (String → List ℕ)
      → TradeStatus
      → Option String
      → String
      → Cashier
      → (ℕ × Option TradeStatus) × Cashier
  unfolding signed_order_no
  mutate_request bytes next body header s =
      mutate_numbered next (signed_order_no bytes body header) s

  abbrev pub queried : SignedNumber → Cashier → (ℕ × Option Trade) × Cashier
  queried number_missing s = ((400, none), s)
  queried not_signed s = ((401, none), s)
  queried (number_of number) s =
      let (found, s') = trade_of o.statement_ok number s in ((200, found), s')

  -- The trade of an order, if there is one.
  unfoldable pub query_trade :
      (String → List ℕ) → Option String → String → Cashier → (ℕ × Option Trade) × Cashier
  unfolding signed_order_no
  query_trade bytes body header s = queried (signed_order_no bytes body header) s
