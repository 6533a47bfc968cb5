-- ===== src/Pay/Tests/Gateway.antt =====
-- The payment gateway at a small state: one trade that is paid, whose notice is on its way.
use feedsystem_video_go_medi.Prelude.{
  ℕ, eqb_ℤ, str_eq, if◌then◌else◌, pos, ◌≡◌, ◌↔◌, refl, true, some, none, List, [], ◌∷◌, arith,
  find,
}
use feedsystem_video_go_medi.Pay.Gateway.{known_channel}
use feedsystem_video_go_medi.Pay.Values.{Texts, Addresses, signed_checkout}
use feedsystem_video_go_medi.Pay.Cashier.Trades.{
  Cashier, Trade, GatewayTrade, success, closed, refund, pending, frozen_of, trade_in,
}
use feedsystem_video_go_medi.Pay.Cashier.Compare.{hmac_equal}
use feedsystem_video_go_medi.Pay.Cashier.Compare.Equality.{hmac_equal-eq}
use feedsystem_video_go_medi.Pay.Cashier.Notices.{Outside, answered}
use feedsystem_video_go_medi.Pay.Cashier.Requests.{validate}
use feedsystem_video_go_medi.Pay.Cashier.Requests.Checkout.{IsComplete, validate-signed_checkout}
use feedsystem_video_go_medi.Pay.Cashier.Rows.{AreSound}
use feedsystem_video_go_medi.Pay.Cashier.Attempts.{Notified, notify_outcome}
use feedsystem_video_go_medi.Pay.Cashier.Service.{
  Request, mutate, retry, answer, answer_all, answer_all-AreSound,
}
use feedsystem_video_go_medi.Pay.Cashier.Service.Paid.{
  IsFinalTrade, FinalRows, AnswersFinal, answer-IsFinalTrade,
}
use feedsystem_video_go_medi.Pay.Sample.{order_70, echo_codec}

abbrev mild : Outside
mild = record {
  clock = λ _. pos 1700000000000000000;
  statement_ok = λ _. true;
  token = λ _ _. some "abcd";
  deliver = λ _ _ _ _. answered 503;
}

-- Numbers are printed as one word and read as 700 seconds or fen.
abbrev texts : Texts
texts = record {
  sort = λ ks. ks;
  print = λ _. "700";
  parse = λ _. (pos 700, true);
  escape = λ s. s;
  trim = λ s. s;
  encode = λ _. "query";
  is_url = λ _. true;
}

abbrev trade_70 : Trade
trade_70 = record {
  order_no = "P1";
  amount_fen = pos 700;
  channel = "mock";
  status = success;
  channel_trade_no = "TP1";
  notify_url = "http://shop/pay/callback/mock";
}

abbrev row_70 : GatewayTrade
row_70 = record {
  order_no = "P1";
  amount_fen = pos 700;
  frozen_fen = pos 0;
  channel = "mock";
  status = success;
  channel_trade_no = "TP1";
  notify_url = "http://shop/pay/callback/mock";
  notify_action = "success";
  notify_paid = true;
  notify_status = pending;
  notify_attempts = 19;
  next_notify_at = none;
}

abbrev open_gateway : Cashier
open_gateway = record { has_db = true; trades = trade_70 ∷ []; rows = row_70 ∷ []; tick = 0 }

row_70-AreSound : AreSound (row_70 ∷ [])
unfolding frozen_of
row_70-AreSound = (record { frozen = refl; retried = omega arith }, tt)

abbrev day : List Request
day = retry ∷ retry ∷ mutate refund (some "P1") "mac" ∷ []

answer_all-AreSound_example :
    AreSound (answer_all mild echo_codec texts "secret" (λ _. 1 ∷ []) day open_gateway).rows
answer_all-AreSound_example =
    answer_all-AreSound mild echo_codec texts "secret" (λ _. 1 ∷ []) day open_gateway
      row_70-AreSound

abbrev closing : Request
closing = mutate closed (some "P1") "mac"

abbrev after_closing : Cashier
after_closing = answer mild echo_codec texts "secret" (λ _. 1 ∷ []) closing open_gateway

answer-IsFinalTrade_example :
    IsFinalTrade "P1" after_closing
    × FinalRows "P1" after_closing.rows
    × AnswersFinal mild.statement_ok "P1" after_closing
unfolding trade_in find
answer-IsFinalTrade_example =
    answer-IsFinalTrade mild echo_codec texts "secret" (λ _. 1 ∷ []) closing "P1" open_gateway
      trade_70 refl refl (refl, tt)

abbrev mac_a : List ℕ
mac_a = 7 ∷ 9 ∷ []

abbrev mac_b : List ℕ
mac_b = 7 ∷ 8 ∷ []

hmac_equal-eq_example : (hmac_equal mac_a mac_b ≡ true) ↔ (mac_a ≡ mac_b)
hmac_equal-eq_example =
    hmac_equal-eq mac_a mac_b (omega arith, (omega arith, tt)) (omega arith, (omega arith, tt))

notify_outcome_example :
    Notified mild echo_codec texts "secret"
      (("order_no", "P1") ∷ [])
      true
      "success"
      open_gateway
      (some "abcd")
notify_outcome_example =
    notify_outcome mild echo_codec texts "secret" (("order_no", "P1") ∷ []) true "success"
      open_gateway

-- A price of 700 fen and a deadline, in digits.
abbrev counter_texts : Texts
counter_texts = record texts {
  print = λ n. if eqb_ℤ n (pos 700) then "700" else "1700000900";
  parse = λ s. if str_eq s "700" then (pos 700, true) else (pos 1700000900, true);
}

abbrev local : Addresses
local = record {
  gateway_public_url = "http://gateway";
  notify_base = "http://shop";
  return_base = "http://app";
}

order_70-IsComplete : IsComplete counter_texts local order_70
order_70-IsComplete = record {
  order_no = refl;
  channel = refl;
  amount = refl;
  coins = refl;
  notify = refl;
  return_to = refl;
  expire_at = refl;
}

validate-signed_checkout_example :
    validate echo_codec counter_texts "secret"
      (pos 1700000000)
      (signed_checkout echo_codec counter_texts local "secret" order_70)
    ≡ none
unfolding known_channel
validate-signed_checkout_example =
    validate-signed_checkout echo_codec counter_texts local "secret" (pos 1700000000) order_70
      order_70-IsComplete (λ p ks h. h) (λ b. refl) refl refl refl refl refl
