-- ===== src/Pay/Sample.antt =====
-- The data of the payment tests: an account with a package of 70 coins on order, for 700 fen.
use feedsystem_video_go_medi.Prelude.{pos, true, false, some, none, [], ◌∷◌}
use feedsystem_video_go_medi.Pay.Entity.{Status, SettleStatus, PayOrder, CallbackBody}
use feedsystem_video_go_medi.Pay.Gateway.{Codec}
use feedsystem_video_go_medi.Store.{Db, World, Env, empty_db}

abbrev pub calm : Env
calm = record {
  clock = λ _. pos 1700000000000000000;
  statement_ok = λ _. true;
  gateway = λ _ _ _. some (200, "200 OK");
  trade_query = λ _ _. none;
  token = λ _ _. some "abcd";
  stamp = λ _. "20231114221320";
  publish = λ _ _. true;
}

abbrev pub order_70 : PayOrder
order_70 = record {
  id = 1;
  order_no = "P1";
  account_id = 7;
  idempotency_key = "key-1";
  package_code = "coins_70";
  coins = pos 70;
  amount_fen = pos 700;
  currency = "CNY";
  channel = "mock";
  status = Status.paying;
  channel_trade_no = none;
  paid_after_close = false;
  fee_fen = pos 0;
  net_fen = pos 0;
  settle_status = SettleStatus.no_settle;
  settle_at = none;
  expire_at = pos 1700000900000000000;
  paid_at = none;
  refunded_at = none;
}

abbrev pub with_orders : PayOrder → Db
with_orders o = record empty_db { orders = o ∷ []; next_id = 2 }

abbrev pub at_order : World
at_order = record { db = with_orders order_70; tick = 0 }

abbrev pub notice : CallbackBody
notice = record {
  order_no = "P1";
  channel_trade_no = "TP1";
  amount_fen = pos 700;
  paid = true;
  timestamp = pos 1700000000;
  nonce = "n";
}

abbrev pub paid_70 : PayOrder
paid_70 = record order_70 {
  status = Status.paid;
  channel_trade_no = some "TP1";
  paid_at = some (pos 1700000000000000000);
  fee_fen = pos 4;
  net_fen = pos 696;
  settle_status = SettleStatus.pending;
}

-- Every body stands for the same callback, and every hash is the same.
abbrev pub echo_codec : Codec
echo_codec = record {
  hmac = λ _ _. "mac";
  hex_encode = λ x. x;
  hex_decode = λ x. some x;
  json_encode = λ _. "body";
  json_decode = λ _. some notice;
}
