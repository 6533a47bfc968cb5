-- ===== src/Pay/Tests/Gifts.antt =====
-- A gift of 20 coins from an account with 70, a withdrawal of what it earns, and a recharge.
use feedsystem_video_go_medi.Prelude.{pos, ◌≡◌, refl, true, arith}
use feedsystem_video_go_medi.Pay.Entity.{GiftOrder}
use feedsystem_video_go_medi.Store.{World, ok, insert_unique, empty_db}
use feedsystem_video_go_medi.Store.Ensures.{OnAtomic, OnResult}
use feedsystem_video_go_medi.Store.Ensures.Outcome.{Fails}
use feedsystem_video_go_medi.Pay.Ledger.{LedgerMatches}
use feedsystem_video_go_medi.Pay.Rows.{set_diamond}
use feedsystem_video_go_medi.Pay.Wallet.{lock_pair}
use feedsystem_video_go_medi.Pay.Gift.{
  Gift, SendGiftRequest, transfer, send_gift, gift_taken, add_gift_order, count_gift,
  raise_popularity,
}
use feedsystem_video_go_medi.Pay.Gift.Outcome.{Transferred, TransferRefused}
use feedsystem_video_go_medi.Pay.Gift.Ledger.{HasMoved, transfer-LedgerMatches}
use feedsystem_video_go_medi.Pay.Gift.Once.{send_gift_once, transfer_outcome, GiftRejected}
use feedsystem_video_go_medi.Pay.Withdraw.{freeze, pay_withdraw}
use feedsystem_video_go_medi.Pay.Withdraw.Ledger.{withdraw-LedgerMatches}
use feedsystem_video_go_medi.Pay.Recharge.{CreateRechargeRequest, create_recharge, default_packages}
use feedsystem_video_go_medi.Pay.Recharge.Outcome.{
  RechargeDone, RechargeRefused, create_recharge_outcome,
}
use feedsystem_video_go_medi.Pay.Credit.Ledger.{credit-LedgerMatches}
use feedsystem_video_go_medi.Pay.Sample.{calm, at_order, notice}
use feedsystem_video_go_medi.Pay.Tests.{opened, paid_world, order-LedgerMatches}

abbrev two_bears : Gift
two_bears = record {
  gift_no = "GP1";
  sender_id = 7;
  idempotency_key = "gift-1";
  receiver_id = 8;
  video_id = 5;
  gift_code = "bear";
  count = pos 2;
  cost = pos 20;
  diamonds = pos 10;
  weight = pos 20;
}

paid-LedgerMatches : LedgerMatches paid_world.db
paid-LedgerMatches = credit-LedgerMatches calm "mock" notice at_order order-LedgerMatches

transfer-LedgerMatches_example :
    LedgerMatches (transfer calm two_bears paid_world).1.db
    × OnResult
        (λ _ d'. HasMoved two_bears paid_world.db d')
        (λ _. Unit)
        (transfer calm two_bears paid_world)
transfer-LedgerMatches_example =
    transfer-LedgerMatches calm two_bears paid_world (omega arith) paid-LedgerMatches

abbrev gifted_world : World
gifted_world = (transfer calm two_bears paid_world).1

gifted-LedgerMatches : LedgerMatches gifted_world.db
gifted-LedgerMatches =
    (transfer-LedgerMatches calm two_bears paid_world (omega arith) paid-LedgerMatches).0

transfer_outcome_example :
    OnAtomic paid_world.db
      (Transferred two_bears paid_world.db)
      (Fails calm (TransferRefused two_bears paid_world.db))
      (transfer calm two_bears paid_world)
transfer_outcome_example = transfer_outcome calm two_bears paid_world

abbrev bears_order : GiftOrder
bears_order = record {
  id = 5;
  gift_no = "GP1";
  sender_id = 7;
  idempotency_key = "gift-1";
  receiver_id = 8;
  video_id = 5;
  gift_code = "bear";
  count = pos 2;
  coin_cost = pos 20;
  diamond_credit = pos 10;
}

transfer-two_bears : transfer calm two_bears paid_world ≡ (ok bears_order, gifted_world)
unfolding opened transfer lock_pair insert_unique gift_taken add_gift_order count_gift
    raise_popularity set_diamond
transfer-two_bears = refl

abbrev again : SendGiftRequest
again = record { video_id = 6; gift_code = "rose"; count = pos 1; idempotency_key = "gift-1" }

send_gift_once_example :
    OnResult
      (λ r d. (r.0 ≡ bears_order) × (d ≡ gifted_world.db))
      (Fails calm (GiftRejected again))
      (send_gift calm true 7 again gifted_world)
send_gift_once_example =
    send_gift_once calm true two_bears again paid_world gifted_world bears_order transfer-two_bears
      refl

abbrev frozen_world : World
frozen_world = (freeze calm "WP2" 8 (pos 10) gifted_world).1

frozen-LedgerMatches : LedgerMatches frozen_world.db
frozen-LedgerMatches =
    (withdraw-LedgerMatches calm "WP2" 8 (pos 10) gifted_world gifted-LedgerMatches).0

withdraw-LedgerMatches_example :
    LedgerMatches (freeze calm "WP2" 8 (pos 10) frozen_world).1.db
    × LedgerMatches (pay_withdraw calm "WP2" frozen_world).1.db
withdraw-LedgerMatches_example =
    withdraw-LedgerMatches calm "WP2" 8 (pos 10) frozen_world frozen-LedgerMatches

abbrev shop : World
shop = record { db = record empty_db { packages = default_packages }; tick = 0 }

abbrev wanted_70 : CreateRechargeRequest
wanted_70 = record {
  package_code = "coins_70";
  package_id = 0;
  channel = "alipay";
  idempotency_key = "key-1";
}

create_recharge_outcome_example :
    OnResult
      (RechargeDone calm 7 "key-1" wanted_70 shop.db)
      (Fails calm (RechargeRefused calm 7 "key-1" wanted_70 shop.db))
      (create_recharge calm (λ s. s) 7 wanted_70 shop)
create_recharge_outcome_example = create_recharge_outcome calm (λ s. s) 7 wanted_70 shop
