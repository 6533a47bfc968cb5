-- ===== src/Pay/Tests/Life.antt =====
-- The life of an order on small tables.
use feedsystem_video_go_medi.Prelude.{pos, ◌≡◌, refl, some, List, [], ◌∷◌, find, arith, false}
use feedsystem_video_go_medi.Store.{Env}
use feedsystem_video_go_medi.Store.Ensures.{OnAtomic}
use feedsystem_video_go_medi.Store.Ensures.Outcome.{Fails}
use feedsystem_video_go_medi.Pay.Credit.{credit}
use feedsystem_video_go_medi.Pay.Orders.Settled.{TakenBack, credit_once}
use feedsystem_video_go_medi.Pay.Rows.{has_id}
use feedsystem_video_go_medi.Pay.Orders.{IdsUnique}
use feedsystem_video_go_medi.Pay.Orders.Life.{Kept}
use feedsystem_video_go_medi.Pay.Orders.Life.Service.{
  Call, notify, refund_call, chargeback_call, settle_call, serve, serve-Kept,
}
use feedsystem_video_go_medi.Pay.Sample.{calm, echo_codec, at_order, notice, paid_70}
use feedsystem_video_go_medi.Pay.Tests.{opened, paid_world, credit-notice}

paid-IdsUnique : IdsUnique paid_world.db.orders
unfolding opened
paid-IdsUnique k = ground arith

abbrev visits : List (Env × Call)
visits =
    (calm, settle_call (pos 0))
    ∷ (calm, chargeback_call 7 "P1")
    ∷ (calm, notify echo_codec "secret" "mock" "body" "mac")
    ∷ (calm, refund_call 7 "P1")
    ∷ []

paid_found : find (has_id 1) paid_world.db.orders ≡ some paid_70
unfolding opened
paid_found = refl

serve-Kept_example : Kept 1 paid_70 (serve visits paid_world).db.orders
serve-Kept_example = serve-Kept visits paid_world 1 paid_70 paid-IdsUnique paid_found

-- Callbacks for the order come again after a chargeback.
credit_once_example :
    (let u = serve visits paid_world in
      OnAtomic u.db
        (λ b d. (b ≡ false) × (d ≡ u.db))
        (Fails calm (TakenBack "P1" u.db))
        (credit calm "mock" notice u)
      × OnAtomic u.db
          (λ b d. (b ≡ false) × (d ≡ u.db))
          (λ _. Unit)
          (credit calm "wechat" (record notice { channel_trade_no = "T9" }) u))
credit_once_example =
    credit_once calm "mock" notice at_order paid_world credit-notice paid-IdsUnique visits calm
      "wechat" (record notice { channel_trade_no = "T9" }) refl
