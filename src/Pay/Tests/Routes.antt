-- ===== src/Pay/Tests/Routes.antt =====
-- A notice of a payment that is delivered twice, at the clock's one time, with a chargeback in between.
use feedsystem_video_go_medi.Prelude.{pos, ◌≡◌, refl, false, List, [], ◌∷◌, arith}
use feedsystem_video_go_medi.Store.{World, Env, ok}
use feedsystem_video_go_medi.Pay.Gateway.{verify_body, parse_callback, known_channel, is_stale}
use feedsystem_video_go_medi.Pay.Callback.{handle_callback}
use feedsystem_video_go_medi.Pay.Answer.{answer}
use feedsystem_video_go_medi.Pay.Handler.{post_callback}
use feedsystem_video_go_medi.Pay.Orders.{IdsUnique}
use feedsystem_video_go_medi.Pay.Orders.Life.Service.{Call, chargeback_call, settle_call, serve}
use feedsystem_video_go_medi.Pay.Handler.Delivery.{IsAcknowledged, post_callback-IsAcknowledged}
use feedsystem_video_go_medi.Pay.Sample.{calm, at_order, notice, echo_codec}
use feedsystem_video_go_medi.Pay.Tests.{opened}

first_accepted :
    (post_callback calm echo_codec "secret" "mock" (ok "body") "mac" at_order).0.code ≡ 200
unfolding opened post_callback answer handle_callback verify_body parse_callback known_channel
first_accepted = refl

abbrev after_first : World
after_first = (post_callback calm echo_codec "secret" "mock" (ok "body") "mac" at_order).1

-- In between the order is charged back.
abbrev between : List (Env × Call)
between = (calm, chargeback_call 7 "P1") ∷ (calm, settle_call (pos 0)) ∷ []

still_fresh : is_stale notice (calm.clock (serve between after_first).tick) ≡ false
unfolding opened
still_fresh = refl

first-IdsUnique : IdsUnique after_first.db.orders
unfolding opened post_callback answer handle_callback verify_body parse_callback known_channel
first-IdsUnique k = ground arith

post_callback-IsAcknowledged_example :
    IsAcknowledged calm "P1"
      (serve between after_first).db
      (post_callback calm echo_codec "secret" "mock" (ok "body") "mac" (serve between after_first))
post_callback-IsAcknowledged_example =
    post_callback-IsAcknowledged echo_codec "secret" "mock" "body" "mac" notice refl refl calm calm
      at_order between first_accepted first-IdsUnique still_fresh
