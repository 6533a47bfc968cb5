-- ===== src/Pay/Tests/Journal.antt =====
-- The balance of the journal on small tables.
use feedsystem_video_go_medi.Prelude.{pos, ◌≡◌, refl, ◌+ℤ◌, false, some, arith}
use feedsystem_video_go_medi.Pay.Entity.{PayOrder, recharge, settle, refund}
use feedsystem_video_go_medi.Pay.Rows.{find_order, find_own_order}
use feedsystem_video_go_medi.Pay.Credit.{credit as credit_payment}
use feedsystem_video_go_medi.Pay.Books.{reverse, settle_one}
use feedsystem_video_go_medi.Pay.Journal.{balance, IsUnposted}
use feedsystem_video_go_medi.Pay.Journal.Methods.{
  IsPriced, credit-balance, settle_one-balance, reverse-balance,
}
use feedsystem_video_go_medi.Pay.Sample.{calm, order_70, at_order, notice, paid_70}
use feedsystem_video_go_medi.Pay.Tests.{opened, paid_world}
use feedsystem_video_go_medi.Prelude.{subst}

order-IsPriced : IsPriced order_70 × IsUnposted recharge "P1" at_order.db.journal
unfolding opened
order-IsPriced =
    (record { fen = 700; price = refl; some_fen = ground arith; small = ground arith }, refl)

found_order :
    (o : PayOrder)
    → find_order notice.order_no at_order.db ≡ some o
    → IsPriced o × IsUnposted recharge o.order_no at_order.db.journal
unfolding opened
found_order o found =
    let same : order_70 ≡ o = cc found in
    subst (λ x. IsPriced x × IsUnposted recharge x.order_no at_order.db.journal) same order-IsPriced

no_rows : balance at_order.db.journal ≡ pos 0
unfolding opened balance
no_rows = refl

credit-balance_example : balance (credit_payment calm "mock" notice at_order).1.db.journal ≡ pos 0
credit-balance_example = credit-balance calm "mock" notice at_order found_order no_rows

paid_balance : balance paid_world.db.journal ≡ pos 0
unfolding opened balance
paid_balance = refl

unsettled :
    (o : PayOrder)
    → find_order "P1" paid_world.db ≡ some o
    → IsUnposted settle o.order_no paid_world.db.journal
unfolding opened
unsettled o found =
    let same : paid_70 ≡ o = cc found in
    subst (λ (x : PayOrder). IsUnposted settle x.order_no paid_world.db.journal) same refl

settle_one-balance_example : balance (settle_one calm "P1" paid_world).1.db.journal ≡ pos 0
settle_one-balance_example = settle_one-balance calm "P1" paid_world unsettled paid_balance

unreversed :
    (o : PayOrder)
    → find_own_order "P1" 7 paid_world.db ≡ some o
    → (o.fee_fen +ℤ o.net_fen ≡ o.amount_fen) × IsUnposted refund o.order_no paid_world.db.journal
unfolding opened
unreversed o found =
    let same : paid_70 ≡ o = cc found in
    subst
      (λ (x : PayOrder).
        (x.fee_fen +ℤ x.net_fen ≡ x.amount_fen)
        × IsUnposted refund x.order_no paid_world.db.journal)
      same (refl, refl)

reverse-balance_example : balance (reverse calm 7 "P1" false paid_world).1.db.journal ≡ pos 0
reverse-balance_example = reverse-balance calm 7 "P1" false paid_world unreversed paid_balance
