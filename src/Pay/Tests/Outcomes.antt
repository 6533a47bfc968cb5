-- ===== src/Pay/Tests/Outcomes.antt =====
-- The outcomes of the payment methods on small tables.
use feedsystem_video_go_medi.Prelude.{ℕ, pos, ◌≡◌, refl, true, false, arith, ◌-◌, ◌≤◌}
use feedsystem_video_go_medi.Store.{ok, World}
use feedsystem_video_go_medi.Store.Ensures.{OnAtomic, OnResult}
use feedsystem_video_go_medi.Store.Ensures.Outcome.{Fails}
use feedsystem_video_go_medi.Pay.Rows.{entry_taken}
use feedsystem_video_go_medi.Pay.Gateway.{build_callback, known_channel}
use feedsystem_video_go_medi.Pay.Callback.{handle_callback, apply_callback}
use feedsystem_video_go_medi.Pay.Callback.Signature.{
  Answered, handle_callback-Answered, handle_callback-build_callback, RoundTrips, next_tick,
}
use feedsystem_video_go_medi.Pay.Credit.{credit, mark_failed}
use feedsystem_video_go_medi.Pay.Credit.Outcome.{CreditRefused, IsPayable, credited}
use feedsystem_video_go_medi.Pay.Credit.Failure.{FailureRefused}
use feedsystem_video_go_medi.Pay.Credit.Refinement.{
  CreditDone, credit_outcome, FailureDone, mark_failed_outcome, credit_succeeds,
}
use feedsystem_video_go_medi.Pay.Books.{reverse, settle_one, split_fee, as_reversed}
use feedsystem_video_go_medi.Pay.Books.Fee.{split_fee_exact, share}
use feedsystem_video_go_medi.Pay.Books.Reversal.{
  ReverseRefused, IsReversible, reversed, debit_entry, clawed, left,
}
use feedsystem_video_go_medi.Pay.Books.Settlement.{SettleRefused}
use feedsystem_video_go_medi.Pay.Books.Refinement.{
  ReverseDone, reverse_outcome, SettleDone, settle_one_outcome, reverse_succeeds,
}
use feedsystem_video_go_medi.Pay.Expiry.{close_if_expired}
use feedsystem_video_go_medi.Pay.Expiry.Outcome.{CloseDone, close_if_expired_outcome}
use feedsystem_video_go_medi.Pay.Entity.{PayOrder}
use feedsystem_video_go_medi.Pay.Sample.{
  with_orders, calm, order_70, at_order, notice, echo_codec, paid_70,
}
use feedsystem_video_go_medi.Pay.Tests.{opened, paid_world}

credit_outcome_example :
    OnAtomic at_order.db
      (CreditDone calm "mock" notice at_order.db)
      (Fails calm (CreditRefused "mock" notice at_order.db))
      (credit calm "mock" notice at_order)
credit_outcome_example = credit_outcome calm "mock" notice at_order

mark_failed_outcome_example :
    OnAtomic at_order.db
      (FailureDone notice at_order.db)
      (Fails calm (FailureRefused "mock" notice at_order.db))
      (mark_failed calm "mock" notice at_order)
mark_failed_outcome_example = mark_failed_outcome calm "mock" notice at_order

reverse_outcome_example :
    OnAtomic paid_world.db
      (ReverseDone calm 7 "P1" true paid_world.db)
      (Fails calm (ReverseRefused 7 "P1" true paid_world.db))
      (reverse calm 7 "P1" true paid_world)
reverse_outcome_example = reverse_outcome calm 7 "P1" true paid_world

settle_one_outcome_example :
    OnAtomic paid_world.db
      (SettleDone calm "P1" paid_world.db)
      (Fails calm (SettleRefused "P1" paid_world.db))
      (settle_one calm "P1" paid_world)
settle_one_outcome_example = settle_one_outcome calm "P1" paid_world

order-IsPayable : IsPayable "mock" notice at_order.db order_70
unfolding opened
order-IsPayable = record {
  found = refl;
  same_channel = refl;
  same_amount = refl;
  payable = refl;
  fresh_trade = refl;
  single = refl;
  fresh_entry = refl;
}

credit_succeeds_example :
    ((credit calm "mock" notice at_order).0 ≡ ok true)
    × (n : ℕ) × ((credit calm "mock" notice at_order).1.db
        ≡ credited "mock" notice (calm.clock n) order_70 at_order.db)
credit_succeeds_example =
    credit_succeeds calm "mock" notice at_order order_70 (λ n. refl) order-IsPayable

paid-IsReversible : IsReversible 7 "P1" false paid_world.db paid_70
unfolding opened
paid-IsReversible = record { found = refl; refundable = refl; covered = refl }

paid_fresh : entry_taken (debit_entry false paid_70 7 paid_world.db) paid_world.db ≡ false
unfolding opened debit_entry clawed left
paid_fresh = refl

reverse_succeeds_example :
    (n : ℕ) × ((reverse calm 7 "P1" false paid_world).0
      ≡ ok (as_reversed false (calm.clock n) paid_70))
    × ((reverse calm 7 "P1" false paid_world).1.db
        ≡ reversed 7 false (calm.clock n) paid_70 paid_world.db)
reverse_succeeds_example =
    reverse_succeeds calm 7 "P1" false paid_world paid_70 (λ n. refl) paid-IsReversible paid_fresh

handle_callback-Answered_example :
    Answered calm echo_codec "secret" "mock" "body" "mac" at_order
      (handle_callback calm echo_codec "secret" "mock" "body" "mac" at_order)
handle_callback-Answered_example =
    handle_callback-Answered calm echo_codec "secret" "mock" "body" "mac" at_order

echo-RoundTrips : RoundTrips echo_codec "secret" notice
echo-RoundTrips = record { hex = λ x. refl; hex_some = λ body. refl; json = refl }

mock_known : known_channel "mock" ≡ true
unfolding known_channel
mock_known = refl

handle_callback-build_callback_example :
    (let (body, signature) = build_callback echo_codec "secret" notice in
      handle_callback calm echo_codec "secret" "mock" body signature at_order)
    ≡ apply_callback calm "mock" notice (next_tick at_order)
unfolding opened
handle_callback-build_callback_example =
    handle_callback-build_callback calm echo_codec "secret" "mock" notice at_order echo-RoundTrips
      mock_known refl refl

split_fee_exact_example :
    (split_fee (pos 700) ≡ (pos (share 700), pos (700 - share 700)))
    × (1 ≤ share 700)
    × (share 700 ≤ 700)
split_fee_exact_example = split_fee_exact 700 (ground arith) (ground arith)

abbrev late_70 : PayOrder
late_70 = record order_70 { expire_at = pos 1600000000000000000 }

abbrev late_world : World
late_world = record { db = with_orders late_70; tick = 0 }

close_if_expired_outcome_example :
    OnResult
      (CloseDone calm late_70 late_world.db)
      (Fails calm (λ _. ⊥))
      (close_if_expired calm late_70 late_world)
close_if_expired_outcome_example = close_if_expired_outcome calm late_70 late_world
