-- ===== src/Pay/Journal/Methods.antt =====
-- Payments, settlements and reversals keep debits and credits of the journal balanced.
use feedsystem_video_go_medi.Prelude.{
  ℕ, ℤ, pos, ◌-◌, ◌*◌, ◌≤◌, ◌+ℤ◌, ◌-ℤ◌, ◌≡◌, refl, ◌∙◌, Bool, some, List, String, arith, int_laws,
  parts_of_eq, inl, inr, Bool-cases,
}
use feedsystem_video_go_medi.Pay.Entity.{
  SettleStatus, credit, debit, FiatJournal, BizType, recharge, settle, PayOrder, CallbackBody,
  PayCallbackLog, channel_receivable, channel_fee, user_prepay, merchant_bank, settle_eq,
}
use feedsystem_video_go_medi.Store.{Db, World, Env}
use feedsystem_video_go_medi.Store.Ensures.Outcome.{Atomic-keeps}
use feedsystem_video_go_medi.Pay.Rows.{find_order, find_own_order, add_callback}
use feedsystem_video_go_medi.Pay.Books.{split_fee, fiat_row, settle_one, reverse, reverse_biz}
use feedsystem_video_go_medi.Pay.Books.Fee.{split_fee_exact, share}
use feedsystem_video_go_medi.Pay.Books.Settlement.{settle_one-Atomic, settle_journal, settled}
use feedsystem_video_go_medi.Pay.Books.Reversal.{
  reverse-Atomic, reverse_journal, bank_journal, reversed,
}
use feedsystem_video_go_medi.Pay.Credit.{credit as credit_payment}
use feedsystem_video_go_medi.Pay.Credit.Outcome.{credited, logged, credit-Atomic}
use feedsystem_video_go_medi.Pay.Steps.{posted, pay_journal, with_payment_posted}
use feedsystem_video_go_medi.Pay.Journal.{
  balance, IsUnposted, unposted-IsFree, posted-IsFree, balance-change,
}

paid_zero :
    (net fee amount : ℤ)
    → fee +ℤ net ≡ amount
    → (pos 0 -ℤ amount) +ℤ (fee +ℤ (net +ℤ pos 0)) ≡ pos 0
paid_zero net fee amount whole = omega (int_laws, parts_of_eq whole)

undone_zero :
    (net fee amount b : ℤ)
    → fee +ℤ net ≡ amount
    → b ≡ pos 0
    → (pos 0 -ℤ fee) +ℤ ((pos 0 -ℤ net) +ℤ (amount +ℤ b)) ≡ pos 0
undone_zero net fee amount b whole zero = omega (int_laws, parts_of_eq whole, parts_of_eq zero)

bank_zero : (net : ℤ) → (pos 0 -ℤ net) +ℤ (net +ℤ pos 0) ≡ pos 0
bank_zero net = omega int_laws

module _ (biz : BizType) (number : String) (rows : List FiatJournal)
    (unposted : IsUnposted biz number rows) (balanced : balance rows ≡ pos 0) where
  paid_rows-balance :
      (net fee amount : ℤ)
      → fee +ℤ net ≡ amount
      → balance (
          posted (fiat_row biz number user_prepay credit amount) (
            posted
              (fiat_row biz number channel_fee debit fee)
              (posted (fiat_row biz number channel_receivable debit net) rows)))
        ≡ pos 0
  paid_rows-balance net fee amount whole =
      balance-change _ _ _
        (posted-IsFree _ _ _ refl
          (posted-IsFree _ _ _ refl (unposted-IsFree biz number _ _ _ rows unposted)))
        (balance-change _ _ _
          (posted-IsFree _ _ _ refl (unposted-IsFree biz number _ _ _ rows unposted))
          (balance-change _ _ _ (unposted-IsFree biz number _ _ _ rows unposted) balanced))
      ∙ paid_zero net fee amount whole

  settled_rows-balance :
      (net : ℤ)
      → balance (
          posted
            (fiat_row biz number channel_receivable credit net)
            (posted (fiat_row biz number merchant_bank debit net) rows))
        ≡ pos 0
  settled_rows-balance net =
      balance-change _ _ _
        (posted-IsFree _ _ _ refl (unposted-IsFree biz number _ _ _ rows unposted))
        (balance-change _ _ _ (unposted-IsFree biz number _ _ _ rows unposted) balanced)
      ∙ bank_zero net

  undone_rows-balance :
      (net fee amount : ℤ)
      → fee +ℤ net ≡ amount
      → balance (
          posted (fiat_row biz number channel_fee credit fee) (
            posted
              (fiat_row biz number channel_receivable credit net)
              (posted (fiat_row biz number user_prepay debit amount) rows)))
        ≡ pos 0
  undone_rows-balance net fee amount whole =
      balance-change _ _ _
        (posted-IsFree _ _ _ refl
          (posted-IsFree _ _ _ refl (unposted-IsFree biz number _ _ _ rows unposted)))
        (balance-change _ _ _
          (posted-IsFree _ _ _ refl (unposted-IsFree biz number _ _ _ rows unposted))
          (balance-change _ _ _ (unposted-IsFree biz number _ _ _ rows unposted) balanced))
      ∙ undone_zero net fee amount (pos 0) whole refl

  undone_settled-balance :
      (net fee amount : ℤ)
      → fee +ℤ net ≡ amount
      → balance (
          posted (fiat_row biz number channel_fee credit fee) (
            posted (fiat_row biz number channel_receivable credit net) (
              posted (fiat_row biz number user_prepay debit amount) (
                posted
                  (fiat_row biz number merchant_bank credit net)
                  (posted (fiat_row biz number channel_receivable debit net) rows)))))
        ≡ pos 0
  undone_settled-balance net fee amount whole =
      balance-change _ _ _
        (posted-IsFree _ _ _ refl (
          posted-IsFree _ _ _ refl (
            posted-IsFree _ _ _ refl
              (posted-IsFree _ _ _ refl (unposted-IsFree biz number _ _ _ rows unposted)))))
        (balance-change _ _ _
          (posted-IsFree _ _ _ refl (
            posted-IsFree _ _ _ refl
              (posted-IsFree _ _ _ refl (unposted-IsFree biz number _ _ _ rows unposted))))
          (balance-change _ _ _
            (posted-IsFree _ _ _ refl
              (posted-IsFree _ _ _ refl (unposted-IsFree biz number _ _ _ rows unposted)))
            (balance-change _ _ _
              (posted-IsFree _ _ _ refl (unposted-IsFree biz number _ _ _ rows unposted))
              (balance-change _ _ _ (unposted-IsFree biz number _ _ _ rows unposted) balanced))))
      ∙ undone_zero net fee amount _ whole (bank_zero net)

-- An order for a positive amount whose fee does not overflow.
pub record IsPriced (o : PayOrder) : Type 0 where
  pub fen : ℕ
  pub price : o.amount_fen ≡ pos fen
  pub some_fen : 1 ≤ fen
  pub small : fen * 60 ≤ 9223372036854775807

share_whole : (a s : ℕ) → s ≤ a → pos s +ℤ pos (a - s) ≡ pos a
unfolding ◌+ℤ◌
share_whole a s h = ground arith

split_whole :
    (o : PayOrder)
    → IsPriced o
    → (split_fee o.amount_fen).0 +ℤ (split_fee o.amount_fen).1 ≡ o.amount_fen
split_whole o p =
    let exact = split_fee_exact p.fen p.some_fen p.small in
    rw (p.price, exact.0) (share_whole p.fen (share p.fen) exact.2)

pay_journal-balance :
    (o : PayOrder) (rows : List FiatJournal)
    → IsPriced o
    → IsUnposted recharge o.order_no rows
    → balance rows ≡ pos 0
    → balance (pay_journal o rows) ≡ pos 0
unfolding pay_journal
pay_journal-balance o rows priced unposted balanced =
    paid_rows-balance recharge o.order_no rows unposted balanced (split_fee o.amount_fen).1
      (split_fee o.amount_fen).0 o.amount_fen (split_whole o priced)

journal-logged : (r : PayCallbackLog) (d : Db) → (logged r d).journal ≡ d.journal
unfolding logged add_callback
journal-logged r d = ground arith

-- A callback keeps the journal balanced, whether it succeeds or fails, if the order is for a positive
-- amount whose product with 60 fits in 64 bits and has no payment in the journal yet.
pub credit-balance :
    (env : Env) (channel : String) (cb : CallbackBody) (w : World)
    → ((o : PayOrder)
        → find_order cb.order_no w.db ≡ some o
        → IsPriced o × IsUnposted recharge o.order_no w.db.journal)
    → balance w.db.journal ≡ pos 0
    → balance (credit_payment env channel cb w).1.db.journal ≡ pos 0
unfolding credited with_payment_posted
credit-balance env channel cb w orders balanced =
    Atomic-keeps (λ d. balance d.journal ≡ pos 0) w balanced
      (credit-Atomic channel cb _ _ (λ e _. tt) (λ _ _ _ _ _. balanced)
        (λ o t p.
          rw journal-logged (
            pay_journal-balance o w.db.journal (orders o p.found).0 (orders o p.found).1 balanced)))

-- A settlement keeps the journal balanced, whether it succeeds or fails, if the order has no settlement
-- in the journal yet.
pub settle_one-balance :
    (env : Env) (number : String) (w : World)
    → ((o : PayOrder) → find_order number w.db ≡ some o → IsUnposted settle o.order_no w.db.journal)
    → balance w.db.journal ≡ pos 0
    → balance (settle_one env number w).1.db.journal ≡ pos 0
unfolding settled settle_journal
settle_one-balance env number w orders balanced =
    Atomic-keeps (λ d. balance d.journal ≡ pos 0) w balanced
      (settle_one-Atomic number _ _ (λ e _. tt) (λ _ _ _. balanced)
        (λ o t found _.
          settled_rows-balance settle o.order_no w.db.journal (orders o found) balanced o.net_fen))

reverse_journal-balance :
    (biz : BizType) (o : PayOrder) (rows : List FiatJournal)
    → o.fee_fen +ℤ o.net_fen ≡ o.amount_fen
    → IsUnposted biz o.order_no rows
    → balance rows ≡ pos 0
    → balance (reverse_journal biz o rows) ≡ pos 0
unfolding reverse_journal bank_journal
reverse_journal-balance biz o rows whole unposted balanced =
    elim (Bool-cases (settle_eq o.settle_status SettleStatus.settled)) [
      | inl is_settled ↦ rw is_settled (
          undone_settled-balance biz o.order_no rows unposted balanced o.net_fen o.fee_fen
            o.amount_fen whole)
      | inr pending ↦ rw pending (
          undone_rows-balance biz o.order_no rows unposted balanced o.net_fen o.fee_fen o.amount_fen
            whole)
    ]

-- A refund or a chargeback keeps the journal balanced, whether it succeeds or fails, before settlement
-- and after it, if fee and net amount of the order add up to its amount and the journal has no such
-- reversal of it yet.
pub reverse-balance :
    (env : Env) (account : ℕ) (number : String) (chargeback : Bool) (w : World)
    → ((o : PayOrder)
        → find_own_order number account w.db ≡ some o
        → (o.fee_fen +ℤ o.net_fen ≡ o.amount_fen)
          × IsUnposted (reverse_biz chargeback) o.order_no w.db.journal)
    → balance w.db.journal ≡ pos 0
    → balance (reverse env account number chargeback w).1.db.journal ≡ pos 0
unfolding reversed
reverse-balance env account number chargeback w orders balanced =
    Atomic-keeps (λ d. balance d.journal ≡ pos 0) w balanced
      (reverse-Atomic account number chargeback _ _ (λ e _. tt)
        (λ o t r.
          reverse_journal-balance (reverse_biz chargeback) o w.db.journal (orders o r.found).0
            (orders o r.found).1 balanced))
