-- ===== src/Pay/Credit/Outcome.antt =====
-- `credit` against a description of what a payment does to the tables.
use feedsystem_video_go_medi.Prelude.{
  not-true, not-false, ℕ, suc, ℤ, add64, eqb_ℤ, ◌≡◌, Bool, true, false, none, some, ◌∷◌, String,
  str_eq, if◌then◌else◌, ◌==◌, count_where, update_where,
}
use feedsystem_video_go_medi.Pay.Entity.{Status, PayOrder, PayCallbackLog, CallbackBody, status_eq}
use feedsystem_video_go_medi.Store.{Db, Env, Error}
use feedsystem_video_go_medi.Store.Ensures.{
  Ensures, Atomic, Ensures-pure, Ensures-raise, Ensures-if, Atomic-transaction, clock-then,
  update_rows-then, raise_if-then, or_raise-then, query-then, execute-then, unique-then,
  ignore_dup-then,
}
use feedsystem_video_go_medi.Pay.Rows.{
  has_id_status, owned_by, with_coin, trade_taken, entry_taken, find_order, holds_trade,
  callback_taken, add_callback, update_orders, set_coin, add_entry,
}
use feedsystem_video_go_medi.Pay.Steps.{
  wallet_in, locked_wallets, with_payment_posted, lock_wallet-then, post_pay_fiat-then,
}
use feedsystem_video_go_medi.Pay.Credit.{
  credit, credit_order, is_creditable, as_paid, recharge_entry, callback_log, already_paid,
}

unfoldable pub logged : PayCallbackLog → Db → Db
logged r d = if callback_taken r d then d else add_callback r d

-- The balance of coins after the payment.
unfoldable pub balance_after : PayOrder → Db → ℤ
balance_after order d = add64 (wallet_in order.account_id d.wallets).coin_available order.coins

-- The tables after the payment of `order` at the time `t`.
unfoldable pub credited : String → CallbackBody → ℤ → PayOrder → Db → Db
unfolding logged balance_after with_payment_posted
credited channel cb t order d = logged (callback_log channel cb) (
    with_payment_posted order (record d {
      orders =
          update_where (has_id_status order.id order.status)
            (as_paid cb.channel_trade_no t (status_eq order.status Status.closed)) d.orders;
      wallets =
          update_where (owned_by order.account_id) (with_coin (balance_after order d))
            (locked_wallets order.account_id d.wallets);
      ledger = record (recharge_entry order (balance_after order d)) { id = d.next_id } ∷ d.ledger;
      next_id = suc d.next_id;
    }))

-- Why `credit` may fail, error by error.
pub data CreditRefused (channel : String) (cb : CallbackBody) (d : Db) : Error → Type 0 where
  no_order : find_order cb.order_no d ≡ none → CreditRefused channel cb d Error.order_not_found
  wrong_channel :
      (o : PayOrder)
      → find_order cb.order_no d ≡ some o
      → str_eq o.channel channel ≡ false
      → CreditRefused channel cb d Error.channel
  other_trade :
      (o : PayOrder)
      → find_order cb.order_no d ≡ some o
      → status_eq o.status Status.paid ≡ true
      → holds_trade cb.channel_trade_no o.channel_trade_no ≡ false
      → CreditRefused channel cb d Error.trade_conflict
  wrong_amount :
      (o : PayOrder)
      → find_order cb.order_no d ≡ some o
      → status_eq o.status Status.paid ≡ false
      → eqb_ℤ o.amount_fen cb.amount_fen ≡ false
      → CreditRefused channel cb d Error.amount_mismatch
  not_payable :
      (o : PayOrder)
      → find_order cb.order_no d ≡ some o
      → status_eq o.status Status.paid ≡ false
      → is_creditable o.status ≡ false
      → CreditRefused channel cb d Error.order_closed
  trade_used :
      (o : PayOrder)
      → find_order cb.order_no d ≡ some o
      → is_creditable o.status ≡ true
      → trade_taken cb.channel_trade_no o.id d ≡ true
      → CreditRefused channel cb d Error.dup_key
  ambiguous :
      (o : PayOrder)
      → find_order cb.order_no d ≡ some o
      → is_creditable o.status ≡ true
      → (count_where (has_id_status o.id o.status) d.orders == 1) ≡ false
      → CreditRefused channel cb d Error.trade_conflict
  entry_used :
      (o : PayOrder)
      → find_order cb.order_no d ≡ some o
      → is_creditable o.status ≡ true
      → entry_taken (recharge_entry o (balance_after o d)) d ≡ true
      → CreditRefused channel cb d Error.dup_key

-- What holds of an order that is about to be credited.
pub record IsPayable (channel : String) (cb : CallbackBody) (d : Db) (o : PayOrder) : Type 0 where
  pub found : find_order cb.order_no d ≡ some o
  pub same_channel : str_eq o.channel channel ≡ true
  pub same_amount : eqb_ℤ o.amount_fen cb.amount_fen ≡ true
  pub payable : is_creditable o.status ≡ true
  pub fresh_trade : trade_taken cb.channel_trade_no o.id d ≡ false
  pub single : (count_where (has_id_status o.id o.status) d.orders == 1) ≡ true
  pub fresh_entry : entry_taken (recharge_entry o (balance_after o d)) d ≡ false

module _ {env : Env} (channel : String) (cb : CallbackBody) {Q : Bool → Db → Type 0}
    (E : Error → Type 0) (d : Db) where
  credit_order-Ensures :
      (o : PayOrder)
      → find_order cb.order_no d ≡ some o
      → str_eq o.channel channel ≡ true
      → eqb_ℤ o.amount_fen cb.amount_fen ≡ true
      → is_creditable o.status ≡ true
      → ((e : Error) → CreditRefused channel cb d e → E e)
      → ((o : PayOrder) (n : ℕ)
          → IsPayable channel cb d o
          → Q true (credited channel cb (env.clock n) o d))
      → Ensures env d (credit_order env channel cb o) Q E
  unfolding credit_order credited update_orders set_coin add_entry entry_taken logged
  credit_order-Ensures o found c a p refused done = clock-then _ λ n.
      update_rows-then _ _ _ _ (λ used. refused _ (trade_used o found p used))
        λ fresh_trade.
          raise_if-then _ _ _ (λ many. refused _ (ambiguous o found p (not-true _ many)))
            λ one. lock_wallet-then _ _ (
              execute-then _ _ (
                unique-then _ _ _ (λ used. refused _ (entry_used o found p used))
                  λ fresh_entry.
                    let payable : IsPayable channel cb d o = record {
                      found = found;
                      same_channel = c;
                      same_amount = a;
                      payable = p;
                      fresh_trade = fresh_trade;
                      single = not-false _ one;
                      fresh_entry = fresh_entry;
                    } in
                    post_pay_fiat-then _ _ (
                      ignore_dup-then _ _ _
                        (λ old. Ensures-pure true (rw old at (done o n payable)))
                        (λ new. Ensures-pure true (rw new at (done o n payable))))))

  -- Every way in which `credit` can end: what it writes, what it finds already paid, why it fails.
  pub credit-Atomic :
      ((e : Error) → CreditRefused channel cb d e → E e)
      → ((o : PayOrder)
          → find_order cb.order_no d ≡ some o
          → str_eq o.channel channel ≡ true
          → status_eq o.status Status.paid ≡ true
          → holds_trade cb.channel_trade_no o.channel_trade_no ≡ true
          → Q false d)
      → ((o : PayOrder) (n : ℕ)
          → IsPayable channel cb d o
          → Q true (credited channel cb (env.clock n) o d))
      → Atomic env d (credit env channel cb) Q E
  unfolding credit already_paid
  credit-Atomic refused again done = Atomic-transaction _ (
      query-then _ _ (
        or_raise-then _ _ _ (λ missing. refused _ (no_order missing))
          λ o found.
            raise_if-then _ _ _ (λ other. refused _ (wrong_channel o found (not-true _ other)))
              λ same.
                Ensures-if _ _ _
                  (λ paid.
                    Ensures-if _ _ _
                      (λ held. Ensures-pure false (again o found (not-false _ same) paid held))
                      (λ free. Ensures-raise _ (refused _ (other_trade o found paid free))))
                  (λ unpaid.
                    raise_if-then _ _ _
                      (λ off. refused _ (wrong_amount o found unpaid (not-true _ off)))
                      λ exact.
                        raise_if-then _ _ _
                          (λ shut. refused _ (not_payable o found unpaid (not-true _ shut)))
                          λ open_order.
                            credit_order-Ensures o found (not-false _ same) (not-false _ exact)
                              (not-false _ open_order) refused done)))
