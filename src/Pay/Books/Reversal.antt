-- ===== src/Pay/Books/Reversal.antt =====
-- `reverse` against a description of what a refund or a chargeback does to the tables.
pub mod Ledger
use feedsystem_video_go_medi.Prelude.{
  ℕ, suc, ℤ, pos, sub64, ltb_ℤ, ◌≡◌, refl, Bool, true, false, not, ◌&&◌, some, none, List, ◌∷◌,
  String, if◌then◌else◌, ◌==◌, update_where, not-true, not-false, and-true,
}
use feedsystem_video_go_medi.Pay.Entity.{
  SettleStatus, BizType, Direction, credit, debit, FiatAccount, channel_receivable, channel_fee,
  user_prepay, merchant_bank, PayOrder, LedgerEntry, FiatJournal, settle_eq,
}
use feedsystem_video_go_medi.Store.{Db, Env, Error, Action, ⊤, ◌>>=◌, ◌>>◌}
use feedsystem_video_go_medi.Store.Ensures.{
  Ensures, Atomic, Atomic-transaction, Ensures-pure, query-then, or_raise-then, raise_if-then,
  execute-then, unique-then, chain-then, if-then, pure-then, clock-then,
}
use feedsystem_video_go_medi.Pay.Rows.{
  find_own_order, has_id, owned_by, with_coin, update_orders, set_coin, entry_taken, add_entry,
  put_book,
}
use feedsystem_video_go_medi.Pay.Steps.{
  wallet_in, locked_wallets, book_in, posted, lock_wallet-then, lock_book-then, post_fiat-then,
}
use feedsystem_video_go_medi.Pay.Books.{
  reverse, post_fiat, post_reverse_fiat, is_refundable, claw_back, claw_entry, reverse_biz,
  reversed_book, as_reversed, fiat_row, save_book,
}

-- The fiat entries of a reversal.
unfoldable pub bank_journal : BizType → PayOrder → List FiatJournal → List FiatJournal
bank_journal biz o rows =
    if settle_eq o.settle_status SettleStatus.settled
    then posted (fiat_row biz o.order_no merchant_bank credit o.net_fen)
        (posted (fiat_row biz o.order_no channel_receivable debit o.net_fen) rows)
    else rows

unfoldable pub reverse_journal : BizType → PayOrder → List FiatJournal → List FiatJournal
unfolding bank_journal
reverse_journal biz o rows = posted (fiat_row biz o.order_no channel_fee credit o.fee_fen) (
    posted (fiat_row biz o.order_no channel_receivable credit o.net_fen)
      (posted (fiat_row biz o.order_no user_prepay debit o.amount_fen) (bank_journal biz o rows)))

-- The coins taken back from an account, and the balance that is left.
unfoldable pub clawed : PayOrder → ℕ → Db → ℤ
clawed o account d = (claw_back o.coins (wallet_in account d.wallets).coin_available).0

unfoldable pub shortfall : PayOrder → ℕ → Db → ℤ
shortfall o account d = (claw_back o.coins (wallet_in account d.wallets).coin_available).1

unfoldable pub left : PayOrder → ℕ → Db → ℤ
unfolding clawed
left o account d = sub64 (wallet_in account d.wallets).coin_available (clawed o account d)

unfoldable pub debit_entry : Bool → PayOrder → ℕ → Db → LedgerEntry
unfolding clawed left
debit_entry chargeback o account d =
    claw_entry chargeback o account (clawed o account d) (left o account d)

unfoldable pub charged : LedgerEntry → Db → Db
charged e d = if ltb_ℤ (pos 0) e.amount then add_entry e d else d

-- The tables after the reversal of `o` at the time `t`.
unfoldable pub reversed : ℕ → Bool → ℤ → PayOrder → Db → Db
unfolding debit_entry charged shortfall left clawed
reversed account chargeback t o d =
    let e = debit_entry chargeback o account d in
    let d' = charged e d in
    record d' {
      wallets =
          update_where (owned_by account) (with_coin (left o account d))
            (locked_wallets account d.wallets);
      journal = reverse_journal (reverse_biz chargeback) o d.journal;
      book = some (reversed_book chargeback o (shortfall o account d) (book_in d.book));
      orders = update_where (has_id o.id) (as_reversed chargeback t) d.orders;
    }

-- Why a reversal may fail, error by error.
pub data ReverseRefused (account : ℕ) (number : String) (chargeback : Bool) (d : Db)
    : Error → Type 0 where
  no_order :
      find_own_order number account d ≡ none
      → ReverseRefused account number chargeback d Error.order_not_found
  not_refundable :
      (o : PayOrder)
      → find_own_order number account d ≡ some o
      → is_refundable o ≡ false
      → ReverseRefused account number chargeback d Error.refund_not_allowed
  coins_spent :
      (o : PayOrder)
      → find_own_order number account d ≡ some o
      → chargeback ≡ false
      → ltb_ℤ (wallet_in account d.wallets).coin_available o.coins ≡ true
      → ReverseRefused account number chargeback d Error.insufficient_coin
  entry_used :
      (o : PayOrder)
      → find_own_order number account d ≡ some o
      → entry_taken (debit_entry chargeback o account d) d ≡ true
      → ReverseRefused account number chargeback d Error.dup_key

-- What holds of an order that is about to be reversed.
pub record IsReversible (account : ℕ) (number : String) (chargeback : Bool) (d : Db) (o : PayOrder)
    : Type 0 where
  pub found : find_own_order number account d ≡ some o
  pub refundable : is_refundable o ≡ true
  pub covered :
      (ltb_ℤ (wallet_in account d.wallets).coin_available o.coins && not chargeback) ≡ false

module _ {env : Env} {B : Type 0} {Q : B → Db → Type 0} {E : Error → Type 0} {d : Db} where
  undo_payment-then :
      (biz : BizType) (o : PayOrder) (f : ⊤ → Action B)
      → Ensures env
          (record d {
            journal = posted (fiat_row biz o.order_no channel_fee credit o.fee_fen) (
                posted
                  (fiat_row biz o.order_no channel_receivable credit o.net_fen)
                  (posted (fiat_row biz o.order_no user_prepay debit o.amount_fen) d.journal));
          })
          (f tt)
          Q
          E
      → Ensures env d
          ((post_fiat env biz o.order_no user_prepay debit o.amount_fen
              >> (post_fiat env biz o.order_no channel_receivable credit o.net_fen
                  >> post_fiat env biz o.order_no channel_fee credit o.fee_fen))
            >>= f)
          Q
          E
  undo_payment-then biz o f h = chain-then _ _ f (
      post_fiat-then _ _ _ _ _ _
        (chain-then _ _ f (post_fiat-then _ _ _ _ _ _ (post_fiat-then _ _ _ _ _ f h))))

module _ {env : Env} {B : Type 0} {Q : B → Db → Type 0} {E : Error → Type 0} {d : Db} where
  post_reverse_fiat-then :
      (biz : BizType) (o : PayOrder) (f : ⊤ → Action B)
      → Ensures env (record d { journal = reverse_journal biz o d.journal }) (f tt) Q E
      → Ensures env d (post_reverse_fiat env biz o >>= f) Q E
  unfolding post_reverse_fiat reverse_journal
  post_reverse_fiat-then biz o f h = chain-then _ _ f (
      if-then (settle_eq o.settle_status SettleStatus.settled) _ _ _
        (λ is_settled. chain-then _ _ _ (
          post_fiat-then _ _ _ _ _ _
            (post_fiat-then _ _ _ _ _ _ (undo_payment-then biz o f (rw is_settled at h)))))
        (λ not_settled. pure-then tt _ (undo_payment-then biz o f (rw not_settled at h))))

module _ {env : Env} (account : ℕ) (number : String) (chargeback : Bool)
    {Q : PayOrder → Db → Type 0} (E : Error → Type 0) (d : Db) where
  -- Every way in which a reversal can end: what it writes, or why it fails.
  pub reverse-Atomic :
      ((e : Error) → ReverseRefused account number chargeback d e → E e)
      → ((o : PayOrder) (n : ℕ)
          → IsReversible account number chargeback d o
          → Q
              (as_reversed chargeback (env.clock n) o)
              (reversed account chargeback (env.clock n) o d))
      → Atomic env d (reverse env account number chargeback) Q E
  unfolding reverse reversed clawed set_coin add_entry entry_taken update_orders save_book put_book
  reverse-Atomic refused done = Atomic-transaction _ (
      query-then _ _ (
        or_raise-then _ _ _ (λ missing. refused _ (no_order missing))
          λ o found.
            raise_if-then _ _ _ (λ bad. refused _ (not_refundable o found (not-true _ bad)))
              λ good. lock_wallet-then _ _ (
                raise_if-then _ _ _
                  (λ spent. refused _ (
                    coins_spent o found (not-true _ (and-true _ _ spent).1) (and-true _ _ spent).0))
                  λ covered.
                    let reversible : IsReversible account number chargeback d o = record {
                      found = found;
                      refundable = not-false _ good;
                      covered = covered;
                    } in
                    execute-then _ _ (
                      if-then (ltb_ℤ (pos 0) (clawed o account d)) _ _ _
                        (λ some_coins.
                          unique-then _ _ _ (λ used. refused _ (entry_used o found used))
                            λ fresh. post_reverse_fiat-then _ _ _ (
                              lock_book-then _ (
                                execute-then _ _ (
                                  clock-then _ λ n.
                                    execute-then _ _
                                      (Ensures-pure _ (rw some_coins at (done o n reversible)))))))
                        (λ no_coins. pure-then tt _ (
                          post_reverse_fiat-then _ _ _ (
                            lock_book-then _ (
                              execute-then _ _ (
                                clock-then _ λ n.
                                  execute-then _ _
                                    (Ensures-pure _ (rw no_coins at (done o n reversible))))))))))))
