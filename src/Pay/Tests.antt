-- ===== src/Pay/Tests.antt =====
-- Runs of the payment methods on small tables, and the theorems at inputs that meet their hypotheses.
mod Outcomes
mod Life
mod Routes
mod Journal
mod Gifts
mod Gateway
use feedsystem_video_go_medi.Prelude.{
  String, ℕ, ℤ, pos, ◌≡◌, ◌≤ℤ◌, refl, true, false, some, arith, add64, mul64, wrap, div64, ◌+ℤ◌,
  ◌*ℤ◌, ◌-ℤ◌, sub64, find, any, count_where, update_where, sum_of,
}
use feedsystem_video_go_medi.Pay.Entity.{Currency, coin, diamond, PayOrder, CallbackBody}
use feedsystem_video_go_medi.Store.{
  World, Env, Error, ⊤, ok, err, ◌>>=◌, pure, raise, raise_if, or_raise, now, query, execute,
  execute_unique, update_rows, ignore_dup, transaction,
}
use feedsystem_video_go_medi.Store.Ensures.{OnAtomic, start}
use feedsystem_video_go_medi.Pay.Rows.{
  find_order, find_own_order, find_wallet, wallet_taken, add_wallet, update_orders, trade_taken,
  set_coin, entry_taken, add_entry, fiat_taken, add_fiat, callback_taken, add_callback, put_book,
}
use feedsystem_video_go_medi.Pay.LockWallet.{lock_wallet, create_if_missing}
use feedsystem_video_go_medi.Pay.Books.{
  post_fiat, lock_book, create_book_if_missing, save_book, post_pay_fiat, split_fee, reverse,
  post_reverse_fiat, claw_back, reversed_book,
}
use feedsystem_video_go_medi.Pay.Books.Reversal.Ledger.{reverse-LedgerMatches}
use feedsystem_video_go_medi.Pay.Steps.{wallet_in}
use feedsystem_video_go_medi.Pay.Ledger.{LedgerMatches, ledger_sum}
use feedsystem_video_go_medi.Pay.Credit.{credit, credit_order, already_paid}
use feedsystem_video_go_medi.Pay.Credit.Ledger.{credit-LedgerMatches}
use feedsystem_video_go_medi.Pay.Sample.{calm, at_order, notice}

-- All that a run of a payment method computes with.
pub opened : ⊤
unfolding ◌>>=◌ pure raise raise_if or_raise now query execute execute_unique update_rows ignore_dup
    transaction find any count_where update_where sum_of find_order find_own_order find_wallet
    wallet_taken add_wallet update_orders trade_taken set_coin entry_taken add_entry fiat_taken
    add_fiat callback_taken add_callback put_book lock_wallet post_fiat lock_book save_book
    post_pay_fiat split_fee claw_back reversed_book post_reverse_fiat already_paid credit_order
    credit reverse wallet_in ledger_sum add64 sub64 mul64 div64 wrap ◌+ℤ◌ ◌-ℤ◌ ◌*ℤ◌
opened = tt

abbrev pub paid_world : World
paid_world = (credit calm "mock" notice at_order).1

pub credit-notice : credit calm "mock" notice at_order ≡ (ok true, paid_world)
unfolding opened
credit-notice = refl

wallet-notice : (wallet_in 7 paid_world.db.wallets).coin_available ≡ pos 70
unfolding opened
wallet-notice = refl

pub order-LedgerMatches : LedgerMatches at_order.db
unfolding opened
order-LedgerMatches = record { coins = λ a. refl; diamonds = λ a. refl }

credit-LedgerMatches_example : LedgerMatches (credit calm "mock" notice at_order).1.db
credit-LedgerMatches_example = credit-LedgerMatches calm "mock" notice at_order order-LedgerMatches

paid_funds : pos 0 ≤ℤ (wallet_in 7 paid_world.db.wallets).coin_available
unfolding opened
paid_funds = omega arith

paid_coins : (o : PayOrder) → find_own_order "P1" 7 paid_world.db ≡ some o → pos 0 ≤ℤ o.coins
unfolding opened
paid_coins o e = ground arith

reverse-LedgerMatches_example : LedgerMatches (reverse calm 7 "P1" false paid_world).1.db
reverse-LedgerMatches_example =
    reverse-LedgerMatches calm 7 "P1" false paid_world paid_coins paid_funds
      credit-LedgerMatches_example
