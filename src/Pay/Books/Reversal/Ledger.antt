-- ===== src/Pay/Books/Reversal/Ledger.antt =====
-- A refund or a chargeback keeps the ledger in step with the wallets, and takes no more than there is.
use feedsystem_video_go_medi.Prelude.{
  ℕ, ℤ, pos, ◌≤ℤ◌, ltb_ℤ, ◌≡◌, refl, Bool, false, some, String, arith, Bool-cases, inl, inr,
}
use feedsystem_video_go_medi.Pay.Entity.{PayOrder}
use feedsystem_video_go_medi.Store.{Db, World, Env}
use feedsystem_video_go_medi.Store.Ensures.Outcome.{Atomic-keeps}
use feedsystem_video_go_medi.Pay.Rows.{find_own_order, add_entry}
use feedsystem_video_go_medi.Pay.Steps.{wallet_in}
use feedsystem_video_go_medi.Pay.Ledger.{LedgerMatches}
use feedsystem_video_go_medi.Pay.Ledger.Rows.{
  coin_entry-Agrees, same_coin-Agrees, sub_of_wrap, sub_nothing,
}
use feedsystem_video_go_medi.Pay.Books.{reverse, claw_back}
use feedsystem_video_go_medi.Pay.Books.Reversal.{reversed, reverse-Atomic, clawed}

-- With no balance and no order below zero, the coins taken back are none or some, and at most the
-- order's and the wallet's.
pub clawed_bounds :
    (o : PayOrder) (account : ℕ) (d : Db)
    → pos 0 ≤ℤ o.coins
    → pos 0 ≤ℤ (wallet_in account d.wallets).coin_available
    → (pos 0 ≤ℤ clawed o account d)
      × (clawed o account d ≤ℤ o.coins)
      × (clawed o account d ≤ℤ (wallet_in account d.wallets).coin_available)
unfolding clawed claw_back
clawed_bounds o account d c w = ground arith

zero_of_bounds : (x : ℤ) → pos 0 ≤ℤ x → ltb_ℤ (pos 0) x ≡ false → x ≡ pos 0
zero_of_bounds x h k = ground arith

reversed-LedgerMatches :
    (account : ℕ) (chargeback : Bool) (t : ℤ) (o : PayOrder) (d : Db)
    → pos 0 ≤ℤ o.coins
    → pos 0 ≤ℤ (wallet_in account d.wallets).coin_available
    → LedgerMatches d
    → LedgerMatches (reversed account chargeback t o d)
unfolding reversed add_entry
reversed-LedgerMatches account chargeback t o d c w h =
    elim (Bool-cases (ltb_ℤ (pos 0) (clawed o account d))) [
      | inl some_coins ↦
          rw some_coins
            (coin_entry-Agrees d.wallets d.ledger _ _ refl (sub_of_wrap _ _ _ (h.coins account)) h)
      | inr no_coins ↦ rw no_coins (
          same_coin-Agrees d.wallets d.ledger account _
            (sub_nothing _ _ _ (h.coins account)
              (zero_of_bounds _ (clawed_bounds o account d c w).0 no_coins))
            h)
    ]

-- After a refund or a chargeback, whether it goes through or fails, every wallet's coins and diamonds
-- are what its ledger entries add up to, if they were so before, the account's coins were not below
-- zero and no order of the account was for fewer than zero coins.
pub reverse-LedgerMatches :
    (env : Env) (account : ℕ) (number : String) (chargeback : Bool) (w : World)
    → ((o : PayOrder) → find_own_order number account w.db ≡ some o → pos 0 ≤ℤ o.coins)
    → pos 0 ≤ℤ (wallet_in account w.db.wallets).coin_available
    → LedgerMatches w.db
    → LedgerMatches (reverse env account number chargeback w).1.db
reverse-LedgerMatches env account number chargeback w coins funds h =
    Atomic-keeps LedgerMatches w h (
      reverse-Atomic account number chargeback _ _ (λ e _. tt)
        (λ o t r.
          reversed-LedgerMatches account chargeback (env.clock t) o w.db (coins o r.found) funds h))
