-- ===== src/Pay/Credit/Ledger.antt =====
-- A payment keeps the ledger in step with the wallets.
use feedsystem_video_go_medi.Prelude.{ℤ, refl, String, Bool-cases, inl, inr}
use feedsystem_video_go_medi.Pay.Entity.{PayOrder, PayCallbackLog, CallbackBody}
use feedsystem_video_go_medi.Store.{Db, World, Env}
use feedsystem_video_go_medi.Store.Ensures.Outcome.{Atomic-keeps}
use feedsystem_video_go_medi.Pay.Rows.{add_callback, callback_taken}
use feedsystem_video_go_medi.Pay.Steps.{with_payment_posted}
use feedsystem_video_go_medi.Pay.Ledger.{LedgerMatches}
use feedsystem_video_go_medi.Pay.Ledger.Rows.{coin_entry-Agrees, add_of_wrap}
use feedsystem_video_go_medi.Pay.Credit.{credit}
use feedsystem_video_go_medi.Pay.Credit.Outcome.{credited, credit-Atomic, logged, balance_after}

logged-Agrees : (r : PayCallbackLog) (d : Db) → LedgerMatches d → LedgerMatches (logged r d)
unfolding logged add_callback
logged-Agrees r d h = elim (Bool-cases (callback_taken r d)) [
  | inl old ↦ rw old h
  | inr new ↦ rw new h
]

credited-LedgerMatches :
    (channel : String) (cb : CallbackBody) (t : ℤ) (o : PayOrder) (d : Db)
    → LedgerMatches d
    → LedgerMatches (credited channel cb t o d)
unfolding credited with_payment_posted
credited-LedgerMatches channel cb t o d h = logged-Agrees _ _ (
    unfold balance_after in
    coin_entry-Agrees d.wallets d.ledger _ _ refl (add_of_wrap _ _ _ (h.coins o.account_id)) h)

-- After a callback, whether it credits, finds the order paid already or fails, every wallet's coins
-- and diamonds are what its ledger entries add up to, if they were so before.
pub credit-LedgerMatches :
    (env : Env) (channel : String) (cb : CallbackBody) (w : World)
    → LedgerMatches w.db
    → LedgerMatches (credit env channel cb w).1.db
credit-LedgerMatches env channel cb w h = Atomic-keeps LedgerMatches w h (
    credit-Atomic channel cb _ _ (λ e _. tt) (λ o _ _ _ _. h)
      (λ o t _. credited-LedgerMatches channel cb (env.clock t) o w.db h))
