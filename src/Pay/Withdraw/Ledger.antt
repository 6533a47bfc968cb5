-- ===== src/Pay/Withdraw/Ledger.antt =====
-- Withdrawals keep the ledger in step with the wallets: a request freezes diamonds, and a payout takes
-- the frozen ones with an entry.
use feedsystem_video_go_medi.Prelude.{
  ℕ, ℤ, pos, ◌+ℤ◌, ◌-ℤ◌, wrap, add64, sub64, ltb_ℤ, ◌≡◌, refl, ap, ◌∙◌, not, List, ◌∷◌, String,
  if◌then◌else◌, ◌==◌, int_laws, wrap-add, update_where, Bool-cases, inl, inr,
}
use feedsystem_video_go_medi.Pay.Entity.{Wallet, WithdrawOrder, diamond, LedgerEntry}
use feedsystem_video_go_medi.Store.{Db, World, Env, pure, execute}
use feedsystem_video_go_medi.Store.Ensures.{
  Ensures, Atomic, Atomic-transaction, query-then, or_raise-then, raise_if-then, execute-then,
  unique-then, clock-then, Ensures-execute, Ensures-pure, Ensures-if,
}
use feedsystem_video_go_medi.Store.Ensures.Attempt.{Ensures-insert}
use feedsystem_video_go_medi.Store.Ensures.Outcome.{Atomic-keeps}
use feedsystem_video_go_medi.Pay.Rows.{owned_by, add_entry, put_book}
use feedsystem_video_go_medi.Pay.Books.{save_book}
use feedsystem_video_go_medi.Pay.Steps.{wallet_in, locked_wallets, lock_wallet-then, lock_book-then}
use feedsystem_video_go_medi.Pay.Ledger.{Agrees, LedgerMatches, ledger_sum}
use feedsystem_video_go_medi.Pay.Ledger.Diamonds.{
  moved-Agrees, locked-Agrees, diamond_entry-coins, diamond_entry-diamonds, wrap_both, swap_sum,
}
use feedsystem_video_go_medi.Pay.Withdraw.{
  freeze, pay_withdraw, pay_out, with_diamonds, with_frozen, set_diamonds, set_frozen, add_withdraw,
  update_withdraws, payout_entry, is_reviewing, as_failed, as_paid_out,
}

zero_at : (a account : ℕ) (s : ℤ) → s ≡ (if a == account then pos 0 +ℤ s else s)
zero_at a account s = elim (Bool-cases (a == account)) [
  | inl own ↦ rw own (omega int_laws)
  | inr other ↦ rw other
]

frozen_total : (v f x : ℤ) → wrap (sub64 v x +ℤ add64 f x) ≡ wrap (pos 0 +ℤ (v +ℤ f))
unfolding sub64 add64
frozen_total v f x = wrap_both (v -ℤ x) (f +ℤ x) ∙ ap wrap (omega int_laws)

-- Diamonds that are frozen stay the account's.
frozen-Agrees :
    (ws : List Wallet) (rows : List LedgerEntry) (account : ℕ) (x : ℤ)
    → Agrees ws rows
    → let w = wallet_in account ws in
      Agrees
        (update_where
          (owned_by account)
          (with_diamonds (sub64 w.diamond_available x) (add64 w.diamond_frozen x))
          (locked_wallets account ws))
        rows
frozen-Agrees ws rows account x h =
    let w = wallet_in account ws in
    moved-Agrees ws rows rows account
      (with_diamonds (sub64 w.diamond_available x) (add64 w.diamond_frozen x)) (pos 0) (λ _. refl)
      (λ _. refl) (frozen_total w.diamond_available w.diamond_frozen x) (λ a. refl)
      (λ a. zero_at a account (ledger_sum diamond a rows)) h

paid_total : (v f x : ℤ) → wrap (v +ℤ sub64 f x) ≡ wrap (pos 0 -ℤ x +ℤ (v +ℤ f))
unfolding sub64
paid_total v f x =
    ap wrap (swap_sum v (wrap (f -ℤ x))) ∙ wrap-add (f -ℤ x) v ∙ ap wrap (omega int_laws)

-- Diamonds that are paid out leave with their entry.
paid-Agrees :
    (ws : List Wallet) (rows : List LedgerEntry) (o : WithdrawOrder) (id : ℕ)
    → Agrees ws rows
    → let w = wallet_in o.account_id ws in
      Agrees
        (update_where
          (owned_by o.account_id)
          (with_frozen (sub64 w.diamond_frozen o.diamonds))
          (locked_wallets o.account_id ws))
        (record (payout_entry o w) { id = id } ∷ rows)
paid-Agrees ws rows o id h =
    let w = wallet_in o.account_id ws in
    let e = record (payout_entry o w) { id = id } in
    moved-Agrees ws rows (e ∷ rows) o.account_id (with_frozen (sub64 w.diamond_frozen o.diamonds))
      (pos 0 -ℤ o.diamonds) (λ _. refl) (λ _. refl)
      (paid_total w.diamond_available w.diamond_frozen o.diamonds)
      (λ a. diamond_entry-coins e rows a refl) (λ a. diamond_entry-diamonds e rows a refl) h

freeze-Atomic :
    (env : Env) (number : String) (account : ℕ) (x : ℤ) (d : Db)
    → LedgerMatches d
    → Atomic env d (freeze env number account x) (λ _ d'. LedgerMatches d') (λ _. Unit)
unfolding freeze set_diamonds add_withdraw
freeze-Atomic env number account x d h = Atomic-transaction _ (
    lock_wallet-then account _ (
      raise_if-then _ _ _ (λ _. tt)
        (λ enough. execute-then _ _ (
          clock-then _ (λ n.
            Ensures-insert _ _ (λ _. tt) (λ free. frozen-Agrees d.wallets d.ledger account x h))))))

module _ (env : Env) (o : WithdrawOrder) (d : Db) (h : LedgerMatches d) where
  abbrev locked : Db
  locked = record d { wallets = locked_wallets o.account_id d.wallets }

  pay_out-Ensures :
      Ensures env locked
        (pay_out env o (wallet_in o.account_id d.wallets))
        (λ _ d'. LedgerMatches d')
        (λ _. Unit)
  unfolding pay_out set_frozen add_entry save_book put_book update_withdraws
  pay_out-Ensures = clock-then _ (λ n. execute-then _ _ (
      unique-then _ _ _ (λ _. tt)
        (λ fresh. lock_book-then _ (
          execute-then _ _ (
            Ensures-execute (update_withdraws o.id (as_paid_out (env.clock n)))
              (paid-Agrees d.wallets d.ledger o d.next_id h))))))

  settle-Ensures :
      Ensures env locked
        (let w = wallet_in o.account_id d.wallets in
          if ltb_ℤ w.diamond_frozen o.diamonds
          then execute env (update_withdraws o.id as_failed)
          else pay_out env o w)
        (λ _ d'. LedgerMatches d')
        (λ _. Unit)
  unfolding update_withdraws
  settle-Ensures =
      Ensures-if (ltb_ℤ (wallet_in o.account_id d.wallets).diamond_frozen o.diamonds)
        (execute env (update_withdraws o.id as_failed))
        (pay_out env o (wallet_in o.account_id d.wallets))
        (λ short.
          Ensures-execute (update_withdraws o.id as_failed)
            (locked-Agrees d.wallets d.ledger o.account_id h))
        (λ covered. pay_out-Ensures)

pay_withdraw-Atomic :
    (env : Env) (number : String) (d : Db)
    → LedgerMatches d
    → Atomic env d (pay_withdraw env number) (λ _ d'. LedgerMatches d') (λ _. Unit)
unfolding pay_withdraw
pay_withdraw-Atomic env number d h = Atomic-transaction _ (
    query-then _ _ (
      or_raise-then _ _ _ (λ _. tt)
        (λ o found.
          Ensures-if (not (is_reviewing o)) (pure tt) _ (λ settled. Ensures-pure tt h)
            (λ waits. lock_wallet-then o.account_id _ (settle-Ensures env o d h)))))

-- Whatever becomes of a request to withdraw and of the payout of a withdrawal, every wallet's coins are what
-- its ledger entries add up to, and its diamonds, the frozen ones included, too, if they were so
-- before.
pub withdraw-LedgerMatches :
    (env : Env) (number : String) (account : ℕ) (x : ℤ) (w : World)
    → LedgerMatches w.db
    → LedgerMatches (freeze env number account x w).1.db
      × LedgerMatches (pay_withdraw env number w).1.db
withdraw-LedgerMatches env number account x w h = (
  Atomic-keeps LedgerMatches w h (freeze-Atomic env number account x w.db h),
  Atomic-keeps LedgerMatches w h (pay_withdraw-Atomic env number w.db h),
)
