-- ===== src/Pay/Ledger/Rows.antt =====
-- One ledger entry, and the update of the wallet that goes with it, keep the ledger in step.
use feedsystem_video_go_medi.Prelude.{
  ℕ, ℤ, pos, ◌+ℤ◌, ◌-ℤ◌, wrap, add64, sub64, wrap-add, wrap-sub, ◌≡◌, refl, ◌∙◌, ap, List, ◌∷◌,
  if◌then◌else◌, ◌==◌, sum_of, arith, int_laws, update_where,
}
use feedsystem_video_go_medi.Pay.Entity.{Currency, coin, diamond, LedgerEntry, Wallet}
use feedsystem_video_go_medi.Pay.Rows.{owned_by, with_coin}
use feedsystem_video_go_medi.Pay.Steps.{wallet_in, locked_wallets}
use feedsystem_video_go_medi.Pay.Steps.Wallets.{wallet_in-update}
use feedsystem_video_go_medi.Pay.Ledger.{Agrees, ledger_sum, signed_amount, entry_amount}

-- An entry adds its amount to the sum of its own account and currency.
pub ledger_sum-cons :
    (c : Currency) (a : ℕ) (e : LedgerEntry) (rows : List LedgerEntry)
    → ledger_sum c a (e ∷ rows) ≡ entry_amount c a e +ℤ ledger_sum c a rows
unfolding ledger_sum sum_of
ledger_sum-cons c a e rows = refl

zero_add : (s : ℤ) → pos 0 +ℤ s ≡ s
zero_add s = omega int_laws

pub add_of_wrap : (v s x : ℤ) → v ≡ wrap s → add64 v x ≡ wrap (x +ℤ s)
unfolding add64
add_of_wrap v s x h = rw h (wrap-add s x ∙ ap wrap (omega int_laws))

pub sub_of_wrap : (v s x : ℤ) → v ≡ wrap s → sub64 v x ≡ wrap (pos 0 -ℤ x +ℤ s)
unfolding sub64
sub_of_wrap v s x h = rw h (wrap-sub s x ∙ ap wrap (omega int_laws))

-- A coin entry whose wallet is set to the balance that the entry leads to.
module _ (ws : List Wallet) (rows : List LedgerEntry) (e : LedgerEntry) (v : ℤ)
    (is_coin : e.currency ≡ coin)
    (moved : v ≡ wrap (signed_amount e.direction e.amount +ℤ ledger_sum coin e.account_id rows))
    (before : Agrees ws rows) where
  coins_step :
      (a : ℕ)
      → (if a == e.account_id
          then with_coin v (wallet_in e.account_id ws)
          else wallet_in a ws).coin_available
        ≡ wrap (entry_amount coin a e +ℤ ledger_sum coin a rows)
  coins_step a = ground (arith, moved, is_coin, before.coins a, zero_add (ledger_sum coin a rows))

  diamonds_step :
      (a : ℕ)
      → let w =
          if a == e.account_id then with_coin v (wallet_in e.account_id ws) else wallet_in a ws in
        wrap (w.diamond_available +ℤ w.diamond_frozen)
        ≡ wrap (entry_amount diamond a e +ℤ ledger_sum diamond a rows)
  diamonds_step a = ground (arith, is_coin, before.diamonds a, zero_add (ledger_sum diamond a rows))

  pub coin_entry-Agrees :
      Agrees
        (update_where (owned_by e.account_id) (with_coin v) (locked_wallets e.account_id ws))
        (e ∷ rows)
  coin_entry-Agrees = record {
    coins = λ a.
        rw (wallet_in-update a e.account_id (with_coin v) ws (λ _. refl), ledger_sum-cons)
          (coins_step a);
    diamonds = λ a.
        rw (wallet_in-update a e.account_id (with_coin v) ws (λ _. refl), ledger_sum-cons)
          (diamonds_step a);
  }

-- A wallet that is written back with the balance that the ledger already gives.
module _ (ws : List Wallet) (rows : List LedgerEntry) (account : ℕ) (v : ℤ)
    (same : v ≡ wrap (ledger_sum coin account rows)) (before : Agrees ws rows) where
  same_coins :
      (a : ℕ)
      → (if a == account then with_coin v (wallet_in account ws) else wallet_in a ws).coin_available
        ≡ wrap (ledger_sum coin a rows)
  same_coins a = ground (arith, same, before.coins a)

  same_diamonds :
      (a : ℕ)
      → let w = if a == account then with_coin v (wallet_in account ws) else wallet_in a ws in
        wrap (w.diamond_available +ℤ w.diamond_frozen) ≡ wrap (ledger_sum diamond a rows)
  same_diamonds a = ground (arith, before.diamonds a)

  pub same_coin-Agrees :
      Agrees (update_where (owned_by account) (with_coin v) (locked_wallets account ws)) rows
  same_coin-Agrees = record {
    coins = λ a. rw (wallet_in-update a account (with_coin v) ws (λ _. refl)) (same_coins a);
    diamonds = λ a. rw (wallet_in-update a account (with_coin v) ws (λ _. refl)) (same_diamonds a);
  }

-- Taking nothing from a balance that the ledger gives.
pub sub_nothing : (v s x : ℤ) → v ≡ wrap s → x ≡ pos 0 → sub64 v x ≡ wrap s
unfolding sub64
sub_nothing v s x h z = rw (h, z) (wrap-sub s (pos 0) ∙ ap wrap (omega int_laws))
