-- ===== src/Pay/Ledger/Diamonds.antt =====
-- Updates of a wallet that move its diamonds, with the ledger entries that go with them.
use feedsystem_video_go_medi.Prelude.{
  ℕ, ℤ, pos, ◌+ℤ◌, wrap, wrap-add, ◌≡◌, sym, ap, ◌∙◌, List, ◌∷◌, if◌then◌else◌, ◌==◌, ==→eq, arith,
  int_laws, update_where, Bool-cases, inl, inr,
}
use feedsystem_video_go_medi.Pay.Entity.{coin, diamond, LedgerEntry, Wallet}
use feedsystem_video_go_medi.Pay.Rows.{owned_by}
use feedsystem_video_go_medi.Pay.Steps.{wallet_in, locked_wallets}
use feedsystem_video_go_medi.Pay.Steps.Wallets.{wallet_in-update, wallet_in-locked}
use feedsystem_video_go_medi.Pay.Ledger.{Agrees, ledger_sum, signed_amount}
use feedsystem_video_go_medi.Pay.Ledger.Rows.{ledger_sum-cons}

pub swap_sum : (a b : ℤ) → a +ℤ b ≡ b +ℤ a
swap_sum a b = omega int_laws

-- Sums that agree as 64-bit integers, moved by the same amount.
pub wrap_moved : (x a b : ℤ) → wrap a ≡ wrap b → wrap (x +ℤ a) ≡ wrap (x +ℤ b)
wrap_moved x a b h =
    ap wrap (swap_sum x a)
    ∙ sym (wrap-add a x)
    ∙ ap (λ s. wrap (s +ℤ x)) h
    ∙ wrap-add b x
    ∙ ap wrap (swap_sum b x)

-- Frozen and available diamonds, each as a 64-bit integer.
pub wrap_both : (a b : ℤ) → wrap (wrap a +ℤ wrap b) ≡ wrap (a +ℤ b)
wrap_both a b =
    wrap-add a (wrap b) ∙ ap wrap (swap_sum a (wrap b)) ∙ wrap-add b a ∙ ap wrap (swap_sum b a)

abbrev pub total : Wallet → ℤ
total w = w.diamond_available +ℤ w.diamond_frozen

module _ (ws : List Wallet) (rows later : List LedgerEntry) (account : ℕ) (f : Wallet → Wallet)
    (moved : ℤ) (owner : (w : Wallet) → (f w).account_id ≡ w.account_id)
    (coins : (w : Wallet) → (f w).coin_available ≡ w.coin_available)
    (diamonds : wrap (total (f (wallet_in account ws)))
      ≡ wrap (moved +ℤ total (wallet_in account ws)))
    (same : (a : ℕ) → ledger_sum coin a later ≡ ledger_sum coin a rows)
    (summed : (a : ℕ)
      → ledger_sum diamond a later
        ≡ (if a == account then moved +ℤ ledger_sum diamond a rows else ledger_sum diamond a rows))
    (before : Agrees ws rows) where
  moved_coins :
      (a : ℕ)
      → (if a == account then f (wallet_in account ws) else wallet_in a ws).coin_available
        ≡ wrap (ledger_sum coin a later)
  moved_coins a = elim (Bool-cases (a == account)) [
    | inl own ↦
        let e : a ≡ account = ==→eq a account own in
        rw (own, e)
          (coins (wallet_in account ws) ∙ before.coins account ∙ ap wrap (sym (same account)))
    | inr other ↦ rw other (before.coins a ∙ ap wrap (sym (same a)))
  ]

  moved_diamonds :
      (a : ℕ)
      → wrap (total (if a == account then f (wallet_in account ws) else wallet_in a ws))
        ≡ wrap (ledger_sum diamond a later)
  moved_diamonds a = elim (Bool-cases (a == account)) [
    | inl own ↦
        let e : a ≡ account = ==→eq a account own in
        rw (summed a, own, e) (diamonds ∙ wrap_moved moved _ _ (before.diamonds account))
    | inr other ↦ rw (summed a, other) (before.diamonds a)
  ]

  pub moved-Agrees : Agrees (update_where (owned_by account) f (locked_wallets account ws)) later
  moved-Agrees = record {
    coins = λ a. rw (wallet_in-update a account f ws owner) (moved_coins a);
    diamonds = λ a. rw (wallet_in-update a account f ws owner) (moved_diamonds a);
  }

-- A lock changes no balance.
pub locked-Agrees :
    (ws : List Wallet) (rows : List LedgerEntry) (account : ℕ)
    → Agrees ws rows
    → Agrees (locked_wallets account ws) rows
locked-Agrees ws rows account h = record {
  coins = λ a. rw (wallet_in-locked a account ws) (h.coins a);
  diamonds = λ a. rw (wallet_in-locked a account ws) (h.diamonds a);
}

zero_moved : (s : ℤ) → pos 0 +ℤ s ≡ s
zero_moved s = omega int_laws

-- One diamond entry: the coins add up as before, and the diamonds of its account move by its amount.
pub diamond_entry-coins :
    (e : LedgerEntry) (rows : List LedgerEntry) (a : ℕ)
    → e.currency ≡ diamond
    → ledger_sum coin a (e ∷ rows) ≡ ledger_sum coin a rows
diamond_entry-coins e rows a h =
    ledger_sum-cons coin a e rows ∙ ground (arith, h, zero_moved (ledger_sum coin a rows))

pub diamond_entry-diamonds :
    (e : LedgerEntry) (rows : List LedgerEntry) (a : ℕ)
    → e.currency ≡ diamond
    → ledger_sum diamond a (e ∷ rows) ≡ (
        if a == e.account_id
        then signed_amount e.direction e.amount +ℤ ledger_sum diamond a rows
        else ledger_sum diamond a rows)
diamond_entry-diamonds e rows a h =
    ledger_sum-cons diamond a e rows ∙ ground (arith, h, zero_moved (ledger_sum diamond a rows))
