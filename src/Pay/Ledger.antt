-- ===== src/Pay/Ledger.antt =====
-- The ledger against the wallets: a wallet's balance is what its ledger entries add up to.
pub mod Rows
pub mod Diamonds
use feedsystem_video_go_medi.Prelude.{
  ℕ, ℤ, pos, negsuc, ◌+ℤ◌, ◌-ℤ◌, wrap, ◌≡◌, Bool, ◌&&◌, List, if◌then◌else◌, ◌==◌, sum_of,
}
use feedsystem_video_go_medi.Pay.Entity.{
  Currency, coin, diamond, Direction, credit, debit, LedgerEntry, Wallet, currency_code,
}
use feedsystem_video_go_medi.Store.{Db}
use feedsystem_video_go_medi.Pay.Steps.{wallet_in}

-- What an entry adds to its account.
abbrev pub signed_amount : Direction → ℤ → ℤ
signed_amount credit a = a
signed_amount debit a = pos 0 -ℤ a

abbrev pub is_entry_of : Currency → ℕ → LedgerEntry → Bool
is_entry_of c account e = (e.account_id == account) && (currency_code e.currency == currency_code c)

abbrev pub entry_amount : Currency → ℕ → LedgerEntry → ℤ
entry_amount c account e =
    if is_entry_of c account e then signed_amount e.direction e.amount else pos 0

unfoldable pub ledger_sum : Currency → ℕ → List LedgerEntry → ℤ
ledger_sum c account rows = sum_of (entry_amount c account) rows

-- The coins of an account are what its coin entries add up to, and its diamonds, frozen ones
-- included, what its diamond entries add up to, both as 64-bit integers.
pub record Agrees (ws : List Wallet) (rows : List LedgerEntry) : Type 0 where
  pub coins : (a : ℕ) → (wallet_in a ws).coin_available ≡ wrap (ledger_sum coin a rows)
  pub diamonds :
      (a : ℕ)
      → wrap ((wallet_in a ws).diamond_available +ℤ (wallet_in a ws).diamond_frozen)
        ≡ wrap (ledger_sum diamond a rows)

abbrev pub LedgerMatches : Db → Type 0
LedgerMatches d = Agrees d.wallets d.ledger
