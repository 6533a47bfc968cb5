-- ===== src/Pay/Wallet.antt =====
-- `Wallet` of backend/internal/pay/service.go, and `lockPair` of gift.go.
use feedsystem_video_go_medi.Prelude.{ℕ, Option, none, some, ltb, ◌==◌, if◌then◌else◌}
use feedsystem_video_go_medi.Pay.Entity.{Wallet}
use feedsystem_video_go_medi.Store.{Env, Action, pure, query, ◌>>=◌}
use feedsystem_video_go_medi.Pay.Rows.{find_wallet, empty_wallet}
use feedsystem_video_go_medi.Pay.LockWallet.{lock_wallet}

abbrev pub wallet_or_empty : ℕ → Option Wallet → Wallet
wallet_or_empty account none = empty_wallet account
wallet_or_empty _ (some wallet) = wallet

module _ (env : Env) where
  unfoldable pub wallet : ℕ → Action Wallet
  wallet account = do found ← query env (find_wallet account); pure (wallet_or_empty account found)

  -- The lower account first, and the wallets in the order of the arguments.
  unfoldable pub lock_pair : ℕ → ℕ → Action (Wallet × Wallet)
  lock_pair a b = do
    let first = if ltb b a then b else a
    let second = if ltb b a then a else b
    w1 ← lock_wallet env first
    w2 ← lock_wallet env second
    pure (if a == first then (w1, w2) else (w2, w1))
