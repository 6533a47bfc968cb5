-- ===== src/Pay/LockWallet.antt =====
-- `lockWallet` of backend/internal/pay/service.go: the wallet of an account, made where there is none.
use feedsystem_video_go_medi.Prelude.{ℕ, Option, none, some}
use feedsystem_video_go_medi.Pay.Entity.{Wallet}
use feedsystem_video_go_medi.Store.{
  Env, Action, pure, or_raise, ◌>>=◌, ◌>>◌, query, execute_unique, ignore_dup, record_not_found,
}
use feedsystem_video_go_medi.Pay.Rows.{find_wallet, wallet_taken, add_wallet}

module _ (env : Env) where
  unfoldable pub create_if_missing : ℕ → Option Wallet → Action Wallet
  create_if_missing account (some wallet) = pure wallet
  create_if_missing account none = do
    ignore_dup (execute_unique env (wallet_taken account) (add_wallet account))
    again ← query env (find_wallet account)
    or_raise again record_not_found

  unfoldable pub lock_wallet : ℕ → Action Wallet
  unfolding create_if_missing
  lock_wallet account = do found ← query env (find_wallet account); create_if_missing account found
