-- ===== src/Pay/Steps/Pair.antt =====
-- Two wallets at once: what `lockPair` leaves behind, and updates of wallets that have a row.
use feedsystem_video_go_medi.Prelude.{
  ℕ, ◌≡◌, refl, ap, ◌∙◌, subst, true, false, some, List, if◌then◌else◌, find, ltb, update_where,
  ◌==◌, ==-refl, Bool-cases, Option-cases, inl, inr, arith,
}
use feedsystem_video_go_medi.Prelude.Lists.Laws.{find-update}
use feedsystem_video_go_medi.Pay.Entity.{Wallet}
use feedsystem_video_go_medi.Store.{Db, Env, Error, Action, ◌>>=◌}
use feedsystem_video_go_medi.Store.Ensures.{Ensures, chain-then, pure-then}
use feedsystem_video_go_medi.Pay.Rows.{owned_by, empty_wallet}
use feedsystem_video_go_medi.Pay.Wallet.{lock_pair}
use feedsystem_video_go_medi.Pay.Steps.{wallet_in, locked_wallets, lock_wallet-then}
use feedsystem_video_go_medi.Pay.Steps.Wallets.{wallet_in-locked, wallet_in-update, find-locked}

unfoldable pub locked_pair : ℕ → ℕ → List Wallet → List Wallet
locked_pair a b ws =
    if ltb b a
    then locked_wallets a (locked_wallets b ws)
    else locked_wallets b (locked_wallets a ws)

pub wallet_in-locked_pair :
    (k a b : ℕ) (ws : List Wallet) → wallet_in k (locked_pair a b ws) ≡ wallet_in k ws
unfolding locked_pair
wallet_in-locked_pair k a b ws = elim (Bool-cases (ltb b a)) [
  | inl down ↦ rw down (wallet_in-locked k a _ ∙ wallet_in-locked k b ws)
  | inr up ↦ rw up (wallet_in-locked k b _ ∙ wallet_in-locked k a ws)
]

-- The account has a row.
abbrev pub HasWallet : ℕ → List Wallet → Type 0
HasWallet a ws = (w : Wallet) × (find (owned_by a) ws ≡ some w)

locked-HasWallet : (a b : ℕ) (ws : List Wallet) → HasWallet a ws → HasWallet a (locked_wallets b ws)
unfolding locked_wallets find
locked-HasWallet a b ws (w, h) = elim (Option-cases (find (owned_by b) ws)) [
  | inl missing ↦ rw missing (elim (Bool-cases (b == a)) [
    | inl same ↦ (empty_wallet b, rw same refl)
    | inr other ↦ (w, rw other h)
  ])
  | inr (_, there) ↦ rw there (w, h)
]

pub locked_pair-HasWallet :
    (a b : ℕ) (ws : List Wallet)
    → HasWallet a (locked_pair a b ws) × HasWallet b (locked_pair a b ws)
unfolding locked_pair
locked_pair-HasWallet a b ws = elim (Bool-cases (ltb b a)) [
  | inl down ↦ rw down (
    (wallet_in a (locked_wallets b ws), find-locked a _),
    locked-HasWallet b a _ (wallet_in b ws, find-locked b ws),
  )
  | inr up ↦ rw up (
    locked-HasWallet a b _ (wallet_in a ws, find-locked a ws),
    (wallet_in b (locked_wallets a ws), find-locked b _),
  )
]

pub update-HasWallet :
    (a b : ℕ) (f : Wallet → Wallet) (ws : List Wallet)
    → ((w : Wallet) → (f w).account_id ≡ w.account_id)
    → HasWallet a ws
    → HasWallet a (update_where (owned_by b) f ws)
update-HasWallet a b f ws keeps (w, h) = (
  if owned_by b w then f w else w,
  rw (find-update (owned_by a) (owned_by b) f ws (λ x. ap (λ k. k == a) (keeps x)), h) refl,
)

pub locked_present : (k : ℕ) (ws : List Wallet) → HasWallet k ws → locked_wallets k ws ≡ ws
unfolding locked_wallets
locked_present k ws (w, h) = rw h

-- After an update of a wallet that has a row and keeps its owner, the others are as they were.
pub wallet_in-update_present :
    (a k : ℕ) (f : Wallet → Wallet) (ws : List Wallet)
    → ((w : Wallet) → (f w).account_id ≡ w.account_id)
    → HasWallet k ws
    → wallet_in a (update_where (owned_by k) f ws)
      ≡ (if a == k then f (wallet_in k ws) else wallet_in a ws)
wallet_in-update_present a k f ws keeps h =
    subst
      (λ x.
        wallet_in a (update_where (owned_by k) f x)
        ≡ (if a == k then f (wallet_in k ws) else wallet_in a ws))
      (locked_present k ws h) (wallet_in-update a k f ws keeps)

not_below_self : (a b : ℕ) → ltb b a ≡ true → (a == b) ≡ false
not_below_self a b h = ground arith

module _ {env : Env} {B : Type 0} {Q : B → Db → Type 0} {E : Error → Type 0} {d : Db} where
  pub lock_pair-then :
      (a b : ℕ) (f : Wallet × Wallet → Action B)
      → Ensures env
          (record d { wallets = locked_pair a b d.wallets })
          (f (wallet_in a d.wallets, wallet_in b d.wallets))
          Q
          E
      → Ensures env d (lock_pair env a b >>= f) Q E
  unfolding lock_pair locked_pair
  lock_pair-then a b f h = elim (Bool-cases (ltb b a)) [
    | inl down ↦ rw down (
        chain-then _ _ f (
          lock_wallet-then b _ (
            chain-then _ _ f (
              lock_wallet-then a _ (
                pure-then _ f
                  (rw (not_below_self a b down, wallet_in-locked a b d.wallets) (rw down at h)))))))
    | inr up ↦ rw up (
        chain-then _ _ f (
          lock_wallet-then a _ (
            chain-then _ _ f (
              lock_wallet-then b _
                (pure-then _ f (rw (==-refl a, wallet_in-locked b a d.wallets) (rw up at h)))))))
  ]
