-- ===== src/Pay/Steps/Wallets.antt =====
-- The wallet of each account after a lock and after an update of one wallet.
use feedsystem_video_go_medi.Prelude.{
  ℕ, ◌≡◌, subst, ap, ◌∙◌, false, some, List, if◌then◌else◌, find, update_where, ◌==◌, ==-refl,
  ==→eq, Bool-cases, Option-cases, inl, inr,
}
use feedsystem_video_go_medi.Prelude.Lists.Laws.{find-update, find_sound}
use feedsystem_video_go_medi.Pay.Entity.{Wallet}
use feedsystem_video_go_medi.Pay.Rows.{owned_by, empty_wallet}
use feedsystem_video_go_medi.Pay.Steps.{wallet_in, locked_wallets, or_else}

-- A lock may add an empty row, which shows in no balance.
pub wallet_in-locked :
    (a account : ℕ) (ws : List Wallet) → wallet_in a (locked_wallets account ws) ≡ wallet_in a ws
unfolding wallet_in locked_wallets find
wallet_in-locked a account ws = elim (Option-cases (find (owned_by account) ws)) [
  | inl missing ↦ rw missing (elim (Bool-cases (account == a)) [
    | inl same ↦
        let e : account ≡ a = ==→eq account a same in
        rw same (
          subst (λ k. empty_wallet account ≡ or_else (find (owned_by k) ws) (empty_wallet k)) e
            (rw missing))
    | inr other ↦ rw other
  ])
  | inr (w, there) ↦ rw there
]

pub find-locked :
    (account : ℕ) (ws : List Wallet)
    → find (owned_by account) (locked_wallets account ws) ≡ some (wallet_in account ws)
unfolding wallet_in locked_wallets find
find-locked account ws = elim (Option-cases (find (owned_by account) ws)) [
  | inl missing ↦ rw (missing, ==-refl account)
  | inr (w, there) ↦ rw there there
]

pub wallet_in-owner : (a : ℕ) (ws : List Wallet) → (wallet_in a ws).account_id ≡ a
unfolding wallet_in
wallet_in-owner a ws = elim (Option-cases (find (owned_by a) ws)) [
  | inl missing ↦ rw missing
  | inr (w, there) ↦ rw there (==→eq _ _ (find_sound (owned_by a) ws w there))
]

update_own :
    (account : ℕ) (f : Wallet → Wallet) (ws : List Wallet)
    → ((w : Wallet) → (f w).account_id ≡ w.account_id)
    → wallet_in account (update_where (owned_by account) f (locked_wallets account ws))
      ≡ f (wallet_in account ws)
update_own account f ws keeps =
    let found =
      find-update (owned_by account) (owned_by account) f (locked_wallets account ws)
        (λ w. ap (λ k. k == account) (keeps w)) in
    let owner : (wallet_in account ws).account_id ≡ account = wallet_in-owner account ws in
    unfold wallet_in in rw (found, find-locked account ws, owner, ==-refl account)

update_other :
    (a account : ℕ) (f : Wallet → Wallet) (ws : List Wallet)
    → ((w : Wallet) → (f w).account_id ≡ w.account_id)
    → (a == account) ≡ false
    → wallet_in a (update_where (owned_by account) f ws) ≡ wallet_in a ws
unfolding wallet_in
update_other a account f ws keeps other =
    let found =
      find-update (owned_by a) (owned_by account) f ws (λ w. ap (λ k. k == a) (keeps w)) in
    rw found (elim (Option-cases (find (owned_by a) ws)) [
      | inl missing ↦ rw missing
      | inr (w, there) ↦
          let owner : w.account_id ≡ a = ==→eq _ _ (find_sound (owned_by a) ws w there) in
          rw (there, owner, other)
    ])

-- After an update of the wallet of `account` that keeps its owner, the others are as they were.
pub wallet_in-update :
    (a account : ℕ) (f : Wallet → Wallet) (ws : List Wallet)
    → ((w : Wallet) → (f w).account_id ≡ w.account_id)
    → wallet_in a (update_where (owned_by account) f (locked_wallets account ws))
      ≡ (if a == account then f (wallet_in account ws) else wallet_in a ws)
wallet_in-update a account f ws keeps = elim (Bool-cases (a == account)) [
  | inl same ↦
      let e : a ≡ account = ==→eq a account same in rw (same, e) (update_own account f ws keeps)
  | inr other ↦ rw other (
      update_other a account f (locked_wallets account ws) keeps other
      ∙ wallet_in-locked a account ws)
]
