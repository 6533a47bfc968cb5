-- ===== src/Pay/Gift/Ledger.antt =====
-- A gift keeps the ledger in step with the wallets: coins leave the sender and diamonds reach the
-- author of the video, each with an entry.
use feedsystem_video_go_medi.Prelude.{
  ℕ, ℤ, pos, ◌≤ℤ◌, ◌+ℤ◌, wrap, wrap-add, add64, ltb_ℤ, ◌≡◌, refl, sym, ap, subst, ◌∙◌, false, ◌∷◌,
  if◌then◌else◌, ◌==◌, update_where, int_laws, arith, ==→eq, suc, Bool-cases, inl, inr,
}
use feedsystem_video_go_medi.Pay.Entity.{GiftOrder, diamond}
use feedsystem_video_go_medi.Store.{Db, World, Env}
use feedsystem_video_go_medi.Store.Ensures.Outcome.{Atomic-keeps, Atomic-weaken, OnAtomic-OnResult}
use feedsystem_video_go_medi.Store.Ensures.{OnResult, Tolerates}
use feedsystem_video_go_medi.Pay.Rows.{owned_by, with_coin, with_diamond}
use feedsystem_video_go_medi.Pay.Steps.{wallet_in, locked_wallets}
use feedsystem_video_go_medi.Pay.Steps.Pair.{
  wallet_in-locked_pair, locked_pair-HasWallet, update-HasWallet, locked_present,
  wallet_in-update_present,
}
use feedsystem_video_go_medi.Pay.Ledger.{Agrees, LedgerMatches, ledger_sum}
use feedsystem_video_go_medi.Pay.Ledger.Rows.{coin_entry-Agrees, sub_of_wrap}
use feedsystem_video_go_medi.Pay.Ledger.Diamonds.{
  moved-Agrees, diamond_entry-coins, diamond_entry-diamonds,
}
use feedsystem_video_go_medi.Pay.Gift.Outcome.{
  HasEntries, coins_left, diamonds_earned, both_locked, sender_paid, both_paid, Transferred,
  transfer-Atomic,
}
use feedsystem_video_go_medi.Pay.Gift.{Gift, transfer, send_entry, receive_entry}

earned_total : (v f x : ℤ) → wrap (add64 v x +ℤ f) ≡ wrap (x +ℤ (v +ℤ f))
unfolding add64
earned_total v f x = wrap-add (v +ℤ x) f ∙ ap wrap (omega int_laws)

none_of_bounds : (x : ℤ) → pos 0 ≤ℤ x → ltb_ℤ (pos 0) x ≡ false → x ≡ pos 0
none_of_bounds x h k = ground arith

none_at : (a account : ℕ) (s : ℤ) → s ≡ (if a == account then pos 0 +ℤ s else s)
none_at a account s = elim (Bool-cases (a == account)) [
  | inl own ↦ rw own (omega int_laws)
  | inr other ↦ rw other
]

module _ (g : Gift) (d : Db) (h : LedgerMatches d) where
  pair-Agrees : Agrees (both_locked g d) d.ledger
  pair-Agrees = record {
    coins = λ a. rw (wallet_in-locked_pair a g.sender_id g.receiver_id d.wallets) (h.coins a);
    diamonds = λ a. rw (wallet_in-locked_pair a g.sender_id g.receiver_id d.wallets) (h.diamonds a);
  }

  sent-Agrees :
      (id : ℕ)
      → Agrees (sender_paid g d) (record (send_entry g (coins_left g d)) { id = id } ∷ d.ledger)
  sent-Agrees id =
      subst
        (λ ws.
          Agrees (update_where (owned_by g.sender_id) (with_coin (coins_left g d)) ws)
            (record (send_entry g (coins_left g d)) { id = id } ∷ d.ledger))
        (locked_present g.sender_id (both_locked g d)
          (locked_pair-HasWallet g.sender_id g.receiver_id d.wallets).0)
        (coin_entry-Agrees (both_locked g d) d.ledger
          (record (send_entry g (coins_left g d)) { id = id }) (coins_left g d) refl
          (sub_of_wrap _ _ _ (h.coins g.sender_id)) pair-Agrees)

  -- The sender's payment leaves the receiver's diamonds alone, whoever the receiver is.
  same_available :
      (wallet_in g.receiver_id (sender_paid g d)).diamond_available
      ≡ (wallet_in g.receiver_id d.wallets).diamond_available
  same_available =
      ap (λ w. w.diamond_available)
        (wallet_in-update_present g.receiver_id g.sender_id (with_coin (coins_left g d))
          (both_locked g d) (λ _. refl)
          (locked_pair-HasWallet g.sender_id g.receiver_id d.wallets).0)
      ∙ elim (Bool-cases (g.receiver_id == g.sender_id)) [
        | inl own ↦
            let e : g.receiver_id ≡ g.sender_id = ==→eq g.receiver_id g.sender_id own in
            rw own (
              ap (λ w. w.diamond_available)
                (wallet_in-locked_pair g.sender_id g.sender_id g.receiver_id d.wallets)
              ∙ ap (λ k. (wallet_in k d.wallets).diamond_available) (sym e))
        | inr other ↦ rw other (
            ap (λ w. w.diamond_available)
              (wallet_in-locked_pair g.receiver_id g.sender_id g.receiver_id d.wallets))
      ]

  there : locked_wallets g.receiver_id (sender_paid g d) ≡ (sender_paid g d)
  there = locked_present g.receiver_id (sender_paid g d) (
      update-HasWallet g.receiver_id g.sender_id (with_coin (coins_left g d)) (both_locked g d)
        (λ _. refl) (locked_pair-HasWallet g.sender_id g.receiver_id d.wallets).1)

  earned_from :
      (f : ℤ)
      → wrap (diamonds_earned g d +ℤ f)
        ≡ wrap (g.diamonds +ℤ ((wallet_in g.receiver_id (sender_paid g d)).diamond_available +ℤ f))
  earned_from f =
      earned_total _ f g.diamonds ∙ ap (λ v. wrap (g.diamonds +ℤ (v +ℤ f))) (sym same_available)

  received-Agrees :
      (id id' : ℕ)
      → Agrees (both_paid g d) (
          record (receive_entry g (diamonds_earned g d)) { id = id' }
          ∷ record (send_entry g (coins_left g d)) { id = id }
          ∷ d.ledger)
  received-Agrees id id' =
      let rows = record (send_entry g (coins_left g d)) { id = id } ∷ d.ledger in
      let e = record (receive_entry g (diamonds_earned g d)) { id = id' } in
      subst
        (λ ws.
          Agrees (update_where (owned_by g.receiver_id) (with_diamond (diamonds_earned g d)) ws)
            (e ∷ rows))
        there
        (moved-Agrees (sender_paid g d) rows (e ∷ rows) g.receiver_id
          (with_diamond (diamonds_earned g d)) g.diamonds (λ _. refl) (λ _. refl)
          (earned_from (wallet_in g.receiver_id (sender_paid g d)).diamond_frozen)
          (λ a. diamond_entry-coins e rows a refl) (λ a. diamond_entry-diamonds e rows a refl)
          (sent-Agrees id))

  unearned-Agrees :
      (id : ℕ)
      → g.diamonds ≡ pos 0
      → Agrees (both_paid g d) (record (send_entry g (coins_left g d)) { id = id } ∷ d.ledger)
  unearned-Agrees id zero =
      let rows = record (send_entry g (coins_left g d)) { id = id } ∷ d.ledger in
      let f = (wallet_in g.receiver_id (sender_paid g d)).diamond_frozen in
      let v = (wallet_in g.receiver_id (sender_paid g d)).diamond_available in
      subst
        (λ ws.
          Agrees (update_where (owned_by g.receiver_id) (with_diamond (diamonds_earned g d)) ws)
            rows)
        there
        (moved-Agrees (sender_paid g d) rows rows g.receiver_id (with_diamond (diamonds_earned g d))
          (pos 0) (λ _. refl) (λ _. refl) (earned_from f ∙ ap (λ z. wrap (z +ℤ (v +ℤ f))) zero)
          (λ a. refl) (λ a. none_at a g.receiver_id (ledger_sum diamond a rows)) (sent-Agrees id))

Transferred-LedgerMatches :
    (g : Gift) (d : Db) (o : GiftOrder) (d' : Db)
    → pos 0 ≤ℤ g.diamonds
    → LedgerMatches d
    → Transferred g d o d'
    → LedgerMatches d'
Transferred-LedgerMatches g d o d' earns h x = elim x.ledger [
  | inl (some_diamonds, rows) ↦
      rw (x.wallets, rows) (received-Agrees g d h d.next_id (suc d.next_id))
  | inr (no_diamonds, rows) ↦
      rw (x.wallets, rows) (unearned-Agrees g d h d.next_id (none_of_bounds _ earns no_diamonds))
]

-- Coins left the sender and diamonds reached the receiver, each with an entry.
abbrev pub HasMoved : Gift → Db → Db → Type 0
HasMoved g d d' = (d'.wallets ≡ both_paid g d) × HasEntries g d d'.ledger

-- Whatever becomes of the transaction of a gift, every wallet's coins and diamonds are what its ledger
-- entries add up to, if they were so before and the gift does not earn a negative number of
-- diamonds. Where it returns, the cost has left the sender's coins with an entry, and the receiver
-- has the diamonds, with an entry where there are any.
pub transfer-LedgerMatches :
    (env : Env) (g : Gift) (w : World)
    → pos 0 ≤ℤ g.diamonds
    → LedgerMatches w.db
    → LedgerMatches (transfer env g w).1.db
      × OnResult (λ _ d'. HasMoved g w.db d') (λ _. Unit) (transfer env g w)
transfer-LedgerMatches env g w earns h =
    let x = transfer-Atomic {env = env} (λ _. Unit) g w.db (λ _ _. tt) in
    let any_error : Tolerates env (λ _. Unit) = record { at = λ n down. tt } in
    (
      Atomic-keeps LedgerMatches w h
          (Atomic-weaken (λ o d'. Transferred-LedgerMatches g w.db o d' earns h) x),
      OnAtomic-OnResult w.db (Transferred g w.db) (λ _ d'. HasMoved g w.db d') (λ _. Unit) _
          (λ o d' y. (y.wallets, y.ledger)) (x.at any_error w.tick),
    )
