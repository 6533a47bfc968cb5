-- ===== src/Pay/Gift/Outcome.antt =====
-- What the transaction of a gift does to the tables, and why it fails.
use feedsystem_video_go_medi.Prelude.{
  ℤ, suc, pos, add64, sub64, ltb_ℤ, ◌≡◌, refl, true, false, ◌⊎◌, inl, inr, List, ◌∷◌, any,
  update_where, if◌then◌else◌,
}
use feedsystem_video_go_medi.Pay.Entity.{Wallet, GiftOrder, LedgerEntry, VideoGiftStat}
use feedsystem_video_go_medi.Store.{Db, Env, Error, insufficient_coin, dup_key}
use feedsystem_video_go_medi.Store.Ensures.{
  Atomic, Atomic-transaction, raise_if-then, execute-then, unique-then, insert-then, if-then,
  pure-then, Ensures-pure,
}
use feedsystem_video_go_medi.Pay.Rows.{
  owned_by, with_coin, with_diamond, set_coin, set_diamond, add_entry, entry_taken, same_ledger_key,
}
use feedsystem_video_go_medi.Pay.Steps.{wallet_in}
use feedsystem_video_go_medi.Pay.Steps.Pair.{locked_pair, lock_pair-then}
use feedsystem_video_go_medi.Pay.Gift.{
  Gift, transfer, send_entry, receive_entry, gift_taken, gift_order, add_gift_order, count_gift,
  raise_popularity, is_stat_of, counted, has_video_id, more_popular,
}

-- The sender's coins and the receiver's diamonds after a gift.
abbrev pub coins_left : Gift → Db → ℤ
coins_left g d = sub64 (wallet_in g.sender_id d.wallets).coin_available g.cost

abbrev pub diamonds_earned : Gift → Db → ℤ
diamonds_earned g d = add64 (wallet_in g.receiver_id d.wallets).diamond_available g.diamonds

module _ (g : Gift) (d : Db) where
  abbrev pub both_locked : List Wallet
  both_locked = locked_pair g.sender_id g.receiver_id d.wallets

  abbrev pub sender_paid : List Wallet
  sender_paid = update_where (owned_by g.sender_id) (with_coin (coins_left g d)) both_locked

  abbrev pub both_paid : List Wallet
  both_paid = update_where (owned_by g.receiver_id) (with_diamond (diamonds_earned g d)) sender_paid

  abbrev pub sent_row : LedgerEntry
  sent_row = record (send_entry g (coins_left g d)) { id = d.next_id }

  abbrev pub received_row : LedgerEntry
  received_row = record (receive_entry g (diamonds_earned g d)) { id = suc d.next_id }

-- The new entries of the ledger: the payment has one, and the diamonds have one where there are any.
abbrev pub HasEntries : Gift → Db → List LedgerEntry → Type 0
HasEntries g d rows =
    ((ltb_ℤ (pos 0) g.diamonds ≡ true) × (rows ≡ received_row g d ∷ sent_row g d ∷ d.ledger))
    ⊎ ((ltb_ℤ (pos 0) g.diamonds ≡ false) × (rows ≡ sent_row g d ∷ d.ledger))

-- The video's gifts and coins so far, with the gift's own added.
abbrev pub stats_after : Gift → List VideoGiftStat → List VideoGiftStat
stats_after g stats =
    if any (is_stat_of g.video_id) stats
    then update_where (is_stat_of g.video_id) (counted g.count g.cost) stats
    else record { video_id = g.video_id; gift_count = g.count; gift_coins = g.cost } ∷ stats

-- The sender had the coins; both wallets are updated; the payment has an entry, and the diamonds
-- have one where there are any; the gift is the newest order, by its sender under its key; and the
-- video's statistics count it, and its popularity is raised by the gift's weight.
pub record Transferred (g : Gift) (d : Db) (o : GiftOrder) (d' : Db) : Type 0 where
  pub covered : ltb_ℤ (wallet_in g.sender_id d.wallets).coin_available g.cost ≡ false
  pub wallets : d'.wallets ≡ both_paid g d
  pub ledger : HasEntries g d d'.ledger
  pub order : o ≡ record (gift_order g) { id = o.id }
  pub orders : d'.gift_orders ≡ o ∷ d.gift_orders
  pub fresh : gift_taken (gift_order g) d ≡ false
  pub stats : d'.gift_stats ≡ stats_after g d.gift_stats
  pub popularity :
      d'.videos ≡ update_where (has_video_id g.video_id) (more_popular g.weight) d.videos

pub data TransferRefused (g : Gift) (d : Db) : Error → Type 0 where
  coins_short :
      ltb_ℤ (wallet_in g.sender_id d.wallets).coin_available g.cost ≡ true
      → TransferRefused g d insufficient_coin
  sent_used : entry_taken (send_entry g (coins_left g d)) d ≡ true → TransferRefused g d dup_key
  received_used :
      any (same_ledger_key (receive_entry g (diamonds_earned g d))) (sent_row g d ∷ d.ledger) ≡ true
      → TransferRefused g d dup_key
  gift_used : gift_taken (gift_order g) d ≡ true → TransferRefused g d dup_key

-- Every way in which the transaction of a gift can end: what it writes, or why it fails.
pub transfer-Atomic :
    {env : Env} (E : Error → Type 0) (g : Gift) (d : Db)
    → ((e : Error) → TransferRefused g d e → E e)
    → Atomic env d (transfer env g) (Transferred g d) E
unfolding transfer set_coin set_diamond add_entry entry_taken add_gift_order gift_taken count_gift
    raise_popularity
transfer-Atomic E g d fails = Atomic-transaction _ (
    lock_pair-then g.sender_id g.receiver_id _ (
      raise_if-then _ _ _ (λ short. fails _ (coins_short short))
        (λ enough. execute-then _ _ (
          execute-then _ _ (
            unique-then _ _ _ (λ used. fails _ (sent_used used))
              (λ fresh.
                if-then (ltb_ℤ (pos 0) g.diamonds) _ _ _
                  (λ some_diamonds.
                    unique-then _ _ _ (λ used. fails _ (received_used used))
                      (λ fresh'.
                        insert-then _ _ _ (λ used. fails _ (gift_used used))
                          (λ new. execute-then _ _ (
                            execute-then _ _ (
                              Ensures-pure _ (record {
                                covered = enough;
                                wallets = refl;
                                ledger = inl (some_diamonds, refl);
                                order = refl;
                                orders = refl;
                                fresh = new;
                                stats = refl;
                                popularity = refl;
                              }))))))
                  (λ no_diamonds. pure-then tt _ (
                    insert-then _ _ _ (λ used. fails _ (gift_used used))
                      (λ new. execute-then _ _ (
                        execute-then _ _ (
                          Ensures-pure _ (record {
                            covered = enough;
                            wallets = refl;
                            ledger = inr (no_diamonds, refl);
                            order = refl;
                            orders = refl;
                            fresh = new;
                            stats = refl;
                            popularity = refl;
                          }))))))))))))
