-- ===== src/Pay/Gift/Once.antt =====
-- A gift that was sent is not sent again under the same key.
use feedsystem_video_go_medi.Prelude.{
  ℕ, ltb_ℤ, ◌≡◌, refl, subst, sym, Bool, true, ◌||◌, inr, some, str_eq, str_eq_refl, ◌==◌, ==-refl,
  find,
}
use feedsystem_video_go_medi.Pay.Entity.{GiftOrder}
use feedsystem_video_go_medi.Store.{Db, World, Env, Error, ok, idempotency_key}
use feedsystem_video_go_medi.Store.Ensures.{
  Ensures, OnResult, OnAtomic, raise_if-then, query-then, chain-then, pure-then, Ensures-pure,
}
use feedsystem_video_go_medi.Store.Ensures.Outcome.{Fails, Fails-Tolerates, when_ok}
use feedsystem_video_go_medi.Pay.Wallet.{wallet}
use feedsystem_video_go_medi.Pay.Rows.{find_wallet}
use feedsystem_video_go_medi.Pay.Gift.{
  Gift, SendGiftRequest, transfer, gift_order, has_gift_key, find_gift_order, send_gift,
  counted_from, max_gift_count,
}
use feedsystem_video_go_medi.Pay.Gift.Outcome.{Transferred, TransferRefused, transfer-Atomic}

order_keyed :
    (g : Gift) (o : GiftOrder)
    → o ≡ record (gift_order g) { id = o.id }
    → has_gift_key g.sender_id g.idempotency_key o ≡ true
order_keyed g o e =
    subst (λ x. has_gift_key g.sender_id g.idempotency_key x ≡ true) (sym e)
      (rw (==-refl g.sender_id, str_eq_refl g.idempotency_key))

Transferred-found :
    (g : Gift) (d : Db) (o : GiftOrder) (d' : Db)
    → Transferred g d o d'
    → find_gift_order g.sender_id g.idempotency_key d' ≡ some o
unfolding find_gift_order find
Transferred-found g d o d' x = rw (x.orders, order_keyed g o x.order)

-- A request that leaves something out, or asks for too many.
abbrev pub GiftRejected : SendGiftRequest → Error → Type 0
GiftRejected req e =
    (e ≡ idempotency_key)
    × ((ltb_ℤ max_gift_count (counted_from req.count)
          || (req.video_id == 0)
          || str_eq req.gift_code ""
          || str_eq req.idempotency_key "")
        ≡ true)

module _ (env : Env) (has_publisher : Bool) (sender : ℕ) (req : SendGiftRequest) (d : Db)
    (o : GiftOrder) (found : find_gift_order sender req.idempotency_key d ≡ some o) where
  repeated-Ensures :
      Ensures env d
        (send_gift env has_publisher sender req)
        (λ r d'. (r.0 ≡ o) × (d' ≡ d))
        (Fails env (GiftRejected req))
  unfolding send_gift wallet
  repeated-Ensures =
      raise_if-then _ _ _ (λ bad. inr (refl, bad))
        (λ good. query-then (find_gift_order sender req.idempotency_key) _ (
          rw found (
            chain-then _ _ _
              (query-then (find_wallet sender) _ (pure-then _ _ (Ensures-pure _ (refl, refl)))))))

-- Once the transaction of a gift has gone through, a request of its sender with the same key, whatever
-- else it asks for, returns that gift and changes nothing; it fails where the request leaves something
-- out or asks for too many, or because a statement did not go through.
pub send_gift_once :
    (env : Env) (has_publisher : Bool) (g : Gift) (req : SendGiftRequest) (w w' : World)
    (o : GiftOrder)
    → transfer env g w ≡ (ok o, w')
    → req.idempotency_key ≡ g.idempotency_key
    → OnResult
        (λ r d. (r.0 ≡ o) × (d ≡ w'.db))
        (Fails env (GiftRejected req))
        (send_gift env has_publisher g.sender_id req w')
send_gift_once env has_publisher g req w w' o done same =
    let x : Transferred g w.db o w'.db =
      when_ok (transfer-Atomic (Fails env (TransferRefused g w.db)) g w.db (λ e h. inr h))
        Fails-Tolerates done in
    (repeated-Ensures env has_publisher g.sender_id req w'.db o
        (rw same (Transferred-found g w.db o w'.db x))).at
      Fails-Tolerates w'.tick

-- The transaction of a gift does all of its work, exactly as described, on both wallets, the ledger, the gift
-- orders, the video's gift statistics and its popularity, or fails without a trace: for coins that the
-- sender does not have, for a ledger key, a gift's number or the sender's key in use, or because a
-- statement did not go through.
pub transfer_outcome :
    (env : Env) (g : Gift) (w : World)
    → OnAtomic w.db (Transferred g w.db) (Fails env (TransferRefused g w.db)) (transfer env g w)
transfer_outcome env g w =
    (transfer-Atomic (Fails env (TransferRefused g w.db)) g w.db (λ e h. inr h)).at Fails-Tolerates
      w.tick
