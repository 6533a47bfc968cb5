-- ===== src/Pay/Expiry/Outcome.antt =====
-- What the check of an order's expiry returns and writes.
use feedsystem_video_go_medi.Prelude.{
  ℕ, ltb_ℤ, ◌≡◌, refl, true, false, ◌⊎◌, inl, inr, not-true, not-false, update_where,
}
use feedsystem_video_go_medi.Pay.Entity.{Status, PayOrder}
use feedsystem_video_go_medi.Store.{Db, World, Env}
use feedsystem_video_go_medi.Store.Ensures.{
  OnResult, Ensures, Ensures-pure, Ensures-if, clock-then, execute-then, post-then, pure-then,
  chain-then,
}
use feedsystem_video_go_medi.Store.Ensures.Outcome.{Fails, Fails-Tolerates}
use feedsystem_video_go_medi.Pay.Rows.{update_orders}
use feedsystem_video_go_medi.Pay.Credit.{with_status}
use feedsystem_video_go_medi.Pay.Credit.Failure.{is_open}
use feedsystem_video_go_medi.Pay.Expiry.{
  Closing, live, expired, has_id_open, close_if_expired, release_gateway_hold,
}

abbrev pub closed_orders : PayOrder → Db → Db
closed_orders o d = record d {
  orders = update_where (has_id_open o.id) (with_status Status.closed) d.orders;
}

-- What the check has done, with a reading of the clock.
abbrev pub CloseDone : Env → PayOrder → Db → Closing → Db → Type 0
CloseDone env o d c d' =
    ((c ≡ live o)
      × (d' ≡ d)
      × ((is_open o.status ≡ false) ⊎ ((n : ℕ) × (ltb_ℤ o.expire_at (env.clock n) ≡ false))))
    ⊎ ((c ≡ expired (with_status Status.closed o))
        × (is_open o.status ≡ true)
        × ((n : ℕ) × (ltb_ℤ o.expire_at (env.clock n) ≡ true))
        × (d' ≡ closed_orders o d))

module _ (env : Env) (o : PayOrder) (d : Db) where
  close-Ensures : Ensures env d (close_if_expired env o) (CloseDone env o d) (Fails env (λ _. ⊥))
  unfolding close_if_expired release_gateway_hold update_orders
  close-Ensures =
      Ensures-if _ _ _ (λ shut. Ensures-pure _ (inl (refl, refl, inl (not-true _ shut))))
        (λ open_order. clock-then _ λ n.
          Ensures-if _ _ _ (λ early. Ensures-pure _ (inl (refl, refl, inr (n, not-true _ early))))
            (λ late. execute-then _ _ (
              chain-then _ _ _ (
                post-then _ _ _ λ reply. pure-then _ _ (
                  Ensures-pure _
                    (inr (refl, not-false _ open_order, (n, not-false _ late), refl)))))))

-- The check of an order's expiry returns the order as it is and writes nothing, where the order is no
-- longer open or the clock has not passed its deadline; otherwise it closes the row, if that is still
-- open, and returns the order as closed and expired, whatever the gateway answers. It fails only where
-- a statement does not go through.
pub close_if_expired_outcome :
    (env : Env) (o : PayOrder) (w : World)
    → OnResult (CloseDone env o w.db) (Fails env (λ _. ⊥)) (close_if_expired env o w)
close_if_expired_outcome env o w = (close-Ensures env o w.db).at Fails-Tolerates w.tick
