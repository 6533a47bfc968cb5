-- ===== src/Pay/Orders/Methods.antt =====
-- Every payment method moves an order by the rules of its life, and keeps its identity and its price.
use feedsystem_video_go_medi.Prelude.{
  ℕ, ℤ, ◌≡◌, refl, sym, subst, Bool, true, false, String, arith, ==→eq, and-true, ==-refl,
}
use feedsystem_video_go_medi.Prelude.Lists.Unique.{find_unique}
use feedsystem_video_go_medi.Pay.Entity.{Status, PayOrder, CallbackBody, status_code, status_eq}
use feedsystem_video_go_medi.Store.{Db, World, Env}
use feedsystem_video_go_medi.Store.Ensures.Outcome.{Atomic-keeps}
use feedsystem_video_go_medi.Pay.Rows.{has_id, has_id_status, find_own_order}
use feedsystem_video_go_medi.Pay.Steps.{with_payment_posted}
use feedsystem_video_go_medi.Pay.Books.{
  settle_one, reverse, as_reversed, as_settled, is_pending, reversed_status,
}
use feedsystem_video_go_medi.Pay.Books.Settlement.{settle_one-Atomic, settled}
use feedsystem_video_go_medi.Pay.Books.Reversal.{reverse-Atomic, reversed, IsReversible}
use feedsystem_video_go_medi.Pay.Credit.{credit, mark_failed, is_creditable}
use feedsystem_video_go_medi.Pay.Credit.Outcome.{credited, credit-Atomic}
use feedsystem_video_go_medi.Pay.Credit.Once.{orders-logged}
use feedsystem_video_go_medi.Pay.Credit.Failure.{mark_failed-Atomic, failed_orders, is_open}
use feedsystem_video_go_medi.Pay.Orders.{
  is_past, Move, stay, pay, fail, refund, dispute, AllEvolve, IdsUnique, AllEvolve-refl,
  AllEvolve-update, AllEvolve-update_one, AllEvolve-then,
}

-- A row that is selected by id and status has that status.
status_of :
    (k : ℕ) (s : Status) (x : PayOrder)
    → has_id_status k s x ≡ true
    → status_code x.status ≡ status_code s
status_of k s x h = ==→eq _ _ (and-true _ _ h).1

same_status : (s s' : Status) → status_code s ≡ status_code s' → s ≡ s'
same_status s s' h = ground arith

pub creditable_new : (s : Status) → is_past s ≡ true → is_creditable s ≡ true → ⊥
creditable_new s h k = ground arith

credited-AllEvolve :
    (channel : String) (cb : CallbackBody) (t : ℤ) (o : PayOrder) (d : Db)
    → is_creditable o.status ≡ true
    → AllEvolve d.orders (credited channel cb t o d).orders
unfolding credited with_payment_posted
credited-AllEvolve channel cb t o d payable = rw orders-logged (
    AllEvolve-then (has_id o.id) _ d.orders _
      (record {
        id = λ _. refl;
        order_no = λ _. refl;
        account_id = λ _. refl;
        amount_fen = λ _. refl;
        coins = λ _. refl;
        channel = λ _. refl;
        trade = λ _. refl;
        status = λ _. refl;
      })
      (AllEvolve-update (has_id_status o.id o.status) _ d.orders (λ x here. record {
        id = refl;
        order_no = refl;
        account_id = refl;
        amount_fen = refl;
        coins = refl;
        channel = refl;
        trade = λ past. absurd (
            creditable_new x.status past (
              subst (λ s. is_creditable s ≡ true)
                (sym (same_status _ _ (status_of o.id o.status x here))) payable));
        move = pay x.status (
            subst (λ s. is_creditable s ≡ true)
              (sym (same_status _ _ (status_of o.id o.status x here))) payable);
      })))

-- A callback moves an order from created, paying or closed to paid, and changes no other order; no
-- order is lost, and none changes its number, owner, price or coins.
pub credit-AllEvolve :
    (env : Env) (channel : String) (cb : CallbackBody) (w : World)
    → AllEvolve w.db.orders (credit env channel cb w).1.db.orders
credit-AllEvolve env channel cb w =
    Atomic-keeps (λ d. AllEvolve w.db.orders d.orders) w (AllEvolve-refl w.db.orders)
      (credit-Atomic channel cb _ _ (λ e _. tt) (λ o _ _ _ _. AllEvolve-refl w.db.orders)
        (λ o t r. credited-AllEvolve channel cb (env.clock t) o w.db r.payable))

failed-AllEvolve :
    (o : PayOrder) (d : Db)
    → is_open o.status ≡ true
    → AllEvolve d.orders (failed_orders o d).orders
failed-AllEvolve o d live = AllEvolve-update (has_id_status o.id o.status) _ d.orders (λ x here.
    record {
      id = refl;
      order_no = refl;
      account_id = refl;
      amount_fen = refl;
      coins = refl;
      channel = refl;
      trade = λ _. refl;
      move = fail x.status (
          subst (λ s. is_open s ≡ true) (sym (same_status _ _ (status_of o.id o.status x here)))
            live);
    })

-- A notice of failure moves an order from created or paying to failed, and changes no other order; no
-- order is lost, and none changes its number, owner, price or coins.
pub mark_failed-AllEvolve :
    (env : Env) (channel : String) (cb : CallbackBody) (w : World)
    → AllEvolve w.db.orders (mark_failed env channel cb w).1.db.orders
mark_failed-AllEvolve env channel cb w =
    Atomic-keeps (λ d. AllEvolve w.db.orders d.orders) w (AllEvolve-refl w.db.orders)
      (mark_failed-Atomic channel cb _ _ (λ e _. tt) (λ o _ _. AllEvolve-refl w.db.orders)
        (λ o _ live. failed-AllEvolve o w.db live))

settled-AllEvolve : (t : ℤ) (o : PayOrder) (d : Db) → AllEvolve d.orders (settled t o d).orders
unfolding settled
settled-AllEvolve t o d = AllEvolve-update (is_pending o.id) (as_settled t) d.orders (λ x here.
    record {
      id = refl;
      order_no = refl;
      account_id = refl;
      amount_fen = refl;
      coins = refl;
      channel = refl;
      trade = λ _. refl;
      move = stay x.status;
    })

-- A settlement moves no order to another status.
pub settle_one-AllEvolve :
    (env : Env) (number : String) (w : World)
    → AllEvolve w.db.orders (settle_one env number w).1.db.orders
settle_one-AllEvolve env number w =
    Atomic-keeps (λ d. AllEvolve w.db.orders d.orders) w (AllEvolve-refl w.db.orders)
      (settle_one-Atomic number _ _ (λ e _. tt) (λ o _ _. AllEvolve-refl w.db.orders)
        (λ o t _ _. settled-AllEvolve (env.clock t) o w.db))

reversed-Move :
    (chargeback : Bool) (s : Status)
    → status_eq s Status.paid ≡ true
    → Move s (reversed_status chargeback)
reversed-Move true s h = dispute s h
reversed-Move false s h = refund s h

reversed-AllEvolve :
    (account : ℕ) (number : String) (chargeback : Bool) (t : ℤ) (o : PayOrder) (d : Db)
    → IdsUnique d.orders
    → IsReversible account number chargeback d o
    → AllEvolve d.orders (reversed account chargeback t o d).orders
unfolding reversed find_own_order
reversed-AllEvolve account number chargeback t o d unique r =
    AllEvolve-update_one o.id (as_reversed chargeback t) d.orders o (unique o.id)
      (find_unique _ (has_id o.id) d.orders o r.found (==-refl o.id) (unique o.id)).0
      (record {
        id = refl;
        order_no = refl;
        account_id = refl;
        amount_fen = refl;
        coins = refl;
        channel = refl;
        trade = λ _. refl;
        move = reversed-Move chargeback o.status (and-true _ _ r.refundable).0;
      })

-- A refund moves an order from paid to refunded, a chargeback from paid to chargeback, and neither
-- changes another order, where order ids are unique; no order is lost, and none changes its number,
-- owner, price or coins.
pub reverse-AllEvolve :
    (env : Env) (account : ℕ) (number : String) (chargeback : Bool) (w : World)
    → IdsUnique w.db.orders
    → AllEvolve w.db.orders (reverse env account number chargeback w).1.db.orders
reverse-AllEvolve env account number chargeback w unique =
    Atomic-keeps (λ d. AllEvolve w.db.orders d.orders) w (AllEvolve-refl w.db.orders)
      (reverse-Atomic account number chargeback _ _ (λ e _. tt)
        (λ o t r. reversed-AllEvolve account number chargeback (env.clock t) o w.db unique r))
