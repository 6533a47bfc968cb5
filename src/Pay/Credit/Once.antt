-- ===== src/Pay/Credit/Once.antt =====
-- What is found after a payment: the order, its log and the rows that it left.
use feedsystem_video_go_medi.Prelude.{
  ℤ, ◌≡◌, List, refl, ap, Option, some, String, str_eq, Bool-cases, inl, inr, ==-refl, find,
  update_where,
}
use feedsystem_video_go_medi.Prelude.Lists.Laws.{find-update}
use feedsystem_video_go_medi.Pay.Entity.{
  Status, PayOrder, PayCallbackLog, CallbackBody, status_code, status_eq,
}
use feedsystem_video_go_medi.Store.{Db}
use feedsystem_video_go_medi.Pay.Rows.{
  add_callback, callback_taken, find_order, has_id, has_id_status, has_no,
}
use feedsystem_video_go_medi.Pay.Steps.{with_payment_posted}
use feedsystem_video_go_medi.Pay.Books.{with_fee, split_fee}
use feedsystem_video_go_medi.Pay.Credit.{as_paid}
use feedsystem_video_go_medi.Pay.Credit.Outcome.{credited, logged}

pub orders-logged : (r : PayCallbackLog) (d : Db) → (logged r d).orders ≡ d.orders
unfolding logged add_callback
orders-logged r d = elim (Bool-cases (callback_taken r d)) [ inl old ↦ rw old | inr new ↦ rw new ]

-- The order as a payment leaves it.
abbrev pub paid_order : CallbackBody → ℤ → PayOrder → PayOrder
paid_order cb t o =
    with_fee (split_fee o.amount_fen).0 (split_fee o.amount_fen).1
      (as_paid cb.channel_trade_no t (status_eq o.status Status.closed) o)

-- Two updates of the order that was read, by its id, show in what is found under its number.
find_updated :
    (number : String) (f g : PayOrder → PayOrder) (rows : List PayOrder) (o : PayOrder)
    → ((x : PayOrder) → (f x).order_no ≡ x.order_no)
    → ((x : PayOrder) → (g x).order_no ≡ x.order_no)
    → (f o).id ≡ o.id
    → find (has_no number) rows ≡ some o
    → find
        (has_no number)
        (update_where (has_id o.id) g (update_where (has_id_status o.id o.status) f rows))
      ≡ some (g (f o))
find_updated number f g rows o keep_f keep_g keep_id found =
    let outer =
      find-update (has_no number) (has_id o.id) g
        (update_where (has_id_status o.id o.status) f rows)
        (λ x. ap (λ k. str_eq k number) (keep_g x)) in
    let inner =
      find-update (has_no number) (has_id_status o.id o.status) f rows
        (λ x. ap (λ k. str_eq k number) (keep_f x)) in
    rw (outer, inner, found)
      (rw (==-refl o.id, ==-refl (status_code o.status), keep_id, ==-refl o.id))

pub find-credited :
    (channel : String) (cb : CallbackBody) (t : ℤ) (o : PayOrder) (d : Db)
    → find_order cb.order_no d ≡ some o
    → find_order cb.order_no (credited channel cb t o d) ≡ some (paid_order cb t o)
unfolding credited find_order with_payment_posted
find-credited channel cb t o d found = rw orders-logged (
    find_updated cb.order_no (as_paid cb.channel_trade_no t (status_eq o.status Status.closed))
      (with_fee (split_fee o.amount_fen).0 (split_fee o.amount_fen).1) d.orders o (λ _. refl)
      (λ _. refl) refl found)

pub same_row : {A : Type 0} {x : Option A} (a b : A) → x ≡ some a → x ≡ some b → a ≡ b
same_row a b p q = cc
