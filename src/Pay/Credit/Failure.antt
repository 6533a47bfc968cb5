-- ===== src/Pay/Credit/Failure.antt =====
-- `markFailed` against a description of what a notice of failure does to the tables.
use feedsystem_video_go_medi.Prelude.{
  eqb_ℤ, ◌≡◌, refl, Bool, true, false, not, ◌&&◌, ◌||◌, some, none, String, str_eq, ◌==◌,
  count_where, update_where, not-true,
}
use feedsystem_video_go_medi.Pay.Entity.{Status, PayOrder, CallbackBody, status_eq}
use feedsystem_video_go_medi.Store.{Db, Env, Error, ⊤}
use feedsystem_video_go_medi.Store.Ensures.{
  Atomic, Atomic-transaction, Ensures-pure, Ensures-if, query-then, or_raise-then, raise_if-then,
  Ensures-raise_if, update_rows-then,
}
use feedsystem_video_go_medi.Pay.Rows.{find_order, update_orders, has_id_status}
use feedsystem_video_go_medi.Pay.Credit.{mark_failed, with_status}

-- A status in which an order can still be paid in time.
abbrev pub is_open : Status → Bool
is_open s = status_eq s Status.created || status_eq s Status.paying

-- A status that a notice of failure leaves as it is.
abbrev pub is_final : Status → Bool
is_final s = status_eq s Status.paid || status_eq s Status.failed || status_eq s Status.closed

abbrev pub failed_orders : PayOrder → Db → Db
failed_orders o d = record d {
  orders = update_where (has_id_status o.id o.status) (with_status Status.failed) d.orders;
}

-- Why a notice of failure may be refused, error by error.
pub data FailureRefused (channel : String) (cb : CallbackBody) (d : Db) : Error → Type 0 where
  no_order : find_order cb.order_no d ≡ none → FailureRefused channel cb d Error.order_not_found
  mismatch :
      (o : PayOrder)
      → find_order cb.order_no d ≡ some o
      → (str_eq o.channel channel && eqb_ℤ o.amount_fen cb.amount_fen) ≡ false
      → FailureRefused channel cb d Error.amount_mismatch
  not_payable :
      (o : PayOrder)
      → find_order cb.order_no d ≡ some o
      → is_final o.status ≡ false
      → is_open o.status ≡ false
      → FailureRefused channel cb d Error.order_closed
  ambiguous :
      (o : PayOrder)
      → find_order cb.order_no d ≡ some o
      → (count_where (has_id_status o.id o.status) d.orders == 1) ≡ false
      → FailureRefused channel cb d Error.trade_conflict

nor : (a b : Bool) → (not a || not b) ≡ true → (a && b) ≡ false
nor true true h = cc
nor true false h = refl
nor false b h = refl

neither : (a b : Bool) → (not a && not b) ≡ true → (a || b) ≡ false
neither true b h = cc
neither false true h = cc
neither false false h = refl

one_of : (a b : Bool) → (not a && not b) ≡ false → (a || b) ≡ true
one_of true b h = refl
one_of false true h = refl
one_of false false h = cc

module _ {env : Env} (channel : String) (cb : CallbackBody) {Q : ⊤ → Db → Type 0}
    (E : Error → Type 0) (d : Db) where
  -- Every way in which a notice of failure can end.
  pub mark_failed-Atomic :
      ((e : Error) → FailureRefused channel cb d e → E e)
      → ((o : PayOrder) → find_order cb.order_no d ≡ some o → is_final o.status ≡ true → Q tt d)
      → ((o : PayOrder)
          → find_order cb.order_no d ≡ some o
          → is_open o.status ≡ true
          → Q tt (failed_orders o d))
      → Atomic env d (mark_failed env channel cb) Q E
  unfolding mark_failed update_orders
  mark_failed-Atomic refused skip done = Atomic-transaction _ (
      query-then _ _ (
        or_raise-then _ _ _ (λ missing. refused _ (no_order missing))
          λ o found.
            raise_if-then _ _ _ (λ off. refused _ (mismatch o found (nor _ _ off)))
              λ same.
                Ensures-if _ _ _ (λ final. Ensures-pure tt (skip o found final))
                  (λ live.
                    raise_if-then _ _ _
                      (λ shut. refused _ (not_payable o found live (neither _ _ shut)))
                      λ open_order.
                        update_rows-then _ _ _ _ (λ never. cc)
                          λ free.
                            Ensures-raise_if _ _
                              (λ many. refused _ (ambiguous o found (not-true _ many)))
                              (λ one. done o found (one_of _ _ open_order)))))
