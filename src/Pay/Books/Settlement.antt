-- ===== src/Pay/Books/Settlement.antt =====
-- `settleOne` against a description of what a settlement does to the tables.
use feedsystem_video_go_medi.Prelude.{
  ℕ, ℤ, add64, sub64, ◌≡◌, true, some, none, List, String, update_where, not-false, or-false,
  or_not,
}
use feedsystem_video_go_medi.Pay.Entity.{
  Status, SettleStatus, credit, debit, settle, channel_receivable, merchant_bank, PayOrder,
  FiatJournal, PlatformBook, status_eq, settle_eq,
}
use feedsystem_video_go_medi.Store.{Db, Env, Error, ⊤}
use feedsystem_video_go_medi.Store.Ensures.{
  Ensures, Atomic, Atomic-transaction, Ensures-pure, Ensures-if, Ensures-execute, query-then,
  or_raise-then, execute-then, clock-then,
}
use feedsystem_video_go_medi.Pay.Rows.{find_order, update_orders, put_book}
use feedsystem_video_go_medi.Pay.Steps.{book_in, posted, lock_book-then, post_fiat-then}
use feedsystem_video_go_medi.Pay.Books.{
  settle_one, settle_order, is_pending, as_settled, fiat_row, save_book,
}

-- The two fiat entries of a settlement.
unfoldable pub settle_journal : PayOrder → List FiatJournal → List FiatJournal
settle_journal o rows =
    posted (fiat_row settle o.order_no channel_receivable credit o.net_fen)
      (posted (fiat_row settle o.order_no merchant_bank debit o.net_fen) rows)

unfoldable pub settled_book : PayOrder → PlatformBook → PlatformBook
settled_book o b = record b {
  pending_fen = sub64 b.pending_fen o.net_fen;
  settled_fen = add64 b.settled_fen o.net_fen;
}

-- The tables after the settlement of `o` at the time `t`.
unfoldable pub settled : ℤ → PayOrder → Db → Db
unfolding settle_journal settled_book
settled t o d = record d {
  orders = update_where (is_pending o.id) (as_settled t) d.orders;
  journal = settle_journal o d.journal;
  book = some (settled_book o (book_in d.book));
}

-- Why a settlement may fail, error by error.
pub data SettleRefused (number : String) (d : Db) : Error → Type 0 where
  no_order : find_order number d ≡ none → SettleRefused number d Error.record_not_found

abbrev pub IsDue : PayOrder → Type 0
IsDue o =
    (status_eq o.status Status.paid ≡ true)
    × (settle_eq o.settle_status SettleStatus.pending ≡ true)

module _ {env : Env} (number : String) {Q : ⊤ → Db → Type 0} (E : Error → Type 0) (d : Db) where
  settle_order-Ensures :
      (o : PayOrder)
      → ((n : ℕ) → Q tt (settled (env.clock n) o d))
      → Ensures env d (settle_order env o) Q E
  unfolding settle_order settled update_orders save_book put_book
  settle_order-Ensures o done = clock-then _ λ n. execute-then _ _ (
      post_fiat-then _ _ _ _ _ _
        (post_fiat-then _ _ _ _ _ _ (lock_book-then _ (Ensures-execute _ (done n)))))

  -- Every way in which a settlement can end: it leaves an order that is not due alone, it writes, or it
  -- fails.
  pub settle_one-Atomic :
      ((e : Error) → SettleRefused number d e → E e)
      → ((o : PayOrder) → find_order number d ≡ some o → ¬ IsDue o → Q tt d)
      → ((o : PayOrder) (n : ℕ)
          → find_order number d ≡ some o
          → IsDue o
          → Q tt (settled (env.clock n) o d))
      → Atomic env d (settle_one env number) Q E
  unfolding settle_one
  settle_one-Atomic refused skip done = Atomic-transaction _ (
      query-then _ _ (
        or_raise-then _ _ _ (λ missing. refused _ (no_order missing))
          λ o found.
            Ensures-if _ _ _
              (λ off. Ensures-pure tt (skip o found (λ due. or_not _ _ off due.0 due.1)))
              (λ due. settle_order-Ensures o (λ n.
                done o n found
                  (not-false _ (or-false _ _ due).0, not-false _ (or-false _ _ due).1)))))
