-- ===== src/Pay/Withdraw.antt =====
-- Withdrawals of diamonds: the second half of backend/internal/pay/gift.go.
pub mod Ledger
use feedsystem_video_go_medi.Prelude.{
  ℕ, suc, ℤ, pos, ◌+◌, ◌+ℤ◌, ◌-ℤ◌, add64, sub64, mul64, leb_ℤ, ltb_ℤ, Bool, not, ◌&&◌, Option, none,
  some, List, [], ◌∷◌, String, str_append, str_eq, if◌then◌else◌, ◌==◌, find, filter, any, take,
  update_where,
}
use feedsystem_video_go_medi.Pay.Entity.{
  Wallet, WithdrawOrder, WithdrawStatus, withdraw_code, LedgerEntry, PlatformBook, diamond, debit,
  withdraw,
}
use feedsystem_video_go_medi.Store.{
  Db, Env, Error, Action, ⊤, ok, err, pure, or_raise, raise_if, now, query, execute, execute_unique,
  insert_unique, attempt, transaction, ◌>>=◌, ◌>>◌, refund_not_allowed, insufficient_coin,
  record_not_found,
}
use feedsystem_video_go_medi.Pay.Rows.{owned_by, entry_taken, add_entry}
use feedsystem_video_go_medi.Pay.LockWallet.{lock_wallet}
use feedsystem_video_go_medi.Pay.Books.{lock_book, save_book}
use feedsystem_video_go_medi.Pay.Gateway.{new_order_no}

abbrev pub diamond_fen_rate : ℤ
diamond_fen_rate = pos 10

abbrev pub min_withdraw : ℤ
min_withdraw = pos 10

-- How long a withdrawal is reviewed: 15 seconds, in nanoseconds.
abbrev pub review_time : ℤ
review_time = pos 15000000000

abbrev pub is_withdraw : String → WithdrawOrder → Bool
is_withdraw number o = str_eq o.withdraw_no number

abbrev pub is_reviewing : WithdrawOrder → Bool
is_reviewing o = withdraw_code o.status == withdraw_code WithdrawStatus.reviewing

abbrev pub is_due_withdraw : ℤ → WithdrawOrder → Bool
is_due_withdraw deadline o = is_reviewing o && leb_ℤ o.created_at deadline

abbrev pub with_diamonds : ℤ → ℤ → Wallet → Wallet
with_diamonds available frozen w = record w {
  diamond_available = available;
  diamond_frozen = frozen;
  version = w.version +ℤ pos 1;
}

unfoldable pub set_diamonds : ℕ → ℤ → ℤ → Db → Db
set_diamonds account available frozen d = record d {
  wallets = update_where (owned_by account) (with_diamonds available frozen) d.wallets;
}

abbrev pub with_frozen : ℤ → Wallet → Wallet
with_frozen frozen w = record w { diamond_frozen = frozen; version = w.version +ℤ pos 1 }

unfoldable pub set_frozen : ℕ → ℤ → Db → Db
set_frozen account frozen d = record d {
  wallets = update_where (owned_by account) (with_frozen frozen) d.wallets;
}

-- The unique index on `withdraw_no`.
unfoldable pub withdraw_taken : WithdrawOrder → Db → Bool
withdraw_taken o d = any (is_withdraw o.withdraw_no) d.withdraws

-- The row takes its `id` from the auto-increment column, and the caller reads it.
unfoldable pub add_withdraw : WithdrawOrder → Db → WithdrawOrder × Db
add_withdraw o d =
    let row = record o { id = d.next_id } in
    (row, record d { withdraws = row ∷ d.withdraws; next_id = suc d.next_id })

abbrev pub has_withdraw_id : ℕ → WithdrawOrder → Bool
has_withdraw_id id o = o.id == id

abbrev pub as_failed : WithdrawOrder → WithdrawOrder
as_failed o = record o { status = WithdrawStatus.failed }

abbrev pub as_paid_out : ℤ → WithdrawOrder → WithdrawOrder
as_paid_out t o = record o { status = WithdrawStatus.paid; paid_at = some t }

unfoldable pub update_withdraws : ℕ → (WithdrawOrder → WithdrawOrder) → Db → Db
update_withdraws id f d = record d { withdraws = update_where (has_withdraw_id id) f d.withdraws }

abbrev pub withdraw_order : String → ℕ → ℤ → ℤ → WithdrawOrder
withdraw_order number account diamonds t = record {
  id = 0;
  withdraw_no = str_append "W" number;
  account_id = account;
  diamonds = diamonds;
  amount_fen = mul64 diamonds diamond_fen_rate;
  status = WithdrawStatus.reviewing;
  created_at = t;
  paid_at = none;
}

-- The entry of a payout: the balance it notes is that of the available diamonds.
abbrev pub payout_entry : WithdrawOrder → Wallet → LedgerEntry
payout_entry o w = record {
  id = 0;
  account_id = o.account_id;
  currency = diamond;
  direction = debit;
  amount = o.diamonds;
  balance_after = w.diamond_available;
  biz_type = withdraw;
  biz_no = o.withdraw_no;
  idempotency_key = o.withdraw_no;
}

abbrev pub paid_out_book : WithdrawOrder → PlatformBook → PlatformBook
paid_out_book o b = record b { creator_payout_fen = add64 b.creator_payout_fen o.amount_fen }

module _ (env : Env) where
  -- The transaction of `RequestWithdraw`.
  unfoldable pub freeze : String → ℕ → ℤ → Action WithdrawOrder
  freeze number account diamonds = transaction env (do
    wallet ← lock_wallet env account
    raise_if (ltb_ℤ wallet.diamond_available diamonds) insufficient_coin
    execute env (
        set_diamonds account (sub64 wallet.diamond_available diamonds)
          (add64 wallet.diamond_frozen diamonds))
    t ← now env
    let order = withdraw_order number account diamonds t
    insert_unique env (withdraw_taken order) (add_withdraw order))

  unfoldable pub request_withdraw : ℕ → ℤ → Action WithdrawOrder
  request_withdraw account diamonds = do
    raise_if (ltb_ℤ diamonds min_withdraw) refund_not_allowed
    t ← now env
    number ← new_order_no env t
    freeze number account diamonds

  unfoldable pub list_withdraws : ℕ → Action (List WithdrawOrder)
  list_withdraws account =
      query env (λ d. take 20 (filter (λ o. o.account_id == account) d.withdraws))

  -- The writes of a payout.
  unfoldable pub pay_out : WithdrawOrder → Wallet → Action ⊤
  pay_out order wallet = do
    t ← now env
    execute env (set_frozen order.account_id (sub64 wallet.diamond_frozen order.diamonds))
    execute_unique env (entry_taken (payout_entry order wallet))
        (add_entry (payout_entry order wallet))
    book ← lock_book env
    save_book env (paid_out_book order book)
    execute env (update_withdraws order.id (as_paid_out t))

  unfoldable pub pay_withdraw : String → Action ⊤
  pay_withdraw number = transaction env (do
    found ← query env (λ d. find (is_withdraw number) d.withdraws)
    order ← or_raise found record_not_found
    if not (is_reviewing order) then pure tt else do
      wallet ← lock_wallet env order.account_id
      if ltb_ℤ wallet.diamond_frozen order.diamonds
          then execute env (update_withdraws order.id as_failed)
          else pay_out order wallet)

  -- The withdrawals paid so far, and the error at which the loop stopped.
  unfoldable pub pay_all : List WithdrawOrder → ℕ → Action (ℕ × Option Error)
  pay_all [] n = pure (n, none)
  pay_all (o ∷ os) n = do
    r ← attempt (pay_withdraw o.withdraw_no)
    elim r [ ok u ↦ pay_all os (n + 1) | err e ↦ pure (n, some e) ]

  unfoldable pub pay_due_withdraws : Action (ℕ × Option Error)
  unfolding pay_all
  pay_due_withdraws = do
    t ← now env
    due ← query env (λ d. filter (is_due_withdraw (t -ℤ review_time)) d.withdraws)
    pay_all due 0
