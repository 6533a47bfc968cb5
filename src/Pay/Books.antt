-- ===== src/Pay/Books.antt =====
-- The platform's books: backend/internal/pay/books.go.
pub mod Reversal
pub mod Settlement
pub mod Fee
pub mod Refinement
use feedsystem_video_go_medi.Prelude.{
  ℕ, ℤ, pos, add64, sub64, mul64, div64, leb_ℤ, ltb_ℤ, eqb_ℤ, Bool, true, false, not, ◌&&◌, ◌||◌,
  Option, none, some, String, if◌then◌else◌, ◌==◌,
}
use feedsystem_video_go_medi.Pay.Entity.{
  Status, SettleStatus, Direction, credit, debit, BizType, recharge, refund, settle, FiatAccount,
  channel_receivable, channel_fee, user_prepay, merchant_bank, coin, PayOrder, PlatformBook,
  FiatJournal, LedgerEntry, status_eq, settle_eq,
}
use feedsystem_video_go_medi.Store.{
  Env, Action, ⊤, pure, or_raise, raise_if, ◌>>=◌, ◌>>◌, query, now, execute, execute_unique,
  ignore_dup, transaction, order_not_found, refund_not_allowed, insufficient_coin, record_not_found,
}
use feedsystem_video_go_medi.Pay.Rows.{
  find_order, find_own_order, update_orders, has_id, empty_book, find_book, book_taken, put_book,
  fiat_taken, add_fiat, set_coin, entry_taken, add_entry,
}
use feedsystem_video_go_medi.Pay.LockWallet.{lock_wallet}

abbrev pub fee_bps : ℤ
fee_bps = pos 60

-- The fee and the net amount of a payment.
unfoldable pub split_fee : ℤ → ℤ × ℤ
split_fee amount =
    if leb_ℤ amount (pos 0)
    then (pos 0, pos 0)
    else (let share = div64 (mul64 amount fee_bps) 10000 in
        let raised = if eqb_ℤ share (pos 0) then pos 1 else share in
        let fee = if leb_ℤ amount raised then pos 1 else raised in (fee, sub64 amount fee))

abbrev pub is_refundable : PayOrder → Bool
is_refundable order =
    status_eq order.status Status.paid
    && (settle_eq order.settle_status SettleStatus.pending
        || settle_eq order.settle_status SettleStatus.settled)

-- The coins taken back and the coins that are missing, from those of the order and the wallet.
unfoldable pub claw_back : ℤ → ℤ → ℤ × ℤ
claw_back coins available =
    if ltb_ℤ available coins then (available, sub64 coins available) else (coins, pos 0)

abbrev pub reverse_biz : Bool → BizType
reverse_biz true = BizType.chargeback
reverse_biz false = refund

abbrev pub reversed_status : Bool → Status
reversed_status true = Status.chargeback
reversed_status false = Status.refunded

abbrev pub reversed_settle : Bool → SettleStatus
reversed_settle true = SettleStatus.chargeback
reversed_settle false = SettleStatus.refunded

abbrev pub claw_entry : Bool → PayOrder → ℕ → ℤ → ℤ → LedgerEntry
claw_entry chargeback order account claw left = record {
  id = 0;
  account_id = account;
  currency = coin;
  direction = debit;
  amount = claw;
  balance_after = left;
  biz_type = reverse_biz chargeback;
  biz_no = order.order_no;
  idempotency_key = order.idempotency_key;
}

-- The book after a reversal.
unfoldable pub reversed_book : Bool → PayOrder → ℤ → PlatformBook → PlatformBook
reversed_book chargeback order shortfall b =
    let is_settled = settle_eq order.settle_status SettleStatus.settled in
    record b {
      pending_fen = if is_settled then b.pending_fen else sub64 b.pending_fen order.net_fen;
      settled_fen = if is_settled then sub64 b.settled_fen order.net_fen else b.settled_fen;
      fee_fen = sub64 b.fee_fen order.fee_fen;
      refund_fen = if chargeback then b.refund_fen else add64 b.refund_fen order.amount_fen;
      chargeback_fen =
          if chargeback then add64 b.chargeback_fen order.amount_fen else b.chargeback_fen;
      coin_shortfall = if chargeback then add64 b.coin_shortfall shortfall else b.coin_shortfall;
    }

abbrev pub as_reversed : Bool → ℤ → PayOrder → PayOrder
as_reversed chargeback t o = record o {
  status = reversed_status chargeback;
  settle_status = reversed_settle chargeback;
  refunded_at = some t;
}

abbrev pub with_fee : ℤ → ℤ → PayOrder → PayOrder
with_fee fee net o = record o { fee_fen = fee; net_fen = net; settle_status = SettleStatus.pending }

abbrev pub is_pending : ℕ → PayOrder → Bool
is_pending id o = (o.id == id) && settle_eq o.settle_status SettleStatus.pending

abbrev pub as_settled : ℤ → PayOrder → PayOrder
as_settled t o = record o { settle_status = SettleStatus.settled; settle_at = some t }

abbrev pub fiat_row : BizType → String → FiatAccount → Direction → ℤ → FiatJournal
fiat_row biz number account direction amount = record {
  account = account;
  direction = direction;
  amount_fen = amount;
  biz_type = biz;
  biz_no = number;
}

module _ (env : Env) where
  unfoldable pub post_fiat : BizType → String → FiatAccount → Direction → ℤ → Action ⊤
  post_fiat biz number account direction amount =
      if eqb_ℤ amount (pos 0)
      then pure tt
      else (let row = fiat_row biz number account direction amount in
          ignore_dup (execute_unique env (fiat_taken row) (add_fiat row)))

  unfoldable pub create_book_if_missing : Option PlatformBook → Action PlatformBook
  create_book_if_missing (some book) = pure book
  create_book_if_missing none = do
    ignore_dup (execute_unique env book_taken (put_book empty_book))
    again ← query env find_book
    or_raise again record_not_found

  unfoldable pub lock_book : Action PlatformBook
  unfolding create_book_if_missing
  lock_book = do found ← query env find_book; create_book_if_missing found

  unfoldable pub save_book : PlatformBook → Action ⊤
  save_book book = execute env (put_book book)

  unfoldable pub post_pay_fiat : PayOrder → Action ⊤
  post_pay_fiat order = do
    let split = split_fee order.amount_fen
    let fee = split.0
    let net = split.1
    execute env (update_orders (has_id order.id) (with_fee fee net))
    post_fiat recharge order.order_no channel_receivable debit net
    post_fiat recharge order.order_no channel_fee debit fee
    post_fiat recharge order.order_no user_prepay credit order.amount_fen
    book ← lock_book
    save_book
        (record book { pending_fen = add64 book.pending_fen net; fee_fen = add64 book.fee_fen fee })

  unfoldable pub settle_order : PayOrder → Action ⊤
  settle_order order = do
    t ← now env
    execute env (update_orders (is_pending order.id) (as_settled t))
    post_fiat settle order.order_no merchant_bank debit order.net_fen
    post_fiat settle order.order_no channel_receivable credit order.net_fen
    book ← lock_book
    save_book (record book {
      pending_fen = sub64 book.pending_fen order.net_fen;
      settled_fen = add64 book.settled_fen order.net_fen;
    })

  -- `settleOne`
  unfoldable pub settle_one : String → Action ⊤
  settle_one number = transaction env (do
    found ← query env (find_order number)
    order ← or_raise found record_not_found
    if not (status_eq order.status Status.paid)
          || not (settle_eq order.settle_status SettleStatus.pending)
        then pure tt
        else settle_order order)

  -- The fiat entries of a reversal: out of the bank where the payment was settled, then the payment's
  -- own entries the other way round.
  unfoldable pub post_reverse_fiat : BizType → PayOrder → Action ⊤
  post_reverse_fiat biz order = do
    if settle_eq order.settle_status SettleStatus.settled
        then (do
          post_fiat biz order.order_no channel_receivable debit order.net_fen
          post_fiat biz order.order_no merchant_bank credit order.net_fen)
        else pure tt
    post_fiat biz order.order_no user_prepay debit order.amount_fen
    post_fiat biz order.order_no channel_receivable credit order.net_fen
    post_fiat biz order.order_no channel_fee credit order.fee_fen

  unfoldable pub reverse : ℕ → String → Bool → Action PayOrder
  reverse account number chargeback = transaction env (do
    found ← query env (find_own_order number account)
    order ← or_raise found order_not_found
    raise_if (not (is_refundable order)) refund_not_allowed
    wallet ← lock_wallet env account
    raise_if (ltb_ℤ wallet.coin_available order.coins && not chargeback) insufficient_coin
    let clawed = claw_back order.coins wallet.coin_available
    let claw = clawed.0
    let shortfall = clawed.1
    let left = sub64 wallet.coin_available claw
    execute env (set_coin account left)
    let entry = claw_entry chargeback order account claw left
    if ltb_ℤ (pos 0) claw then execute_unique env (entry_taken entry) (add_entry entry) else pure tt
    post_reverse_fiat (reverse_biz chargeback) order
    book ← lock_book
    save_book (reversed_book chargeback order shortfall book)
    t ← now env
    execute env (update_orders (has_id order.id) (as_reversed chargeback t))
    pure (as_reversed chargeback t order))
