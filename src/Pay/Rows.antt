-- ===== src/Pay/Rows.antt =====
-- The statements of the payment methods: which rows a condition selects, what an `UPDATE` sets, and
-- which keys the unique indices of entity.go refuse. The newest row of a table stands first.
use feedsystem_video_go_medi.Prelude.{
  ℕ, suc, ℤ, pos, ◌+ℤ◌, Bool, true, false, not, ◌&&◌, Option, none, some, ◌∷◌, String, str_eq, ◌==◌,
  find, any, update_where,
}
use feedsystem_video_go_medi.Pay.Entity.{
  Status, Wallet, LedgerEntry, PayOrder, PayCallbackLog, PlatformBook, FiatJournal, status_eq,
  direction_code, biz_code, fiat_account_code,
}
use feedsystem_video_go_medi.Store.{Db}

-- `WHERE order_no = ?`
abbrev pub has_no : String → PayOrder → Bool
has_no number o = str_eq o.order_no number

-- `WHERE id = ?`
abbrev pub has_id : ℕ → PayOrder → Bool
has_id id o = o.id == id

-- `WHERE id = ? AND status = ?`
abbrev pub has_id_status : ℕ → Status → PayOrder → Bool
has_id_status id s o = (o.id == id) && status_eq o.status s

unfoldable pub find_order : String → Db → Option PayOrder
find_order number d = find (has_no number) d.orders

-- `WHERE order_no = ? AND account_id = ?`
unfoldable pub find_own_order : String → ℕ → Db → Option PayOrder
find_own_order number account d = find (λ o. has_no number o && (o.account_id == account)) d.orders

unfoldable pub update_orders : (PayOrder → Bool) → (PayOrder → PayOrder) → Db → Db
update_orders p f d = record d { orders = update_where p f d.orders }

abbrev pub holds_trade : String → Option String → Bool
holds_trade trade none = false
holds_trade trade (some t) = str_eq t trade

-- The unique index on `channel_trade_no`: another order has the trade number.
unfoldable pub trade_taken : String → ℕ → Db → Bool
trade_taken trade id d =
    any (λ o. not (o.id == id) && holds_trade trade o.channel_trade_no) d.orders

abbrev pub owned_by : ℕ → Wallet → Bool
owned_by account w = w.account_id == account

unfoldable pub find_wallet : ℕ → Db → Option Wallet
find_wallet account d = find (owned_by account) d.wallets

abbrev pub empty_wallet : ℕ → Wallet
empty_wallet account = record {
  account_id = account;
  coin_available = pos 0;
  coin_frozen = pos 0;
  diamond_available = pos 0;
  diamond_frozen = pos 0;
  version = pos 0;
}

unfoldable pub wallet_taken : ℕ → Db → Bool
wallet_taken account d = any (owned_by account) d.wallets

unfoldable pub add_wallet : ℕ → Db → Db
add_wallet account d = record d { wallets = empty_wallet account ∷ d.wallets }

abbrev pub with_coin : ℤ → Wallet → Wallet
with_coin v w = record w { coin_available = v; version = w.version +ℤ pos 1 }

unfoldable pub set_coin : ℕ → ℤ → Db → Db
set_coin account v d = record d {
  wallets = update_where (owned_by account) (with_coin v) d.wallets;
}

abbrev pub with_diamond : ℤ → Wallet → Wallet
with_diamond v w = record w { diamond_available = v; version = w.version +ℤ pos 1 }

unfoldable pub set_diamond : ℕ → ℤ → Db → Db
set_diamond account v d = record d {
  wallets = update_where (owned_by account) (with_diamond v) d.wallets;
}

-- The unique index `uk_ledger_biz`.
abbrev pub same_ledger_key : LedgerEntry → LedgerEntry → Bool
same_ledger_key e x =
    (x.account_id == e.account_id)
    && (direction_code x.direction == direction_code e.direction)
    && (biz_code x.biz_type == biz_code e.biz_type)
    && str_eq x.biz_no e.biz_no

unfoldable pub entry_taken : LedgerEntry → Db → Bool
entry_taken e d = any (same_ledger_key e) d.ledger

-- The row takes its `id` from the auto-increment column.
unfoldable pub add_entry : LedgerEntry → Db → Db
add_entry e d = record d {
  ledger = record e { id = d.next_id } ∷ d.ledger;
  next_id = suc d.next_id;
}

-- The unique index `uk_fiat`.
abbrev pub same_fiat_key : FiatJournal → FiatJournal → Bool
same_fiat_key r x =
    (fiat_account_code x.account == fiat_account_code r.account)
    && (direction_code x.direction == direction_code r.direction)
    && (biz_code x.biz_type == biz_code r.biz_type)
    && str_eq x.biz_no r.biz_no

unfoldable pub fiat_taken : FiatJournal → Db → Bool
fiat_taken r d = any (same_fiat_key r) d.journal

unfoldable pub add_fiat : FiatJournal → Db → Db
add_fiat r d = record d { journal = r ∷ d.journal }

-- The unique index `uk_pay_callback`.
unfoldable pub callback_taken : PayCallbackLog → Db → Bool
callback_taken r d =
    any (λ x. str_eq x.channel r.channel && str_eq x.channel_trade_no r.channel_trade_no)
      d.callbacks

unfoldable pub add_callback : PayCallbackLog → Db → Db
add_callback r d = record d { callbacks = r ∷ d.callbacks }

abbrev pub empty_book : PlatformBook
empty_book = record {
  pending_fen = pos 0;
  settled_fen = pos 0;
  fee_fen = pos 0;
  refund_fen = pos 0;
  chargeback_fen = pos 0;
  coin_shortfall = pos 0;
  creator_payout_fen = pos 0;
}

abbrev pub find_book : Db → Option PlatformBook
find_book d = d.book

abbrev pub is_some {ℓ} : {A : Type ℓ} → Option A → Bool
is_some none = false
is_some (some _) = true

abbrev pub book_taken : Db → Bool
book_taken d = is_some d.book

unfoldable pub put_book : PlatformBook → Db → Db
put_book b d = record d { book = some b }
