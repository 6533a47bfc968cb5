-- ===== src/Pay/Entity.antt =====
-- The rows of the payment tables: backend/internal/pay/entity.go, and those of gifts and withdrawals in
-- backend/internal/pay/gift.go. Columns that hold one of a fixed set of words are data
-- types. `int64` columns are integers, `uint` columns natural numbers, and times are integers, in
-- nanoseconds from the Unix epoch. The timestamps that the ORM sets by itself are left out, and so are
-- the surrogate keys that no statement reads.
use feedsystem_video_go_medi.Prelude.{ℕ, ℤ, Bool, String, Option, ◌==◌}

-- `StatusCreated` and the others, and the word "chargeback" that `reverse` writes.
pub data Status : Type 0 where
  created paying paid closed refunding refunded failed chargeback : Status

pub data SettleStatus : Type 0 where
  no_settle pending settled refunded chargeback : SettleStatus

pub data Currency : Type 0 where
  coin fen diamond : Currency

pub data Direction : Type 0 where
  credit debit : Direction

pub data BizType : Type 0 where
  recharge refund settle chargeback gift_send gift_receive withdraw : BizType

-- `acctReceivable` and the other accounts of the fiat journal.
pub data FiatAccount : Type 0 where
  channel_receivable channel_fee user_prepay merchant_bank : FiatAccount

abbrev pub status_code : Status → ℕ
status_code Status.created = 0
status_code Status.paying = 1
status_code Status.paid = 2
status_code Status.closed = 3
status_code Status.refunding = 4
status_code Status.refunded = 5
status_code Status.failed = 6
status_code Status.chargeback = 7

abbrev pub status_eq : Status → Status → Bool
status_eq a b = status_code a == status_code b

abbrev pub settle_code : SettleStatus → ℕ
settle_code SettleStatus.no_settle = 0
settle_code SettleStatus.pending = 1
settle_code SettleStatus.settled = 2
settle_code SettleStatus.refunded = 3
settle_code SettleStatus.chargeback = 4

abbrev pub settle_eq : SettleStatus → SettleStatus → Bool
settle_eq a b = settle_code a == settle_code b

abbrev pub currency_code : Currency → ℕ
currency_code coin = 0
currency_code fen = 1
currency_code diamond = 2

abbrev pub direction_code : Direction → ℕ
direction_code credit = 0
direction_code debit = 1

abbrev pub biz_code : BizType → ℕ
biz_code recharge = 0
biz_code refund = 1
biz_code settle = 2
biz_code BizType.chargeback = 3
biz_code gift_send = 4
biz_code gift_receive = 5
biz_code withdraw = 6

abbrev pub fiat_account_code : FiatAccount → ℕ
fiat_account_code channel_receivable = 0
fiat_account_code channel_fee = 1
fiat_account_code user_prepay = 2
fiat_account_code merchant_bank = 3

pub record Wallet : Type 0 where
  pub account_id : ℕ
  pub coin_available : ℤ
  pub coin_frozen : ℤ
  pub diamond_available : ℤ
  pub diamond_frozen : ℤ
  pub version : ℤ

pub record LedgerEntry : Type 0 where
  pub id : ℕ
  pub account_id : ℕ
  pub currency : Currency
  pub direction : Direction
  pub amount : ℤ
  pub balance_after : ℤ
  pub biz_type : BizType
  pub biz_no : String
  pub idempotency_key : String

pub record PayOrder : Type 0 where
  pub id : ℕ
  pub order_no : String
  pub account_id : ℕ
  pub idempotency_key : String
  pub package_code : String
  pub coins : ℤ
  pub amount_fen : ℤ
  pub currency : String
  pub channel : String
  pub status : Status
  pub channel_trade_no : Option String
  pub paid_after_close : Bool
  pub fee_fen : ℤ
  pub net_fen : ℤ
  pub settle_status : SettleStatus
  pub settle_at : Option ℤ
  pub expire_at : ℤ
  pub paid_at : Option ℤ
  pub refunded_at : Option ℤ

pub record PayCallbackLog : Type 0 where
  pub channel : String
  pub channel_trade_no : String
  pub order_no : String
  pub amount_fen : ℤ
  pub signature_ok : Bool
  pub processed : Bool

pub record PlatformBook : Type 0 where
  pub pending_fen : ℤ
  pub settled_fen : ℤ
  pub fee_fen : ℤ
  pub refund_fen : ℤ
  pub chargeback_fen : ℤ
  pub coin_shortfall : ℤ
  pub creator_payout_fen : ℤ

pub record FiatJournal : Type 0 where
  pub account : FiatAccount
  pub direction : Direction
  pub amount_fen : ℤ
  pub biz_type : BizType
  pub biz_no : String

pub record CallbackBody : Type 0 where
  pub order_no : String
  pub channel_trade_no : String
  pub amount_fen : ℤ
  pub paid : Bool
  pub timestamp : ℤ
  pub nonce : String

pub record CoinPackage : Type 0 where
  pub id : ℕ
  pub code : String
  pub title : String
  pub coins : ℤ
  pub bonus_coins : ℤ
  pub price_fen : ℤ
  pub currency : String
  pub status : String
  pub sort : ℤ

pub record GiftCatalog : Type 0 where
  pub id : ℕ
  pub code : String
  pub name : String
  pub coin_price : ℤ
  pub popularity_weight : ℤ
  pub status : String
  pub sort : ℤ

pub record GiftOrder : Type 0 where
  pub id : ℕ
  pub gift_no : String
  pub sender_id : ℕ
  pub idempotency_key : String
  pub receiver_id : ℕ
  pub video_id : ℕ
  pub gift_code : String
  pub count : ℤ
  pub coin_cost : ℤ
  pub diamond_credit : ℤ

pub record VideoGiftStat : Type 0 where
  pub video_id : ℕ
  pub gift_count : ℤ
  pub gift_coins : ℤ

-- The words that the status of a withdrawal takes.
pub data WithdrawStatus : Type 0 where
  reviewing paid failed : WithdrawStatus

abbrev pub withdraw_code : WithdrawStatus → ℕ
withdraw_code WithdrawStatus.reviewing = 0
withdraw_code WithdrawStatus.paid = 1
withdraw_code WithdrawStatus.failed = 2

pub record WithdrawOrder : Type 0 where
  pub id : ℕ
  pub withdraw_no : String
  pub account_id : ℕ
  pub diamonds : ℤ
  pub amount_fen : ℤ
  pub status : WithdrawStatus
  pub created_at : ℤ
  pub paid_at : Option ℤ
