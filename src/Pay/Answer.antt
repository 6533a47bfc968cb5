-- ===== src/Pay/Answer.antt =====
-- Answers of the payment routes: `writePayError` and the common parts of the routes of
-- backend/internal/pay/handler.go, and `GetAccountID` of backend/internal/middleware/jwt. A request that the
-- JSON binding refuses is an error of that library.
use feedsystem_video_go_medi.Prelude.{ℕ, ℤ, Option, none, some, List, String}
use feedsystem_video_go_medi.Pay.Entity.{
  Wallet, CoinPackage, PayOrder, PlatformBook, GiftCatalog, GiftOrder, VideoGiftStat, WithdrawOrder,
}
use feedsystem_video_go_medi.Store.{
  World, Error, package_not_found, idempotency_key, idempotency_clash, channel, order_not_found,
  order_expired, order_closed, bad_signature, amount_mismatch, trade_conflict, refund_not_allowed,
  insufficient_coin, self_gift, record_not_found, dup_key, connection, no_token, message,
  gateway_status, Action, Result, ok, err,
}
use feedsystem_video_go_medi.Pay.Confirm.{LedgerResponse}

-- The JSON of an answer.
pub data Body : Type 0 where
  failure : Error → Body
  package_list : List CoinPackage → Body
  recharge : PayOrder → String → Body
  order_only : Option PayOrder → Body
  wallet_only : Wallet → Body
  ledger_entries : LedgerResponse → Body
  order_and_wallet : PayOrder → Wallet → Body
  books : PlatformBook → ℤ → Body
  order_list : List PayOrder → Body
  gift_list : List GiftCatalog → Body
  stat_only : VideoGiftStat → Body
  gift_and_wallet : GiftOrder → Wallet → Body
  withdraw_only : WithdrawOrder → Body
  withdraw_list : List WithdrawOrder → Body
  accepted : Body

pub record Response : Type 0 where
  pub code : ℕ
  pub body : Body

abbrev pub Handler : Type 0
Handler = World → Response × World

-- `writePayError`
unfoldable pub pay_error_code : Error → ℕ
pay_error_code package_not_found = 400
pay_error_code idempotency_key = 400
pay_error_code channel = 400
pay_error_code order_expired = 400
pay_error_code order_closed = 400
pay_error_code amount_mismatch = 400
pay_error_code refund_not_allowed = 400
pay_error_code insufficient_coin = 400
pay_error_code self_gift = 400
pay_error_code order_not_found = 404
pay_error_code bad_signature = 401
pay_error_code idempotency_clash = 409
pay_error_code trade_conflict = 409
pay_error_code record_not_found = 500
pay_error_code dup_key = 500
pay_error_code connection = 500
pay_error_code no_token = 500
pay_error_code (message _) = 500
pay_error_code (gateway_status _) = 500

abbrev pub refused : ℕ → Error → Response
refused code e = record { code = code; body = failure e }

abbrev pub done : Body → Response
done body = record { code = 200; body = body }

abbrev pub internal_error : Error → Response
internal_error e = refused 500 e

abbrev pub pay_error : Error → Response
pay_error e = refused (pay_error_code e) e

-- The value under "accountID" in the request's context, if there is one, and its number, if it has the
-- right type.
abbrev pub get_account_id : Option (Option ℕ) → Result ℕ
get_account_id none = err (message "accountID not found")
get_account_id (some none) = err (message "accountID has invalid type")
get_account_id (some (some id)) = ok id

module _ {A : Type 0} (shown : A → Body) (on_error : Error → Response) where
  abbrev pub response : Result A → Response
  response (ok a) = done (shown a)
  response (err e) = on_error e

  -- A route answers with what the service returns.
  unfoldable pub answer : Action A → Handler
  answer m w = let (r, w') = m w in (response r, w')

abbrev pub with_account : Result ℕ → (ℕ → Handler) → Handler
with_account (ok account) h = h account
with_account (err e) h = λ w. (refused 401 e, w)

abbrev pub with_request : {R : Type 0} → Result R → (R → Handler) → Handler
with_request (ok req) h = h req
with_request (err e) h = λ w. (refused 400 e, w)
