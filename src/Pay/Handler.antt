-- ===== src/Pay/Handler.antt =====
-- The payment routes: backend/internal/pay/handler.go, with the queries that only these routes use.
pub mod Delivery
use feedsystem_video_go_medi.Prelude.{
  ℕ, ℤ, Option, none, some, Bool, List, String, ◌&&◌, str_eq, ◌==◌, ltb, ltb_ℤ, eqb_ℤ, ◌||◌, filter,
  take, order_by,
}
use feedsystem_video_go_medi.Pay.Entity.{
  Wallet, CoinPackage, PayOrder, PlatformBook, GiftCatalog, GiftOrder, VideoGiftStat, WithdrawOrder,
}
use feedsystem_video_go_medi.Store.{
  Db, World, Env, Error, package_not_found, idempotency_key, idempotency_clash, channel,
  order_not_found, order_expired, order_closed, bad_signature, amount_mismatch, trade_conflict,
  refund_not_allowed, insufficient_coin, self_gift, record_not_found, dup_key, connection, no_token,
  message, gateway_status, Action, Result, ok, err, pure, query, ◌>>=◌,
}
use feedsystem_video_go_medi.Pay.Rows.{find_book, empty_book}
use feedsystem_video_go_medi.Pay.Gateway.{Codec}
use feedsystem_video_go_medi.Pay.Values.{Texts, Addresses, checkout_url}
use feedsystem_video_go_medi.Pay.Wallet.{wallet}
use feedsystem_video_go_medi.Pay.Recharge.{CreateRechargeRequest, is_active, create_recharge}
use feedsystem_video_go_medi.Pay.Confirm.{
  TradeReport, LedgerResponse, query_recharge, mock_confirm, ledger,
}
use feedsystem_video_go_medi.Pay.Batch.{refund_order, chargeback_order}
use feedsystem_video_go_medi.Pay.Gift.{SendGiftRequest, gift_stat, send_gift}
use feedsystem_video_go_medi.Pay.Withdraw.{request_withdraw, list_withdraws}
use feedsystem_video_go_medi.Pay.Callback.{handle_callback, from_result}
use feedsystem_video_go_medi.Pay.Answer.{
  Response, Handler, package_list, recharge, order_only, wallet_only, ledger_entries,
  order_and_wallet, books, order_list, gift_list, stat_only, gift_and_wallet, withdraw_only,
  withdraw_list, accepted, pay_error, refused, done, internal_error, answer, with_account,
  with_request,
}

-- `sort ASC, id ASC`, and `sort ASC`
abbrev pub earlier_package : CoinPackage → CoinPackage → Bool
earlier_package a b = ltb_ℤ a.sort b.sort || (eqb_ℤ a.sort b.sort && ltb a.id b.id)

abbrev pub earlier_gift : GiftCatalog → GiftCatalog → Bool
earlier_gift a b = ltb_ℤ a.sort b.sort

abbrev pub later_order : PayOrder → PayOrder → Bool
later_order a b = ltb b.id a.id

abbrev pub book_or_empty : Option PlatformBook → PlatformBook
book_or_empty none = empty_book
book_or_empty (some book) = book

-- An order that has expired is no error of this route.
abbrev pub query_error : Error → Response
query_error order_expired = done (order_only none)
query_error e = pay_error e

module _ (env : Env) where
  unfoldable pub list_packages : Action (List CoinPackage)
  list_packages = query env (λ d. order_by earlier_package (filter is_active d.packages))

  unfoldable pub list_gifts : Action (List GiftCatalog)
  list_gifts =
      query env (λ d. order_by earlier_gift (filter (λ g. str_eq g.status "active") d.gifts))

  unfoldable pub get_books : Action PlatformBook
  get_books = do found ← query env find_book; pure (book_or_empty found)

  unfoldable pub list_orders : ℕ → Action (List PayOrder)
  list_orders account =
      query env
        (λ d. take 20 (order_by later_order (filter (λ o. o.account_id == account) d.orders)))

  abbrev pub get_packages : Handler
  get_packages = answer package_list internal_error list_packages

  abbrev pub get_gifts : Handler
  get_gifts = answer gift_list internal_error list_gifts

  -- `settle_after` is in seconds.
  abbrev pub get_platform_books : ℤ → Handler
  get_platform_books settle_after =
      answer (λ book. books book settle_after) internal_error get_books

  abbrev pub get_wallet : Result ℕ → Handler
  get_wallet caller =
      with_account caller λ account. answer wallet_only internal_error (wallet env account)

  abbrev pub get_orders : Result ℕ → Handler
  get_orders caller =
      with_account caller λ account. answer order_list internal_error (list_orders account)

  abbrev pub get_withdraws : Result ℕ → Handler
  get_withdraws caller =
      with_account caller
        λ account. answer withdraw_list internal_error (list_withdraws env account)

  -- The request has the id to start before, and the limit.
  abbrev pub post_ledger : Result ℕ → Result (ℕ × ℤ) → Handler
  post_ledger caller request = with_account caller λ account.
      with_request request
        λ req. answer ledger_entries internal_error (ledger env account req.0 req.1)

  abbrev pub post_gift_stat : Result ℕ → Handler
  post_gift_stat request =
      with_request request λ video. answer stat_only internal_error (gift_stat env video)

  abbrev pub post_gift : Bool → Result ℕ → Result SendGiftRequest → Handler
  post_gift has_publisher caller request = with_account caller λ account.
      with_request request λ req.
        answer (λ sent. gift_and_wallet sent.0 sent.1) pay_error
          (send_gift env has_publisher account req)

  abbrev pub post_withdraw : Result ℕ → Result ℤ → Handler
  post_withdraw caller request = with_account caller λ account.
      with_request request
        λ diamonds. answer withdraw_only pay_error (request_withdraw env account diamonds)

  abbrev pub order_action : (ℕ → String → Action PayOrder) → Result ℕ → Result String → Handler
  order_action act caller request = with_account caller λ account.
      with_request request
        λ number. answer (λ order. order_only (some order)) pay_error (act account number)

  abbrev pub post_refund : Result ℕ → Result String → Handler
  post_refund caller request = order_action (refund_order env) caller request

  abbrev pub post_chargeback : Result ℕ → Result String → Handler
  post_chargeback caller request = order_action (chargeback_order env) caller request

module _ (env : Env) (c : Codec) (secret : String) where
  -- The order, and the address of its checkout.
  abbrev pub created_with_url :
      Texts → Addresses → (String → String) → ℕ → CreateRechargeRequest → Action (PayOrder × String)
  created_with_url x a trim account req = do
    order ← create_recharge env trim account req
    url ← from_result (checkout_url c x a secret (some order))
    pure (order, url)

  abbrev pub post_recharge :
      Texts → Addresses → (String → String) → Result ℕ → Result CreateRechargeRequest → Handler
  post_recharge x a trim caller request = with_account caller λ account. with_request request λ req.
      answer (λ made. recharge made.0 made.1) pay_error (created_with_url x a trim account req)

  abbrev pub post_query : (String → Option TradeReport) → Result ℕ → Result String → Handler
  post_query decode caller request = with_account caller λ account. with_request request λ number.
      answer (λ order. order_only (some order)) query_error
        (query_recharge env c secret decode account number)

  abbrev pub post_mock_confirm : Result ℕ → Result String → Handler
  post_mock_confirm caller request = with_account caller λ account. with_request request λ number.
      answer (λ paid. order_and_wallet paid.0 paid.1) pay_error
        (mock_confirm env c secret account number)

  unfoldable pub post_callback : String → Result String → String → Handler
  post_callback route (ok body) signature =
      answer (λ _. accepted) pay_error (handle_callback env c secret route body signature)
  post_callback route (err _) signature = λ w. (refused 400 (message "read body failed"), w)
