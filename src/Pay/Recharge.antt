-- ===== src/Pay/Recharge.antt =====
-- Recharge orders and the reading methods of backend/internal/pay/service.go: `EnsurePackages`,
-- `findPackage`, `CreateRecharge`, `orderOf`, `QueryRecharge`, `compensateFromGateway`, `MockConfirm`
-- and `Ledger`.
pub mod Outcome
use feedsystem_video_go_medi.Prelude.{
  ℕ, suc, ℤ, pos, ◌+◌, ◌+ℤ◌, add64, leb_ℤ, ltb_ℤ, eqb_ℤ, ltb, Bool, true, false, not, ◌&&◌, ◌||◌,
  Option, none, some, List, [], ◌∷◌, String, str_append, str_eq, str_len, if◌then◌else◌, ◌==◌, find,
  any, filter,
}
use feedsystem_video_go_medi.Pay.Entity.{Status, SettleStatus, CoinPackage, PayOrder, status_eq}
use feedsystem_video_go_medi.Store.{
  Db, Env, Error, Result, Action, ⊤, ok, err, pure, raise, or_raise, raise_if, now, query,
  execute_unique, insert_unique, attempt, ignore_dup, ◌>>=◌, ◌>>◌, is_dup_key, package_not_found,
  idempotency_key, idempotency_clash, order_not_found, record_not_found, message,
}
use feedsystem_video_go_medi.Pay.Rows.{has_no, find_own_order}
use feedsystem_video_go_medi.Pay.Gateway.{known_channel, new_order_no}

-- Fifteen minutes, in nanoseconds.
abbrev pub order_ttl : ℤ
order_ttl = pos 900000000000

pub record CreateRechargeRequest : Type 0 where
  pub package_code : String
  pub package_id : ℕ
  pub channel : String
  pub idempotency_key : String

abbrev pub default_package : String → String → ℤ → ℤ → ℤ → ℤ → CoinPackage
default_package code title coins bonus price sort = record {
  id = 0;
  code = code;
  title = title;
  coins = coins;
  bonus_coins = bonus;
  price_fen = price;
  currency = "CNY";
  status = "active";
  sort = sort;
}

abbrev pub default_packages : List CoinPackage
default_packages =
    default_package "coins_70" "70 金币" (pos 70) (pos 0) (pos 700) (pos 1)
    ∷ default_package "coins_350" "350 金币" (pos 350) (pos 15) (pos 3500) (pos 2)
    ∷ default_package "coins_700" "700 金币" (pos 700) (pos 50) (pos 7000) (pos 3)
    ∷ []

abbrev pub has_package_code : String → CoinPackage → Bool
has_package_code code p = str_eq p.code code

unfoldable pub package_taken : String → Db → Bool
package_taken code d = any (has_package_code code) d.packages

unfoldable pub add_package : CoinPackage → Db → Db
add_package p d = record d {
  packages = record p { id = d.next_id } ∷ d.packages;
  next_id = suc d.next_id;
}

abbrev pub is_active : CoinPackage → Bool
is_active p = str_eq p.status "active"

-- Which package the request names, if it names one.
abbrev pub wanted : CreateRechargeRequest → CoinPackage → Bool
wanted req p =
    is_active p
    && (if ltb 0 req.package_id
        then p.id == req.package_id
        else has_package_code req.package_code p)

-- The request names no package.
abbrev pub is_unnamed : CreateRechargeRequest → Bool
is_unnamed req = not (ltb 0 req.package_id) && str_eq req.package_code ""

abbrev pub is_ill_priced : CoinPackage → Bool
is_ill_priced p = leb_ℤ p.price_fen (pos 0) || ltb_ℤ p.coins (pos 0) || ltb_ℤ p.bonus_coins (pos 0)

-- `WHERE account_id = ? AND idempotency_key = ?`
abbrev pub has_key : ℕ → String → PayOrder → Bool
has_key account key o = (o.account_id == account) && str_eq o.idempotency_key key

unfoldable pub find_keyed : ℕ → String → Db → Option PayOrder
find_keyed account key d = find (has_key account key) d.orders

-- The unique indices on `order_no` and `uk_pay_idem`.
unfoldable pub order_taken : PayOrder → Db → Bool
order_taken o d =
    any (λ x. has_no o.order_no x || has_key o.account_id o.idempotency_key x) d.orders

unfoldable pub add_order : PayOrder → Db → PayOrder × Db
add_order o d =
    let row = record o { id = d.next_id } in
    (row, record d { orders = row ∷ d.orders; next_id = suc d.next_id })

abbrev pub new_order : String → ℕ → String → String → CoinPackage → ℤ → PayOrder
new_order number account key channel p now = record {
  id = 0;
  order_no = number;
  account_id = account;
  idempotency_key = key;
  package_code = p.code;
  coins = add64 p.coins p.bonus_coins;
  amount_fen = p.price_fen;
  currency = p.currency;
  channel = channel;
  status = Status.paying;
  channel_trade_no = none;
  paid_after_close = false;
  fee_fen = pos 0;
  net_fen = pos 0;
  settle_status = SettleStatus.no_settle;
  settle_at = none;
  expire_at = now +ℤ order_ttl;
  paid_at = none;
  refunded_at = none;
}

abbrev pub is_bad_key : String → Bool
is_bad_key key = str_eq key "" || ltb 64 (str_len key)

-- The channel of an order that names none.
abbrev pub channel_or_mock : String → String
channel_or_mock channel = if str_eq channel "" then "mock" else channel

abbrev pub is_other_purchase : CoinPackage → PayOrder → Bool
is_other_purchase p o = not (str_eq o.package_code p.code) || not (eqb_ℤ o.amount_fen p.price_fen)

-- An order that was made before with the same key: it is returned unless it is another purchase.
unfoldable pub same_purchase : CoinPackage → PayOrder → Action PayOrder
same_purchase p existing = do
  raise_if (is_other_purchase p existing) idempotency_clash
  pure existing

module _ (env : Env) where
  unfoldable pub ensure_package : CoinPackage → Option CoinPackage → Action ⊤
  ensure_package item (some _) = pure tt
  ensure_package item none =
      ignore_dup (execute_unique env (package_taken item.code) (add_package item))

  unfoldable pub ensure_each : List CoinPackage → Action ⊤
  unfolding ensure_package
  ensure_each [] = pure tt
  ensure_each (item ∷ items) = do
    existing ← query env (λ d. find (has_package_code item.code) d.packages)
    ensure_package item existing
    ensure_each items

  unfoldable pub ensure_packages : Action ⊤
  unfolding ensure_each
  ensure_packages = ensure_each default_packages

  unfoldable pub find_package : CreateRechargeRequest → Action CoinPackage
  find_package req = do
    raise_if (is_unnamed req) package_not_found
    found ← query env (λ d. find (wanted req) d.packages)
    p ← or_raise found package_not_found
    raise_if (is_ill_priced p) package_not_found
    pure p

  -- What becomes of the `INSERT`: where a key is in use, the order that has this key is looked for.
  unfoldable pub created_or_existing : ℕ → String → CoinPackage → Result PayOrder → Action PayOrder
  created_or_existing account key p (ok order) = pure order
  created_or_existing account key p (err e) =
      if is_dup_key e
      then (do
        found ← query env (find_keyed account key)
        existing ← or_raise found record_not_found
        same_purchase p existing)
      else raise e

  unfoldable pub insert_order : ℕ → String → String → CoinPackage → Action PayOrder
  insert_order account key channel p = do
    t ← now env
    number ← new_order_no env t
    let order = new_order number account key channel p t
    created ← attempt (insert_unique env (order_taken order) (add_order order))
    created_or_existing account key p created

  unfoldable pub order_once : ℕ → String → String → CoinPackage → Option PayOrder → Action PayOrder
  order_once account key channel p (some existing) = same_purchase p existing
  order_once account key channel p none = insert_order account key channel p

  -- `trim` is Go's `strings.TrimSpace`.
  unfoldable pub create_recharge : (String → String) → ℕ → CreateRechargeRequest → Action PayOrder
  unfolding order_once
  create_recharge trim account req = do
    raise_if (account == 0) (message "account_id is required")
    let key = trim req.idempotency_key
    raise_if (is_bad_key key) idempotency_key
    let channel = channel_or_mock req.channel
    raise_if (not (known_channel channel)) Error.channel
    p ← find_package req
    existing ← query env (find_keyed account key)
    order_once account key channel p existing

  unfoldable pub order_of : ℕ → String → Action PayOrder
  order_of account number = do
    raise_if (str_eq number "") order_not_found
    found ← query env (find_own_order number account)
    or_raise found order_not_found
