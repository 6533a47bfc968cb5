-- ===== src/Pay/Gift.antt =====
-- Gifts: `SendGift`, `EnsureGifts`, `ListGifts` and `GiftStat` of backend/internal/pay/gift.go.
pub mod Outcome
pub mod Ledger
pub mod Once
use feedsystem_video_go_medi.Prelude.{
  ℕ, suc, ℤ, pos, ◌+ℤ◌, add64, sub64, mul64, div64, leb_ℤ, ltb_ℤ, Bool, true, false, ◌&&◌, ◌||◌,
  Option, none, some, List, [], ◌∷◌, String, str_eq, str_append, if◌then◌else◌, ◌==◌, find, any,
  filter, update_where,
}
use feedsystem_video_go_medi.Pay.Entity.{
  credit, debit, gift_send, gift_receive, coin, diamond, Wallet, LedgerEntry, GiftCatalog,
  GiftOrder, VideoGiftStat,
}
use feedsystem_video_go_medi.Video.Entity.{Video}
use feedsystem_video_go_medi.Store.{
  Db, Env, Error, Action, ⊤, Result, ok, err, pure, raise, or_raise, raise_if, now, query, execute,
  execute_unique, insert_unique, ignore_dup, attempt, contact, new_token, transaction,
  idempotency_key, package_not_found, order_not_found, self_gift, insufficient_coin, ◌>>=◌, ◌>>◌,
}
use feedsystem_video_go_medi.Pay.Rows.{set_coin, set_diamond, entry_taken, add_entry}
use feedsystem_video_go_medi.Pay.Wallet.{wallet, lock_pair}
use feedsystem_video_go_medi.Pay.Gateway.{new_order_no}

abbrev pub creator_share_bps : ℤ
creator_share_bps = pos 5000

abbrev pub max_gift_count : ℤ
max_gift_count = pos 99

pub record SendGiftRequest : Type 0 where
  pub video_id : ℕ
  pub gift_code : String
  pub count : ℤ
  pub idempotency_key : String

-- What a gift moves, once it has been looked up and priced.
pub record Gift : Type 0 where
  pub gift_no : String
  pub sender_id : ℕ
  pub idempotency_key : String
  pub receiver_id : ℕ
  pub video_id : ℕ
  pub gift_code : String
  pub count : ℤ
  pub cost : ℤ
  pub diamonds : ℤ
  pub weight : ℤ

abbrev pub has_gift_key : ℕ → String → GiftOrder → Bool
has_gift_key sender key g = (g.sender_id == sender) && str_eq g.idempotency_key key

unfoldable pub find_gift_order : ℕ → String → Db → Option GiftOrder
find_gift_order sender key d = find (has_gift_key sender key) d.gift_orders

-- `WHERE code = ? AND status = 'active'`
unfoldable pub find_gift : String → Db → Option GiftCatalog
find_gift code d = find (λ g. str_eq g.code code && str_eq g.status "active") d.gifts

abbrev pub has_video_id : ℕ → Video → Bool
has_video_id id v = v.id == id

unfoldable pub find_video : ℕ → Db → Option Video
find_video id d = find (has_video_id id) d.videos

-- The unique indices on `gift_no` and `uk_gift_idem`.
unfoldable pub gift_taken : GiftOrder → Db → Bool
gift_taken g d =
    any (λ x. str_eq x.gift_no g.gift_no || has_gift_key g.sender_id g.idempotency_key x)
      d.gift_orders

unfoldable pub add_gift_order : GiftOrder → Db → GiftOrder × Db
add_gift_order g d =
    let row = record g { id = d.next_id } in
    (row, record d { gift_orders = row ∷ d.gift_orders; next_id = suc d.next_id })

abbrev pub is_stat_of : ℕ → VideoGiftStat → Bool
is_stat_of video s = s.video_id == video

abbrev pub counted : ℤ → ℤ → VideoGiftStat → VideoGiftStat
counted count cost s = record s {
  gift_count = s.gift_count +ℤ count;
  gift_coins = s.gift_coins +ℤ cost;
}

-- `INSERT … ON CONFLICT (video_id) DO UPDATE`
unfoldable pub count_gift : ℕ → ℤ → ℤ → Db → Db
count_gift video count cost d = record d {
  gift_stats =
      if any (is_stat_of video) d.gift_stats
      then update_where (is_stat_of video) (counted count cost) d.gift_stats
      else record { video_id = video; gift_count = count; gift_coins = cost } ∷ d.gift_stats;
}

abbrev pub more_popular : ℤ → Video → Video
more_popular change v = record v { popularity = v.popularity +ℤ change }

unfoldable pub raise_popularity : ℕ → ℤ → Db → Db
raise_popularity video change d = record d {
  videos = update_where (has_video_id video) (more_popular change) d.videos;
}

abbrev pub send_entry : Gift → ℤ → LedgerEntry
send_entry g left = record {
  id = 0;
  account_id = g.sender_id;
  currency = coin;
  direction = debit;
  amount = g.cost;
  balance_after = left;
  biz_type = gift_send;
  biz_no = g.gift_no;
  idempotency_key = g.idempotency_key;
}

abbrev pub receive_entry : Gift → ℤ → LedgerEntry
receive_entry g earned = record {
  id = 0;
  account_id = g.receiver_id;
  currency = diamond;
  direction = credit;
  amount = g.diamonds;
  balance_after = earned;
  biz_type = gift_receive;
  biz_no = g.gift_no;
  idempotency_key = g.idempotency_key;
}

abbrev pub gift_order : Gift → GiftOrder
gift_order g = record {
  id = 0;
  gift_no = g.gift_no;
  sender_id = g.sender_id;
  idempotency_key = g.idempotency_key;
  receiver_id = g.receiver_id;
  video_id = g.video_id;
  gift_code = g.gift_code;
  count = g.count;
  coin_cost = g.cost;
  diamond_credit = g.diamonds;
}

abbrev pub default_gift : String → String → ℤ → ℤ → ℤ → GiftCatalog
default_gift code name price weight sort = record {
  id = 0;
  code = code;
  name = name;
  coin_price = price;
  popularity_weight = weight;
  status = "active";
  sort = sort;
}

abbrev pub default_gifts : List GiftCatalog
default_gifts =
    default_gift "rose" "玫瑰" (pos 2) (pos 2) (pos 1)
    ∷ default_gift "bear" "小熊" (pos 10) (pos 10) (pos 2)
    ∷ default_gift "car" "跑车" (pos 100) (pos 80) (pos 3)
    ∷ default_gift "castle" "城堡" (pos 500) (pos 300) (pos 4)
    ∷ []

abbrev pub has_gift_code : String → GiftCatalog → Bool
has_gift_code code g = str_eq g.code code

unfoldable pub gift_code_taken : String → Db → Bool
gift_code_taken code d = any (has_gift_code code) d.gifts

unfoldable pub add_gift : GiftCatalog → Db → Db
add_gift g d = record d { gifts = record g { id = d.next_id } ∷ d.gifts; next_id = suc d.next_id }

-- A row that was read without an error, or the error that stands for both.
abbrev pub found_or : {A : Type 0} → Error → Result (Option A) → Action A
found_or e (ok (some a)) = pure a
found_or e (ok none) = raise e
found_or e (err _) = raise e

abbrev pub stat_or_empty : ℕ → Option VideoGiftStat → VideoGiftStat
stat_or_empty video none = record { video_id = video; gift_count = pos 0; gift_coins = pos 0 }
stat_or_empty _ (some s) = s

-- A count that is not positive stands for 1.
abbrev pub counted_from : ℤ → ℤ
counted_from count = if leb_ℤ count (pos 0) then pos 1 else count

-- What a gift costs, earns its receiver, and adds to the video's popularity.
unfoldable pub priced : ℕ → SendGiftRequest → ℤ → GiftCatalog → Video → String → Gift
priced sender req count gift video number =
    let cost = mul64 gift.coin_price count in
    record {
      gift_no = str_append "G" number;
      sender_id = sender;
      idempotency_key = req.idempotency_key;
      receiver_id = video.author_id;
      video_id = req.video_id;
      gift_code = gift.code;
      count = count;
      cost = cost;
      diamonds = div64 (mul64 cost creator_share_bps) 10000;
      weight = mul64 gift.popularity_weight count;
    }

module _ (env : Env) where
  -- The transaction of `SendGift`.
  unfoldable pub transfer : Gift → Action GiftOrder
  transfer g = transaction env (do
    pair ← lock_pair env g.sender_id g.receiver_id
    let sender = pair.0
    let receiver = pair.1
    raise_if (ltb_ℤ sender.coin_available g.cost) insufficient_coin
    let left = sub64 sender.coin_available g.cost
    let earned = add64 receiver.diamond_available g.diamonds
    execute env (set_coin g.sender_id left)
    execute env (set_diamond g.receiver_id earned)
    execute_unique env (entry_taken (send_entry g left)) (add_entry (send_entry g left))
    if ltb_ℤ (pos 0) g.diamonds
        then execute_unique env (entry_taken (receive_entry g earned))
            (add_entry (receive_entry g earned))
        else pure tt
    created ← insert_unique env (gift_taken (gift_order g)) (add_gift_order (gift_order g))
    execute env (count_gift g.video_id g.count g.cost)
    execute env (raise_popularity g.video_id g.weight)
    pure created)

  -- A gift that was not sent before. The service may have a publisher of popularity, whose answer it
  -- ignores.
  unfoldable pub send_new_gift : Bool → ℕ → SendGiftRequest → ℤ → Action (GiftOrder × Wallet)
  send_new_gift has_publisher sender req count = do
    gift_read ← attempt (query env (find_gift req.gift_code))
    gift ← found_or package_not_found gift_read
    video_read ← attempt (query env (find_video req.video_id))
    video ← found_or order_not_found video_read
    raise_if (video.author_id == sender) self_gift
    t ← now env
    number ← new_order_no env t
    let g = priced sender req count gift video number
    created ← transfer g
    if has_publisher && ltb_ℤ (pos 0) g.weight then contact else pure tt
    left ← wallet env sender
    pure (created, left)

  -- A gift with this key was sent before, or not.
  unfoldable pub send_once :
      Bool → ℕ → SendGiftRequest → ℤ → Option GiftOrder → Action (GiftOrder × Wallet)
  send_once has_publisher sender req count (some existing) = do
    left ← wallet env sender
    pure (existing, left)
  send_once has_publisher sender req count none = send_new_gift has_publisher sender req count

  unfoldable pub send_gift : Bool → ℕ → SendGiftRequest → Action (GiftOrder × Wallet)
  unfolding send_once
  send_gift has_publisher sender req = do
    let count = counted_from req.count
    raise_if
        (ltb_ℤ max_gift_count count
          || (req.video_id == 0)
          || str_eq req.gift_code ""
          || str_eq req.idempotency_key "")
        idempotency_key
    existing ← query env (find_gift_order sender req.idempotency_key)
    send_once has_publisher sender req count existing

  unfoldable pub ensure_gift : GiftCatalog → Option GiftCatalog → Action ⊤
  ensure_gift item (some _) = pure tt
  ensure_gift item none =
      ignore_dup (execute_unique env (gift_code_taken item.code) (add_gift item))

  unfoldable pub ensure_all : List GiftCatalog → Action ⊤
  unfolding ensure_gift
  ensure_all [] = pure tt
  ensure_all (item ∷ items) = do
    existing ← query env (λ d. find (has_gift_code item.code) d.gifts)
    ensure_gift item existing
    ensure_all items

  unfoldable pub ensure_gifts : Action ⊤
  unfolding ensure_all
  ensure_gifts = ensure_all default_gifts

  unfoldable pub gift_stat : ℕ → Action VideoGiftStat
  gift_stat video = do
    found ← query env (λ d. find (is_stat_of video) d.gift_stats)
    pure (stat_or_empty video found)
