-- ===== src/Pay/Steps.antt =====
-- What the shared steps of the payment methods leave behind, as functions of the tables, and the rule
-- that runs each step: `lockWallet`, `lockBook`, `postFiat` and `postPayFiat`.
pub mod Wallets
pub mod Pair
use feedsystem_video_go_medi.Prelude.{
  ℕ, ℤ, pos, add64, eqb_ℤ, ◌≡◌, refl, sym, ap, subst, Bool, true, false, Option, none, some, List,
  [], ◌∷◌, String, if◌then◌else◌, find, any, update_where, arith, Bool-cases, Option-cases, inl,
  inr, ==-refl,
}
use feedsystem_video_go_medi.Pay.Entity.{
  Wallet, PayOrder, PlatformBook, FiatJournal, BizType, FiatAccount, Direction, credit, debit,
  recharge, channel_receivable, channel_fee, user_prepay,
}
use feedsystem_video_go_medi.Store.{
  Db, Env, Action, Error, ⊤, ◌>>=◌, ◌>>◌, pure, query, or_raise, ignore_dup, execute,
  execute_unique,
}
use feedsystem_video_go_medi.Store.Ensures.{
  Ensures, Ensures-bind, Ensures-pure, Ensures-if, query-then, ignore_dup-then, chain-then,
  pure-then, if-then, some-then, or_raise-then, execute-then,
}
use feedsystem_video_go_medi.Pay.Rows.{
  owned_by, empty_wallet, find_wallet, wallet_taken, add_wallet, same_fiat_key, fiat_taken,
  add_fiat, empty_book, find_book, book_taken, put_book, is_some, update_orders, has_id,
}
use feedsystem_video_go_medi.Pay.LockWallet.{lock_wallet, create_if_missing}
use feedsystem_video_go_medi.Pay.Books.{
  post_fiat, lock_book, create_book_if_missing, save_book, post_pay_fiat, fiat_row, split_fee,
  with_fee,
}

abbrev or_else : {A : Type 0} → Option A → A → A
or_else none a = a
or_else (some x) _ = x

-- The wallet of an account, empty where it has no row.
unfoldable pub wallet_in : ℕ → List Wallet → Wallet
wallet_in account ws = or_else (find (owned_by account) ws) (empty_wallet account)

abbrev ensure_wallet : ℕ → List Wallet → Option Wallet → List Wallet
ensure_wallet account ws none = empty_wallet account ∷ ws
ensure_wallet account ws (some _) = ws

unfoldable pub locked_wallets : ℕ → List Wallet → List Wallet
locked_wallets account ws = ensure_wallet account ws (find (owned_by account) ws)

unfoldable pub book_in : Option PlatformBook → PlatformBook
book_in b = or_else b empty_book

-- The journal after `postFiat`: nothing is written for 0, or where the key is there already.
unfoldable pub posted : FiatJournal → List FiatJournal → List FiatJournal
posted r rows =
    if eqb_ℤ r.amount_fen (pos 0)
    then rows
    else if any (same_fiat_key r) rows
    then rows
    else r ∷ rows

unfoldable pub pay_book : PayOrder → PlatformBook → PlatformBook
pay_book order b = record b {
  pending_fen = add64 b.pending_fen (split_fee order.amount_fen).1;
  fee_fen = add64 b.fee_fen (split_fee order.amount_fen).0;
}

-- The three fiat entries of a payment.
unfoldable pub pay_journal : PayOrder → List FiatJournal → List FiatJournal
pay_journal order rows =
    posted (fiat_row recharge order.order_no user_prepay credit order.amount_fen) (
      posted (fiat_row recharge order.order_no channel_fee debit (split_fee order.amount_fen).0) (
        posted
          (fiat_row recharge order.order_no channel_receivable debit (split_fee order.amount_fen).1)
          rows))

unfoldable pub with_payment_posted : PayOrder → Db → Db
unfolding pay_book pay_journal
with_payment_posted order d = record d {
  orders =
      update_where (has_id order.id)
        (with_fee (split_fee order.amount_fen).0 (split_fee order.amount_fen).1) d.orders;
  journal = pay_journal order d.journal;
  book = some (pay_book order (book_in d.book));
}

any-of_find : {A : Type 0} (p : A → Bool) (xs : List A) → find p xs ≡ none → any p xs ≡ false
unfolding find any
any-of_find p [] h = refl
any-of_find p (x ∷ xs) h = ground (arith, any-of_find p xs)

module _ {env : Env} {B : Type 0} {Q : B → Db → Type 0} {E : Error → Type 0} {d : Db} where
  create_wallet-then :
      (account : ℕ) (found : Option Wallet) (f : Wallet → Action B)
      → found ≡ find (owned_by account) d.wallets
      → Ensures env
          (record d { wallets = ensure_wallet account d.wallets found })
          (f (or_else found (empty_wallet account)))
          Q
          E
      → Ensures env d (create_if_missing env account found >>= f) Q E
  unfolding create_if_missing wallet_taken add_wallet find_wallet find
  create_wallet-then account (some w) f e h = pure-then w f h
  create_wallet-then account none f e h =
      let free : any (owned_by account) d.wallets ≡ false = any-of_find _ _ (sym e) in
      chain-then _ _ f (
        ignore_dup-then (wallet_taken account) (add_wallet account) _ (λ dup. cc)
          (λ _.
            chain-then _ _ f
              (query-then (find_wallet account) _ (rw (==-refl account) (some-then _ _ f h)))))

  pub lock_wallet-then :
      (account : ℕ) (f : Wallet → Action B)
      → Ensures env
          (record d { wallets = locked_wallets account d.wallets })
          (f (wallet_in account d.wallets))
          Q
          E
      → Ensures env d (lock_wallet env account >>= f) Q E
  unfolding lock_wallet locked_wallets wallet_in find_wallet
  lock_wallet-then account f h =
      chain-then _ _ f (query-then (find_wallet account) _ (create_wallet-then account _ f refl h))

  create_book-then :
      (found : Option PlatformBook) (f : PlatformBook → Action B)
      → found ≡ d.book
      → Ensures env (record d { book = some (book_in found) }) (f (book_in found)) Q E
      → Ensures env d (create_book_if_missing env found >>= f) Q E
  unfolding create_book_if_missing book_in put_book
  create_book-then (some b) f e h =
      pure-then b f (subst (λ x. Ensures env (record d { book = x }) (f b) Q E) e h)
  create_book-then none f e h = chain-then _ _ f (
      ignore_dup-then book_taken (put_book empty_book) _ (λ dup. cc (ap is_some e))
        (λ _. chain-then _ _ f (query-then find_book _ (some-then _ _ f h))))

  pub lock_book-then :
      (f : PlatformBook → Action B)
      → Ensures env (record d { book = some (book_in d.book) }) (f (book_in d.book)) Q E
      → Ensures env d (lock_book env >>= f) Q E
  unfolding lock_book
  lock_book-then f h = chain-then _ _ f (query-then find_book _ (create_book-then _ f refl h))

  pub post_fiat-then :
      (biz : BizType) (number : String) (account : FiatAccount) (direction : Direction) (amount : ℤ)
      (f : ⊤ → Action B)
      → Ensures env
          (record d { journal = posted (fiat_row biz number account direction amount) d.journal })
          (f tt)
          Q
          E
      → Ensures env d (post_fiat env biz number account direction amount >>= f) Q E
  unfolding post_fiat posted fiat_taken add_fiat
  post_fiat-then biz number account direction amount f h =
      if-then (eqb_ℤ amount (pos 0)) _ _ f (λ zero_amount. pure-then tt f (rw zero_amount at h))
        (λ some_amount.
          let r = fiat_row biz number account direction amount in
          ignore_dup-then (fiat_taken r) (add_fiat r) f (λ dup. rw (some_amount, dup) at h)
            (λ fresh. rw (some_amount, fresh) at h))

module _ {env : Env} {B : Type 0} {Q : B → Db → Type 0} {E : Error → Type 0} {d : Db} where
  pub post_pay_fiat-then :
      (order : PayOrder) (f : ⊤ → Action B)
      → Ensures env (with_payment_posted order d) (f tt) Q E
      → Ensures env d (post_pay_fiat env order >>= f) Q E
  unfolding post_pay_fiat with_payment_posted pay_book update_orders save_book put_book
  post_pay_fiat-then order f h = chain-then _ _ f (
      execute-then _ _ (
        chain-then _ _ f (
          post_fiat-then _ _ _ _ _ _ (
            chain-then _ _ f (
              post_fiat-then _ _ _ _ _ _ (
                chain-then _ _ f (
                  post_fiat-then _ _ _ _ _ _
                    (chain-then _ _ f (lock_book-then _ (execute-then _ f h))))))))))
