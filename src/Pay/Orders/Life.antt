-- ===== src/Pay/Orders/Life.antt =====
-- What any sequence of payment methods does to the orders.
pub mod Evolving
pub mod Service
use feedsystem_video_go_medi.Prelude.{
  ℕ, ℤ, ◌≡◌, refl, ap, str_eq, sym, ◌∙◌, subst, Bool, true, false, Option, none, some, List, [],
  ◌∷◌, String, find, arith, Bool-cases, inl, inr, if◌then◌else◌, ◌||◌, ◌==◌,
}
use feedsystem_video_go_medi.Pay.Entity.{Status, PayOrder, status_eq}
use feedsystem_video_go_medi.Store.{
  World, Env, Error, Action, ⊤, Result, ok, err, pure, raise, raise_if, now, post, query, attempt,
  continue, ◌>>=◌,
}
use feedsystem_video_go_medi.Pay.Rows.{has_id, has_no}
use feedsystem_video_go_medi.Pay.Credit.{is_creditable}
use feedsystem_video_go_medi.Pay.Credit.Failure.{is_open}
use feedsystem_video_go_medi.Pay.Orders.{
  Move, stay, pay, fail, refund, dispute, expire, Evolves, AllEvolve, AllEvolve-IdsUnique,
  IdsUnique, is_past,
}

-- The orders after some number of evolutions.
pub data Reaches : List PayOrder → List PayOrder → Type 0 where
  here : (rows : List PayOrder) → Reaches rows rows
  later :
      (rows mid last : List PayOrder) → AllEvolve rows mid → Reaches mid last → Reaches rows last

pub Reaches-step : {rows last : List PayOrder} → AllEvolve rows last → Reaches rows last
Reaches-step {rows = rows} {last = last} h = later rows last last h (here last)

pub Reaches-trans : {a b c : List PayOrder} → Reaches a b → Reaches b c → Reaches a c
Reaches-trans (here rows) k = k
Reaches-trans (later rows mid last h r) k = later rows mid _ h (Reaches-trans r k)

pub Reaches-IdsUnique : {a b : List PayOrder} → Reaches a b → IdsUnique a → IdsUnique b
Reaches-IdsUnique (here rows) u = u
Reaches-IdsUnique (later rows mid last h r) u =
    Reaches-IdsUnique r (AllEvolve-IdsUnique rows mid h u)

-- The statuses that an order never leaves.
abbrev pub is_terminal : Status → Bool
is_terminal s =
    status_eq s Status.failed || status_eq s Status.refunded || status_eq s Status.chargeback

terminal-Move : (s s' : Status) → is_terminal s ≡ true → Move s s' → s' ≡ s
terminal-Move s _ h (stay _) = refl
terminal-Move s _ h (pay _ k) = ground arith
terminal-Move s _ h (fail _ k) = ground arith
terminal-Move s _ h (refund _ k) = ground arith
terminal-Move s _ h (dispute _ k) = ground arith
terminal-Move s _ h (expire _ k) = ground arith

past-Move : (s s' : Status) → is_past s ≡ true → Move s s' → is_past s' ≡ true
past-Move s _ h (stay _) = h
past-Move s _ h (pay _ k) = refl
past-Move s _ h (fail _ k) = ground arith
past-Move s _ h (refund _ k) = refl
past-Move s _ h (dispute _ k) = refl
past-Move s _ h (expire _ k) = ground arith

-- What stays of an order while it evolves.
pub record SameOrder (x y : PayOrder) : Type 0 where
  pub order_no : y.order_no ≡ x.order_no
  pub account_id : y.account_id ≡ x.account_id
  pub amount_fen : y.amount_fen ≡ x.amount_fen
  pub coins : y.coins ≡ x.coins
  pub channel : y.channel ≡ x.channel
  pub past : is_past x.status ≡ true → is_past y.status ≡ true
  pub trade : is_past x.status ≡ true → y.channel_trade_no ≡ x.channel_trade_no
  pub status : is_terminal x.status ≡ true → y.status ≡ x.status

SameOrder-step : (x y : PayOrder) → Evolves x y → SameOrder x y
SameOrder-step x y h = record {
  order_no = h.order_no;
  account_id = h.account_id;
  amount_fen = h.amount_fen;
  coins = h.coins;
  channel = h.channel;
  past = λ p. past-Move x.status y.status p h.move;
  trade = h.trade;
  status = λ t. terminal-Move x.status y.status t h.move;
}

SameOrder-trans : (x y z : PayOrder) → SameOrder x y → SameOrder y z → SameOrder x z
SameOrder-trans x y z h k = record {
  order_no = k.order_no ∙ h.order_no;
  account_id = k.account_id ∙ h.account_id;
  amount_fen = k.amount_fen ∙ h.amount_fen;
  coins = k.coins ∙ h.coins;
  channel = k.channel ∙ h.channel;
  past = λ p. k.past (h.past p);
  trade = λ p. k.trade (h.past p) ∙ h.trade p;
  status = λ t. k.status (subst (λ s. is_terminal s ≡ true) (sym (h.status t)) t) ∙ h.status t;
}

SameOrder-refl : (x : PayOrder) → SameOrder x x
SameOrder-refl x = record {
  order_no = refl;
  account_id = refl;
  amount_fen = refl;
  coins = refl;
  channel = refl;
  past = λ p. p;
  trade = λ _. refl;
  status = λ _. refl;
}

-- The first order that `p` finds is there, and is `x` grown older.
abbrev pub KeptBy : (PayOrder → Bool) → PayOrder → List PayOrder → Type 0
KeptBy p x rows = (y : PayOrder) × (find p rows ≡ some y) × SameOrder x y

-- The order with the id `k` is there, and is `x` grown older.
abbrev pub Kept : ℕ → PayOrder → List PayOrder → Type 0
Kept k x rows = KeptBy (has_id k) x rows

-- Orders that are found by something that they never change.
module _ (p : PayOrder → Bool) (same_p : (x y : PayOrder) → Evolves x y → p y ≡ p x) where
  AllEvolve-Kept :
      (x : PayOrder) (rows last : List PayOrder)
      → AllEvolve rows last
      → find p rows ≡ some x
      → KeptBy p x last
  unfolding find
  AllEvolve-Kept x [] last h found = cc
  AllEvolve-Kept x (z ∷ rows) [] h found = absurd h
  AllEvolve-Kept x (z ∷ rows) (y ∷ last) h found = elim (Bool-cases (p z)) [
    | inl this ↦
        let same : z ≡ x = ground arith in
        let this' : p y ≡ true = same_p z y h.0 ∙ this in
        (y, rw this' refl, subst (λ o. SameOrder o y) same (SameOrder-step z y h.0))
    | inr other ↦
        let other' : p y ≡ false = same_p z y h.0 ∙ other in
        let rest : find p rows ≡ some x = ground arith in
        let (y', found', same) = AllEvolve-Kept x rows last h.1 rest in (y', rw other' found', same)
  ]

  pub Reaches-KeptBy :
      (x : PayOrder) (rows last : List PayOrder)
      → Reaches rows last
      → find p rows ≡ some x
      → KeptBy p x last
  Reaches-KeptBy x _ _ (here rows) found = (x, found, SameOrder-refl x)
  Reaches-KeptBy x _ _ (later rows mid last h r) found =
      let (y, found', same) = AllEvolve-Kept x rows mid h found in
      let (z, found'', same') = Reaches-KeptBy y mid last r found' in
      (z, found'', SameOrder-trans x y z same same')

pub Reaches-Kept :
    (k : ℕ) (x : PayOrder) (rows last : List PayOrder)
    → Reaches rows last
    → find (has_id k) rows ≡ some x
    → Kept k x last
Reaches-Kept k x rows last r found =
    Reaches-KeptBy (has_id k) (λ z y h. ap (λ i. i == k) h.id) x rows last r found

pub Reaches-found :
    (number : String) (x : PayOrder) (rows last : List PayOrder)
    → Reaches rows last
    → find (has_no number) rows ≡ some x
    → KeptBy (has_no number) x last
Reaches-found number x rows last r found =
    Reaches-KeptBy (has_no number) (λ z y h. ap (λ n. str_eq n number) h.order_no) x rows last r
      found
