-- ===== src/Pay/Orders.antt =====
-- The life of a recharge order: which statuses follow one another, whatever a method does to the table.
pub mod Methods
pub mod Life
pub mod Settled
use feedsystem_video_go_medi.Prelude.{
  ℕ, ◌≡◌, refl, Bool, true, false, List, [], ◌∷◌, ◌≤◌, count_where, find, some, arith, subst, sym,
  ◌∙◌, update_where, Bool-cases, inl, inr, if◌then◌else◌, ◌||◌,
}
use feedsystem_video_go_medi.Prelude.Lists.Unique.{update_none}
use feedsystem_video_go_medi.Pay.Entity.{Status, PayOrder, status_eq}
use feedsystem_video_go_medi.Pay.Rows.{has_id}
use feedsystem_video_go_medi.Pay.Credit.{is_creditable}
use feedsystem_video_go_medi.Pay.Credit.Failure.{is_open}

-- One step in the life of an order.
pub data Move : Status → Status → Type 0 where
  stay : (s : Status) → Move s s
  pay : (s : Status) → is_creditable s ≡ true → Move s Status.paid
  fail : (s : Status) → is_open s ≡ true → Move s Status.failed
  refund : (s : Status) → status_eq s Status.paid ≡ true → Move s Status.refunded
  expire : (s : Status) → is_open s ≡ true → Move s Status.closed
  dispute : (s : Status) → status_eq s Status.paid ≡ true → Move s Status.chargeback

-- The statuses of an order that was paid at some time.
abbrev pub is_past : Status → Bool
is_past s = status_eq s Status.paid || status_eq s Status.refunded || status_eq s Status.chargeback

-- What a method may do to one order: its identity, owner, price and channel stay, and so does the trade that
-- has paid it.
pub record Evolves (x y : PayOrder) : Type 0 where
  pub id : y.id ≡ x.id
  pub order_no : y.order_no ≡ x.order_no
  pub account_id : y.account_id ≡ x.account_id
  pub amount_fen : y.amount_fen ≡ x.amount_fen
  pub coins : y.coins ≡ x.coins
  pub channel : y.channel ≡ x.channel
  pub trade : is_past x.status ≡ true → y.channel_trade_no ≡ x.channel_trade_no
  pub move : Move x.status y.status

-- Row by row, with no order lost or added.
abbrev pub AllEvolve : List PayOrder → List PayOrder → Type 0
AllEvolve [] [] = Unit
AllEvolve [] (y ∷ ys) = ⊥
AllEvolve (x ∷ xs) [] = ⊥
AllEvolve (x ∷ xs) (y ∷ ys) = Evolves x y × AllEvolve xs ys

-- The primary key.
abbrev pub IdsUnique : List PayOrder → Type 0
IdsUnique rows = (k : ℕ) → count_where (has_id k) rows ≤ 1

pub Evolves-refl : (x : PayOrder) → Evolves x x
Evolves-refl x = record {
  id = refl;
  order_no = refl;
  account_id = refl;
  amount_fen = refl;
  coins = refl;
  channel = refl;
  trade = λ _. refl;
  move = stay x.status;
}

pub AllEvolve-refl : (rows : List PayOrder) → AllEvolve rows rows
AllEvolve-refl [] = tt
AllEvolve-refl (x ∷ xs) = (Evolves-refl x, AllEvolve-refl xs)

-- An update under which each row that it touches evolves.
pub AllEvolve-update :
    (p : PayOrder → Bool) (f : PayOrder → PayOrder) (rows : List PayOrder)
    → ((x : PayOrder) → p x ≡ true → Evolves x (f x))
    → AllEvolve rows (update_where p f rows)
unfolding update_where
AllEvolve-update p f [] step = tt
AllEvolve-update p f (x ∷ xs) step = (
  elim (Bool-cases (p x)) [
    | inl here ↦ rw here (step x here)
    | inr other ↦ rw other (Evolves-refl x)
  ],
  AllEvolve-update p f xs step,
)

-- An update that touches at most the row that was found.
pub AllEvolve-update_one :
    (k : ℕ) (f : PayOrder → PayOrder) (rows : List PayOrder) (o : PayOrder)
    → count_where (has_id k) rows ≤ 1
    → find (has_id k) rows ≡ some o
    → Evolves o (f o)
    → AllEvolve rows (update_where (has_id k) f rows)
unfolding update_where count_where find
AllEvolve-update_one k f [] o one found step = tt
AllEvolve-update_one k f (x ∷ xs) o one found step = elim (Bool-cases (has_id k x)) [
  | inl here ↦
      let same : x ≡ o = ground arith in
      let rest : count_where (has_id k) xs ≡ 0 = ground arith in
      (
        rw here (subst (λ z. Evolves z (f z)) (sym same) step),
        subst (AllEvolve xs) (sym (update_none (has_id k) f xs rest)) (AllEvolve-refl xs),
      )
  | inr other ↦
      let later : find (has_id k) xs ≡ some o = ground arith in
      let one' : count_where (has_id k) xs ≤ 1 = ground arith in
      (rw other (Evolves-refl x), AllEvolve-update_one k f xs o one' later step)
]

Evolves-IdsUnique :
    (rows later : List PayOrder) (k : ℕ)
    → AllEvolve rows later
    → count_where (has_id k) later ≡ count_where (has_id k) rows
unfolding count_where
Evolves-IdsUnique [] [] k h = refl
Evolves-IdsUnique [] (y ∷ ys) k h = absurd h
Evolves-IdsUnique (x ∷ xs) [] k h = absurd h
Evolves-IdsUnique (x ∷ xs) (y ∷ ys) k h = ground (arith, h.0.id, Evolves-IdsUnique xs ys k h.1)

-- The primary key stays unique.
pub AllEvolve-IdsUnique :
    (rows later : List PayOrder) → AllEvolve rows later → IdsUnique rows → IdsUnique later
AllEvolve-IdsUnique rows later h unique k =
    omega (arith, unique k, Evolves-IdsUnique rows later k h)

-- A further update that keeps all that an order's life is about.
pub record KeepsLife (f : PayOrder → PayOrder) : Type 0 where
  pub id : (x : PayOrder) → (f x).id ≡ x.id
  pub order_no : (x : PayOrder) → (f x).order_no ≡ x.order_no
  pub account_id : (x : PayOrder) → (f x).account_id ≡ x.account_id
  pub amount_fen : (x : PayOrder) → (f x).amount_fen ≡ x.amount_fen
  pub coins : (x : PayOrder) → (f x).coins ≡ x.coins
  pub channel : (x : PayOrder) → (f x).channel ≡ x.channel
  pub trade : (x : PayOrder) → (f x).channel_trade_no ≡ x.channel_trade_no
  pub status : (x : PayOrder) → (f x).status ≡ x.status

Evolves-then :
    (f : PayOrder → PayOrder) (x y : PayOrder) → KeepsLife f → Evolves x y → Evolves x (f y)
Evolves-then f x y keep h = record {
  id = keep.id y ∙ h.id;
  order_no = keep.order_no y ∙ h.order_no;
  account_id = keep.account_id y ∙ h.account_id;
  amount_fen = keep.amount_fen y ∙ h.amount_fen;
  coins = keep.coins y ∙ h.coins;
  channel = keep.channel y ∙ h.channel;
  trade = λ past. keep.trade y ∙ h.trade past;
  move = subst (Move x.status) (sym (keep.status y)) h.move;
}

pub AllEvolve-then :
    (p : PayOrder → Bool) (f : PayOrder → PayOrder) (rows later : List PayOrder)
    → KeepsLife f
    → AllEvolve rows later
    → AllEvolve rows (update_where p f later)
unfolding update_where
AllEvolve-then p f [] [] keep h = tt
AllEvolve-then p f [] (y ∷ ys) keep h = h
AllEvolve-then p f (x ∷ xs) [] keep h = h
AllEvolve-then p f (x ∷ xs) (y ∷ ys) keep h = (
  elim (Bool-cases (p y)) [
    | inl here ↦ rw here (Evolves-then f x y keep h.0)
    | inr other ↦ rw other h.0
  ],
  AllEvolve-then p f xs ys keep h.1,
)
