-- ===== src/Pay/Cashier/Rows.antt =====
-- What the steps of backend/internal/pay/cashier.go do to the rows of the trades.
use feedsystem_video_go_medi.Prelude.{
  ℕ, zero, suc, ℤ, leb, ◌+◌, ◌≤◌, ◌≡◌, refl, subst, sym, ◌∙◌, Bool, true, false, not, ◌&&◌, List,
  [], ◌∷◌, String, if◌then◌else◌, All, filter, Bool-cases, Option-cases, inl, inr, arith, ltb,
}
use feedsystem_video_go_medi.Prelude.Lists.Unique.{All-update, All-filter, All-filtered}
use feedsystem_video_go_medi.Pay.Gateway.{Codec}
use feedsystem_video_go_medi.Pay.Values.{Values, Texts, get}
use feedsystem_video_go_medi.Pay.Cashier.Trades.{
  Cashier, Trade, GatewayTrade, trade_in, is_trade_row, frozen_of, row_trade, trade_row, save_row,
  remember, stays_paid, step_on,
}
use feedsystem_video_go_medi.Pay.Cashier.Notices.{
  Outside, is_retried, with_outcome, with_pending, update_trade_row, delivered_or, attempts, notify,
  enqueue_notify, notify_or_enqueue, retry_row, retry_rows, retry_notifies, retry_values, Delivery,
  bad_address, unreachable, answered,
}

-- What every row satisfies: money is frozen just while the trade waits for its buyer, and a notice
-- is retried at most twenty times.
pub record IsSound (r : GatewayTrade) : Type 0 where
  pub frozen : r.frozen_fen ≡ frozen_of (row_trade r)
  pub retried : r.notify_attempts ≤ 20

abbrev pub AreSound : List GatewayTrade → Type 0
AreSound rows = All IsSound rows

-- What the updates of a row, by a retry and by a notice that waits, keep of it.
pub record Keeps (P : GatewayTrade → Type 0) : Type 0 where
  pub at_outcome :
      (delivered : Bool) (n : ℕ) (again : ℤ) (r : GatewayTrade)
      → n ≤ 20
      → P r
      → P (with_outcome delivered n again r)
  pub at_pending :
      (q : Values) (paid : Bool) (action : String) (next : ℤ) (r : GatewayTrade)
      → P r
      → P (with_pending q paid action next r)

trade_row-IsSound : (t : Trade) → IsSound (trade_row t)
unfolding frozen_of
trade_row-IsSound t = record { frozen = refl; retried = omega arith }

save_row-AreSound :
    (t : Trade) (rows : List GatewayTrade) → AreSound rows → AreSound (save_row (trade_row t) rows)
unfolding save_row
save_row-AreSound t rows h = (trade_row-IsSound t, All-filter IsSound _ rows h)

pub remember-AreSound :
    (ok : ℕ → Bool) (t : Trade) (s : Cashier) → AreSound s.rows → AreSound (remember ok t s).rows
unfolding remember
remember-AreSound ok t s h = elim (Bool-cases (stays_paid (trade_in t.order_no s.trades) t)) [
  | inl stays ↦ rw stays h
  | inr goes ↦ rw goes (elim (Bool-cases s.has_db) [
    | inl db ↦ rw db (elim (Bool-cases (ok s.tick)) [
      | inl up ↦ rw up (save_row-AreSound t s.rows h)
      | inr down ↦ rw down h
    ])
    | inr memory ↦ rw memory h
  ])
]

update-All :
    (P : GatewayTrade → Type 0) (o : Outside) (number : String) (f : GatewayTrade → GatewayTrade)
    (s : Cashier)
    → ((r : GatewayTrade) → P r → P (f r))
    → All P s.rows
    → All P (update_trade_row o number f s).rows
unfolding update_trade_row
update-All P o number f s keep h = elim (Bool-cases (o.statement_ok s.tick)) [
  | inl up ↦ rw up (All-update (is_trade_row number) f s.rows (λ r _ x. keep r x) h)
  | inr down ↦ rw down h
]

outcome-IsSound :
    (delivered : Bool) (n : ℕ) (again : ℤ) (r : GatewayTrade)
    → n ≤ 20
    → IsSound r
    → IsSound (with_outcome delivered n again r)
unfolding frozen_of
outcome-IsSound true n again r few h = record { frozen = h.frozen; retried = few }
outcome-IsSound false n again r few h = record { frozen = h.frozen; retried = few }

pending-IsSound :
    (q : Values) (paid : Bool) (action : String) (next : ℤ) (r : GatewayTrade)
    → IsSound r
    → IsSound (with_pending q paid action next r)
unfolding frozen_of
pending-IsSound q paid action next r h = record { frozen = h.frozen; retried = h.retried }

pub IsSound-Keeps : Keeps IsSound
IsSound-Keeps = record {
  at_outcome = λ b n t r few h. outcome-IsSound b n t r few h;
  at_pending = λ q b a t r h. pending-IsSound q b a t r h;
}

-- What a notification does to the gateway: its ticks.
abbrev pub SameTrades : Cashier → Cashier → Type 0
SameTrades s' s = (s'.rows ≡ s.rows) × (s'.trades ≡ s.trades) × (s'.has_db ≡ s.has_db)

trades_of_if :
    (b : Bool) (a a' s : Cashier)
    → a.trades ≡ s.trades
    → a'.trades ≡ s.trades
    → (if b then a else a').trades ≡ s.trades
trades_of_if true a a' s h h' = h
trades_of_if false a a' s h h' = h'

after_delivery :
    (s : Cashier) (d : Delivery) (later : Bool × Cashier)
    → SameTrades later.1 s
    → SameTrades (delivered_or later d s).1 s
after_delivery s bad_address later h = (refl, refl, refl)
after_delivery s unreachable later h = h
after_delivery s (answered code) later h = elim (Bool-cases (leb 200 code && ltb code 300)) [
  | inl good ↦ rw good (refl, refl, refl)
  | inr bad ↦ rw bad h
]

module _ (o : Outside) (c : Codec) (x : Texts) (secret : String) where
  attempts-SameTrades :
      (n : ℕ) (q : Values) (action : String) (message : String × String) (s : Cashier)
      → SameTrades (attempts o c x secret n q action message s).1 s
  unfolding attempts
  attempts-SameTrades zero q action message s = (refl, refl, refl)
  attempts-SameTrades (suc n) q action message s =
      let later = attempts-SameTrades n q action message (step_on s) in
      after_delivery s (o.deliver s.tick (get "notify_url" q) action message) _ later

  pub notify-SameTrades :
      (q : Values) (paid : Bool) (action : String) (s : Cashier)
      → SameTrades (notify o c x secret q paid action s).1 s
  unfolding notify
  notify-SameTrades q paid action s = elim (Option-cases (o.token s.tick 6)) [
    | inl missing ↦ rw missing (refl, refl, refl)
    | inr (t, there) ↦ rw there (attempts-SameTrades 3 q action _ _)
  ]

  module _ (P : GatewayTrade → Type 0) (keeps : Keeps P) where
    retry_row-All :
        (now : ℤ) (r : GatewayTrade) (s : Cashier)
        → is_retried now r ≡ true
        → All P s.rows
        → All P (retry_row o c x secret now r s).rows
    unfolding retry_row
    retry_row-All now r s picked h =
        let few : r.notify_attempts + 1 ≤ 20 = ground arith in
        let (delivered, s') =
          notify o c x secret (retry_values x r) r.notify_paid r.notify_action s in
        update-All P o r.order_no _ s'
          (λ r' h'. keeps.at_outcome delivered (r.notify_attempts + 1) _ r' few h')
          (subst (All P)
            (sym (notify-SameTrades (retry_values x r) r.notify_paid r.notify_action s).0) h)

    retry_rows-All :
        (now : ℤ) (rs : List GatewayTrade) (s : Cashier)
        → All (λ r. is_retried now r ≡ true) rs
        → All P s.rows
        → All P (retry_rows o c x secret now rs s).rows
    unfolding retry_rows
    retry_rows-All now [] s picked h = h
    retry_rows-All now (r ∷ rs) s picked h =
        retry_rows-All now rs (retry_row o c x secret now r s) picked.1
          (retry_row-All now r s picked.0 h)

    pub retry_notifies-All :
        (s : Cashier) → All P s.rows → All P (retry_notifies o c x secret s).rows
    unfolding retry_notifies
    retry_notifies-All s h = elim (Bool-cases s.has_db) [
      | inl db ↦ rw db (elim (Bool-cases (o.statement_ok (s.tick + 1))) [
        | inl up ↦
            rw up (retry_rows-All _ _ _ (All-filtered (is_retried (o.clock s.tick)) s.rows) h)
        | inr down ↦ rw down h
      ])
      | inr memory ↦ rw memory h
    ]

    enqueue-All :
        (q : Values) (paid : Bool) (action : String) (s : Cashier)
        → All P s.rows
        → All P (enqueue_notify o c x secret q paid action s).rows
    unfolding enqueue_notify
    enqueue-All q paid action s h = elim (Bool-cases s.has_db) [
      | inl db ↦ rw db (
          update-All P o (get "order_no" q) _ (step_on s)
            (λ r h'. keeps.at_pending q paid action _ r h') h)
      | inr memory ↦ rw memory h
    ]

    pub deliver-All :
        (q : Values) (paid : Bool) (action : String) (s : Cashier)
        → All P s.rows
        → All P (notify_or_enqueue o c x secret q paid action s).rows
    unfolding notify_or_enqueue
    deliver-All q paid action s h =
        let (delivered, s') = notify o c x secret q paid action s in
        let h' : All P s'.rows = subst (All P) (sym (notify-SameTrades q paid action s).0) h in
        elim (Bool-cases delivered) [
          | inl done ↦ rw done h'
          | inr waits ↦ rw waits (enqueue-All q paid action s' h')
        ]

  retry_rows-trades :
      (now : ℤ) (rs : List GatewayTrade) (s : Cashier)
      → (retry_rows o c x secret now rs s).trades ≡ s.trades
  unfolding retry_rows retry_row update_trade_row
  retry_rows-trades now [] s = refl
  retry_rows-trades now (r ∷ rs) s =
      retry_rows-trades now rs (retry_row o c x secret now r s)
      ∙ (notify-SameTrades (retry_values x r) r.notify_paid r.notify_action s).1

  pub retry_notifies-trades : (s : Cashier) → (retry_notifies o c x secret s).trades ≡ s.trades
  unfolding retry_notifies
  retry_notifies-trades s = trades_of_if (not s.has_db) s _ s refl (
      trades_of_if (o.statement_ok (s.tick + 1)) _ _ s
        (retry_rows-trades (o.clock s.tick) (filter (is_retried (o.clock s.tick)) s.rows)
          (step_on (step_on s)))
        refl)

  pub deliver-trades :
      (q : Values) (paid : Bool) (action : String) (s : Cashier)
      → (notify_or_enqueue o c x secret q paid action s).trades ≡ s.trades
  unfolding notify_or_enqueue enqueue_notify update_trade_row
  deliver-trades q paid action s =
      let (delivered, s') = notify o c x secret q paid action s in
      let h' : s'.trades ≡ s.trades = (notify-SameTrades q paid action s).1 in
      elim (Bool-cases delivered) [
        | inl done ↦ rw done h'
        | inr waits ↦
            rw waits (elim (Bool-cases s'.has_db) [ inl db ↦ rw db h' | inr memory ↦ rw memory h' ])
      ]
