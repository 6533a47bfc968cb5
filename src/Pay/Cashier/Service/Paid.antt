-- ===== src/Pay/Cashier/Service/Paid.antt =====
-- A payment that the gateway of backend/internal/pay/cashier.go remembers, request by request.
use feedsystem_video_go_medi.Prelude.{
  ℕ, ℤ, ◌≡◌, refl, subst, Bool, true, false, some, List, ◌∷◌, String, str_eq, str_eq_iff, not-false,
  find, Bool-cases, inl, inr, Option, none, All, not, ◌||◌,
}
use feedsystem_video_go_medi.Pay.Gateway.{Codec}
use feedsystem_video_go_medi.Pay.Values.{Texts}
use feedsystem_video_go_medi.Pay.Cashier.Trades.{
  Cashier, Trade, success, trade_is, trade_in, is_trade, saved, remember, stays_paid,
  is_final_status, GatewayTrade, is_trade_row, trade_row, row_trade, row_or_memory, save_row,
  trade_of,
}
use feedsystem_video_go_medi.Pay.Cashier.Notices.{Outside, with_outcome}
use feedsystem_video_go_medi.Pay.Cashier.Rows.{
  Keeps, deliver-All, retry_notifies-All, deliver-trades, retry_notifies-trades,
}
use feedsystem_video_go_medi.Prelude.Lists.Unique.{All-filter, All-find}
use feedsystem_video_go_medi.Prelude.Lists.Laws.{find_sound}
use feedsystem_video_go_medi.Pay.Cashier.Service.{
  Request, open_page, send_form, deliver_notice, mutate, retry, answer, Steps, show-Step,
  submit-Step, request-Step,
}

-- The gateway remembers a trade as paid, refunded or charged back.
abbrev pub IsFinalTrade : String → Cashier → Type 0
IsFinalTrade number s =
    (t : Trade) × (trade_in number s.trades ≡ some t) × (is_final_status t.status ≡ true)

-- A row of this trade tells that it is paid, refunded or charged back.
abbrev pub is_final_row : String → GatewayTrade → Bool
is_final_row number r = not (is_trade_row number r) || is_final_status r.status

abbrev IsFinalRow : String → GatewayTrade → Type 0
IsFinalRow number r = is_final_row number r ≡ true

abbrev pub FinalRows : String → List GatewayTrade → Type 0
FinalRows number rows = All (λ r. is_final_row number r ≡ true) rows

-- What the gateway answers when it is asked for the trade.
abbrev pub AnswersFinal : (ℕ → Bool) → String → Cashier → Type 0
AnswersFinal ok number s =
    (t : Trade) × ((trade_of ok number s).0 ≡ some t) × (is_final_status t.status ≡ true)

-- What each step keeps of a trade that is paid.
abbrev PaidKept : String → Cashier → Cashier → Type 0
PaidKept number s s' =
    (t : Trade)
    → trade_in number s.trades ≡ some t
    → trade_is t.status success ≡ true
    → FinalRows number s.rows
    → IsFinalTrade number s' × FinalRows number s'.rows

IsFinalRow-Keeps : (number : String) → Keeps (IsFinalRow number)
IsFinalRow-Keeps number = record {
  at_outcome = λ delivered n t r few h. kept_outcome delivered n t r h;
  at_pending = λ q b a t r h. h;
}
  where
    kept_outcome :
        (delivered : Bool) (n : ℕ) (again : ℤ) (r : GatewayTrade)
        → IsFinalRow number r
        → IsFinalRow number (with_outcome delivered n again r)
    kept_outcome true n again r h = h
    kept_outcome false n again r h = h

-- A trade that is saved as final has a final row, and so has any other trade.
saved-FinalRows :
    (ok : ℕ → Bool) (number : String) (next : Trade) (s : Cashier)
    → IsFinalRow number (trade_row next)
    → FinalRows number s.rows
    → FinalRows number (saved ok next s).rows
unfolding save_row
saved-FinalRows ok number next s final h = elim (Bool-cases s.has_db) [
  | inl db ↦ rw db (elim (Bool-cases (ok s.tick)) [
    | inl up ↦ rw up (final, All-filter (IsFinalRow number) _ s.rows h)
    | inr down ↦ rw down h
  ])
  | inr memory ↦ rw memory h
]

final_answer :
    (number : String) (rows : List GatewayTrade) (m : Trade)
    → is_final_status m.status ≡ true
    → FinalRows number rows
    → (x : Option GatewayTrade) → find (is_trade_row number) rows ≡ x
    → (t : Trade) × (row_or_memory (λ _. true) x (some m) ≡ some t)
      × (is_final_status t.status ≡ true)
final_answer number rows m final h none e = (m, refl, final)
final_answer number rows m final h (some r) e =
    let fits : is_trade_row number r ≡ true = find_sound (is_trade_row number) rows r e in
    let r_final : IsFinalRow number r =
      All-find (IsFinalRow number) (is_trade_row number) rows r e h in
    (row_trade r, refl, rw fits at r_final)

AnswersFinal-of :
    (ok : ℕ → Bool) (number : String) (s : Cashier)
    → IsFinalTrade number s
    → FinalRows number s.rows
    → AnswersFinal ok number s
unfolding trade_of
AnswersFinal-of ok number s (m, there, final) h = elim (Bool-cases s.has_db) [
  | inl db ↦
      rw (db, there)
        (elim (Bool-cases (ok s.tick)) [
          | inl up ↦ rw up (final_answer number s.rows m final h _ refl)
          | inr down ↦ rw down (m, refl, final)
        ])
  | inr memory ↦ rw memory (m, there, final)
]

paid_is_final : (t : Trade) → trade_is t.status success ≡ true → is_final_status t.status ≡ true
paid_is_final t paid = rw paid

unpaid_stays :
    (t next : Trade)
    → trade_is t.status success ≡ true
    → stays_paid (some t) next ≡ false
    → is_final_status next.status ≡ true
unpaid_stays t next paid h = not-false _ (rw paid at h)

saved_trades : (ok : ℕ → Bool) (t : Trade) (s : Cashier) → (saved ok t s).trades ≡ s.trades
saved_trades ok t s = elim (Bool-cases s.has_db) [ inl db ↦ rw db | inr memory ↦ rw memory ]

remember-PaidKept :
    (ok : ℕ → Bool) (number : String) (next : Trade) (s : Cashier)
    → PaidKept number s (remember ok next s)
unfolding remember trade_in find
remember-PaidKept ok number next s t there paid rows =
    elim (Bool-cases (stays_paid (find (is_trade next.order_no) s.trades) next)) [
      | inl stays ↦ rw stays ((t, there, paid_is_final t paid), rows)
      | inr goes ↦
          let saved_same : (saved ok next (record s { trades = next ∷ s.trades })).trades
              ≡ next ∷ s.trades =
            saved_trades ok next (record s { trades = next ∷ s.trades }) in
          rw (goes, saved_same)
            (elim (Bool-cases (str_eq next.order_no number)) [
              | inl same ↦
                  let e : next.order_no ≡ number = (str_eq_iff next.order_no number).0 same in
                  let goes' : stays_paid (find (is_trade number) s.trades) next ≡ false =
                    subst (λ k. stays_paid (find (is_trade k) s.trades) next ≡ false) e goes in
                  let refused : stays_paid (some t) next ≡ false = rw there at goes' in
                  let final : is_final_status next.status ≡ true =
                    unpaid_stays t next paid refused in
                  rw same
                    ((next, refl, final), saved-FinalRows ok number next _ (rw (same, final)) rows)
              | inr other ↦ rw other (
                (t, there, paid_is_final t paid),
                saved-FinalRows ok number next _ (rw other) rows,
              )
            ])
    ]

module _ (o : Outside) (c : Codec) (x : Texts) (secret : String) (bytes : String → List ℕ) where
  paid_steps : (number : String) → Steps o.statement_ok (PaidKept number)
  paid_steps number = record {
    at_remember = λ t s. remember-PaidKept o.statement_ok number t s;
    same = λ s t there paid rows. ((t, there, paid_is_final t paid), rows);
    after_tick = λ s s' h. h;
  }

  answer-PaidKept :
      (r : Request) (number : String) (s : Cashier)
      → PaidKept number s (answer o c x secret bytes r s)
  unfolding answer
  answer-PaidKept (open_page q) number s = show-Step o c x secret bytes _ (paid_steps number) q s
  answer-PaidKept (send_form form) number s =
      submit-Step o c x secret bytes _ (paid_steps number) form s
  answer-PaidKept (deliver_notice n) number s = λ t there paid rows. (
    (t, rw (deliver-trades o c x secret n.values n.paid n.action s) there, paid_is_final t paid),
    deliver-All o c x secret (IsFinalRow number) (IsFinalRow-Keeps number) n.values n.paid n.action
        s rows,
  )
  answer-PaidKept (mutate next body header) number s =
      request-Step o c x secret bytes _ (paid_steps number) next body header s
  answer-PaidKept retry number s = λ t there paid rows. (
    (t, rw (retry_notifies-trades o c x secret s) there, paid_is_final t paid),
    retry_notifies-All o c x secret (IsFinalRow number) (IsFinalRow-Keeps number) s rows,
  )

-- Where the gateway remembers a trade as paid, and no row of the trade says otherwise, both still hold, with
-- refunded or charged back beside paid, after any one request, and so the gateway answers such a
-- trade when it is asked for it: no page that is opened again, no other payment and no closing
-- takes a payment back while the gateway runs.
pub answer-IsFinalTrade :
    (o : Outside) (c : Codec) (x : Texts) (secret : String) (bytes : String → List ℕ) (r : Request)
    (number : String) (s : Cashier) (t : Trade)
    → trade_in number s.trades ≡ some t
    → trade_is t.status success ≡ true
    → FinalRows number s.rows
    → IsFinalTrade number (answer o c x secret bytes r s)
      × FinalRows number (answer o c x secret bytes r s).rows
      × AnswersFinal o.statement_ok number (answer o c x secret bytes r s)
answer-IsFinalTrade o c x secret bytes r number s t there paid rows =
    let (final, rows') = answer-PaidKept o c x secret bytes r number s t there paid rows in
    (final, rows', AnswersFinal-of o.statement_ok number _ final rows')
