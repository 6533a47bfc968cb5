-- ===== src/Pay/Cashier/Service.antt =====
-- Any sequence of the requests that the gateway of backend/internal/pay/cashier.go serves, and what they
-- leave in its rows.
pub mod Paid
use feedsystem_video_go_medi.Prelude.{
  ℕ, ◌≡◌, refl, subst, Bool, true, false, not, ◌&&◌, ◌||◌, Option, none, some, List, [], ◌∷◌,
  String, str_eq, str_eq_iff, not-false, if◌then◌else◌, find, Bool-cases, ◌⊎◌, inl, inr,
}
use feedsystem_video_go_medi.Pay.Gateway.{Codec}
use feedsystem_video_go_medi.Pay.Values.{Values, Texts}
use feedsystem_video_go_medi.Pay.Cashier.Trades.{
  Cashier, Trade, TradeStatus, success, refund, chargeback, closed, wait, trade_is, trade_in,
  is_trade, saved, remember, stays_paid, is_final_status, trade_of, moved, mutate_found,
  mutate_trade, step_on,
}
use feedsystem_video_go_medi.Pay.Cashier.Notices.{Outside, notify_or_enqueue, retry_notifies}
use feedsystem_video_go_medi.Pay.Cashier.Requests.{
  Refusal, Verdict, verdict, declined, Notice, SignedNumber, number_missing, not_signed, number_of,
  show, show_valid, submit, submit_valid, submit_authorized, mutate_request, mutate_numbered,
  authorize, shown_trade, submitted_trade,
}
use feedsystem_video_go_medi.Pay.Cashier.Rows.{
  AreSound, remember-AreSound, retry_notifies-All, deliver-All, IsSound, IsSound-Keeps,
  deliver-trades, retry_notifies-trades,
}

-- One thing that the gateway is asked to do. A notice that `submit` hands out is delivered as a
-- step of its own, and so is a round of retries.
pub data Request : Type 0 where
  open_page : Values → Request
  send_form : Option Values → Request
  deliver_notice : Notice → Request
  mutate : TradeStatus → Option String → String → Request
  retry : Request

-- What a step may do to a gateway, in the parts that the requests share: `R` relates the gateway before and
-- after.
pub record Steps (ok : ℕ → Bool) (R : Cashier → Cashier → Type 0) : Type 0 where
  pub at_remember : (t : Trade) (s : Cashier) → R s (remember ok t s)
  pub same : (s : Cashier) → R s s
  pub after_tick : (s s' : Cashier) → R (step_on s) s' → R s s'

module _ (o : Outside) (c : Codec) (x : Texts) (secret : String) (bytes : String → List ℕ) where
  unfoldable pub answer : Request → Cashier → Cashier
  answer (open_page q) s = (show o c x secret q s).1
  answer (send_form form) s = (submit o c x secret form s).1
  answer (deliver_notice n) s = notify_or_enqueue o c x secret n.values n.paid n.action s
  answer (mutate next body header) s = (mutate_request o c x secret bytes next body header s).1
  answer retry s = retry_notifies o c x secret s

  unfoldable pub answer_all : List Request → Cashier → Cashier
  unfolding answer
  answer_all [] s = s
  answer_all (r ∷ rs) s = answer_all rs (answer r s)

ticks_of_if :
    (b : Bool) (p q : Option Trade × Cashier) (s : Cashier)
    → p.1 ≡ s
    → q.1 ≡ step_on s
    → ((if b then p else q).1 ≡ s) ⊎ ((if b then p else q).1 ≡ step_on s)
ticks_of_if true p q s hp hq = inl hp
ticks_of_if false p q s hp hq = inr hq

trade_of-ticks :
    (ok : ℕ → Bool) (number : String) (s : Cashier)
    → ((trade_of ok number s).1 ≡ s) ⊎ ((trade_of ok number s).1 ≡ step_on s)
unfolding trade_of
trade_of-ticks ok number s = ticks_of_if (not s.has_db) _ _ s refl refl

module _ (o : Outside) (c : Codec) (x : Texts) (secret : String) (bytes : String → List ℕ)
    (R : Cashier → Cashier → Type 0) (steps : Steps o.statement_ok R) where
  show_valid-Step :
      (q : Values) (v : Option Refusal) (s : Cashier) → R s (show_valid o c x secret q v s).1
  show_valid-Step q (some r) s = steps.same s
  show_valid-Step q none s = steps.at_remember (shown_trade x q) s

  pub show-Step : (q : Values) (s : Cashier) → R s (show o c x secret q s).1
  unfolding show
  show-Step q s = steps.after_tick s _ (show_valid-Step q _ (step_on s))

  authorized-Step :
      (q : Values) (v : Verdict) (s : Cashier) → R s (submit_authorized o c x secret q v s).1
  authorized-Step q (declined r) s = steps.same s
  authorized-Step q (verdict paid action) s = steps.at_remember (submitted_trade x q paid) s

  submit_valid-Step :
      (q : Values) (v : Option Refusal) (s : Cashier) → R s (submit_valid o c x secret q v s).1
  submit_valid-Step q (some r) s = steps.same s
  submit_valid-Step q none s = authorized-Step q (authorize x q) s

  pub submit-Step : (form : Option Values) (s : Cashier) → R s (submit o c x secret form s).1
  unfolding submit
  submit-Step none s = steps.same s
  submit-Step (some q) s = steps.after_tick s _ (submit_valid-Step q _ (step_on s))

  moved-Step :
      (next : TradeStatus) (t : Trade) (s : Cashier) → R s (moved o.statement_ok next t s).1
  moved-Step next t s = elim (Bool-cases (trade_is next closed && not (trade_is t.status wait))) [
    | inl late ↦ rw late (steps.same s)
    | inr live ↦
        rw live
          (elim (Bool-cases (
            (trade_is next refund || trade_is next chargeback)
            && not (trade_is t.status success))) [
              | inl unpaid ↦ rw unpaid (steps.same s)
              | inr fits ↦ rw fits (steps.at_remember (record t { status = next }) s)
            ])
  ]

  found-Step :
      (next : TradeStatus) (t : Option Trade) (s : Cashier)
      → R s (mutate_found o.statement_ok next (t, s)).1
  found-Step next none s = steps.same s
  found-Step next (some t) s = moved-Step next t s

  pair-Step :
      (next : TradeStatus) (t : Option Trade) (s s' : Cashier)
      → (s' ≡ s) ⊎ (s' ≡ step_on s)
      → R s (mutate_found o.statement_ok next (t, s')).1
  pair-Step next t s s' (inl e) =
      subst (λ u. R u (mutate_found o.statement_ok next (t, s')).1) e (found-Step next t s')
  pair-Step next t s s' (inr e) =
      steps.after_tick s _
        (subst (λ u. R u (mutate_found o.statement_ok next (t, s')).1) e (found-Step next t s'))

  mutate-Step :
      (next : TradeStatus) (number : String) (s : Cashier)
      → R s (mutate_trade o.statement_ok next number s).1
  unfolding mutate_trade
  mutate-Step next number s =
      let (t, s') = trade_of o.statement_ok number s in
      pair-Step next t s s' (trade_of-ticks o.statement_ok number s)

  numbered-Step :
      (next : TradeStatus) (n : SignedNumber) (s : Cashier)
      → R s (mutate_numbered o c x secret next n s).1
  numbered-Step next number_missing s = steps.same s
  numbered-Step next not_signed s = steps.same s
  numbered-Step next (number_of number) s = mutate-Step next number s

  pub request-Step :
      (next : TradeStatus) (body : Option String) (header : String) (s : Cashier)
      → R s (mutate_request o c x secret bytes next body header s).1
  unfolding mutate_request
  request-Step next body header s = numbered-Step next _ s

module _ (o : Outside) (c : Codec) (x : Texts) (secret : String) (bytes : String → List ℕ) where
  sound_steps : Steps o.statement_ok (λ s s'. AreSound s.rows → AreSound s'.rows)
  sound_steps = record {
    at_remember = λ t s h. remember-AreSound o.statement_ok t s h;
    same = λ s h. h;
    after_tick = λ s s' h. h;
  }

  answer-AreSound :
      (r : Request) (s : Cashier) → AreSound s.rows → AreSound (answer o c x secret bytes r s).rows
  unfolding answer
  answer-AreSound (open_page q) s h = show-Step o c x secret bytes _ sound_steps q s h
  answer-AreSound (send_form form) s h = submit-Step o c x secret bytes _ sound_steps form s h
  answer-AreSound (deliver_notice n) s h =
      deliver-All o c x secret IsSound IsSound-Keeps n.values n.paid n.action s h
  answer-AreSound (mutate next body header) s h =
      request-Step o c x secret bytes _ sound_steps next body header s h
  answer-AreSound retry s h = retry_notifies-All o c x secret IsSound IsSound-Keeps s h

-- Whatever pages, forms, notices, mutations and rounds of retries the gateway serves, each row of a trade
-- freezes the trade's amount while the trade waits for its buyer and nothing otherwise, and counts at
-- most twenty retries of its notice.
pub answer_all-AreSound :
    (o : Outside) (c : Codec) (x : Texts) (secret : String) (bytes : String → List ℕ)
    (rs : List Request) (s : Cashier)
    → AreSound s.rows
    → AreSound (answer_all o c x secret bytes rs s).rows
unfolding answer_all
answer_all-AreSound o c x secret bytes [] s h = h
answer_all-AreSound o c x secret bytes (r ∷ rs) s h =
    answer_all-AreSound o c x secret bytes rs (answer o c x secret bytes r s)
      (answer-AreSound o c x secret bytes r s h)
