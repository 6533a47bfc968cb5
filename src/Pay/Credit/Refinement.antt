-- ===== src/Pay/Credit/Refinement.antt =====
-- `credit` and `markFailed` against what they promise, error by error, and when they must succeed.
use feedsystem_video_go_medi.Prelude.{
  ℕ, ◌≡◌, refl, ap, ◌∙◌, subst, Bool, true, false, some, String, str_eq, ◌⊎◌, inl, inr, arith,
}
use feedsystem_video_go_medi.Pay.Entity.{Status, PayOrder, CallbackBody, status_eq}
use feedsystem_video_go_medi.Store.{Db, World, Env, Error, ok, ⊤}
use feedsystem_video_go_medi.Store.Ensures.{OnAtomic}
use feedsystem_video_go_medi.Store.Ensures.Outcome.{Fails, Fails-Tolerates, Atomic-succeeds}
use feedsystem_video_go_medi.Pay.Credit.Once.{same_row}
use feedsystem_video_go_medi.Pay.Rows.{find_order, holds_trade}
use feedsystem_video_go_medi.Pay.Credit.{credit, mark_failed, is_creditable}
use feedsystem_video_go_medi.Pay.Credit.Outcome.{
  credited, CreditRefused, no_order, wrong_channel, other_trade, wrong_amount, not_payable,
  trade_used, ambiguous, entry_used, IsPayable, credit-Atomic,
}
use feedsystem_video_go_medi.Pay.Credit.Failure.{
  failed_orders, FailureRefused, is_open, is_final, mark_failed-Atomic,
}

-- What a callback that is accepted has done.
abbrev pub CreditDone : Env → String → CallbackBody → Db → Bool → Db → Type 0
CreditDone env channel cb d b d' =
    ((b ≡ false)
      × (d' ≡ d)
      × (o : PayOrder) × (find_order cb.order_no d ≡ some o)
      × (str_eq o.channel channel ≡ true)
      × (status_eq o.status Status.paid ≡ true)
      × (holds_trade cb.channel_trade_no o.channel_trade_no ≡ true))
    ⊎ ((b ≡ true)
        × (o : PayOrder) × (n : ℕ) × IsPayable channel cb d o
        × (d' ≡ credited channel cb (env.clock n) o d))

-- A callback for a payment finds the order of its channel paid by the same trade and writes nothing, or credits a
-- payable order exactly as described, at a time that the clock showed, or fails without a trace: for an unknown order, another channel,
-- another trade of a paid order, another amount, an order that cannot be paid, a trade or a ledger key
-- in use, or rows that do not match, or because a statement did not go through.
pub credit_outcome :
    (env : Env) (channel : String) (cb : CallbackBody) (w : World)
    → OnAtomic w.db
        (CreditDone env channel cb w.db)
        (Fails env (CreditRefused channel cb w.db))
        (credit env channel cb w)
credit_outcome env channel cb w =
    (credit-Atomic channel cb {Q = CreditDone env channel cb w.db}
        (Fails env (CreditRefused channel cb w.db)) w.db (λ e h. inr h)
        (λ o found same paid held. inl (refl, refl, o, found, same, paid, held))
        (λ o t payable. inr (refl, o, t, payable, refl))).at
      Fails-Tolerates w.tick

abbrev pub FailureDone : CallbackBody → Db → ⊤ → Db → Type 0
FailureDone cb d _ d' =
    (o : PayOrder) × (find_order cb.order_no d ≡ some o)
    × (((is_final o.status ≡ true) × (d' ≡ d))
        ⊎ ((is_open o.status ≡ true) × (d' ≡ failed_orders o d)))

-- A notice of failure leaves a paid, failed or closed order alone, or marks a created or paying order
-- as failed and changes nothing else, or fails without a trace: for an unknown order, another channel
-- or amount, an order in another status, or rows that do not match, or because a statement did not go
-- through.
pub mark_failed_outcome :
    (env : Env) (channel : String) (cb : CallbackBody) (w : World)
    → OnAtomic w.db
        (FailureDone cb w.db)
        (Fails env (FailureRefused channel cb w.db))
        (mark_failed env channel cb w)
mark_failed_outcome env channel cb w =
    (mark_failed-Atomic channel cb {Q = FailureDone cb w.db}
        (Fails env (FailureRefused channel cb w.db)) w.db (λ e h. inr h)
        (λ o found final. (o, found, inl (final, refl)))
        (λ o found live. (o, found, inr (live, refl)))).at
      Fails-Tolerates w.tick

pub creditable_unpaid : (s : Status) → is_creditable s ≡ true → status_eq s Status.paid ≡ true → ⊥
creditable_unpaid s h k = ground arith

module _ (channel : String) (cb : CallbackBody) (d : Db) (o : PayOrder)
    (p : IsPayable channel cb d o) where
  IsPayable-row : (o' : PayOrder) → find_order cb.order_no d ≡ some o' → IsPayable channel cb d o'
  IsPayable-row o' found = subst (IsPayable channel cb d) (same_row o o' p.found found) p

  IsPayable-accepted : (e : Error) → CreditRefused channel cb d e → ⊥
  IsPayable-accepted _ (no_order missing) = cc (p.found, missing)
  IsPayable-accepted _ (wrong_channel o' f h) = cc ((IsPayable-row o' f).same_channel, h)
  IsPayable-accepted _ (other_trade o' f h _) = creditable_unpaid _ (IsPayable-row o' f).payable h
  IsPayable-accepted _ (wrong_amount o' f _ h) = cc ((IsPayable-row o' f).same_amount, h)
  IsPayable-accepted _ (not_payable o' f _ h) = cc ((IsPayable-row o' f).payable, h)
  IsPayable-accepted _ (trade_used o' f _ h) = cc ((IsPayable-row o' f).fresh_trade, h)
  IsPayable-accepted _ (ambiguous o' f _ h) = cc ((IsPayable-row o' f).single, h)
  IsPayable-accepted _ (entry_used o' f _ h) = cc ((IsPayable-row o' f).fresh_entry, h)

-- Where every statement goes through, a callback for a payable order succeeds and credits that order
-- exactly as described, at a time that the clock showed.
pub credit_succeeds :
    (env : Env) (channel : String) (cb : CallbackBody) (w : World) (o : PayOrder)
    → ((n : ℕ) → env.statement_ok n ≡ true)
    → IsPayable channel cb w.db o
    → ((credit env channel cb w).0 ≡ ok true)
      × (n : ℕ) × ((credit env channel cb w).1.db ≡ credited channel cb (env.clock n) o w.db)
credit_succeeds env channel cb w o up p =
    let (b, returned, (credits, t, done)) = Atomic-succeeds {env = env} w up (
      credit-Atomic channel cb
        {Q = λ b d'. (b ≡ true) × (n : ℕ) × (d' ≡ credited channel cb (env.clock n) o w.db)}
        (λ _. ⊥) w.db (IsPayable-accepted channel cb w.db o p)
        (λ o' f _ paid _.
          absurd (creditable_unpaid _ (IsPayable-row channel cb w.db o p o' f).payable paid))
        (λ o' t q. (
          refl,
          t,
          ap (λ x. credited channel cb (env.clock t) x w.db) (same_row o' o q.found p.found),
        ))) in
    (returned ∙ ap ok credits, t, done)
