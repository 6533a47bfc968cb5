-- ===== src/Pay/Orders/Settled.antt =====
-- Orders that a notice has paid: what its repetitions do, whatever the service was called for in between.
use feedsystem_video_go_medi.Prelude.{
  ◌≡◌, ◌⊎◌, refl, sym, ap, ◌∙◌, subst, Bool, true, false, List, some, String, str_eq, str_eq_refl,
  inl, inr,
}
use feedsystem_video_go_medi.Pay.Entity.{Status, PayOrder, CallbackBody, status_eq}
use feedsystem_video_go_medi.Store.{Db, World, Env, Error, order_closed, amount_mismatch, ok}
use feedsystem_video_go_medi.Store.Ensures.{OnAtomic}
use feedsystem_video_go_medi.Store.Ensures.Outcome.{Fails, OnAtomic-weaken}
use feedsystem_video_go_medi.Pay.Rows.{find_order, holds_trade}
use feedsystem_video_go_medi.Pay.Credit.{credit, is_creditable}
use feedsystem_video_go_medi.Pay.Credit.Outcome.{
  CreditRefused, no_order, wrong_channel, other_trade, wrong_amount, not_payable, trade_used,
  ambiguous, entry_used,
}
use feedsystem_video_go_medi.Pay.Credit.Once.{same_row, find-credited}
use feedsystem_video_go_medi.Pay.Credit.Refinement.{CreditDone, credit_outcome}
use feedsystem_video_go_medi.Pay.Orders.{IdsUnique, is_past}
use feedsystem_video_go_medi.Pay.Orders.Methods.{creditable_new}
use feedsystem_video_go_medi.Pay.Orders.Life.{Reaches-found}
use feedsystem_video_go_medi.Pay.Orders.Life.Service.{Call, serve, serve-Reaches}

-- The notice's order was paid, through the notice's channel and by its trade; it may have been refunded or
-- charged back since.
pub record IsSettled (route : String) (cb : CallbackBody) (d : Db) (o : PayOrder) : Type 0 where
  pub found : find_order cb.order_no d ≡ some o
  pub same_channel : str_eq o.channel route ≡ true
  pub past : is_past o.status ≡ true
  pub same_trade : holds_trade cb.channel_trade_no o.channel_trade_no ≡ true

-- The order was refunded or charged back.
abbrev pub WasReversed : String → Db → Type 0
WasReversed number d =
    (o : PayOrder) × (find_order number d ≡ some o)
    × ((o.status ≡ Status.refunded) ⊎ (o.status ≡ Status.chargeback))

-- The order is not paid any more, for which there are two errors.
abbrev pub TakenBack : String → Db → Error → Type 0
TakenBack number d e = ((e ≡ order_closed) ⊎ (e ≡ amount_mismatch)) × WasReversed number d

past_unpaid :
    (s : Status)
    → is_past s ≡ true
    → status_eq s Status.paid ≡ false
    → (s ≡ Status.refunded) ⊎ (s ≡ Status.chargeback)
past_unpaid Status.created h k = absurd (cc h)
past_unpaid Status.paying h k = absurd (cc h)
past_unpaid Status.paid h k = absurd (cc k)
past_unpaid Status.failed h k = absurd (cc h)
past_unpaid Status.closed h k = absurd (cc h)
past_unpaid Status.refunding h k = absurd (cc h)
past_unpaid Status.refunded h k = inl refl
past_unpaid Status.chargeback h k = inr refl

-- An order that was paid is not credited, whatever the callback is.
module _ (route : String) (cb : CallbackBody) (d : Db) (o : PayOrder)
    (found : find_order cb.order_no d ≡ some o) (past : is_past o.status ≡ true) where
  not_creditable :
      (o' : PayOrder) → find_order cb.order_no d ≡ some o' → is_creditable o'.status ≡ true → ⊥
  not_creditable o' found' h =
      creditable_new o.status past
        (subst (λ (x : PayOrder). is_creditable x.status ≡ true) (same_row o' o found' found) h)

  uncredited :
      (env : Env) (b : Bool) (d' : Db) → CreditDone env route cb d b d' → (b ≡ false) × (d' ≡ d)
  uncredited env b d' (inl h) = (h.0, h.1)
  uncredited env b d' (inr (credits, o', n, payable, after)) =
      absurd (not_creditable o' payable.found payable.payable)

  credit-never :
      (env : Env) (w : World)
      → w.db ≡ d
      → OnAtomic w.db (λ b d'. (b ≡ false) × (d' ≡ w.db)) (λ _. Unit) (credit env route cb w)
  credit-never env w e =
      OnAtomic-weaken w.db (credit env route cb w)
        (λ b d' h.
          let x = uncredited env b d' (subst (λ z. CreditDone env route cb z b d') e h) in
          (x.0, x.1 ∙ sym e))
        (λ _ _. tt) (credit_outcome env route cb w)

module _ (route : String) (cb : CallbackBody) (d : Db) (o : PayOrder)
    (s : IsSettled route cb d o) where
  IsSettled-row : (o' : PayOrder) → find_order cb.order_no d ≡ some o' → IsSettled route cb d o'
  IsSettled-row o' found = subst (IsSettled route cb d) (same_row o o' s.found found) s

  unpaid-WasReversed :
      (o' : PayOrder)
      → find_order cb.order_no d ≡ some o'
      → status_eq o'.status Status.paid ≡ false
      → WasReversed cb.order_no d
  unpaid-WasReversed o' found unpaid =
      (o', found, past_unpaid o'.status (IsSettled-row o' found).past unpaid)

  refused-TakenBack : (e : Error) → CreditRefused route cb d e → TakenBack cb.order_no d e
  refused-TakenBack _ (no_order missing) = cc (s.found, missing)
  refused-TakenBack _ (wrong_channel o' f h) = cc ((IsSettled-row o' f).same_channel, h)
  refused-TakenBack _ (other_trade o' f _ h) = cc ((IsSettled-row o' f).same_trade, h)
  refused-TakenBack _ (wrong_amount o' f h _) = (inr refl, unpaid-WasReversed o' f h)
  refused-TakenBack _ (not_payable o' f h _) = (inl refl, unpaid-WasReversed o' f h)
  refused-TakenBack _ (trade_used o' f h _) =
      absurd (not_creditable route cb d o s.found s.past o' f h)
  refused-TakenBack _ (ambiguous o' f h _) =
      absurd (not_creditable route cb d o s.found s.past o' f h)
  refused-TakenBack _ (entry_used o' f h _) =
      absurd (not_creditable route cb d o s.found s.past o' f h)

  still_refused :
      (env : Env) (e : Error)
      → Fails env (CreditRefused route cb d) e
      → Fails env (TakenBack cb.order_no d) e
  still_refused env e (inl down) = inl down
  still_refused env e (inr reason) = inr (refused-TakenBack e reason)

-- What a repetition of the notice comes to on the tables of a world.
pub credit-again :
    (route : String) (cb : CallbackBody) (env : Env) (w : World) (o : PayOrder)
    → IsSettled route cb w.db o
    → OnAtomic w.db
        (λ b d. (b ≡ false) × (d ≡ w.db))
        (Fails env (TakenBack cb.order_no w.db))
        (credit env route cb w)
credit-again route cb env w o s =
    OnAtomic-weaken w.db (credit env route cb w) (uncredited route cb w.db o s.found s.past env)
      (still_refused route cb w.db o s env) (credit_outcome env route cb w)

pub done-IsSettled :
    (env : Env) (route : String) (cb : CallbackBody) (d d' : Db) (b : Bool)
    → CreditDone env route cb d b d'
    → (o : PayOrder) × IsSettled route cb d' o
done-IsSettled env route cb d d' b (inl (again, same, o, found, channel, paid, held)) =
    subst (λ x. (o : PayOrder) × IsSettled route cb x o) (sym same)
      (o, record { found = found; same_channel = channel; past = rw paid; same_trade = held })
done-IsSettled env route cb d d' b (inr (credits, o, n, payable, after)) =
    subst (λ x. (o : PayOrder) × IsSettled route cb x o) (sym after)
      (
        _,
        record {
          found = find-credited route cb (env.clock n) o d payable.found;
          same_channel = payable.same_channel;
          past = refl;
          same_trade = str_eq_refl cb.channel_trade_no;
        },
      )

-- Whatever the service is called for, the order stays one that the notice has paid.
pub serve-IsSettled :
    (route : String) (cb : CallbackBody) (calls : List (Env × Call)) (w : World) (o : PayOrder)
    → IdsUnique w.db.orders
    → IsSettled route cb w.db o
    → (y : PayOrder) × IsSettled route cb (serve calls w).db y
unfolding find_order
serve-IsSettled route cb calls w o unique s =
    let (y, found, same) =
      Reaches-found cb.order_no o w.db.orders (serve calls w).db.orders
        (serve-Reaches calls w unique) s.found in
    (
      y,
      record {
        found = found;
        same_channel = ap (λ c. str_eq c route) same.channel ∙ s.same_channel;
        past = same.past s.past;
        same_trade = ap (λ t. holds_trade cb.channel_trade_no t) (same.trade s.past) ∙ s.same_trade;
      },
    )

-- Once a notice of a payment has credited an order, no later notice of a payment of that order credits it
-- again or writes anything, through whatever channel and for whatever trade, whatever callbacks, expiry
-- checks, refunds, chargebacks and settlement runs come in between. A repetition of the same notice
-- succeeds without crediting; it fails only where the order was refunded or charged back since, or
-- because a statement did not go through. This holds where order ids are unique.
pub credit_once :
    (env : Env) (channel : String) (cb : CallbackBody) (w w' : World)
    → credit env channel cb w ≡ (ok true, w')
    → IdsUnique w'.db.orders
    → (calls : List (Env × Call)) (later : Env) (channel' : String) (cb' : CallbackBody)
    → cb'.order_no ≡ cb.order_no
    → (let u = serve calls w' in
        OnAtomic u.db
          (λ b d. (b ≡ false) × (d ≡ u.db))
          (Fails later (TakenBack cb.order_no u.db))
          (credit later channel cb u)
        × OnAtomic u.db (λ b d. (b ≡ false) × (d ≡ u.db)) (λ _. Unit) (credit later channel' cb' u))
credit_once env channel cb w w' ran unique calls later channel' cb' same =
    let u = serve calls w' in
    let after : CreditDone env channel cb w.db true w'.db =
      subst
        (OnAtomic w.db (CreditDone env channel cb w.db) (Fails env (CreditRefused channel cb w.db)))
        ran (credit_outcome env channel cb w) in
    let (o, settled) = done-IsSettled env channel cb w.db w'.db true after in
    let (y, still) = serve-IsSettled channel cb calls w' o unique settled in
    (
      credit-again channel cb later u y still,
      credit-never channel' cb' u.db y
          (subst (λ k. find_order k u.db ≡ some y) (sym same) still.found) still.past later u refl,
    )
