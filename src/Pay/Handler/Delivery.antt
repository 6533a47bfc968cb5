-- ===== src/Pay/Handler/Delivery.antt =====
-- Notices of a payment that the channel delivers again, until it is answered with 200.
use feedsystem_video_go_medi.Prelude.{
  ℕ, ◌≤◌, ◌≡◌, ◌⊎◌, refl, ap, sym, subst, ◌∙◌, if◌then◌else◌, Bool, true, false, List, some, String,
  Bool-cases, inl, inr, arith,
}
use feedsystem_video_go_medi.Pay.Entity.{PayOrder, CallbackBody}
use feedsystem_video_go_medi.Store.{
  Db, World, Env, Error, connection, Result, ok, err, Action, continue, pure, raise, raise_if, now,
  ◌>>=◌,
}
use feedsystem_video_go_medi.Store.Ensures.{OnAtomic}
use feedsystem_video_go_medi.Store.Ensures.Outcome.{Fails}
use feedsystem_video_go_medi.Pay.Gateway.{
  Codec, known_channel, verify_body, parse_callback, is_incomplete, is_stale,
}
use feedsystem_video_go_medi.Pay.Callback.{handle_callback}
use feedsystem_video_go_medi.Pay.Callback.Signature.{next_tick}
use feedsystem_video_go_medi.Pay.Credit.{credit}
use feedsystem_video_go_medi.Pay.Credit.Outcome.{CreditRefused}
use feedsystem_video_go_medi.Pay.Credit.Refinement.{CreditDone, credit_outcome}
use feedsystem_video_go_medi.Pay.Answer.{
  Response, pay_error_code, pay_error, refused, done, accepted, response, answer,
}
use feedsystem_video_go_medi.Pay.Handler.{post_callback}
use feedsystem_video_go_medi.Pay.Orders.{IdsUnique}
use feedsystem_video_go_medi.Pay.Orders.Life.Service.{Call, serve}
use feedsystem_video_go_medi.Pay.Orders.Settled.{
  IsSettled, WasReversed, TakenBack, credit-again, done-IsSettled, serve-IsSettled,
}

refused_code : (e : Error) → 400 ≤ pay_error_code e
unfolding pay_error_code
refused_code Error.package_not_found = omega arith
refused_code Error.idempotency_key = omega arith
refused_code Error.idempotency_clash = omega arith
refused_code Error.channel = omega arith
refused_code Error.order_not_found = omega arith
refused_code Error.order_expired = omega arith
refused_code Error.order_closed = omega arith
refused_code Error.bad_signature = omega arith
refused_code Error.amount_mismatch = omega arith
refused_code Error.trade_conflict = omega arith
refused_code Error.refund_not_allowed = omega arith
refused_code Error.insufficient_coin = omega arith
refused_code Error.self_gift = omega arith
refused_code Error.record_not_found = omega arith
refused_code Error.dup_key = omega arith
refused_code Error.connection = omega arith
refused_code Error.no_token = omega arith
refused_code (Error.message s) = omega arith
refused_code (Error.gateway_status s) = omega arith

not_refused : (e : Error) → pay_error_code e ≡ 200 → ⊥
not_refused e h = omega (arith, refused_code e, h)

-- The tables are as before, and the answer is 200; or 500, because a statement did not go through; or 400,
-- because the order was refunded or charged back.
abbrev pub IsAcknowledged : Env → String → Db → Response × World → Type 0
IsAcknowledged env number d r =
    (r.1.db ≡ d)
    × ((r.0 ≡ done accepted)
        ⊎ ((r.0 ≡ refused 500 connection) × (n : ℕ) × (env.statement_ok n ≡ false))
        ⊎ ((r.0.code ≡ 400) × WasReversed number d))

-- What the route answers to what comes of `credit`.
abbrev credit_answer : Result Bool → World → Response × World
credit_answer (ok b) w = (done accepted, w)
credit_answer (err e) w = (pay_error e, w)

answered :
    (r : Result Bool) (w : World)
    → (let (r', w') = continue r (λ _. pure tt) w in (response (λ _. accepted) pay_error r', w'))
      ≡ credit_answer r w
unfolding pure
answered (ok b) w = refl
answered (err e) w = refl

paid_branch :
    {A : Type 0} (b : Bool) (m n : Action A) (w : World) → b ≡ true → (if b then m else n) w ≡ m w
paid_branch true m n w h = refl
paid_branch false m n w h = cc

module _ (c : Codec) (secret route body signature : String) (cb : CallbackBody)
    (decoded : c.json_decode body ≡ some cb) (pays : cb.paid ≡ true) where
  abbrev deliver : Env → World → Response × World
  deliver env w = post_callback env c secret route (ok body) signature w

  -- What the checks before `credit` let through.
  record IsChecked : Type 0 where
    known : known_channel route ≡ true
    verified : verify_body c secret signature body ≡ true
    complete : is_incomplete cb ≡ false

  handle-checked :
      (env : Env) (w : World)
      → IsChecked
      → is_stale cb (env.clock w.tick) ≡ false
      → handle_callback env c secret route body signature w
        ≡ (credit env route cb >>= λ _. pure tt) (next_tick w)
  unfolding handle_callback raise_if now parse_callback ◌>>=◌ pure
  handle-checked env w k fresh =
      rw (k.known, k.verified, decoded, k.complete, fresh)
        (paid_branch cb.paid _ _ (next_tick w) pays)

  deliver-checked :
      (env : Env) (w : World)
      → IsChecked
      → is_stale cb (env.clock w.tick) ≡ false
      → (let (r, w') = credit env route cb (next_tick w) in deliver env w ≡ credit_answer r w')
  unfolding post_callback answer ◌>>=◌
  deliver-checked env w k fresh =
      let (r, w') = credit env route cb (next_tick w) in
      ap (λ x. (response (λ _. accepted) pay_error x.0, x.1)) (handle-checked env w k fresh)
      ∙ answered r w'

  fails :
      (env : Env) (w w' : World) (e : Error)
      → deliver env w ≡ (pay_error e, w')
      → (deliver env w).0.code ≡ 200
      → ⊥
  fails env w w' e at h = not_refused e (subst (λ x. x.0.code ≡ 200) at h)

  accepted-IsChecked :
      (env : Env) (w : World)
      → (deliver env w).0.code ≡ 200
      → IsChecked × (is_stale cb (env.clock w.tick) ≡ false)
  unfolding post_callback answer handle_callback raise_if now parse_callback ◌>>=◌ raise
  accepted-IsChecked env w h = elim (Bool-cases (known_channel route)) [
    | inr unknown ↦ absurd (fails env w w Error.channel (rw unknown refl) h)
    | inl known ↦ elim (Bool-cases (verify_body c secret signature body)) [
      | inr bad ↦ absurd (fails env w w Error.bad_signature (rw (known, bad) refl) h)
      | inl verified ↦ elim (Bool-cases (is_incomplete cb)) [
        | inl bad ↦ absurd (
            fails env w (next_tick w) (Error.message "callback fields are required")
              (rw (known, verified, decoded, bad) refl) h)
        | inr complete ↦ elim (Bool-cases (is_stale cb (env.clock w.tick))) [
          | inl old ↦ absurd (
              fails env w (next_tick w) (Error.message "callback timestamp expired")
                (rw (known, verified, decoded, complete, old) refl) h)
          | inr fresh ↦ (record { known = known; verified = verified; complete = complete }, fresh)
        ]
      ]
    ]
  ]

  credit_answer-done :
      (env : Env) (d : Db) (r : Result Bool) (w : World)
      → OnAtomic d (CreditDone env route cb d) (Fails env (CreditRefused route cb d)) (r, w)
      → (credit_answer r w).0.code ≡ 200
      → (o : PayOrder) × IsSettled route cb (credit_answer r w).1.db o
  credit_answer-done env d (ok b) w h code = done-IsSettled env route cb d w.db b h
  credit_answer-done env d (err e) w h code = absurd (not_refused e code)

  credit_answer-IsAcknowledged :
      (env : Env) (d : Db) (r : Result Bool) (w : World)
      → OnAtomic d (λ b d'. (b ≡ false) × (d' ≡ d)) (Fails env (TakenBack cb.order_no d)) (r, w)
      → IsAcknowledged env cb.order_no d (credit_answer r w)
  unfolding pay_error_code
  credit_answer-IsAcknowledged env d (ok b) w h = (h.1, inl refl)
  credit_answer-IsAcknowledged env d (err e) w (inl (lost, n, down), same) =
      (same, inr (inl (ap pay_error lost, n, down)))
  credit_answer-IsAcknowledged env d (err e) w (inr (inl shut, back), same) =
      (same, inr (inr (ap pay_error_code shut, back)))
  credit_answer-IsAcknowledged env d (err e) w (inr (inr other, back), same) =
      (same, inr (inr (ap pay_error_code other, back)))

  accepted-IsSettled :
      (env : Env) (w : World)
      → (deliver env w).0.code ≡ 200
      → (o : PayOrder) × IsSettled route cb (deliver env w).1.db o
  accepted-IsSettled env w h =
      let (k, fresh) = accepted-IsChecked env w h in
      let first = deliver-checked env w k fresh in
      let (r, w') = credit env route cb (next_tick w) in
      subst (λ x. (o : PayOrder) × IsSettled route cb x.1.db o) (sym first)
        (credit_answer-done env w.db r w' (credit_outcome env route cb (next_tick w))
          (subst (λ x. x.0.code ≡ 200) first h))

  -- A notice of a payment that the route has answered with 200 is answered with 200 again when it is
  -- delivered within five minutes of its own time, and changes nothing, whatever callbacks, expiry
  -- checks, refunds, chargebacks and settlement runs come in between. The answer is 400 only where the
  -- order was refunded or charged back since, and 500 only because a statement did not go through. This
  -- holds where order ids are unique.
  pub post_callback-IsAcknowledged :
      (env later : Env) (w : World) (calls : List (Env × Call))
      → (deliver env w).0.code ≡ 200
      → IdsUnique (deliver env w).1.db.orders
      → is_stale cb (later.clock (serve calls (deliver env w).1).tick) ≡ false
      → (let u = serve calls (deliver env w).1 in
          IsAcknowledged later cb.order_no u.db (deliver later u))
  post_callback-IsAcknowledged env later w calls h unique fresh =
      let u = serve calls (deliver env w).1 in
      let (o, settled) = accepted-IsSettled env w h in
      let (y, still) = serve-IsSettled route cb calls (deliver env w).1 o unique settled in
      subst (IsAcknowledged later cb.order_no u.db)
        (sym (deliver-checked later u (accepted-IsChecked env w h).0 fresh))
        (credit_answer-IsAcknowledged later u.db _ _
          (credit-again route cb later (next_tick u) y still))
