-- ===== src/Pay/Orders/Life/Service.antt =====
-- The methods of the payment service, called in any sequence, against the life of an order.
use feedsystem_video_go_medi.Prelude.{
  ℕ, ℤ, ◌+◌, ◌≡◌, refl, Bool, true, false, Option, none, some, List, [], ◌∷◌, String, find, ◌==◌,
  leb, and-true, arith,
}
use feedsystem_video_go_medi.Pay.Entity.{Status, PayOrder, CallbackBody}
use feedsystem_video_go_medi.Store.{
  Db, World, Env, Error, refund_not_allowed, gateway_status, Action, ⊤, ok, err, pure, execute,
  ◌>>=◌,
}
use feedsystem_video_go_medi.Pay.Rows.{has_id, update_orders}
use feedsystem_video_go_medi.Pay.Books.{reverse, settle_one}
use feedsystem_video_go_medi.Pay.Credit.{credit, mark_failed, with_status}
use feedsystem_video_go_medi.Pay.Gateway.{Codec, gateway_mutate, gateway_verdict, parse_callback}
use feedsystem_video_go_medi.Pay.Callback.{handle_callback, apply_callback}
use feedsystem_video_go_medi.Pay.Expiry.{close_if_expired, release_gateway_hold, has_id_open}
use feedsystem_video_go_medi.Pay.Batch.{refund_order, chargeback_order, settle_due, settle_all}
use feedsystem_video_go_medi.Pay.Orders.{expire, IdsUnique, AllEvolve, AllEvolve-update}
use feedsystem_video_go_medi.Pay.Orders.Methods.{
  credit-AllEvolve, mark_failed-AllEvolve, settle_one-AllEvolve, reverse-AllEvolve,
}
use feedsystem_video_go_medi.Pay.Orders.Life.{
  Reaches, here, Reaches-step, Reaches-trans, Reaches-IdsUnique, Reaches-Kept, Kept,
}
use feedsystem_video_go_medi.Pay.Orders.Life.Evolving.{
  Evolving, bind-Evolving, pure-Evolving, raise-Evolving, if-Evolving, from_result-Evolving,
  attempt-Evolving, raise_if-Evolving, now-Evolving, post-Evolving, query-Evolving,
}

module _ (env : Env) where
  credit-Evolving : (channel : String) (cb : CallbackBody) → Evolving (credit env channel cb)
  credit-Evolving channel cb = record {
    at = λ w u. Reaches-step (credit-AllEvolve env channel cb w);
  }

  mark_failed-Evolving :
      (channel : String) (cb : CallbackBody) → Evolving (mark_failed env channel cb)
  mark_failed-Evolving channel cb = record {
    at = λ w u. Reaches-step (mark_failed-AllEvolve env channel cb w);
  }

  settle_one-Evolving : (number : String) → Evolving (settle_one env number)
  settle_one-Evolving number = record {
    at = λ w u. Reaches-step (settle_one-AllEvolve env number w);
  }

  reverse-Evolving :
      (account : ℕ) (number : String) (chargeback : Bool)
      → Evolving (reverse env account number chargeback)
  reverse-Evolving account number chargeback = record {
    at = λ w u. Reaches-step (reverse-AllEvolve env account number chargeback w u);
  }

  closed-AllEvolve :
      (k : ℕ) (d : Db)
      → AllEvolve d.orders (update_orders (has_id_open k) (with_status Status.closed) d).orders
  unfolding update_orders
  closed-AllEvolve k d =
      AllEvolve-update (has_id_open k) (with_status Status.closed) d.orders (λ x chosen. record {
        id = refl;
        order_no = refl;
        account_id = refl;
        amount_fen = refl;
        coins = refl;
        channel = refl;
        trade = λ _. refl;
        move = expire x.status (and-true _ _ chosen).1;
      })

  close-Evolving :
      (k : ℕ) → Evolving (execute env (update_orders (has_id_open k) (with_status Status.closed)))
  unfolding execute
  close-Evolving k = record {
    at = λ w u. ground (arith, here w.db.orders, Reaches-step (closed-AllEvolve k w.db));
  }

  release_gateway_hold-Evolving : (number : String) → Evolving (release_gateway_hold env number)
  unfolding release_gateway_hold
  release_gateway_hold-Evolving number =
      bind-Evolving _ _ (post-Evolving env "/trade/close" number) (λ _. pure-Evolving tt)

  close_if_expired-Evolving : (o : PayOrder) → Evolving (close_if_expired env o)
  unfolding close_if_expired
  close_if_expired-Evolving o = if-Evolving _ _ _ (pure-Evolving _) (
      bind-Evolving _ _ (now-Evolving env) (λ t. if-Evolving _ _ _ (pure-Evolving _) (
        bind-Evolving _ _ (close-Evolving o.id) (λ _.
          bind-Evolving _ _ (release_gateway_hold-Evolving o.order_no) (λ _. pure-Evolving _)))))

  apply_callback-Evolving :
      (channel : String) (cb : CallbackBody) → Evolving (apply_callback env channel cb)
  apply_callback-Evolving channel cb =
      if-Evolving _ _ _ (bind-Evolving _ _ (credit-Evolving channel cb) (λ _. pure-Evolving tt))
        (mark_failed-Evolving channel cb)

  handle_callback-Evolving :
      (c : Codec) (secret channel body signature : String)
      → Evolving (handle_callback env c secret channel body signature)
  unfolding handle_callback
  handle_callback-Evolving c secret channel body signature =
      bind-Evolving _ _ (raise_if-Evolving _ _) (λ _.
        bind-Evolving _ _ (raise_if-Evolving _ _) (λ _. bind-Evolving _ _ (now-Evolving env) (λ t.
          bind-Evolving _ _ (from_result-Evolving (parse_callback c body t))
            (λ cb. apply_callback-Evolving channel cb))))

  gateway_verdict-Evolving : (reply : Option (ℕ × String)) → Evolving (gateway_verdict reply)
  gateway_verdict-Evolving none = pure-Evolving tt
  gateway_verdict-Evolving (some (code, text)) = if-Evolving _ _ _ (pure-Evolving tt) (
      if-Evolving (code == 409) _ _ (raise-Evolving refund_not_allowed)
        (if-Evolving (leb 300 code) _ _ (raise-Evolving (gateway_status text)) (pure-Evolving tt)))

  gateway_mutate-Evolving : (number path : String) → Evolving (gateway_mutate env number path)
  unfolding gateway_mutate
  gateway_mutate-Evolving number path =
      bind-Evolving _ _ (post-Evolving env path number) gateway_verdict-Evolving

  settle_all-Evolving : (due : List PayOrder) (n : ℕ) → Evolving (settle_all env due n)
  unfolding settle_all
  settle_all-Evolving [] n = pure-Evolving _
  settle_all-Evolving (o ∷ os) n =
      bind-Evolving _ _ (attempt-Evolving _ (settle_one-Evolving o.order_no)) (λ r.
        elim r
          as (λ k.
            Evolving {A = ℕ × Option Error}
              (elim k [ ok u ↦ settle_all env os (n + 1) | err e ↦ pure (n, some e) ])) [
                | ok u ↦ settle_all-Evolving os (n + 1)
                | err e ↦ pure-Evolving _
              ])

-- A call of the payment service.
pub data Call : Type 0 where
  notify : Codec → (secret channel body signature : String) → Call
  check_expiry : PayOrder → Call
  refund_call : (account : ℕ) (number : String) → Call
  chargeback_call : (account : ℕ) (number : String) → Call
  settle_call : (after : ℤ) → Call

abbrev pub call : Env → Call → Action ⊤
call env (notify c secret channel body signature) =
    handle_callback env c secret channel body signature
call env (check_expiry o) = close_if_expired env o >>= λ _. pure tt
call env (refund_call account number) = refund_order env account number >>= λ _. pure tt
call env (chargeback_call account number) = chargeback_order env account number >>= λ _. pure tt
call env (settle_call after) = settle_due env after >>= λ _. pure tt

-- Calls one after the other, whatever each of them returns, each with its own answers of the world.
unfoldable pub serve : List (Env × Call) → World → World
serve [] w = w
serve ((env, c) ∷ cs) w = serve cs (call env c w).1

call-Evolving : (env : Env) (c : Call) → Evolving (call env c)
unfolding refund_order chargeback_order settle_due
call-Evolving env (notify c secret channel body signature) =
    handle_callback-Evolving env c secret channel body signature
call-Evolving env (check_expiry o) =
    bind-Evolving _ _ (close_if_expired-Evolving env o) (λ _. pure-Evolving tt)
call-Evolving env (refund_call account number) =
    bind-Evolving _ _
      (bind-Evolving _ _ (gateway_mutate-Evolving env number "/trade/refund")
        (λ _. reverse-Evolving env account number false))
      (λ _. pure-Evolving tt)
call-Evolving env (chargeback_call account number) =
    bind-Evolving _ _
      (bind-Evolving _ _ (gateway_mutate-Evolving env number "/trade/chargeback")
        (λ _. reverse-Evolving env account number true))
      (λ _. pure-Evolving tt)
call-Evolving env (settle_call after) =
    bind-Evolving _ _
      (bind-Evolving _ _ (now-Evolving env)
        (λ t. bind-Evolving _ _ (query-Evolving env _) (λ due. settle_all-Evolving env due 0)))
      (λ _. pure-Evolving tt)

pub serve-Reaches :
    (calls : List (Env × Call)) (w : World)
    → IdsUnique w.db.orders
    → Reaches w.db.orders (serve calls w).db.orders
unfolding serve
serve-Reaches [] w u = here w.db.orders
serve-Reaches ((env, c) ∷ cs) w u =
    let first : Reaches w.db.orders (call env c w).1.db.orders = (call-Evolving env c).at w u in
    Reaches-trans first (serve-Reaches cs (call env c w).1 (Reaches-IdsUnique first u))

-- However callbacks, expiry checks, refunds, chargebacks and settlement runs follow one another,
-- whichever of them fail, and whatever database, clock and gateway answer: an order stays in the table
-- under its id with its number, owner, channel, price and coins, one that is paid keeps its trade, and
-- one that has failed, was refunded or was charged back stays so, where order ids are unique.
pub serve-Kept :
    (calls : List (Env × Call)) (w : World) (k : ℕ) (o : PayOrder)
    → IdsUnique w.db.orders
    → find (has_id k) w.db.orders ≡ some o
    → Kept k o (serve calls w).db.orders
serve-Kept calls w k o u found =
    Reaches-Kept k o w.db.orders (serve calls w).db.orders (serve-Reaches calls w u) found
