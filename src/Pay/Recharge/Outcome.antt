-- ===== src/Pay/Recharge/Outcome.antt =====
-- `CreateRecharge` against what it promises: one order for each account and idempotency key.
use feedsystem_video_go_medi.Prelude.{
  ℕ, ℤ, ◌≡◌, refl, eqb_ℤ, true, false, ◌⊎◌, inl, inr, Option, none, some, String, str_eq_refl,
  str_append, ◌==◌, ==-refl, find, not-true,
}
use feedsystem_video_go_medi.Pay.Entity.{PayOrder, CoinPackage}
use feedsystem_video_go_medi.Store.{
  Db, World, Env, Error, message, package_not_found, idempotency_key, idempotency_clash,
  record_not_found, no_token,
}
use feedsystem_video_go_medi.Store.Ensures.{
  Ensures, OnResult, query-then, or_raise-then, raise_if-then, Ensures-pure, Ensures-raise,
  clock-then, chain-then, pure-then,
}
use feedsystem_video_go_medi.Store.Ensures.Outcome.{Fails, Fails-Tolerates}
use feedsystem_video_go_medi.Store.Ensures.Attempt.{attempt_insert-then, token-then}
use feedsystem_video_go_medi.Pay.Gateway.{known_channel, new_order_no}
use feedsystem_video_go_medi.Pay.Recharge.{
  CreateRechargeRequest, is_unnamed, is_ill_priced, is_other_purchase, is_bad_key, wanted,
  find_keyed, add_order, new_order, channel_or_mock, same_purchase, find_package, order_taken,
  created_or_existing, insert_order, order_once, create_recharge,
}

-- The number that is made of a time and of random digits.
abbrev pub order_no_of : Env → ℤ → String → String
order_no_of env t digits = str_append "P" (str_append (env.stamp t) digits)

-- The order that is to be added, at the clock's reading at `n` and with the random digits at `k`.
abbrev pub fresh_order :
    Env → ℕ → String → CreateRechargeRequest → CoinPackage → ℕ → String → PayOrder
fresh_order env account key req p n digits =
    new_order (order_no_of env (env.clock n) digits) account key (channel_or_mock req.channel) p
      (env.clock n)

-- Why no order is returned, error by error, with what was found in the tables `d`.
pub data RechargeRefused (env : Env) (account : ℕ) (key : String) (req : CreateRechargeRequest)
    (d : Db) : Error → Type 0 where
  no_account :
      (account == 0) ≡ true
      → RechargeRefused env account key req d (message "account_id is required")
  bad_key : is_bad_key key ≡ true → RechargeRefused env account key req d idempotency_key
  bad_channel :
      known_channel (channel_or_mock req.channel) ≡ false
      → RechargeRefused env account key req d Error.channel
  unnamed : is_unnamed req ≡ true → RechargeRefused env account key req d package_not_found
  no_package :
      find (wanted req) d.packages ≡ none → RechargeRefused env account key req d package_not_found
  ill_priced :
      (p : CoinPackage)
      → find (wanted req) d.packages ≡ some p
      → is_ill_priced p ≡ true
      → RechargeRefused env account key req d package_not_found
  other_purchase :
      (p : CoinPackage) (o : PayOrder)
      → find (wanted req) d.packages ≡ some p
      → find_keyed account key d ≡ some o
      → is_other_purchase p o ≡ true
      → RechargeRefused env account key req d idempotency_clash
  number_taken :
      (p : CoinPackage) (n k : ℕ) (digits : String)
      → find (wanted req) d.packages ≡ some p
      → find_keyed account key d ≡ none
      → env.token k 4 ≡ some digits
      → order_taken (fresh_order env account key req p n digits) d ≡ true
      → RechargeRefused env account key req d record_not_found
  random_source : (k : ℕ) → env.token k 4 ≡ none → RechargeRefused env account key req d no_token

-- The order that is returned is the one under the key, and is for the package that was asked for. Either no
-- table changed, or it was added under the account and the key, for the package's coins and price,
-- with the clock's reading as its time and a number of that reading and of random digits, which no
-- order had.
pub record RechargeDone (env : Env) (account : ℕ) (key : String) (req : CreateRechargeRequest)
    (d : Db) (o : PayOrder) (d' : Db) : Type 0 where
  pub chosen : CoinPackage
  pub listed : find (wanted req) d.packages ≡ some chosen
  pub keyed : find_keyed account key d' ≡ some o
  pub same : is_other_purchase chosen o ≡ false
  pub tables :
      ((d' ≡ d) × (find_keyed account key d ≡ some o))
      ⊎ ((find_keyed account key d ≡ none)
          × (n : ℕ) × (k : ℕ) × (digits : String) × (env.token k 4 ≡ some digits)
          × (order_taken (fresh_order env account key req chosen n digits) d ≡ false)
          × (d' ≡ (add_order (fresh_order env account key req chosen n digits) d).1))

eqb_refl : (a : ℤ) → eqb_ℤ a a ≡ true
eqb_refl a = ==-refl _

new_keyed :
    (number channel key : String) (account : ℕ) (p : CoinPackage) (t : ℤ) (d : Db)
    → let x = add_order (new_order number account key channel p t) d in
      (find_keyed account key x.1 ≡ some x.0) × (is_other_purchase p x.0 ≡ false)
unfolding add_order find_keyed find
new_keyed number channel key account p t d =
    (rw (==-refl account, str_eq_refl key), rw (str_eq_refl p.code, eqb_refl p.price_fen))

module _ {env : Env} (account : ℕ) (key : String) (req : CreateRechargeRequest) (d : Db)
    (E : Error → Type 0) (fails : (e : Error) → RechargeRefused env account key req d e → E e)
    (p : CoinPackage) (listed : find (wanted req) d.packages ≡ some p) where
  existing-Done :
      (o : PayOrder)
      → find_keyed account key d ≡ some o
      → Ensures env d (same_purchase p o) (RechargeDone env account key req d) E
  unfolding same_purchase
  existing-Done o found =
      raise_if-then _ _ _ (λ other. fails _ (other_purchase p o listed found other))
        (λ same. Ensures-pure o (record {
          chosen = p;
          listed = listed;
          keyed = found;
          same = same;
          tables = inl (refl, found);
        }))

  inserted-Done :
      find_keyed account key d ≡ none
      → Ensures env d
          (insert_order env account key (channel_or_mock req.channel) p)
          (RechargeDone env account key req d)
          E
  unfolding insert_order new_order_no created_or_existing
  inserted-Done missing = clock-then _ (λ n. chain-then _ _ _ (
      token-then 4 _ (λ k none_there. fails _ (random_source k none_there))
        (λ tk k given. pure-then _ _ (
          attempt_insert-then _ _ _ (λ lost. Ensures-raise _ lost)
            (λ used. query-then (find_keyed account key) _ (
              or_raise-then _ _ _ (λ gone. fails _ (number_taken p n k tk listed gone given used))
                (λ o found. existing-Done o found)))
            (λ free.
              let (under_key, same) =
                new_keyed (order_no_of env (env.clock n) tk) (channel_or_mock req.channel) key
                  account p (env.clock n) d in
              Ensures-pure _ (record {
                chosen = p;
                listed = listed;
                keyed = under_key;
                same = same;
                tables = inr (missing, n, k, tk, given, free, refl);
              }))))))

  once-Done :
      (x : Option PayOrder)
      → find_keyed account key d ≡ x
      → Ensures env d
          (order_once env account key (channel_or_mock req.channel) p x)
          (RechargeDone env account key req d)
          E
  unfolding order_once
  once-Done none missing = inserted-Done missing
  once-Done (some o) found = existing-Done o found

-- A recharge returns the order that stands under the account's idempotency key afterwards, for the package
-- that the request names: either the one that stood there before, with no table changed, or a new
-- one and nothing else, with the clock's reading as its time and a number, made of that reading and
-- of random digits, that no order had. It fails for no account, a key that is empty or longer than 64
-- bytes, an unknown channel, a package that is not named, not on sale or ill priced, a key in use
-- for another purchase, a new number that an order has already, a random source that gives nothing,
-- or because a statement did not go through.
pub create_recharge_outcome :
    (env : Env) (trim : String → String) (account : ℕ) (req : CreateRechargeRequest) (w : World)
    → OnResult
        (RechargeDone env account (trim req.idempotency_key) req w.db)
        (Fails env (RechargeRefused env account (trim req.idempotency_key) req w.db))
        (create_recharge env trim account req w)
unfolding create_recharge find_package
create_recharge_outcome env trim account req w =
    let key = trim req.idempotency_key in
    (raise_if-then {env = env} {d = w.db} _ _ _ (λ zero. inr (no_account zero))
        (λ some_account.
          raise_if-then _ _ _ (λ bad. inr (bad_key bad))
            (λ good.
              raise_if-then _ _ _ (λ bad. inr (bad_channel (not-true _ bad)))
                (λ known. chain-then _ _ _ (
                  raise_if-then _ _ _ (λ none_named. inr (unnamed none_named))
                    (λ named. chain-then _ _ _ (
                      query-then (λ d. find (wanted req) d.packages) _
                        (chain-then _ _ _ (
                          or_raise-then _ _ _ (λ missing. inr (no_package missing))
                            (λ p listed. chain-then _ _ _ (
                              raise_if-then _ _ _ (λ ill. inr (ill_priced p listed ill))
                                (λ priced. pure-then p _ (
                                  query-then (find_keyed account key) _ (
                                    once-Done account key req w.db _ (λ e h. inr h) p listed _
                                      refl)))))))))))))).at
      Fails-Tolerates w.tick
