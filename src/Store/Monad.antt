-- ===== src/Store/Monad.antt =====
-- Methods of the services as actions: state, errors, and a world that answers. Each contact
-- with the world takes one tick. Whether a statement goes through, what the clock shows and what the
-- payment gateway answers are the world's choice at that tick; a statement that does not go through is
-- an error of the connection.
use feedsystem_video_go_medi.Prelude.{
  ℕ, ℤ, ◌+◌, Bool, true, false, Option, none, some, String, if◌then◌else◌,
}
use feedsystem_video_go_medi.Store.Tables.{Db}
use feedsystem_video_go_medi.Store.Events.{Event}

-- The `Err…` values of the package, and the errors that the database driver returns.
pub data Error : Type 0 where
  package_not_found idempotency_key idempotency_clash channel order_not_found : Error
  order_expired order_closed bad_signature amount_mismatch trade_conflict : Error
  refund_not_allowed insufficient_coin self_gift : Error
  record_not_found dup_key connection no_token : Error
  message gateway_status : String → Error

pub data Result {ℓ} (A : Type ℓ) : Type ℓ where
  ok : A → Result A
  err : Error → Result A

pub record World : Type 0 where
  pub db : Db
  pub tick : ℕ

-- `gateway` answers a request, given by its path and its order, with an HTTP status, its code and its
-- text, or not at all. `trade_query` asks it for the trade of an order: a code, a signature, and the
-- first 2048 bytes of the body. `token` is what the random source gives for a number of bytes, if anything, in
-- hexadecimal digits, `stamp` a time in the digits of an order's number, and `publish` whether the message queue takes an
-- event.
pub record Env : Type 0 where
  pub clock : ℕ → ℤ
  pub statement_ok : ℕ → Bool
  pub gateway : ℕ → String → String → Option (ℕ × String)
  pub trade_query : ℕ → String → Option (ℕ × String × String)
  pub token : ℕ → ℕ → Option String
  pub stamp : ℤ → String
  pub publish : ℕ → Event → Bool

abbrev pub Action : Type 0 → Type 0
Action A = World → Result A × World

abbrev pub ⊤ : Type 0
⊤ = Unit

module _ {A : Type 0} where
  unfoldable pub pure : A → Action A
  pure a w = (ok a, w)

  unfoldable pub raise : Error → Action A
  raise e w = (err e, w)

  -- A row that was looked up, or the error to return where there is none.
  unfoldable pub or_raise : Option A → Error → Action A
  or_raise none e w = (err e, w)
  or_raise (some a) _ w = (ok a, w)

abbrev pub continue : {A B : Type 0} → Result A → (A → Action B) → Action B
continue (ok a) f w = f a w
continue (err e) _ w = (err e, w)

infixl 5 ◌>>=◌ ◌>>◌
unfoldable pub ◌>>=◌ : {A B : Type 0} → Action A → (A → Action B) → Action B
◌>>=◌ m f w = let (r, w') = m w in continue r f w'

abbrev pub ◌>>◌ : {B : Type 0} → Action ⊤ → Action B → Action B
m >> k = m >>= λ _. k

unfoldable pub raise_if : Bool → Error → Action ⊤
raise_if c e w = (if c then err e else ok tt, w)

abbrev pub is_dup_key : Error → Bool
is_dup_key dup_key = true
is_dup_key _ = false

abbrev pub forgive : Result ⊤ → Result ⊤
forgive (ok a) = ok a
forgive (err e) = if is_dup_key e then ok tt else err e

-- `err != nil && !isDupKey(err)`: a duplicate key is not an error here.
unfoldable pub ignore_dup : Action ⊤ → Action ⊤
ignore_dup m w = let (r, w') = m w in (forgive r, w')

abbrev tick_of : World → World
tick_of w = record { db = w.db; tick = w.tick + 1 }

abbrev refused : {A : Type 0} → World → Result A × World
refused w = (err connection, tick_of w)

abbrev token_result : Option String → Result String
token_result none = err no_token
token_result (some t) = ok t

-- A call outside the database whose outcome the caller ignores.
unfoldable pub contact : Action ⊤
contact w = (ok tt, tick_of w)

-- Something that the world says at a tick.
unfoldable pub observe : {A : Type 0} → (ℕ → A) → Action A
observe f w = (ok (f w.tick), tick_of w)

module _ (env : Env) where
  unfoldable pub now : Action ℤ
  now w = (ok (env.clock w.tick), tick_of w)

  -- A request to the payment gateway.
  unfoldable pub post : String → String → Action (Option (ℕ × String))
  post path number w = (ok (env.gateway w.tick path number), tick_of w)

  -- A request for the trade of an order.
  unfoldable pub ask_trade : String → Action (Option (ℕ × String × String))
  ask_trade number w = (ok (env.trade_query w.tick number), tick_of w)

  -- `newToken`: so many random bytes.
  unfoldable pub new_token : ℕ → Action String
  new_token n w = (token_result (env.token w.tick n), tick_of w)

  -- Whether an event was handed to its message queue.
  unfoldable pub publish : Event → Action Bool
  publish e w = (ok (env.publish w.tick e), tick_of w)

  -- A statement that reads.
  unfoldable pub query : {A : Type 0} → (Db → A) → Action A
  query f w = if env.statement_ok w.tick then (ok (f w.db), tick_of w) else refused w

  -- A statement that writes.
  unfoldable pub execute : (Db → Db) → Action ⊤
  execute f w =
      if env.statement_ok w.tick
      then (ok tt, record { db = f w.db; tick = w.tick + 1 })
      else refused w

  -- A write that fails where a unique index has the new key already.
  unfoldable pub execute_unique : (Db → Bool) → (Db → Db) → Action ⊤
  execute_unique taken f w =
      if env.statement_ok w.tick
      then (if taken w.db
          then (err dup_key, tick_of w)
          else (ok tt, record { db = f w.db; tick = w.tick + 1 }))
      else refused w

  -- Such a write whose new row, with its key, the caller reads.
  unfoldable pub insert_unique : {A : Type 0} → (Db → Bool) → (Db → A × Db) → Action A
  insert_unique taken f w =
      if env.statement_ok w.tick
      then (if taken w.db
          then (err dup_key, tick_of w)
          else (ok (f w.db).0, record { db = (f w.db).1; tick = w.tick + 1 }))
      else refused w

  -- Such an `UPDATE` whose `RowsAffected` the caller reads.
  unfoldable pub update_rows : (Db → Bool) → (Db → ℕ) → (Db → Db) → Action ℕ
  update_rows taken count f w =
      if env.statement_ok w.tick
      then (if taken w.db
          then (err dup_key, tick_of w)
          else (ok (count w.db), record { db = f w.db; tick = w.tick + 1 }))
      else refused w

  -- The end of a transaction that began at the tables `before`.
  abbrev pub finish : {A : Type 0} → Db → Result A → World → Result A × World
  finish before (ok a) w =
      if env.statement_ok w.tick
      then (ok a, tick_of w)
      else (err connection, record { db = before; tick = w.tick + 1 })
  finish before (err e) w = (err e, record { db = before; tick = w.tick + 1 })

  -- `db.Transaction`: an error of the body or of the commit rolls every write back.
  unfoldable pub transaction : {A : Type 0} → Action A → Action A
  transaction m w = let (r, w') = m w in finish w.db r w'

-- A call whose error the caller looks at itself.
unfoldable pub attempt : {A : Type 0} → Action A → Action (Result A)
attempt m w = let (r, w') = m w in (ok r, w')
