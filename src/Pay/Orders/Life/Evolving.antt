-- ===== src/Pay/Orders/Life/Evolving.antt =====
-- Actions that only let orders evolve, and how they compose.
use feedsystem_video_go_medi.Prelude.{Bool, true, false, String, if◌then◌else◌, arith}
use feedsystem_video_go_medi.Store.{
  Db, World, Env, Error, Action, Result, ok, err, pure, raise, raise_if, now, post, query, attempt,
  continue, ◌>>=◌,
}
use feedsystem_video_go_medi.Pay.Callback.{from_result}
use feedsystem_video_go_medi.Pay.Orders.{IdsUnique}
use feedsystem_video_go_medi.Pay.Orders.Life.{Reaches, here, Reaches-trans, Reaches-IdsUnique}

-- An action that only lets orders evolve, as long as their ids are unique.
pub record Evolving {A : Type 0} (m : Action A) : Type 0 where
  pub at : (w : World) → IdsUnique w.db.orders → Reaches w.db.orders (m w).1.db.orders

module _ {A B : Type 0} where
  continue-Reaches :
      (r : Result A) (f : A → Action B) (w : World)
      → ((a : A) → Evolving (f a))
      → IdsUnique w.db.orders
      → Reaches w.db.orders (continue r f w).1.db.orders
  continue-Reaches (ok a) f w h u = (h a).at w u
  continue-Reaches (err e) f w h u = here w.db.orders

  pub bind-Evolving :
      (m : Action A) (f : A → Action B)
      → Evolving m
      → ((a : A) → Evolving (f a))
      → Evolving (m >>= f)
  unfolding ◌>>=◌
  bind-Evolving m f hm hf = record {
    at = λ w u.
        let first : Reaches w.db.orders (m w).1.db.orders = hm.at w u in
        Reaches-trans first (continue-Reaches (m w).0 f (m w).1 hf (Reaches-IdsUnique first u));
  }

module _ {A : Type 0} where
  pub pure-Evolving : (a : A) → Evolving (pure a)
  unfolding pure
  pure-Evolving a = record { at = λ w u. here w.db.orders }

  pub raise-Evolving : (e : Error) → Evolving (raise {A = A} e)
  unfolding raise
  raise-Evolving e = record { at = λ w u. here w.db.orders }

  pub if-Evolving :
      (b : Bool) (m k : Action A) → Evolving m → Evolving k → Evolving (if b then m else k)
  if-Evolving true m k hm hk = hm
  if-Evolving false m k hm hk = hk

  pub from_result-Evolving : (r : Result A) → Evolving (from_result r)
  from_result-Evolving (ok a) = pure-Evolving a
  from_result-Evolving (err e) = raise-Evolving e

  pub attempt-Evolving : (m : Action A) → Evolving m → Evolving (attempt m)
  unfolding attempt
  attempt-Evolving m h = record { at = h.at }

pub raise_if-Evolving : (b : Bool) (e : Error) → Evolving (raise_if b e)
unfolding raise_if
raise_if-Evolving b e = record { at = λ w u. here w.db.orders }

module _ (env : Env) where
  pub now-Evolving : Evolving (now env)
  unfolding now
  now-Evolving = record { at = λ w u. here w.db.orders }

  pub post-Evolving : (path number : String) → Evolving (post env path number)
  unfolding post
  post-Evolving path number = record { at = λ w u. here w.db.orders }

  pub query-Evolving : {A : Type 0} (f : Db → A) → Evolving (query env f)
  unfolding query
  query-Evolving f = record { at = λ w u. ground (arith, here w.db.orders) }
