-- ===== src/Store/Ensures.antt =====
-- What an action that starts on given tables brings about: `Q` of the value and the tables where it
-- returns, `E` of the error and the tables where it fails. One rule for each way to build an action.
pub mod Outcome
pub mod Attempt
use mathlib.Core.Path.{fun_ext}
use feedsystem_video_go_medi.Prelude.{
  ℕ, ℤ, ◌+◌, ◌≡◌, refl, String, Bool, true, false, Option, none, some, if◌then◌else◌, ◌⊎◌, inl, inr,
  Bool-cases, subst, sym,
}
use feedsystem_video_go_medi.Store.Tables.{Db}
use feedsystem_video_go_medi.Store.Monad.{
  Error, connection, dup_key, Result, ok, err, World, Env, Action, ⊤, pure, raise, or_raise, ◌>>=◌,
  raise_if, ignore_dup, now, post, query, execute, execute_unique, insert_unique, update_rows,
  transaction, continue, finish,
}

abbrev pub OnResult :
    {A : Type 0} → (A → Db → Type 0) → (Error → Type 0) → Result A × World → Type 0
OnResult Q E (ok a, w) = Q a w.db
OnResult Q E (err e, w) = E e

-- Wherever a statement may be refused, `E` allows for it.
pub record Tolerates (env : Env) (E : Error → Type 0) : Type 0 where
  pub at : (n : ℕ) → env.statement_ok n ≡ false → E connection

abbrev pub start : Db → ℕ → World
start d n = record { db = d; tick = n }

pub record Ensures (env : Env) {A : Type 0} (d : Db) (m : Action A) (Q : A → Db → Type 0)
    (E : Error → Type 0) : Type 0 where
  pub at : Tolerates env E → (n : ℕ) → OnResult Q E (m (start d n))

module _ {env : Env} {A : Type 0} {Q : A → Db → Type 0} {E : Error → Type 0} {d : Db} where
  pub Ensures-pure : (a : A) → Q a d → Ensures env d (pure a) Q E
  unfolding pure
  Ensures-pure a h = record { at = λ t n. h }

  pub Ensures-raise : (e : Error) → E e → Ensures env d (raise e) Q E
  unfolding raise
  Ensures-raise e h = record { at = λ t n. h }

  pub Ensures-if :
      (b : Bool) (m k : Action A)
      → (b ≡ true → Ensures env d m Q E)
      → (b ≡ false → Ensures env d k Q E)
      → Ensures env d (if b then m else k) Q E
  Ensures-if true m k hm hk = hm refl
  Ensures-if false m k hm hk = hk refl

module _ (env : Env) {B : Type 0} (Q : B → Db → Type 0) (E : Error → Type 0) where
  continue-OnResult :
      {A : Type 0} (r : Result A) (f : A → Action B) (w : World) (R : A → Db → Type 0)
      → ((a : A) (d' : Db) → R a d' → Ensures env d' (f a) Q E)
      → Tolerates env E
      → OnResult R E (r, w)
      → OnResult Q E (continue r f w)
  continue-OnResult (ok a) f w R k t h = (k a w.db h).at t w.tick
  continue-OnResult (err e) f w R k t h = h

-- An action that does all of its work or none: where it fails, the tables are as they were.
abbrev pub OnAtomic :
    {A : Type 0} → Db → (A → Db → Type 0) → (Error → Type 0) → Result A × World → Type 0
OnAtomic d Q E (ok a, w) = Q a w.db
OnAtomic d Q E (err e, w) = E e × (w.db ≡ d)

pub record Atomic (env : Env) {A : Type 0} (d : Db) (m : Action A) (Q : A → Db → Type 0)
    (E : Error → Type 0) : Type 0 where
  pub at : Tolerates env E → (n : ℕ) → OnAtomic d Q E (m (start d n))

module _ (env : Env) {B : Type 0} (Q : B → Db → Type 0) (E : Error → Type 0) where
  finish-OnAtomic :
      (d : Db) (r : Result B) (w : World)
      → Tolerates env E
      → OnResult Q E (r, w)
      → OnAtomic d Q E (finish env d r w)
  finish-OnAtomic d (ok a) w t h = elim (Bool-cases (env.statement_ok w.tick)) [
    | inl up ↦ rw up h
    | inr down ↦ rw down (t.at w.tick down, refl)
  ]
  finish-OnAtomic d (err e) w t h = (h, refl)

module _ {env : Env} {B : Type 0} {Q : B → Db → Type 0} {E : Error → Type 0} {d : Db} where
  pub query-then :
      {A : Type 0} (g : Db → A) (f : A → Action B)
      → Ensures env d (f (g d)) Q E
      → Ensures env d (query env g >>= f) Q E
  unfolding query ◌>>=◌
  query-then g f h = record {
    at = λ t n. elim (Bool-cases (env.statement_ok n)) [
      | inl up ↦ rw up (h.at t (n + 1))
      | inr down ↦ rw down (t.at n down)
    ];
  }

  pub Ensures-bind :
      {A : Type 0} {R : A → Db → Type 0} (m : Action A) (f : A → Action B)
      → Ensures env d m R E
      → ((a : A) (d' : Db) → R a d' → Ensures env d' (f a) Q E)
      → Ensures env d (m >>= f) Q E
  unfolding ◌>>=◌
  Ensures-bind {R = R} m f h k = record {
    at = λ t n. let (r, w) = m (start d n) in continue-OnResult env Q E r f w R k t (h.at t n);
  }

  -- The clock's reading at some tick.
  pub clock-then :
      (f : ℤ → Action B)
      → ((n : ℕ) → Ensures env d (f (env.clock n)) Q E)
      → Ensures env d (now env >>= f) Q E
  unfolding now ◌>>=◌
  clock-then f h = record { at = λ t n. (h n).at t (n + 1) }

  pub post-then :
      (path number : String) (f : Option (ℕ × String) → Action B)
      → ((x : Option (ℕ × String)) → Ensures env d (f x) Q E)
      → Ensures env d (post env path number >>= f) Q E
  unfolding post ◌>>=◌
  post-then path number f h = record { at = λ t n. (h (env.gateway n path number)).at t (n + 1) }

  pub execute-then :
      (g : Db → Db) (f : ⊤ → Action B)
      → Ensures env (g d) (f tt) Q E
      → Ensures env d (execute env g >>= f) Q E
  unfolding execute ◌>>=◌
  execute-then g f h = record {
    at = λ t n. elim (Bool-cases (env.statement_ok n)) [
      | inl up ↦ rw up (h.at t (n + 1))
      | inr down ↦ rw down (t.at n down)
    ];
  }

  pub or_raise-then :
      {A : Type 0} (o : Option A) (e : Error) (f : A → Action B)
      → (o ≡ none → E e)
      → ((a : A) → o ≡ some a → Ensures env d (f a) Q E)
      → Ensures env d (or_raise o e >>= f) Q E
  unfolding or_raise ◌>>=◌
  or_raise-then none e f missing found = record { at = λ t n. missing refl }
  or_raise-then (some a) e f missing found = record { at = λ t n. (found a refl).at t n }

  pub raise_if-then :
      (b : Bool) (e : Error) (f : ⊤ → Action B)
      → (b ≡ true → E e)
      → (b ≡ false → Ensures env d (f tt) Q E)
      → Ensures env d (raise_if b e >>= f) Q E
  unfolding raise_if ◌>>=◌
  raise_if-then true e f refused go = record { at = λ t n. refused refl }
  raise_if-then false e f refused go = record { at = λ t n. (go refl).at t n }

  pub unique-then :
      (taken : Db → Bool) (g : Db → Db) (f : ⊤ → Action B)
      → (taken d ≡ true → E dup_key)
      → (taken d ≡ false → Ensures env (g d) (f tt) Q E)
      → Ensures env d (execute_unique env taken g >>= f) Q E
  unfolding execute_unique ◌>>=◌
  unique-then taken g f refused go = record {
    at = λ t n. elim (Bool-cases (env.statement_ok n)) [
      | inl up ↦ elim (Bool-cases (taken d)) [
        | inl dup ↦ rw (up, dup) (refused dup)
        | inr free ↦ rw (up, free) ((go free).at t (n + 1))
      ]
      | inr down ↦ rw down (t.at n down)
    ];
  }

  pub insert-then :
      {A : Type 0} (taken : Db → Bool) (g : Db → A × Db) (f : A → Action B)
      → (taken d ≡ true → E dup_key)
      → (taken d ≡ false → Ensures env (g d).1 (f (g d).0) Q E)
      → Ensures env d (insert_unique env taken g >>= f) Q E
  unfolding insert_unique ◌>>=◌
  insert-then taken g f refused go = record {
    at = λ t n. elim (Bool-cases (env.statement_ok n)) [
      | inl up ↦ elim (Bool-cases (taken d)) [
        | inl dup ↦ rw (up, dup) (refused dup)
        | inr free ↦ rw (up, free) ((go free).at t (n + 1))
      ]
      | inr down ↦ rw down (t.at n down)
    ];
  }

  pub update_rows-then :
      (taken : Db → Bool) (count : Db → ℕ) (g : Db → Db) (f : ℕ → Action B)
      → (taken d ≡ true → E dup_key)
      → (taken d ≡ false → Ensures env (g d) (f (count d)) Q E)
      → Ensures env d (update_rows env taken count g >>= f) Q E
  unfolding update_rows ◌>>=◌
  update_rows-then taken count g f refused go = record {
    at = λ t n. elim (Bool-cases (env.statement_ok n)) [
      | inl up ↦ elim (Bool-cases (taken d)) [
        | inl dup ↦ rw (up, dup) (refused dup)
        | inr free ↦ rw (up, free) ((go free).at t (n + 1))
      ]
      | inr down ↦ rw down (t.at n down)
    ];
  }

  pub ignore_dup-then :
      (taken : Db → Bool) (g : Db → Db) (f : ⊤ → Action B)
      → (taken d ≡ true → Ensures env d (f tt) Q E)
      → (taken d ≡ false → Ensures env (g d) (f tt) Q E)
      → Ensures env d (ignore_dup (execute_unique env taken g) >>= f) Q E
  unfolding execute_unique ignore_dup ◌>>=◌
  ignore_dup-then taken g f old fresh = record {
    at = λ t n. elim (Bool-cases (env.statement_ok n)) [
      | inl up ↦ elim (Bool-cases (taken d)) [
        | inl dup ↦ rw (up, dup) ((old dup).at t (n + 1))
        | inr free ↦ rw (up, free) ((fresh free).at t (n + 1))
      ]
      | inr down ↦ rw down (t.at n down)
    ];
  }

  pub Atomic-transaction :
      (m : Action B) → Ensures env d m Q E → Atomic env d (transaction env m) Q E
  unfolding transaction
  Atomic-transaction m h = record {
    at = λ t n. let (r, w) = m (start d n) in finish-OnAtomic env Q E d r w t (h.at t n);
  }

continue_assoc :
    {A B C : Type 0} (r : Result A) (g : A → Action B) (f : B → Action C) (w : World)
    → (let (r', w') = continue r g w in continue r' f w') ≡ continue r (λ a. g a >>= f) w
unfolding ◌>>=◌
continue_assoc (ok a) g f w = refl
continue_assoc (err e) g f w = refl

pub >>=_assoc :
    {A B C : Type 0} (m : Action A) (g : A → Action B) (f : B → Action C)
    → (m >>= g >>= f) ≡ (m >>= λ a. g a >>= f)
unfolding ◌>>=◌
>>=_assoc m g f = fun_ext λ w. let (r, w') = m w in continue_assoc r g f w'

module _ {env : Env} {A B : Type 0} {Q : B → Db → Type 0} {E : Error → Type 0} {d : Db} where
  -- A step that is itself a chain: its links first, then what follows.
  pub chain-then :
      (m : Action A) {C : Type 0} (g : A → Action C) (f : C → Action B)
      → Ensures env d (m >>= λ a. g a >>= f) Q E
      → Ensures env d (m >>= g >>= f) Q E
  chain-then m g f h = rw (>>=_assoc m g f) h

  pub pure-then :
      (a : A) (f : A → Action B) → Ensures env d (f a) Q E → Ensures env d (pure a >>= f) Q E
  unfolding pure ◌>>=◌
  pure-then a f h = record { at = h.at }

  pub if-then :
      (b : Bool) (m k : Action A) (f : A → Action B)
      → (b ≡ true → Ensures env d (m >>= f) Q E)
      → (b ≡ false → Ensures env d (k >>= f) Q E)
      → Ensures env d ((if b then m else k) >>= f) Q E
  if-then true m k f hm hk = hm refl
  if-then false m k f hm hk = hk refl

  pub some-then :
      (a : A) (e : Error) (f : A → Action B)
      → Ensures env d (f a) Q E
      → Ensures env d (or_raise (some a) e >>= f) Q E
  unfolding or_raise ◌>>=◌
  some-then a e f h = record { at = h.at }

-- A write with which an action ends.
pub Ensures-execute :
    {env : Env} {Q : ⊤ → Db → Type 0} {E : Error → Type 0} {d : Db} (g : Db → Db)
    → Q tt (g d)
    → Ensures env d (execute env g) Q E
unfolding execute
Ensures-execute {env = env} g h = record {
  at = λ t n. elim (Bool-cases (env.statement_ok n)) [
    | inl up ↦ rw up h
    | inr down ↦ rw down (t.at n down)
  ];
}

-- A test with which an action ends.
pub Ensures-raise_if :
    {env : Env} {Q : ⊤ → Db → Type 0} {E : Error → Type 0} {d : Db} (b : Bool) (e : Error)
    → (b ≡ true → E e)
    → (b ≡ false → Q tt d)
    → Ensures env d (raise_if b e) Q E
unfolding raise_if
Ensures-raise_if true e refused go = record { at = λ t n. refused refl }
Ensures-raise_if false e refused go = record { at = λ t n. go refl }
