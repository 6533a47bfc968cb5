-- ===== src/Store/Ensures/Outcome.antt =====
-- What an atomic action keeps, what is known of a run of it, and when it succeeds.
use feedsystem_video_go_medi.Prelude.{
  ℕ, ◌≡◌, refl, sym, subst, true, false, ◌⊎◌, inl, inr, ◌∙◌, Bool, Bool-cases, Option, none, some,
}
use feedsystem_video_go_medi.Store.Tables.{Db}
use feedsystem_video_go_medi.Store.Events.{Event}
use feedsystem_video_go_medi.Store.Monad.{
  Error, connection, Result, ok, err, World, Env, Action, continue, ◌>>=◌, query, or_raise, pure,
  raise_if, publish, execute_unique,
}
use feedsystem_video_go_medi.Store.Ensures.{OnAtomic, OnResult, Atomic, Tolerates, start}

-- What an atomic action keeps if each of its successful runs keeps it.
module _ {A : Type 0} (P : Db → Type 0) where
  kept :
      (d : Db) (r : Result A) (w : World)
      → P d
      → OnAtomic d (λ _ d'. P d') (λ _. Unit) (r, w)
      → P w.db
  kept d (ok a) w before h = h
  kept d (err e) w before h = subst P (sym h.1) before

  pub Atomic-keeps :
      {env : Env} {m : Action A} (w : World)
      → P w.db
      → Atomic env w.db m (λ _ d'. P d') (λ _. Unit)
      → P (m w).1.db
  Atomic-keeps {m = m} w before h =
      let (r, w') = m w in kept w.db r w' before (h.at (record { at = λ n down. tt }) w.tick)

-- An atomic action's outcome, read off a run of it.
module _ {env : Env} {A : Type 0} {Q : A → Db → Type 0} {E : Error → Type 0} {m : Action A}
    {w w' : World} where
  pub when_ok : {a : A} → Atomic env w.db m Q E → Tolerates env E → m w ≡ (ok a, w') → Q a w'.db
  when_ok h t e = subst (OnAtomic w.db Q E) e (h.at t w.tick)

module _ {A : Type 0} (d : Db) {Q Q' : A → Db → Type 0} {E E' : Error → Type 0} where
  pub OnAtomic-weaken :
      (x : Result A × World)
      → ((a : A) (d' : Db) → Q a d' → Q' a d')
      → ((e : Error) → E e → E' e)
      → OnAtomic d Q E x
      → OnAtomic d Q' E' x
  OnAtomic-weaken (ok a, w) f g h = f a w.db h
  OnAtomic-weaken (err e, w) f g h = (g e h.0, h.1)

-- Less is known where nothing is said of a failure's tables.
pub OnAtomic-OnResult :
    {A : Type 0} (d : Db) (Q Q' : A → Db → Type 0) (E : Error → Type 0) (x : Result A × World)
    → ((a : A) (d' : Db) → Q a d' → Q' a d')
    → OnAtomic d Q E x
    → OnResult Q' E x
OnAtomic-OnResult d Q Q' E (ok a, w) f h = f a w.db h
OnAtomic-OnResult d Q Q' E (err e, w) f h = h.0

pub OnAtomic-same :
    {A : Type 0} (d : Db) (E : Error → Type 0) (x : Result A × World)
    → OnAtomic d (λ _ d'. d' ≡ d) E x
    → x.1.db ≡ d
OnAtomic-same d E (ok a, w) h = h
OnAtomic-same d E (err e, w) h = h.1

-- An error of the connection, which only a refused statement brings about, or one of the reasons `E`.
abbrev pub Fails : Env → (Error → Type 0) → Error → Type 0
Fails env E e = ((e ≡ connection) × (n : ℕ) × (env.statement_ok n ≡ false)) ⊎ E e

module _ {env : Env} {E : Error → Type 0} where
  pub Fails-Tolerates : Tolerates env (Fails env E)
  Fails-Tolerates = record { at = λ n down. inl (refl, n, down) }

  pub reliable-Tolerates : ((n : ℕ) → env.statement_ok n ≡ true) → Tolerates env E
  reliable-Tolerates up = record { at = λ n down. cc (up n, down) }

-- An atomic action that cannot fail.
module _ {A : Type 0} (Q : A → Db → Type 0) where
  succeeded :
      (d : Db) (x : Result A × World)
      → OnAtomic d Q (λ _. ⊥) x
      → (a : A) × (x.0 ≡ ok a) × Q a x.1.db
  succeeded d (ok a, w) h = (a, refl, h)
  succeeded d (err e, w) h = absurd h.0

module _ {A : Type 0} {Q : A → Db → Type 0} where
  pub Atomic-succeeds :
      {env : Env} {m : Action A} (w : World)
      → ((n : ℕ) → env.statement_ok n ≡ true)
      → Atomic env w.db m Q (λ _. ⊥)
      → (a : A) × ((m w).0 ≡ ok a) × Q a (m w).1.db
  Atomic-succeeds {m = m} w up h = succeeded Q w.db (m w) (h.at (reliable-Tolerates up) w.tick)

-- An atomic action that may succeed in more ways.
pub Atomic-weaken :
    {env : Env} {A : Type 0} {Q Q' : A → Db → Type 0} {E : Error → Type 0} {d : Db} {m : Action A}
    → ((a : A) (d' : Db) → Q a d' → Q' a d')
    → Atomic env d m Q E
    → Atomic env d m Q' E
Atomic-weaken {d = d} {m = m} f h = record {
  at = λ t n. OnAtomic-weaken d (m (start d n)) f (λ e x. x) (h.at t n);
}

-- An action that only reads leaves the tables, and one that fails without a trace leaves them as well.
pub record Reads {A : Type 0} (m : Action A) : Type 0 where
  pub same : (w : World) → (m w).1.db ≡ w.db

pub record Traceless {A : Type 0} (m : Action A) : Type 0 where
  pub same : (w : World) → OnAtomic w.db (λ _ _. Unit) (λ _. Unit) (m w)

module _ {A B : Type 0} where
  continue-Traceless :
      (d : Db) (r : Result A) (w : World) (f : A → Action B)
      → w.db ≡ d
      → ((a : A) → Traceless (f a))
      → OnAtomic d (λ _ _. Unit) (λ _. Unit) (continue r f w)
  continue-Traceless d (ok a) w f e h =
      subst (λ d. OnAtomic d (λ _ _. Unit) (λ _. Unit) (f a w)) e ((h a).same w)
  continue-Traceless d (err x) w f e h = (tt, e)

  continue-Reads :
      (d : Db) (r : Result A) (w : World) (f : A → Action B)
      → w.db ≡ d
      → ((a : A) → Reads (f a))
      → (continue r f w).1.db ≡ d
  continue-Reads d (ok a) w f e h = (h a).same w ∙ e
  continue-Reads d (err x) w f e h = e

  pub bind-Traceless :
      (m : Action A) (f : A → Action B)
      → Reads m
      → ((a : A) → Traceless (f a))
      → Traceless (m >>= f)
  unfolding ◌>>=◌
  bind-Traceless m f r h = record {
    same = λ w. continue-Traceless w.db (m w).0 (m w).1 f (r.same w) h;
  }

  pub bind-Reads :
      (m : Action A) (f : A → Action B) → Reads m → ((a : A) → Reads (f a)) → Reads (m >>= f)
  unfolding ◌>>=◌
  bind-Reads m f r h = record { same = λ w. continue-Reads w.db (m w).0 (m w).1 f (r.same w) h }

module _ {A : Type 0} where
  pub query-Reads : (env : Env) (g : Db → A) → Reads (query env g)
  unfolding query
  query-Reads env g = record {
    same = λ w. elim (Bool-cases (env.statement_ok w.tick)) [ inl up ↦ rw up | inr down ↦ rw down ];
  }

  pub or_raise-Reads : (x : Option A) (e : Error) → Reads (or_raise x e)
  unfolding or_raise
  or_raise-Reads none e = record { same = λ w. refl }
  or_raise-Reads (some a) e = record { same = λ w. refl }

  pub pure-Reads : (a : A) → Reads (pure a)
  unfolding pure
  pure-Reads a = record { same = λ w. refl }

pub raise_if-Reads : (b : Bool) (e : Error) → Reads (raise_if b e)
unfolding raise_if
raise_if-Reads b e = record { same = λ w. refl }

pub publish-Reads : (env : Env) (e : Event) → Reads (publish env e)
unfolding publish
publish-Reads env e = record { same = λ w. refl }

pub unique-Traceless :
    (env : Env) (taken : Db → Bool) (g : Db → Db) → Traceless (execute_unique env taken g)
unfolding execute_unique
unique-Traceless env taken g = record {
  same = λ w. elim (Bool-cases (env.statement_ok w.tick)) [
    | inl up ↦ elim (Bool-cases (taken w.db)) [
      | inl dup ↦ rw (up, dup) (tt, refl)
      | inr free ↦ rw (up, free) tt
    ]
    | inr down ↦ rw down (tt, refl)
  ];
}

-- What is known of a run, for an action that fails without a trace.
pub OnResult-OnAtomic :
    {A : Type 0} (d : Db) (Q : A → Db → Type 0) (E : Error → Type 0) (x : Result A × World)
    → OnAtomic d (λ _ _. Unit) (λ _. Unit) x
    → OnResult Q E x
    → OnAtomic d Q E x
OnResult-OnAtomic d Q E (ok a, w) h k = k
OnResult-OnAtomic d Q E (err e, w) h k = (k, h.1)
