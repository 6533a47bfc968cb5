-- ===== src/Store/Ensures/Attempt.antt =====
-- Writes whose outcome the caller reads as a value: one rule for each way in which they may end.
use feedsystem_video_go_medi.Prelude.{
  ℕ, ◌+◌, ◌≡◌, Bool, true, false, inl, inr, Bool-cases, Option-cases, String, none, some,
}
use feedsystem_video_go_medi.Store.Events.{Event}
use feedsystem_video_go_medi.Store.Tables.{Db}
use feedsystem_video_go_medi.Store.Monad.{
  Error, connection, dup_key, Result, ok, err, Env, Action, ⊤, raise, no_token, new_token, ◌>>=◌,
  execute_unique, insert_unique, attempt, publish, contact, observe,
}
use feedsystem_video_go_medi.Store.Ensures.{Ensures}

module _ {env : Env} {B : Type 0} {Q : B → Db → Type 0} {E : Error → Type 0} {d : Db} where
  pub attempt_unique-then :
      (taken : Db → Bool) (g : Db → Db) (f : Result ⊤ → Action B)
      → (E connection → Ensures env d (f (err connection)) Q E)
      → (taken d ≡ true → Ensures env d (f (err dup_key)) Q E)
      → (taken d ≡ false → Ensures env (g d) (f (ok tt)) Q E)
      → Ensures env d (attempt (execute_unique env taken g) >>= f) Q E
  unfolding execute_unique attempt ◌>>=◌
  attempt_unique-then taken g f lost old fresh = record {
    at = λ t n. elim (Bool-cases (env.statement_ok n)) [
      | inl up ↦ elim (Bool-cases (taken d)) [
        | inl dup ↦ rw (up, dup) ((old dup).at t (n + 1))
        | inr free ↦ rw (up, free) ((fresh free).at t (n + 1))
      ]
      | inr down ↦ rw down ((lost (t.at n down)).at t (n + 1))
    ];
  }

  pub attempt_insert-then :
      {A : Type 0} (taken : Db → Bool) (g : Db → A × Db) (f : Result A → Action B)
      → (E connection → Ensures env d (f (err connection)) Q E)
      → (taken d ≡ true → Ensures env d (f (err dup_key)) Q E)
      → (taken d ≡ false → Ensures env (g d).1 (f (ok (g d).0)) Q E)
      → Ensures env d (attempt (insert_unique env taken g) >>= f) Q E
  unfolding insert_unique attempt ◌>>=◌
  attempt_insert-then taken g f lost old fresh = record {
    at = λ t n. elim (Bool-cases (env.statement_ok n)) [
      | inl up ↦ elim (Bool-cases (taken d)) [
        | inl dup ↦ rw (up, dup) ((old dup).at t (n + 1))
        | inr free ↦ rw (up, free) ((fresh free).at t (n + 1))
      ]
      | inr down ↦ rw down ((lost (t.at n down)).at t (n + 1))
    ];
  }

  pub contact-then :
      (f : ⊤ → Action B) → Ensures env d (f tt) Q E → Ensures env d (contact >>= f) Q E
  unfolding contact ◌>>=◌
  contact-then f h = record { at = λ t n. h.at t (n + 1) }

  pub observe-then :
      {A : Type 0} (g : ℕ → A) (f : A → Action B)
      → ((n : ℕ) → Ensures env d (f (g n)) Q E)
      → Ensures env d (observe g >>= f) Q E
  unfolding observe ◌>>=◌
  observe-then g f h = record { at = λ t n. (h n).at t (n + 1) }

  pub raise-then :
      {A : Type 0} (e : Error) (f : A → Action B) → E e → Ensures env d (raise e >>= f) Q E
  unfolding raise ◌>>=◌
  raise-then e f h = record { at = λ t n. h }

  pub token-then :
      (n : ℕ) (f : String → Action B)
      → ((k : ℕ) → env.token k n ≡ none → E no_token)
      → ((t : String) (k : ℕ) → env.token k n ≡ some t → Ensures env d (f t) Q E)
      → Ensures env d (new_token env n >>= f) Q E
  unfolding new_token ◌>>=◌
  token-then n f missing found = record {
    at = λ t k. elim (Option-cases (env.token k n)) [
      | inl gone ↦ rw gone (missing k gone)
      | inr (x, there) ↦ rw there ((found x k there).at t (k + 1))
    ];
  }

  pub publish-then :
      (e : Event) (f : Bool → Action B)
      → ((sent : Bool) → Ensures env d (f sent) Q E)
      → Ensures env d (publish env e >>= f) Q E
  unfolding publish ◌>>=◌
  publish-then e f h = record { at = λ t n. (h (env.publish n e)).at t (n + 1) }

-- A write under a unique index with which an action ends.
pub Ensures-unique :
    {env : Env} {Q : ⊤ → Db → Type 0} {E : Error → Type 0} {d : Db} (taken : Db → Bool)
    (g : Db → Db)
    → (taken d ≡ true → E dup_key)
    → (taken d ≡ false → Q tt (g d))
    → Ensures env d (execute_unique env taken g) Q E
unfolding execute_unique
Ensures-unique {env = env} {d = d} taken g old fresh = record {
  at = λ t n. elim (Bool-cases (env.statement_ok n)) [
    | inl up ↦ elim (Bool-cases (taken d)) [
      | inl dup ↦ rw (up, dup) (old dup)
      | inr free ↦ rw (up, free) (fresh free)
    ]
    | inr down ↦ rw down (t.at n down)
  ];
}

-- An insertion with which an action ends.
pub Ensures-insert :
    {env : Env} {A : Type 0} {Q : A → Db → Type 0} {E : Error → Type 0} {d : Db} (taken : Db → Bool)
    (g : Db → A × Db)
    → (taken d ≡ true → E dup_key)
    → (taken d ≡ false → Q (g d).0 (g d).1)
    → Ensures env d (insert_unique env taken g) Q E
unfolding insert_unique
Ensures-insert {env = env} {d = d} taken g old fresh = record {
  at = λ t n. elim (Bool-cases (env.statement_ok n)) [
    | inl up ↦ elim (Bool-cases (taken d)) [
      | inl dup ↦ rw (up, dup) (old dup)
      | inr free ↦ rw (up, free) (fresh free)
    ]
    | inr down ↦ rw down (t.at n down)
  ];
}
