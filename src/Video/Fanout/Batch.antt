-- ===== src/Video/Fanout/Batch.antt =====
-- One batch of followers: what is read of them, and what is written.
use feedsystem_video_go_medi.Prelude.{
  ℕ, ℤ, pos, ◌+◌, ◌≤◌, ◌<◌, eqb_ℤ, ◌≡◌, refl, sym, subst, false, not, List, [], ◌∷◌, ◌==◌, filter,
  map, All, arith, Bool-cases, inl, inr,
}
use feedsystem_video_go_medi.Account.Entity.{Account}
use feedsystem_video_go_medi.Store.{
  Db, World, Env, Result, Error, ok, err, connection, Action, ⊤, attempt, raise_if, now,
  execute_unique, ◌>>=◌, pure,
}
use feedsystem_video_go_medi.Store.Ensures.{Ensures, Atomic, OnAtomic, OnResult, Tolerates, start}
use feedsystem_video_go_medi.Video.Fanout.{add_inboxes, batch_insert_follow_feed_inbox}
use feedsystem_video_go_medi.Video.Fanout.Counts.{
  account_count, inbox_count, row_of, inbox_taken_none,
}

-- A step whose error is looked at, and which fails only for the connection's sake.
abbrev pub Lost : (Error → Type 0) → Error → Type 0
Lost E e = (e ≡ connection) × E connection

module _ {env : Env} {A B : Type 0} {Q : B → Db → Type 0} {E : Error → Type 0} {d : Db} where
  looked_at :
      (R : A → Db → Type 0) (f : Result A → Action B) (r : Result A) (w : World)
      → Tolerates env E
      → OnAtomic d R (Lost E) (r, w)
      → ((a : A) (d' : Db) → R a d' → Ensures env d' (f (ok a)) Q E)
      → (E connection → Ensures env d (f (err connection)) Q E)
      → OnResult Q E (f r w)
  looked_at R f (ok a) w t h good bad = (good a w.db h).at t w.tick
  looked_at R f (err e) w t h good bad =
      let at_end : OnResult Q E (f (err connection) (start w.db w.tick)) =
        subst (λ k. OnResult Q E (f (err connection) (start k w.tick))) (sym h.1)
          ((bad h.0.1).at t w.tick) in
      subst (λ x. OnResult Q E (f (err x) w)) (sym h.0.0) at_end

  pub attempt-then :
      {R : A → Db → Type 0} (m : Action A) (f : Result A → Action B)
      → Atomic env d m R (Lost E)
      → ((a : A) (d' : Db) → R a d' → Ensures env d' (f (ok a)) Q E)
      → (E connection → Ensures env d (f (err connection)) Q E)
      → Ensures env d (attempt m >>= f) Q E
  unfolding attempt ◌>>=◌
  attempt-then {R} m f h good bad = record {
    at = λ t n.
        let (r, w) = m (start d n) in
        looked_at R f r w t (h.at (record { at = λ k down. (refl, t.at k down) }) n) good bad;
  }

pub all_kept :
    (accounts : List Account)
    → All (λ a. 0 < a.id) accounts
    → filter (λ a. not (a.id == 0)) accounts ≡ accounts
unfolding filter
all_kept [] h = refl
all_kept (a ∷ accounts) h =
    let some_id : (a.id == 0) ≡ false = ground (arith, h.0) in rw (some_id, all_kept accounts h.1)

module _ (env : Env) (post author : ℕ) (score : ℤ) (d : Db)
    (has_post : eqb_ℤ (pos post) (pos 0) ≡ false)
    (has_author : eqb_ℤ (pos author) (pos 0) ≡ false) where
  -- The tables with the rows that were written at some time.
  abbrev pub IsBatch : List Account → ⊤ → Db → Type 0
  IsBatch accounts _ d' =
      (t : ℤ) × (d' ≡ add_inboxes (map (row_of post (pos author) score t) accounts) d)

  pub batch_insert_follow_feed_inbox-Atomic :
      {E : Error → Type 0} (accounts : List Account)
      → All (λ a. 0 < a.id) accounts
      → ((u : ℕ) → account_count u accounts + inbox_count post u d ≤ 1)
      → Atomic env d
          (batch_insert_follow_feed_inbox env accounts (pos post) (pos author) score)
          (IsBatch accounts)
          E
  unfolding batch_insert_follow_feed_inbox raise_if now execute_unique pure ◌>>=◌ add_inboxes
  batch_insert_follow_feed_inbox-Atomic [] ids few = record { at = λ t n. (pos 0, refl) }
  batch_insert_follow_feed_inbox-Atomic (a ∷ others) ids few = record {
    at = λ t n.
        let kept = all_kept (a ∷ others) ids in
        let at : ℤ = env.clock n in
        let free = inbox_taken_none post (pos author) score at (a ∷ others) d few in
        rw (has_post, has_author, kept)
          (elim (Bool-cases (env.statement_ok (n + 1))) [
            | inl up ↦ rw (up, free) (at, refl)
            | inr down ↦ rw down (t.at (n + 1) down, refl)
          ]);
  }
