-- ===== src/Feed/Shared/Outcome.antt =====
-- What comes of a request for the newest videos, from Redis or from the tables.
use feedsystem_video_go_medi.Prelude.{
  ℕ, zero, suc, ℤ, ◌≡◌, refl, Bool, true, false, ◌&&◌, Option, some, ◌⊎◌, inl, inr, String,
  str_append, ◌==◌, Option-cases, arith,
}
use feedsystem_video_go_medi.Store.{
  Db, World, Env, Error, Action, Result, ok, err, pure, raise, attempt, contact, ◌>>=◌, ◌>>◌,
}
use feedsystem_video_go_medi.Store.Ensures.{
  Ensures, OnResult, Ensures-pure, Ensures-if, Ensures-bind, start,
}
use feedsystem_video_go_medi.Store.Ensures.Attempt.{contact-then, observe-then}
use feedsystem_video_go_medi.Store.Ensures.Outcome.{Fails, Fails-Tolerates}
use feedsystem_video_go_medi.Feed.Entity.{TimedPage}
use feedsystem_video_go_medi.Feed.Lister.{Redis, Formats, Reply, hit, miss, failed}
use feedsystem_video_go_medi.Feed.Service.{
  read_through, wait_for_page, with_lock, and_set, page_in, page_or, after_reply, latest_key,
  list_latest_feed, reraise,
}
use feedsystem_video_go_medi.Feed.Shared.{page_of, latest_from_db-Ensures}

-- An action whose outcome is put back after the lock was released.
module _ {A : Type 0} (Q : A → Db → Type 0) (E : Error → Type 0) where
  released :
      (r : Result A) (w : World) → OnResult Q E (r, w) → OnResult Q E ((contact >> reraise r) w)
  unfolding contact ◌>>=◌ pure raise
  released (ok a) w h = h
  released (err e) w h = h

  reraise-Ensures :
      {env : Env} {d : Db} (m : Action A)
      → Ensures env d m Q E
      → Ensures env d (attempt m >>= λ r. contact >> reraise r) Q E
  unfolding attempt ◌>>=◌
  reraise-Ensures {d = d} m h = record {
    at = λ t n. let (r, w) = m (start d n) in released r w (h.at t n);
  }

module _ (env : Env) (x : Formats) (has_cache : Bool) (redis : Redis)
    (decode_page : String → Option TimedPage) (key : String) where
  -- Redis gives the page for the key at some time.
  abbrev pub IsHeld : TimedPage → Type 0
  IsHeld page =
      (t : ℕ) × (b : String) × (redis.get_bytes t key ≡ hit b) × (decode_page b ≡ some page)

  module _ (P : TimedPage → Type 0) (E : Error → Type 0) (d : Db) (from_db : Action TimedPage)
      (read : Ensures env d from_db (λ page d'. (d' ≡ d) × P page) E) where
    abbrev Gives : Action TimedPage → Type 0
    Gives m = Ensures env d m (λ page d'. (d' ≡ d) × (P page ⊎ IsHeld page)) E

    set-Gives : Gives (and_set env x has_cache redis decode_page from_db)
    set-Gives = Ensures-bind _ _ read (λ page d' h. contact-then _ (Ensures-pure _ (h.0, inl h.1)))

    held-Gives :
        (m : Action TimedPage) (t : ℕ) (r : Reply)
        → redis.get_bytes t key ≡ r
        → Gives m
        → Gives (
            page_or env x has_cache redis decode_page
              (page_in env x has_cache redis decode_page r)
              m)
    held-Gives m t (hit b) at h = elim (Option-cases (decode_page b)) [
      | inl bad ↦ rw bad h
      | inr (page, good) ↦ rw good (Ensures-pure _ (refl, inr (t, b, at, good)))
    ]
    held-Gives m t miss at h = h
    held-Gives m t failed at h = h

    wait-Gives : (n : ℕ) → Gives (wait_for_page env x has_cache redis decode_page n key from_db)
    unfolding wait_for_page
    wait-Gives zero = set-Gives
    wait-Gives (suc n) =
        observe-then _ _ (λ t. held-Gives _ t (redis.get_bytes t key) refl (wait-Gives n))

    lock-Gives : Gives (with_lock env x has_cache redis decode_page key from_db)
    lock-Gives =
        observe-then _ _
          (λ t. reraise-Ensures _ _ _ (held-Gives _ t (redis.get_bytes t key) refl set-Gives))

    reply-Gives :
        (t : ℕ) (r : Reply)
        → redis.get_bytes t key ≡ r
        → Gives (after_reply env x has_cache redis decode_page key from_db r)
    reply-Gives t (hit b) at = held-Gives _ t (hit b) at set-Gives
    reply-Gives t failed at = set-Gives
    reply-Gives t miss at = observe-then _ _ (λ n.
        Ensures-if (redis.lock n (str_append "lock:" key)) _ _ (λ won. lock-Gives)
          (λ lost. wait-Gives 5))

    pub read_through-Gives : Gives (read_through env x has_cache redis decode_page key from_db)
    unfolding read_through
    read_through-Gives = observe-then _ _ (λ t. reply-Gives t (redis.get_bytes t key) refl)

shared_or_own : {A B C : Type 0} → C → A ⊎ B → A ⊎ (C × B)
shared_or_own c (inl a) = inl a
shared_or_own c (inr b) = inr (c, b)

by_nobody : (viewer : ℕ) (b : Bool) → ((viewer == 0) && b) ≡ true → viewer ≡ 0
by_nobody viewer true h = ground (arith, h)
by_nobody viewer false h = ground (arith, h)

module _ {A : Type 0} (Q Q' : A → Db → Type 0) (E : Error → Type 0)
    (f : (a : A) (d' : Db) → Q a d' → Q' a d') where
  weaken_result : (r : Result A) (w : World) → OnResult Q E (r, w) → OnResult Q' E (r, w)
  weaken_result (ok a) w h = f a w.db h
  weaken_result (err e) w h = h

  Ensures-weaken : {env : Env} {d : Db} (m : Action A) → Ensures env d m Q E → Ensures env d m Q' E
  Ensures-weaken {d = d} m h = record {
    at = λ t n. let (r, w) = m (start d n) in weaken_result r w (h.at t n);
  }

-- A viewer who is logged in sees the newest videos as the tables have them, each marked as liked just where
-- the viewer likes it. A viewer who is not sees that too, or a page that Redis gives under the
-- key of this request. No table is changed, and the request ends with a page unless a statement
-- does not go through, whatever Redis answers and whoever holds the lock.
pub list_latest_feed_outcome :
    (env : Env) (x : Formats) (has_cache : Bool) (redis : Redis)
    (decode_page : String → Option TimedPage) (limit : ℕ) (before : Option ℤ) (viewer : ℕ)
    (w : World)
    → OnResult
        (λ page d.
          (d ≡ w.db)
          × ((page ≡ page_of limit before viewer w.db)
              ⊎ ((viewer ≡ 0)
                  × IsHeld env x has_cache redis decode_page
                      (latest_key env x has_cache redis decode_page limit before)
                      page)))
        (Fails env (λ _. ⊥))
        (list_latest_feed env x has_cache redis decode_page limit before viewer w)
unfolding list_latest_feed
list_latest_feed_outcome env x has_cache redis decode_page limit before viewer w =
    let key = latest_key env x has_cache redis decode_page limit before in
    (Ensures-if ((viewer == 0) && has_cache) _ _
        (λ shared.
          Ensures-weaken _ _ _
            (λ page d h. (h.0, shared_or_own (by_nobody viewer has_cache shared) h.1)) _
            (read_through-Gives env x has_cache redis decode_page key
              (λ page. page ≡ page_of limit before viewer w.db) (Fails env (λ _. ⊥)) w.db _
              (latest_from_db-Ensures limit before viewer)))
        (λ own.
          Ensures-weaken _ _ _ (λ page d h. (h.0, inl h.1)) _
            (latest_from_db-Ensures limit before viewer))).at
      Fails-Tolerates w.tick
