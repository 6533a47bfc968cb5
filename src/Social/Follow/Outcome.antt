-- ===== src/Social/Follow/Outcome.antt =====
-- `Follow` against what it promises, error by error, and the worker's second delivery.
use feedsystem_video_go_medi.Prelude.{
  ℕ, ltb, ◌≡◌, refl, Bool, true, false, Option, none, some, inr, ◌==◌, find, arith, ◌||◌,
  if◌then◌else◌,
}
use feedsystem_video_go_medi.Prelude.Lists.Laws.{count-of_any}
use feedsystem_video_go_medi.Account.Entity.{Account}
use feedsystem_video_go_medi.Store.{
  Db, World, Env, Error, ⊤, Action, ◌>>=◌, message, record_not_found,
}
use feedsystem_video_go_medi.Store.Ensures.{
  Ensures, OnResult, OnAtomic, query-then, or_raise-then, raise_if-then, chain-then, pure-then,
  if-then,
}
use feedsystem_video_go_medi.Store.Ensures.Outcome.{
  Fails, Fails-Tolerates, Reads, Traceless, bind-Reads, bind-Traceless, query-Reads, or_raise-Reads,
  pure-Reads, raise_if-Reads, publish-Reads, unique-Traceless, OnResult-OnAtomic,
}
use feedsystem_video_go_medi.Store.Ensures.Attempt.{Ensures-unique, publish-then}
use feedsystem_video_go_medi.Social.Follow.{
  has_account_id, count_relations, relation_taken, add_relation, find_account, is_followed,
  insert_relation, follow,
}
use feedsystem_video_go_medi.Video.Messages.{publish_social, enqueue}

unfoldable pub account_in : ℕ → Db → Option Account
account_in id d = find (has_account_id id) d.accounts

-- Why nobody is followed, error by error.
pub data FollowRefused (follower vlogger : ℕ) (d : Db) : Error → Type 0 where
  no_follower : account_in follower d ≡ none → FollowRefused follower vlogger d record_not_found
  no_vlogger : account_in vlogger d ≡ none → FollowRefused follower vlogger d record_not_found
  self :
      (follower == vlogger) ≡ true
      → FollowRefused follower vlogger d (message "can not follow self")
  already :
      ltb 0 (count_relations follower vlogger d) ≡ true
      → FollowRefused follower vlogger d (message "already followed")

-- Both accounts are there, they are two, and one relation is added where there was none.
pub record FollowDone (follower vlogger : ℕ) (d : Db) (r : ⊤) (d' : Db) : Type 0 where
  pub follower_row : Account
  pub follower_found : account_in follower d ≡ some follower_row
  pub vlogger_row : Account
  pub vlogger_found : account_in vlogger d ≡ some vlogger_row
  pub distinct : (follower == vlogger) ≡ false
  pub new : count_relations follower vlogger d ≡ 0
  pub added : d' ≡ add_relation follower vlogger d

no_relation :
    (follower vlogger : ℕ) (d : Db)
    → ltb 0 (count_relations follower vlogger d) ≡ false
    → (count_relations follower vlogger d ≡ 0) × (relation_taken follower vlogger d ≡ false)
unfolding count_relations relation_taken
no_relation follower vlogger d h =
    let zero : count_relations follower vlogger d ≡ 0 = ground arith in
    (zero, count-of_any _ d.socials zero)

-- The event, whose fate is not read.
published-then :
    {env : Env} {d : Db} {B : Type 0} {Q : B → Db → Type 0} {E : Error → Type 0}
    (has_social_mq : Bool) (follower vlogger : ℕ) (f : Bool → Action B)
    → ((sent : Bool) → Ensures env d (f sent) Q E)
    → Ensures env d
        (enqueue env has_social_mq (publish_social env "follow" follower vlogger) >>= f)
        Q
        E
unfolding enqueue publish_social
published-then has_social_mq follower vlogger f h =
    if-then has_social_mq _ _ _
      (λ has.
        if-then ((follower == 0) || (vlogger == 0)) _ _ _ (λ zero. pure-then false f (h false))
          (λ given. publish-then _ f h))
      (λ none_there. pure-then false f (h false))

follow-OnResult :
    (env : Env) (has_social_mq : Bool) (follower vlogger : ℕ) (w : World)
    → OnResult
        (FollowDone follower vlogger w.db)
        (Fails env (FollowRefused follower vlogger w.db))
        (follow env has_social_mq follower vlogger w)
unfolding follow find_account is_followed insert_relation account_in
follow-OnResult env has_social_mq follower vlogger w =
    (chain-then {env = env} {d = w.db} _ _ _ (
        query-then _ _ (
          or_raise-then _ _ _ (λ gone. inr (no_follower gone))
            (λ a found. chain-then _ _ _ (
              query-then _ _ (
                or_raise-then _ _ _ (λ gone. inr (no_vlogger gone))
                  (λ b there.
                    raise_if-then _ _ _ (λ same. inr (self same))
                      (λ two. chain-then _ _ _ (
                        query-then _ _ (
                          pure-then _ _ (
                            raise_if-then _ _ _ (λ old. inr (already old))
                              (λ new. published-then has_social_mq follower vlogger _ (λ sent.
                                Ensures-unique _ _
                                  (λ dup. cc ((no_relation follower vlogger w.db new).1, dup))
                                  (λ free. record {
                                    follower_row = a;
                                    follower_found = found;
                                    vlogger_row = b;
                                    vlogger_found = there;
                                    distinct = two;
                                    new = (no_relation follower vlogger w.db new).0;
                                    added = refl;
                                  })))))))))))))).at
      Fails-Tolerates w.tick

-- Everything before the last statement of `Follow` reads or publishes.
find_account-Reads : (env : Env) (id : ℕ) → Reads (find_account env id)
unfolding find_account
find_account-Reads env id = bind-Reads _ _ (query-Reads env _) (λ x. or_raise-Reads x _)

is_followed-Reads : (env : Env) (follower vlogger : ℕ) → Reads (is_followed env follower vlogger)
unfolding is_followed
is_followed-Reads env follower vlogger = bind-Reads _ _ (query-Reads env _) (λ n. pure-Reads _)

if-Reads : {A : Type 0} (b : Bool) (m k : Action A) → Reads m → Reads k → Reads (if b then m else k)
if-Reads true m k hm hk = hm
if-Reads false m k hm hk = hk

enqueue-Reads :
    (env : Env) (has_social_mq : Bool) (follower vlogger : ℕ)
    → Reads (enqueue env has_social_mq (publish_social env "follow" follower vlogger))
unfolding enqueue publish_social
enqueue-Reads env has_social_mq follower vlogger =
    if-Reads has_social_mq _ _
      (if-Reads ((follower == 0) || (vlogger == 0)) _ _ (pure-Reads false) (publish-Reads env _))
      (pure-Reads false)

follow-Traceless :
    (env : Env) (has_social_mq : Bool) (follower vlogger : ℕ)
    → Traceless (follow env has_social_mq follower vlogger)
unfolding follow insert_relation
follow-Traceless env has_social_mq follower vlogger =
    bind-Traceless _ _ (find_account-Reads env follower) (λ a.
      bind-Traceless _ _ (find_account-Reads env vlogger) (λ b.
        bind-Traceless _ _ (raise_if-Reads _ _) (λ two.
          bind-Traceless _ _ (is_followed-Reads env follower vlogger) (λ already.
            bind-Traceless _ _ (raise_if-Reads already _) (λ new.
              bind-Traceless _ _ (enqueue-Reads env has_social_mq follower vlogger)
                (λ sent. unique-Traceless env _ _))))))

-- Following adds one relation between two accounts that are there, where there was none, or it fails, says
-- why, and leaves the tables as they were: for an account that is missing, for the account itself,
-- for one that is followed already, or because a statement did not go through; a duplicate key never
-- comes to light unless another writer comes between.
pub follow_outcome :
    (env : Env) (has_social_mq : Bool) (follower vlogger : ℕ) (w : World)
    → OnAtomic w.db
        (FollowDone follower vlogger w.db)
        (Fails env (FollowRefused follower vlogger w.db))
        (follow env has_social_mq follower vlogger w)
follow_outcome env has_social_mq follower vlogger w =
    OnResult-OnAtomic w.db _ _ (follow env has_social_mq follower vlogger w)
      ((follow-Traceless env has_social_mq follower vlogger).same w)
      (follow-OnResult env has_social_mq follower vlogger w)
