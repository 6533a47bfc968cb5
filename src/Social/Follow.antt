-- ===== src/Social/Follow.antt =====
-- Following: service.go and repo.go of backend/internal/social, `FindByID` of
-- backend/internal/account/repo.go, and the consumer backend/internal/worker/socialworker.go. The
-- service hands an event to the queue and writes to the database as well.
pub mod Outcome
pub mod Redelivery
use feedsystem_video_go_medi.Prelude.{
  ℕ, suc, ltb, Bool, true, false, not, ◌&&◌, ◌||◌, Option, none, some, List, [], ◌∷◌, String,
  str_eq, if◌then◌else◌, ◌==◌, find, any, filter, map, count_where, take, order_by, last,
}
use feedsystem_video_go_medi.Account.Entity.{Account}
use feedsystem_video_go_medi.Social.Entity.{Social}
use feedsystem_video_go_medi.Store.{
  Db, Env, Action, ⊤, pure, or_raise, raise_if, query, execute, execute_unique, ignore_dup, ◌>>=◌,
  ◌>>◌, record_not_found, message, SocialEvent,
}
use feedsystem_video_go_medi.Video.Messages.{publish_social, enqueue}

abbrev pub has_account_id : ℕ → Account → Bool
has_account_id id a = a.id == id

-- `WHERE follower_id = ? AND vlogger_id = ?`
abbrev pub is_relation : ℕ → ℕ → Social → Bool
is_relation follower vlogger s = (s.follower_id == follower) && (s.vlogger_id == vlogger)

-- The unique index `idx_social_follower_vlogger`.
unfoldable pub relation_taken : ℕ → ℕ → Db → Bool
relation_taken follower vlogger d = any (is_relation follower vlogger) d.socials

unfoldable pub count_relations : ℕ → ℕ → Db → ℕ
count_relations follower vlogger d = count_where (is_relation follower vlogger) d.socials

unfoldable pub add_relation : ℕ → ℕ → Db → Db
add_relation follower vlogger d = record d {
  socials = record { id = d.next_id; follower_id = follower; vlogger_id = vlogger } ∷ d.socials;
  next_id = suc d.next_id;
}

unfoldable pub delete_relations : ℕ → ℕ → Db → Db
delete_relations follower vlogger d = record d {
  socials = filter (λ s. not (is_relation follower vlogger s)) d.socials;
}

-- `WHERE id IN ?`
abbrev pub accounts_in : List ℕ → Db → List Account
accounts_in ids d = filter (λ a. any (λ i. a.id == i) ids) d.accounts

-- `id ASC`
abbrev pub older : Social → Social → Bool
older a b = ltb a.id b.id

abbrev pub last_id : Option Social → ℕ
last_id none = 0
last_id (some s) = s.id

-- `vlogger_id = ?`, and `id > ?` after the first batch.
abbrev pub is_follower_after : ℕ → ℕ → Social → Bool
is_follower_after vlogger last_relation s =
    (s.vlogger_id == vlogger) && (not (ltb 0 last_relation) || ltb last_relation s.id)

unfoldable pub relations_after : ℕ → ℕ → ℕ → Db → List Social
relations_after vlogger last_relation limit d =
    take limit (order_by older (filter (is_follower_after vlogger last_relation) d.socials))

module _ (env : Env) where
  unfoldable pub find_account : ℕ → Action Account
  find_account id = do
    found ← query env (λ d. find (has_account_id id) d.accounts)
    or_raise found record_not_found

  unfoldable pub is_followed : ℕ → ℕ → Action Bool
  is_followed follower vlogger = do n ← query env (count_relations follower vlogger); pure (ltb 0 n)

  unfoldable pub insert_relation : ℕ → ℕ → Action ⊤
  insert_relation follower vlogger =
      execute_unique env (relation_taken follower vlogger) (add_relation follower vlogger)

  unfoldable pub remove_relation : ℕ → ℕ → Action ⊤
  remove_relation follower vlogger = execute env (delete_relations follower vlogger)

  unfoldable pub follow : Bool → ℕ → ℕ → Action ⊤
  follow has_social_mq follower vlogger = do
    a ← find_account follower
    b ← find_account vlogger
    raise_if (follower == vlogger) (message "can not follow self")
    already ← is_followed follower vlogger
    raise_if already (message "already followed")
    sent ← enqueue env has_social_mq (publish_social env "follow" follower vlogger)
    insert_relation follower vlogger

  unfoldable pub unfollow : Bool → ℕ → ℕ → Action ⊤
  unfollow has_social_mq follower vlogger = do
    a ← find_account follower
    b ← find_account vlogger
    already ← is_followed follower vlogger
    raise_if (not already) (message "not followed")
    sent ← enqueue env has_social_mq (publish_social env "unfollow" follower vlogger)
    remove_relation follower vlogger

  -- The second query is made only where the first one finds a relation.
  unfoldable pub accounts_of : List ℕ → Action (List Account)
  accounts_of [] = pure []
  accounts_of (id ∷ ids) = query env (accounts_in (id ∷ ids))

  unfoldable pub all_followers : ℕ → Action (List Account)
  all_followers vlogger = do
    a ← find_account vlogger
    relations ← query env (λ d. filter (λ s. s.vlogger_id == vlogger) d.socials)
    accounts_of (map (λ s. s.follower_id) relations)

  unfoldable pub all_vloggers : ℕ → Action (List Account)
  all_vloggers follower = do
    a ← find_account follower
    relations ← query env (λ d. filter (λ s. s.follower_id == follower) d.socials)
    accounts_of (map (λ s. s.vlogger_id) relations)

  unfoldable pub following_ids : ℕ → Action (List ℕ)
  following_ids follower = do
    relations ← query env (λ d. filter (λ s. s.follower_id == follower) d.socials)
    pure (map (λ s. s.vlogger_id) relations)

  -- The followers of some relations, and the last relation's id.
  abbrev pub batch_of : List Social → Action (List Account × ℕ)
  batch_of [] = pure ([], 0)
  batch_of (r ∷ rs) = do
    followers ← query env (accounts_in (map (λ s. s.follower_id) (r ∷ rs)))
    pure (followers, last_id (last (r ∷ rs)))

  unfoldable pub get_followers_batch : ℕ → ℕ → ℕ → Action (List Account × ℕ)
  get_followers_batch vlogger last_relation limit = do
    relations ← query env (relations_after vlogger last_relation limit)
    batch_of relations

  unfoldable pub count_followers : ℕ → Action ℕ
  count_followers vlogger = query env (λ d. count_where (λ s. s.vlogger_id == vlogger) d.socials)

  unfoldable pub is_followed_by : ℕ → ℕ → Action Bool
  is_followed_by follower vlogger = do
    a ← find_account follower
    b ← find_account vlogger
    is_followed follower vlogger

  -- The worker's part.
  unfoldable pub apply_social_event : SocialEvent → Action ⊤
  apply_social_event e =
      if (e.follower_id == 0) || (e.vlogger_id == 0)
      then pure tt
      else (if str_eq e.action "follow"
          then ignore_dup (insert_relation e.follower_id e.vlogger_id)
          else (if str_eq e.action "unfollow"
              then remove_relation e.follower_id e.vlogger_id
              else pure tt))

  abbrev pub apply_if_read : Option SocialEvent → Action ⊤
  apply_if_read none = pure tt
  apply_if_read (some e) = apply_social_event e

  -- `process`: a body that is not in form is dropped.
  unfoldable pub process_social : (String → Option SocialEvent) → String → Action ⊤
  process_social decode body = apply_if_read (decode body)
