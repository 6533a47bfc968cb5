-- ===== src/Video/Fanout/Again.antt =====
-- A message of the video worker that is delivered again, when every follower has the video.
use feedsystem_video_go_medi.Prelude.{
  ℕ, suc, ℤ, pos, ◌+◌, ◌<◌, eqb_ℤ, ◌≡◌, refl, sym, subst, true, false, List, [], ◌∷◌, ◌==◌, ==→eq,
  any, filter, map, length, take, order_by, All, arith, Bool-cases, inl, inr,
}
use feedsystem_video_go_medi.Prelude.Lists.Ordered.{All-order_by}
use feedsystem_video_go_medi.Prelude.Lists.Pages.{drop, take-append-drop, All-append_left}
use feedsystem_video_go_medi.Account.Entity.{Account}
use feedsystem_video_go_medi.Social.Entity.{Social}
use feedsystem_video_go_medi.Social.Follow.{
  older, is_follower_after, relations_after, accounts_in, get_followers_batch, count_followers,
}
use feedsystem_video_go_medi.Store.{
  Db, World, Env, Error, Action, ⊤, pure, raise, raise_if, now, execute_unique, attempt, VideoEvent,
  ◌>>=◌,
}
use feedsystem_video_go_medi.Store.Ensures.{
  Ensures, OnResult, Ensures-pure, Ensures-if, query-then, chain-then,
}
use feedsystem_video_go_medi.Store.Ensures.Outcome.{Fails, Fails-Tolerates}
use feedsystem_video_go_medi.Video.Fanout.{
  is_inbox_of, inbox_taken, fan_out, publish_inbox, after_batch, batch_insert_follow_feed_inbox,
}
use feedsystem_video_go_medi.Video.Fanout.Counts.{row_of}
use feedsystem_video_go_medi.Video.Fanout.Batch.{all_kept}
use feedsystem_video_go_medi.Video.Fanout.Delivery.{follower_ids, followers_of}
use feedsystem_video_go_medi.Video.Fanout.Once.{batch-then}

-- The video is in the account's inbox.
abbrev pub HasVideo : ℕ → Db → ℕ → Type 0
HasVideo post d u = any (is_inbox_of (pos u) (pos post)) d.inboxes ≡ true

module _ (P : ℕ → Type 0) where
  abbrev AllFollowers : List Social → Type 0
  AllFollowers ss = All (λ s. P s.follower_id) ss

  first-All :
      (author : ℕ) (ss : List Social)
      → AllFollowers (filter (λ s. s.vlogger_id == author) ss)
      → AllFollowers (filter (is_follower_after author 0) ss)
  unfolding filter
  first-All author [] h = tt
  first-All author (s ∷ ss) h = elim (Bool-cases (s.vlogger_id == author)) [
    | inl own ↦ let k = rw own at h in rw own (k.0, first-All author ss k.1)
    | inr other ↦ rw other (first-All author ss (rw other at h))
  ]

  relations-All :
      (author limit : ℕ) (d : Db)
      → AllFollowers (followers_of author d)
      → AllFollowers (relations_after author 0 limit d)
  unfolding relations_after
  relations-All author limit d h =
      let line = order_by older (filter (is_follower_after author 0) d.socials) in
      All-append_left (λ s. P s.follower_id) (take limit line) (drop limit line)
        (subst AllFollowers (sym (take-append-drop limit line))
          (All-order_by older (λ s. P s.follower_id) _ (first-All author d.socials h)))

  member-All :
      (u : ℕ) (ss : List Social)
      → any (λ i. u == i) (follower_ids ss) ≡ true
      → AllFollowers ss
      → P u
  unfolding any
  member-All u [] h k = absurd (cc h)
  member-All u (s ∷ ss) h k = elim (Bool-cases (u == s.follower_id)) [
    | inl same ↦ subst P (sym (==→eq u s.follower_id same)) k.0
    | inr other ↦ member-All u ss (rw other at h) k.1
  ]

  accounts-All :
      (ss : List Social) (accounts : List Account)
      → AllFollowers ss
      → All (λ a. 0 < a.id) accounts
      → All
          (λ a. P a.id × (0 < a.id))
          (filter (λ a. any (λ i. a.id == i) (follower_ids ss)) accounts)
  unfolding filter
  accounts-All ss [] h k = tt
  accounts-All ss (a ∷ accounts) h k = elim (Bool-cases (any (λ i. a.id == i) (follower_ids ss))) [
    | inl there ↦ rw there ((member-All a.id ss there h, k.0), accounts-All ss accounts h k.1)
    | inr gone ↦ rw gone (accounts-All ss accounts h k.1)
  ]

All-right : {A : Type 0} (P Q : A → Type 0) (xs : List A) → All (λ x. P x × Q x) xs → All Q xs
All-right P Q [] h = tt
All-right P Q (x ∷ xs) h = (h.0.1, All-right P Q xs h.1)

module _ (env : Env) (e : VideoEvent) (score : ℤ) (d : Db)
    (has_video : eqb_ℤ (pos e.video_id) (pos 0) ≡ false)
    (has_author : eqb_ℤ (pos e.author_id) (pos 0) ≡ false) (E : Error → Type 0) where
  first_taken :
      (a : Account) (others : List Account) (t : ℤ)
      → HasVideo e.video_id d a.id
      → inbox_taken (map (row_of e.video_id (pos e.author_id) score t) (a ∷ others)) d ≡ true
  unfolding inbox_taken
  first_taken a others t h = rw h

  insert-again :
      (accounts : List Account) (next : Action ⊤)
      → All (λ a. HasVideo e.video_id d a.id × (0 < a.id)) accounts
      → (length accounts == 0) ≡ false
      → Ensures env d
          (attempt
              (batch_insert_follow_feed_inbox env accounts (pos e.video_id) (pos e.author_id) score)
            >>= λ written. after_batch env written next)
          (λ _ d'. d' ≡ d)
          E
  unfolding batch_insert_follow_feed_inbox raise_if now execute_unique attempt pure raise ◌>>=◌
  insert-again [] next h some_accounts = absurd (cc some_accounts)
  insert-again (a ∷ others) next h some_accounts = record {
    at = λ t n.
        let kept =
          all_kept (a ∷ others)
            (All-right (λ x. HasVideo e.video_id d x.id) (λ x. 0 < x.id) (a ∷ others) h) in
        rw (has_video, has_author, kept)
          (elim (Bool-cases (env.statement_ok (n + 1))) [
            | inl up ↦ rw (up, first_taken a others (env.clock n) h.0.0) refl
            | inr down ↦ rw down (t.at (n + 1) down)
          ]);
  }

  fan_out-again :
      (n size : ℕ)
      → All (λ s. HasVideo e.video_id d s.follower_id) (followers_of e.author_id d)
      → All (λ a. 0 < a.id) d.accounts
      → Ensures env d (fan_out env (suc n) size e score 0) (λ _ d'. d' ≡ d) E
  unfolding fan_out get_followers_batch
  fan_out-again n size h ids =
      let rows = relations_after e.author_id 0 size d in
      chain-then _ _ _ (
        query-then _ _ (
          batch-then rows _ (λ empty. Ensures-pure _ refl)
            (λ r rs some_rows.
              Ensures-if (length (accounts_in (follower_ids rows) d) == 0) _ _
                (λ nobody. Ensures-pure _ refl)
                (λ somebody.
                  insert-again (accounts_in (follower_ids rows) d) _
                    (accounts-All (HasVideo e.video_id d) rows d.accounts
                      (relations-All (HasVideo e.video_id d) e.author_id size d h) ids)
                    somebody))))

-- A message of publication that is delivered again, when every follower of the author has the video in the
-- inbox, is taken without an error and changes no table, whatever the number of followers is,
-- unless a statement does not go through. Accounts have ids that are positive, the video and the
-- author ids that are not 0, and there is fuel for a round.
pub publish_inbox_again :
    (env : Env) (threshold n : ℕ) (e : VideoEvent) (score : ℤ) (w : World)
    → All (λ s. HasVideo e.video_id w.db s.follower_id) (followers_of e.author_id w.db)
    → All (λ a. 0 < a.id) w.db.accounts
    → (e.video_id == 0) ≡ false
    → (e.author_id == 0) ≡ false
    → OnResult
        (λ _ d. d ≡ w.db)
        (Fails env (λ _. ⊥))
        (publish_inbox env threshold (suc n) e score w)
unfolding publish_inbox count_followers
publish_inbox_again env threshold n e score w h ids video author =
    let has_video : eqb_ℤ (pos e.video_id) (pos 0) ≡ false = ground (arith, video) in
    let has_author : eqb_ℤ (pos e.author_id) (pos 0) ≡ false = ground (arith, author) in
    (query-then _ _ (
        Ensures-if _ _ _ (λ many. Ensures-pure _ refl)
          (λ few. fan_out-again env e score w.db has_video has_author _ n 500 h ids))).at
      Fails-Tolerates w.tick
