-- ===== src/Video/Fanout/Spread.antt =====
-- The worker's loop, from its first batch to its last.
use feedsystem_video_go_medi.Prelude.{
  ℕ, zero, suc, ℤ, pos, ◌<◌, eqb_ℤ, ltb, ◌≡◌, refl, ap, sym, subst, ◌∙◌, true, false, some, List,
  [], ◌∷◌, ◌++◌, if◌then◌else◌, ◌==◌, All, arith, inl, inr, length, take, last, count_where,
}
use mathlib.Core.List.{append_assoc, append-nil}
use feedsystem_video_go_medi.Prelude.Lists.Ordered.{All-order_by, length-order_by}
use feedsystem_video_go_medi.Prelude.Lists.Unique.{All-filter, length-filter}
use feedsystem_video_go_medi.Prelude.Lists.Pages.{
  drop, take-append-drop, drop_short, length-drop, last-append, All-last, All-append_left,
  All-append_right,
}
use feedsystem_video_go_medi.Account.Entity.{Account}
use feedsystem_video_go_medi.Social.Entity.{Social}
use feedsystem_video_go_medi.Social.Follow.{
  older, last_id, batch_of, get_followers_batch, count_followers,
}
use feedsystem_video_go_medi.Store.{
  Db, World, Env, Error, Action, ⊤, connection, pure, attempt, VideoEvent, ◌>>=◌,
}
use feedsystem_video_go_medi.Store.Ensures.{
  Ensures, OnResult, Ensures-pure, Ensures-if, Ensures-raise, query-then, chain-then,
}
use feedsystem_video_go_medi.Store.Ensures.Attempt.{contact-then}
use feedsystem_video_go_medi.Store.Ensures.Outcome.{Fails, Fails-Tolerates}
use feedsystem_video_go_medi.Video.Fanout.{
  fan_out, publish_inbox, after_batch, batch_insert_follow_feed_inbox,
}
use feedsystem_video_go_medi.Video.Fanout.Counts.{id_count}
use feedsystem_video_go_medi.Video.Fanout.Batch.{
  attempt-then, batch_insert_follow_feed_inbox-Atomic,
}
use feedsystem_video_go_medi.Video.Fanout.Delivery.{follower_ids, followers_of, positive_ids}
use feedsystem_video_go_medi.Video.Fanout.Once.{
  CanSpread, IsSpread, batch-then, line, line_count, StandsAt, HasServed, relations_at, batch,
  batch_ids, batch_size_lem, batch_fits, served_more,
}

last_of : (r : Social) (rs : List Social) → (s : Social) × (last (r ∷ rs) ≡ some s)
unfolding last
last_of r [] = (r, refl)
last_of r (r' ∷ rs) = last_of r' rs

module _ (env : Env) (e : VideoEvent) (score : ℤ) (k : ℕ) (d0 : Db)
    (h : CanSpread e.author_id e.video_id d0) (has_video : eqb_ℤ (pos e.video_id) (pos 0) ≡ false)
    (has_author : eqb_ℤ (pos e.author_id) (pos 0) ≡ false) (E : Error → Type 0) where
  abbrev Rest : ℕ → ℕ → Db → Type 0
  Rest n last_relation d =
      Ensures env d (fan_out env n (suc k) e score last_relation)
        (λ _ d'. IsSpread e.author_id e.video_id d0 d') E

  served_all :
      (read : List Social) (d : Db)
      → line e.author_id e.video_id d0 h ≡ read
      → HasServed e.author_id e.video_id d0 h read d
      → IsSpread e.author_id e.video_id d0 d
  served_all read d all served u =
      served.counts u
      ∙ ap (λ l. id_count u (follower_ids l)) (sym all)
      ∙ line_count e.author_id e.video_id d0 h u

  -- What a batch leaves to the rounds after it.
  abbrev Later : ℕ → Type 0
  Later n =
      (read rest : List Social) (last_relation : ℕ) (d : Db)
      → line e.author_id e.video_id d0 h ≡ read ++ rest
      → StandsAt e.author_id e.video_id d0 h read last_relation
      → HasServed e.author_id e.video_id d0 h read d
      → length rest < n
      → Rest n last_relation d

  module _ (n : ℕ) (later : Later n) (read rest : List Social) (d : Db)
      (split : line e.author_id e.video_id d0 h ≡ read ++ rest)
      (served : HasServed e.author_id e.video_id d0 h read d) (enough : length rest < suc n) where
    abbrev rows : List Social
    rows = take (suc k) rest

    abbrev left : List Social
    left = drop (suc k) rest

    parts : line e.author_id e.video_id d0 h ≡ read ++ (rows ++ left)
    parts = split ∙ ap (λ l. read ++ l) (sym (take-append-drop (suc k) rest))

    abbrev accounts : List Account
    accounts = batch e.author_id e.video_id d0 h read rows left parts d served

    size : length accounts ≡ length rows
    size = batch_size_lem e.author_id e.video_id d0 h read rows left parts d served

    abbrev next : ⊤ → Action ⊤
    next _ =
        if ltb (length accounts) (suc k)
        then pure tt
        else fan_out env n (suc k) e score (last_id (last rows))

    nothing_left : left ≡ [] → line e.author_id e.video_id d0 h ≡ read ++ rows
    nothing_left none_left =
        parts ∙ ap (λ l. read ++ (rows ++ l)) none_left ∙ ap (λ l. read ++ l) (append-nil rows)

    after_write :
        (r : Social) (d' : Db)
        → last rows ≡ some r
        → 0 < r.id
        → HasServed e.author_id e.video_id d0 h (read ++ rows) d'
        → Ensures env d' (next tt) (λ _ d''. IsSpread e.author_id e.video_id d0 d'') E
    after_write r d' at positive served' =
        Ensures-if (ltb (length accounts) (suc k)) _ _
          (λ short.
            let few : (length rows == suc k) ≡ false = ground (arith, short, size) in
            Ensures-pure _
              (served_all (read ++ rows) d' (nothing_left (drop_short (suc k) rest few)) served'))
          (λ full.
            later (read ++ rows) left (last_id (last rows)) d'
              (parts ∙ sym (append_assoc read rows left))
              (inr (r, last-append read rows r at, ap last_id at, positive)) served'
              (ground (arith, full, size, length-drop (suc k) rest, enough)))

    after_rows :
        (r : Social)
        → last rows ≡ some r
        → 0 < r.id
        → Ensures env d
            (attempt (
                batch_insert_follow_feed_inbox env accounts
                  (pos e.video_id)
                  (pos e.author_id)
                  score)
              >>= λ written. after_batch env written (next tt))
            (λ _ d''. IsSpread e.author_id e.video_id d0 d'')
            E
    after_rows r at positive =
        attempt-then _ _
          (batch_insert_follow_feed_inbox-Atomic env e.video_id e.author_id score d has_video
            has_author accounts
            (batch_ids e.author_id e.video_id d0 h read rows left parts d served)
            (batch_fits e.author_id e.video_id d0 h read rows left parts d served))
          (λ u d' written. contact-then _ (
            after_write r d' at positive (
              served_more e.author_id e.video_id d0 h read rows left parts d served score written.0
                d' written.1)))
          (λ lost. Ensures-raise connection lost)

    positive_rows : All (λ s. 0 < s.id) rows
    positive_rows =
        All-append_left (λ s. 0 < s.id) rows left
          (All-append_right (λ s. 0 < s.id) read (rows ++ left)
            (subst (All (λ s. 0 < s.id)) parts (
              All-order_by older (λ s. 0 < s.id) (followers_of e.author_id d0)
                (All-filter (λ s. 0 < s.id) (λ s. s.vlogger_id == e.author_id) d0.socials
                  (positive_ids d0.socials h.relation_ids)))))

    rows_then :
        Ensures env d
          (batch_of env rows >>= λ b.
            if length b.0 == 0
            then pure tt
            else (attempt
                  (batch_insert_follow_feed_inbox env b.0 (pos e.video_id) (pos e.author_id) score)
                >>= λ written. after_batch env written (
                    if ltb (length b.0) (suc k)
                    then pure tt
                    else fan_out env n (suc k) e score b.1)))
          (λ _ d''. IsSpread e.author_id e.video_id d0 d'')
          E
    rows_then =
        batch-then rows _
          (λ empty.
            let few : (length rows == suc k) ≡ false = ground (arith, ap length empty) in
            let done : line e.author_id e.video_id d0 h ≡ read =
              nothing_left (drop_short (suc k) rest few)
              ∙ ap (λ l. read ++ l) empty
              ∙ append-nil read in
            Ensures-pure _ (served_all read d done served))
          (λ r rs some_rows.
            Ensures-if (length accounts == 0) _ _
              (λ nobody. absurd (ground (arith, nobody, size, ap length some_rows)))
              (λ somebody.
                let (s, at) = last_of r rs in
                let at' : last rows ≡ some s = ap last some_rows ∙ at in
                after_rows s at' (All-last (λ x. 0 < x.id) rows s at' positive_rows)))

  walk-Ensures : (n : ℕ) → Later n
  unfolding fan_out get_followers_batch
  walk-Ensures zero read rest last_relation d split stands served enough = absurd (omega arith)
  walk-Ensures (suc n) read rest last_relation d split stands served enough = chain-then _ _ _ (
      query-then _ _ (
        rw
          (relations_at e.author_id e.video_id d0 h (suc k) last_relation read rest d split stands
            served.socials)
          (rows_then n (walk-Ensures n) read rest d split served enough)))

-- A video of an author with fewer followers than the threshold reaches the inbox of each follower exactly
-- once and no other inbox, however many batches that takes, unless a statement does not go
-- through; a round for each relation and one more are enough. This holds where no inbox has
-- the video yet, relations have ids that are positive and differ, nobody follows the author twice, and
-- each follower has one account; the video and the author have ids that are not 0.
pub publish_inbox-IsSpread :
    (env : Env) (threshold fuel : ℕ) (e : VideoEvent) (score : ℤ) (w : World)
    → CanSpread e.author_id e.video_id w.db
    → (e.video_id == 0) ≡ false
    → (e.author_id == 0) ≡ false
    → ltb (count_where (λ s. s.vlogger_id == e.author_id) w.db.socials) threshold ≡ true
    → length w.db.socials < fuel
    → OnResult
        (λ _ d. IsSpread e.author_id e.video_id w.db d)
        (Fails env (λ _. ⊥))
        (publish_inbox env threshold fuel e score w)
unfolding publish_inbox count_followers count_where
publish_inbox-IsSpread env threshold fuel e score w h video author few enough =
    (query-then _ _ (
        rw few (
          walk-Ensures env e score 499 w.db h (ground (arith, video)) (ground (arith, author)) _
            fuel [] (line e.author_id e.video_id w.db h) 0 w.db refl (inl (refl, refl))
            (record { socials = refl; accounts = refl; counts = h.fresh })
            (omega (
              arith,
              enough,
              length-order_by older (followers_of e.author_id w.db),
              length-filter (λ s. s.vlogger_id == e.author_id) w.db.socials,
            ))))).at
      Fails-Tolerates w.tick
