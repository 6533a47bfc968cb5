-- ===== src/Video/Fanout/Once.antt =====
-- The worker's loop over the followers of an author.
use feedsystem_video_go_medi.Prelude.{
  ℕ, suc, ℤ, pos, ◌+◌, ◌≤◌, ◌<◌, ltb, ◌≡◌, refl, ap, sym, subst, ◌∙◌, true, ◌&&◌, some, ◌⊎◌, List,
  [], ◌∷◌, ◌++◌, ◌==◌, filter, map, All, arith, inl, inr, length, take, last, order_by, count_where,
}
use mathlib.Core.Path.{fun_ext}
use mathlib.Core.List.{map-append}
use feedsystem_video_go_medi.Prelude.Lists.Ordered.{All-order_by}
use feedsystem_video_go_medi.Prelude.Lists.Pages.{order_by_after, All-append_left, All-append_right}
use feedsystem_video_go_medi.Prelude.Lists.Unique.{All-filter}
use feedsystem_video_go_medi.Account.Entity.{Account}
use feedsystem_video_go_medi.Social.Entity.{Social}
use feedsystem_video_go_medi.Social.Follow.{
  is_relation, older, is_follower_after, relations_after, accounts_in, last_id, batch_of,
}
use feedsystem_video_go_medi.Store.{Db, Env, Error, Action, ◌>>=◌}
use feedsystem_video_go_medi.Store.Ensures.{Ensures, query-then, pure-then, chain-then}
use feedsystem_video_go_medi.Video.Fanout.{add_inboxes}
use feedsystem_video_go_medi.Video.Fanout.Counts.{
  id_count, account_count, inbox_count, batch_count, length-batch, row_of, inbox_count-add_inboxes,
  add_inboxes-others,
}
use feedsystem_video_go_medi.Video.Fanout.Delivery.{
  follower_ids, followers_of, older-IsOrder, HasRelationIds, HasRelationIds-IsApart,
  filter-HasRelationIds, filter_both, count-followers, count-order_by, count-append,
}

-- Tables from which a video can be spread: relations with ids of their own, at most one from each
-- follower to the author, followers with one account each, and no row for the video yet.
pub record CanSpread (author post : ℕ) (d : Db) : Type 0 where
  pub relation_ids : HasRelationIds d.socials
  pub once : (u : ℕ) → count_where (is_relation u author) d.socials ≤ 1
  pub accounts : All (λ s. account_count s.follower_id d.accounts ≡ 1) (followers_of author d)
  pub account_ids : All (λ a. 0 < a.id) d.accounts
  pub fresh : (u : ℕ) → inbox_count post u d ≡ 0

-- Each account has as many rows for the video as it has relations to the author, one or none.
abbrev pub IsSpread : ℕ → ℕ → Db → Db → Type 0
IsSpread author post d d' =
    (u : ℕ) → inbox_count post u d' ≡ count_where (is_relation u author) d.socials

module _ {env : Env} {B : Type 0} {Q : B → Db → Type 0} {E : Error → Type 0} {d : Db} where
  pub batch-then :
      (rows : List Social) (f : List Account × ℕ → Action B)
      → (rows ≡ [] → Ensures env d (f ([], 0)) Q E)
      → ((r : Social) (rs : List Social)
          → rows ≡ r ∷ rs
          → Ensures env d (f (accounts_in (follower_ids rows) d, last_id (last rows))) Q E)
      → Ensures env d (batch_of env rows >>= f) Q E
  batch-then [] f empty more = pure-then _ f (empty refl)
  batch-then (r ∷ rs) f empty more =
      chain-then _ _ _ (query-then _ _ (pure-then _ f (more r rs refl)))

module _ (author post : ℕ) (d0 : Db) (h : CanSpread author post d0) where
  abbrev pub line : List Social
  line = order_by older (followers_of author d0)

  pub line_count :
      (u : ℕ) → id_count u (follower_ids line) ≡ count_where (is_relation u author) d0.socials
  line_count u = count-order_by u (followers_of author d0) ∙ count-followers u author d0.socials

  abbrev pub StandsAt : List Social → ℕ → Type 0
  StandsAt read last_relation =
      ((read ≡ []) × (last_relation ≡ 0))
      ⊎ ((s : Social) × (last read ≡ some s) × (last_relation ≡ s.id) × (0 < s.id))

  -- The tables after the followers `read` were served.
  pub record HasServed (read : List Social) (d : Db) : Type 0 where
    pub socials : d.socials ≡ d0.socials
    pub accounts : d.accounts ≡ d0.accounts
    pub counts : (u : ℕ) → inbox_count post u d ≡ id_count u (follower_ids read)

  relation_ids : HasRelationIds (followers_of author d0)
  relation_ids = filter-HasRelationIds (λ s. s.vlogger_id == author) d0.socials h.relation_ids

  everyone : (ss : List Social) → filter (λ s. true) ss ≡ ss
  unfolding filter
  everyone [] = refl
  everyone (s ∷ ss) = ap (λ l. s ∷ l) (everyone ss)

  later_ones :
      (s : Social)
      → 0 < s.id
      → is_follower_after author s.id ≡ (λ r. (r.vlogger_id == author) && older s r)
  later_ones s positive = let there : ltb 0 s.id ≡ true = ground arith in fun_ext (λ r. rw there)

  pub relations_at :
      (n last_relation : ℕ) (read rest : List Social) (d : Db)
      → line ≡ read ++ rest
      → StandsAt read last_relation
      → d.socials ≡ d0.socials
      → relations_after author last_relation n d ≡ take n rest
  unfolding relations_after
  relations_at n last_relation read rest d split (inl (e, l)) same =
      rw
        (
          same,
          l,
          filter_both (λ s. s.vlogger_id == author) (λ s. true) d0.socials,
          everyone (followers_of author d0),
          split,
          e,
        )
        refl
  relations_at n last_relation read rest d split (inr (s, at, l, positive)) same =
      rw
        (
          same,
          l,
          later_ones s positive,
          filter_both (λ r. r.vlogger_id == author) (older s) d0.socials,
        )
        (ap (take n) (
          order_by_after older older-IsOrder (followers_of author d0) read rest s
            (HasRelationIds-IsApart (followers_of author d0) relation_ids) at split))

  All-followers :
      (P : ℕ → Type 0) (ss : List Social) → All (λ s. P s.follower_id) ss → All P (follower_ids ss)
  All-followers P [] h = tt
  All-followers P (s ∷ ss) h = (h.0, All-followers P ss h.1)

  pub length-followers : (ss : List Social) → length (follower_ids ss) ≡ length ss
  length-followers [] = refl
  length-followers (s ∷ ss) = ap suc (length-followers ss)

  pub followers-append :
      (u : ℕ) (a b : List Social)
      → id_count u (follower_ids (a ++ b))
        ≡ id_count u (follower_ids a) + id_count u (follower_ids b)
  followers-append u a b =
      ap (id_count u) (map-append (λ s. s.follower_id) a b)
      ∙ count-append u (follower_ids a) (follower_ids b)

  module _ (read rows left : List Social) (split : line ≡ read ++ (rows ++ left)) (d : Db)
      (served : HasServed read d) where
    abbrev pub batch : List Account
    batch = accounts_in (follower_ids rows) d

    counted :
        (u : ℕ)
        → id_count u (follower_ids read)
            + id_count u (follower_ids rows)
            + id_count u (follower_ids left)
          ≡ count_where (is_relation u author) d0.socials
    counted u = omega (
      arith,
      line_count u,
      ap (λ l. id_count u (follower_ids l)) split,
      followers-append u read (rows ++ left),
      followers-append u rows left,
    )

    few : (u : ℕ) → id_count u (follower_ids rows) ≤ 1
    few u = omega (arith, counted u, h.once u)

    present : All (λ i. account_count i d.accounts ≡ 1) (follower_ids rows)
    present = rw served.accounts (
        All-followers (λ i. account_count i d0.accounts ≡ 1) rows
          (All-append_left _ rows left (
            All-append_right (λ s. account_count s.follower_id d0.accounts ≡ 1) read (rows ++ left)
              (subst (All (λ s. account_count s.follower_id d0.accounts ≡ 1)) split (
                All-order_by older (λ s. account_count s.follower_id d0.accounts ≡ 1)
                  (followers_of author d0) h.accounts)))))

    pub batch_ids : All (λ a. 0 < a.id) batch
    batch_ids =
        All-filter (λ a. 0 < a.id) _ d.accounts
          (subst (All (λ a. 0 < a.id)) (sym served.accounts) h.account_ids)

    pub batch_size_lem : length batch ≡ length rows
    batch_size_lem = length-batch (follower_ids rows) d.accounts present few ∙ length-followers rows

    pub batch_counts : (u : ℕ) → account_count u batch ≡ id_count u (follower_ids rows)
    batch_counts u = batch_count u (follower_ids rows) d.accounts present (few u)

    pub batch_fits : (u : ℕ) → account_count u batch + inbox_count post u d ≤ 1
    batch_fits u = omega (arith, batch_counts u, served.counts u, counted u, h.once u)

    pub served_more :
        (score t : ℤ) (d' : Db)
        → d' ≡ add_inboxes (map (row_of post (pos author) score t) batch) d
        → HasServed (read ++ rows) d'
    served_more score t d' e =
        let others =
          add_inboxes-others post (pos author) score t
            (map (row_of post (pos author) score t) batch) d in
        record {
          socials = ap (λ x. x.socials) e ∙ others.0 ∙ served.socials;
          accounts = ap (λ x. x.accounts) e ∙ others.1 ∙ served.accounts;
          counts = λ u.
              ap (inbox_count post u) e
              ∙ inbox_count-add_inboxes post (pos author) score t u batch d
              ∙ omega (arith, batch_counts u, served.counts u, followers-append u read rows);
        }
