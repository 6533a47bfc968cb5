-- ===== src/Video/Fanout/Counts.antt =====
-- How many rows a batch of followers gets in the inboxes.
use feedsystem_video_go_medi.Prelude.{
  ℕ, ℤ, pos, ◌+◌, ◌≤◌, ◌≡◌, refl, sym, subst, ◌∙◌, Bool, true, false, List, [], ◌∷◌, if◌then◌else◌,
  ◌==◌, ==→eq, any, filter, map, count_where, length, All, arith, Bool-cases, inl, inr,
}
use feedsystem_video_go_medi.Prelude.Lists.Laws.{count-of_any}
use feedsystem_video_go_medi.Account.Entity.{Account}
use feedsystem_video_go_medi.Video.Entity.{FollowFeedInbox}
use feedsystem_video_go_medi.Store.{Db}
use feedsystem_video_go_medi.Video.Fanout.{
  is_inbox_of, inbox_taken, add_inbox, add_inboxes, new_inbox,
}

-- How often an account has the video in its inbox, and how often an id stands in a list.
abbrev pub inbox_count : ℕ → ℕ → Db → ℕ
inbox_count post u d = count_where (is_inbox_of (pos u) (pos post)) d.inboxes

abbrev pub id_count : ℕ → List ℕ → ℕ
id_count u ids = count_where (λ i. u == i) ids

abbrev pub account_count : ℕ → List Account → ℕ
account_count u accounts = count_where (λ a. u == a.id) accounts

abbrev is_in : List ℕ → Account → Bool
is_in ids a = any (λ i. a.id == i) ids

in_count : (u : ℕ) (ids : List ℕ) → any (λ i. u == i) ids ≡ true → 1 ≤ id_count u ids
unfolding any count_where
in_count u [] h = absurd (cc h)
in_count u (i ∷ ids) h = ground (arith, in_count u ids)

not_in_count : (u : ℕ) (ids : List ℕ) → any (λ i. u == i) ids ≡ false → id_count u ids ≡ 0
unfolding any count_where
not_in_count u [] h = refl
not_in_count u (i ∷ ids) h = ground (arith, not_in_count u ids)

kept_count :
    (u : ℕ) (ids : List ℕ) (accounts : List Account)
    → any (λ i. u == i) ids ≡ true
    → account_count u (filter (is_in ids) accounts) ≡ account_count u accounts
unfolding filter count_where
kept_count u ids [] h = refl
kept_count u ids (a ∷ accounts) h = elim (Bool-cases (u == a.id)) [
  | inl same ↦
      let there : is_in ids a ≡ true =
        subst (λ k. any (λ i. k == i) ids ≡ true) (==→eq u a.id same) h in
      rw (there, same, kept_count u ids accounts h)
  | inr other ↦ elim (Bool-cases (is_in ids a)) [
    | inl there ↦ rw (there, other, kept_count u ids accounts h)
    | inr gone ↦ rw (gone, other) (omega (arith, kept_count u ids accounts h))
  ]
]

left_count :
    (u : ℕ) (ids : List ℕ) (accounts : List Account)
    → any (λ i. u == i) ids ≡ false
    → account_count u (filter (is_in ids) accounts) ≡ 0
unfolding filter count_where
left_count u ids [] h = refl
left_count u ids (a ∷ accounts) h = elim (Bool-cases (is_in ids a)) [
  | inl there ↦ elim (Bool-cases (u == a.id)) [
    | inl same ↦
        let gone : is_in ids a ≡ false =
          subst (λ k. any (λ i. k == i) ids ≡ false) (==→eq u a.id same) h in
        absurd (cc (there, gone))
    | inr other ↦ rw (there, other, left_count u ids accounts h)
  ]
  | inr gone ↦ rw (gone, left_count u ids accounts h)
]

member_once :
    (u : ℕ) (ids : List ℕ) (accounts : List Account)
    → any (λ i. u == i) ids ≡ true
    → All (λ i. account_count i accounts ≡ 1) ids
    → account_count u accounts ≡ 1
unfolding any
member_once u [] accounts h k = absurd (cc h)
member_once u (i ∷ ids) accounts h k = elim (Bool-cases (u == i)) [
  | inl same ↦ subst (λ j. account_count j accounts ≡ 1) (sym (==→eq u i same)) k.0
  | inr other ↦ member_once u ids accounts (rw other at h) k.1
]

-- Among the accounts with ids in a list, each id of the list stands once, and no other.
pub batch_count :
    (u : ℕ) (ids : List ℕ) (accounts : List Account)
    → All (λ i. account_count i accounts ≡ 1) ids
    → id_count u ids ≤ 1
    → account_count u (filter (is_in ids) accounts) ≡ id_count u ids
batch_count u ids accounts present few = elim (Bool-cases (any (λ i. u == i) ids)) [
  | inl there ↦ omega (
    arith,
    kept_count u ids accounts there,
    member_once u ids accounts there present,
    in_count u ids there,
  )
  | inr gone ↦ left_count u ids accounts gone ∙ sym (not_in_count u ids gone)
]

more_in :
    (i : ℕ) (ids : List ℕ) (accounts : List Account)
    → any (λ j. i == j) ids ≡ false
    → length (filter (is_in (i ∷ ids)) accounts)
      ≡ account_count i accounts + length (filter (is_in ids) accounts)
unfolding filter any count_where
more_in i ids [] h = refl
more_in i ids (a ∷ accounts) h = elim (Bool-cases (i == a.id)) [
  | inl same ↦
      let e : i ≡ a.id = ==→eq i a.id same in
      let gone : is_in ids a ≡ false = subst (λ k. any (λ j. k == j) ids ≡ false) e h in
      let back : (a.id == i) ≡ true = ground arith in
      rw (same, gone, back) (omega (arith, more_in i ids accounts h))
  | inr other ↦
      let back : (a.id == i) ≡ false = ground arith in
      elim (Bool-cases (is_in ids a)) [
        | inl there ↦ rw (other, back, there) (omega (arith, more_in i ids accounts h))
        | inr gone ↦ rw (other, back, gone) (omega (arith, more_in i ids accounts h))
      ]
]

no_more : (i : ℕ) (ids : List ℕ) → id_count i (i ∷ ids) ≤ 1 → any (λ j. i == j) ids ≡ false
unfolding count_where
no_more i ids h =
    let none_left : id_count i ids ≡ 0 = ground (arith, h) in
    count-of_any (λ j. i == j) ids none_left

fewer : (u i : ℕ) (ids : List ℕ) → id_count u (i ∷ ids) ≤ 1 → id_count u ids ≤ 1
unfolding count_where
fewer u i ids h = omega (arith, h)

nobody_in : (accounts : List Account) → filter (is_in []) accounts ≡ []
unfolding filter any
nobody_in [] = refl
nobody_in (a ∷ accounts) = nobody_in accounts

-- As many accounts as ids.
pub length-batch :
    (ids : List ℕ) (accounts : List Account)
    → All (λ i. account_count i accounts ≡ 1) ids
    → ((u : ℕ) → id_count u ids ≤ 1)
    → length (filter (is_in ids) accounts) ≡ length ids
length-batch [] accounts present few = rw (nobody_in accounts)
length-batch (i ∷ ids) accounts present few = omega (
  arith,
  more_in i ids accounts (no_more i ids (few i)),
  present.0,
  length-batch ids accounts present.1 (λ u. fewer u i ids (few u)),
)

no_inbox :
    (post u : ℕ) (d : Db)
    → inbox_count post u d ≡ 0
    → any (is_inbox_of (pos u) (pos post)) d.inboxes ≡ false
no_inbox post u d h = count-of_any (is_inbox_of (pos u) (pos post)) d.inboxes h

module _ (post : ℕ) (author score t : ℤ) where
  abbrev pub row_of : Account → FollowFeedInbox
  row_of a = new_inbox (pos post) author score t a

  inbox_count-add :
      (u : ℕ) (a : Account) (d : Db)
      → inbox_count post u (add_inbox (row_of a) d)
        ≡ (if u == a.id then 1 else 0) + inbox_count post u d
  unfolding add_inbox count_where
  inbox_count-add u a d = ground arith

  -- Rows of accounts that have none yet, one for each, meet no key.
  pub inbox_taken_none :
      (accounts : List Account) (d : Db)
      → ((u : ℕ) → account_count u accounts + inbox_count post u d ≤ 1)
      → inbox_taken (map row_of accounts) d ≡ false
  unfolding inbox_taken count_where
  inbox_taken_none [] d h = refl
  inbox_taken_none (a ∷ accounts) d h =
      let fresh : inbox_count post a.id d ≡ 0 = ground (arith, h a.id) in
      rw (no_inbox post a.id d fresh) (
        inbox_taken_none accounts (add_inbox (row_of a) d)
          (λ u. omega (arith, h u, inbox_count-add u a d)))

  pub inbox_count-add_inboxes :
      (u : ℕ) (accounts : List Account) (d : Db)
      → inbox_count post u (add_inboxes (map row_of accounts) d)
        ≡ account_count u accounts + inbox_count post u d
  unfolding add_inboxes count_where
  inbox_count-add_inboxes u [] d = omega arith
  inbox_count-add_inboxes u (a ∷ accounts) d =
      omega
        (arith, inbox_count-add_inboxes u accounts (add_inbox (row_of a) d), inbox_count-add u a d)

  -- The tables that a batch leaves alone.
  pub add_inboxes-others :
      (items : List FollowFeedInbox) (d : Db)
      → ((add_inboxes items d).socials ≡ d.socials) × ((add_inboxes items d).accounts ≡ d.accounts)
  unfolding add_inboxes add_inbox
  add_inboxes-others [] d = (refl, refl)
  add_inboxes-others (i ∷ is) d = add_inboxes-others is (add_inbox i d)
