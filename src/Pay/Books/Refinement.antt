-- ===== src/Pay/Books/Refinement.antt =====
-- `reverse` and `settleOne` against what they promise, error by error, and when they must succeed.
use feedsystem_video_go_medi.Prelude.{
  ℕ, ◌≡◌, refl, ap, ◌∙◌, subst, Bool, true, false, not, ◌&&◌, some, String, ◌⊎◌, inl, inr,
}
use feedsystem_video_go_medi.Pay.Entity.{PayOrder}
use feedsystem_video_go_medi.Store.{Db, World, Env, Error, ok, ⊤}
use feedsystem_video_go_medi.Store.Ensures.{OnAtomic}
use feedsystem_video_go_medi.Store.Ensures.Outcome.{Fails, Fails-Tolerates, Atomic-succeeds}
use feedsystem_video_go_medi.Pay.Rows.{find_order, find_own_order, entry_taken}
use feedsystem_video_go_medi.Pay.Books.{reverse, settle_one, as_reversed}
use feedsystem_video_go_medi.Pay.Books.Reversal.{
  reversed, ReverseRefused, no_order, not_refundable, coins_spent, entry_used, IsReversible,
  debit_entry, reverse-Atomic,
}
use feedsystem_video_go_medi.Pay.Books.Settlement.{settled, SettleRefused, IsDue, settle_one-Atomic}

abbrev pub ReverseDone : Env → ℕ → String → Bool → Db → PayOrder → Db → Type 0
ReverseDone env account number chargeback d o' d' =
    (o : PayOrder) × (n : ℕ) × IsReversible account number chargeback d o
    × (o' ≡ as_reversed chargeback (env.clock n) o)
    × (d' ≡ reversed account chargeback (env.clock n) o d)

-- A refund or a chargeback reverses a refundable order of the account exactly as described, at a time
-- that the clock showed, and returns it, or fails without a trace: for an unknown order, an order that
-- is not paid or not in settlement, for a refund of coins that are spent, for a ledger key in use, or
-- because a statement did not go through.
pub reverse_outcome :
    (env : Env) (account : ℕ) (number : String) (chargeback : Bool) (w : World)
    → OnAtomic w.db
        (ReverseDone env account number chargeback w.db)
        (Fails env (ReverseRefused account number chargeback w.db))
        (reverse env account number chargeback w)
reverse_outcome env account number chargeback w =
    (reverse-Atomic account number chargeback {Q = ReverseDone env account number chargeback w.db}
        (Fails env (ReverseRefused account number chargeback w.db)) w.db (λ e h. inr h)
        (λ o t r. (o, t, r, refl, refl))).at
      Fails-Tolerates w.tick

abbrev pub SettleDone : Env → String → Db → ⊤ → Db → Type 0
SettleDone env number d _ d' =
    (o : PayOrder) × (find_order number d ≡ some o)
    × ((¬ IsDue o × (d' ≡ d)) ⊎ (IsDue o × (n : ℕ) × (d' ≡ settled (env.clock n) o d)))

-- A settlement leaves an order that is not both paid and pending alone, or settles it exactly as
-- described, or fails without a trace: for an unknown order, or because a statement did not go through.
pub settle_one_outcome :
    (env : Env) (number : String) (w : World)
    → OnAtomic w.db
        (SettleDone env number w.db)
        (Fails env (SettleRefused number w.db))
        (settle_one env number w)
settle_one_outcome env number w =
    (settle_one-Atomic number {Q = SettleDone env number w.db}
        (Fails env (SettleRefused number w.db)) w.db (λ e h. inr h)
        (λ o found off. (o, found, inl (off, refl)))
        (λ o t found due. (o, found, inr (due, t, refl)))).at
      Fails-Tolerates w.tick

same_row :
    (d : Db) (account : ℕ) (number : String) (o o' : PayOrder)
    → find_own_order number account d ≡ some o
    → find_own_order number account d ≡ some o'
    → o ≡ o'
same_row d account number o o' f g = cc

not_both : (a b : Bool) → a ≡ true → b ≡ true → (a && b) ≡ false → ⊥
not_both true true p q h = cc
not_both true false p q h = cc
not_both false b p q h = cc

module _ (account : ℕ) (number : String) (chargeback : Bool) (d : Db) (o : PayOrder)
    (r : IsReversible account number chargeback d o)
    (fresh : entry_taken (debit_entry chargeback o account d) d ≡ false) where
  IsReversible-row :
      (o' : PayOrder)
      → find_own_order number account d ≡ some o'
      → IsReversible account number chargeback d o'
        × (entry_taken (debit_entry chargeback o' account d) d ≡ false)
  IsReversible-row o' found =
      subst
        (λ x.
          IsReversible account number chargeback d x
          × (entry_taken (debit_entry chargeback x account d) d ≡ false))
        (same_row d account number o o' r.found found) (r, fresh)

  IsReversible-accepted : (e : Error) → ReverseRefused account number chargeback d e → ⊥
  IsReversible-accepted _ (no_order missing) = cc (r.found, missing)
  IsReversible-accepted _ (not_refundable o' f h) = cc ((IsReversible-row o' f).0.refundable, h)
  IsReversible-accepted _ (coins_spent o' f kept h) =
      not_both _ _ h (ap not kept) (IsReversible-row o' f).0.covered
  IsReversible-accepted _ (entry_used o' f h) = cc ((IsReversible-row o' f).1, h)

-- Where every statement goes through and the ledger key is free, a refund or a chargeback of a
-- reversible order succeeds and reverses that order exactly as described, at a
-- time that the clock showed.
pub reverse_succeeds :
    (env : Env) (account : ℕ) (number : String) (chargeback : Bool) (w : World) (o : PayOrder)
    → ((n : ℕ) → env.statement_ok n ≡ true)
    → IsReversible account number chargeback w.db o
    → entry_taken (debit_entry chargeback o account w.db) w.db ≡ false
    → (n : ℕ) × ((reverse env account number chargeback w).0
        ≡ ok (as_reversed chargeback (env.clock n) o))
      × ((reverse env account number chargeback w).1.db
          ≡ reversed account chargeback (env.clock n) o w.db)
reverse_succeeds env account number chargeback w o up r fresh =
    let (o', returned, (t, is_reversed, done)) = Atomic-succeeds {env = env} w up (
      reverse-Atomic account number chargeback
        {Q = λ o' d'.
          (n : ℕ) × (o' ≡ as_reversed chargeback (env.clock n) o)
          × (d' ≡ reversed account chargeback (env.clock n) o w.db)}
        (λ _. ⊥) w.db (IsReversible-accepted account number chargeback w.db o r fresh)
        (λ x t q.
          let same : x ≡ o = same_row w.db account number x o q.found r.found in
          (
            t,
            ap (as_reversed chargeback (env.clock t)) same,
            ap (λ y. reversed account chargeback (env.clock t) y w.db) same,
          ))) in
    (t, returned ∙ ap ok is_reversed, done)
