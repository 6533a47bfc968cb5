-- ===== src/Pay/Cashier/Attempts.antt =====
-- The requests by which `notify` of backend/internal/pay/cashier.go tells the merchant of a trade.
use feedsystem_video_go_medi.Prelude.{
  ℕ, not, zero, suc, leb, ltb, ◌+◌, ◌≤◌, ◌≡◌, refl, subst, Bool, true, false, ◌&&◌, inl, inr,
  Option, none, some, List, [], ◌∷◌, String, All, Bool-cases, arith, unix,
}
use feedsystem_video_go_medi.Pay.Gateway.{Codec, build_callback}
use feedsystem_video_go_medi.Pay.Values.{Values, Texts, get}
use feedsystem_video_go_medi.Pay.Cashier.Trades.{Cashier, step_on}
use feedsystem_video_go_medi.Pay.Cashier.Notices.{
  Outside, Delivery, bad_address, unreachable, answered, delivered_or, attempts, notice_body,
  notify,
}

-- The merchant's answer is from 200 to 299.
abbrev pub is_accepted : Delivery → Bool
is_accepted bad_address = false
is_accepted unreachable = false
is_accepted (answered code) = leb 200 code && ltb code 300

-- Another request may follow.
abbrev pub is_open : Delivery → Bool
is_open bad_address = false
is_open unreachable = true
is_open (answered code) = not (leb 200 code && ltb code 300)

-- What becomes of `n` requests, the first of them at the tick `from`.
abbrev pub replies : (ℕ → Delivery) → ℕ → ℕ → List Delivery
replies reply zero from = []
replies reply (suc n) from = reply from ∷ replies reply n (from + 1)

abbrev pub AreOpen : List Delivery → Type 0
AreOpen ds = All (λ d. is_open d ≡ true) ds

-- How at most `limit` requests, the first of them at the tick `from`, end: whether the notice is
-- delivered, and after how many.
pub data Ending (reply : ℕ → Delivery) (limit from : ℕ) : Bool → ℕ → Type 0 where
  accepted :
      (m : ℕ)
      → suc m ≤ limit
      → AreOpen (replies reply m from)
      → is_accepted (reply (from + m)) ≡ true
      → Ending reply limit from true (suc m)
  misdirected :
      (m : ℕ)
      → suc m ≤ limit
      → AreOpen (replies reply m from)
      → reply (from + m) ≡ bad_address
      → Ending reply limit from false (suc m)
  given_up : AreOpen (replies reply limit from) → Ending reply limit from false limit

one_later :
    (P : Delivery → Type 0) (reply : ℕ → Delivery) (from m : ℕ)
    → P (reply (from + 1 + m))
    → P (reply (from + suc m))
one_later P reply from m h =
    let e : from + 1 + m ≡ from + suc m = omega arith in subst (λ k. P (reply k)) e h

Ending-later :
    (reply : ℕ → Delivery) (n from : ℕ) (b : Bool) (k : ℕ)
    → is_open (reply from) ≡ true
    → Ending reply n (from + 1) b k
    → Ending reply (suc n) from b (suc k)
Ending-later reply n from _ _ first (accepted m few rest last) =
    accepted (suc m) (omega (arith, few)) (first, rest)
      (one_later (λ d. is_accepted d ≡ true) reply from m last)
Ending-later reply n from _ _ first (misdirected m few rest last) =
    misdirected (suc m) (omega (arith, few)) (first, rest)
      (one_later (λ d. d ≡ bad_address) reply from m last)
Ending-later reply n from _ _ first (given_up rest) = given_up (first, rest)

-- The requests that a run has made, by its ticks.
abbrev pub Attempted : (ℕ → Delivery) → ℕ → ℕ → Bool × Cashier → Type 0
Attempted reply limit from r = (n : ℕ) × (r.1.tick ≡ from + n) × Ending reply limit from r.0 n

at_now :
    (P : Delivery → Type 0) (reply : ℕ → Delivery) (from : ℕ)
    → P (reply from)
    → P (reply (from + 0))
at_now P reply from h = let e : from ≡ from + 0 = omega arith in subst (λ k. P (reply k)) e h

delivered-Attempted :
    (reply : ℕ → Delivery) (n : ℕ) (s : Cashier) (later : Bool × Cashier) (d : Delivery)
    → reply s.tick ≡ d
    → Attempted reply n (s.tick + 1) later
    → Attempted reply (suc n) s.tick (delivered_or later d s)
delivered-Attempted reply n s later bad_address e h =
    (1, refl, misdirected 0 (omega arith) tt (at_now (λ d. d ≡ bad_address) reply s.tick e))
delivered-Attempted reply n s later unreachable e (k, ticks, ends) =
    (suc k, omega (arith, ticks), Ending-later reply n s.tick later.0 k (rw e) ends)
delivered-Attempted reply n s later (answered code) e (k, ticks, ends) =
    elim (Bool-cases (leb 200 code && ltb code 300)) [
      | inl good ↦ rw good (
        1,
        refl,
        accepted 0 (omega arith) tt
            (at_now (λ d. is_accepted d ≡ true) reply s.tick (rw (e, good))),
      )
      | inr bad ↦
          rw bad
            (suc k, omega (arith, ticks), Ending-later reply n s.tick later.0 k (rw (e, bad)) ends)
    ]

module _ (o : Outside) (c : Codec) (x : Texts) (secret : String) where
  -- What the merchant says to a message at a tick.
  abbrev pub merchant : Values → String → String × String → ℕ → Delivery
  merchant q action message k = o.deliver k (get "notify_url" q) action message

  attempts-Attempted :
      (n : ℕ) (q : Values) (action : String) (message : String × String) (s : Cashier)
      → Attempted (merchant q action message) n s.tick (attempts o c x secret n q action message s)
  unfolding attempts
  attempts-Attempted zero q action message s = (0, omega arith, given_up tt)
  attempts-Attempted (suc n) q action message s =
      delivered-Attempted (merchant q action message) n s _ _ refl
        (attempts-Attempted n q action message (step_on s))

  -- The signed notice, whose time is read at the tick.
  abbrev pub signed_notice : Values → Bool → ℕ → String → String × String
  signed_notice q paid tick nonce =
      build_callback c secret (notice_body x q paid (unix (o.clock tick)) nonce)

  -- How a notification goes, with a random number or without one.
  abbrev pub Notified : Values → Bool → String → Cashier → Option String → Type 0
  Notified q paid action s none =
      ((notify o c x secret q paid action s).0 ≡ false)
      × ((notify o c x secret q paid action s).1.tick ≡ s.tick + 1)
  Notified q paid action s (some nonce) =
      Attempted (merchant q action (signed_notice q paid (s.tick + 1) nonce)) 3 (s.tick + 1 + 1)
        (notify o c x secret q paid action s)

  notify-by :
      (q : Values) (paid : Bool) (action : String) (s : Cashier) (token : Option String)
      → o.token s.tick 6 ≡ token
      → Notified q paid action s token
  unfolding notify
  notify-by q paid action s none e = rw e (refl, refl)
  notify-by q paid action s (some nonce) e = rw e (
      attempts-Attempted 3 q action (signed_notice q paid (s.tick + 1) nonce) (step_on (step_on s)))

-- A notification sends the merchant the same signed notice at most three times, one tick each. It is
-- delivered just where the last request is answered with a status from 200 to 299; every request before
-- the last is answered otherwise or not at all; and it is not delivered where the last request has a
-- bad address, or after three that were answered otherwise or not at all. Where the random source
-- gives no nonce, nothing is sent.
pub notify_outcome :
    (o : Outside) (c : Codec) (x : Texts) (secret : String) (q : Values) (paid : Bool)
    (action : String) (s : Cashier)
    → Notified o c x secret q paid action s (o.token s.tick 6)
notify_outcome o c x secret q paid action s = notify-by o c x secret q paid action s _ refl
