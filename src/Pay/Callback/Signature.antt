-- ===== src/Pay/Callback/Signature.antt =====
-- Which callbacks `HandleCallback` lets through, and that it lets through those of `buildCallback`.
use feedsystem_video_go_medi.Prelude.{
  ℤ, ◌+◌, ◌≡◌, refl, true, false, not, Option, none, some, String, str_eq, ◌⊎◌, inl, inr,
  Bool-cases, and-true, str_eq_iff, str_eq_refl,
}
use feedsystem_video_go_medi.Pay.Entity.{CallbackBody}
use feedsystem_video_go_medi.Store.{
  World, Env, Error, ⊤, Result, err, pure, raise, raise_if, now, ◌>>=◌,
}
use feedsystem_video_go_medi.Pay.Gateway.{
  Codec, known_channel, sign_body, verify_body, is_mac, parse_callback, checked_callback,
  build_callback, is_incomplete, is_stale,
}
use feedsystem_video_go_medi.Pay.Callback.{handle_callback, apply_callback, from_result}

abbrev pub next_tick : World → World
next_tick w = record { db = w.db; tick = w.tick + 1 }

-- The body is a complete callback that is about five minutes old at most, or early at most, and the
-- signature is its hash under the secret.
pub record IsAuthentic (c : Codec) (secret channel body signature : String) (t : ℤ)
    (cb : CallbackBody) : Type 0 where
  pub known : known_channel channel ≡ true
  pub signed : c.hex_decode signature ≡ some (c.hmac secret body)
  pub decoded : c.json_decode body ≡ some cb
  pub complete : is_incomplete cb ≡ false
  pub fresh : is_stale cb t ≡ false

signed-of_mac :
    (c : Codec) (secret body : String) (got : Option String)
    → is_mac c secret body got ≡ true
    → got ≡ some (c.hmac secret body)
signed-of_mac c secret body none h = cc
signed-of_mac c secret body (some got) h = cc ((str_eq_iff got (c.hmac secret body)).0 h)

signed-of_verify :
    (c : Codec) (secret signature body : String)
    → verify_body c secret signature body ≡ true
    → c.hex_decode signature ≡ some (c.hmac secret body)
unfolding verify_body
signed-of_verify c secret signature body h =
    signed-of_mac c secret body _ (and-true (not (str_eq signature "")) _ h).1

module _ (env : Env) (c : Codec) (secret channel body signature : String) where
  -- Either refused without any effect, or checked and then applied.
  abbrev pub Answered : World → Result ⊤ × World → Type 0
  Answered w r =
      ((e : Error) × (r.0 ≡ err e) × (r.1.db ≡ w.db))
      ⊎ ((cb : CallbackBody) × IsAuthentic c secret channel body signature (env.clock w.tick) cb
          × (r ≡ apply_callback env channel cb (next_tick w)))

  parsed-Answered :
      (w : World) (o : Option CallbackBody)
      → known_channel channel ≡ true
      → c.hex_decode signature ≡ some (c.hmac secret body)
      → c.json_decode body ≡ o
      → Answered w (
          (from_result (checked_callback c (env.clock w.tick) o) >>= apply_callback env channel)
            (next_tick w))
  unfolding ◌>>=◌ pure raise
  parsed-Answered w none known signed decoded = inl (_, refl, refl)
  parsed-Answered w (some cb) known signed decoded = elim (Bool-cases (is_incomplete cb)) [
    | inl bad ↦ rw bad (inl (_, refl, refl))
    | inr complete ↦ elim (Bool-cases (is_stale cb (env.clock w.tick))) [
      | inl old ↦ rw (complete, old) (inl (_, refl, refl))
      | inr fresh ↦
          rw (complete, fresh)
            (inr (
              cb,
              record {
                known = known;
                signed = signed;
                decoded = decoded;
                complete = complete;
                fresh = fresh;
              },
              refl,
            ))
    ]
  ]

  -- A callback is refused with an error and changes no table, or its channel is known, its signature is
  -- the hash of its body under the secret, its body is a complete callback within five minutes of the
  -- clock, and the outcome is that of `credit` or, for a notice of failure, of `markFailed`.
  pub handle_callback-Answered :
      (w : World) → Answered w (handle_callback env c secret channel body signature w)
  unfolding handle_callback raise_if now parse_callback ◌>>=◌
  handle_callback-Answered w = elim (Bool-cases (known_channel channel)) [
    | inl known ↦ elim (Bool-cases (verify_body c secret signature body)) [
      | inl good ↦
          rw (known, good)
            (parsed-Answered w (c.json_decode body) known
              (signed-of_verify c secret signature body good) refl)
      | inr bad ↦ rw (known, bad) (inl (_, refl, refl))
    ]
    | inr unknown ↦ rw unknown (inl (_, refl, refl))
  ]

-- What the service relies on in Go's library, for one secret and one callback.
pub record RoundTrips (c : Codec) (secret : String) (cb : CallbackBody) : Type 0 where
  pub hex : (x : String) → c.hex_decode (c.hex_encode x) ≡ some x
  pub hex_some : (body : String) → str_eq (c.hex_encode (c.hmac secret body)) "" ≡ false
  pub json : c.json_decode (c.json_encode cb) ≡ some cb

-- A callback that the service or the channel builds with the same secret is let through on a known
-- channel, if it is complete and not stale, where hexadecimal digits and JSON are read back as what was
-- written and a hash is not the empty text.
pub handle_callback-build_callback :
    (env : Env) (c : Codec) (secret channel : String) (cb : CallbackBody) (w : World)
    → RoundTrips c secret cb
    → known_channel channel ≡ true
    → is_incomplete cb ≡ false
    → is_stale cb (env.clock w.tick) ≡ false
    → (let (body, signature) = build_callback c secret cb in
        handle_callback env c secret channel body signature w)
      ≡ apply_callback env channel cb (next_tick w)
unfolding handle_callback raise_if now parse_callback ◌>>=◌ build_callback sign_body verify_body
    pure
handle_callback-build_callback env c secret channel cb w trips known complete fresh =
    rw
      (
        known,
        trips.hex_some (c.json_encode cb),
        trips.hex (c.hmac secret (c.json_encode cb)),
        str_eq_refl (c.hmac secret (c.json_encode cb)),
        trips.json,
        complete,
        fresh,
      )
      refl
