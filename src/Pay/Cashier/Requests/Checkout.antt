-- ===== src/Pay/Cashier/Requests/Checkout.antt =====
-- The address that the service signs, and the gateway that opens it.
use feedsystem_video_go_medi.Prelude.{
  ℤ, pos, ◌≡◌, refl, Bool, true, false, not, none, List, [], ◌∷◌, All, Bool-cases, inl, inr,
  not-true, String, str_append, str_eq, str_eq_refl, leb_ℤ, ltb_ℤ, filter,
}
use feedsystem_video_go_medi.Pay.Entity.{PayOrder}
use feedsystem_video_go_medi.Pay.Gateway.{Codec, sign_body, known_channel}
use feedsystem_video_go_medi.Prelude.{unix}
use feedsystem_video_go_medi.Pay.Values.{
  Values, Texts, Addresses, get, joined, signed_keys, sign_values, verify_values, checkout_values,
  with_sign, signed_checkout,
}
use feedsystem_video_go_medi.Pay.Cashier.Requests.{signed_fields, validate}

-- None of the values of the address is missing.
pub record IsComplete (x : Texts) (a : Addresses) (o : PayOrder) : Type 0 where
  pub order_no : str_eq o.order_no "" ≡ false
  pub channel : str_eq o.channel "" ≡ false
  pub amount : str_eq (x.print o.amount_fen) "" ≡ false
  pub coins : str_eq (x.print o.coins) "" ≡ false
  pub notify : str_eq (str_append a.notify_base (str_append "/pay/callback/" o.channel)) "" ≡ false
  pub return_to :
      str_eq
        (str_append a.return_base (str_append "/pay/result?order_no=" (x.escape o.order_no)))
        ""
      ≡ false
  pub expire_at : str_eq (x.print (unix o.expire_at)) "" ≡ false

-- Sorting keeps what it sorts.
abbrev pub Sorts : Texts → Type 0
Sorts x =
    (p : String → Bool) (ks : List String)
    → All (λ k. p k ≡ true) ks
    → All (λ k. p k ≡ true) (x.sort ks)

-- Eight values and a signature, under the keys of an address.
abbrev fields : String → String → String → String → String → String → String → String → Values
fields v1 v2 v3 v4 v5 v6 v7 v8 =
    ("order_no", v1)
    ∷ ("amount_fen", v2)
    ∷ ("coins", v3)
    ∷ ("channel", v4)
    ∷ ("subject", v5)
    ∷ ("notify_url", v6)
    ∷ ("return_url", v7)
    ∷ ("expire_at", v8)
    ∷ []

abbrev is_unsigned : String → Bool
is_unsigned k = not (str_eq "sign" k)

get-with_sign : (k s : String) (v : Values) → is_unsigned k ≡ true → get k (with_sign s v) ≡ get k v
unfolding get with_sign
get-with_sign k s [] h = rw (not-true _ h)
get-with_sign k s ((k', x) ∷ rest) h = elim (Bool-cases (str_eq k' k)) [
  | inl here ↦ rw here
  | inr later ↦ rw later (get-with_sign k s rest h)
]

joined-with_sign :
    (s : String) (v : Values) (ks : List String)
    → All (λ k. is_unsigned k ≡ true) ks
    → joined (with_sign s v) ks ≡ joined v ks
unfolding joined
joined-with_sign s v [] h = refl
joined-with_sign s v (k ∷ []) h = rw (get-with_sign k s v h.0)
joined-with_sign s v (k ∷ k' ∷ ks) h =
    rw (get-with_sign k s v h.0, joined-with_sign s v (k' ∷ ks) h.1)

module _ (v1 v2 v3 v4 v5 v6 v7 v8 : String) (h1 : str_eq v1 "" ≡ false) (h2 : str_eq v2 "" ≡ false)
    (h3 : str_eq v3 "" ≡ false) (h4 : str_eq v4 "" ≡ false) (h5 : str_eq v5 "" ≡ false)
    (h6 : str_eq v6 "" ≡ false) (h7 : str_eq v7 "" ≡ false) (h8 : str_eq v8 "" ≡ false) where
  signed_fields-fields :
      (s : String)
      → str_eq s "" ≡ false
      → signed_fields (with_sign s (fields v1 v2 v3 v4 v5 v6 v7 v8))
        ≡ with_sign s (fields v1 v2 v3 v4 v5 v6 v7 v8)
  unfolding signed_fields with_sign get filter
  signed_fields-fields s hs = rw (h1, h2, h3, h4, h5, h6, h7, h8, hs)

  signed_keys-fields :
      (s : String)
      → signed_keys (with_sign s (fields v1 v2 v3 v4 v5 v6 v7 v8))
        ≡ signed_keys (fields v1 v2 v3 v4 v5 v6 v7 v8)
  unfolding signed_keys with_sign get filter
  signed_keys-fields s = rw (h1, h2, h3, h4, h5, h6, h7, h8)

  unsigned_keys : All (λ k. is_unsigned k ≡ true) (signed_keys (fields v1 v2 v3 v4 v5 v6 v7 v8))
  unfolding signed_keys get filter
  unsigned_keys =
      rw (h1, h2, h3, h4, h5, h6, h7, h8)
        (refl, (refl, (refl, (refl, (refl, (refl, (refl, (refl, tt))))))))

  sign_values-fields :
      (c : Codec) (x : Texts) (secret s : String)
      → Sorts x
      → sign_values c x secret (with_sign s (fields v1 v2 v3 v4 v5 v6 v7 v8))
        ≡ sign_values c x secret (fields v1 v2 v3 v4 v5 v6 v7 v8)
  unfolding sign_values
  sign_values-fields c x secret s sorts = rw (
    signed_keys-fields s,
    joined-with_sign s (fields v1 v2 v3 v4 v5 v6 v7 v8) _ (sorts is_unsigned _ unsigned_keys),
  )

sign_given :
    (c : Codec) (x : Texts) (secret : String) (v : Values)
    → ((b : String) → str_eq (c.hex_encode (c.hmac secret b)) "" ≡ false)
    → str_eq (sign_values c x secret v) "" ≡ false
unfolding sign_values sign_body
sign_given c x secret v signs = signs _

module _ (c : Codec) (x : Texts) (a : Addresses) (secret : String) (o : PayOrder)
    (whole : IsComplete x a o) (sorts : Sorts x)
    (signs : (b : String) → str_eq (c.hex_encode (c.hmac secret b)) "" ≡ false) where
  verify-signed_checkout :
      verify_values c x secret (signed_fields (signed_checkout c x a secret o)) ≡ true
  unfolding verify_values signed_checkout checkout_values sign_values sign_body get with_sign
  verify-signed_checkout =
      let s : String = sign_values c x secret (checkout_values x a o) in
      let given : str_eq s "" ≡ false = sign_given c x secret (checkout_values x a o) signs in
      rw (
        signed_fields-fields o.order_no (x.print o.amount_fen) (x.print o.coins) o.channel
            "ShortVideo金币充值" (str_append a.notify_base (str_append "/pay/callback/" o.channel))
            (str_append a.return_base (str_append "/pay/result?order_no=" (x.escape o.order_no)))
            (x.print (unix o.expire_at)) whole.order_no whole.amount whole.coins whole.channel refl
            whole.notify whole.return_to whole.expire_at s given,
        sign_values-fields o.order_no (x.print o.amount_fen) (x.print o.coins) o.channel
            "ShortVideo金币充值" (str_append a.notify_base (str_append "/pay/callback/" o.channel))
            (str_append a.return_base (str_append "/pay/result?order_no=" (x.escape o.order_no)))
            (x.print (unix o.expire_at)) whole.order_no whole.amount whole.coins whole.channel refl
            whole.notify whole.return_to whole.expire_at c x secret s sorts,
        str_eq_refl s,
      )

-- The address that the service signs for an order opens the gateway's page until the order expires: the
-- gateway finds the signature right and the fields in order. This holds for an order with a positive
-- price on a known channel none of whose values is empty, where the price and the deadline are read as
-- they are printed, sorting keeps what it sorts, and no signature is empty.
pub validate-signed_checkout :
    (c : Codec) (x : Texts) (a : Addresses) (secret : String) (seconds : ℤ) (o : PayOrder)
    → IsComplete x a o
    → Sorts x
    → ((b : String) → str_eq (c.hex_encode (c.hmac secret b)) "" ≡ false)
    → x.parse (x.print o.amount_fen) ≡ (o.amount_fen, true)
    → x.parse (x.print (unix o.expire_at)) ≡ (unix o.expire_at, true)
    → leb_ℤ o.amount_fen (pos 0) ≡ false
    → known_channel o.channel ≡ true
    → ltb_ℤ (unix o.expire_at) seconds ≡ false
    → validate c x secret seconds (signed_checkout c x a secret o) ≡ none
unfolding validate signed_checkout checkout_values get with_sign
validate-signed_checkout c x a secret seconds o whole sorts signs reads_amount reads_time priced
      known live =
    rw (
      verify-signed_checkout c x a secret o whole sorts signs,
      reads_amount,
      reads_time,
      priced,
      whole.order_no,
      whole.notify,
      live,
      known,
    )
