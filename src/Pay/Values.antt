-- ===== src/Pay/Values.antt =====
-- Query values and their signature: `signValues` and `verifyValues` of backend/internal/pay/gateway.go,
-- and `CheckoutURL` of service.go. Values are the keys with the first value of each.
use feedsystem_video_go_medi.Prelude.{
  ℤ, Bool, not, ◌||◌, Option, none, some, List, [], ◌∷◌, String, str_append, str_eq, if◌then◌else◌,
  filter, map,
}
use feedsystem_video_go_medi.Pay.Entity.{Status, PayOrder, status_eq}
use feedsystem_video_go_medi.Store.{Result, ok, err, order_not_found}
use feedsystem_video_go_medi.Pay.Gateway.{Codec, sign_body}
use feedsystem_video_go_medi.Prelude.{unix}

abbrev pub Values : Type 0
Values = List (String × String)

-- What Go's library does with texts: sorting, printing and reading of numbers (with whether the text
-- was a number), escaping and trimming, the characters of a text as bytes, and the encoding of values.
pub record Texts : Type 0 where
  pub sort : List String → List String
  pub print : ℤ → String
  pub parse : String → ℤ × Bool
  pub escape : String → String
  pub trim : String → String
  pub encode : Values → String
  pub is_url : String → Bool

unfoldable pub get : String → Values → String
get k [] = ""
get k ((k', v) ∷ rest) = if str_eq k' k then v else get k rest

-- The keys that are signed: all but "sign" and those without a value.
unfoldable pub signed_keys : Values → List String
signed_keys v = filter (λ k. not (str_eq k "sign" || str_eq (get k v) "")) (map (λ (k, x). k) v)

-- `k=v`, joined by `&`.
unfoldable pub joined : Values → List String → String
joined v [] = ""
joined v (k ∷ []) = str_append k (str_append "=" (get k v))
joined v (k ∷ k' ∷ ks) =
    str_append k (str_append "=" (str_append (get k v) (str_append "&" (joined v (k' ∷ ks)))))

unfoldable pub sign_values : Codec → Texts → String → Values → String
sign_values c x secret v = sign_body c secret (joined v (x.sort (signed_keys v)))

unfoldable pub verify_values : Codec → Texts → String → Values → Bool
verify_values c x secret v = str_eq (sign_values c x secret v) (get "sign" v)

-- The addresses that are read from the environment.
pub record Addresses : Type 0 where
  pub gateway_public_url : String
  pub notify_base : String
  pub return_base : String

-- What the service signs for the cashier.
unfoldable pub checkout_values : Texts → Addresses → PayOrder → Values
checkout_values x a o =
    ("order_no", o.order_no)
    ∷ ("amount_fen", x.print o.amount_fen)
    ∷ ("coins", x.print o.coins)
    ∷ ("channel", o.channel)
    ∷ ("subject", "ShortVideo金币充值")
    ∷ ("notify_url", str_append a.notify_base (str_append "/pay/callback/" o.channel))
    ∷ (
      "return_url",
      str_append a.return_base (str_append "/pay/result?order_no=" (x.escape o.order_no)),
    )
    ∷ ("expire_at", x.print (unix o.expire_at))
    ∷ []

-- `q.Set("sign", …)`, for values without that key.
unfoldable pub with_sign : String → Values → Values
with_sign s [] = ("sign", s) ∷ []
with_sign s (kv ∷ rest) = kv ∷ with_sign s rest

unfoldable pub signed_checkout : Codec → Texts → Addresses → String → PayOrder → Values
signed_checkout c x a secret o =
    let v = checkout_values x a o in with_sign (sign_values c x secret v) v

-- No order is an error, and an order that is paid, closed or failed has no address.
unfoldable pub checkout_url : Codec → Texts → Addresses → String → Option PayOrder → Result String
checkout_url c x a secret none = err order_not_found
checkout_url c x a secret (some o) =
    if str_eq o.order_no ""
    then err order_not_found
    else (if status_eq o.status Status.paid
          || status_eq o.status Status.closed
          || status_eq o.status Status.failed
        then ok ""
        else ok (
            str_append a.gateway_public_url
              (str_append "/cashier?" (x.encode (signed_checkout c x a secret o)))))
