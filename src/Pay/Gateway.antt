-- ===== src/Pay/Gateway.antt =====
-- Messages between the service and the payment channel: backend/internal/pay/gateway.go, and
-- `gatewayMutate` of books.go. Hashing, hexadecimal digits and JSON belong to Go's library.
use feedsystem_video_go_medi.Prelude.{
  ℕ, ℤ, pos, ◌+ℤ◌, ◌-ℤ◌, ◌*ℤ◌, ltb_ℤ, leb_ℤ, eqb_ℤ, leb, Bool, false, not, ◌&&◌, ◌||◌, Option, none,
  some, String, str_eq, str_append, if◌then◌else◌, ◌==◌,
}
use feedsystem_video_go_medi.Pay.Entity.{CallbackBody}
use feedsystem_video_go_medi.Store.{
  Env, message, gateway_status, refund_not_allowed, Action, ⊤, Result, ok, err, pure, raise, post,
  new_token, ◌>>=◌,
}

-- `hmac` is HMAC-SHA256 of a secret and a body.
pub record Codec : Type 0 where
  pub hmac : String → String → String
  pub hex_encode : String → String
  pub hex_decode : String → Option String
  pub json_encode : CallbackBody → String
  pub json_decode : String → Option CallbackBody

-- Five minutes, in nanoseconds.
abbrev pub callback_skew : ℤ
callback_skew = pos 300000000000

abbrev pub nanoseconds : ℤ → ℤ
nanoseconds seconds = seconds *ℤ pos 1000000000

unfoldable pub known_channel : String → Bool
known_channel c = str_eq c "mock" || str_eq c "alipay" || str_eq c "wechat" || str_eq c "card"

abbrev pub is_incomplete : CallbackBody → Bool
is_incomplete cb =
    str_eq cb.order_no ""
    || str_eq cb.channel_trade_no ""
    || leb_ℤ cb.amount_fen (pos 0)
    || str_eq cb.nonce ""
    || eqb_ℤ cb.timestamp (pos 0)

abbrev pub is_stale : CallbackBody → ℤ → Bool
is_stale cb now =
    ltb_ℤ (nanoseconds cb.timestamp) (now -ℤ callback_skew)
    || ltb_ℤ (now +ℤ callback_skew) (nanoseconds cb.timestamp)

module _ (c : Codec) where
  unfoldable pub sign_body : String → String → String
  sign_body secret body = c.hex_encode (c.hmac secret body)

  abbrev pub is_mac : String → String → Option String → Bool
  is_mac secret body none = false
  is_mac secret body (some got) = str_eq got (c.hmac secret body)

  unfoldable pub verify_body : String → String → String → Bool
  verify_body secret signature body =
      not (str_eq signature "") && is_mac secret body (c.hex_decode signature)

  abbrev pub checked_callback : ℤ → Option CallbackBody → Result CallbackBody
  checked_callback now none = err (message "invalid callback body")
  checked_callback now (some cb) =
      if is_incomplete cb
      then err (message "callback fields are required")
      else (if is_stale cb now then err (message "callback timestamp expired") else ok cb)

  unfoldable pub parse_callback : String → ℤ → Result CallbackBody
  parse_callback body now = checked_callback now (c.json_decode body)

  unfoldable pub build_callback : String → CallbackBody → String × String
  unfolding sign_body
  build_callback secret cb = let body = c.json_encode cb in (body, sign_body secret body)

-- What the service makes of the gateway's answer: none at all and 404 are no error.
abbrev pub gateway_verdict : Option (ℕ × String) → Action ⊤
gateway_verdict none = pure tt
gateway_verdict (some (code, text)) =
    if code == 404
    then pure tt
    else (if code == 409
        then raise refund_not_allowed
        else (if leb 300 code then raise (gateway_status text) else pure tt))

unfoldable pub gateway_mutate : Env → String → String → Action ⊤
gateway_mutate env number path = do reply ← post env path number; gateway_verdict reply

unfoldable pub new_order_no : Env → ℤ → Action String
new_order_no env t = do
  token ← new_token env 4
  pure (str_append "P" (str_append (env.stamp t) token))
