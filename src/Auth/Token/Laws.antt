-- ===== src/Auth/Token/Laws.antt =====
-- What a token proves, and how often it is good (internal/auth/token.go).
use wirefan.Prelude.{
  ℕ, ◌*◌, ◌≤◌, ◌≡◌, ◌≢◌, refl, true, false, inl, inr, [], ◌∷◌, ◌++◌, Option, none, some, Str,
  str_beq_iff, str_eq, length, Option-cases, All, arith,
}
use wirefan.Prelude.Map.{get, put}
use wirefan.Auth.Base64
use wirefan.Auth.Base64.{IsBytes}
use wirefan.Auth.Decimal.{ℤ, IsInt64, format_int, parse_int, parse_int-format_int}
use wirefan.Auth.Payload.{mac_payload, mac_payload-injective, format_int-Lacks_colon}
use wirefan.Auth.Replay.{ReplayCache, check_and_record}
use wirefan.Auth.Token.{
  Crypto, hex, hex_digit, all_hex, valid_jti, cut, split_token, is_past, sign_token, record_use,
  verify_mac, verify_parts, verify_token_against,
}

module _ (K : Crypto) (now : ℕ) (secret socket_id channel : Str) where
  abbrev payload : ℤ → Str → Str
  payload e jti = mac_payload e socket_id channel jti

  verify_mac-inv :
      (e : ℤ) (jti sig : Str) (cache : Option ReplayCache)
      → (verify_mac K secret socket_id channel e jti sig cache).0 ≡ none
      → (Base64.decode sig ≡ some (K.hmac_sha256 secret (payload e jti)))
        × (verify_mac K secret socket_id channel e jti sig cache ≡ record_use K jti e cache)
  unfolding verify_mac
  verify_mac-inv e jti sig cache h = elim (Option-cases (Base64.decode sig)) [
    | inl bad ↦ absurd (ground arith)
    | inr (mac, d) ↦
        let wanted = K.hmac_sha256 secret (payload e jti) in
        (ground (arith, str_beq_iff mac wanted), ground arith)
  ]

  verify_parts-inv :
      (exp jti sig : Str) (cache : Option ReplayCache)
      → (verify_parts K now secret socket_id channel (exp, jti, sig) cache).0 ≡ none
      → (e : ℤ) × (parse_int exp ≡ some e)
        × (is_past now e ≡ false)
        × (valid_jti jti ≡ true)
        × (verify_parts K now secret socket_id channel (exp, jti, sig) cache
            ≡ verify_mac K secret socket_id channel e jti sig cache)
  unfolding verify_parts
  verify_parts-inv exp jti sig cache h = elim (Option-cases (parse_int exp)) [
    | inl bad ↦ absurd (ground arith)
    | inr (e, p) ↦ (e, p, ground arith, ground arith, ground arith)
  ]

  -- A token is accepted only if it carries an expiry that is not past, a canonical jti and the MAC
  -- of exactly this expiry, socket, channel and jti; and then the jti has been recorded.
  pub verify_token_against-inv :
      (tok : Str) (cache : Option ReplayCache)
      → (verify_token_against K now secret socket_id channel tok cache).0 ≡ none
      → (exp jti sig : Str) × (e : ℤ) × (split_token tok ≡ some (exp, jti, sig))
        × (parse_int exp ≡ some e)
        × (is_past now e ≡ false)
        × (valid_jti jti ≡ true)
        × (Base64.decode sig ≡ some (K.hmac_sha256 secret (payload e jti)))
        × (verify_token_against K now secret socket_id channel tok cache ≡ record_use K jti e cache)
  unfolding verify_token_against
  verify_token_against-inv tok cache h = elim (Option-cases (split_token tok)) [
    | inl bad ↦ absurd (ground arith)
    | inr ((exp, jti, sig), p) ↦
        let (e, parsed, live, canonical, same) =
          verify_parts-inv exp jti sig cache (ground arith) in
        let (mac, last) = verify_mac-inv e jti sig cache (ground arith) in
        (exp, jti, sig, e, p, parsed, live, canonical, mac, ground arith)
  ]

-- If one token is accepted for two pairs of a socket and a channel, then there are two messages with
-- one MAC that are equal only if the pairs are.
pub verify_binds :
    (K : Crypto) (now now' : ℕ) (secret s s' c c' tok : Str) (cache cache' : Option ReplayCache)
    → (verify_token_against K now secret s c tok cache).0 ≡ none
    → (verify_token_against K now' secret s' c' tok cache').0 ≡ none
    → (m m' : Str) × (K.hmac_sha256 secret m ≡ K.hmac_sha256 secret m')
      × (m ≡ m' → (s ≡ s') × (c ≡ c'))
verify_binds K now now' secret s s' c c' tok cache cache' h h' =
    let (exp, jti, sig, e, p, q, _, _, mac, _) =
      verify_token_against-inv K now secret s c tok cache h in
    let (exp', jti', sig', e', p', q', _, _, mac', _) =
      verify_token_against-inv K now' secret s' c' tok cache' h' in
    (
      mac_payload e s c jti,
      mac_payload e' s' c' jti',
      cc,
      λ same.
          let (_, on_socket, on_channel, _) = mac_payload-injective e e' s s' c c' jti jti' same in
          (on_socket, on_channel),
    )

cut-append : (sep : ℕ) (s t : Str) → All (λ c. c ≢ sep) s → cut sep (s ++ sep ∷ t) ≡ some (s, t)
unfolding cut
cut-append sep [] t h = ground arith
cut-append sep (c ∷ s) t h = ground (arith, cut-append sep s t h.1)

-- No digit is white space.
pub hex-visible : (s : Str) → All (λ c. 0x21 ≤ c) (hex s)
unfolding hex hex_digit
hex-visible [] = tt
hex-visible (b ∷ s) = (ground arith, (ground arith, hex-visible s))

hex-Lacks_colon : (s : Str) → IsBytes s → All (λ c. c ≢ b':') (hex s)
unfolding hex
hex-Lacks_colon [] h = tt
hex-Lacks_colon (b ∷ s) h = (ground arith, (ground arith, hex-Lacks_colon s h.1))

all_hex-hex : (s : Str) → IsBytes s → all_hex (hex s) ≡ true
unfolding all_hex hex
all_hex-hex [] h = refl
all_hex-hex (b ∷ s) h = ground (arith, all_hex-hex s h.1)

length-hex : (s : Str) → length (hex s) ≡ 2 * length s
unfolding hex
length-hex [] = refl
length-hex (b ∷ s) = omega (arith, length-hex s)

split_token-sign :
    (e : ℤ) (random sig : Str)
    → IsBytes random
    → split_token (format_int e ++ b':' ∷ (hex random ++ b':' ∷ sig))
      ≡ some (format_int e, hex random, sig)
unfolding split_token
split_token-sign e random sig h = ground (
  arith,
  cut-append b':' (format_int e) (hex random ++ b':' ∷ sig) (format_int-Lacks_colon e),
  cut-append b':' (hex random) sig (hex-Lacks_colon random h),
)

-- A signed token is accepted for its socket and channel until it expires, if its jti is fresh, and
-- its use is recorded.
pub verify-sign :
    (K : Crypto) (now : ℕ) (secret socket_id channel : Str) (e : ℤ) (random tok : Str)
    (cache : ReplayCache)
    → IsInt64 e
    → is_past now e ≡ false
    → IsBytes random
    → length random ≡ 16
    → get (hex random) cache ≡ none
    → sign_token K secret socket_id channel e (some random) ≡ some tok
    → verify_token_against K now secret socket_id channel tok (some cache)
      ≡ (none, some (put (hex random) e cache))
unfolding sign_token verify_token_against verify_parts verify_mac record_use check_and_record
    valid_jti
verify-sign K now secret socket_id channel e random tok cache range live bytes size fresh signed =
    let mac = K.hmac_sha256 secret (mac_payload e socket_id channel (hex random)) in
    ground (
      arith,
      split_token-sign e random (Base64.encode mac) bytes,
      parse_int-format_int e range,
      Base64.decode-encode mac (K.hmac_bytes secret (mac_payload e socket_id channel (hex random))),
      str_beq_iff mac mac,
      all_hex-hex random bytes,
      length-hex random,
    )
