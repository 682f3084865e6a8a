-- ===== src/Auth/Token.antt =====
-- internal/auth/token.go and keys.go: signing and verifying a subscribe token.
pub mod Laws
pub mod Reuse
use wirefan.Prelude.{
  ℕ, suc, ◌≤◌, ◌<◌, ◌≡◌, refl, Bool, true, false, not, ◌&&◌, ◌||◌, List, [], ◌∷◌, ◌++◌, ◌/◌, ◌%◌,
  ◌+◌, ◌-◌, Option, none, some, Str, codes, if◌then◌else◌, ltb, leb, nat_beq, ◌==◌, nat_eq, str_eq,
  length, All, arith,
}
use wirefan.Auth.Base64
use wirefan.Auth.Base64.{IsBytes}
use wirefan.Auth.Decimal.{ℤ, pos, negsuc, format_int, parse_int}
use wirefan.Auth.Payload.{mac_payload}
use wirefan.Auth.Replay.{ReplayCache, check_and_record}

-- `crypto/hmac` over `crypto/sha256`, and `crypto/sha256`: of their output the code relies on its
-- being bytes.
pub record Crypto : Type 0 where
  pub hmac_sha256 : Str → Str → Str
  pub sha256 : Str → Str
  pub hmac_bytes : (key message : Str) → IsBytes (hmac_sha256 key message)

pub data TokenError : Type 0 where
  malformed expired invalid replayed : TokenError

abbrev pub jti_hex_len : ℕ
jti_hex_len = 32

hex_digit : ℕ → ℕ
hex_digit i = if ltb i 10 then b'0' + i else b'a' + (i - 10)

-- `hex.EncodeToString`.
unfoldable pub hex : Str → Str
unfolding hex_digit
hex [] = []
hex (b ∷ s) = hex_digit (b / 16) ∷ hex_digit (b % 16) ∷ hex s

-- `GenerateSecret` of internal/auth/keys.go, over the bytes that it reads.
unfoldable pub generate_secret : Option Str → Option Str
generate_secret random = elim random [ none ↦ none | some b ↦ some (hex b) ]

abbrev pub is_hex : ℕ → Bool
is_hex c = not ((ltb c b'0' || ltb b'9' c) && (ltb c b'a' || ltb b'f' c))

-- The loop of `validJTI`.
all_hex : Str → Bool
all_hex [] = true
all_hex (c ∷ s) = is_hex c && all_hex s

unfoldable pub valid_jti : Str → Bool
unfolding all_hex
valid_jti s = if length s == jti_hex_len then all_hex s else false

-- The text before the first `sep` and the text behind it.
unfoldable pub cut : ℕ → Str → Option (Str × Str)
cut sep [] = none
cut sep (c ∷ s) =
    let rest = cut sep s in
    if nat_beq c sep
    then some ([], s)
    else elim rest [ none ↦ none | some (p, q) ↦ some (c ∷ p, q) ]

-- `strings.SplitN(tok, ":", 3)`, where it has three parts.
unfoldable pub split_token : Str → Option (Str × Str × Str)
unfolding cut
split_token tok = elim (cut b':' tok) [
  | none ↦ none
  | some (exp, rest) ↦ elim (cut b':' rest) [ none ↦ none | some (jti, sig) ↦ some (exp, jti, sig) ]
]

-- `time.Now().UnixMilli() > expMs`.
abbrev pub is_past : ℕ → ℤ → Bool
is_past now (pos e) = ltb e now
is_past now (negsuc e) = true

module _ (K : Crypto) where
  -- `SignToken`, over the sixteen random bytes that it reads; `none` when the read fails.
  unfoldable pub sign_token : Str → Str → Str → ℤ → Option Str → Option Str
  sign_token secret socket_id channel exp_ms none = none
  sign_token secret socket_id channel exp_ms (some random) =
      let jti = hex random in
      let mac = K.hmac_sha256 secret (mac_payload exp_ms socket_id channel jti) in
      some (format_int exp_ms ++ b':' ∷ (jti ++ b':' ∷ Base64.encode mac))

  -- The end of `VerifyTokenAgainst`, once the MAC is right.
  unfoldable pub record_use : Str → ℤ → Option ReplayCache → Option TokenError × Option ReplayCache
  record_use jti exp_ms none = (none, none)
  record_use jti exp_ms (some cache) =
      let r = check_and_record jti exp_ms cache in (if r.0 then none else some replayed, some r.1)

  -- `VerifyTokenAgainst` from the signature on.
  unfoldable pub verify_mac :
      Str → Str → Str → ℤ → Str → Str → Option ReplayCache → Option TokenError × Option ReplayCache
  verify_mac secret socket_id channel exp_ms jti sig cache = elim (Base64.decode sig) [
    | none ↦ (some malformed, cache)
    | some mac ↦
        if mac == K.hmac_sha256 secret (mac_payload exp_ms socket_id channel jti)
        then record_use jti exp_ms cache
        else (some invalid, cache)
  ]

  -- `VerifyTokenAgainst` on the three parts.
  unfoldable pub verify_parts :
      ℕ
      → Str
      → Str
      → Str
      → Str × Str × Str
      → Option ReplayCache
      → Option TokenError × Option ReplayCache
  verify_parts now secret socket_id channel (exp, jti, sig) cache = elim (parse_int exp) [
    | none ↦ (some malformed, cache)
    | some exp_ms ↦
        if is_past now exp_ms
        then (some expired, cache)
        else if not (valid_jti jti)
        then (some malformed, cache)
        else verify_mac secret socket_id channel exp_ms jti sig cache
  ]

  -- `VerifyTokenAgainst`; `none` is the error nil, and a `cache` of `none` a nil cache.
  unfoldable pub verify_token_against :
      ℕ → Str → Str → Str → Str → Option ReplayCache → Option TokenError × Option ReplayCache
  verify_token_against now secret socket_id channel tok cache = elim (split_token tok) [
    | none ↦ (some malformed, cache)
    | some parts ↦ verify_parts now secret socket_id channel parts cache
  ]

  -- `VerifyToken`.
  unfoldable pub verify_token : ℕ → Str → Str → Str → Str → Option TokenError
  verify_token now secret socket_id channel tok =
      (verify_token_against now secret socket_id channel tok none).0

  -- `HashSecret` and `VerifySecret`.
  unfoldable pub hash_secret : Str → Str
  hash_secret secret = hex (K.sha256 secret)

  unfoldable pub verify_secret : Str → Str → Bool
  verify_secret secret hash = hash_secret secret == hash
