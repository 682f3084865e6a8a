-- ===== src/Tests/Tokens.antt =====
-- Runs of internal/auth.
use wirefan.Prelude.{
  List, All, ◌≡◌, ◌≢◌, refl, ap, true, false, [], ◌∷◌, ◌++◌, none, some, Str, codes, str_eq, arith,
}
use wirefan.Prelude.Map.{get, put}
use wirefan.Auth.Base64
use wirefan.Auth.Base64.{IsBytes}
use wirefan.Auth.Decimal.{ℤ, pos, negsuc, format_int, parse_int, parse_int-format_int}
use wirefan.Auth.Payload.{mac_payload, mac_payload-injective}
use wirefan.Auth.Token.{
  cut, hex, valid_jti, split_token, is_past, sign_token, record_use, verify_token_against,
}
use wirefan.Auth.Token.Reuse.{Use, tried, swept, Until, use_all, verify_once}
use wirefan.Auth.Token.Laws.{verify_token_against-inv, verify-sign}
use wirefan.Tests.Samples.{toy_crypto}

abbrev secret : Str
secret = codes "s"

abbrev socket : Str
socket = codes "01"

abbrev channel : Str
channel = codes "private-a"

abbrev random : Str
random = 1 ∷ 2 ∷ 3 ∷ 4 ∷ 5 ∷ 6 ∷ 7 ∷ 8 ∷ 9 ∷ 10 ∷ 11 ∷ 12 ∷ 13 ∷ 14 ∷ 15 ∷ 255 ∷ []

abbrev expiry : ℤ
expiry = pos 900

abbrev tok : Str
tok =
    format_int expiry
    ++ b':'
      ∷ (hex random
          ++ b':'
            ∷ Base64.encode
                (toy_crypto.hmac_sha256 secret (mac_payload expiry socket channel (hex random))))

signed : sign_token toy_crypto secret socket channel expiry (some random) ≡ some tok
unfolding sign_token
signed = refl

random-IsBytes : IsBytes random
random-IsBytes = ground arith

verify-sign_example :
    verify_token_against toy_crypto 800 secret socket channel tok (some [])
    ≡ (none, some (put (hex random) expiry []))
verify-sign_example =
    verify-sign toy_crypto 800 secret socket channel expiry random tok [] (omega arith) refl
      random-IsBytes refl (unfold get in refl) signed

once : (verify_token_against toy_crypto 800 secret socket channel tok (some [])).0 ≡ none
once =
    ap (λ r. r.0)
      (verify-sign toy_crypto 800 secret socket channel expiry random tok [] (omega arith) refl
        random-IsBytes refl (unfold get in refl) signed)

abbrev between : List Use
between = tried 801 secret socket channel [] ∷ swept 850 ∷ tried 855 secret channel socket tok ∷ []

expires :
    split_token tok
    ≡ some (
      format_int expiry,
      hex random,
      Base64.encode
          (toy_crypto.hmac_sha256 secret (mac_payload expiry socket channel (hex random))),
    )
unfolding split_token cut hex format_int
expires = refl

parsed : parse_int (format_int expiry) ≡ some expiry
parsed = parse_int-format_int expiry (omega arith)

in_time : pos 860 ≢ expiry
in_time e = ground arith

between-Until : All (Until 860) between
between-Until = unfold Until in (tt, (omega arith, (tt, tt)))

verify_once_example :
    (verify_token_against toy_crypto 860 secret socket channel tok (
      use_all toy_crypto between
        (verify_token_against toy_crypto 800 secret socket channel tok (some [])).1)).0
    ≢ none
verify_once_example =
    verify_once toy_crypto 800 860 secret secret socket socket channel channel tok
      (format_int expiry) (hex random)
      (Base64.encode
        (toy_crypto.hmac_sha256 secret (mac_payload expiry socket channel (hex random))))
      expiry [] between once expires parsed between-Until in_time

verify_token_against-inv_example :
    (exp jti sig : Str) × (e : ℤ) × (split_token tok ≡ some (exp, jti, sig))
    × (parse_int exp ≡ some e)
    × (is_past 800 e ≡ false)
    × (valid_jti jti ≡ true)
    × (Base64.decode sig ≡ some (toy_crypto.hmac_sha256 secret (mac_payload e socket channel jti)))
    × (verify_token_against toy_crypto 800 secret socket channel tok (some [])
        ≡ record_use toy_crypto jti e (some []))
verify_token_against-inv_example =
    verify_token_against-inv toy_crypto 800 secret socket channel tok (some []) once

mac_payload-injective_example :
    (expiry ≡ expiry) × (socket ≡ socket) × (channel ≡ channel) × (hex random ≡ hex random)
mac_payload-injective_example =
    mac_payload-injective expiry expiry socket socket channel channel (hex random) (hex random) refl

decode-encode_example : Base64.decode (Base64.encode random) ≡ some random
decode-encode_example = Base64.decode-encode random random-IsBytes

parse_int-format_int_example : parse_int (format_int (negsuc 41)) ≡ some (negsuc 41)
parse_int-format_int_example = parse_int-format_int (negsuc 41) (omega arith)
