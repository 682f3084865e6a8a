-- ===== src/Tests/Endpoints.antt =====
-- Runs of internal/server/rest.go.
use wirefan.Prelude.{
  ℕ, ◌+◌, ◌≡◌, ◌≢◌, refl, Bool, true, false, [], ◌∷◌, ◌++◌, none, some, Str, codes, str_eq, nat_eq,
  str_beq, has_prefix, arith,
}
use wirefan.Prelude.Map.{get}
use wirefan.Auth.Base64
use wirefan.Auth.Base64.{IsBytes}
use wirefan.Auth.Decimal.{pos, format_int}
use wirefan.Auth.Payload.{mac_payload}
use wirefan.Auth.Token.{generate_secret, hex, cut, sign_token, hash_secret, verify_secret}
use wirefan.Conn.Names.{validate_channel_name, channel_requires_auth}
use wirefan.Conn.Names.Utf8.{runes}
use wirefan.Hub.Tracking.{Gate, new_hub, add_conn, admit}
use wirefan.Server.Rest
use wirefan.Server.Rest.{
  Reply, created, token, no_content, Parsers, trim_bearer, strip_prefix, good_credentials, sign,
  token_life, create, may_sign,
}
use wirefan.Server.Rest.Laws.{sign-token, revoke_shuts}
use wirefan.Server.Upgrade.{check_key}
use wirefan.Store.{Key}
use wirefan.Store.Memory.{Keys, create_key, lookup_key, revoke_key}
use wirefan.Tests.Samples.{toy_crypto}

abbrev id_a : Str
id_a = codes "k"

abbrev keys : Keys
keys =
    (
      id_a,
      record {
        id = id_a;
        name = codes "app";
        secret_hash = hash_secret toy_crypto (codes "s");
        created_at = 1;
        revoked_at = none;
      },
    )
    ∷ []

abbrev key_of : ℕ → Str
key_of c = id_a

abbrev no_one : Gate
no_one = record { hub = new_hub; sent = []; forced = [] }

abbrev one : Gate
one = (admit key_of 3 no_one).1

-- The endpoints.
abbrev socket : Str
socket = codes "01"

abbrev channel : Str
channel = codes "private-a"

abbrev toy_parsers : Parsers
toy_parsers = record {
  decode_sign = λ body. some (socket, channel);
  decode_create = λ body. some body;
  is_ulid = λ s. true;
}

abbrev random : Str
random = 1 ∷ 2 ∷ 3 ∷ 4 ∷ 5 ∷ 6 ∷ 7 ∷ 8 ∷ 9 ∷ 10 ∷ 11 ∷ 12 ∷ 13 ∷ 14 ∷ 15 ∷ 255 ∷ []

abbrev signing : Str
signing = codes "signing"

abbrev header : Str
header = codes "Bearer k:s"

abbrev tok : Str
tok =
    format_int (pos 300600)
    ++ b':'
      ∷ (hex random
          ++ b':'
            ∷ Base64.encode (
                toy_crypto.hmac_sha256 signing
                  (mac_payload (pos 300600) socket channel (hex random))))

given : sign toy_crypto toy_parsers 600 signing keys header [] (some random) ≡ token tok
unfolding sign good_credentials trim_bearer strip_prefix cut may_sign lookup_key get str_beq
    verify_secret validate_channel_name runes channel_requires_auth has_prefix sign_token
    hash_secret hex
given = refl

sign-token_example :
    (id secret socket_id chan : Str) × (k : Key) × (cut b':' (trim_bearer header)
      ≡ some (id, secret))
    × (lookup_key id keys ≡ some k)
    × (k.revoked_at ≡ none)
    × (verify_secret toy_crypto secret k.secret_hash ≡ true)
    × (toy_parsers.decode_sign [] ≡ some (socket_id, chan))
    × (toy_parsers.is_ulid socket_id ≡ true)
    × (validate_channel_name chan ≡ none)
    × (channel_requires_auth chan ≡ true)
    × (sign_token toy_crypto signing socket_id chan (pos (600 + token_life)) (some random)
        ≡ some tok)
sign-token_example =
    sign-token toy_crypto toy_parsers 600 signing keys header [] (some random) tok given

random-IsBytes : IsBytes random
random-IsBytes = ground arith

makes :
    (create toy_crypto toy_parsers false (codes "app") (some random) (codes "l") 7 []).0
    ≡ created (codes "l") (codes "app") (hex random)
unfolding create generate_secret create_key str_beq
makes = refl

revoke_ok : (Rest.revoke key_of false id_a 8 keys one).0 ≡ no_content
unfolding Rest.revoke revoke_key get str_beq
revoke_ok = refl

revoke_shuts_example :
    ((ah secret : Str)
      → cut b':' (trim_bearer ah) ≡ some (id_a, secret)
      → good_credentials toy_crypto toy_parsers ah (Rest.revoke key_of false id_a 8 keys one).1
        ≡ false)
    × ((is_draining : Bool)
        → check_key is_draining id_a (Rest.revoke key_of false id_a 8 keys one).1 ≢ none)
    × ((c : ℕ)
        → key_of c ≡ id_a
        → (add_conn key_of c (Rest.revoke key_of false id_a 8 keys one).2.hub).0 ≢ none)
revoke_shuts_example = revoke_shuts toy_crypto toy_parsers key_of false id_a 8 keys one revoke_ok
