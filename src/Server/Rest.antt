-- ===== src/Server/Rest.antt =====
-- internal/server/rest.go: keys are created and revoked, and subscribe tokens signed.
pub mod Laws
use wirefan.Prelude.{
  ℕ, ◌+◌, Bool, true, false, not, ◌&&◌, ◌||◌, List, [], ◌∷◌, Option, none, some, Str, codes,
  if◌then◌else◌, ◌==◌, str_eq, leb, nat_beq,
}
use wirefan.Auth.Decimal.{pos}
use wirefan.Auth.Token.{Crypto, generate_secret, hex, cut, sign_token, hash_secret, verify_secret}
use wirefan.Conn.Names.{NameError, validate_channel_name, channel_requires_auth}
use wirefan.Hub.Tracking.{CloseError, Gate, close_key}
use wirefan.Store.{Key}
use wirefan.Store.Memory.{Keys, create_key, lookup_key, list_keys, revoke_key}

-- What a handler answers; the texts of errors are not kept.
pub data Reply : Type 0 where
  unauthorized bad_request not_found internal_error no_content : Reply
  created : (id name secret : Str) → Reply
  listed : List Key → Reply
  token : Str → Reply

-- `keyView`, a key without its hash.
unfoldable pub to_key_view : Key → Key
to_key_view k = record k { secret_hash = [] }

abbrev pub bearer : Str
bearer = codes "Bearer "

-- What stands behind a prefix, and `none` where the text has another one.
unfoldable pub strip_prefix : Str → Str → Option Str
strip_prefix [] s = some s
strip_prefix (c ∷ p) [] = none
strip_prefix (c ∷ p) (d ∷ s) = let rest = strip_prefix p s in if nat_beq c d then rest else none

-- `strings.TrimPrefix(ah, "Bearer ")`.
unfoldable pub trim_bearer : Str → Str
unfolding strip_prefix
trim_bearer ah = elim (strip_prefix bearer ah) [ none ↦ ah | some s ↦ s ]

-- The test of `requireAdmin` on the header `Authorization`.
unfoldable pub is_admin : Str → Str → Bool
unfolding strip_prefix
is_admin admin_token ah = elim (strip_prefix bearer ah) [
  | none ↦ false
  | some got ↦ got == admin_token
]

-- The close that `revoke` asks for; 1008 is `websocket.StatusPolicyViolation`.
abbrev pub revoked_close : CloseError
revoked_close = record { code = 1008; reason = codes "key revoked" }

-- Five minutes in milliseconds.
abbrev pub token_life : ℕ
token_life = 300000

abbrev list_views : List Key → List Key
list_views [] = []
list_views (k ∷ ks) = to_key_view k ∷ list_views ks

-- `list`, for an admin. Here and below, `is_down` says that the store reports an error other than
-- `ErrKeyNotFound`, and then it has changed nothing.
unfoldable pub list : Bool → Keys → Reply
list is_down m = if is_down then internal_error else listed (list_views (list_keys m))

module _ (key_of : ℕ → Str) where
  -- `revoke`, for an admin.
  unfoldable pub revoke : Bool → Str → ℕ → Keys → Gate → Reply × Keys × Gate
  revoke is_down id now m g =
      let r = revoke_key id now m in
      if is_down
      then (internal_error, m, g)
      else if not r.0
      then (not_found, m, g)
      else (no_content, r.1, (close_key key_of id revoked_close g).1)

-- The packages that `sign` and `create` call: the JSON decoders and `ulid.ParseStrict`.
pub record Parsers : Type 0 where
  pub decode_sign : Str → Option (Str × Str)
  pub decode_create : Str → Option Str
  pub is_ulid : Str → Bool

module _ (K : Crypto) (P : Parsers) where
  -- `create`, for an admin, over the id that `ulid.Make` gives.
  unfoldable pub create : Bool → Str → Option Str → Str → ℕ → Keys → Reply × Keys
  create is_down body random id now m = elim (P.decode_create body) [
    | none ↦ (bad_request, m)
    | some name ↦ if name == [] then (bad_request, m) else elim (generate_secret random) [
      | none ↦ (internal_error, m)
      | some secret ↦
          let r = create_key id now name (hash_secret K secret) m in
          if is_down then (internal_error, m) else (created r.0.id r.0.name secret, r.1)
    ]
  ]

  -- The credential check of `sign`.
  unfoldable pub good_credentials : Str → Keys → Bool
  good_credentials ah m = elim (cut b':' (trim_bearer ah)) [
    | none ↦ false
    | some (id, secret) ↦ elim (lookup_key id m) [
      | none ↦ false
      | some k ↦ elim k.revoked_at [ some t ↦ false | none ↦ verify_secret K secret k.secret_hash ]
    ]
  ]

  -- The check of what `sign` is asked to sign.
  unfoldable pub may_sign : Str → Str → Bool
  may_sign socket_id channel =
      if not (P.is_ulid socket_id) then false else elim (validate_channel_name channel) [
        | some e ↦ false
        | none ↦ channel_requires_auth channel
      ]

  -- `sign`, at the time `now` in milliseconds.
  unfoldable pub sign : ℕ → Str → Keys → Str → Str → Option Str → Reply
  sign now signing_secret m ah body random =
      if not (good_credentials ah m) then unauthorized else elim (P.decode_sign body) [
        | none ↦ bad_request
        | some (socket_id, channel) ↦
            if not (may_sign socket_id channel)
            then bad_request
            else elim (sign_token K signing_secret socket_id channel (pos (now + token_life))
                random) [ none ↦ internal_error | some tok ↦ token tok ]
      ]
