-- ===== src/Server/Rest/Laws.antt =====
-- What the REST endpoints give out and take back (internal/server/rest.go), down to the store, the
-- tokens and the open connections.
use wirefan.Prelude.{
  ℕ, ◌+◌, ◌≤◌, ◌≡◌, ◌≢◌, Bool, true, false, inl, inr, Option, none, some, Str, str_eq, str_beq_iff,
  length, Option-cases, arith,
}
use mathlib.Core.Path.{subst₂}
use wirefan.Prelude.Map.{get, put, get-put}
use wirefan.Auth.Base64.{IsBytes}
use wirefan.Auth.Decimal.{pos, IsInt64}
use wirefan.Auth.Replay.{ReplayCache}
use wirefan.Auth.Token.{
  generate_secret, Crypto, hex, cut, sign_token, hash_secret, verify_secret, verify_token_against,
}
use wirefan.Auth.Token.Laws.{verify-sign}
use wirefan.Conn.Names.{validate_channel_name, channel_requires_auth}
use wirefan.Hub.Tracking.{Gate, add_conn, close_key}
use wirefan.Server.Rest.{
  no_content, created, token, trim_bearer, revoke, revoked_close, Parsers, create, good_credentials,
  may_sign, sign, token_life,
}
use wirefan.Server.Upgrade.{check_key}
use wirefan.Store.{Key}
use wirefan.Store.Memory.{
  Keys, create_key, lookup_key, revoke_key, lookup-revoke_key, lookup-create_key,
}

module _ (K : Crypto) (P : Parsers) where
  -- Whoever gets a token from `sign` showed the id and the secret of a key that is known and not
  -- revoked, and asked for a socket id that is a ULID and a channel that is valid and requires one;
  -- the token is the signed one, good for five minutes.
  pub sign-token :
      (now : ℕ) (signing_secret : Str) (m : Keys) (ah body : Str) (random : Option Str) (tok : Str)
      → sign K P now signing_secret m ah body random ≡ token tok
      → (id secret socket_id channel : Str) × (k : Key) × (cut b':' (trim_bearer ah)
          ≡ some (id, secret))
        × (lookup_key id m ≡ some k)
        × (k.revoked_at ≡ none)
        × (verify_secret K secret k.secret_hash ≡ true)
        × (P.decode_sign body ≡ some (socket_id, channel))
        × (P.is_ulid socket_id ≡ true)
        × (validate_channel_name channel ≡ none)
        × (channel_requires_auth channel ≡ true)
        × (sign_token K signing_secret socket_id channel (pos (now + token_life)) random ≡ some tok)
  unfolding sign good_credentials may_sign
  sign-token now signing_secret m ah body random tok h =
      elim (Option-cases (cut b':' (trim_bearer ah))) [
        | inl no_colon ↦ absurd (ground arith)
        | inr ((id, secret), split) ↦ elim (Option-cases (lookup_key id m)) [
          | inl absent ↦ absurd (ground arith)
          | inr (k, known) ↦ elim (Option-cases (P.decode_sign body)) [
            | inl junk ↦ absurd (ground arith)
            | inr ((socket_id, channel), read) ↦ (
              id,
              secret,
              socket_id,
              channel,
              k,
              split,
              known,
              ground arith,
              ground arith,
              read,
              ground arith,
              ground arith,
              ground arith,
              ground arith,
            )
          ]
        ]
      ]

  -- A token that `sign` gave out is accepted, once, by a subscribe on its socket to its channel at
  -- any time of the five minutes, if its jti is fresh.
  pub sign-verifies :
      (now later : ℕ) (signing_secret : Str) (m : Keys) (ah body random tok socket_id channel : Str)
      (cache : ReplayCache)
      → sign K P now signing_secret m ah body (some random) ≡ token tok
      → P.decode_sign body ≡ some (socket_id, channel)
      → later ≤ now + token_life
      → IsInt64 (pos (now + token_life))
      → IsBytes random
      → length random ≡ 16
      → get (hex random) cache ≡ none
      → verify_token_against K later signing_secret socket_id channel tok (some cache)
        ≡ (none, some (put (hex random) (pos (now + token_life)) cache))
  sign-verifies now later signing_secret m ah body random tok socket_id channel cache h asked soon
        range bytes size fresh =
      let (_, _, s, c, _, _, _, _, _, read, _, _, _, made) =
        sign-token now signing_secret m ah body (some random) tok h in
      let on_socket : s ≡ socket_id = ground arith in
      let on_channel : c ≡ channel = ground arith in
      verify-sign K later signing_secret socket_id channel (pos (now + token_life)) random tok cache
        range (ground arith) bytes size fresh
        (subst₂
          (λ x y. sign_token K signing_secret x y (pos (now + token_life)) (some random) ≡ some tok)
          on_socket on_channel made)

  -- The key that `create` answers with is found under its id, with the hash of the secret that was
  -- handed out, and `VerifySecret` accepts that secret for it.
  pub create-credentials :
      (is_down : Bool) (body id name secret : Str) (random : Option Str) (fresh : Str) (now : ℕ)
      (m : Keys)
      → (create K P is_down body random fresh now m).0 ≡ created id name secret
      → (id ≡ fresh)
        × (lookup_key id (create K P is_down body random fresh now m).1
            ≡ some (create_key fresh now name (hash_secret K secret) m).0)
        × (verify_secret K secret (hash_secret K secret) ≡ true)
  unfolding create verify_secret create_key
  create-credentials is_down body id name secret random fresh now m h =
      elim (Option-cases (P.decode_create body)) [
        | inl junk ↦ absurd (ground arith)
        | inr (asked, read) ↦ elim (Option-cases (generate_secret random)) [
          | inl no_bytes ↦ absurd (ground arith)
          | inr (made, drawn) ↦ (
            ground arith,
            ground (
              arith,
              lookup-create_key fresh now asked (hash_secret K made) m fresh,
              str_beq_iff fresh fresh,
            ),
            ground (arith, str_beq_iff (hash_secret K secret) (hash_secret K secret)),
          )
        ]
      ]

  -- Once `revoke` has answered that a key is revoked, no one gets a token with it, no upgrade with
  -- it passes, and no connection with it is admitted to the hub.
  pub revoke_shuts :
      (key_of : ℕ → Str) (is_down : Bool) (id : Str) (now : ℕ) (m : Keys) (g : Gate)
      → (revoke key_of is_down id now m g).0 ≡ no_content
      → ((ah secret : Str)
          → cut b':' (trim_bearer ah) ≡ some (id, secret)
          → good_credentials K P ah (revoke key_of is_down id now m g).1 ≡ false)
        × ((is_draining : Bool)
            → check_key is_draining id (revoke key_of is_down id now m g).1 ≢ none)
        × ((c : ℕ)
            → key_of c ≡ id
            → (add_conn key_of c (revoke key_of is_down id now m g).2.hub).0 ≢ none)
  unfolding revoke good_credentials check_key add_conn close_key
  revoke_shuts key_of is_down id now m g h =
      let (found, after) = lookup-revoke_key id now m id in
      elim (Option-cases (lookup_key id m)) [
        | inl absent ↦ absurd (ground (arith, found))
        | inr (k, known) ↦
            let gone : lookup_key id (revoke_key id now m).1
                ≡ some (record k { revoked_at = some now }) =
              ground (arith, after, str_beq_iff id id) in
            (
              λ ah secret split. ground (arith, gone),
              λ is_draining off. ground (arith, gone),
              λ c same off.
                  ground (arith, get-put id id revoked_close g.hub.closed_keys, str_beq_iff id id),
            )
      ]
