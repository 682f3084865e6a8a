-- ===== src/Tests/Samples.antt =====
-- Stand-ins for the packages that the code calls, and small states.
use wirefan.Prelude.{ℕ, ◌-◌, ◌%◌, [], ◌∷◌, none, some, Str, codes, ltb, str_eq, length, arith}
use wirefan.Auth.Base64.{IsBytes}
use wirefan.Auth.Token.{Crypto}
use wirefan.Conn.Policy.{disconnect}
use wirefan.Conn.State.{Incoming, Libs, new_conn}
use wirefan.Conn.Handler.{Server}
use wirefan.Fanout.{per_conn}
use wirefan.Ratelimit.{Rate, new_limiter}
use wirefan.Registry.{Registry}
use wirefan.Hub.Lifecycle.{initial}

pub lengths-IsBytes : (key message : Str) → IsBytes (length key % 256 ∷ length message % 256 ∷ [])
lengths-IsBytes key message = ground arith

-- A "hash" of the two lengths.
abbrev pub toy_crypto : Crypto
toy_crypto = record {
  hmac_sha256 = λ key message. length key % 256 ∷ length message % 256 ∷ [];
  sha256 = λ message. length message % 256 ∷ [];
  hmac_bytes = lengths-IsBytes;
}

-- A bucket that is never refilled.
abbrev pub toy_rate : Rate
toy_rate = record {
  Bucket = ℕ;
  new_bucket = λ rate burst. burst;
  allow = λ now n. (ltb 0 n, n - 1);
}

abbrev pub ask : Str → Incoming
ask typ = record { typ = typ; channel = codes "news"; token = []; payload = codes "1" }

-- A text is read as the type of a message to the channel `news`.
abbrev pub toy_libs : Libs
toy_libs = record {
  rate = toy_rate;
  crypto = toy_crypto;
  unmarshal = λ raw. some (ask raw);
  ulid = λ n. codes "id";
}

-- A server with one registry, on which every connection is fresh.
abbrev pub fresh_server : (R : Registry) → Server toy_libs R
fresh_server R = record {
  net = (initial R).net;
  conns = λ j. new_conn toy_libs (codes "socket") (codes "key") disconnect;
  fanout = per_conn;
  rate_limit = new_limiter toy_rate 50 100 60;
  signing_secret = codes "secret";
  replay_cache = none;
  minted = 0;
  auth_fails = 0;
  published = 0;
  dropped = 0;
}
