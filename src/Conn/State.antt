-- ===== src/Conn/State.antt =====
-- internal/conn/conn.go: the state of a connection, the frames it sends, and all that its handlers
-- share with other connections.
use wirefan.Prelude.{ℕ, Bool, false, [], Option, Str, codes, if◌then◌else◌, ◌==◌, str_eq, nat_beq}
use wirefan.Prelude.Map.{Map}
use wirefan.Auth.Replay.{ReplayCache}
use wirefan.Auth.Token.{Crypto}
use wirefan.Conn.Policy.{Policy, Buffer}
use wirefan.Fanout.{Fanout}
use wirefan.Ratelimit.{Rate, Limiter}
use wirefan.Registry.{Net}

-- `incoming`.
pub record Incoming : Type 0 where
  pub typ : Str
  pub channel : Str
  pub token : Str
  pub payload : Str

-- What the `switch` over `msg.Type` tells apart.
pub data Op : Type 0 where
  subscribe_op unsubscribe_op publish_op other_op : Op

unfoldable pub op_of : Str → Op
op_of typ =
    if typ == codes "subscribe"
    then subscribe_op
    else if typ == codes "unsubscribe"
    then unsubscribe_op
    else if typ == codes "publish"
    then publish_op
    else other_op

-- The codes of error frames.
pub data ErrorCode : Type 0 where
  bad_json bad_channel bad_type reserved_channel auth_replayed auth_failed limit_channels :
      ErrorCode
  limit_subscribers subscribe_failed not_subscribed rate_limited_conn rate_limited : ErrorCode

unfoldable pub code_text : ErrorCode → Str
code_text bad_json = codes "BAD_JSON"
code_text bad_channel = codes "BAD_CHANNEL"
code_text bad_type = codes "BAD_TYPE"
code_text reserved_channel = codes "RESERVED_CHANNEL"
code_text auth_replayed = codes "AUTH_REPLAYED"
code_text auth_failed = codes "AUTH_FAILED"
code_text limit_channels = codes "LIMIT_CHANNELS"
code_text limit_subscribers = codes "LIMIT_SUBSCRIBERS"
code_text subscribe_failed = codes "SUBSCRIBE_FAILED"
code_text not_subscribed = codes "NOT_SUBSCRIBED"
code_text rate_limited_conn = codes "RATE_LIMITED_CONN"
code_text rate_limited = codes "RATE_LIMITED"

pub data AckType : Type 0 where
  subscribed unsubscribed : AckType

-- A frame before `marshalFrame`; an empty string is a field that `omitempty` leaves out. The
-- `message` of an error frame, a text for people, is not kept.
pub data Frame : Type 0 where
  hello : Str → Frame
  ack : AckType → Str → Frame
  error : (code : ErrorCode) (op channel : Str) → Frame
  event : (channel payload id : Str) → Frame

-- `Conn`, where `B` is the bucket of `golang.org/x/time/rate`; a nil `subs` is an empty one.
pub record Conn (B : Type 0) : Type 0 where
  pub socket_id : Str
  pub api_key_id : Str
  pub send : Buffer Frame
  pub conn_rate : B
  pub control_rate : B
  pub policy : Policy
  pub close_req : Bool
  pub subs : Map Str ℕ
  pub closed : Bool
  pub max_channels : ℕ

-- Every connection, by its number, and what they share.
pub record World (B S : Type 0) : Type 0 where
  pub net : Net S
  pub conns : ℕ → Conn B
  pub fanout : Fanout Frame
  pub rate_limit : Limiter B
  pub signing_secret : Str
  pub replay_cache : Option ReplayCache
  -- How many ULIDs were made.
  pub minted : ℕ
  -- The counters of internal/metrics.
  pub auth_fails : ℕ
  pub published : ℕ
  pub dropped : ℕ

abbrev pub set_conn : {B S : Type 0} → ℕ → Conn B → World B S → World B S
set_conn who c w = record w { conns = λ j. if nat_beq who j then c else w.conns j }

-- The packages that the handlers call: the token buckets, the hashes, `json.Unmarshal` into an
-- `incoming`, and `ulid.Make`.
pub record Libs : Type 1 where
  pub rate : Rate
  pub crypto : Crypto
  pub unmarshal : Str → Option Incoming
  pub ulid : ℕ → Str

abbrev pub send_chan_size : ℕ
send_chan_size = 64

abbrev pub default_max_channels_per_conn : ℕ
default_max_channels_per_conn = 64

abbrev pub default_max_subs_per_channel : ℕ
default_max_subs_per_channel = 10000

module _ (L : Libs) where
  open L use {rate}

  -- The `Conn` that `Run` builds, before the hello frame.
  unfoldable pub new_conn : Str → Str → Policy → Conn rate.Bucket
  new_conn socket_id api_key_id policy = record {
    socket_id = socket_id;
    api_key_id = api_key_id;
    send = record { queue = []; capacity = send_chan_size };
    conn_rate = rate.new_bucket 50 100;
    control_rate = rate.new_bucket 20 default_max_channels_per_conn;
    policy = policy;
    close_req = false;
    subs = [];
    closed = false;
    max_channels = default_max_channels_per_conn;
  }
