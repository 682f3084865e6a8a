-- ===== src/Conn/Handler.antt =====
-- internal/conn/handler.go: what a connection does with one incoming message.
pub mod Subscribing
pub mod Membership
pub mod Effect
pub mod Cases
pub mod Checking
pub mod Handled
pub mod Admission
pub mod Agreement
pub mod Publishing
pub mod Refusing
pub mod Neighbours
use wirefan.Prelude.{
  ℕ, zero, suc, ◌≡◌, Bool, true, false, not, ◌&&◌, List, [], ◌∷◌, Option, none, some, Str,
  if◌then◌else◌, leb, length, str_eq, nat_beq, arith,
}
use wirefan.Prelude.Map.{Map, get, put, del, values}
use wirefan.Auth.Token.{TokenError, replayed, malformed, expired, invalid, verify_token_against}
use wirefan.Conn.Names.{
  validate_channel_name, channel_reserved, reserved_subscribe_allowed, channel_requires_auth,
}
use wirefan.Conn.Names.Utf8.{valid}
use wirefan.Conn.Send.{offer, send_ack, send_error, send_op_error, fan_out}
use wirefan.Conn.State.{
  Incoming, Op, subscribe_op, unsubscribe_op, publish_op, other_op, op_of, ErrorCode, bad_json,
  bad_channel, bad_type, reserved_channel, auth_replayed, auth_failed, limit_channels,
  limit_subscribers, subscribe_failed, not_subscribed, rate_limited_conn, rate_limited, subscribed,
  unsubscribed, Frame, event, Conn, World, set_conn, Libs, default_max_subs_per_channel,
}
use wirefan.Hub.Channel.{SubscribeError, too_many_subs, channel_deleted, subscribe, unsubscribe}
use wirefan.Ratelimit
use wirefan.Registry.{Channel, Chans, Net, Registry}

abbrev pub max_subscribe_retries : ℕ
max_subscribe_retries = 3

module _ (R : Registry) where
  -- One round of the loop in `handleSubscribe`; `env` is what other goroutines do between its two
  -- calls.
  unfoldable pub attempt :
      (Net R.State → Net R.State) → Str → ℕ → Net R.State → Option SubscribeError × ℕ × Net R.State
  attempt env name who n =
      let r = R.get_or_create name n in
      let m = env r.1 in
      let s = subscribe r.0 who default_max_subs_per_channel m.chans in
      (s.0, r.0, record m { chans = s.1 })

  -- The loop, with `left` rounds to go and what the last one left behind. `env` is numbered by the
  -- rounds to go behind it.
  unfoldable pub subscribe_loop :
      (ℕ → Net R.State → Net R.State)
      → Str
      → ℕ
      → ℕ
      → Option SubscribeError × ℕ × Net R.State
      → Option SubscribeError × ℕ × Net R.State
  subscribe_loop env name who zero last = last
  subscribe_loop env name who (suc left) last =
      let r = attempt (env left) name who last.2 in
      elim r.0 [
        | none ↦ r
        | some too_many_subs ↦ r
        | some channel_deleted ↦ subscribe_loop env name who left r
      ]

module _ (L : Libs) (R : Registry) where
  open L use {rate, crypto}

  abbrev pub Server : Type 0
  Server = World rate.Bucket R.State

  -- The shared bucket of the connection's API key, at time `now`.
  unfoldable pub charge_key : ℕ → ℕ → Server → Bool × Server
  charge_key now who w =
      let r = Ratelimit.allow rate now (w.conns who).api_key_id w.rate_limit in
      (r.0, record w { rate_limit = r.1 })

  unfoldable pub charge_control : ℕ → ℕ → Server → Bool × Server
  charge_control now who w =
      let c = w.conns who in
      let r = rate.allow now c.control_rate in
      (r.0, set_conn who (record c { control_rate = r.1 }) w)

  unfoldable pub charge_publish : ℕ → ℕ → Server → Bool × Server
  charge_publish now who w =
      let c = w.conns who in
      let r = rate.allow now c.conn_rate in (r.0, set_conn who (record c { conn_rate = r.1 }) w)

  -- `allowControl`.
  unfoldable pub allow_control : ℕ → ℕ → Incoming → Server → Bool × Server
  allow_control now who msg w =
      let r = charge_control now who w in
      let s = charge_key now who r.1 in
      if not r.0
      then (false, send_op_error who msg rate_limited_conn r.1)
      else if not s.0
      then (false, send_op_error who msg rate_limited s.1)
      else (true, s.1)

  -- `handleSubscribe` from the check of the channel cap on.
  unfoldable pub join : (ℕ → Net R.State → Net R.State) → ℕ → Incoming → Server → Server
  join env who msg w =
      let c = w.conns who in
      let r = subscribe_loop R env msg.channel who max_subscribe_retries (none, 0, w.net) in
      if leb c.max_channels (length c.subs)
      then send_op_error who msg limit_channels w
      else elim r.0 [
        | some too_many_subs ↦ send_op_error who msg limit_subscribers (record w { net = r.2 })
        | some channel_deleted ↦ send_op_error who msg subscribe_failed (record w { net = r.2 })
        | none ↦
            send_ack who subscribed msg.channel (
              set_conn who (record c { subs = put msg.channel r.1 c.subs })
                (record w { net = r.2 }))
      ]

  -- The token check of `handleSubscribe`; true if the subscribe may go on.
  unfoldable pub check_token : ℕ → ℕ → Incoming → Server → Bool × Server
  check_token now who msg w =
      let c = w.conns who in
      let r =
        verify_token_against crypto now w.signing_secret c.socket_id msg.channel msg.token
          w.replay_cache in
      let v = record w { replay_cache = r.1 } in
      let failed = record v { auth_fails = suc w.auth_fails } in
      if not (channel_requires_auth msg.channel) then (true, w) else elim r.0 [
        | none ↦ (true, v)
        | some replayed ↦ (false, send_op_error who msg auth_replayed failed)
        | some malformed ↦ (false, send_op_error who msg auth_failed failed)
        | some expired ↦ (false, send_op_error who msg auth_failed failed)
        | some invalid ↦ (false, send_op_error who msg auth_failed failed)
      ]

  -- `handleSubscribe` once the rate limits have let it pass.
  unfoldable pub subscribe_allowed :
      ℕ → (ℕ → Net R.State → Net R.State) → ℕ → Incoming → Server → Server
  subscribe_allowed now env who msg w = elim (get msg.channel (w.conns who).subs) [
    | some c ↦ send_ack who subscribed msg.channel w
    | none ↦ let r = check_token now who msg w in if r.0 then join env who msg r.1 else r.1
  ]

  -- `handleSubscribe` at time `now`, by connection `who`.
  unfoldable pub handle_subscribe :
      ℕ → (ℕ → Net R.State → Net R.State) → ℕ → Incoming → Server → Server
  handle_subscribe now env who msg w =
      let r = allow_control now who msg w in
      if channel_reserved msg.channel && not (reserved_subscribe_allowed msg.channel)
      then send_op_error who msg reserved_channel w
      else if r.0
      then subscribe_allowed now env who msg r.1
      else r.1

  -- `handlePublish` once both buckets have let it pass.
  unfoldable pub publish_allowed : ℕ → Incoming → Server → Server
  publish_allowed ch msg w =
      fan_out ch (event msg.channel msg.payload (L.ulid w.minted))
        (record w { minted = suc w.minted; published = suc w.published })

  -- `handlePublish`.
  unfoldable pub handle_publish : ℕ → ℕ → Incoming → Server → Server
  handle_publish now who msg w =
      if channel_reserved msg.channel
      then send_op_error who msg reserved_channel w
      else elim (get msg.channel (w.conns who).subs) [
        | none ↦ send_op_error who msg not_subscribed w
        | some ch ↦
            let r = charge_publish now who w in
            let s = charge_key now who r.1 in
            if not r.0
            then send_op_error who msg rate_limited_conn r.1
            else if not s.0
            then send_op_error who msg rate_limited s.1
            else publish_allowed ch msg s.1
      ]

  -- `handleUnsubscribe` once the rate limits have let it pass.
  unfoldable pub leave : ℕ → Incoming → Server → Server
  leave who msg w =
      let c = w.conns who in
      elim (get msg.channel c.subs) [
        | none ↦ send_ack who unsubscribed msg.channel w
        | some ch ↦
            let v = set_conn who (record c { subs = del msg.channel c.subs }) w in
            send_ack who unsubscribed msg.channel (record v {
              net = record { chans = unsubscribe ch who w.net.chans; reg = w.net.reg };
            })
      ]

  -- `handleUnsubscribe`.
  unfoldable pub handle_unsubscribe : ℕ → ℕ → Incoming → Server → Server
  handle_unsubscribe now who msg w =
      let r = allow_control now who msg w in if r.0 then leave who msg r.1 else r.1

  -- The two `switch` statements of `handle`.
  unfoldable pub dispatch :
      ℕ → (ℕ → Net R.State → Net R.State) → ℕ → Incoming → Op → Server → Server
  dispatch now env who msg other_op w = send_error who bad_type w
  dispatch now env who msg op w = elim (validate_channel_name msg.channel) [
    | some e ↦ send_op_error who msg bad_channel w
    | none ↦ elim op [
      | subscribe_op ↦ handle_subscribe now env who msg w
      | unsubscribe_op ↦ handle_unsubscribe now who msg w
      | publish_op ↦ handle_publish now who msg w
      | other_op ↦ send_error who bad_type w
    ]
  ]

  -- `handle`.
  unfoldable pub handle : ℕ → (ℕ → Net R.State → Net R.State) → ℕ → Str → Server → Server
  handle now env who raw w =
      if not (valid raw) then send_error who bad_json w else elim (L.unmarshal raw) [
        | none ↦ send_error who bad_json w
        | some msg ↦ dispatch now env who msg (op_of msg.typ) w
      ]

  -- The loop at the end of `Run`, over the channels that the connection was on.
  unsubscribe_all : ℕ → List ℕ → Chans → Chans
  unsubscribe_all who [] h = h
  unsubscribe_all who (ch ∷ chs) h = unsubscribe_all who chs (unsubscribe ch who h)

  -- The end of `Run`, once both pumps have returned.
  unfoldable pub teardown : ℕ → Server → Server
  unfolding unsubscribe_all
  teardown who w =
      let c = w.conns who in
      record (set_conn who (record c { closed = true; subs = [] }) w) {
        net = record { chans = unsubscribe_all who (values c.subs) w.net.chans; reg = w.net.reg };
      }
