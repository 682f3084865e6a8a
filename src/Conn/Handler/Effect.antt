-- ===== src/Conn/Handler/Effect.antt =====
-- What handling one message can do to the registry and to the subscriptions of the connections
-- (internal/conn/handler.go).
use wirefan.Prelude.{
  ℕ, ◌<◌, ◌≡◌, ◌≢◌, refl, ◌∙◌, Bool, true, false, not, ◌&&◌, inl, inr, Option, none, some, Str,
  if◌then◌else◌, nat_beq, nat_beq_iff, str_eq, length, Option-cases, Bool-cases, arith,
}
use wirefan.Prelude.Map.{Map, get, put, del}
use wirefan.Auth.Token.{verify_token_against}
use wirefan.Conn.Handler.{
  Server, charge_key, charge_control, charge_publish, allow_control, subscribe_loop,
  publish_allowed, handle_publish, max_subscribe_retries,
}
use wirefan.Conn.Names.{
  validate_channel_name, channel_reserved, reserved_subscribe_allowed, channel_requires_auth,
}
use wirefan.Conn.Send.Calm.{Calm, Calm-trans, Calm-send_op_error, Calm-fan_out}
use wirefan.Conn.State.{
  Incoming, Libs, reserved_channel, rate_limited_conn, rate_limited, not_subscribed,
}
use wirefan.Hub.Channel.{SubscribeError, unsubscribe}
use wirefan.Registry.{Net, Registry}

module _ (L : Libs) (R : Registry) where
  open L use {rate, crypto}

  -- The subscribe loop as `handleSubscribe` starts it.
  abbrev pub whole_loop :
      (ℕ → Net R.State → Net R.State)
      → Str
      → ℕ
      → Net R.State
      → Option SubscribeError × ℕ × Net R.State
  whole_loop env name who n = subscribe_loop R env name who max_subscribe_retries (none, 0, n)

  -- Only the subscriptions of `who` change, to `subs`, and the registry with its heap, to `n`.
  pub record Changed (who : ℕ) (subs : Map Str ℕ) (n : Net R.State) (w v : Server L R)
      : Type 0 where
    pub net_is : v.net ≡ n
    pub subs_are : (j : ℕ) → (v.conns j).subs ≡ (if nat_beq who j then subs else (w.conns j).subs)
    pub max_same : (j : ℕ) → (v.conns j).max_channels ≡ (w.conns j).max_channels

  -- What a message did, where `asked` is what is known of the message of a subscribe.
  pub data Effect (asked : Incoming → Type 0) (now : ℕ) (env : ℕ → Net R.State → Net R.State)
      (who : ℕ) (w v : Server L R) : Type 0 where
    unchanged : Changed who (w.conns who).subs w.net w v → Effect asked now env who w v
    refused :
        (name : Str)
        → (whole_loop env name who w.net).0 ≢ none
        → Changed who (w.conns who).subs (whole_loop env name who w.net).2 w v
        → Effect asked now env who w v
    joined :
        (msg : Incoming)
        → asked msg
        → validate_channel_name msg.channel ≡ none
        → (channel_reserved msg.channel && not (reserved_subscribe_allowed msg.channel)) ≡ false
        → (channel_requires_auth msg.channel ≡ true
            → (verify_token_against crypto now w.signing_secret
                (w.conns who).socket_id
                msg.channel
                msg.token
                w.replay_cache).0
              ≡ none)
        → get msg.channel (w.conns who).subs ≡ none
        → length (w.conns who).subs < (w.conns who).max_channels
        → (whole_loop env msg.channel who w.net).0 ≡ none
        → Changed who
            (put msg.channel (whole_loop env msg.channel who w.net).1 (w.conns who).subs)
            (whole_loop env msg.channel who w.net).2
            w
            v
        → Effect asked now env who w v
    left :
        (name : Str) (c : ℕ)
        → get name (w.conns who).subs ≡ some c
        → Changed who
            (del name (w.conns who).subs)
            (record { chans = unsubscribe c who w.net.chans; reg = w.net.reg })
            w
            v
        → Effect asked now env who w v

  module _ (who : ℕ) where
    pub Calm-after :
        {w u v : Server L R} (subs : Map Str ℕ) (n : Net R.State)
        → Changed who subs n w u
        → Calm u v
        → Changed who subs n w v
    Calm-after subs n c k = record {
      net_is = k.net_same ∙ c.net_is;
      subs_are = λ j. (k.conn_same j).subs_same ∙ c.subs_are j;
      max_same = λ j. (k.conn_same j).max_same ∙ c.max_same j;
    }

    pub Calm-before :
        {w u v : Server L R} (subs : Map Str ℕ) (n : Net R.State)
        → Calm w u
        → Changed who subs n u v
        → Changed who subs n w v
    Calm-before subs n k c = record {
      net_is = c.net_is;
      subs_are = λ j. ground (arith, c.subs_are j, (k.conn_same j).subs_same);
      max_same = λ j. c.max_same j ∙ (k.conn_same j).max_same;
    }

    pub only-Calm : {w v : Server L R} → Calm w v → Changed who (w.conns who).subs w.net w v
    only-Calm {w} {v} k = record {
      net_is = k.net_same;
      subs_are = λ j. ground (arith, (k.conn_same j).subs_same, nat_beq_iff who j);
      max_same = λ j. (k.conn_same j).max_same;
    }

  Calm-charge_key : (now who : ℕ) (w : Server L R) → Calm w (charge_key L R now who w).1
  unfolding charge_key
  Calm-charge_key now who w = record {
    net_same = refl;
    secret_same = refl;
    cache_same = refl;
    conn_same =
        λ j. record { subs_same = refl; max_same = refl; socket_same = refl; key_same = refl };
  }

  Calm-charge_control : (now who : ℕ) (w : Server L R) → Calm w (charge_control L R now who w).1
  unfolding charge_control
  Calm-charge_control now who w = record {
    net_same = refl;
    secret_same = refl;
    cache_same = refl;
    conn_same = λ j. ground (arith, nat_beq_iff who j);
  }

  Calm-charge_publish : (now who : ℕ) (w : Server L R) → Calm w (charge_publish L R now who w).1
  unfolding charge_publish
  Calm-charge_publish now who w = record {
    net_same = refl;
    secret_same = refl;
    cache_same = refl;
    conn_same = λ j. ground (arith, nat_beq_iff who j);
  }

  Calm-if :
      {w : Server L R} (b : Bool) (u v : Server L R)
      → Calm w u
      → Calm w v
      → Calm w (if b then u else v)
  Calm-if true u v p q = p
  Calm-if false u v p q = q

  pub Calm-allow_control :
      (now who : ℕ) (msg : Incoming) (w : Server L R) → Calm w (allow_control L R now who msg w).1
  unfolding allow_control
  Calm-allow_control now who msg w =
      let r = charge_control L R now who w in
      let s = charge_key L R now who r.1 in
      let p = Calm-charge_control now who w in
      let q = Calm-trans p (Calm-charge_key now who r.1) in
      elim (Bool-cases r.0) [
        | inr empty ↦ rw empty (Calm-trans p (Calm-send_op_error who msg rate_limited_conn r.1))
        | inl charged ↦ elim (Bool-cases s.0) [
          | inr empty ↦
              rw (charged, empty) (Calm-trans q (Calm-send_op_error who msg rate_limited s.1))
          | inl both ↦ rw (charged, both) q
        ]
      ]

  Calm-publish_allowed :
      (ch : ℕ) (msg : Incoming) (w : Server L R) → Calm w (publish_allowed L R ch msg w)
  unfolding publish_allowed
  Calm-publish_allowed ch msg w =
      Calm-trans
        (record {
          net_same = refl;
          secret_same = refl;
          cache_same = refl;
          conn_same = λ j. record {
            subs_same = refl;
            max_same = refl;
            socket_same = refl;
            key_same = refl;
          };
        })
        (Calm-fan_out ch _ _)

  pub Calm-handle_publish :
      (now who : ℕ) (msg : Incoming) (w : Server L R) → Calm w (handle_publish L R now who msg w)
  unfolding handle_publish
  Calm-handle_publish now who msg w =
      let r = charge_publish L R now who w in
      let s = charge_key L R now who r.1 in
      let p = Calm-charge_publish now who w in
      let q = Calm-trans p (Calm-charge_key now who r.1) in
      elim (Bool-cases (channel_reserved msg.channel)) [
        | inl reserved ↦ rw reserved (Calm-send_op_error who msg reserved_channel w)
        | inr open_ ↦ elim (Option-cases (get msg.channel (w.conns who).subs)) [
          | inl absent ↦
              rw (open_, absent, handle_publish) (Calm-send_op_error who msg not_subscribed w)
          | inr (ch, on) ↦
              rw (open_, on, handle_publish)
                (Calm-if (not r.0) _ _
                  (Calm-trans p (Calm-send_op_error who msg rate_limited_conn r.1))
                  (Calm-if (not s.0) _ _
                    (Calm-trans q (Calm-send_op_error who msg rate_limited s.1))
                    (Calm-trans q (Calm-publish_allowed ch msg s.1))))
        ]
      ]
