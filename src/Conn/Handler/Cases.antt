-- ===== src/Conn/Handler/Cases.antt =====
-- What `join` and `leave` do, as effects (internal/conn/handler.go).
use wirefan.Prelude.{
  ℕ, ◌<◌, ◌≡◌, ◌≢◌, refl, ◌∙◌, true, false, not, ◌&&◌, inl, inr, Option, none, Str, nat_beq_iff,
  str_eq, length, leb, ap, Option-cases, Bool-cases, arith,
}
use wirefan.Prelude.Map.{Map, get, put}
use wirefan.Auth.Token.{verify_token_against}
use wirefan.Conn.Handler.{Server, join, leave}
use wirefan.Conn.Names.{
  validate_channel_name, channel_reserved, reserved_subscribe_allowed, channel_requires_auth,
}
use wirefan.Conn.Send.Calm.{SameConn, Calm-send_ack, Calm-send_op_error}
use wirefan.Conn.State.{
  Incoming, set_conn, Libs, subscribed, unsubscribed, limit_channels, limit_subscribers,
  subscribe_failed,
}
use wirefan.Hub.Channel.{SubscribeError, too_many_subs, channel_deleted}
use wirefan.Registry.{Net, Registry}
use mathlib.Core.Path.{subst, subst₂}
use wirefan.Conn.Handler.Effect.{
  whole_loop, Changed, Effect, unchanged, refused, joined, left, Calm-after, only-Calm,
}

module _ (L : Libs) (R : Registry) where
  open L use {rate, crypto}

  -- `set_conn` with new subscriptions, under a new registry and heap.
  set-Changed :
      (who : ℕ) (subs : Map Str ℕ) (n : Net R.State) (w : Server L R)
      → Changed L R who subs n w
          (record (set_conn who (record (w.conns who) { subs = subs }) w) { net = n })
  set-Changed who subs n w = record {
    net_is = refl;
    subs_are = λ j. ground arith;
    max_same = λ j. ground (arith, nat_beq_iff who j);
  }

  net-Changed :
      (who : ℕ) (n : Net R.State) (w : Server L R)
      → Changed L R who (w.conns who).subs n w (record w { net = n })
  net-Changed who n w = record {
    net_is = refl;
    subs_are = λ j. ground (arith, nat_beq_iff who j);
    max_same = λ j. refl;
  }

  pub leave-Effect :
      {asked : Incoming → Type 0} (now : ℕ) (env : ℕ → Net R.State → Net R.State) (who : ℕ)
      (msg : Incoming) (w : Server L R)
      → Effect L R asked now env who w (leave L R who msg w)
  unfolding leave
  leave-Effect now env who msg w = elim (Option-cases (get msg.channel (w.conns who).subs)) [
    | inl absent ↦
        rw (absent, leave)
          (unchanged (only-Calm L R who (Calm-send_ack who unsubscribed msg.channel w)))
    | inr (c, on) ↦
        rw (on, leave)
          (left msg.channel c on (
            Calm-after L R who _ _ (set-Changed who _ _ w)
              (Calm-send_ack who unsubscribed msg.channel _)))
  ]

  -- What has been established about `msg` when `join` is called.
  pub record Admitted (now who : ℕ) (msg : Incoming) (w : Server L R) : Type 0 where
    pub valid_name : validate_channel_name msg.channel ≡ none
    pub not_reserved :
        (channel_reserved msg.channel && not (reserved_subscribe_allowed msg.channel)) ≡ false
    pub authorized :
        channel_requires_auth msg.channel ≡ true
        → (verify_token_against crypto now w.signing_secret
            (w.conns who).socket_id
            msg.channel
            msg.token
            w.replay_cache).0
          ≡ none
    pub absent : get msg.channel (w.conns who).subs ≡ none

  -- A server that differs from `w` in what no `Effect` speaks of and the handlers before `join` change.
  pub record Near (who : ℕ) (w v : Server L R) : Type 0 where
    pub near_net : v.net ≡ w.net
    pub near_conn : (j : ℕ) → SameConn (w.conns j) (v.conns j)

  pub Near-before :
      (who : ℕ) {w u v : Server L R} (subs : Map Str ℕ) (n : Net R.State)
      → Near who w u
      → Changed L R who subs n u v
      → Changed L R who subs n w v
  Near-before who subs n k c = record {
    net_is = c.net_is;
    subs_are = λ j. ground (arith, c.subs_are j, (k.near_conn j).subs_same);
    max_same = λ j. c.max_same j ∙ (k.near_conn j).max_same;
  }

  -- The three ways that `join` ends.
  pub data Joins (env : ℕ → Net R.State → Net R.State) (who : ℕ) (name : Str) (v v' : Server L R)
      : Type 0 where
    full : Changed L R who (v.conns who).subs v.net v v' → Joins env who name v v'
    fails :
        (whole_loop L R env name who v.net).0 ≢ none
        → Changed L R who (v.conns who).subs (whole_loop L R env name who v.net).2 v v'
        → Joins env who name v v'
    enters :
        length (v.conns who).subs < (v.conns who).max_channels
        → (whole_loop L R env name who v.net).0 ≡ none
        → Changed L R who
            (put name (whole_loop L R env name who v.net).1 (v.conns who).subs)
            (whole_loop L R env name who v.net).2
            v
            v'
        → Joins env who name v v'

  pub join-Joins :
      (env : ℕ → Net R.State → Net R.State) (who : ℕ) (msg : Incoming) (v : Server L R)
      → Joins env who msg.channel v (join L R env who msg v)
  unfolding join
  join-Joins env who msg v =
      let r = whole_loop L R env msg.channel who v.net in
      let c = v.conns who in
      elim (Bool-cases (leb c.max_channels (length c.subs))) [
        | inl filled ↦
            rw filled (full (only-Calm L R who (Calm-send_op_error who msg limit_channels v)))
        | inr room ↦ elim (Option-cases r.0) [
          | inl done ↦
              rw (room, done, join)
                (enters (ground arith) done (
                  Calm-after L R who _ _ (set-Changed who _ _ v)
                    (Calm-send_ack who subscribed msg.channel _)))
          | inr (too_many_subs, e) ↦
              rw (room, e, join)
                (fails (rw e (λ h. cc)) (
                  Calm-after L R who _ _ (net-Changed who _ v)
                    (Calm-send_op_error who msg limit_subscribers _)))
          | inr (channel_deleted, e) ↦
              rw (room, e, join)
                (fails (rw e (λ h. cc)) (
                  Calm-after L R who _ _ (net-Changed who _ v)
                    (Calm-send_op_error who msg subscribe_failed _)))
        ]
      ]

  -- The same seen from the server before the handlers that ran ahead of `join`.
  pub Joins-Effect :
      {asked : Incoming → Type 0} (now : ℕ) (env : ℕ → Net R.State → Net R.State) (who : ℕ)
      (msg : Incoming) (w v v' : Server L R)
      → asked msg
      → Admitted now who msg w
      → Near who w v
      → Joins env who msg.channel v v'
      → Effect L R asked now env who w v'
  Joins-Effect {asked} now env who msg w v v' q a k j = go j
    where
      open msg use {channel}

      subs_eq : (v.conns who).subs ≡ (w.conns who).subs
      subs_eq = (k.near_conn who).subs_same

      loop : Net R.State → Option SubscribeError × ℕ × Net R.State
      loop n = whole_loop L R env channel who n

      go : Joins env who channel v v' → Effect L R asked now env who w v'
      go (full c) =
          unchanged
            (Near-before who _ _ k (subst₂ (λ s n. Changed L R who s n v v') subs_eq k.near_net c))
      go (fails bad c) =
          refused channel (subst (λ n. (whole_loop L R env channel who n).0 ≢ none) k.near_net bad)
            (Near-before who _ _ k (
              subst₂ (λ s n. Changed L R who s (whole_loop L R env channel who n).2 v v') subs_eq
                k.near_net c))
      go (enters room good c) =
          joined msg q a.valid_name a.not_reserved a.authorized a.absent
            (omega (arith, ap length subs_eq, (k.near_conn who).max_same))
            (subst (λ n. (whole_loop L R env channel who n).0 ≡ none) k.near_net good)
            (Near-before who _ _ k (
              subst₂
                (λ s n.
                  Changed L R who (put channel (whole_loop L R env channel who n).1 s)
                    (whole_loop L R env channel who n).2 v v')
                subs_eq k.near_net c))
