-- ===== src/Conn/Handler/Admission.antt =====
-- Which subscriptions a connection can come to hold (internal/conn/handler.go).
use wirefan.Prelude.{
  ℕ, ◌≤◌, ◌<◌, ◌≡◌, ◌≢◌, true, false, not, ◌&&◌, none, Str, nat_beq, nat_beq_iff, str_eq,
  str_beq_iff, length, Bool-cases, inl, inr, arith,
}
use wirefan.Prelude.Map.{get, get-put, get-del, length-put_new, length-del-le}
use wirefan.Auth.Token.{verify_token_against}
use wirefan.Conn.Handler.{Server, handle}
use wirefan.Conn.Handler.Effect.{whole_loop, Changed, Effect, unchanged, refused, joined, left}
use wirefan.Conn.Handler.Handled.{Env, Asks, handle-Effect}
use wirefan.Conn.Names.{
  validate_channel_name, channel_reserved, reserved_subscribe_allowed, channel_requires_auth,
}
use wirefan.Conn.State.{Incoming, Libs}
use wirefan.Registry.{Net, Registry}

module _ (L : Libs) (R : Registry) where
  open L use {crypto}

  -- What the source asks of the message `raw` by which `who` subscribes to `name` on the server `w`.
  pub record Entitled (now who : ℕ) (name raw : Str) (w : Server L R) : Type 0 where
    pub msg : Incoming
    pub asks : Asks L R raw msg
    pub names_it : msg.channel ≡ name
    pub valid_name : validate_channel_name name ≡ none
    pub open_name : (channel_reserved name && not (reserved_subscribe_allowed name)) ≡ false
    pub signed :
        channel_requires_auth name ≡ true
        → (verify_token_against crypto now w.signing_secret
            (w.conns who).socket_id
            name
            msg.token
            w.replay_cache).0
          ≡ none
    pub under_cap : length (w.conns who).subs < (w.conns who).max_channels

  kept_absent :
      (who j : ℕ) (n : Net R.State) (w v : Server L R) (name : Str)
      → Changed L R who (w.conns who).subs n w v
      → get name (w.conns j).subs ≡ none
      → get name (v.conns j).subs ≡ none
  kept_absent who j n w v name c out = ground (arith, c.subs_are j, nat_beq_iff who j)

  -- A connection comes to hold a channel only by a message of its own that is a subscribe to it,
  -- under a name that is valid and not reserved (but for the stats channel), below its cap, and, where
  -- the channel needs a token, with a token in that message that is verified for the connection's
  -- socket and the channel.
  pub handle-admits :
      (now : ℕ) (env : Env L R) (who : ℕ) (raw : Str) (w : Server L R) (j : ℕ) (name : Str)
      → get name (w.conns j).subs ≡ none
      → get name ((handle L R now env who raw w).conns j).subs ≢ none
      → (who ≡ j) × Entitled now who name raw w
  handle-admits now env who raw w j name out held = go (handle-Effect L R now env who raw w)
    where
      v : Server L R
      v = handle L R now env who raw w

      go : Effect L R (Asks L R raw) now env who w v → (who ≡ j) × Entitled now who name raw w
      go (unchanged c) = absurd (held (kept_absent who j _ w v name c out))
      go (refused m bad c) = absurd (held (kept_absent who j _ w v name c out))
      go (left m ch on c) = absurd (
          held (ground (arith, c.subs_are j, nat_beq_iff who j, get-del m name (w.conns who).subs)))
      go (joined msg q ok free sure absent room good c) =
          let m = msg.channel in
          elim (Bool-cases (nat_beq who j)) [
            | inr other ↦ absurd (held (ground (arith, c.subs_are j)))
            | inl mine ↦
                let own : who ≡ j = (nat_beq_iff who j).0 mine in
                let added = get-put m name (whole_loop L R env m who w.net).1 (w.conns who).subs in
                let this : m ≡ name = ground (
                  arith,
                  c.subs_are j,
                  added,
                  own,
                  str_beq_iff m name,
                  Bool-cases (str_eq.beq m name),
                ) in
                (
                  own,
                  record {
                    msg = msg;
                    asks = q;
                    names_it = this;
                    valid_name = rw this at ok;
                    open_name = rw this at free;
                    signed = rw this at sure;
                    under_cap = room;
                  },
                )
          ]

  -- No message takes any connection over its cap.
  pub handle-cap :
      (now : ℕ) (env : Env L R) (who : ℕ) (raw : Str) (w : Server L R) (j : ℕ)
      → length (w.conns j).subs ≤ (w.conns j).max_channels
      → length ((handle L R now env who raw w).conns j).subs
        ≤ ((handle L R now env who raw w).conns j).max_channels
  handle-cap now env who raw w j below = go (handle-Effect L R now env who raw w)
    where
      v : Server L R
      v = handle L R now env who raw w

      go :
          Effect L R (Asks L R raw) now env who w v
          → length (v.conns j).subs ≤ (v.conns j).max_channels
      go (unchanged c) = ground (arith, c.subs_are j, c.max_same j, nat_beq_iff who j)
      go (refused m bad c) = ground (arith, c.subs_are j, c.max_same j, nat_beq_iff who j)
      go (left m ch on c) =
          ground (
            arith,
            c.subs_are j,
            c.max_same j,
            nat_beq_iff who j,
            length-del-le m (w.conns who).subs,
          )
      go (joined msg q ok free sure absent room good c) = ground (
        arith,
        c.subs_are j,
        c.max_same j,
        nat_beq_iff who j,
        length-put_new msg.channel (whole_loop L R env msg.channel who w.net).1 (w.conns who).subs
            absent,
      )
