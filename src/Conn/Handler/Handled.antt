-- ===== src/Conn/Handler/Handled.antt =====
-- Every message that a connection handles has one of the four effects of `Effect`
-- (internal/conn/handler.go).
use wirefan.Prelude.{
  ℕ, ◌≡◌, ◌≢◌, refl, sym, ◌∙◌, true, false, not, ◌&&◌, inl, inr, Option, none, some, Str, str_eq,
  length, ap, Option-cases, Bool-cases, arith,
}
use wirefan.Prelude.Map.{Map, get, put, del}
use wirefan.Conn.Handler.{
  Server, allow_control, check_token, subscribe_allowed, handle_subscribe, handle_unsubscribe,
  dispatch, handle,
}
use wirefan.Conn.Names.{validate_channel_name, channel_reserved, reserved_subscribe_allowed}
use wirefan.Conn.Names.Utf8.{valid}
use wirefan.Conn.Send.{send_error, send_op_error}
use wirefan.Conn.Send.Calm.{Calm, Calm-send_ack, Calm-send_error, Calm-send_op_error}
use wirefan.Conn.State.{
  Incoming, Op, subscribe_op, unsubscribe_op, publish_op, other_op, op_of, Libs, subscribed,
  reserved_channel, bad_channel, bad_json, bad_type,
}
use wirefan.Hub.Channel.{SubscribeError, unsubscribe}
use wirefan.Registry.{Net, Registry}
use mathlib.Core.Path.{subst, subst₂}
use wirefan.Conn.Handler.Effect.{
  whole_loop, Changed, Effect, unchanged, refused, joined, left, Calm-before, only-Calm,
  Calm-allow_control, Calm-handle_publish,
}
use wirefan.Conn.Handler.Cases.{leave-Effect, join-Joins, Joins-Effect}
use wirefan.Conn.Handler.Checking.{check_token-Checks}

module _ (L : Libs) (R : Registry) where
  open L use {rate, crypto}

  abbrev pub Env : Type 0
  Env = ℕ → Net R.State → Net R.State

  -- An effect on a server that differs from `w` calmly is one on `w`.
  before-Effect :
      {asked : Incoming → Type 0} (now : ℕ) (env : Env) (who : ℕ) (w u v : Server L R)
      → Calm w u
      → Effect L R asked now env who u v
      → Effect L R asked now env who w v
  before-Effect {asked} now env who w u v k e = go e
    where
      subs_eq : (u.conns who).subs ≡ (w.conns who).subs
      subs_eq = (k.conn_same who).subs_same

      socket_eq : (u.conns who).socket_id ≡ (w.conns who).socket_id
      socket_eq = (k.conn_same who).socket_same

      After : Map Str ℕ → Net R.State → Type 0
      After s n = Changed L R who s n w v

      Loop : Str → Net R.State → Option SubscribeError × ℕ × Net R.State
      Loop name n = whole_loop L R env name who n

      go : Effect L R asked now env who u v → Effect L R asked now env who w v
      go (unchanged c) =
          unchanged (subst₂ (λ s n. After s n) subs_eq k.net_same (Calm-before L R who _ _ k c))
      go (refused name bad c) =
          refused name (subst (λ n. (Loop name n).0 ≢ none) k.net_same bad) (
            subst₂ (λ s n. After s (Loop name n).2) subs_eq k.net_same
              (Calm-before L R who _ _ k c))
      go (joined msg q ok free sure absent room good c) =
          joined msg q ok free
            (λ h. rw (sym k.secret_same, sym k.cache_same, sym socket_eq) (sure h))
            (sym (ap (get msg.channel) subs_eq) ∙ absent)
            (omega (arith, ap length subs_eq, (k.conn_same who).max_same, room))
            (subst (λ n. (Loop msg.channel n).0 ≡ none) k.net_same good)
            (subst₂ (λ s n. After (put msg.channel (Loop msg.channel n).1 s) (Loop msg.channel n).2)
              subs_eq k.net_same (Calm-before L R who _ _ k c))
      go (left name ch on c) = left name ch (sym (ap (get name) subs_eq) ∙ on) (
          subst₂
            (λ s n. After (del name s) (record { chans = unsubscribe ch who n.chans; reg = n.reg }))
            subs_eq k.net_same (Calm-before L R who _ _ k c))

  Calm-Effect :
      {asked : Incoming → Type 0} (now : ℕ) (env : Env) (who : ℕ) (w v : Server L R)
      → Calm w v
      → Effect L R asked now env who w v
  Calm-Effect now env who w v k = unchanged (only-Calm L R who k)

  subscribe_allowed-Effect :
      {asked : Incoming → Type 0} (now : ℕ) (env : Env) (who : ℕ) (msg : Incoming) (w : Server L R)
      → asked msg
      → validate_channel_name msg.channel ≡ none
      → (channel_reserved msg.channel && not (reserved_subscribe_allowed msg.channel)) ≡ false
      → Effect L R asked now env who w (subscribe_allowed L R now env who msg w)
  unfolding subscribe_allowed
  subscribe_allowed-Effect now env who msg w q ok free =
      let r = check_token L R now who msg w in
      elim (Option-cases (get msg.channel (w.conns who).subs)) [
        | inr (c, on) ↦
            rw (on, subscribe_allowed)
              (Calm-Effect now env who w _ (Calm-send_ack who subscribed msg.channel w))
        | inl absent ↦ elim (check_token-Checks L R now who msg w) [
          | inl (pass, near, sure) ↦
              rw (absent, pass, subscribe_allowed)
                (Joins-Effect L R now env who msg w r.1 _ q
                  (record {
                    valid_name = ok;
                    not_reserved = free;
                    authorized = sure;
                    absent = absent;
                  })
                  near (join-Joins L R env who msg r.1))
          | inr (fail, c) ↦ rw (absent, fail, subscribe_allowed) (unchanged c)
        ]
      ]

  handle_subscribe-Effect :
      {asked : Incoming → Type 0} (now : ℕ) (env : Env) (who : ℕ) (msg : Incoming) (w : Server L R)
      → asked msg
      → validate_channel_name msg.channel ≡ none
      → Effect L R asked now env who w (handle_subscribe L R now env who msg w)
  unfolding handle_subscribe
  handle_subscribe-Effect now env who msg w q ok =
      let r = allow_control L R now who msg w in
      let k = Calm-allow_control L R now who msg w in
      elim (Bool-cases
        (channel_reserved msg.channel && not (reserved_subscribe_allowed msg.channel))) [
          | inl barred ↦
              rw barred
                (Calm-Effect now env who w _ (Calm-send_op_error who msg reserved_channel w))
          | inr free ↦ elim (Bool-cases r.0) [
            | inl pass ↦
                rw (free, pass)
                  (before-Effect now env who w r.1 _ k
                    (subscribe_allowed-Effect now env who msg r.1 q ok free))
            | inr empty ↦ rw (free, empty) (Calm-Effect now env who w _ k)
          ]
        ]

  handle_unsubscribe-Effect :
      {asked : Incoming → Type 0} (now : ℕ) (env : Env) (who : ℕ) (msg : Incoming) (w : Server L R)
      → Effect L R asked now env who w (handle_unsubscribe L R now who msg w)
  unfolding handle_unsubscribe
  handle_unsubscribe-Effect now env who msg w =
      let r = allow_control L R now who msg w in
      let k = Calm-allow_control L R now who msg w in
      elim (Bool-cases r.0) [
        | inl pass ↦
            rw pass (before-Effect now env who w r.1 _ k (leave-Effect L R now env who msg r.1))
        | inr empty ↦ rw empty (Calm-Effect now env who w _ k)
      ]

  dispatch-Effect :
      {asked : Incoming → Type 0} (now : ℕ) (env : Env) (who : ℕ) (msg : Incoming) (op : Op)
      (w : Server L R)
      → (op ≡ subscribe_op → asked msg)
      → Effect L R asked now env who w (dispatch L R now env who msg op w)
  unfolding dispatch
  dispatch-Effect {asked} now env who msg op w q = go op refl
    where
      bad : Effect L R asked now env who w (send_error who bad_type w)
      bad = Calm-Effect now env who w _ (Calm-send_error who bad_type w)

      valid_only :
          (v : Server L R)
          → (validate_channel_name msg.channel ≡ none → Effect L R asked now env who w v)
          → Effect L R asked now env who w (elim (validate_channel_name msg.channel) [
            | some e ↦ send_op_error who msg bad_channel w
            | none ↦ v
          ])
      valid_only v f = elim (Option-cases (validate_channel_name msg.channel)) [
        | inl ok ↦ rw ok (f ok)
        | inr (e, broken) ↦
            rw broken (Calm-Effect now env who w _ (Calm-send_op_error who msg bad_channel w))
      ]

      go : (o : Op) → op ≡ o → Effect L R asked now env who w (dispatch L R now env who msg o w)
      go other_op e = bad
      go subscribe_op e = valid_only _ (λ ok. handle_subscribe-Effect now env who msg w (q e) ok)
      go unsubscribe_op e = valid_only _ (λ ok. handle_unsubscribe-Effect now env who msg w)
      go publish_op e =
          valid_only _ (λ ok. Calm-Effect now env who w _ (Calm-handle_publish L R now who msg w))

  -- `raw` is the text of the subscribe `msg`.
  pub record Asks (raw : Str) (msg : Incoming) : Type 0 where
    pub is_text : valid raw ≡ true
    pub reads : L.unmarshal raw ≡ some msg
    pub is_subscribe : op_of msg.typ ≡ subscribe_op

  -- Whatever a connection sends, handling it has one of the four effects.
  pub handle-Effect :
      (now : ℕ) (env : Env) (who : ℕ) (raw : Str) (w : Server L R)
      → Effect L R (Asks raw) now env who w (handle L R now env who raw w)
  unfolding handle
  handle-Effect now env who raw w =
      let bad = Calm-Effect now env who w _ (Calm-send_error who bad_json w) in
      elim (Bool-cases (valid raw)) [
        | inr broken ↦ rw broken bad
        | inl text ↦ elim (Option-cases (L.unmarshal raw)) [
          | inl junk ↦ rw (text, junk, handle) bad
          | inr (msg, read) ↦
              rw (text, read, handle)
                (dispatch-Effect now env who msg (op_of msg.typ) w
                  (λ is. record { is_text = text; reads = read; is_subscribe = is }))
        ]
      ]
