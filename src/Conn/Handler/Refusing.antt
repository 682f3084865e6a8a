-- ===== src/Conn/Handler/Refusing.antt =====
-- What a refused publish does (internal/conn/handler.go, `handlePublish`).
use wirefan.Prelude.{
  ℕ, ◌≡◌, ◌≢◌, refl, Bool, true, false, none, some, nat_beq_iff, nat_eq, str_eq, arith,
}
use wirefan.Prelude.Map.{get}
use wirefan.Conn.Handler.{Server, charge_key, charge_publish, handle_publish}
use wirefan.Conn.Names.{channel_reserved}
use wirefan.Conn.Policy.{try_send}
use wirefan.Conn.Send.{offer, send_op_error, op_error}
use wirefan.Conn.State.{
  ErrorCode, reserved_channel, not_subscribed, rate_limited, rate_limited_conn, Incoming, Libs,
}
use wirefan.Registry.{Registry}

module _ (L : Libs) (R : Registry) where
  -- What the rest of the server sees of `who`: everything but the connection `who` itself.
  pub record Unseen (who : ℕ) (w v : Server L R) : Type 0 where
    pub others : (j : ℕ) → j ≢ who → v.conns j ≡ w.conns j
    pub same_fanout : v.fanout ≡ w.fanout
    pub same_net : v.net ≡ w.net
    pub same_count : v.published ≡ w.published

  Unseen-error :
      (who : ℕ) (msg : Incoming) (w v : Server L R) (code : ErrorCode)
      → Unseen who w v
      → Unseen who w (send_op_error who msg code v)
  unfolding send_op_error offer
  Unseen-error who msg w v code u = record {
    others = λ j h. ground (arith, u.others j h, nat_beq_iff who j);
    same_fanout = u.same_fanout;
    same_net = u.same_net;
    same_count = u.same_count;
  }

  Unseen-charge_publish :
      (now who : ℕ) (w : Server L R) → Unseen who w (charge_publish L R now who w).1
  unfolding charge_publish
  Unseen-charge_publish now who w = record {
    others = λ j h. ground (arith, nat_beq_iff who j);
    same_fanout = refl;
    same_net = refl;
    same_count = refl;
  }

  Unseen-charge_key :
      (now who : ℕ) (w v : Server L R) → Unseen who w v → Unseen who w (charge_key L R now who v).1
  unfolding charge_key
  Unseen-charge_key now who w v u = record {
    others = u.others;
    same_fanout = u.same_fanout;
    same_net = u.same_net;
    same_count = u.same_count;
  }

  -- Why a publish is refused, and the code that it is answered with: the channel is reserved, the
  -- publisher is not on it, or a bucket is empty, its own before that of its key.
  pub data Refusal (now who : ℕ) (msg : Incoming) (w : Server L R) : ErrorCode → Type 0 where
    reserved : channel_reserved msg.channel ≡ true → Refusal now who msg w reserved_channel
    not_on :
        channel_reserved msg.channel ≡ false
        → get msg.channel (w.conns who).subs ≡ none
        → Refusal now who msg w not_subscribed
    too_fast :
        (ch : ℕ)
        → channel_reserved msg.channel ≡ false
        → get msg.channel (w.conns who).subs ≡ some ch
        → (charge_publish L R now who w).0 ≡ false
        → Refusal now who msg w rate_limited_conn
    key_too_fast :
        (ch : ℕ)
        → channel_reserved msg.channel ≡ false
        → get msg.channel (w.conns who).subs ≡ some ch
        → (charge_publish L R now who w).0 ≡ true
        → (charge_key L R now who (charge_publish L R now who w).1).0 ≡ false
        → Refusal now who msg w rate_limited

  -- `who` was offered the error frame of `code`, and no one else saw anything.
  abbrev pub Answered : ℕ → Incoming → ErrorCode → Server L R → Server L R → Type 0
  Answered who msg code w v =
      Unseen who w v
      × ((v.conns who).send ≡ (try_send (op_error msg code) (w.conns who).send).1)
      × ((v.conns who).subs ≡ (w.conns who).subs)

  Answered-error :
      (who : ℕ) (msg : Incoming) (w v : Server L R) (code : ErrorCode)
      → Unseen who w v
      → (v.conns who).send ≡ (w.conns who).send
      → (v.conns who).subs ≡ (w.conns who).subs
      → Answered who msg code w (send_op_error who msg code v)
  unfolding send_op_error offer
  Answered-error who msg w v code u same subs = (
    Unseen-error who msg w v code u,
    ground (arith, same, nat_beq_iff who who),
    ground (arith, subs, nat_beq_iff who who),
  )

  charged_own :
      (now who : ℕ) (w : Server L R)
      → (((charge_publish L R now who w).1.conns who).send ≡ (w.conns who).send)
        × (((charge_publish L R now who w).1.conns who).subs ≡ (w.conns who).subs)
  unfolding charge_publish
  charged_own now who w = (ground (arith, nat_beq_iff who who), ground (arith, nat_beq_iff who who))

  charged_both :
      (now who : ℕ) (w : Server L R)
      → let v = (charge_key L R now who (charge_publish L R now who w).1).1 in
        ((v.conns who).send ≡ (w.conns who).send) × ((v.conns who).subs ≡ (w.conns who).subs)
  unfolding charge_key
  charged_both now who w = charged_own now who w

  -- A publish that is refused is answered to the publisher with the error of the first check that it
  -- fails, if its buffer has room for one more frame; its channels stay as they are, no other
  -- connection, no fanout queue and no channel changes, and nothing is counted as published.
  pub handle_publish-refused :
      (now who : ℕ) (msg : Incoming) (w : Server L R) (code : ErrorCode)
      → Refusal now who msg w code
      → Answered who msg code w (handle_publish L R now who msg w)
  unfolding handle_publish
  handle_publish-refused now who msg w code why = go code why
    where
      r : Bool × Server L R
      r = charge_publish L R now who w

      s : Bool × Server L R
      s = charge_key L R now who r.1

      same : Unseen who w w
      same = record { others = λ j h. refl; same_fanout = refl; same_net = refl; same_count = refl }

      paid : Unseen who w r.1
      paid = Unseen-charge_publish now who w

      go :
          (code : ErrorCode)
          → Refusal now who msg w code
          → Answered who msg code w (handle_publish L R now who msg w)
      go _ (reserved barred) =
          rw barred (Answered-error who msg w w reserved_channel same refl refl)
      go _ (not_on free absent) =
          rw (free, absent, handle_publish)
            (Answered-error who msg w w not_subscribed same refl refl)
      go _ (too_fast ch free on empty) =
          let (buffer, subs) = charged_own now who w in
          rw (free, on, empty, handle_publish)
            (Answered-error who msg w r.1 rate_limited_conn paid buffer subs)
      go _ (key_too_fast ch free on charged empty) =
          let (buffer, subs) = charged_both now who w in
          rw (free, on, charged, empty, handle_publish)
            (Answered-error who msg w s.1 rate_limited (Unseen-charge_key now who w r.1 paid) buffer
              subs)
