-- ===== src/Conn/Send/Calm.antt =====
-- What sending a frame leaves alone: the registry, and everyone's subscriptions and identity.
use wirefan.Prelude.{
  ℕ, ◌≡◌, refl, ◌∙◌, List, [], ◌∷◌, Option, none, some, Str, nat_beq_iff, inl, inr, Option-cases,
  arith,
}
use wirefan.Conn.Send.{
  offer, send, send_ack, send_error, send_op_error, op_error, broadcast_to, run_worker,
  enqueue_waiting, fan_out,
}
use wirefan.Conn.State.{Incoming, ErrorCode, AckType, Frame, Conn, World}
use wirefan.Fanout.{Fanout, per_conn, sharded, Job, Pool, enqueue, take_job, shard_for}
use wirefan.Hub.Channel.{broadcast, send_each}

-- The part of a connection that a `Conn` fixes when it is made, and its subscriptions.
pub record SameConn {B : Type 0} (c d : Conn B) : Type 0 where
  pub subs_same : d.subs ≡ c.subs
  pub max_same : d.max_channels ≡ c.max_channels
  pub socket_same : d.socket_id ≡ c.socket_id
  pub key_same : d.api_key_id ≡ c.api_key_id

pub record Calm {B S : Type 0} (w v : World B S) : Type 0 where
  pub net_same : v.net ≡ w.net
  pub secret_same : v.signing_secret ≡ w.signing_secret
  pub cache_same : v.replay_cache ≡ w.replay_cache
  pub conn_same : (j : ℕ) → SameConn (w.conns j) (v.conns j)

module _ {B : Type 0} where
  pub SameConn-refl : (c : Conn B) → SameConn c c
  SameConn-refl c = record {
    subs_same = refl;
    max_same = refl;
    socket_same = refl;
    key_same = refl;
  }

  SameConn-trans : {c d e : Conn B} → SameConn c d → SameConn d e → SameConn c e
  SameConn-trans p q = record {
    subs_same = q.subs_same ∙ p.subs_same;
    max_same = q.max_same ∙ p.max_same;
    socket_same = q.socket_same ∙ p.socket_same;
    key_same = q.key_same ∙ p.key_same;
  }

module _ {B S : Type 0} where
  pub Calm-refl : (w : World B S) → Calm w w
  Calm-refl w = record {
    net_same = refl;
    secret_same = refl;
    cache_same = refl;
    conn_same = λ j. SameConn-refl (w.conns j);
  }

  pub Calm-trans : {u v w : World B S} → Calm u v → Calm v w → Calm u w
  Calm-trans p q = record {
    net_same = q.net_same ∙ p.net_same;
    secret_same = q.secret_same ∙ p.secret_same;
    cache_same = q.cache_same ∙ p.cache_same;
    conn_same = λ j. SameConn-trans (p.conn_same j) (q.conn_same j);
  }

  pub Calm-offer : (who : ℕ) (f : Frame) (w : World B S) → Calm w (offer who f w)
  unfolding offer
  Calm-offer who f w = record {
    net_same = refl;
    secret_same = refl;
    cache_same = refl;
    conn_same = λ j. ground (arith, nat_beq_iff who j);
  }

  pub Calm-send_op_error :
      (who : ℕ) (msg : Incoming) (code : ErrorCode) (w : World B S)
      → Calm w (send_op_error who msg code w)
  unfolding send_op_error
  Calm-send_op_error who msg code w = Calm-offer who (op_error msg code) w

  pub Calm-send_error :
      (who : ℕ) (code : ErrorCode) (w : World B S) → Calm w (send_error who code w)
  unfolding send_error
  Calm-send_error who code w = Calm-offer who _ w

  pub Calm-send_ack :
      (who : ℕ) (typ : AckType) (channel : Str) (w : World B S)
      → Calm w (send_ack who typ channel w)
  unfolding send_ack
  Calm-send_ack who typ channel w = Calm-offer who _ w

  Calm-send : (who : ℕ) (msg : Frame) (w : World B S) → Calm w (send who msg w).1
  unfolding send
  Calm-send who msg w = record {
    net_same = ground arith;
    secret_same = ground arith;
    cache_same = ground arith;
    conn_same = λ j. ground (arith, nat_beq_iff who j);
  }

  Calm-send_each :
      (msg : Frame) (subs : List ℕ) (w : World B S)
      → Calm w (send_each (λ who v. (send who msg v).1) subs w)
  unfolding send_each
  Calm-send_each msg [] w = Calm-refl w
  Calm-send_each msg (s ∷ subs) w =
      Calm-trans (Calm-send s msg w) (Calm-send_each msg subs (send s msg w).1)

  pub Calm-broadcast_to : (c : ℕ) (msg : Frame) (w : World B S) → Calm w (broadcast_to c msg w)
  unfolding broadcast_to broadcast
  Calm-broadcast_to c msg w = Calm-send_each msg (w.net.chans.cell c).subscribers w

  Calm-fanout : (f : Fanout Frame) (w : World B S) → Calm w (record w { fanout = f })
  Calm-fanout f w = record {
    net_same = refl;
    secret_same = refl;
    cache_same = refl;
    conn_same = λ j. SameConn-refl (w.conns j);
  }

  pub Calm-run_worker : (i : ℕ) (w : World B S) → Calm w (run_worker i w)
  unfolding run_worker
  Calm-run_worker i w = go w.fanout
    where
      taken :
          (o : Option (Job Frame × Pool Frame))
          → Calm w (elim o [
            | none ↦ w
            | some (j, q) ↦ broadcast_to j.ch j.msg (record w { fanout = sharded q })
          ])
      taken none = Calm-refl w
      taken (some (j, q)) = Calm-trans (Calm-fanout (sharded q) w) (Calm-broadcast_to j.ch j.msg _)

      go :
          (f : Fanout Frame)
          → Calm w (elim f [
            | per_conn ↦ w
            | sharded p ↦ elim (take_job i p) [
              | none ↦ w
              | some (j, q) ↦ broadcast_to j.ch j.msg (record w { fanout = sharded q })
            ]
          ])
      go per_conn = Calm-refl w
      go (sharded p) = taken (take_job i p)

  Calm-enqueue_waiting :
      (name : Str) (c : ℕ) (msg : Frame) (p : Pool Frame) (w : World B S)
      → Calm w (enqueue_waiting name c msg p w)
  unfolding enqueue_waiting
  Calm-enqueue_waiting name c msg p w =
      let v = run_worker (shard_for name p) w in
      go v (Calm-run_worker (shard_for name p) w) v.fanout
    where
      go :
          (v : World B S)
          → Calm w v
          → (f : Fanout Frame)
          → Calm w (elim f [
            | per_conn ↦ w
            | sharded q ↦ elim (enqueue name c msg q) [
              | none ↦ w
              | some q' ↦ record v { fanout = sharded q' }
            ]
          ])
      go v k per_conn = Calm-refl w
      go v k (sharded q) = elim (Option-cases (enqueue name c msg q)) [
        | inl full ↦ rw full (Calm-refl w)
        | inr (q', e) ↦ rw e (Calm-trans k (Calm-fanout (sharded q') v))
      ]

  pub Calm-fan_out : (c : ℕ) (msg : Frame) (w : World B S) → Calm w (fan_out c msg w)
  unfolding fan_out
  Calm-fan_out c msg w = go w.fanout
    where
      name : Str
      name = (w.net.chans.cell c).name

      go :
          (f : Fanout Frame)
          → Calm w (elim f [
            | per_conn ↦ broadcast_to c msg w
            | sharded p ↦ elim (enqueue name c msg p) [
              | some q ↦ record w { fanout = sharded q }
              | none ↦ enqueue_waiting name c msg p w
            ]
          ])
      go per_conn = Calm-broadcast_to c msg w
      go (sharded p) = elim (Option-cases (enqueue name c msg p)) [
        | inl full ↦ rw full (Calm-enqueue_waiting name c msg p w)
        | inr (q, e) ↦ rw e (Calm-fanout (sharded q) w)
      ]
