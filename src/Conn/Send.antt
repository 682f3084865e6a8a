-- ===== src/Conn/Send.antt =====
-- internal/conn/handler.go: `Send`, `sendAck`, `sendError`, `sendOpError`; hub.Broadcast over them.
pub mod Delivery
pub mod Calm
use wirefan.Prelude.{
  ℕ, zero, suc, ◌≡◌, Bool, true, false, List, [], ◌∷◌, Option, none, some, Str, if◌then◌else◌, leb,
  length, nat_beq,
}
use wirefan.Conn.Names.{max_channel_name_len}
use wirefan.Conn.Policy.{Policy, Buffer, try_send, Verdict, accepted, slow_consumer, apply}
use wirefan.Conn.State.{Incoming, ErrorCode, AckType, Frame, ack, error, Conn, World, set_conn}
use wirefan.Fanout.{Fanout, per_conn, sharded, Job, Pool, enqueue, take_job, shard_for}
use wirefan.Hub.Channel.{broadcast}
use wirefan.Registry.{Channel, Chans, Net}

-- The frame of `sendOpError`: a channel that is too long is not echoed.
unfoldable pub op_error : Incoming → ErrorCode → Frame
op_error msg code =
    error code msg.typ (if leb (length msg.channel) max_channel_name_len then msg.channel else [])

module _ {B S : Type 0} where
  -- `select { case c.send <- b: default: }`.
  unfoldable pub offer : ℕ → Frame → World B S → World B S
  offer who f w = let c = w.conns who in set_conn who (record c { send = (try_send f c.send).1 }) w

  -- `sendAck`.
  unfoldable pub send_ack : ℕ → AckType → Str → World B S → World B S
  unfolding offer
  send_ack who typ channel = offer who (ack typ channel)

  -- `sendError`.
  unfoldable pub send_error : ℕ → ErrorCode → World B S → World B S
  unfolding offer
  send_error who code = offer who (error code [] [])

  -- `sendOpError`.
  unfoldable pub send_op_error : ℕ → Incoming → ErrorCode → World B S → World B S
  unfolding offer
  send_op_error who msg code = offer who (op_error msg code)

  -- `Send`. The error goes to `Broadcast`, which drops it.
  unfoldable pub send : ℕ → Frame → World B S → Verdict × World B S
  send who msg w =
      let c = w.conns who in
      let r = apply c.policy msg c.send in
      if c.closed then (slow_consumer, w) else elim r.0 [
        | accepted ↦ (accepted, set_conn who (record c { send = r.1 }) w)
        | slow_consumer ↦ (
          slow_consumer,
          record (set_conn who (record c { send = r.1; close_req = true }) w) {
            dropped = suc w.dropped;
          },
        )
      ]

  -- `hub.Broadcast` to the connections.
  unfoldable pub broadcast_to : ℕ → Frame → World B S → World B S
  broadcast_to c msg w = broadcast (λ who v. (send who msg v).1) c w.net.chans w

  -- One round of the pool's worker `i`.
  unfoldable pub run_worker : ℕ → World B S → World B S
  run_worker i w = elim w.fanout [
    | per_conn ↦ w
    | sharded p ↦ elim (take_job i p) [
      | none ↦ w
      | some (j, q) ↦ broadcast_to j.ch j.msg (record w { fanout = sharded q })
    ]
  ]

  -- A send into the pool that found the queue full goes through when the worker has taken a job.
  unfoldable pub enqueue_waiting : Str → ℕ → Frame → Pool Frame → World B S → World B S
  enqueue_waiting name c msg p w = elim (run_worker (shard_for name p) w).fanout [
    | per_conn ↦ w
    | sharded q ↦ elim (enqueue name c msg q) [
      | none ↦ w
      | some q' ↦ record (run_worker (shard_for name p) w) { fanout = sharded q' }
    ]
  ]

  -- `Fanout.Broadcast`.
  unfoldable pub fan_out : ℕ → Frame → World B S → World B S
  fan_out c msg w = elim w.fanout [
    | per_conn ↦ broadcast_to c msg w
    | sharded p ↦ elim (enqueue (w.net.chans.cell c).name c msg p) [
      | some q ↦ record w { fanout = sharded q }
      | none ↦ enqueue_waiting (w.net.chans.cell c).name c msg p w
    ]
  ]
