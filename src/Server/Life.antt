-- ===== src/Server/Life.antt =====
-- internal/server/server.go: what `Run` does once its context is done, and health.go.
pub mod Shutdown
pub mod Returns
use wirefan.Prelude.{
  ℕ, zero, suc, Bool, true, false, List, [], ◌∷◌, Option, none, some, Str, codes, if◌then◌else◌,
  ltb, not, ◌&&◌,
}
use wirefan.Hub.Tracking.{Gate, new_hub, mark_draining, announce, len}
use wirefan.Fanout.{Fanout, per_conn, sharded, close}

-- What `srv.Shutdown` returns, with what `srv.Close` returns after a deadline.
pub data Outcome : Type 0 where
  stopped : Outcome
  deadline_exceeded : Option Str → Outcome
  refused : Str → Outcome

-- Where `Run` stands: in its `select`, returned from it with an error, or behind each of the calls
-- that follow, the last of which is followed by the return.
pub data Phase : Type 0 where
  selecting failed health_set marked announced drained admin_down public_down closing finished :
      Phase

-- What the outside tells `Run` at a step: whether a listener failed or the context is done, whether
-- the grace of the drain is over, whether the shutdown of the admin listener has returned, what that of
-- the public listener has returned, `none` as long as it waits, and whether the workers of the pool
-- have returned. The outcome of the admin listener is dropped.
pub record Report : Type 0 where
  pub errc : Option Str
  pub cancelled : Bool
  pub grace_over : Bool
  pub admin_done : Bool
  pub public_outcome : Option Outcome
  pub workers_done : Bool

-- `Server` with its `HealthHandler`, hub and fanout, and the upgrades that have passed their checks
-- but not `Hub.Add`.
pub record Life (M : Type 0) : Type 0 where
  pub phase : Phase
  pub is_draining : Bool
  pub upgrading : List ℕ
  pub gate : Gate
  pub admin_up : Bool
  pub public_up : Bool
  pub fan : Fanout M
  pub result : Option Str

-- `shutdownListener`.
unfoldable pub shutdown_listener : Outcome → Option Str
shutdown_listener stopped = none
shutdown_listener (deadline_exceeded closed) = closed
shutdown_listener (refused e) = some e

-- `Fanout.Close`, of a pool up to its wait for the workers.
unfoldable pub close_fanout : {M : Type 0} → Fanout M → Fanout M
close_fanout per_conn = per_conn
close_fanout (sharded p) = sharded (close p)

-- `HealthHandler.ServeHTTP`: the status.
unfoldable pub health : Bool → ℕ
health is_draining = if is_draining then 503 else 200

module _ {M : Type 0} where
  -- `New`, over the fanout and whether there is an admin address.
  unfoldable pub new_server : Fanout M → Bool → Life M
  new_server fan has_admin = record {
    phase = selecting;
    is_draining = false;
    upgrading = [];
    gate = record { hub = new_hub; sent = []; forced = [] };
    admin_up = has_admin;
    public_up = true;
    fan = fan;
    result = none;
  }

  -- The next thing that `Run` does, if it is not waiting: for the drain, which looks at the hub on every
  -- tick, for the shutdown of a listener, or for the workers of the pool.
  unfoldable pub advance_at : Phase → Report → Life M → Life M
  advance_at selecting r l = elim r.errc [
    | some e ↦ record l { phase = failed; result = some e }
    | none ↦ if r.cancelled then record l { phase = health_set; is_draining = true } else l
  ]
  advance_at health_set r l = record l { phase = marked; gate = mark_draining l.gate }
  advance_at marked r l = record l { phase = announced; gate = announce l.gate }
  advance_at announced r l =
      if ltb 0 (len l.gate.hub)
      then (if r.grace_over
          then record l { phase = drained; gate = record l.gate { forced = l.gate.hub.conns } }
          else l)
      else record l { phase = drained }
  advance_at drained r l =
      if l.admin_up && not r.admin_done
      then l
      else record l { phase = admin_down; admin_up = false }
  advance_at admin_down r l = elim r.public_outcome [
    | none ↦ l
    | some o ↦ record l { phase = public_down; public_up = false; result = shutdown_listener o }
  ]
  advance_at public_down r l = record l { phase = closing; fan = close_fanout l.fan }
  advance_at closing r l = elim l.fan [
    | per_conn ↦ record l { phase = finished }
    | sharded p ↦ if r.workers_done then record l { phase = finished } else l
  ]
  advance_at finished r l = l
  advance_at failed r l = l

  unfoldable pub advance : Report → Life M → Life M
  advance r l = advance_at l.phase r l

  -- What the other goroutines change of the server.
  unfoldable pub others : Gate × Fanout M × List ℕ → Life M → Life M
  others (gate, fan, upgrading) l = record l { gate = gate; fan = fan; upgrading = upgrading }

  -- `n` steps of `Run`, before each of which the others do something.
  unfoldable pub run : (ℕ → Report) → (ℕ → Life M → Gate × Fanout M × List ℕ) → ℕ → Life M → Life M
  run reports env zero l = l
  run reports env (suc n) l =
      let now = run reports env n l in advance (reports n) (others (env n now) now)
