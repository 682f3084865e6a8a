-- ===== src/Loadtest.antt =====
-- cmd/loadtest/main.go: what a run of the load generator counts, and its exit code. A connection is
-- what the network makes of it; the counters are atomic and only added to, so that the connections
-- are counted one after the other.
pub mod Verdict
use wirefan.Prelude.{
  ℕ, zero, suc, ◌+◌, Bool, true, false, not, ◌&&◌, ◌||◌, List, [], ◌∷◌, Option, none, some, Str,
  codes, if◌then◌else◌, str_eq, ◌==◌, ltb, nat_beq,
}
use wirefan.Prelude.Map.{Map, get, put}

-- `counters`.
pub record Counters : Type 0 where
  pub attempted : ℕ
  pub connected : ℕ
  pub dial_failed : ℕ
  pub sub_failed : ℕ
  pub died_early : ℕ
  pub sent : ℕ
  pub recv : ℕ
  pub err_by_code : Map Str ℕ

abbrev pub no_counts : Counters
no_counts = record {
  attempted = 0;
  connected = 0;
  dial_failed = 0;
  sub_failed = 0;
  died_early = 0;
  sent = 0;
  recv = 0;
  err_by_code = [];
}

-- A frame that a read gives: no JSON, or its `type` and `code`. Where the frames end, the read fails.
pub data Frame : Type 0 where
  garbled : Frame
  typed : Str → Str → Frame

-- A tick of a publisher whose write succeeds, or fails, and then whether its duration was over and
-- whether the run had been interrupted.
pub data Tick : Type 0 where
  wrote : Tick
  write_failed : (is_over is_interrupted : Bool) → Tick

-- What a subscriber's wait ends with: the interrupt, its reader, and then whether the run had been
-- interrupted, or the duration.
pub data Wait : Type 0 where
  interrupted : Wait
  read_done : (is_interrupted : Bool) → Wait
  waited : Wait

-- A publisher with the ticks of its loop before `pubCtx` is done, or a subscriber.
pub data Role : Type 0 where
  publisher : List Tick → Role
  subscriber : Wait → Role

-- What becomes of an established connection: the frames that its reader gets, and its loop.
pub record Session : Type 0 where
  pub frames : List Frame
  pub role : Role

-- What becomes of a connection: the dial fails, the hello or the subscribe does, or there is an
-- answer to it, which may be followed by a session.
pub data Conn : Type 0 where
  no_dial no_hello no_subscribe : Conn
  answered : List Frame → Session → Conn

-- `countErr`.
unfoldable pub count_err : Str → Counters → Counters
count_err code c = record c {
  err_by_code =
      put code (suc (elim (get code c.err_by_code) [ none ↦ 0 | some n ↦ n ])) c.err_by_code;
}

-- The loop that waits for the answer to the subscribe: `none` is the ack, and `some` a failure with
-- the code to count.
unfoldable pub await_ack : List Frame → Option (Option Str)
await_ack [] = some none
await_ack (garbled ∷ fs) = await_ack fs
await_ack (typed typ code ∷ fs) =
    let rest = await_ack fs in
    if typ == codes "subscribed"
    then none
    else if typ == codes "error"
    then some (if code == [] then none else some code)
    else rest

-- The goroutine that reads.
unfoldable pub read_all : List Frame → Counters → Counters
read_all [] c = c
read_all (garbled ∷ fs) c = read_all fs c
read_all (typed typ code ∷ fs) c =
    if typ == codes "error"
    then read_all fs (count_err code c)
    else if typ == codes "event"
    then read_all fs (record c { recv = suc c.recv })
    else read_all fs c

-- The loop of a publisher.
unfoldable pub publish_all : List Tick → Counters → Counters
publish_all [] c = c
publish_all (wrote ∷ ticks) c = publish_all ticks (record c { sent = suc c.sent })
publish_all (write_failed is_over is_interrupted ∷ ticks) c =
    if not is_over && not is_interrupted then record c { died_early = suc c.died_early } else c

-- The `if isPublisher` with its `else`.
unfoldable pub run_role : Role → Counters → Counters
run_role (publisher ticks) c = publish_all ticks c
run_role (subscriber interrupted) c = c
run_role (subscriber (read_done is_interrupted)) c =
    if is_interrupted then c else record c { died_early = suc c.died_early }
run_role (subscriber waited) c = c

-- `runConn` behind the ack: the reader and the loop only add to the counters, and `runConn` waits for
-- both.
unfoldable pub run_session : Session → Counters → Counters
run_session s c = run_role s.role (read_all s.frames (record c { connected = suc c.connected }))

-- `runConn`.
unfoldable pub run_conn : Conn → Counters → Counters
run_conn conn c =
    let k : Counters = record c { attempted = suc c.attempted } in
    elim conn [
      | no_dial ↦ record k { dial_failed = suc k.dial_failed }
      | no_hello ↦ record k { sub_failed = suc k.sub_failed }
      | no_subscribe ↦ record k { sub_failed = suc k.sub_failed }
      | answered frames s ↦ elim (await_ack frames) [
        | none ↦ run_session s k
        | some none ↦ record k { sub_failed = suc k.sub_failed }
        | some (some code) ↦ count_err code (record k { sub_failed = suc k.sub_failed })
      ]
    ]

-- The connections of `main`.
unfoldable pub run_all : List Conn → Counters → Counters
run_all [] c = c
run_all (conn ∷ conns) c = run_all conns (run_conn conn c)

-- `errTotal`.
unfoldable pub err_total : Map Str ℕ → ℕ
err_total [] = 0
err_total ((code, n) ∷ m) = n + err_total m

-- The exit code of `report`; `publishes` is `*publishers > 0`.
unfoldable pub exit_code : Bool → Counters → ℕ
exit_code publishes c =
    if nat_beq c.connected 0
    then 2
    else if ltb 0 c.dial_failed || ltb 0 c.sub_failed
    then 3
    else if ltb 0 c.died_early
    then 7
    else if publishes && nat_beq c.sent 0
    then 4
    else if ltb 0 (err_total c.err_by_code)
    then 5
    else if nat_beq c.recv 0
    then 6
    else 0
