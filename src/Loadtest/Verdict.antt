-- ===== src/Loadtest/Verdict.antt =====
-- What the exit code of the load generator says of its connections (cmd/loadtest/main.go).
use wirefan.Prelude.{
  ℕ, suc, ◌+◌, ◌≤◌, ◌<◌, ◌≡◌, refl, Bool, true, false, not, ◌&&◌, ◌||◌, inl, inr, List, [], ◌∷◌,
  Option, none, some, Str, codes, str_eq, str_beq_iff, ◌==◌, length, All, Bool-cases, arith,
}
use wirefan.Prelude.Map.{Map, get, put}
use wirefan.Loadtest.{
  Counters, no_counts, Frame, garbled, typed, Tick, wrote, write_failed, interrupted, read_done,
  waited, Role, publisher, subscriber, Session, publish_all, run_role, Conn, no_dial, no_hello,
  no_subscribe, answered, count_err, await_ack, read_all, run_session, run_conn, run_all, err_total,
  exit_code,
}

-- No frame of an error.
unfoldable pub has_error : List Frame → Bool
has_error [] = false
has_error (garbled ∷ fs) = has_error fs
has_error (typed typ code ∷ fs) = typ == codes "error" || has_error fs

-- The connection noticed the loss of its socket before its duration was over and the run was
-- interrupted: a publisher by a write that failed, a subscriber by a read.
unfoldable pub is_lost : Role → Bool
is_lost (publisher []) = false
is_lost (publisher (wrote ∷ ticks)) = is_lost (publisher ticks)
is_lost (publisher (write_failed is_over is_interrupted ∷ ticks)) =
    not is_over && not is_interrupted
is_lost (subscriber interrupted) = false
is_lost (subscriber (read_done is_interrupted)) = not is_interrupted
is_lost (subscriber waited) = false

-- The connection was established, noticed no early loss of its socket, and got no error frame.
abbrev pub IsClean : Conn → Type 0
IsClean no_dial = Path Bool true false
IsClean no_hello = Path Bool true false
IsClean no_subscribe = Path Bool true false
IsClean (answered frames s) =
    (await_ack frames ≡ none) × (is_lost s.role ≡ false) × (has_error s.frames ≡ false)

-- What speaks against a run.
abbrev bad : Counters → ℕ
bad c = c.dial_failed + c.sub_failed + c.died_early + err_total c.err_by_code

err_total-count :
    (code : Str) (m : Map Str ℕ)
    → err_total (put code (suc (elim (get code m) [ none ↦ 0 | some n ↦ n ])) m) ≡ suc (err_total m)
unfolding err_total get put
err_total-count code [] = omega arith
err_total-count code ((c, n) ∷ m) = ground (arith, err_total-count code m, str_beq_iff c code)

bad-count_err : (code : Str) (c : Counters) → bad (count_err code c) ≡ suc (bad c)
unfolding count_err
bad-count_err code c = omega (arith, err_total-count code c.err_by_code)

bad-read_all :
    (fs : List Frame) (c : Counters)
    → (bad c ≤ bad (read_all fs c)) × (bad (read_all fs c) ≤ bad c → has_error fs ≡ false)
unfolding read_all has_error
bad-read_all [] c = (omega arith, λ h. refl)
bad-read_all (garbled ∷ fs) c = bad-read_all fs c
bad-read_all (typed typ code ∷ fs) c =
    let counted = bad-read_all fs (count_err code c) in
    let received = bad-read_all fs (record c { recv = suc c.recv }) in
    let skipped = bad-read_all fs c in
    elim (Bool-cases (typ == codes "error")) [
      | inl error ↦
          let more = bad-count_err code c in
          rw error (omega (arith, counted.0, more), λ h. absurd (omega (arith, h, counted.0, more)))
      | inr no_error ↦ elim (Bool-cases (typ == codes "event")) [
        | inl event ↦ rw (no_error, event) received
        | inr other ↦ rw (no_error, other) skipped
      ]
    ]

bad-publish_all :
    (ticks : List Tick) (c : Counters)
    → (bad c ≤ bad (publish_all ticks c))
      × (bad (publish_all ticks c) ≤ bad c → is_lost (publisher ticks) ≡ false)
unfolding publish_all is_lost
bad-publish_all [] c = (omega arith, λ h. refl)
bad-publish_all (wrote ∷ ticks) c = bad-publish_all ticks (record c { sent = suc c.sent })
bad-publish_all (write_failed is_over is_interrupted ∷ ticks) c = (ground arith, λ h. ground arith)

bad-run_role :
    (role : Role) (c : Counters)
    → (bad c ≤ bad (run_role role c)) × (bad (run_role role c) ≤ bad c → is_lost role ≡ false)
unfolding run_role is_lost
bad-run_role (publisher ticks) c = bad-publish_all ticks c
bad-run_role (subscriber interrupted) c = (omega arith, λ h. refl)
bad-run_role (subscriber (read_done is_interrupted)) c = (ground arith, λ h. ground arith)
bad-run_role (subscriber waited) c = (omega arith, λ h. refl)

bad-run_session :
    (s : Session) (c : Counters)
    → (bad c ≤ bad (run_session s c))
      × (bad (run_session s c) ≤ bad c → (is_lost s.role ≡ false) × (has_error s.frames ≡ false))
unfolding run_session
bad-run_session s c =
    let k : Counters = record c { connected = suc c.connected } in
    let read = bad-read_all s.frames k in
    let ran = bad-run_role s.role (read_all s.frames k) in
    (
      omega (arith, read.0, ran.0),
      λ h. (ran.1 (omega (arith, h, read.0)), read.1 (omega (arith, h, ran.0))),
    )

bad-run_conn :
    (conn : Conn) (c : Counters)
    → (bad c ≤ bad (run_conn conn c)) × (bad (run_conn conn c) ≤ bad c → IsClean conn)
unfolding run_conn
bad-run_conn no_dial c = (omega arith, λ h. absurd (omega (arith, h)))
bad-run_conn no_hello c = (omega arith, λ h. absurd (omega (arith, h)))
bad-run_conn no_subscribe c = (omega arith, λ h. absurd (omega (arith, h)))
bad-run_conn (answered frames s) c = go (await_ack frames) refl
  where
    go :
        (o : Option (Option Str))
        → await_ack frames ≡ o
        → (bad c ≤ bad (run_conn (answered frames s) c))
          × (bad (run_conn (answered frames s) c) ≤ bad c → IsClean (answered frames s))
    go none e =
        let session = bad-run_session s (record c { attempted = suc c.attempted }) in
        rw (e, run_conn)
          (session.0, λ h. let (alive, silent) = session.1 h in (refl, alive, silent))
    go (some none) e = rw (e, run_conn) (omega arith, λ h. absurd (omega (arith, h)))
    go (some (some code)) e =
        let counted =
          bad-count_err code
            (record c { attempted = suc c.attempted; sub_failed = suc c.sub_failed }) in
        rw (e, run_conn) (omega (arith, counted), λ h. absurd (omega (arith, h, counted)))

bad-run_all :
    (conns : List Conn) (c : Counters)
    → (bad c ≤ bad (run_all conns c)) × (bad (run_all conns c) ≤ bad c → All IsClean conns)
unfolding run_all
bad-run_all [] c = (omega arith, λ h. tt)
bad-run_all (conn ∷ conns) c =
    let first = bad-run_conn conn c in
    let rest = bad-run_all conns (run_conn conn c) in
    (
      omega (arith, first.0, rest.0),
      λ h. (first.1 (omega (arith, h, rest.0)), rest.1 (omega (arith, h, first.0))),
    )

-- Every attempt is counted once more: as connected, or as failed in its dial or its subscribe.
abbrev IsBalanced : Counters → Type 0
IsBalanced c = c.attempted ≡ c.connected + c.dial_failed + c.sub_failed

read_all-attempts :
    (fs : List Frame) (c : Counters)
    → ((read_all fs c).attempted ≡ c.attempted)
      × ((read_all fs c).connected ≡ c.connected)
      × ((read_all fs c).dial_failed ≡ c.dial_failed)
      × ((read_all fs c).sub_failed ≡ c.sub_failed)
unfolding read_all count_err
read_all-attempts [] c = (refl, refl, refl, refl)
read_all-attempts (garbled ∷ fs) c = read_all-attempts fs c
read_all-attempts (typed typ code ∷ fs) c = ground (
  arith,
  read_all-attempts fs (count_err code c),
  read_all-attempts fs (record c { recv = suc c.recv }),
  read_all-attempts fs c,
)

run_role-attempts :
    (role : Role) (c : Counters)
    → ((run_role role c).attempted ≡ c.attempted)
      × ((run_role role c).connected ≡ c.connected)
      × ((run_role role c).dial_failed ≡ c.dial_failed)
      × ((run_role role c).sub_failed ≡ c.sub_failed)
unfolding run_role publish_all
run_role-attempts (publisher []) c = (refl, refl, refl, refl)
run_role-attempts (publisher (wrote ∷ ticks)) c =
    run_role-attempts (publisher ticks) (record c { sent = suc c.sent })
run_role-attempts (publisher (write_failed is_over is_interrupted ∷ ticks)) c = ground arith
run_role-attempts (subscriber interrupted) c = (refl, refl, refl, refl)
run_role-attempts (subscriber (read_done is_interrupted)) c = ground arith
run_role-attempts (subscriber waited) c = (refl, refl, refl, refl)

run_conn-IsBalanced :
    (conn : Conn) (c : Counters)
    → IsBalanced c
    → IsBalanced (run_conn conn c) × ((run_conn conn c).attempted ≡ suc c.attempted)
unfolding run_conn run_session count_err
run_conn-IsBalanced no_dial c b = (omega (arith, b), refl)
run_conn-IsBalanced no_hello c b = (omega (arith, b), refl)
run_conn-IsBalanced no_subscribe c b = (omega (arith, b), refl)
run_conn-IsBalanced (answered frames s) c b =
    let k : Counters = record c { attempted = suc c.attempted; connected = suc c.connected } in
    ground (arith, b, read_all-attempts s.frames k, run_role-attempts s.role (read_all s.frames k))

run_all-IsBalanced :
    (conns : List Conn) (c : Counters)
    → IsBalanced c
    → IsBalanced (run_all conns c) × ((run_all conns c).attempted ≡ length conns + c.attempted)
unfolding run_all
run_all-IsBalanced [] c b = (b, omega arith)
run_all-IsBalanced (conn ∷ conns) c b =
    let (first, one) = run_conn-IsBalanced conn c b in
    let (all, many) = run_all-IsBalanced conns (run_conn conn c) first in
    (all, omega (arith, one, many))

exit_code-zero :
    (publishes : Bool) (c : Counters)
    → exit_code publishes c ≡ 0
    → (bad c ≡ 0) × (0 < c.recv) × (publishes ≡ true → 0 < c.sent)
unfolding exit_code
exit_code-zero publishes c h = ground (arith, h)

-- An exit code of 0 vouches for the run: every connection was established, got no error frame, and
-- noticed no loss of its socket, by a write of a publisher or a read of a subscriber that failed before
-- its duration was over and the run was interrupted; they are all among the connected ones; events were
-- received, and, where connections publish, messages were sent.
pub exit_code_lem :
    (publishes : Bool) (conns : List Conn)
    → exit_code publishes (run_all conns no_counts) ≡ 0
    → All IsClean conns
      × ((run_all conns no_counts).connected ≡ length conns)
      × (0 < (run_all conns no_counts).recv)
      × (publishes ≡ true → 0 < (run_all conns no_counts).sent)
exit_code_lem publishes conns h =
    let (none_bad, received, sent) = exit_code-zero publishes (run_all conns no_counts) h in
    let (balanced, attempts) = run_all-IsBalanced conns no_counts refl in
    (
      (bad-run_all conns no_counts).1 (omega (arith, none_bad)),
      omega (arith, none_bad, balanced, attempts),
      received,
      sent,
    )
