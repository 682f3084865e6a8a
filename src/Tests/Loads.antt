-- ===== src/Tests/Loads.antt =====
-- A run of the load generator with a publisher and a subscriber.
use wirefan.Prelude.{◌≡◌, ◌<◌, refl, true, false, List, [], ◌∷◌, codes, All, str_eq, str_beq}
use wirefan.Prelude.Map.{get, put}
use wirefan.Loadtest.{
  Conn, Frame, garbled, typed, answered, no_counts, await_ack, read_all, publisher, subscriber,
  wrote, write_failed, waited, publish_all, run_role, run_session, run_conn, run_all, count_err,
  err_total, exit_code,
}
use wirefan.Loadtest.Verdict.{IsClean, exit_code_lem}

abbrev event : Frame
event = typed (codes "event") []

abbrev two : List Conn
two =
    answered (event ∷ typed (codes "subscribed") [] ∷ [])
      (record { frames = event ∷ garbled ∷ []; role = publisher (wrote ∷ wrote ∷ wrote ∷ []) })
    ∷ answered (typed (codes "subscribed") [] ∷ [])
        (record { frames = event ∷ []; role = subscriber waited })
    ∷ []

vouched : exit_code true (run_all two no_counts) ≡ 0
unfolding exit_code run_all run_conn run_session publish_all run_role read_all await_ack err_total
    str_beq
vouched = refl

exit_code_lem_example :
    All IsClean two
    × ((run_all two no_counts).connected ≡ 2)
    × (0 < (run_all two no_counts).recv)
    × (true ≡ true → 0 < (run_all two no_counts).sent)
exit_code_lem_example = exit_code_lem true two vouched

-- A session that the server answers with an error once.
limited :
    exit_code true (
      run_all
        (answered (typed (codes "subscribed") [] ∷ []) (record {
          frames = typed (codes "error") (codes "RATE_LIMITED") ∷ event ∷ [];
          role = publisher (wrote ∷ write_failed true false ∷ []);
        })
          ∷ [])
        no_counts)
    ≡ 5
unfolding exit_code run_all run_conn run_session publish_all run_role read_all await_ack count_err
    get put err_total str_beq
limited = refl
