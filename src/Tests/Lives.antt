-- ===== src/Tests/Lives.antt =====
-- A connection whose peer goes away, and a database file that is opened.
use wirefan.Prelude.{
  ◌≤◌, ◌≡◌, ◌≢◌, ◌⊎◌, refl, true, false, [], ◌++◌, Option, none, some, Str, codes, has_prefix,
  arith,
}
use wirefan.Conn.Life
use wirefan.Conn.Life.{Step, selecting, returned, receiving, start}
use wirefan.Conn.Life.Ends
use wirefan.Conn.Life.Ends.{Moves, IsIdle, run_bounded}
use wirefan.Auth.Decimal.{pos}
use wirefan.Store.Sqlite.Path.{validate_db_path}
use wirefan.Store.Migrate.{Session, check_database, migrations}
use wirefan.Store.Migrate.Laws.{quiet, Adopted}
use wirefan.Store.Open
use wirefan.Store.Open.{
  Disk, DbFile, Access, Writer, db_of, read_db, preflight, new_sqlite, new_sqlite_lem,
}
use wirefan.Store.Open.Dsn.{read_only_dsn, read_uri, plain, read_only_dsn-path}

abbrev running_conn : Life.Life
running_conn = record start {
  place = selecting;
  is_tracked = true;
  is_reading = true;
  is_writing = true;
}

abbrev peer_gone : Life.Life
peer_gone = record running_conn { is_reading = false; errc = 1 }

abbrev cancelled : Life.Life
cancelled = record peer_gone { place = receiving 1; errc = 0; is_cancelled = true }

abbrev stopped : Life.Life
stopped = record cancelled { is_writing = false; errc = 1 }

abbrev received : Life.Life
received = record stopped { place = receiving 0; errc = 0 }

abbrev freed : Life.Life
freed = record received { place = Life.released; is_released = true }

freed-Moves : Moves 6 freed
freed-Moves =
    Ends.one_more
      (Ends.one_more
        (Ends.one_more
          (Ends.one_more
            (Ends.one_more (Ends.one_more Ends.none_yet (Life.runs (Life.go refl)))
              (Life.happens (Life.read_fails refl)))
            (Life.runs (Life.pump_error 0 refl refl)))
          (Life.runs (Life.write_stops refl refl)))
        (Life.runs (Life.receive 0 0 refl refl)))
      (Life.runs (Life.release refl))

run_bounded_example :
    (6 ≤ 16) × (freed.place ≢ returned → IsIdle freed ⊎ ((k : Life.Life) × Step freed k))
run_bounded_example = run_bounded 6 freed freed-Moves

-- A WAL file that was closed cleanly and holds no table.
abbrev disk : Disk
disk = record {
  main =
      some (record { bytes = codes "SQLite"; db = record { user_version = pos 0; tables = [] } });
  wal = none;
}

abbrev toy_writer : Writer
toy_writer = record {
  write = λ d db. record { main = some (record { bytes = codes "x"; db = db }); wal = none };
  write_db = λ d db. unfold db_of read_db in refl;
}

abbrev all_works : Access
all_works = record { can_stat = true; can_open = true; can_query = true; can_connect = true }

-- The first transaction cannot be committed.
abbrev full_disk : Session
full_disk = record { can_read = true; can_begin = λ v. true; can_commit = λ v. false }

abbrev opened : Option Open.OpenError × Disk
opened = new_sqlite toy_writer full_disk quiet all_works migrations (codes "/w.db") disk

new_sqlite_lem_example :
    (opened.0 ≢ none → db_of opened.1 ≡ db_of disk)
    × ((validate_db_path (codes "/w.db") ≡ false) ⊎ (preflight all_works migrations disk ≢ none)
        → (opened.0 ≢ none) × (opened.1 ≡ disk))
    × (opened.0 ≡ none
        → (check_database migrations (db_of disk) ≡ none)
          × ((db_of opened.1).user_version ≡ pos 1)
          × Adopted (db_of disk) (db_of opened.1).tables)
new_sqlite_lem_example = new_sqlite_lem toy_writer full_disk all_works (codes "/w.db") disk

read_only_dsn-path_example :
    (rest : Str) × (read_only_dsn (codes "/a b%.db") true ≡ codes "file://" ++ rest)
    × (read_uri plain rest ≡ (codes "/a b%.db", codes "mode=ro&immutable=1&_busy_timeout=5000"))
read_only_dsn-path_example =
    read_only_dsn-path (codes "/a b%.db") true (ground arith) (unfold has_prefix in refl)
