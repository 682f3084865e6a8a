-- ===== src/Store/Open.antt =====
-- internal/store: `NewSQLite` (sqlite.go) with `preflight` (migrate.go), on the files beside a path.
pub mod Dsn
use wirefan.Prelude.{
  ℕ, zero, suc, ◌≤◌, ◌≡◌, ◌≢◌, ◌↔◌, refl, sym, ap, ◌∙◌, Bool, true, false, not, ◌&&◌, ◌||◌, ◌⊎◌,
  inl, inr, List, [], ◌∷◌, Option, none, some, Str, if◌then◌else◌, nat_beq, ltb, length,
  Option-cases, Bool-cases, List-cases, arith,
}
use wirefan.Auth.Decimal.{pos}
use wirefan.Store.Migrate.{
  Table, Db, Session, Migration, MigrateError, keys_table, create_keys, migrations, validate_from,
  check_database, check_pre_versioning, migrate, run_migrations, apply_migration, latest,
}
use wirefan.Store.Migrate.Laws.{quiet, Adopted, migrate_lem}
use wirefan.Store.Sqlite.Path.{validate_db_path}

-- The database file with its bytes and what SQLite reads in them, and the `-wal` beside it, if there
-- is one, with what SQLite reads through it.
pub record DbFile : Type 0 where
  pub bytes : Str
  pub db : Db

pub record Disk : Type 0 where
  pub main : Option DbFile
  pub wal : Option Db

abbrev pub empty_db : Db
empty_db = record { user_version = pos 0; tables = [] }

-- What a read finds of a path: its `os.Stat`, the opening and the reading of it, and SQLite's answers
-- to the read-only connection may each fail.
pub record Access : Type 0 where
  pub can_stat : Bool
  pub can_open : Bool
  pub can_query : Bool
  -- `sql.Open` of the writable connection.
  pub can_connect : Bool

pub data OpenError : Type 0 where
  bad_path no_stat no_open no_query no_connection : OpenError
  refused : MigrateError → OpenError

unfoldable pub byte_at : ℕ → Str → ℕ
byte_at i [] = 0
byte_at zero (b ∷ s) = b
byte_at (suc i) (b ∷ s) = byte_at i s

-- `isCleanWALDatabase`, of a file that can be read.
unfoldable pub is_clean_wal : Option Db → Str → Bool
is_clean_wal wal bytes = elim wal [
  | some db ↦ false
  | none ↦
      if ltb (length bytes) 20
      then false
      else nat_beq (byte_at 18 bytes) 2 && nat_beq (byte_at 19 bytes) 2
]

-- What a connection reads: an immutable one reads the file alone.
unfoldable pub read_db : Bool → Option Db → DbFile → Db
read_db immutable wal f = if immutable then f.db else elim wal [ none ↦ f.db | some db ↦ db ]

abbrev is_zero_size : Str → Bool
is_zero_size [] = true
is_zero_size (b ∷ s) = false

-- `preflight`.
unfoldable pub preflight : Access → List Migration → Disk → Option OpenError
preflight a ms d = if not a.can_stat then some no_stat else elim d.main [
  | none ↦ none
  | some f ↦
      if is_zero_size f.bytes
      then none
      else if not a.can_open
      then some no_open
      else if not a.can_query
      then some no_query
      else elim (check_database ms (read_db (is_clean_wal d.wal f.bytes) d.wal f)) [
        | none ↦ none
        | some e ↦ some (refused e)
      ]
]

-- What the writable connection finds.
unfoldable pub db_of : Disk → Db
db_of d = elim d.main [
  | none ↦ empty_db
  | some f ↦ if is_zero_size f.bytes then empty_db else read_db false d.wal f
]

-- What SQLite leaves of a disk whose file was opened with `_journal_mode=WAL`, which may write its
-- header, and then holds `db`.
pub record Writer : Type 0 where
  pub write : Disk → Db → Disk
  pub write_db : (d : Disk) (db : Db) → db_of (write d db) ≡ db

-- `NewSQLite`; `env` is what other openers do before each transaction of `migrate`.
unfoldable pub new_sqlite :
    Writer → Session → (Db → Db) → Access → List Migration → Str → Disk → Option OpenError × Disk
new_sqlite w se env a ms path d =
    if not (validate_db_path path) then (some bad_path, d) else elim (preflight a ms d) [
      | some e ↦ (some e, d)
      | none ↦
          let r = migrate se env ms (db_of d) in
          if not a.can_connect
          then (some no_connection, d)
          else (elim r.0 [ none ↦ none | some e ↦ some (refused e) ], w.write d r.1)
    ]

empty-checked : check_database migrations empty_db ≡ none
unfolding check_database check_pre_versioning latest
empty-checked = refl

-- An immutable connection is used only where it reads the same.
read_db-clean :
    (wal : Option Db) (f : DbFile) → read_db (is_clean_wal wal f.bytes) wal f ≡ read_db false wal f
unfolding read_db is_clean_wal
read_db-clean none f = ground arith
read_db-clean (some db) f = refl

preflight-checked :
    (a : Access) (d : Disk)
    → preflight a migrations d ≡ none
    → check_database migrations (db_of d) ≡ none
unfolding preflight db_of
preflight-checked a d h = elim (Option-cases d.main) [
  | inl absent ↦ ground (arith, absent, empty-checked)
  | inr (f, present) ↦ elim (Bool-cases (is_zero_size f.bytes)) [
    | inl blank ↦ ground (arith, present, blank, empty-checked)
    | inr filled ↦ ground (arith, present, filled, h, read_db-clean d.wal f)
  ]
]

-- `NewSQLite` with no other opener, whichever calls fail. Where it returns an error, the file holds what
-- it held, and where the path or the preflight is the reason, the disk is as it was, to the bytes of
-- the file's header. Without an error, the preflight has found a file that wirefan owns, and the file
-- is at version 1, with the tables that it had, with the keys table where it had none, or, if it was at
-- a negative version, with the keys table beside what it had.
pub new_sqlite_lem :
    (w : Writer) (se : Session) (a : Access) (path : Str) (d : Disk)
    → ((new_sqlite w se quiet a migrations path d).0 ≢ none
        → db_of (new_sqlite w se quiet a migrations path d).1 ≡ db_of d)
      × ((validate_db_path path ≡ false) ⊎ (preflight a migrations d ≢ none)
          → ((new_sqlite w se quiet a migrations path d).0 ≢ none)
            × ((new_sqlite w se quiet a migrations path d).1 ≡ d))
      × ((new_sqlite w se quiet a migrations path d).0 ≡ none
          → (check_database migrations (db_of d) ≡ none)
            × ((db_of (new_sqlite w se quiet a migrations path d).1).user_version ≡ pos 1)
            × Adopted (db_of d) (db_of (new_sqlite w se quiet a migrations path d).1).tables)
unfolding new_sqlite
new_sqlite_lem w se a path d = elim (Bool-cases (validate_db_path path)) [
  | inr bad ↦ (
    λ h. ground (arith, bad),
    λ why. (ground (arith, bad), ground (arith, bad)),
    λ h. absurd (ground (arith, bad, h)),
  )
  | inl good ↦ elim (Option-cases (preflight a migrations d)) [
    | inr (e, bad) ↦ (
      λ h. ground (arith, good, bad),
      λ why. (ground (arith, good, bad), ground (arith, good, bad)),
      λ h. absurd (ground (arith, good, bad, h)),
    )
    | inl fine ↦ elim (Bool-cases a.can_connect) [
      | inr off ↦ (
        λ h. ground (arith, good, fine, off),
        λ why. absurd (ground (arith, good, fine, why)),
        λ h. absurd (ground (arith, good, fine, off, h)),
      )
      | inl on_ ↦
          let r = migrate se quiet migrations (db_of d) in
          let (kept, opened) = migrate_lem se (db_of d) in
          let outcome : (new_sqlite w se quiet a migrations path d).1 ≡ w.write d r.1 =
            ground (arith, good, fine, on_) in
          let after : db_of (new_sqlite w se quiet a migrations path d).1 ≡ r.1 =
            ap db_of outcome ∙ w.write_db d r.1 in
          let same : (r.0 ≡ none) ↔ ((new_sqlite w se quiet a migrations path d).0 ≡ none) =
            (λ z. ground (arith, good, fine, on_, z), λ z. ground (arith, good, fine, on_, z)) in
          (
            λ h. after ∙ kept (λ z. h (same.0 z)),
            λ why. absurd (ground (arith, good, fine, why)),
            λ h. (
              preflight-checked a d fine,
              rw after (opened (same.1 h)).0,
              rw after (opened (same.1 h)).1,
            ),
          )
    ]
  ]
]
