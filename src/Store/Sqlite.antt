-- ===== src/Store/Sqlite.antt =====
-- internal/store/sqlite.go: the API keys in an SQLite file. The driver and SQLite are an `Engine`,
-- which runs the statements of the code on a file of type `S`.
pub mod Path
pub mod Table
pub mod Simulation
pub mod Refinement
use wirefan.Prelude.{
  ℕ, ◌*◌, ◌/◌, ◌≡◌, Bool, true, false, List, [], ◌∷◌, ◌++◌, map, Option, none, some, Str,
  if◌then◌else◌, str_eq, ◌==◌, ◌||◌, nat_beq, length,
}
use mathlib.Core.List.{Perm}
use wirefan.Store.{Key}

-- A row of the table `keys`; times are in milliseconds.
pub record Row : Type 0 where
  pub id : Str
  pub name : Str
  pub secret_hash : Str
  pub created_at : ℕ
  pub revoked_at : Option ℕ

-- The statements `INSERT INTO keys`, `SELECT … WHERE id=?`, `SELECT …`, and `UPDATE keys SET
-- revoked_at=? WHERE id=?` with its number of rows, where `none` and `false` are errors. `S` is the file
-- together with all that decides whether a statement fails, which goes on when one has failed.
pub record Engine (S : Type 0) : Type 0 where
  pub insert : Row → S → Bool × S
  pub select : Str → S → Option (List Row) × S
  pub select_all : S → Option (List Row) × S
  pub update_revoked_at : ℕ → Str → S → Option ℕ × S

abbrev nanoseconds : ℕ
nanoseconds = 1000000

-- `t.UnixMilli()` and `time.UnixMilli(ms)`, after 1970.
unfoldable pub unix_milli : ℕ → ℕ
unix_milli t = t / nanoseconds

unfoldable pub from_milli : ℕ → ℕ
from_milli ms = ms * nanoseconds

-- `Scan` of a row into a `Key`.
unfoldable pub scan : Row → Key
scan r = record {
  id = r.id;
  name = r.name;
  secret_hash = r.secret_hash;
  created_at = from_milli r.created_at;
  revoked_at = elim r.revoked_at [ none ↦ none | some ms ↦ some (from_milli ms) ];
}

-- What a call returns; `failed` is an error that is not `ErrKeyNotFound`.
pub data Reply (A : Type 0) : Type 0 where
  done : A → Reply A
  not_found failed : Reply A

module _ {S : Type 0} (e : Engine S) where
  -- `CreateKey`, over the id that `ulid.Make` gives and the time; on an error it returns the key too.
  unfoldable pub create_key : Str → ℕ → Str → Str → S → Key × Reply Unit × S
  create_key id now name secret_hash s =
      let k : Key = record {
        id = id;
        name = name;
        secret_hash = secret_hash;
        created_at = now;
        revoked_at = none;
      } in
      let row : Row = record {
        id = k.id;
        name = k.name;
        secret_hash = k.secret_hash;
        created_at = unix_milli k.created_at;
        revoked_at = none;
      } in
      let r = e.insert row s in (k, if r.0 then done tt else failed, r.1)

  -- `LookupKey`; `QueryRow` takes the first row and is `ErrNoRows` without one.
  unfoldable pub lookup_key : Str → S → Reply Key × S
  lookup_key id s =
      let r = e.select id s in
      (elim r.0 [ none ↦ failed | some [] ↦ not_found | some (row ∷ rows) ↦ done (scan row) ], r.1)

  -- `ListKeys`.
  unfoldable pub list_keys : S → Reply (List Key) × S
  list_keys s =
      let r = e.select_all s in (elim r.0 [ none ↦ failed | some rs ↦ done (map scan rs) ], r.1)

  -- `RevokeKey`.
  unfoldable pub revoke_key : Str → ℕ → S → Reply Unit × S
  revoke_key id now s =
      let r = e.update_revoked_at (unix_milli now) id s in
      (elim r.0 [ none ↦ failed | some n ↦ if nat_beq n 0 then not_found else done tt ], r.1)

-- The rows that a `WHERE id=?` picks, and the table with their times of revocation set.
unfoldable pub rows_of_id : Str → List Row → List Row
rows_of_id id [] = []
rows_of_id id (r ∷ rs) = if r.id == id then r ∷ rows_of_id id rs else rows_of_id id rs

unfoldable pub set_revoked_at : ℕ → Str → List Row → List Row
set_revoked_at ms id [] = []
set_revoked_at ms id (r ∷ rs) =
    (if r.id == id then record r { revoked_at = some ms } else r) ∷ set_revoked_at ms id rs

unfoldable pub is_known : Str → List Row → Bool
is_known id [] = false
is_known id (r ∷ rs) = r.id == id || is_known id rs

-- What SQLite documents of the statements. The table is a set of rows, here a list whose order no
-- statement gives away: a `SELECT` without `ORDER BY` returns its rows in any order. The primary key
-- `id` stands once, so that a `WHERE id=?` picks one row or none. A statement that fails, for whatever reason and whether the next one fails or not,
-- leaves the rows as they are.
pub record Runs {S : Type 0} (e : Engine S) : Type 0 where
  pub rows : S → List Row
  pub insert_runs :
      (r : Row) (s : S)
      → (e.insert r s).0 ≡ true
      → (is_known r.id (rows s) ≡ false) × (rows (e.insert r s).1 ≡ rows s ++ r ∷ [])
  pub insert_fails : (r : Row) (s : S) → (e.insert r s).0 ≡ false → rows (e.insert r s).1 ≡ rows s
  pub select_keeps : (id : Str) (s : S) → rows (e.select id s).1 ≡ rows s
  pub select_runs :
      (id : Str) (s : S) (rs : List Row) → (e.select id s).0 ≡ some rs → rs ≡ rows_of_id id (rows s)
  pub select_all_keeps : (s : S) → rows (e.select_all s).1 ≡ rows s
  pub select_all_runs : (s : S) (rs : List Row) → (e.select_all s).0 ≡ some rs → Perm rs (rows s)
  pub update_runs :
      (ms : ℕ) (id : Str) (s : S) (n : ℕ)
      → (e.update_revoked_at ms id s).0 ≡ some n
      → (n ≡ length (rows_of_id id (rows s)))
        × (rows (e.update_revoked_at ms id s).1 ≡ set_revoked_at ms id (rows s))
  pub update_fails :
      (ms : ℕ) (id : Str) (s : S)
      → (e.update_revoked_at ms id s).0 ≡ none
      → rows (e.update_revoked_at ms id s).1 ≡ rows s
