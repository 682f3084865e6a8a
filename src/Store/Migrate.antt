-- ===== src/Store/Migrate.antt =====
-- internal/store/migrate.go: which files are opened, and how they are brought to the newest schema.
-- A database is what its queries return: `PRAGMA user_version`, which may be negative, and the tables
-- of `sqlite_master` with their `PRAGMA table_info`.
pub mod Laws
use wirefan.Auth.Decimal.{ℤ, pos, negsuc}
use wirefan.Prelude.{
  ℕ, zero, suc, Bool, true, false, not, ◌||◌, List, [], ◌∷◌, ◌++◌, Option, none, some, Str, codes,
  if◌then◌else◌, ltb, leb, nat_beq, nat_eq, str_eq, ◌==◌,
}

-- `keyColumn`.
pub record KeyColumn : Type 0 where
  pub name : Str
  pub not_null : ℕ
  pub pk : ℕ

pub record Table : Type 0 where
  pub title : Str
  pub columns : List KeyColumn

pub record Db : Type 0 where
  pub user_version : ℤ
  pub tables : List Table

-- Which of the calls of the driver work: the reads of `checkDatabase`, and, in the transaction of the
-- migration to a version, all up to the second read of the version, and the writing of the version
-- with `COMMIT`.
pub record Session : Type 0 where
  pub can_read : Bool
  pub can_begin : ℕ → Bool
  pub can_commit : ℕ → Bool

-- `v <= current`.
abbrev pub at_least : ℕ → ℤ → Bool
at_least v (pos n) = leb v n
at_least v (negsuc n) = false

-- `current > v`.
abbrev pub is_above : ℕ → ℤ → Bool
is_above v (pos n) = ltb v n
is_above v (negsuc n) = false

-- `current == 0`.
abbrev pub is_zero : ℤ → Bool
is_zero (pos n) = nat_beq n 0
is_zero (negsuc n) = false

-- `migration`; `apply` says which tables its statements leave, or `none` when one of them fails.
pub record Migration : Type 0 where
  pub version : ℕ
  pub apply : List Table → Option (List Table)

pub data MigrateError : Type 0 where
  bad_list unreadable newer foreign bad_keys : MigrateError
  failed : ℕ → MigrateError

abbrev column : Str → ℕ → ℕ → KeyColumn
column name not_null pk = record { name = name; not_null = not_null; pk = pk }

-- `v020KeysColumns`.
abbrev pub v020_keys_columns : List KeyColumn
v020_keys_columns =
    column (codes "created_at") 1 0
    ∷ column (codes "id") 0 1
    ∷ column (codes "name") 1 0
    ∷ column (codes "revoked_at") 0 0
    ∷ column (codes "secret_hash") 1 0
    ∷ []

abbrev pub keys_name : Str
keys_name = codes "keys"

-- The table of `createKeysTableSQL`, its columns in the order of the statement.
abbrev pub keys_table : Table
keys_table = record {
  title = keys_name;
  columns =
      column (codes "id") 0 1
      ∷ column (codes "name") 1 0
      ∷ column (codes "secret_hash") 1 0
      ∷ column (codes "created_at") 1 0
      ∷ column (codes "revoked_at") 0 0
      ∷ [];
}

unfoldable pub has_table : Str → List Table → Bool
has_table title [] = false
has_table title (t ∷ ts) = t.title == title || has_table title ts

-- `CREATE TABLE IF NOT EXISTS keys`.
unfoldable pub create_keys : List Table → Option (List Table)
unfolding has_table
create_keys ts = if has_table keys_name ts then some ts else some (keys_table ∷ ts)

-- `migrations`.
abbrev pub migrations : List Migration
migrations = record { version = 1; apply = create_keys } ∷ []

-- `validateMigrations`, from index `i` on.
unfoldable pub validate_from : ℕ → List Migration → Option MigrateError
validate_from i [] = none
validate_from i (m ∷ ms) =
    let rest = validate_from (suc i) ms in if not (m.version == suc i) then some bad_list else rest

-- `formatColumns`, for one column.
unfoldable pub format_column : KeyColumn → Str
format_column c =
    c.name
    ++ ((if nat_beq c.pk 0 then [] else codes " pk")
        ++ (if nat_beq c.not_null 0 then [] else codes " notnull"))

-- `formatColumns`.
unfoldable pub format_columns : List KeyColumn → Str
unfolding format_column
format_columns [] = []
format_columns (c ∷ []) = format_column c
format_columns (c ∷ d ∷ cs) = format_column c ++ (codes ", " ++ format_columns (d ∷ cs))

-- `cols[i].name < cols[j].name`, on bytes.
unfoldable pub name_less : Str → Str → Bool
name_less s [] = false
name_less [] (d ∷ t) = true
name_less (c ∷ s) (d ∷ t) =
    let rest = name_less s t in if ltb c d then true else if ltb d c then false else rest

insert_column : KeyColumn → List KeyColumn → List KeyColumn
insert_column c [] = c ∷ []
insert_column c (d ∷ ds) =
    let rest = insert_column c ds in if name_less d.name c.name then d ∷ rest else c ∷ d ∷ ds

-- `sort.Slice`; the names of a table's columns differ, so that its order is the only one.
unfoldable pub sort_columns : List KeyColumn → List KeyColumn
unfolding insert_column name_less
sort_columns [] = []
sort_columns (c ∷ cs) = insert_column c (sort_columns cs)

-- `checkV020KeysTable`.
unfoldable pub check_v020_keys_table : Table → Option MigrateError
check_v020_keys_table t =
    if format_columns (sort_columns t.columns) == format_columns v020_keys_columns
    then none
    else some bad_keys

-- `checkPreVersioningDatabase`.
unfoldable pub check_pre_versioning : List Table → Option MigrateError
check_pre_versioning [] = none
check_pre_versioning (t ∷ []) =
    if t.title == keys_name then check_v020_keys_table t else some foreign
check_pre_versioning (t ∷ u ∷ ts) = some foreign

-- The version of the last migration, or 0.
unfoldable pub latest : List Migration → ℕ
latest [] = 0
latest (m ∷ []) = m.version
latest (m ∷ n ∷ ms) = latest (n ∷ ms)

-- `checkDatabase` on what it reads; without an error it returns the version.
unfoldable pub check_database : List Migration → Db → Option MigrateError
check_database ms db =
    if is_above (latest ms) db.user_version
    then some newer
    else if is_zero db.user_version
    then check_pre_versioning db.tables
    else none

-- `applyMigration`: one transaction, which is rolled back where a statement of it fails.
unfoldable pub apply_migration : Session → Migration → Db → Option MigrateError × Db
apply_migration se m db =
    if not (se.can_begin m.version)
    then (some (failed m.version), db)
    else if at_least m.version db.user_version
    then (none, db)
    else elim (m.apply db.tables) [
      | none ↦ (some (failed m.version), db)
      | some ts ↦
          if se.can_commit m.version
          then (none, record { user_version = pos m.version; tables = ts })
          else (some (failed m.version), db)
    ]

-- The loop of `migrate`; `env` is what other openers of the file do before each transaction.
unfoldable pub run_migrations :
    Session → (Db → Db) → List Migration → ℤ → Db → Option MigrateError × Db
run_migrations se env [] current db = (none, db)
run_migrations se env (m ∷ ms) current db =
    let skipped = run_migrations se env ms current db in
    let r = apply_migration se m (env db) in
    let rest = run_migrations se env ms (pos m.version) r.1 in
    if at_least m.version current
    then skipped
    else elim r.0 [ some e ↦ (some e, r.1) | none ↦ rest ]

-- `migrate`.
unfoldable pub migrate : Session → (Db → Db) → List Migration → Db → Option MigrateError × Db
migrate se env ms db = elim (validate_from 0 ms) [
  | some e ↦ (some e, db)
  | none ↦ if not se.can_read then (some unreadable, db) else elim (check_database ms db) [
    | some e ↦ (some e, db)
    | none ↦ run_migrations se env ms db.user_version db
  ]
]
