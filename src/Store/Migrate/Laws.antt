-- ===== src/Store/Migrate/Laws.antt =====
-- Opening a file brings it to the newest schema or leaves it as it was
-- (internal/store/migrate.go).
use wirefan.Prelude.{
  ℕ, zero, suc, ◌≡◌, ◌≢◌, refl, sym, true, false, ◌⊎◌, inl, inr, List, [], ◌∷◌, Option, none,
  nat_eq, str_eq, ◌==◌, Option-cases, Bool-cases, All, arith,
}
use mathlib.Core.Path.{subst}
use wirefan.Auth.Decimal.{ℤ, pos, negsuc}
use wirefan.Store.Migrate.{
  Table, Db, Session, at_least, Migration, MigrateError, keys_table, create_keys, migrations,
  validate_from, check_pre_versioning, latest, check_database, apply_migration, run_migrations,
  migrate, check_v020_keys_table, has_table, keys_name,
}

-- What the other openers of the file may do: they never take the version back.
abbrev pub Forward : (Db → Db) → Type 0
Forward env =
    (v : ℕ) (db : Db) → at_least v db.user_version ≡ true → at_least v (env db).user_version ≡ true

at_least_refl : (v : ℕ) → at_least v (pos v) ≡ true
at_least_refl v = ground arith

at_least_trans :
    (u v : ℕ) (x : ℤ) → at_least u (pos v) ≡ true → at_least v x ≡ true → at_least u x ≡ true
at_least_trans u v (pos n) h k = ground arith
at_least_trans u v (negsuc n) h k = absurd (ground arith)

at_least_between :
    (v m : ℕ) (x : ℤ) → at_least v x ≡ true → at_least m x ≡ false → at_least v (pos m) ≡ true
at_least_between v m (pos n) h k = ground arith
at_least_between v m (negsuc n) h k = absurd (ground arith)

-- A transaction that reports no error leaves the file at the version of its migration or a later one,
-- and none takes the version back.
apply_migration-reaches :
    (se : Session) (m : Migration) (db : Db)
    → (apply_migration se m db).0 ≡ none
    → at_least m.version (apply_migration se m db).1.user_version ≡ true
unfolding apply_migration
apply_migration-reaches se m db h = ground (arith, at_least_refl m.version)

apply_migration-keeps :
    (se : Session) (m : Migration) (db : Db) (v : ℕ)
    → at_least v db.user_version ≡ true
    → at_least v (apply_migration se m db).1.user_version ≡ true
unfolding apply_migration
apply_migration-keeps se m db v h = ground (arith, at_least_between v m.version db.user_version h)

run_migrations-keeps :
    (se : Session) (env : Db → Db) (ms : List Migration) (current : ℤ) (db : Db) (v : ℕ)
    → Forward env
    → at_least v db.user_version ≡ true
    → at_least v (run_migrations se env ms current db).1.user_version ≡ true
unfolding run_migrations
run_migrations-keeps se env [] current db v f h = h
run_migrations-keeps se env (m ∷ ms) current db v f h =
    let r = apply_migration se m (env db) in
    let one = apply_migration-keeps se m (env db) v (f v db h) in
    ground (
      arith,
      one,
      run_migrations-keeps se env ms current db v f h,
      run_migrations-keeps se env ms (pos m.version) r.1 v f one,
    )

run_migrations-skip :
    (se : Session) (env : Db → Db) (m : Migration) (ms : List Migration) (current : ℤ) (db : Db)
    → at_least m.version current ≡ true
    → run_migrations se env (m ∷ ms) current db ≡ run_migrations se env ms current db
unfolding run_migrations
run_migrations-skip se env m ms current db h = ground arith

run_migrations-next :
    (se : Session) (env : Db → Db) (m : Migration) (ms : List Migration) (current : ℤ) (db : Db)
    → at_least m.version current ≡ false
    → (apply_migration se m (env db)).0 ≡ none
    → run_migrations se env (m ∷ ms) current db
      ≡ run_migrations se env ms (pos m.version) (apply_migration se m (env db)).1
unfolding run_migrations
run_migrations-next se env m ms current db h k = ground arith

run_migrations-reaches :
    (se : Session) (env : Db → Db) (ms : List Migration) (current : ℤ) (db : Db)
    → Forward env
    → ((v : ℕ) → at_least v current ≡ true → at_least v db.user_version ≡ true)
    → (run_migrations se env ms current db).0 ≡ none
    → All (λ m. at_least m.version (run_migrations se env ms current db).1.user_version ≡ true) ms
unfolding run_migrations
run_migrations-reaches se env [] current db f below h = tt
run_migrations-reaches se env (m ∷ ms) current db f below h =
    elim (Bool-cases (at_least m.version current)) [
      | inl done ↦
          subst (λ r. All (λ k. at_least k.version r.1.user_version ≡ true) (m ∷ ms))
            (sym (run_migrations-skip se env m ms current db done))
            (
              run_migrations-keeps se env ms current db m.version f (below m.version done),
              run_migrations-reaches se env ms current db f below (ground arith),
            )
      | inr todo ↦ elim (Option-cases (apply_migration se m (env db)).0) [
        | inr (e, bad) ↦ absurd (ground arith)
        | inl good ↦
            let r = (apply_migration se m (env db)).1 in
            let here = apply_migration-reaches se m (env db) good in
            subst (λ r. All (λ k. at_least k.version r.1.user_version ≡ true) (m ∷ ms))
              (sym (run_migrations-next se env m ms current db todo good))
              (
                run_migrations-keeps se env ms (pos m.version) r m.version f here,
                run_migrations-reaches se env ms (pos m.version) r f
                    (λ v k. at_least_trans v m.version r.user_version k here) (ground arith),
              )
      ]
    ]

-- If `migrate` reports no error, then the file is at the version of every migration of the list or at
-- a later one, whatever other openers of the file do meanwhile, as long as they never take its version
-- back.
pub migrate-reaches :
    (se : Session) (env : Db → Db) (ms : List Migration) (db : Db)
    → Forward env
    → (migrate se env ms db).0 ≡ none
    → All (λ m. at_least m.version (migrate se env ms db).1.user_version ≡ true) ms
unfolding migrate
migrate-reaches se env ms db f h = elim (Option-cases (validate_from 0 ms)) [
  | inr (e, bad) ↦ absurd (ground arith)
  | inl good ↦ elim (Bool-cases se.can_read) [
    | inr off ↦ absurd (ground arith)
    | inl reads ↦ elim (Option-cases (check_database ms db)) [
      | inr (e, bad) ↦ absurd (ground arith)
      | inl fine ↦
          rw (good, reads, fine, migrate)
            (run_migrations-reaches se env ms db.user_version db f (λ v k. k) (ground arith))
    ]
  ]
]

abbrev pub quiet : Db → Db
quiet db = db

-- The tables of a file that was opened: those that it had, or the keys table alone where it had none.
-- A file at a negative version is not checked, and gets the keys table beside what it has.
abbrev pub Adopted : Db → List Table → Type 0
Adopted db ts =
    (ts ≡ db.tables)
    ⊎ ((db.tables ≡ []) × (ts ≡ keys_table ∷ []))
    ⊎ ((n : ℕ) × (db.user_version ≡ negsuc n) × (ts ≡ keys_table ∷ db.tables))

-- What an opener gets of a file: either a schema of version 1, or no change.
abbrev pub Opened : Db → Option MigrateError × Db → Type 0
Opened db r =
    (r.0 ≢ none → r.1 ≡ db) × (r.0 ≡ none → (r.1.user_version ≡ pos 1) × Adopted db r.1.tables)

open_first :
    (se : Session) (t : Table)
    → Opened
        (record { user_version = pos 0; tables = t ∷ [] })
        (migrate se quiet migrations (record { user_version = pos 0; tables = t ∷ [] }))
unfolding migrate validate_from check_database run_migrations apply_migration latest create_keys
    has_table check_pre_versioning
open_first se t = elim (Bool-cases (t.title == keys_name)) [
  | inr other ↦ (λ h. ground arith, λ h. absurd (ground arith))
  | inl ours ↦ elim (Option-cases (check_v020_keys_table t)) [
    | inr (e, bad) ↦ (λ h. ground arith, λ h. absurd (ground arith))
    | inl good ↦ (λ h. ground arith, λ h. (ground arith, inl (ground arith)))
  ]
]

-- Opening a file, with the source's own list of migrations and no other opener: an error leaves it as
-- it was, whichever call fails; otherwise it is at version 1, with the tables of `Adopted`.
pub migrate_lem : (se : Session) (db : Db) → Opened db (migrate se quiet migrations db)
unfolding migrate validate_from check_database run_migrations apply_migration latest create_keys
    has_table check_pre_versioning
migrate_lem se db = go db.user_version db.tables
  where
    go :
        (v : ℤ) (ts : List Table)
        → Opened
            (record { user_version = v; tables = ts })
            (migrate se quiet migrations (record { user_version = v; tables = ts }))
    go (pos zero) [] = (λ h. ground arith, λ h. (ground arith, inr (inl (refl, ground arith))))
    go (pos zero) (t ∷ []) = open_first se t
    go (pos zero) (t ∷ u ∷ ts) = (λ h. ground arith, λ h. absurd (ground arith))
    go (pos (suc zero)) ts = (λ h. ground arith, λ h. (ground arith, inl (ground arith)))
    go (pos (suc (suc v))) ts = (λ h. ground arith, λ h. absurd (ground arith))
    go (negsuc n) ts = elim (Bool-cases (has_table keys_name ts)) [
      | inl has_it ↦ (λ h. ground arith, λ h. (ground arith, inl (ground arith)))
      | inr new ↦ (λ h. ground arith, λ h. (ground arith, inr (inr (n, refl, ground arith))))
    ]
