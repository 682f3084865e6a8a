-- ===== src/Tests/Storage.antt =====
-- The key store on an SQLite file that is a list of rows and fails every third statement.
use wirefan.Prelude.{
  ℕ, suc, ◌%◌, ◌==◌, ◌≡◌, refl, Bool, true, false, [], ◌∷◌, ◌++◌, List, none, some, codes,
  if◌then◌else◌, str_eq, str_beq, nat_eq, length, ◌||◌, arith,
}
use mathlib.Core.List.{Perm}
use mathlib.Core.List.Perm
use wirefan.Prelude.Map.{get}
use wirefan.Prelude.Sets.{has}
use wirefan.Store.Sqlite.{Row, Engine, Runs, rows_of_id, set_revoked_at, is_known}
use wirefan.Store.Sqlite.Table.{table}
use wirefan.Store.Sqlite.Simulation.{create, lookup, list, revoke, Call, Holds}
use wirefan.Store.Sqlite.Refinement.{
  run_on_file, run_on_memory, calls_of, answers_of, created_ids, AllMatch, run_on_file-refines,
}

-- The rows, and how many statements were run.
abbrev File : Type 0
File = ℕ × List Row

-- Every third statement fails.
abbrev is_locked : ℕ → Bool
is_locked n = n % 3 == 2

abbrev list_engine : Engine File
list_engine = record {
  insert = λ r f.
      if is_locked f.0 || is_known r.id f.1
      then (false, (suc f.0, f.1))
      else (true, (suc f.0, f.1 ++ r ∷ []));
  select = λ id f. (if is_locked f.0 then none else some (rows_of_id id f.1), (suc f.0, f.1));
  select_all = λ f. (if is_locked f.0 then none else some f.1, (suc f.0, f.1));
  update_revoked_at = λ ms id f.
      if is_locked f.0
      then (none, (suc f.0, f.1))
      else (some (length (rows_of_id id f.1)), (suc f.0, set_revoked_at ms id f.1));
}

all_rows : (rs ls : List Row) → ls ≡ rs → Perm rs ls
all_rows rs ls e = rw e (Perm.refl rs)

list_runs : Runs list_engine
list_runs = record {
  rows = λ f. f.1;
  insert_runs = λ r f h. (ground arith, ground arith);
  insert_fails = λ r f h. ground arith;
  select_keeps = λ id f. refl;
  select_runs = λ id f rs h. ground arith;
  select_all_keeps = λ f. refl;
  select_all_runs = λ f rs h. all_rows rs f.1 (ground arith);
  update_runs = λ ms id f n h. (ground arith, ground arith);
  update_fails = λ ms id f h. ground arith;
}

abbrev calls : List Call
calls =
    create (codes "a") 1234567 (codes "first") (codes "h")
    ∷ lookup (codes "a")
    ∷ revoke (codes "b") 2000000
    ∷ revoke (codes "a") 3000000
    ∷ list
    ∷ create (codes "b") 4000000 (codes "second") (codes "i")
    ∷ list
    ∷ []

run_on_file-refines_example :
    AllMatch
      (answers_of (run_on_file list_engine calls (0, [])).0)
      (run_on_memory (calls_of (run_on_file list_engine calls (0, [])).0) []).0
    × Holds list_runs
        (run_on_file list_engine calls (0, [])).1
        (run_on_memory (calls_of (run_on_file list_engine calls (0, [])).0) []).1
unfolding list_runs table created_ids get has str_beq
run_on_file-refines_example =
    run_on_file-refines list_runs calls (0, []) [] (refl, tt, tt)
      ((refl, (refl, tt)), (refl, (refl, tt)))
