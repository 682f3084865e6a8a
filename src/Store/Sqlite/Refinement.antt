-- ===== src/Store/Sqlite/Refinement.antt =====
-- internal/store/sqlite.go against memory.go over runs of calls of `Store` (store.go).
use wirefan.Prelude.{
  ℕ, ◌≡◌, refl, false, List, [], ◌∷◌, none, some, Str, if◌then◌else◌, str_eq, str_beq_iff, ◌==◌,
  Option-cases, inl, inr, All, arith,
}
use wirefan.Prelude.Map.{get, put, get-put}
use wirefan.Prelude.Sets.{has, IsDistinct}
use wirefan.Store.{Key}
use wirefan.Store.Memory
use wirefan.Store.Memory.{Keys}
use wirefan.Store.Sqlite.{Engine, Runs}
use wirefan.Store.Sqlite.Simulation.{
  Call, create, lookup, list, revoke, Answer, on_memory, on_file, Matches, Holds, IsFresh,
  on_file-Simulates,
}

-- A run of calls on a file: those that did not report an error, with what they returned.
module _ {S : Type 0} (e : Engine S) where
  unfoldable pub run_on_file : List Call → S → List (Call × Answer) × S
  run_on_file [] s = ([], s)
  run_on_file (c ∷ cs) s =
      let (a, t) = on_file e c s in
      let (rest, u) = run_on_file cs t in elim a [ none ↦ (rest, u) | some x ↦ ((c, x) ∷ rest, u) ]

unfoldable pub run_on_memory : List Call → Keys → List Answer × Keys
run_on_memory [] m = ([], m)
run_on_memory (c ∷ cs) m =
    let (a, n) = on_memory c m in let (rest, o) = run_on_memory cs n in (a ∷ rest, o)

-- The ids of the creations of a run.
unfoldable pub created_ids : List Call → List Str
created_ids [] = []
created_ids (create id now name hash ∷ cs) = id ∷ created_ids cs
created_ids (lookup id ∷ cs) = created_ids cs
created_ids (list ∷ cs) = created_ids cs
created_ids (revoke id now ∷ cs) = created_ids cs

-- `ulid.Make` gives an id once.
abbrev pub AreFresh : List Call → Keys → Type 0
AreFresh cs m = IsDistinct (created_ids cs) × All (λ id. get id m ≡ none) (created_ids cs)

pub calls_of : List (Call × Answer) → List Call
calls_of [] = []
calls_of ((c, a) ∷ rest) = c ∷ calls_of rest

pub answers_of : List (Call × Answer) → List Answer
answers_of [] = []
answers_of ((c, a) ∷ rest) = a ∷ answers_of rest

AreFresh-head : (c : Call) (cs : List Call) (m : Keys) → AreFresh (c ∷ cs) m → IsFresh c m
unfolding created_ids
AreFresh-head (create id now name hash) cs m f = f.1.0
AreFresh-head (lookup id) cs m f = tt
AreFresh-head list cs m f = tt
AreFresh-head (revoke id now) cs m f = tt

AreFresh-skip : (c : Call) (cs : List Call) (m : Keys) → AreFresh (c ∷ cs) m → AreFresh cs m
unfolding created_ids
AreFresh-skip (create id now name hash) cs m f = (f.0.1, f.1.1)
AreFresh-skip (lookup id) cs m f = f
AreFresh-skip list cs m f = f
AreFresh-skip (revoke id now) cs m f = f

absent-put :
    (id : Str) (k : Key) (m : Keys) (ids : List Str)
    → has id ids ≡ false
    → All (λ j. get j m ≡ none) ids
    → All (λ j. get j (put id k m) ≡ none) ids
unfolding has
absent-put id k m [] h a = tt
absent-put id k m (j ∷ ids) h a = (
  ground (arith, get-put id j k m, str_beq_iff id j, str_beq_iff j id),
  absent-put id k m ids (ground arith) a.1,
)

absent-revoke :
    (id : Str) (now : ℕ) (m : Keys) (ids : List Str)
    → All (λ j. get j m ≡ none) ids
    → All (λ j. get j (Memory.revoke_key id now m).1 ≡ none) ids
absent-revoke id now m [] a = tt
absent-revoke id now m (j ∷ ids) a =
    let after : get j (Memory.revoke_key id now m).1 ≡ (
        if id == j
        then elim (get id m) [ none ↦ none | some k ↦ some (record k { revoked_at = some now }) ]
        else get j m) =
      unfold Memory.lookup_key in (Memory.lookup-revoke_key id now m j).1 in
    (ground (arith, after, str_beq_iff id j), absent-revoke id now m ids a.1)

AreFresh-next :
    (c : Call) (cs : List Call) (m : Keys) → AreFresh (c ∷ cs) m → AreFresh cs (on_memory c m).1
unfolding created_ids on_memory Memory.create_key Memory.lookup_key
AreFresh-next (create id now name hash) cs m f =
    (f.0.1, absent-put id _ m (created_ids cs) f.0.0 f.1.1)
AreFresh-next (lookup id) cs m f = elim (Option-cases (get id m)) [
  | inl e ↦ rw (e, on_memory) f
  | inr (k, e) ↦ rw (e, on_memory) f
]
AreFresh-next list cs m f = f
AreFresh-next (revoke id now) cs m f = (f.0, absent-revoke id now m (created_ids cs) f.1)

run_on_file-failed :
    {S : Type 0} (e : Engine S) (c : Call) (cs : List Call) (s : S)
    → (on_file e c s).0 ≡ none
    → run_on_file e (c ∷ cs) s ≡ run_on_file e cs (on_file e c s).1
unfolding run_on_file
run_on_file-failed e c cs s h = rw (h, run_on_file) refl

run_on_file-answered :
    {S : Type 0} (e : Engine S) (c : Call) (cs : List Call) (a : Answer) (s : S)
    → (on_file e c s).0 ≡ some a
    → run_on_file e (c ∷ cs) s
      ≡ ((c, a) ∷ (run_on_file e cs (on_file e c s).1).0, (run_on_file e cs (on_file e c s).1).1)
unfolding run_on_file
run_on_file-answered e c cs a s h = rw (h, run_on_file) refl

-- The answers of a run, one by one.
abbrev pub AllMatch : List Answer → List Answer → Type 0
AllMatch [] [] = Unit
AllMatch [] (y ∷ ys) = ⊥
AllMatch (x ∷ xs) [] = ⊥
AllMatch (x ∷ xs) (y ∷ ys) = Matches x y × AllMatch xs ys

-- Refinement: whatever calls are made, those that report no error are answered as a memory store that
-- gets only them answers them, but that keys that are read have their times cut to milliseconds and
-- are listed in any order; a call that reports an error changes no key, whether later calls fail or
-- not; and the file then holds what that store holds. The ids of the creations are new and not given
-- twice.
pub run_on_file-refines :
    {S : Type 0} {e : Engine S} (b : Runs e) (cs : List Call) (s : S) (m : Keys)
    → Holds b s m
    → AreFresh cs m
    → AllMatch
        (answers_of (run_on_file e cs s).0)
        (run_on_memory (calls_of (run_on_file e cs s).0) m).0
      × Holds b (run_on_file e cs s).1 (run_on_memory (calls_of (run_on_file e cs s).0) m).1
unfolding run_on_memory calls_of answers_of
run_on_file-refines b [] s m h f = unfold run_on_file in (tt, h)
run_on_file-refines {e = e} b (c ∷ cs) s m h f =
    elim (on_file-Simulates b c s m h (AreFresh-head c cs m f)) [
      | inl (bad, holds) ↦
          rw (run_on_file-failed e c cs s bad)
            (run_on_file-refines b cs (on_file e c s).1 m holds (AreFresh-skip c cs m f))
      | inr (a, answered, match_, holds) ↦
          let rest =
            run_on_file-refines b cs (on_file e c s).1 (on_memory c m).1 holds
              (AreFresh-next c cs m f) in
          rw (run_on_file-answered e c cs a s answered) ((match_, rest.0), rest.1)
    ]
