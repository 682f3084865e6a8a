-- ===== src/Store/Sqlite/Simulation.antt =====
-- internal/store/sqlite.go against memory.go: the two implementations of `Store` (store.go).
use wirefan.Prelude.{
  ℕ, ◌≡◌, refl, ap, ◌∙◌, List, map, Option, none, some, Str, if◌then◌else◌, str_eq, Option-cases,
  Bool-cases, ◌⊎◌, inl, inr, arith,
}
use mathlib.Core.List.{Perm}
use mathlib.Core.List.Perm
use mathlib.Core.Path.{subst}
use wirefan.Prelude.Map.{get, put, keys, put-IsDistinct}
use wirefan.Prelude.Sets.{IsDistinct}
use wirefan.Store.{Key}
use wirefan.Store.Memory
use wirefan.Store.Memory.{Keys}
use wirefan.Store.Sqlite
use wirefan.Store.Sqlite.{Row, Engine, Runs, Reply, done, not_found, failed, scan}
use wirefan.Store.Sqlite.Table.{
  row_of, table, rounded, WellKeyed, WellKeyed-put, WellKeyed-get, scan-row_of, scan-table,
  table-put_new, rows_of_id-absent, rows_of_id-known, set_revoked_at-absent, set_revoked_at-known,
}

-- A call of the interface `Store`; a creation with the id that `ulid.Make` gives it.
pub data Call : Type 0 where
  create : Str → ℕ → Str → Str → Call
  lookup : Str → Call
  list : Call
  revoke : Str → ℕ → Call

-- What a call that does not fail returns; `missing` is `ErrKeyNotFound`.
pub data Answer : Type 0 where
  created found : Key → Answer
  listed : List Key → Answer
  revoked missing : Answer

unfoldable pub on_memory : Call → Keys → Answer × Keys
on_memory (create id now name hash) m =
    let (k, n) = Memory.create_key id now name hash m in (created k, n)
on_memory (lookup id) m = elim (Memory.lookup_key id m) [
  | none ↦ (missing, m)
  | some k ↦ (found k, m)
]
on_memory list m = (listed (Memory.list_keys m), m)
on_memory (revoke id now) m =
    let (ok, n) = Memory.revoke_key id now m in (if ok then revoked else missing, n)

-- `none` is an error of the file.
module _ {S : Type 0} (e : Engine S) where
  unfoldable pub on_file : Call → S → Option Answer × S
  on_file (create id now name hash) s =
      let (k, r, t) = Sqlite.create_key e id now name hash s in
      (elim r [ done u ↦ some (created k) | not_found ↦ none | failed ↦ none ], t)
  on_file (lookup id) s =
      let (r, t) = Sqlite.lookup_key e id s in
      (elim r [ done k ↦ some (found k) | not_found ↦ some missing | failed ↦ none ], t)
  on_file list s =
      let (r, t) = Sqlite.list_keys e s in
      (elim r [ done ks ↦ some (listed ks) | not_found ↦ none | failed ↦ none ], t)
  on_file (revoke id now) s =
      let (r, t) = Sqlite.revoke_key e id now s in
      (elim r [ done u ↦ some revoked | not_found ↦ some missing | failed ↦ none ], t)

-- The answer of the file and that of the memory store: keys that are read have their times cut to
-- milliseconds, and both lists of keys may have any order.
pub data Matches : Answer → Answer → Type 0 where
  same_created : (k : Key) → Matches (created k) (created k)
  same_found : (k : Key) → Matches (found (rounded k)) (found k)
  same_listed : (ks ls : List Key) → Perm ks (map rounded ls) → Matches (listed ks) (listed ls)
  same_revoked : Matches revoked revoked
  same_missing : Matches missing missing

-- The file holds the keys of the memory store.
abbrev pub Holds : {S : Type 0} {e : Engine S} → Runs e → S → Keys → Type 0
Holds b s m = (b.rows s ≡ table m) × WellKeyed m × IsDistinct (keys m)

-- The ids of the creations have no key yet.
abbrev pub IsFresh : Call → Keys → Type 0
IsFresh (create id now name hash) m = get id m ≡ none
IsFresh (lookup id) m = Unit
IsFresh list m = Unit
IsFresh (revoke id now) m = Unit

module _ {S : Type 0} {e : Engine S} (b : Runs e) where
  -- The call reports an error and leaves the keys, or it answers as the memory store does and both
  -- stores hold the same keys behind it.
  abbrev pub Simulates : Call → S → Keys → Type 0
  Simulates c s m =
      (((on_file e c s).0 ≡ none) × Holds b (on_file e c s).1 m)
      ⊎ ((a : Answer) × ((on_file e c s).0 ≡ some a)
          × Matches a (on_memory c m).0
          × Holds b (on_file e c s).1 (on_memory c m).1)

  create-Simulates :
      (id : Str) (now : ℕ) (name hash : Str) (s : S) (m : Keys)
      → Holds b s m
      → get id m ≡ none
      → Simulates (create id now name hash) s m
  unfolding on_file on_memory Memory.create_key Sqlite.create_key
  create-Simulates id now name hash s m h fresh =
      let k : Key = record {
        id = id;
        name = name;
        secret_hash = hash;
        created_at = now;
        revoked_at = none;
      } in
      let row = row_of k in
      unfold row_of in
      elim (Bool-cases (e.insert (row_of k) s).0) [
        | inr bad ↦ inl (ground arith, (b.insert_fails (row_of k) s bad ∙ h.0, h.1, h.2))
        | inl ran ↦
            let (unknown, rows) = b.insert_runs (row_of k) s ran in
            let stored : b.rows (e.insert (row_of k) s).1 ≡ table (put id k m) =
              ground (arith, rows, table-put_new id k m fresh) in
            inr (
              created k,
              ground arith,
              same_created k,
              (stored, WellKeyed-put id k m refl h.1, put-IsDistinct id k m h.2),
            )
      ]

  lookup-Simulates : (id : Str) (s : S) (m : Keys) → Holds b s m → Simulates (lookup id) s m
  unfolding on_file on_memory Sqlite.lookup_key Memory.lookup_key
  lookup-Simulates id s m h =
      let kept = b.select_keeps id s ∙ h.0 in
      elim (Option-cases (e.select id s).0) [
        | inl bad ↦ inl (ground arith, (kept, h.1, h.2))
        | inr (rs, ran) ↦
            let picked = b.select_runs id s rs ran in
            elim (Option-cases (get id m)) [
              | inl unknown ↦ inr (
                missing,
                ground (arith, rows_of_id-absent id m h.1 unknown),
                rw (unknown, on_memory) same_missing,
                rw (unknown, on_memory) (kept, h.1, h.2),
              )
              | inr (k, known) ↦ inr (
                found (rounded k),
                ground (arith, rows_of_id-known id k m h.1 h.2 known, scan-row_of k),
                rw (known, on_memory) (same_found k),
                rw (known, on_memory) (kept, h.1, h.2),
              )
            ]
      ]

  list-Simulates : (s : S) (m : Keys) → Holds b s m → Simulates list s m
  unfolding on_file on_memory Sqlite.list_keys Memory.list_keys
  list-Simulates s m h =
      let kept = b.select_all_keeps s ∙ h.0 in
      elim (Option-cases (e.select_all s).0) [
        | inl bad ↦ inl (ground arith, (kept, h.1, h.2))
        | inr (rs, ran) ↦ inr (
          listed (map scan rs),
          ground arith,
          same_listed _ _ (
              subst (λ ls. Perm (map scan rs) ls) (ap (map scan) h.0 ∙ scan-table m)
                (Perm.map scan (b.select_all_runs s rs ran))),
          (kept, h.1, h.2),
        )
      ]

  revoke-Simulates :
      (id : Str) (now : ℕ) (s : S) (m : Keys) → Holds b s m → Simulates (revoke id now) s m
  unfolding on_file on_memory Sqlite.revoke_key Memory.revoke_key
  revoke-Simulates id now s m h =
      let ms = Sqlite.unix_milli now in
      elim (Option-cases (e.update_revoked_at ms id s).0) [
        | inl bad ↦ inl (ground arith, (b.update_fails ms id s bad ∙ h.0, h.1, h.2))
        | inr (n, ran) ↦
            let (count, rows) = b.update_runs ms id s n ran in
            elim (Option-cases (get id m)) [
              | inl unknown ↦ inr (
                missing,
                ground (arith, count, rows_of_id-absent id m h.1 unknown),
                rw (unknown, on_memory, Memory.revoke_key) same_missing,
                rw (unknown, on_memory, Memory.revoke_key)
                    (ground (arith, rows, set_revoked_at-absent ms id m h.1 unknown), h.1, h.2),
              )
              | inr (k, known) ↦
                  let k_off : Key = record k { revoked_at = some now } in
                  let named = WellKeyed-get id k m h.1 known in
                  inr (
                    revoked,
                    ground (arith, count, rows_of_id-known id k m h.1 h.2 known),
                    rw (known, on_memory, Memory.revoke_key) same_revoked,
                    rw (known, on_memory, Memory.revoke_key)
                        (
                          ground (arith, rows, set_revoked_at-known now id k m h.1 h.2 known),
                          WellKeyed-put id k_off m named h.1,
                          put-IsDistinct id k_off m h.2,
                        ),
                  )
            ]
      ]

  pub on_file-Simulates :
      (c : Call) (s : S) (m : Keys) → Holds b s m → IsFresh c m → Simulates c s m
  on_file-Simulates (create id now name hash) s m h fresh =
      create-Simulates id now name hash s m h fresh
  on_file-Simulates (lookup id) s m h fresh = lookup-Simulates id s m h
  on_file-Simulates list s m h fresh = list-Simulates s m h
  on_file-Simulates (revoke id now) s m h fresh = revoke-Simulates id now s m h
