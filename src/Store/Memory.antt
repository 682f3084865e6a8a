-- ===== src/Store/Memory.antt =====
-- internal/store/memory.go.
use wirefan.Prelude.{
  ℕ, ◌≡◌, ◌≢◌, refl, Bool, true, false, inl, inr, List, Option, none, some, Str, if◌then◌else◌,
  str_eq, str_beq_iff, Option-cases, Bool-cases, ◌==◌, ◌↔◌, arith,
}
use wirefan.Prelude.Map.{Map, get, put, values, get-put}
use wirefan.Store.{Key}

abbrev pub Keys : Type 0
Keys = Map Str Key

-- `CreateKey`, over the id that `ulid.Make` gives and the time.
unfoldable pub create_key : Str → ℕ → Str → Str → Keys → Key × Keys
create_key id now name secret_hash m =
    let k : Key = record {
      id = id;
      name = name;
      secret_hash = secret_hash;
      created_at = now;
      revoked_at = none;
    } in
    (k, put id k m)

-- `LookupKey`; `none` is `ErrKeyNotFound`.
unfoldable pub lookup_key : Str → Keys → Option Key
lookup_key id m = get id m

-- `ListKeys`, in the order of creation; Go's order is any.
unfoldable pub list_keys : Keys → List Key
list_keys m = values m

-- `RevokeKey`; false is `ErrKeyNotFound`.
unfoldable pub revoke_key : Str → ℕ → Keys → Bool × Keys
revoke_key id now m = elim (get id m) [
  | none ↦ (false, m)
  | some k ↦ (true, put id (record k { revoked_at = some now }) m)
]

-- A created key is found under its id as it was returned, and every other id as before.
pub lookup-create_key :
    (id : Str) (now : ℕ) (name secret_hash : Str) (m : Keys) (j : Str)
    → lookup_key j (create_key id now name secret_hash m).1
      ≡ (if id == j then some (create_key id now name secret_hash m).0 else lookup_key j m)
unfolding lookup_key create_key
lookup-create_key id now name secret_hash m j = get-put id j _ m

-- `RevokeKey` succeeds exactly on a known id; then the key differs in its time of revocation only,
-- and every other key is as before.
pub lookup-revoke_key :
    (id : Str) (now : ℕ) (m : Keys) (j : Str)
    → ((revoke_key id now m).0 ≡ true ↔ lookup_key id m ≢ none)
      × (lookup_key j (revoke_key id now m).1 ≡ (
          if id == j
          then elim (lookup_key id m) [
            | none ↦ none
            | some k ↦ some (record k { revoked_at = some now })
          ]
          else lookup_key j m))
unfolding lookup_key revoke_key
lookup-revoke_key id now m j = elim (Option-cases (get id m)) [
  | inl absent ↦ ((λ h. ground arith, λ h. ground arith), ground (arith, str_beq_iff id j))
  | inr (k, known) ↦ (
    (λ h. ground arith, λ h. ground arith),
    ground (arith, get-put id j (record k { revoked_at = some now }) m),
  )
]

-- The key of that id is known and revoked.
abbrev pub IsRevoked : Str → Keys → Type 0
IsRevoked id m = (k : Key) × (t : ℕ) × (lookup_key id m ≡ some k) × (k.revoked_at ≡ some t)

-- One call of the store by another goroutine. `ulid.Make` does not give an id twice.
pub data Step (m : Keys) : Keys → Type 0 where
  creates :
      (id : Str) (now : ℕ) (name secret_hash : Str)
      → lookup_key id m ≡ none
      → Step m (create_key id now name secret_hash m).1
  revokes : (id : Str) (now : ℕ) → Step m (revoke_key id now m).1

pub data Steps : Keys → Keys → Type 0 where
  stop : (m : Keys) → Steps m m
  more : {m n o : Keys} → Steps m n → Step n o → Steps m o

Step-IsRevoked : (id : Str) {m n : Keys} → Step m n → IsRevoked id m → IsRevoked id n
Step-IsRevoked id {m} (creates j now name hash fresh) (k, t, known, off) =
    (k, t, ground (arith, lookup-create_key j now name hash m id, str_beq_iff j id), off)
Step-IsRevoked id {m} (revokes j now) (k, t, known, off) =
    let after = (lookup-revoke_key j now m id).1 in
    elim (Bool-cases (j == id)) [
      | inl this ↦
          let same : j ≡ id = (str_beq_iff j id).0 this in
          (record k { revoked_at = some now }, now, ground (arith, after, same), refl)
      | inr other ↦ (k, t, ground (arith, after), off)
    ]

-- A revoked key stays revoked, whatever calls follow.
pub IsRevoked-for_good : (id : Str) {m n : Keys} → Steps m n → IsRevoked id m → IsRevoked id n
IsRevoked-for_good id (stop m) r = r
IsRevoked-for_good id (more s st) r = Step-IsRevoked id st (IsRevoked-for_good id s r)
