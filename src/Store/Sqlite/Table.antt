-- ===== src/Store/Sqlite/Table.antt =====
-- internal/store/sqlite.go: the table that holds the keys of a memory store (memory.go), and what the
-- statements do to it.
use wirefan.Prelude.{
  ℕ, ◌≡◌, refl, false, List, [], ◌∷◌, ◌++◌, map, none, some, Str, str_eq, str_beq_iff, Option-cases,
  inl, inr, arith,
}
use wirefan.Prelude.Map.{get, get_of_not-has, put, keys, values}
use wirefan.Prelude.Sets.{IsDistinct}
use wirefan.Store.{Key}
use wirefan.Store.Memory.{Keys}
use wirefan.Store.Sqlite.{Row, unix_milli, from_milli, scan, rows_of_id, set_revoked_at, is_known}

-- The row of a key, as `CreateKey` and `RevokeKey` write its times.
unfoldable pub row_of : Key → Row
row_of k = record {
  id = k.id;
  name = k.name;
  secret_hash = k.secret_hash;
  created_at = unix_milli k.created_at;
  revoked_at = elim k.revoked_at [ none ↦ none | some t ↦ some (unix_milli t) ];
}

unfoldable pub table : Keys → List Row
table [] = []
table ((id, k) ∷ m) = row_of k ∷ table m

-- A key with its times cut to milliseconds.
unfoldable pub rounded : Key → Key
rounded k = record k {
  created_at = from_milli (unix_milli k.created_at);
  revoked_at = elim k.revoked_at [ none ↦ none | some t ↦ some (from_milli (unix_milli t)) ];
}

-- Every key stands under its own id.
abbrev pub WellKeyed : Keys → Type 0
WellKeyed [] = Unit
WellKeyed ((id, k) ∷ m) = (k.id ≡ id) × WellKeyed m

pub WellKeyed-put :
    (id : Str) (k : Key) (m : Keys) → k.id ≡ id → WellKeyed m → WellKeyed (put id k m)
unfolding put
WellKeyed-put id k [] e w = (e, tt)
WellKeyed-put id k ((j, l) ∷ m) e w = ground (arith, str_beq_iff j id, WellKeyed-put id k m e w.1)

pub WellKeyed-get : (id : Str) (k : Key) (m : Keys) → WellKeyed m → get id m ≡ some k → k.id ≡ id
unfolding get
WellKeyed-get id k [] w h = absurd (ground arith)
WellKeyed-get id k ((j, l) ∷ m) w h = ground (arith, str_beq_iff j id, WellKeyed-get id k m w.1)

pub scan-row_of : (k : Key) → scan (row_of k) ≡ rounded k
unfolding scan row_of rounded
scan-row_of k = elim (Option-cases k.revoked_at) [ inl e ↦ rw e refl | inr (t, e) ↦ rw e refl ]

pub scan-table : (m : Keys) → map scan (table m) ≡ map rounded (values m)
unfolding table
scan-table [] = refl
scan-table ((id, k) ∷ m) = ground (arith, scan-row_of k, scan-table m)

-- An id without a key has no row.
pub is_known-table :
    (id : Str) (m : Keys) → WellKeyed m → get id m ≡ none → is_known id (table m) ≡ false
unfolding is_known table row_of get
is_known-table id [] w h = refl
is_known-table id ((j, k) ∷ m) w h = ground (arith, is_known-table id m w.1)

-- A new key is a row at the end.
pub table-put_new :
    (id : Str) (k : Key) (m : Keys)
    → get id m ≡ none
    → table (put id k m) ≡ table m ++ row_of k ∷ []
unfolding table get put
table-put_new id k [] h = refl
table-put_new id k ((j, l) ∷ m) h = ground (arith, table-put_new id k m)

-- No row is picked by an id that has no key, and none is changed by it.
pub rows_of_id-absent :
    (id : Str) (m : Keys) → WellKeyed m → get id m ≡ none → rows_of_id id (table m) ≡ []
unfolding rows_of_id table row_of get
rows_of_id-absent id [] w h = refl
rows_of_id-absent id ((j, k) ∷ m) w h = ground (arith, rows_of_id-absent id m w.1)

pub set_revoked_at-absent :
    (ms : ℕ) (id : Str) (m : Keys)
    → WellKeyed m
    → get id m ≡ none
    → set_revoked_at ms id (table m) ≡ table m
unfolding set_revoked_at table row_of get
set_revoked_at-absent ms id [] w h = refl
set_revoked_at-absent ms id ((j, k) ∷ m) w h = ground (arith, set_revoked_at-absent ms id m w.1)

-- The row of an id is that of its key.
pub rows_of_id-known :
    (id : Str) (k : Key) (m : Keys)
    → WellKeyed m
    → IsDistinct (keys m)
    → get id m ≡ some k
    → rows_of_id id (table m) ≡ row_of k ∷ []
unfolding rows_of_id table row_of get
rows_of_id-known id k [] w d h = absurd (ground arith)
rows_of_id-known id k ((j, l) ∷ m) w d h = ground (
  arith,
  str_beq_iff j id,
  get_of_not-has j m,
  rows_of_id-absent id m w.1,
  rows_of_id-known id k m w.1 d.1,
)

-- A revocation of a key changes its row as the statement does.
pub set_revoked_at-known :
    (now : ℕ) (id : Str) (k : Key) (m : Keys)
    → WellKeyed m
    → IsDistinct (keys m)
    → get id m ≡ some k
    → set_revoked_at (unix_milli now) id (table m)
      ≡ table (put id (record k { revoked_at = some now }) m)
unfolding set_revoked_at table row_of get put
set_revoked_at-known now id k [] w d h = absurd (ground arith)
set_revoked_at-known now id k ((j, l) ∷ m) w d h = ground (
  arith,
  str_beq_iff j id,
  get_of_not-has j m,
  set_revoked_at-absent (unix_milli now) id m w.1,
  set_revoked_at-known now id k m w.1 d.1,
)
