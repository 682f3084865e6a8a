-- ===== src/Store.antt =====
-- internal/store: the API keys (store.go), kept in memory (memory.go), and the schema versions of the
-- SQLite file (migrate.go) that also holds the keys (sqlite.go).
pub mod Memory
pub mod Migrate
pub mod Sqlite
pub mod Open
use wirefan.Prelude.{ℕ, Option, none, some, Str}

-- `Key`; times are in nanoseconds.
pub record Key : Type 0 where
  pub id : Str
  pub name : Str
  pub secret_hash : Str
  pub created_at : ℕ
  pub revoked_at : Option ℕ
