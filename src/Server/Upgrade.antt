-- ===== src/Server/Upgrade.antt =====
-- internal/server/upgrade.go: who may open a connection, and how many from one address.
pub mod Cap
use wirefan.Prelude.{
  ℕ, zero, suc, ◌-◌, Bool, true, false, List, [], ◌∷◌, Option, none, some, Str, if◌then◌else◌, leb,
  ◌==◌, nat_beq, str_eq,
}
use wirefan.Prelude.Map.{Map, get, put, del}
use wirefan.Store.{Key}
use wirefan.Store.Memory.{Keys, lookup_key}

-- `UpgradeHandler`: what it keeps of the open connections.
pub record UpgradeHandler : Type 0 where
  pub ip_count : Map Str ℕ
  pub ip_cap : ℕ

-- The answers that refuse an upgrade.
pub data Refusal : Type 0 where
  draining missing_key invalid_key too_many_connections : Refusal

-- `h.ipCount[ip]`, 0 where the map has no entry.
unfoldable pub count_of : Str → UpgradeHandler → ℕ
count_of ip h = elim (get ip h.ip_count) [ none ↦ 0 | some n ↦ n ]

-- The checks of `ServeHTTP` on the key.
unfoldable pub check_key : Bool → Str → Keys → Option Refusal
check_key is_draining key_id m =
    if is_draining
    then some draining
    else if key_id == []
    then some missing_key
    else elim (lookup_key key_id m) [
      | none ↦ some invalid_key
      | some k ↦ elim k.revoked_at [ some t ↦ some invalid_key | none ↦ none ]
    ]

-- The critical section that counts a connection in.
unfoldable pub enter : Str → UpgradeHandler → Option Refusal × UpgradeHandler
enter ip h =
    if leb h.ip_cap (count_of ip h)
    then (some too_many_connections, h)
    else (none, record h { ip_count = put ip (suc (count_of ip h)) h.ip_count })

-- `ServeHTTP` up to the upgrade, for a connection in the bucket `ip`.
unfoldable pub serve : Bool → Str → Str → Keys → UpgradeHandler → Option Refusal × UpgradeHandler
serve is_draining key_id ip m h = elim (check_key is_draining key_id m) [
  | some r ↦ (some r, h)
  | none ↦ enter ip h
]

-- The deferred critical section that counts it out again, however the upgrade and `Run` ended. The
-- count of a connection that was counted in is not 0, so that `-` does not stop short.
unfoldable pub leave : Str → UpgradeHandler → UpgradeHandler
leave ip h =
    let n = count_of ip h - 1 in
    record h { ip_count = if nat_beq n 0 then del ip h.ip_count else put ip n h.ip_count }
