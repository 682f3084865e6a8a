-- ===== src/Cli/Wiring.antt =====
-- cmd/wirefan/main.go: which implementations the flags choose.
use wirefan.Prelude.{ℕ, Option, none, some, Str, codes, if◌then◌else◌, str_eq, ◌==◌}
use wirefan.Registry.{Registry}
use wirefan.Registry.SyncMap.{new_sync_map}
use wirefan.Registry.Sharded.Implements.{new_sharded}
use wirefan.Fanout.{Fanout, per_conn, sharded, new_sharded_pool}

-- `newRegistry`; `none` is the error of an unknown kind.
unfoldable pub new_registry : Str → Option Registry
new_registry kind =
    if kind == codes "sync-map"
    then some new_sync_map
    else if kind == codes "sharded"
    then some new_sharded
    else none

-- `newFanout`, over `GOMAXPROCS`.
unfoldable pub new_fanout : {M : Type 0} → ℕ → Str → Option (Fanout M)
new_fanout procs kind =
    if kind == codes "per-conn"
    then some per_conn
    else if kind == codes "sharded"
    then some (sharded (new_sharded_pool procs))
    else none
