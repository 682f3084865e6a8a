-- ===== src/Tests/Shutdown.antt =====
-- A server with a pool and one connection is shut down.
use wirefan.Prelude.{
  ℕ, ◌≡◌, refl, true, false, [], ◌∷◌, none, some, Str, codes, str_eq, nat_eq, zero, suc, str_beq,
}
use wirefan.Prelude.Map.{get}
use wirefan.Prelude.Sets.{has, add, remove}
use wirefan.Store.Memory.{Keys, lookup_key}
use wirefan.Hub.Tracking.{mark_draining, announce, len, admit, add_conn}
use wirefan.Fanout.{Fanout, sharded, new_sharded_pool, close}
use wirefan.Server.Upgrade.{UpgradeHandler, draining, serve, check_key, enter, count_of}
use wirefan.Server.Life.{
  Life, Report, deadline_exceeded, new_server, advance, advance_at, health, close_fanout,
}
use wirefan.Server.Life.Shutdown
use wirefan.Server.Life.Shutdown.{is_open, Reach, fanout_last}

abbrev over : Report
over = record {
  errc = none;
  cancelled = true;
  grace_over = true;
  admin_done = true;
  public_outcome = some (deadline_exceeded none);
  workers_done = true;
}

abbrev key_of : ℕ → Str
key_of c = codes "k"

abbrev pool : Fanout ℕ
pool = sharded (new_sharded_pool 2)

abbrev keys : Keys
keys =
    (
      codes "k",
      record { id = codes "k"; name = []; secret_hash = []; created_at = 1; revoked_at = none },
    )
    ∷ []

abbrev handler : UpgradeHandler
handler = record { ip_count = []; ip_cap = 1 }

abbrev upgraded : Life ℕ
upgraded = record (new_server pool true) { upgrading = 4 ∷ [] }

abbrev joined : Life ℕ
joined = record upgraded { upgrading = remove 4 (4 ∷ []); gate = (admit key_of 4 upgraded.gate).1 }

abbrev advance_times : ℕ → Life ℕ → Life ℕ
advance_times zero l = l
advance_times (suc n) l = advance over (advance_times n l)

abbrev down : Life ℕ
down = advance_times 7 joined

advance_times-Reach :
    (n : ℕ)
    → Reach key_of key_of pool true joined
    → Reach key_of key_of pool true (advance_times n joined)
advance_times-Reach zero r = r
advance_times-Reach (suc n) r = Shutdown.later (advance_times-Reach n r) (Shutdown.main over)

joined-Reach : Reach key_of key_of pool true joined
unfolding new_server has serve check_key enter lookup_key get str_beq count_of
joined-Reach =
    Shutdown.later
      (Shutdown.later Shutdown.start (Shutdown.upgrade 4 (codes "k") [] keys handler refl refl))
      (Shutdown.join 4 refl)

fanout_last_example :
    (down.admin_up ≡ false)
    × (down.public_up ≡ false)
    × (health down.is_draining ≡ 503)
    × ((key_id ip : Str) (m : Keys) (h : UpgradeHandler)
        → serve down.is_draining key_id ip m h ≡ (some draining, h))
    × ((c : ℕ) → (admit key_of c down.gate).0 ≡ false)
    × ((c : ℕ) → has c down.gate.hub.conns ≡ true → has c down.gate.forced ≡ true)
fanout_last_example =
    fanout_last key_of key_of pool true down (unfold new_sharded_pool in refl)
      (advance_times-Reach 7 joined-Reach)
      (unfold advance advance_at new_server close_fanout close new_sharded_pool mark_draining
          announce len admit add_conn get add in
        refl)
