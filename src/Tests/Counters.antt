-- ===== src/Tests/Counters.antt =====
-- A tick of the stats loop with two subscribers (internal/hub/stats.go).
use wirefan.Prelude.{false, [], ◌∷◌, some, nat_eq, str_eq}
use wirefan.Conn.Handler.{Server}
use wirefan.Registry.{Registry}
use wirefan.Registry.SyncMap.{new_sync_map}
use wirefan.Stats.{Sources, stats_channel}
use wirefan.Tests.Samples.{toy_libs, fresh_server}

abbrev R : Registry
R = new_sync_map

abbrev src : Sources R.State
src = record {
  gauge = 2;
  channel_source = some R.len;
  marshal = λ s. s.channels ∷ s.published ∷ [];
  ulid = λ n. n ∷ [];
}

-- The channel is registered, and connections 0 and 1 are on it.
abbrev watched : Server toy_libs R
watched = record (fresh_server R) {
  net = record {
    chans = record {
      cell = λ c. record { name = stats_channel; subscribers = 0 ∷ 1 ∷ []; deleted = false };
      next = 1;
    };
    reg = (R.get_or_create stats_channel (fresh_server R).net).1.reg;
  };
}
