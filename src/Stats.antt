-- ===== src/Stats.antt =====
-- internal/hub/stats.go and `SnapshotBasic` of internal/metrics/prom.go: the counters that are sent
-- to the subscribers of `_wirefan-stats`.
pub mod Delivery
use wirefan.Prelude.{ℕ, suc, ◌+◌, List, [], ◌∷◌, Option, none, some, Str, codes}
use wirefan.Prelude.Map.{Map}
use wirefan.Conn.Send.{broadcast_to}
use wirefan.Conn.State.{Frame, event, World}
use wirefan.Registry.{Registry}

-- The values under the keys `connections`, `channels`, `published`, `messages_published_total` and
-- `dropped`.
pub record Snapshot : Type 0 where
  pub connections : ℕ
  pub channels : ℕ
  pub published : ℕ
  pub messages_published_total : ℕ
  pub dropped : ℕ

-- `channelCount`, where the source is what `SetChannelSource` has stored.
unfoldable pub channel_count {ℓ} : {S : Type ℓ} → Option (S → ℕ) → S → ℕ
channel_count source s = elim source [ none ↦ 0 | some fn ↦ fn s ]

-- `readVecTotal`, over the children of a vector by their labels.
unfoldable pub read_vec_total : Map Str ℕ → ℕ
read_vec_total [] = 0
read_vec_total ((label, n) ∷ vec) = n + read_vec_total vec

abbrev pub stats_channel : Str
stats_channel = codes "_wirefan-stats"

-- What the loop calls: the gauge of the open connections, the source of the channel count,
-- `json.Marshal` of the data, and `ulid.Make`.
pub record Sources (S : Type 0) : Type 0 where
  pub gauge : ℕ
  pub channel_source : Option (S → ℕ)
  pub marshal : Snapshot → Str
  pub ulid : ℕ → Str

-- What the `select` of the loop takes.
pub data Choice : Type 0 where
  cancelled ticked : Choice

module _ {B : Type 0} (R : Registry) (src : Sources R.State) where
  -- `SnapshotBasic`. `Dropped` has the one child that the code counts on.
  unfoldable pub snapshot_basic : World B R.State → Snapshot
  snapshot_basic w = record {
    connections = src.gauge;
    channels = channel_count src.channel_source w.net.reg;
    published = w.published;
    messages_published_total = w.published;
    dropped = read_vec_total ((codes "slow_consumer", w.dropped) ∷ []);
  }

  -- The event of a tick.
  unfoldable pub stats_event : World B R.State → Frame
  stats_event w = event stats_channel (src.marshal (snapshot_basic w)) (src.ulid w.minted)

  -- The world after `GetOrCreate`.
  unfoldable pub with_channel : World B R.State → World B R.State
  with_channel w = record w { net = (R.get_or_create stats_channel w.net).1 }

  -- One tick of `PublishStatsLoop`.
  unfoldable pub publish_stats : World B R.State → World B R.State
  publish_stats w =
      let v = with_channel w in
      broadcast_to (R.get_or_create stats_channel w.net).0 (stats_event v)
        (record v { minted = suc v.minted })

  -- `PublishStatsLoop`, over what its `select` takes in turn.
  unfoldable pub publish_stats_loop : List Choice → World B R.State → World B R.State
  publish_stats_loop [] w = w
  publish_stats_loop (cancelled ∷ choices) w = w
  publish_stats_loop (ticked ∷ choices) w = publish_stats_loop choices (publish_stats w)
