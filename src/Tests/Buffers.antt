-- ===== src/Tests/Buffers.antt =====
-- Runs of internal/conn/policy.go, internal/fanout, internal/ratelimit and of the channel names.
use wirefan.Prelude.{
  ℕ, ltb→lt, ◌+◌, ◌≢◌, ◌<◌, ◌≤◌, ◌≡◌, refl, true, false, ◌↔◌, [], ◌∷◌, ◌++◌, none, some, Str, codes,
  if◌then◌else◌, str_eq, nat_eq, nat_beq, str_beq, length,
}
use wirefan.Prelude.Map.{keys}
use wirefan.Prelude.Sets.{has, IsDistinct}
use wirefan.Conn.Names.{
  validate_channel_name, validate_channel_name_iff, max_channel_name_len, IsPrintable,
}
use wirefan.Conn.Policy.{Buffer}
use wirefan.Conn.Handler.{Server}
use wirefan.Fanout.{Pool, enqueue, close, take_job, shard_for, new_sharded_pool}
use wirefan.Fanout.Closing.{Closing, begin_close, Turn, works, Turns, none_yet, one_more, left}
use wirefan.Fanout.Closing.Ends.{close-ends}
use wirefan.Fanout.Order
use wirefan.Fanout.Order.{Traffic, of_channel, in_order}
use wirefan.Ratelimit.{Limiter}
use wirefan.Registry.Fnv
use wirefan.Registry.SyncMap.{new_sync_map}
use wirefan.Tests.Samples.{toy_libs, fresh_server}

-- A full buffer.
abbrev full_buffer : Buffer ℕ
full_buffer = record { queue = 1 ∷ 2 ∷ []; capacity = 2 }

-- Two jobs in a pool of three workers.
abbrev name_of : ℕ → Str
name_of c = codes "news"

abbrev empty_traffic : Traffic ℕ
empty_traffic = record { pool = new_sharded_pool 3; taken = []; delivered = [] }

abbrev queued : Pool ℕ
queued = record (new_sharded_pool 3) {
  queues = λ j.
      if nat_beq (shard_for {M = ℕ} (codes "news") (new_sharded_pool 3)) j
      then record { ch = 0; msg = 7 } ∷ []
      else [];
}

abbrev one_waiting : Traffic ℕ
one_waiting = record { pool = queued; taken = record { ch = 0; msg = 7 } ∷ []; delivered = [] }

open_pool : empty_traffic.pool.closed ≡ false
unfolding new_sharded_pool
open_pool = refl

queued_ok : enqueue (codes "news") 0 7 (new_sharded_pool 3) ≡ some queued
unfolding enqueue new_sharded_pool
queued_ok = refl

waiting-Reach : Order.Reach name_of 3 one_waiting
waiting-Reach = Order.later Order.start (Order.publish 0 7 queued open_pool queued_ok)

in_order_example :
    (of_channel 0 one_waiting.delivered
        ++ of_channel 0 (queued.queues (shard_for (codes "news") queued))
      ≡ of_channel 0 one_waiting.taken)
    × (queued.queues (shard_for (codes "news") queued) ≡ []
        → of_channel 0 one_waiting.delivered ≡ of_channel 0 one_waiting.taken)
in_order_example = in_order name_of 3 one_waiting 0 waiting-Reach

-- The pool with that job is closed, and a worker takes it.
abbrev news_shard : ℕ
news_shard = shard_for {M = ℕ} (codes "news") (new_sharded_pool 3)

abbrev closing : Closing ℕ
closing = record {
  pool = record queued {
    queues = λ k. if nat_beq news_shard k then [] else queued.queues k;
    closed = true;
  };
  returned = λ i. false;
  delivered = record { ch = 0; msg = 7 } ∷ [];
}

closing_turn : Turns (begin_close one_waiting) 1 closing
unfolding begin_close close take_job shard_for new_sharded_pool Fnv.sum32
closing_turn = one_more none_yet (
    works news_shard (record { ch = 0; msg = 7 }) closing.pool (ltb→lt news_shard 3 refl) refl refl)

close-ends_example :
    (1 + left 3 closing ≡ left 3 (begin_close one_waiting))
    × (left 3 closing ≢ 0 → (u : Closing ℕ) × Turn closing u)
    × (left 3 closing ≡ 0
        → ((i : ℕ) → i < 3 → closing.returned i ≡ true)
          × ((c : ℕ) → of_channel c closing.delivered ≡ of_channel c one_waiting.taken)
          × ((c : ℕ) (msg : ℕ) → enqueue (name_of c) c msg closing.pool ≡ some closing.pool))
close-ends_example =
    close-ends name_of 3 one_waiting 1 closing waiting-Reach (ltb→lt 0 3 refl) closing_turn

-- Two keys at a limiter.
abbrev two_keys : Limiter ℕ
two_keys = record {
  entries =
      (codes "a", record { lim = 1; last_seen = 3 })
      ∷ (codes "b", record { lim = 0; last_seen = 90 })
      ∷ [];
  rps = 5;
  burst = 9;
  ttl = 60;
}

two_keys-IsDistinct : IsDistinct (keys two_keys.entries)
two_keys-IsDistinct = unfold has str_beq in (refl, (refl, tt))

-- A broadcast to two of three connections.
abbrev two_listen : Server toy_libs new_sync_map
two_listen = record (fresh_server new_sync_map) {
  net = record {
    chans = record {
      cell = λ c. record { name = codes "news"; subscribers = 0 ∷ 1 ∷ []; deleted = false };
      next = 1;
    };
    reg = new_sync_map.empty;
  };
}

validate_channel_name_iff_example : (validate_channel_name (codes "news") ≡ none) ↔ (
    (0 < length (codes "news"))
    × (length (codes "news") ≤ max_channel_name_len)
    × IsPrintable (codes "news"))
validate_channel_name_iff_example = validate_channel_name_iff (codes "news")
