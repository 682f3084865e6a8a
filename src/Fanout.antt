-- ===== src/Fanout.antt =====
-- internal/fanout: how a publish reaches the subscribers of a channel.
pub mod Order
pub mod Closing
use wirefan.Prelude.{
  ℕ, zero, suc, ◌%◌, ◌<◌, ◌≡◌, refl, Bool, true, false, List, [], ◌∷◌, ◌++◌, Option, none, some,
  Str, if◌then◌else◌, ◌==◌, nat_eq, ltb, length, arith,
}
use wirefan.Registry.Fnv.{sum32}

pub record Job (M : Type 0) : Type 0 where
  pub ch : ℕ
  pub msg : M

-- `ShardedPool`; a queue holds its jobs oldest first.
pub record Pool (M : Type 0) : Type 0 where
  pub queues : ℕ → List (Job M)
  pub workers : ℕ
  pub closed : Bool

-- The two implementations of `Fanout`.
pub data Fanout (M : Type 0) : Type 0 where
  per_conn : Fanout M
  sharded : Pool M → Fanout M

abbrev pub queue_capacity : ℕ
queue_capacity = 1024

module _ {M : Type 0} where
  abbrev set_queue : ℕ → List (Job M) → Pool M → Pool M
  set_queue i q p = record p { queues = λ j. if i == j then q else p.queues j }

  -- `NewShardedPool`, without its goroutines.
  unfoldable pub new_sharded_pool : ℕ → Pool M
  new_sharded_pool workers = record { queues = λ i. []; workers = workers; closed = false }

  -- `shardFor`.
  unfoldable pub shard_for : Str → Pool M → ℕ
  shard_for name p = sum32 name % p.workers

  -- `Broadcast` on a channel of that name: `none` while the queue is full and the sender waits.
  unfoldable pub enqueue : Str → ℕ → M → Pool M → Option (Pool M)
  enqueue name c msg p =
      let i = shard_for name p in
      if p.closed
      then some p
      else if ltb (length (p.queues i)) queue_capacity
      then some (set_queue i (p.queues i ++ record { ch = c; msg = msg } ∷ []) p)
      else none

  -- One round of `run` takes the oldest job of its queue.
  unfoldable pub take_job : ℕ → Pool M → Option (Job M × Pool M)
  take_job i p = elim (p.queues i) [ [] ↦ none | j ∷ q ↦ some (j, set_queue i q p) ]

  -- `Close` up to its wait for the workers.
  unfoldable pub close : Pool M → Pool M
  close p = record p { closed = true }
