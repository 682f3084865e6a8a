-- ===== src/Fanout/Order.antt =====
-- No publish to a sharded pool is lost or overtaken by a later one to the same channel
-- (internal/fanout/sharded.go).
use wirefan.Prelude.{
  ℕ, ◌≡◌, refl, ap, false, List, [], ◌∷◌, ◌++◌, append_assoc, append-nil, ◌≢◌, some, Str,
  if◌then◌else◌, nat_eq, nat_beq, nat_beq_iff, arith,
}
use wirefan.Fanout.{Job, Pool, new_sharded_pool, shard_for, enqueue, take_job, close}

-- The pool with what was accepted and what its workers have handed to `hub.Broadcast`, in order.
pub record Traffic (M : Type 0) : Type 0 where
  pub pool : Pool M
  pub taken : List (Job M)
  pub delivered : List (Job M)

module _ {M : Type 0} (names : ℕ → Str) where
  -- A publisher or a worker makes a step; publishers find the pool open.
  pub data Step (t : Traffic M) : Traffic M → Type 0 where
    publish :
        (c : ℕ) (msg : M) (p : Pool M)
        → t.pool.closed ≡ false
        → enqueue (names c) c msg t.pool ≡ some p
        → Step t (record {
          pool = p;
          taken = t.taken ++ record { ch = c; msg = msg } ∷ [];
          delivered = t.delivered;
        })
    work :
        (i : ℕ) (j : Job M) (p : Pool M)
        → take_job i t.pool ≡ some (j, p)
        → Step t (record { pool = p; taken = t.taken; delivered = t.delivered ++ j ∷ [] })
    shut : Step t (record t { pool = close t.pool })

  pub data Reach (workers : ℕ) : Traffic M → Type 0 where
    start : Reach workers (record { pool = new_sharded_pool workers; taken = []; delivered = [] })
    later : {s t : Traffic M} → Reach workers s → Step s t → Reach workers t

-- The jobs for one channel.
pub of_channel : {M : Type 0} → ℕ → List (Job M) → List (Job M)
of_channel c [] = []
of_channel c (j ∷ js) = if nat_beq j.ch c then j ∷ of_channel c js else of_channel c js

of_channel-append :
    {M : Type 0} (c : ℕ) (xs ys : List (Job M))
    → of_channel c (xs ++ ys) ≡ of_channel c xs ++ of_channel c ys
unfolding of_channel
of_channel-append c [] ys = refl
of_channel-append c (x ∷ xs) ys = ground (arith, of_channel-append c xs ys)

module _ {M : Type 0} (names : ℕ → Str) where
  home : ℕ → Pool M → ℕ
  home c p = shard_for (names c) p

  -- For one channel, what was delivered and what still waits in its shard make up what was taken;
  -- and no job of it waits elsewhere.
  record Inv (workers : ℕ) (t : Traffic M) : Type 0 where
    kept :
        (c : ℕ)
        → of_channel c t.delivered ++ of_channel c (t.pool.queues (home c t.pool))
          ≡ of_channel c t.taken
    placed : (c i : ℕ) → i ≢ home c t.pool → of_channel c (t.pool.queues i) ≡ []
    size : t.pool.workers ≡ workers

  enqueued :
      (t : Pool M) (c : ℕ) (msg : M) (p : Pool M)
      → t.closed ≡ false
      → enqueue (names c) c msg t ≡ some p
      → p ≡ record t {
        queues = λ j.
            if nat_beq (home c t) j
            then t.queues (home c t) ++ record { ch = c; msg = msg } ∷ []
            else t.queues j;
      }
  unfolding enqueue home
  enqueued t c msg p o e = ground arith

  publish-Inv :
      (workers : ℕ) (t : Traffic M) (c : ℕ) (msg : M) (p : Pool M)
      → t.pool.closed ≡ false
      → enqueue (names c) c msg t.pool ≡ some p
      → Inv workers t
      → Inv workers (record {
        pool = p;
        taken = t.taken ++ record { ch = c; msg = msg } ∷ [];
        delivered = t.delivered;
      })
  unfolding home shard_for of_channel
  publish-Inv workers t c msg p o e v =
      let q = t.pool.queues (home c t.pool) in
      let job : Job M = record { ch = c; msg = msg } in
      rw (enqueued t.pool c msg p o e) (record {
        kept = λ d. ground (
          arith,
          v.kept d,
          of_channel-append d t.taken (job ∷ []),
          of_channel-append d q (job ∷ []),
          append_assoc (of_channel d t.delivered) (of_channel d q) (of_channel d (job ∷ [])),
          append-nil (of_channel d t.taken),
          nat_beq_iff c d,
        );
        placed = λ d i away.
            ground (arith, v.placed d i away, of_channel-append d q (job ∷ []), nat_beq_iff c d);
        size = v.size;
      })

  pub took :
      (t : Pool M) (i : ℕ) (j : Job M) (p : Pool M)
      → take_job i t ≡ some (j, p)
      → (rest : List (Job M)) × (t.queues i ≡ j ∷ rest)
        × (p ≡ record t { queues = λ k. if nat_beq i k then rest else t.queues k })
  unfolding take_job
  took t i j p e = ground arith

  work-Inv :
      (workers : ℕ) (t : Traffic M) (i : ℕ) (j : Job M) (p : Pool M)
      → take_job i t.pool ≡ some (j, p)
      → Inv workers t
      → Inv workers (record { pool = p; taken = t.taken; delivered = t.delivered ++ j ∷ [] })
  unfolding home shard_for of_channel
  work-Inv workers t i j p e v =
      let (rest, front, after) = took t.pool i j p e in
      rw after (record {
        kept = λ d. ground (
          arith,
          v.kept d,
          v.placed d i,
          front,
          ap (of_channel d) front,
          of_channel-append d t.delivered (j ∷ []),
          append_assoc (of_channel d t.delivered) (of_channel d (j ∷ [])) (of_channel d rest),
          append-nil (of_channel d t.delivered),
        );
        placed = λ d k away. ground (arith, v.placed d k away, front, ap (of_channel d) front);
        size = v.size;
      })

  Step-Inv : (workers : ℕ) {s t : Traffic M} → Step names s t → Inv workers s → Inv workers t
  Step-Inv workers {s} (publish c msg p o e) v = publish-Inv workers s c msg p o e v
  Step-Inv workers {s} (work i j p e) v = work-Inv workers s i j p e v
  Step-Inv workers {s} shut v = record {
    kept = unfold home shard_for close in v.kept;
    placed = unfold home shard_for close in v.placed;
    size = unfold close in v.size;
  }

  Reach-Inv : (workers : ℕ) {t : Traffic M} → Reach names workers t → Inv workers t
  unfolding home shard_for of_channel new_sharded_pool
  Reach-Inv workers start = record { kept = λ c. refl; placed = λ c i away. refl; size = refl }
  Reach-Inv workers (later r st) = Step-Inv workers st (Reach-Inv workers r)

  -- In every reachable state the jobs delivered for a channel, followed by those that still wait in
  -- its shard, are the jobs accepted for it, in the order of their publishes; once the shard is
  -- empty, also after `Close`, all of them are delivered.
  pub in_order :
      (workers : ℕ) (t : Traffic M) (c : ℕ)
      → Reach names workers t
      → (of_channel c t.delivered ++ of_channel c (t.pool.queues (shard_for (names c) t.pool))
          ≡ of_channel c t.taken)
        × (t.pool.queues (shard_for (names c) t.pool) ≡ []
            → of_channel c t.delivered ≡ of_channel c t.taken)
  in_order workers t c r =
      let kept : (of_channel c t.delivered
            ++ of_channel c (t.pool.queues (shard_for (names c) t.pool)))
          ≡ of_channel c t.taken =
        unfold home in (Reach-Inv workers r).kept c in
      (
        kept,
        λ e.
            unfold of_channel in
            ground (arith, append-nil (of_channel c t.delivered), ap (of_channel c) e),
      )

  -- A pool keeps its number of workers.
  pub Reach-workers :
      (workers : ℕ) {t : Traffic M} → Reach names workers t → t.pool.workers ≡ workers
  Reach-workers workers r = (Reach-Inv workers r).size
