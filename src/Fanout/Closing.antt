-- ===== src/Fanout/Closing.antt =====
-- `Close` of a sharded pool: its wait for the workers, which end once their queues are closed and
-- empty (internal/fanout/sharded.go).
pub mod Ends
use wirefan.Prelude.{
  ℕ, zero, suc, ◌+◌, ◌%◌, ◌<◌, ◌≤◌, ◌≡◌, ◌≢◌, refl, sym, ap, ◌∙◌, Bool, true, false, List, [], ◌∷◌,
  ◌++◌, some, Str, if◌then◌else◌, nat_eq, nat_beq, nat_beq_iff, ◌==◌, length, ◌⊎◌, inl, inr,
  Bool-cases, List-cases, arith,
}
use native.Mathlib.Nat.{mod-lt}
use wirefan.Registry.Fnv.{sum32}
use wirefan.Fanout.{Job, Pool, new_sharded_pool, shard_for, enqueue, take_job, close}
use wirefan.Fanout.Order
use wirefan.Fanout.Order.{Traffic, Reach, of_channel, in_order, took, Reach-workers}

-- The pool after its queues were closed, with the workers that have returned from `run`, which is
-- what the wait group counts, and what was handed to `hub.Broadcast`.
pub record Closing (M : Type 0) : Type 0 where
  pub pool : Pool M
  pub returned : ℕ → Bool
  pub delivered : List (Job M)

module _ {M : Type 0} where
  unfoldable pub begin_close : Traffic M → Closing M
  begin_close t = record { pool = close t.pool; returned = λ i. false; delivered = t.delivered }

  -- A worker that has not returned takes its next job, or finds its queue closed and empty.
  pub data Turn (s : Closing M) : Closing M → Type 0 where
    works :
        (i : ℕ) (j : Job M) (p : Pool M)
        → i < s.pool.workers
        → s.returned i ≡ false
        → take_job i s.pool ≡ some (j, p)
        → Turn s (record s { pool = p; delivered = s.delivered ++ j ∷ [] })
    returns :
        (i : ℕ)
        → i < s.pool.workers
        → s.returned i ≡ false
        → s.pool.queues i ≡ []
        → Turn s (record s { returned = λ k. if i == k then true else s.returned k })

  -- A number of turns, in any order of the workers.
  pub data Turns (s : Closing M) : ℕ → Closing M → Type 0 where
    none_yet : Turns s 0 s
    one_more : {n : ℕ} {t u : Closing M} → Turns s n t → Turn t u → Turns s (suc n) u

  abbrev share : ℕ → Closing M → ℕ
  share i s = if s.returned i then 0 else suc (length (s.pool.queues i))

  -- How many turns the first `i` workers still have to make.
  unfoldable pub left : ℕ → Closing M → ℕ
  left zero s = 0
  left (suc i) s = share i s + left i s

  left-cong :
      (n : ℕ) (s t : Closing M)
      → ((i : ℕ) → i < n → (s.returned i ≡ t.returned i) × (s.pool.queues i ≡ t.pool.queues i))
      → left n s ≡ left n t
  unfolding left
  left-cong zero s t h = refl
  left-cong (suc n) s t h =
      let (r, q) = h n (omega arith) in
      ground (arith, r, q, ap length q, left-cong n s t (λ i l. h i (omega arith)))

  -- One worker makes a turn and the others none.
  pub left-turn :
      (n i : ℕ) (s t : Closing M)
      → i < n
      → ((k : ℕ) → k ≢ i → (s.returned k ≡ t.returned k) × (s.pool.queues k ≡ t.pool.queues k))
      → share i s ≡ suc (share i t)
      → left n s ≡ suc (left n t)
  unfolding left
  left-turn zero i s t l same one = absurd (omega arith)
  left-turn (suc n) i s t l same one = elim (Bool-cases (nat_beq i n)) [
    | inl this ↦
        let e : i ≡ n = (nat_beq_iff i n).0 this in
        let at_n : share n s ≡ suc (share n t) = rw (sym e) one in
        ground (arith, at_n, left-cong n s t (λ k m. same k (λ h. ground (arith, h, e))))
    | inr other ↦
        let apart : i ≢ n = λ h. ground (arith, (nat_beq_iff i n).1 h) in
        let (r, q) = same n (λ h. apart (sym h)) in
        ground (arith, r, ap length q, left-turn n i s t (omega (arith, apart)) same one)
  ]
