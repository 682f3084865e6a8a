-- ===== src/Fanout/Closing/Ends.antt =====
-- The end of `Close` of a sharded pool: the turns of its workers and what they leave
-- (internal/fanout/sharded.go).
use wirefan.Prelude.{
  ℕ, zero, suc, ◌+◌, ◌<◌, ◌≡◌, ◌≢◌, refl, sym, ap, ◌∙◌, true, false, List, [], ◌∷◌, ◌++◌, some, Str,
  if◌then◌else◌, nat_eq, nat_beq, nat_beq_iff, ◌==◌, length, inl, inr, Bool-cases, List-cases,
  arith,
}
use native.Mathlib.Nat.{mod-lt}
use wirefan.Registry.Fnv.{sum32}
use wirefan.Fanout.{Job, Pool, shard_for, enqueue, take_job, close}
use wirefan.Fanout.Order
use wirefan.Fanout.Order.{Traffic, Reach, of_channel, in_order, took, Reach-workers}
use wirefan.Fanout.Closing.{
  Closing, begin_close, Turn, works, returns, Turns, none_yet, one_more, left, left-turn,
}

module _ {M : Type 0} (names : ℕ → Str) where
  -- Every turn is one less to make.
  Turn-left :
      {s t : Closing M}
      → Turn s t
      → (left s.pool.workers s ≡ suc (left s.pool.workers t)) × (t.pool.workers ≡ s.pool.workers)
  Turn-left {s} (works i j p l runs taken) =
      let (rest, front, after) = took names s.pool i j p taken in
      let t : Closing M = record s { pool = p; delivered = s.delivered ++ j ∷ [] } in
      let queue : (k : ℕ) → p.queues k ≡ (if nat_beq i k then rest else s.pool.queues k) =
        λ k. ap (λ q. q.queues k) after in
      (
        left-turn s.pool.workers i s t l
            (λ k away. (refl, ground (arith, queue k, nat_beq_iff i k, away)))
            (ground (arith, runs, ap length front, ap length (queue i), nat_beq_iff i i)),
        ap (λ q. q.workers) after,
      )
  Turn-left {s} (returns i l runs empty) = (
    left-turn s.pool.workers i s _ l (λ k away. (ground (arith, nat_beq_iff i k, away), refl))
        (ground (arith, nat_beq_iff i i, ap length empty)),
    refl,
  )

  Turns-left :
      {s : Closing M} {n : ℕ} {t : Closing M}
      → Turns s n t
      → (n + left s.pool.workers t ≡ left s.pool.workers s) × (t.pool.workers ≡ s.pool.workers)
  Turns-left {s} none_yet = (omega arith, refl)
  Turns-left {s} (one_more {n} {t} {u} ts turn) =
      let (before, size) = Turns-left ts in
      let (step, kept) = Turn-left turn in
      let at_s : left s.pool.workers t ≡ suc (left s.pool.workers u) = rw (sym size) step in
      (omega (arith, at_s, before), ground (arith, size, kept))

  -- While a worker has turns to make, one of them makes the next.
  runs_on : (n : ℕ) (s : Closing M) → left n s ≢ 0 → (i : ℕ) × (i < n) × (s.returned i ≡ false)
  unfolding left
  runs_on zero s h = absurd (h refl)
  runs_on (suc n) s h = elim (Bool-cases (s.returned n)) [
    | inl off ↦
        let (i, l, on_) = runs_on n s (λ e. h (ground (arith, off, e))) in
        (i, omega (arith, l), on_)
    | inr on_ ↦ (n, omega arith, on_)
  ]

  take_front :
      (i : ℕ) (j : Job M) (q : List (Job M)) (p : Pool M)
      → p.queues i ≡ j ∷ q
      → (r : Pool M) × (take_job i p ≡ some (j, r))
  unfolding take_job
  take_front i j q p front =
      (record p { queues = λ k. if i == k then q else p.queues k }, rw (front, take_job) refl)

  further : (s : Closing M) → left s.pool.workers s ≢ 0 → (t : Closing M) × Turn s t
  further s h =
      let (i, l, on_) = runs_on s.pool.workers s h in
      elim (List-cases (s.pool.queues i)) [
        | inl empty ↦ (_, returns i l on_ empty)
        | inr (j, q, front) ↦
            let (p, taken) = take_front i j q s.pool front in (_, works i j p l on_ taken)
      ]

  -- A worker returns from an empty queue only.
  Turns-empty :
      {s : Closing M} {n : ℕ} {t : Closing M} (i : ℕ)
      → Turns s n t
      → (s.returned i ≡ true → s.pool.queues i ≡ [])
      → t.returned i ≡ true
      → t.pool.queues i ≡ []
  Turns-empty i none_yet h r = h r
  Turns-empty i (one_more {n} {t} ts (works k j p l runs taken)) h r =
      let (rest, front, after) = took names t.pool k j p taken in
      let before : t.pool.queues i ≡ [] = Turns-empty i ts h r in
      ground (arith, ap (λ q. q.queues i) after, before, runs, r, nat_beq_iff k i)
  Turns-empty i (one_more {n} {t} ts (returns k l runs empty)) h r =
      ground (arith, Turns-empty i ts h, empty, nat_beq_iff k i)

  none_left : (n : ℕ) (s : Closing M) (i : ℕ) → left n s ≡ 0 → i < n → s.returned i ≡ true
  unfolding left
  none_left zero s i h l = absurd (omega arith)
  none_left (suc n) s i h l = ground (arith, none_left n s i, nat_beq_iff i n)

  -- What the workers do is what they do while the pool is open.
  Turns-Reach :
      (workers : ℕ) {s : Closing M} {n : ℕ} {t : Closing M} (taken : List (Job M))
      → Turns s n t
      → Reach names workers (record { pool = s.pool; taken = taken; delivered = s.delivered })
      → Reach names workers (record { pool = t.pool; taken = taken; delivered = t.delivered })
  Turns-Reach workers taken none_yet r = r
  Turns-Reach workers taken (one_more ts (works i j p l runs took_)) r =
      Order.later (Turns-Reach workers taken ts r) (Order.work i j p took_)
  Turns-Reach workers taken (one_more ts (returns i l runs empty)) r =
      Turns-Reach workers taken ts r

  Turns-closed :
      {s : Closing M} {n : ℕ} {t : Closing M}
      → Turns s n t
      → s.pool.closed ≡ true
      → t.pool.closed ≡ true
  Turns-closed none_yet h = h
  Turns-closed (one_more {n} {t} ts (works i j p l runs taken)) h =
      let (rest, front, after) = took names t.pool i j p taken in
      ap (λ q. q.closed) after ∙ Turns-closed ts h
  Turns-closed (one_more ts (returns i l runs empty)) h = Turns-closed ts h

  closed_ignores :
      (c : ℕ) (msg : M) (p : Pool M) → p.closed ≡ true → enqueue (names c) c msg p ≡ some p
  unfolding enqueue
  closed_ignores c msg p h = ground (arith, h)

  none_yet_back :
      (t : Traffic M) (i : ℕ)
      → (begin_close t).returned i ≡ true
      → (begin_close t).pool.queues i ≡ []
  unfolding begin_close
  none_yet_back t i e = absurd (ground (arith, e))

  -- `Close` ends, whatever order the workers run in: each turn of a worker is one of a number that
  -- is known when the queues are closed, a worker can make the next one until that number is made,
  -- and then all workers have returned, every publish that was accepted for a channel has been
  -- handed to its subscribers in order, and a later one changes nothing.
  pub close-ends :
      (workers : ℕ) (t : Traffic M) (n : ℕ) (s : Closing M)
      → Reach names workers t
      → 0 < workers
      → Turns (begin_close t) n s
      → (n + left workers s ≡ left workers (begin_close t))
        × (left workers s ≢ 0 → (u : Closing M) × Turn s u)
        × (left workers s ≡ 0
            → ((i : ℕ) → i < workers → s.returned i ≡ true)
              × ((c : ℕ) → of_channel c s.delivered ≡ of_channel c t.taken)
              × ((c : ℕ) (msg : M) → enqueue (names c) c msg s.pool ≡ some s.pool))
  close-ends workers t n s r some_workers ts =
      let at_start : (begin_close t).pool.workers ≡ workers =
        unfold begin_close close in Reach-workers names workers r in
      let (count, kept) = Turns-left ts in
      let size : s.pool.workers ≡ workers = kept ∙ at_start in
      let after : Reach names workers
          (record { pool = s.pool; taken = t.taken; delivered = s.delivered }) =
        Turns-Reach workers t.taken ts (unfold begin_close in Order.later r Order.shut) in
      (
        rw (sym at_start) count,
        λ h. further s (λ e. h (rw (sym size) e)),
        λ h. (
          λ i l. none_left workers s i h l,
          λ c.
              let home_in : shard_for (names c) s.pool < workers =
                unfold shard_for in rw size (mod-lt (sum32 (names c)) some_workers) in
              let returned = none_left workers s (shard_for (names c) s.pool) h home_in in
              (in_order names workers _ c after).1 (
                Turns-empty (shard_for (names c) s.pool) ts
                  (none_yet_back t (shard_for (names c) s.pool)) returned),
          λ c msg. closed_ignores c msg s.pool (Turns-closed ts (unfold begin_close close in refl)),
        ),
      )
