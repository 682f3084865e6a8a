-- ===== src/Server/Life/Returns.antt =====
-- The steps of `Run` up to its return (internal/server/server.go).
use wirefan.Prelude.{
  ℕ, zero, suc, ◌+◌, ◌≤◌, ◌<◌, ◌≡◌, ◌≢◌, refl, ap, true, ◌⊎◌, inl, inr, List, none, nat_eq, arith,
}
use wirefan.Hub.Tracking.{Gate}
use wirefan.Fanout.{Fanout}
use wirefan.Server.Life.{
  Phase, selecting, failed, health_set, marked, announced, drained, admin_down, public_down,
  closing, finished, Report, Life, advance_at, advance, others, run,
}

-- How many of the steps of `Run` lie behind a phase; none is left behind `failed`.
height : Phase → ℕ
height selecting = 0
height health_set = 1
height marked = 2
height announced = 3
height drained = 4
height admin_down = 5
height public_down = 6
height closing = 7
height finished = 8
height failed = 8

-- The context is done, and so is every wait of the shutdown.
abbrev pub IsOver : Report → Type 0
IsOver r =
    (r.errc ≡ none)
    × (r.cancelled ≡ true)
    × (r.grace_over ≡ true)
    × (r.admin_done ≡ true)
    × (r.public_outcome ≢ none)
    × (r.workers_done ≡ true)

climb :
    {M : Type 0} (p : Phase) (r : Report) (l : Life M) (k : ℕ)
    → IsOver r
    → l.phase ≡ p
    → k ≤ height p
    → k ≤ 8
    → (k < 8 → suc k ≤ height (advance_at p r l).phase) × (k ≤ height (advance_at p r l).phase)
unfolding advance_at height
climb selecting r l k o e h m = (λ b. ground arith, ground arith)
climb failed r l k o e h m = (λ b. ground (arith, ap height e), ground (arith, ap height e))
climb health_set r l k o e h m = (λ b. ground arith, ground arith)
climb marked r l k o e h m = (λ b. ground arith, ground arith)
climb announced r l k o e h m = (λ b. ground arith, ground arith)
climb drained r l k o e h m = (λ b. ground arith, ground arith)
climb admin_down r l k o e h m = (λ b. ground arith, ground arith)
climb public_down r l k o e h m = (λ b. ground arith, ground arith)
climb closing r l k o e h m = (λ b. ground arith, ground arith)
climb finished r l k o e h m = (λ b. ground (arith, ap height e), ground (arith, ap height e))

at_the_top : (p : Phase) → 8 ≤ height p → (p ≡ finished) ⊎ (p ≡ failed)
unfolding height
at_the_top selecting h = absurd (omega (arith, h))
at_the_top health_set h = absurd (omega (arith, h))
at_the_top marked h = absurd (omega (arith, h))
at_the_top announced h = absurd (omega (arith, h))
at_the_top drained h = absurd (omega (arith, h))
at_the_top admin_down h = absurd (omega (arith, h))
at_the_top public_down h = absurd (omega (arith, h))
at_the_top closing h = absurd (omega (arith, h))
at_the_top finished h = inl refl
at_the_top failed h = inr refl

climbed :
    {M : Type 0} (reports : ℕ → Report) (env : ℕ → Life M → Gate × Fanout M × List ℕ) (n k : ℕ)
    (l : Life M)
    → ((i : ℕ) → n ≤ i → IsOver (reports i))
    → k ≤ 8
    → k ≤ height (run reports env (k + n) l).phase
unfolding run advance others
climbed reports env n zero l o m = omega arith
climbed reports env n (suc k) l o m =
    let now = run reports env (k + n) l in
    let at : suc k + n ≡ suc (k + n) = omega arith in
    let below = climbed reports env n k l o (omega arith) in
    let step =
      climb now.phase (reports (k + n)) (others (env (k + n) now) now) k (o (k + n) (omega arith))
        refl below (omega arith) in
    rw at (step.0 (omega arith))

-- `Run` waits for nothing else: from any state, once its context is done, no listener fails any more,
-- and the drain, the shutdowns of the listeners and the workers of the pool are over, eight steps are
-- enough, whatever the others do meanwhile.
pub run_ends :
    {M : Type 0} (reports : ℕ → Report) (env : ℕ → Life M → Gate × Fanout M × List ℕ) (n : ℕ)
    (l : Life M)
    → ((i : ℕ) → n ≤ i → IsOver (reports i))
    → ((run reports env (8 + n) l).phase ≡ finished) ⊎ ((run reports env (8 + n) l).phase ≡ failed)
run_ends reports env n l o =
    at_the_top (run reports env (8 + n) l).phase (climbed reports env n 8 l o (omega arith))
