-- ===== src/Conn/Life/Ends.antt =====
-- The steps of `Run` and its pumps up to its return (internal/conn/conn.go).
use wirefan.Prelude.{
  ℕ, zero, suc, ◌+◌, ◌≤◌, ◌<◌, ◌≡◌, ◌≢◌, refl, ap, true, false, if◌then◌else◌, ◌⊎◌, inl, inr,
  Bool-cases, arith,
}
use wirefan.Conn.Life.{
  Place, adding, selecting, slow, framed, receiving, released, net_closed, marked_closed,
  unsubscribed, returned, Life, start, is_done, clean_up, Step, refuse, overflow, go, read_stops,
  write_stops, pump_error, frame, cancel, receive, release, clean, Outside, read_fails, write_fails,
  close_request, force, Move, runs, happens, Reach, begin, later,
}
use wirefan.Conn.Life.{in_clean_up}
use wirefan.Conn.Life.Order.{awaited, stage, running, Inv, Reach-Inv}

-- An upper bound of the steps that `Run` and its pumps still make.
unfoldable weight : Place → ℕ
weight adding = 15
weight selecting = 12
weight slow = 11
weight framed = 10
weight (receiving n) = 6 + n
weight released = 5
weight net_closed = 4
weight marked_closed = 3
weight unsubscribed = 2
weight returned = 0

unfoldable left : Life → ℕ
unfolding weight
left l = weight l.place + running l + (if l.is_forced then 0 else 1)

clean-weight :
    (p : Place) (l : Life)
    → l.place ≡ p
    → in_clean_up p ≡ true
    → suc (left (clean_up p l)) ≤ weight p + running l + (if l.is_forced then 0 else 1)
unfolding left clean_up weight running
clean-weight released l e c = ground arith
clean-weight net_closed l e c = ground arith
clean-weight marked_closed l e c = ground arith
clean-weight unsubscribed l e c = ground arith
clean-weight adding l e c = absurd (ground (arith, c))
clean-weight selecting l e c = absurd (ground (arith, c))
clean-weight slow l e c = absurd (ground (arith, c))
clean-weight framed l e c = absurd (ground (arith, c))
clean-weight (receiving n) l e c = absurd (ground (arith, c))
clean-weight returned l e c = absurd (ground (arith, c))

Step-weight : {l k : Life} → Step l k → Inv l → suc (left k) ≤ left l
unfolding left running weight
Step-weight {l} (refuse e p) v = ground (arith, ap weight p)
Step-weight {l} (overflow p) v = ground (arith, ap weight p)
Step-weight {l} (go p) v = ground (arith, ap weight p)
Step-weight {l} (read_stops r d) v = ground (arith, r)
Step-weight {l} (write_stops w d) v = ground (arith, w)
Step-weight {l} (pump_error n p q) v = ground (arith, ap weight p)
Step-weight {l} (frame p) v = ground (arith, ap weight p)
Step-weight {l} (cancel p) v = ground (arith, ap weight p)
Step-weight {l} (receive m n p q) v = ground (arith, ap weight p)
Step-weight {l} (release p) v = ground (arith, ap weight p)
Step-weight {l} (clean c) v = clean-weight l.place l refl c

Outside-weight : {l k : Life} → Outside l k → suc (left k) ≤ left l
unfolding left running weight
Outside-weight {l} (read_fails r) = ground (arith, r)
Outside-weight {l} (write_fails w) = ground (arith, w)
Outside-weight {l} (close_request p) = ground (arith, ap weight p)
Outside-weight {l} (force f) = ground (arith, f)

Move-weight : {l k : Life} → Move l k → Inv l → suc (left k) ≤ left l
Move-weight (runs st) v = Step-weight st v
Move-weight (happens o) v = Outside-weight o

-- A number of moves from the start.
pub data Moves : ℕ → Life → Type 0 where
  none_yet : Moves 0 start
  one_more : {n : ℕ} {l k : Life} → Moves n l → Move l k → Moves (suc n) k

pub Moves-Reach : {n : ℕ} {l : Life} → Moves n l → Reach l
Moves-Reach none_yet = begin
Moves-Reach (one_more s m) = later (Moves-Reach s) m

Moves-weight : {n : ℕ} {l : Life} → Moves n l → n + left l ≤ 16
Moves-weight none_yet = unfold left weight running in omega arith
Moves-weight (one_more {n} {l} {k} s m) =
    omega (arith, Moves-weight s, Move-weight m (Reach-Inv (Moves-Reach s)))

-- A pump that runs returns by itself when the context is done.
pump_stops : (l : Life) → is_done l ≡ true → 0 < running l → (k : Life) × Step l k
unfolding running
pump_stops l done h = elim (Bool-cases l.is_reading) [
  | inl on_ ↦ (_, read_stops on_ done)
  | inr off ↦ (_, write_stops (ground (arith, off, h)) done)
]

ℕ-cases : (n : ℕ) → (n ≡ 0) ⊎ ((m : ℕ) × (n ≡ suc m))
ℕ-cases zero = inl refl
ℕ-cases (suc n) = inr (n, refl)

-- `Run` stands in its `select`, and nothing has happened that it waits for.
abbrev pub IsIdle : Life → Type 0
IsIdle l = (l.place ≡ selecting) × (l.errc ≡ 0) × (is_done l ≡ false)

goes_on :
    (p : Place) (l : Life) → l.place ≡ p → Inv l → p ≢ returned → IsIdle l ⊎ ((k : Life) × Step l k)
unfolding awaited stage
goes_on adding l e v h = inr (_, go e)
goes_on selecting l e v h = elim (ℕ-cases l.errc) [
  | inl no_error ↦ elim (Bool-cases (is_done l)) [
    | inr quiet ↦ inl (e, no_error, quiet)
    | inl done ↦ inr (pump_stops l done (ground (arith, v, ap awaited e, no_error)))
  ]
  | inr (n, an_error) ↦ inr (_, pump_error n e an_error)
]
goes_on slow l e v h = inr (_, frame e)
goes_on framed l e v h = inr (_, cancel e)
goes_on (receiving zero) l e v h = inr (_, release e)
goes_on (receiving (suc m)) l e v h = elim (ℕ-cases l.errc) [
  | inl no_error ↦
      let own : l.is_cancelled ≡ true = ground (arith, v, ap stage e) in
      inr (pump_stops l (ground (arith, own)) (ground (arith, v, ap awaited e, no_error)))
  | inr (n, an_error) ↦ inr (_, receive m n e an_error)
]
goes_on released l e v h = inr (_, clean (rw e refl))
goes_on net_closed l e v h = inr (_, clean (rw e refl))
goes_on marked_closed l e v h = inr (_, clean (rw e refl))
goes_on unsubscribed l e v h = inr (_, clean (rw e refl))
goes_on returned l e v h = absurd (h refl)

-- `Run` and its pumps make at most 16 moves, what happens to them from outside counted too. Until `Run`
-- has returned it either waits in its `select` with no pump returned and its context alive, or it or a
-- pump makes a next step that depends on nothing outside: so once a pump has returned, the connection
-- was too slow, or the context was cancelled, `Run` returns by itself.
pub run_bounded :
    (n : ℕ) (l : Life)
    → Moves n l
    → (n ≤ 16) × (l.place ≢ returned → IsIdle l ⊎ ((k : Life) × Step l k))
run_bounded n l s =
    (omega (arith, Moves-weight s), λ h. goes_on l.place l refl (Reach-Inv (Moves-Reach s)) h)
