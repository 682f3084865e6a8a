-- ===== src/Conn/Life/Order.antt =====
-- In which order a connection is torn down (internal/conn/conn.go).
use wirefan.Prelude.{ℕ, ◌+◌, ◌≤◌, ◌<◌, ◌≡◌, refl, ap, true, false, if◌then◌else◌, arith}
use wirefan.Conn.Life.{
  Place, adding, selecting, slow, framed, receiving, released, net_closed, marked_closed,
  unsubscribed, returned, Life, clean_up, Step, refuse, overflow, go, read_stops, write_stops,
  pump_error, frame, cancel, receive, release, clean, Outside, read_fails, write_fails,
  close_request, force, Move, runs, happens, Reach, begin, later,
}

-- How many errors `Run` still has to receive, at a place behind the start of the pumps.
unfoldable pub awaited : Place → ℕ
awaited adding = 0
awaited selecting = 2
awaited slow = 2
awaited framed = 2
awaited (receiving n) = n
awaited released = 0
awaited net_closed = 0
awaited marked_closed = 0
awaited unsubscribed = 0
awaited returned = 0

unfoldable pub running : Life → ℕ
running l = (if l.is_reading then 1 else 0) + (if l.is_writing then 1 else 0)

-- How far the end of `Run` is.
unfoldable pub stage : Place → ℕ
stage adding = 0
stage selecting = 0
stage slow = 1
stage framed = 2
stage (receiving n) = 3
stage released = 4
stage net_closed = 5
stage marked_closed = 6
stage unsubscribed = 7
stage returned = 8

abbrev pub Inv : Life → Type 0
Inv l =
    (l.errc + running l ≡ awaited l.place)
    × (l.is_released ≡ true → 4 ≤ stage l.place)
    × (4 ≤ stage l.place → stage l.place ≤ 7 → l.is_released ≡ true)
    × (l.is_closed ≡ true → l.is_released ≡ true)
    × (6 ≤ stage l.place → stage l.place ≤ 7 → l.is_closed ≡ true)
    × (l.has_left ≡ true → l.is_closed ≡ true)
    × (7 ≤ stage l.place → l.is_released ≡ true → l.has_left ≡ true)
    × (stage l.place < 3 → l.is_cancelled ≡ false)
    × (3 ≤ stage l.place → l.is_cancelled ≡ true)
    × (8 ≤ stage l.place → l.is_tracked ≡ false)
    × (stage l.place ≡ 0 → awaited l.place ≡ 0 → l.is_tracked ≡ false)
    × (stage l.place ≡ 0 → awaited l.place ≡ 2 → l.is_tracked ≡ true)
    × (1 ≤ stage l.place → stage l.place ≤ 7 → l.is_tracked ≡ true)

clean-Inv : (p : Place) (l : Life) → l.place ≡ p → Inv l → Inv (clean_up p l)
unfolding clean_up awaited running stage
clean-Inv adding l e v = v
clean-Inv selecting l e v = v
clean-Inv slow l e v = v
clean-Inv framed l e v = v
clean-Inv (receiving n) l e v = v
clean-Inv released l e v = ground (arith, v, ap awaited e, ap stage e)
clean-Inv net_closed l e v = ground (arith, v, ap awaited e, ap stage e)
clean-Inv marked_closed l e v = ground (arith, v, ap awaited e, ap stage e)
clean-Inv unsubscribed l e v = ground (arith, v, ap awaited e, ap stage e)
clean-Inv returned l e v = v

Step-Inv : {l k : Life} → Step l k → Inv l → Inv k
unfolding awaited running stage
Step-Inv {l} (refuse e p) v = ground (arith, v, ap awaited p, ap stage p)
Step-Inv {l} (overflow p) v = ground (arith, v, ap awaited p, ap stage p)
Step-Inv {l} (go p) v = ground (arith, v, ap awaited p, ap stage p)
Step-Inv {l} (read_stops r d) v = ground (arith, v, r)
Step-Inv {l} (write_stops w d) v = ground (arith, v, w)
Step-Inv {l} (pump_error n p q) v = ground (arith, v, q, ap awaited p, ap stage p)
Step-Inv {l} (frame p) v = ground (arith, v, ap awaited p, ap stage p)
Step-Inv {l} (cancel p) v = ground (arith, v, ap awaited p, ap stage p)
Step-Inv {l} (receive m n p q) v = ground (arith, v, q, ap awaited p, ap stage p)
Step-Inv {l} (release p) v = ground (arith, v, ap awaited p, ap stage p)
Step-Inv {l} (clean c) v = clean-Inv l.place l refl v

Outside-Inv : {l k : Life} → Outside l k → Inv l → Inv k
unfolding awaited running stage
Outside-Inv {l} (read_fails r) v = ground (arith, v, r)
Outside-Inv {l} (write_fails w) v = ground (arith, v, w)
Outside-Inv {l} (close_request p) v = ground (arith, v, ap awaited p, ap stage p)
Outside-Inv {l} (force f) v = v

pub Move-Inv : {l k : Life} → Move l k → Inv l → Inv k
Move-Inv (runs st) v = Step-Inv st v
Move-Inv (happens o) v = Outside-Inv o v

pub Reach-Inv : {l : Life} → Reach l → Inv l
unfolding awaited running stage
Reach-Inv begin = ground arith
Reach-Inv (later r m) = Move-Inv m (Reach-Inv r)
