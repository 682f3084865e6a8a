-- ===== src/Ratelimit/Gc.antt =====
-- internal/ratelimit/limiter.go: `gcLoop` and `Close` among the calls of `Allow`.
use wirefan.Prelude.{
  ℕ, ◌+◌, ◌≤◌, ◌≡◌, refl, Bool, true, false, ◌&&◌, List, [], ◌∷◌, Option, none, some, Str,
  if◌then◌else◌, leb, ◌==◌, str_eq, str_beq_iff, arith,
}
use wirefan.Prelude.Map.{get, keys, get-put}
use wirefan.Prelude.Sets.{IsDistinct}
use wirefan.Ratelimit.{Rate, Entry, Limiter, allow, bucket_of, gc_once, gc_once_lem, ops-IsDistinct}

-- What happens to a limiter: a caller's `Allow`, a tick that `gcLoop` takes, `Close`, and `gcLoop`
-- that takes the end of `quit`. With both channels ready it may take either.
pub data Event : Type 0 where
  called : ℕ → Str → Event
  ticked : ℕ → Event
  closed_by_owner : Event
  quit_taken : Event

-- A limiter with its channel `quit` and its goroutine.
pub record Running (B : Type 0) : Type 0 where
  pub limiter : Limiter B
  pub quit_closed : Bool
  pub gc_alive : Bool

module _ (L : Rate) where
  open L use {Bucket}

  -- `peek`.
  unfoldable pub peek : Str → Limiter Bucket → Option (Entry Bucket)
  peek key l = get key l.entries

  -- `gcLoop` and its callers, one event at a time: `none` is an event that cannot happen, or the
  -- panic of a second `Close`.
  unfoldable pub gc_step : Event → Running Bucket → Option (Running Bucket)
  gc_step (called now key) r = some (record r { limiter = (allow L now key r.limiter).1 })
  gc_step (ticked now) r =
      if r.gc_alive then some (record r { limiter = gc_once L now r.limiter }) else none
  gc_step closed_by_owner r = if r.quit_closed then none else some (record r { quit_closed = true })
  gc_step quit_taken r =
      if r.gc_alive && r.quit_closed then some (record r { gc_alive = false }) else none

  unfoldable pub gc_run : List Event → Running Bucket → Option (Running Bucket)
  gc_run [] r = some r
  gc_run (e ∷ es) r = elim (gc_step e r) [ none ↦ none | some s ↦ gc_run es s ]

  -- The entry of a key that is never evicted: only its own calls change it.
  unfoldable pub never_evicted : Str → List Event → Entry Bucket → Entry Bucket
  never_evicted key [] x = x
  never_evicted key (called now k ∷ es) x =
      let b = (L.allow now x.lim).1 in
      let used = never_evicted key es (record { lim = b; last_seen = now }) in
      let rest = never_evicted key es x in if k == key then used else rest
  never_evicted key (ticked now ∷ es) x = never_evicted key es x
  never_evicted key (closed_by_owner ∷ es) x = never_evicted key es x
  never_evicted key (quit_taken ∷ es) x = never_evicted key es x

-- No tick comes later than `ttl` after the latest use of the key, which is at `seen` before them.
unfoldable pub stays_in_use : ℕ → Str → List Event → ℕ → Bool
stays_in_use ttl key [] seen = true
stays_in_use ttl key (called now k ∷ es) seen =
    let used = stays_in_use ttl key es now in
    let rest = stays_in_use ttl key es seen in if k == key then used else rest
stays_in_use ttl key (ticked now ∷ es) seen =
    let rest = stays_in_use ttl key es seen in leb now (seen + ttl) && rest
stays_in_use ttl key (closed_by_owner ∷ es) seen = stays_in_use ttl key es seen
stays_in_use ttl key (quit_taken ∷ es) seen = stays_in_use ttl key es seen

module _ (L : Rate) where
  open L use {Bucket}

  get-allow :
      (now : ℕ) (k key : Str) (l : Limiter Bucket) (x : Entry Bucket)
      → get key l.entries ≡ some x
      → get key (allow L now k l).1.entries
        ≡ some (if k == key then record { lim = (L.allow now x.lim).1; last_seen = now } else x)
  unfolding allow bucket_of
  get-allow now k key l x h =
      let e : Entry Bucket = record { lim = (L.allow now (bucket_of L k l)).1; last_seen = now } in
      ground (arith, get-put k key e l.entries, str_beq_iff k key)

  get-gc_once :
      (now : ℕ) (key : Str) (l : Limiter Bucket) (x : Entry Bucket)
      → IsDistinct (keys l.entries)
      → get key l.entries ≡ some x
      → now ≤ x.last_seen + l.ttl
      → get key (gc_once L now l).entries ≡ some x
  get-gc_once now key l x d h le = ground (arith, gc_once_lem L now key l d)

  ttl-allow : (now : ℕ) (k : Str) (l : Limiter Bucket) → (allow L now k l).1.ttl ≡ l.ttl
  unfolding allow
  ttl-allow now k l = refl

  ttl-gc_once : (now : ℕ) (l : Limiter Bucket) → (gc_once L now l).ttl ≡ l.ttl
  unfolding gc_once
  ttl-gc_once now l = refl

  -- The collector never costs a key its bucket, and so never gives it fresh tokens, while the key is
  -- used at least once within `ttl` before each tick: whatever the other keys, the ticks and `Close`
  -- do, its entry is the one that its own calls alone leave.
  pub gc_run-keeps :
      (key : Str) (es : List Event) (x : Entry Bucket) (r s : Running Bucket)
      → IsDistinct (keys r.limiter.entries)
      → peek L key r.limiter ≡ some x
      → stays_in_use r.limiter.ttl key es x.last_seen ≡ true
      → gc_run L es r ≡ some s
      → peek L key s.limiter ≡ some (never_evicted L key es x)
  unfolding gc_run gc_step peek never_evicted stays_in_use
  gc_run-keeps key [] x r s d h u e = ground arith
  gc_run-keeps key (called now k ∷ es) x r s d h u e =
      let y : Entry Bucket = record { lim = (L.allow now x.lim).1; last_seen = now } in
      let r2 : Running Bucket = record r { limiter = (allow L now k r.limiter).1 } in
      let one = (ops-IsDistinct L now k r.limiter d).0 in
      let kept = get-allow now k key r.limiter x h in
      ground (
        arith,
        gc_run-keeps key es y r2 s one,
        gc_run-keeps key es x r2 s one,
        kept,
        ttl-allow now k r.limiter,
      )
  gc_run-keeps key (ticked now ∷ es) x r s d h u e =
      let r2 : Running Bucket = record r { limiter = gc_once L now r.limiter } in
      let one = (ops-IsDistinct L now key r.limiter d).1 in
      let kept = get-gc_once now key r.limiter x d h in
      ground (arith, gc_run-keeps key es x r2 s one, kept, ttl-gc_once now r.limiter)
  gc_run-keeps key (closed_by_owner ∷ es) x r s d h u e =
      let r2 : Running Bucket = record r { quit_closed = true } in
      ground (arith, gc_run-keeps key es x r2 s d h u)
  gc_run-keeps key (quit_taken ∷ es) x r s d h u e =
      let r2 : Running Bucket = record r { gc_alive = false } in
      ground (arith, gc_run-keeps key es x r2 s d h u)
