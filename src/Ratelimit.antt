-- ===== src/Ratelimit.antt =====
-- internal/ratelimit/limiter.go: a token bucket for each key, and the removal of idle ones.
pub mod Gc
use wirefan.Prelude.{
  ℕ, ◌-◌, ◌≡◌, refl, Bool, false, [], ◌∷◌, none, some, Str, if◌then◌else◌, ltb, ◌==◌, str_eq,
  str_beq_iff, arith,
}
use wirefan.Prelude.Map.{Map, get, put, keys, get-put, get_of_not-has, put-IsDistinct}
use wirefan.Prelude.Sets.{has, IsDistinct}

-- `golang.org/x/time/rate`: what the code calls of it. `allow` takes the time of the call.
pub record Rate : Type 1 where
  pub Bucket : Type 0
  pub new_bucket : ℕ → ℕ → Bucket
  pub allow : ℕ → Bucket → Bool × Bucket

pub record Entry (B : Type 0) : Type 0 where
  pub lim : B
  pub last_seen : ℕ

pub record Limiter (B : Type 0) : Type 0 where
  pub entries : Map Str (Entry B)
  pub rps : ℕ
  pub burst : ℕ
  pub ttl : ℕ

module _ (L : Rate) where
  open L use {Bucket, new_bucket}

  -- `New`, without the goroutine that runs `gcLoop`.
  unfoldable pub new_limiter : ℕ → ℕ → ℕ → Limiter Bucket
  new_limiter rps burst ttl = record { entries = []; rps = rps; burst = burst; ttl = ttl }

  -- The bucket that `Allow` charges: the key's, or a fresh one.
  unfoldable pub bucket_of : Str → Limiter Bucket → Bucket
  bucket_of key l = elim (get key l.entries) [ some e ↦ e.lim | none ↦ new_bucket l.rps l.burst ]

  -- `Allow` at time `now`.
  unfoldable pub allow : ℕ → Str → Limiter Bucket → Bool × Limiter Bucket
  unfolding bucket_of
  allow now key l =
      let r = L.allow now (bucket_of key l) in
      (r.0, record l { entries = put key (record { lim = r.1; last_seen = now }) l.entries })

  -- The loop of `gcOnce`.
  unfoldable pub drop_before : ℕ → Map Str (Entry Bucket) → Map Str (Entry Bucket)
  drop_before cutoff [] = []
  drop_before cutoff ((k, e) ∷ m) =
      let rest = drop_before cutoff m in if ltb e.last_seen cutoff then rest else (k, e) ∷ rest

  -- `gcOnce` at time `now`.
  unfoldable pub gc_once : ℕ → Limiter Bucket → Limiter Bucket
  unfolding drop_before
  gc_once now l = record l { entries = drop_before (now - l.ttl) l.entries }

  -- `Allow` decides by the key's own bucket alone, leaves every other key's bucket as it was, and
  -- keeps the limits.
  pub allow_isolated :
      (now : ℕ) (key other : Str) (l : Limiter Bucket)
      → ((allow now key l).0 ≡ (L.allow now (bucket_of key l)).0)
        × (bucket_of other (allow now key l).1
            ≡ (if key == other then (L.allow now (bucket_of key l)).1 else bucket_of other l))
        × ((allow now key l).1.rps ≡ l.rps)
        × ((allow now key l).1.burst ≡ l.burst)
  unfolding allow bucket_of
  allow_isolated now key other l =
      let e : Entry Bucket = record { lim = (L.allow now (bucket_of key l)).1; last_seen = now } in
      (refl, ground (arith, get-put key other e l.entries), refl, refl)

  drop_before-keys :
      (cutoff : ℕ) (k : Str) (m : Map Str (Entry Bucket))
      → has k (keys m) ≡ false
      → has k (keys (drop_before cutoff m)) ≡ false
  unfolding drop_before has
  drop_before-keys cutoff k [] h = refl
  drop_before-keys cutoff k ((j, e) ∷ m) h = ground (arith, drop_before-keys cutoff k m)

  get-drop_before :
      (cutoff : ℕ) (k : Str) (m : Map Str (Entry Bucket))
      → IsDistinct (keys m)
      → get k (drop_before cutoff m)
        ≡ elim (get k m) [ none ↦ none | some e ↦ if ltb e.last_seen cutoff then none else some e ]
  unfolding drop_before get
  get-drop_before cutoff k [] d = refl
  get-drop_before cutoff k ((j, e) ∷ m) d =
      ground (arith, get-drop_before cutoff k m d.1, get_of_not-has j m d.0, str_beq_iff j k)

  -- With one entry for each key, as `Allow` keeps it, `gcOnce` removes exactly the entries last used
  -- before `now - ttl` and changes no other.
  pub gc_once_lem :
      (now : ℕ) (key : Str) (l : Limiter Bucket)
      → IsDistinct (keys l.entries)
      → get key (gc_once now l).entries ≡ elim (get key l.entries) [
        | none ↦ none
        | some e ↦ if ltb e.last_seen (now - l.ttl) then none else some e
      ]
  unfolding gc_once
  gc_once_lem now key l d = get-drop_before (now - l.ttl) key l.entries d

  drop_before-IsDistinct :
      (cutoff : ℕ) (m : Map Str (Entry Bucket))
      → IsDistinct (keys m)
      → IsDistinct (keys (drop_before cutoff m))
  unfolding drop_before
  drop_before-IsDistinct cutoff [] d = tt
  drop_before-IsDistinct cutoff ((j, e) ∷ m) d =
      ground (arith, drop_before-IsDistinct cutoff m d.1, drop_before-keys cutoff j m d.0)

  -- `Allow` and `gcOnce` keep one entry for each key.
  pub ops-IsDistinct :
      (now : ℕ) (key : Str) (l : Limiter Bucket)
      → IsDistinct (keys l.entries)
      → IsDistinct (keys (allow now key l).1.entries) × IsDistinct (keys (gc_once now l).entries)
  unfolding allow gc_once
  ops-IsDistinct now key l d =
      (put-IsDistinct key _ l.entries d, drop_before-IsDistinct (now - l.ttl) l.entries d)
