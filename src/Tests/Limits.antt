-- ===== src/Tests/Limits.antt =====
-- A limiter with two keys and its collector.
use wirefan.Prelude.{ℕ, ◌≡◌, refl, true, false, List, [], ◌∷◌, some, codes, str_eq, str_beq}
use wirefan.Prelude.Map.{get, put, keys}
use wirefan.Prelude.Sets.{has, IsDistinct}
use wirefan.Ratelimit.{Entry, allow, bucket_of, gc_once, drop_before}
use wirefan.Ratelimit.Gc.{
  Event, called, ticked, closed_by_owner, quit_taken, Running, peek, gc_step, gc_run, never_evicted,
  stays_in_use, gc_run-keeps,
}
use wirefan.Tests.Samples.{toy_rate}

abbrev in_use : Entry ℕ
in_use = record { lim = 99; last_seen = 40 }

abbrev started : Running ℕ
started = record {
  limiter = record {
    entries = (codes "idle", record { lim = 7; last_seen = 5 }) ∷ (codes "busy", in_use) ∷ [];
    rps = 50;
    burst = 100;
    ttl = 60;
  };
  quit_closed = false;
  gc_alive = true;
}

-- The idle key's bucket goes at the tick, the busy key's stays.
abbrev events : List Event
events =
    called 50 (codes "new")
    ∷ ticked 100
    ∷ called 130 (codes "busy")
    ∷ closed_by_owner
    ∷ ticked 190
    ∷ quit_taken
    ∷ called 200 (codes "idle")
    ∷ []

abbrev ended : Running ℕ
ended = record {
  limiter = record {
    entries =
        (codes "busy", record { lim = 98; last_seen = 130 })
        ∷ (codes "idle", record { lim = 99; last_seen = 200 })
        ∷ [];
    rps = 50;
    burst = 100;
    ttl = 60;
  };
  quit_closed = true;
  gc_alive = false;
}

ended_is : gc_run toy_rate events started ≡ some ended
unfolding gc_run gc_step allow bucket_of gc_once drop_before get put str_beq
ended_is = refl

one_entry_each : IsDistinct (keys started.limiter.entries)
unfolding has str_beq
one_entry_each = (refl, (refl, tt))

found : peek toy_rate (codes "busy") started.limiter ≡ some in_use
unfolding peek get str_beq
found = refl

kept_busy : stays_in_use 60 (codes "busy") events 40 ≡ true
unfolding stays_in_use str_beq
kept_busy = refl

gc_run-keeps_example :
    peek toy_rate (codes "busy") ended.limiter
    ≡ some (never_evicted toy_rate (codes "busy") events in_use)
gc_run-keeps_example =
    gc_run-keeps toy_rate (codes "busy") events in_use started ended one_entry_each found kept_busy
      ended_is
