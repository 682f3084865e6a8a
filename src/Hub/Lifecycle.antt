-- ===== src/Hub/Lifecycle.antt =====
-- GetOrCreate, Subscribe, Unsubscribe and Sweep as they interleave (internal/registry/registry.go,
-- sweep.go and internal/hub/channel.go): each step is one critical section.
pub mod Invariant
pub mod Safety
use wirefan.Prelude.{
  ℕ, suc, ◌<◌, ◌≡◌, Bool, true, false, List, [], ◌∷◌, Option, none, some, Str, nat_eq,
}
use wirefan.Prelude.Sets.{has}
use wirefan.Hub.Channel.{subscribe, unsubscribe}
use wirefan.Registry.{Channel, Chans, Net, Pass, Registry, new_channel}
use wirefan.Registry.Sweep.{sweep_one}

-- `held` are the channels that `GetOrCreate` has ever returned: any goroutine may still hold them.
pub record System (S : Type 0) : Type 0 where
  pub net : Net S
  pub held : List ℕ

module _ (R : Registry) where
  -- One critical section of any goroutine.
  pub data Step (s : System R.State) : System R.State → Type 0 where
    create :
        (n : Str)
        → Step s (record {
          net = (R.get_or_create n s.net).1;
          held = (R.get_or_create n s.net).0 ∷ s.held;
        })
    -- `LoadOrStore` finds that another goroutine was first: the fresh channel is dropped.
    lose :
        (n : Str) (c : ℕ)
        → R.lookup n s.net.reg ≡ some c
        → Step s (record {
          net = record { chans = (new_channel n s.net.chans).1; reg = s.net.reg };
          held = c ∷ s.held;
        })
    join :
        (c who max : ℕ)
        → has c s.held ≡ true
        → Step s (record s {
          net = record { chans = (subscribe c who max s.net.chans).1; reg = s.net.reg };
        })
    leave :
        (c who : ℕ)
        → has c s.held ≡ true
        → Step s
            (record s { net = record { chans = unsubscribe c who s.net.chans; reg = s.net.reg } })
    collect :
        (c removed : ℕ)
        → c < s.net.chans.next
        → Step s
            (record s { net = (sweep_one R c (record { net = s.net; removed = removed })).net })

  -- A process that has just started.
  abbrev pub initial : System R.State
  initial = record {
    net = record {
      chans = record {
        cell = λ c. record { name = []; subscribers = []; deleted = false };
        next = 0;
      };
      reg = R.empty;
    };
    held = [];
  }

  pub data Reach : System R.State → Type 0 where
    start : Reach initial
    later : {s t : System R.State} → Reach s → Step s t → Reach t
