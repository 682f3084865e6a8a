-- ===== src/Tests/Membership.antt =====
-- Runs of internal/registry and internal/hub.
use wirefan.Prelude.{
  none, List, ℕ, ◌<◌, ◌≡◌, ◌≢◌, refl, true, false, [], ◌∷◌, some, Str, codes, nat_eq, str_eq,
  str_beq_iff, arith,
}
use wirefan.Prelude.Sets.{has, add}
use wirefan.Hub.Channel.{subscribe, channel_deleted}
use wirefan.Hub.Lifecycle.{System, Reach, initial, create, join, collect, start, later}
use wirefan.Hub.Lifecycle.Safety.{no_orphan, deleted_for_good}
use wirefan.Registry.{Chans, Net, new_channel}
use wirefan.Registry.Equivalence.{
  Call, creates, compares, looks, run_calls, Same, start_with, sharded_as_sync_map,
}
use wirefan.Registry.Sweep.{sweep, sweep_one}
use wirefan.Registry.SweepLaws.{lookup-sweep, WellNamed, occupied}
use wirefan.Registry.Sharded
use wirefan.Registry.Sharded.Implements.{new_sharded}
use wirefan.Registry.SyncMap
use wirefan.Registry.SyncMap.{new_sync_map}
use wirefan.Prelude.Map.{get, put}

abbrev name_a : Str
name_a = codes "a"

abbrev S : Type 0
S = System new_sync_map.State

abbrev created : S
created = record {
  net = (new_sync_map.get_or_create name_a (initial new_sync_map).net).1;
  held = (new_sync_map.get_or_create name_a (initial new_sync_map).net).0 ∷ [];
}

abbrev joined_by : ℕ → S → S
joined_by who s = record s {
  net = record { chans = (subscribe 0 who 9 s.net.chans).1; reg = s.net.reg };
}

abbrev two_on : S
two_on = joined_by 8 (joined_by 7 created)

abbrev swept : S
swept = record created {
  net = (sweep_one new_sync_map 0 (record { net = created.net; removed = 0 })).net;
}

created-Reach : Reach new_sync_map created
created-Reach = later start (create name_a)

held_first : has 0 created.held ≡ true
unfolding new_sync_map SyncMap.get_or_create get has new_channel
held_first = refl

two_on-Reach : Reach new_sync_map two_on
two_on-Reach = later (later created-Reach (join 0 7 9 held_first)) (join 0 8 9 held_first)

first_made : 0 < created.net.chans.next
unfolding new_sync_map SyncMap.get_or_create get new_channel
first_made = omega arith

swept-Reach : Reach new_sync_map swept
swept-Reach = later created-Reach (collect 0 0 first_made)

seven_on : has 7 (two_on.net.chans.cell 0).subscribers ≡ true
unfolding new_sync_map SyncMap.get_or_create get has new_channel subscribe add
seven_on = refl

eight_on : has 8 (two_on.net.chans.cell 0).subscribers ≡ true
unfolding new_sync_map SyncMap.get_or_create get has new_channel subscribe add
eight_on = refl

swept_marked : (swept.net.chans.cell 0).deleted ≡ true
unfolding new_sync_map SyncMap.get_or_create get sweep_one new_channel SyncMap.compare_and_delete
swept_marked = refl

no_orphan_example :
    (new_sync_map.lookup (two_on.net.chans.cell 0).name two_on.net.reg ≡ some 0)
    × ((two_on.net.chans.cell 0).deleted ≡ false)
no_orphan_example = no_orphan new_sync_map two_on 0 7 two_on-Reach seven_on

deleted_for_good_example :
    ((new_sync_map.get_or_create name_a swept.net).0 ≢ 0)
    × (subscribe 0 7 9 swept.net.chans ≡ (some channel_deleted, swept.net.chans))
deleted_for_good_example =
    deleted_for_good new_sync_map swept 0 name_a 7 9 swept-Reach held_first swept_marked

created-WellNamed : WellNamed new_sync_map created.net
unfolding new_sync_map SyncMap.get_or_create get put new_channel
created-WellNamed n c h = ground (arith, str_beq_iff name_a n)

lookup-sweep_example :
    ((n : Str)
      → new_sync_map.lookup n (sweep new_sync_map created.net).0.reg
        ≡ occupied new_sync_map n created.net)
    × ((n : Str) (c : ℕ)
        → new_sync_map.lookup n created.net.reg ≡ some c
        → new_sync_map.lookup n (sweep new_sync_map created.net).0.reg ≡ none
        → ((sweep new_sync_map created.net).0.chans.cell c).deleted ≡ true)
lookup-sweep_example = lookup-sweep new_sync_map created.net created-WellNamed

abbrev two_shards : Net Sharded.Shards
two_shards = record { chans = (initial new_sharded).net.chans; reg = λ i. [] }

-- The channel of `two_on`, at a cap of two.

abbrev four_calls : List Call
four_calls = creates name_a ∷ creates name_a ∷ compares name_a 0 ∷ looks name_a ∷ []

abbrev no_channels : Chans
no_channels = (initial new_sync_map).net.chans

sharded_as_sync_map_example :
    ((run_calls new_sharded four_calls (start_with new_sharded no_channels)).0
      ≡ (run_calls new_sync_map four_calls (start_with new_sync_map no_channels)).0)
    × Same new_sharded new_sync_map
        (run_calls new_sharded four_calls (start_with new_sharded no_channels)).1
        (run_calls new_sync_map four_calls (start_with new_sync_map no_channels)).1
sharded_as_sync_map_example = sharded_as_sync_map four_calls no_channels
