-- ===== src/Hub/Lifecycle/Safety.antt =====
-- What no interleaving can break: a subscriber is never stranded on an orphaned channel.
use wirefan.Prelude.{ℕ, ◌≡◌, ◌≢◌, ap, true, false, inl, inr, some, Str, nat_eq, Option-cases, arith}
use wirefan.Prelude.Sets.{has}
use wirefan.Hub.Channel.{subscribe, channel_deleted}
use wirefan.Hub.Lifecycle.{System, Reach}
use wirefan.Hub.Lifecycle.Invariant.{Reach-Inv}
use wirefan.Registry.{Channel, Registry}
use wirefan.Registry.Sweep.{is_empty}

full_of_has : (who : ℕ) (ch : Channel) → has who ch.subscribers ≡ true → is_empty ch ≡ false
unfolding has
full_of_has who ch h = ground arith

module _ (R : Registry) where
  open R use {State, lookup}

  -- In every reachable state a channel with a subscriber is the one registered under its name and
  -- is not deleted.
  pub no_orphan :
      (s : System State) (c who : ℕ)
      → Reach R s
      → has who (s.net.chans.cell c).subscribers ≡ true
      → (lookup (s.net.chans.cell c).name s.net.reg ≡ some c)
        × ((s.net.chans.cell c).deleted ≡ false)
  no_orphan s c who r h =
      let v = Reach-Inv R r in
      let full = full_of_has who (s.net.chans.cell c) h in
      let live : (s.net.chans.cell c).deleted ≡ false = ground (arith, v.swept c, full) in
      ((v.live c (v.joined c full)).1 live, live)

  -- Two subscribers of channels with one name are on one and the same channel.
  pub no_split :
      (s : System State) (c d who whom : ℕ)
      → Reach R s
      → has who (s.net.chans.cell c).subscribers ≡ true
      → has whom (s.net.chans.cell d).subscribers ≡ true
      → (s.net.chans.cell c).name ≡ (s.net.chans.cell d).name
      → c ≡ d
  no_split s c d who whom r h k e =
      let (on_c, _) = no_orphan s c who r h in
      let (on_d, _) = no_orphan s d whom r k in cc (ap (λ n. lookup n s.net.reg) e)

  -- A deleted channel is never handed out again: whatever name is asked for, `GetOrCreate` returns
  -- another channel, and `Subscribe` answers `ErrChannelDeleted` to those that still hold it.
  pub deleted_for_good :
      (s : System State) (c : ℕ) (n : Str) (who max : ℕ)
      → Reach R s
      → has c s.held ≡ true
      → (s.net.chans.cell c).deleted ≡ true
      → ((R.get_or_create n s.net).0 ≢ c)
        × (subscribe c who max s.net.chans ≡ (some channel_deleted, s.net.chans))
  unfolding subscribe
  deleted_for_good s c n who max r held gone =
      let v = Reach-Inv R r in
      (
        λ e. elim (Option-cases (lookup n s.net.reg)) [
          | inl miss ↦ omega (arith, (R.get_or_create_new n s.net miss).0, (v.live c held).0)
          | inr (d, h) ↦ ground (arith, R.get_or_create_old n s.net d h, v.registered n d h)
        ],
        ground arith,
      )
