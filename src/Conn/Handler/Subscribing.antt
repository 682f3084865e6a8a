-- ===== src/Conn/Handler/Subscribing.antt =====
-- The retry loop of `handleSubscribe` against a registry that others sweep meanwhile
-- (internal/conn/handler.go, internal/registry/sweep.go).
use mathlib.Core.Path.{subst}
use wirefan.Prelude.{
  ℕ, zero, suc, ◌≤◌, ◌<◌, ◌≡◌, ◌≢◌, refl, true, false, ◌⊎◌, inl, inr, Option, none, some, Str,
  nat_eq, nat_beq, nat_beq_iff, str_eq, str_beq_iff, Option-cases, Bool-cases, arith,
}
use wirefan.Prelude.Sets.{has}
use wirefan.Conn.Handler.{attempt, subscribe_loop}
use wirefan.Conn.State.{default_max_subs_per_channel}
use wirefan.Hub.Channel.{
  unsubscribe, SubscribeError, too_many_subs, channel_deleted, subscribe, has-subscribe,
}
use wirefan.Registry.{Net, Registry, new_channel}

pub deleted-cases :
    (o : Option SubscribeError) → (o ≡ some channel_deleted) ⊎ (o ≢ some channel_deleted)
deleted-cases none = inr (λ h. cc)
deleted-cases (some too_many_subs) = inr (λ h. cc)
deleted-cases (some channel_deleted) = inl refl

-- `who` is on no channel that was not made yet.
abbrev pub Blank : {S : Type 0} → ℕ → Net S → Type 0
Blank who n = (d : ℕ) → n.chans.next ≤ d → has who (n.chans.cell d).subscribers ≡ false

module _ (R : Registry) where
  open R use {State, lookup}

  -- A registered channel stands under its own name and is not deleted.
  pub record Sound (n : Net State) : Type 0 where
    pub registered :
        (name : Str) (c : ℕ)
        → lookup name n.reg ≡ some c
        → (c < n.chans.next) × ((n.chans.cell c).name ≡ name) × ((n.chans.cell c).deleted ≡ false)

  -- What `who` may rely on of the other goroutines: they keep the registry sound, rename no channel,
  -- and neither add nor remove a subscription of `who`.
  pub record Fair (who : ℕ) (env : Net State → Net State) : Type 0 where
    pub keep_sound : (n : Net State) → Sound n → Sound (env n)
    pub keep_names :
        (n : Net State) (c : ℕ)
        → c < n.chans.next
        → ((env n).chans.cell c).name ≡ (n.chans.cell c).name
    pub keep_grows : (n : Net State) → n.chans.next ≤ (env n).chans.next
    pub keep_mine :
        (n : Net State)
        → Blank who n
        → (c : ℕ)
        → has who ((env n).chans.cell c).subscribers ≡ has who (n.chans.cell c).subscribers

  pub create-Sound :
      (name : Str) (n : Net State)
      → Sound n
      → Sound (R.get_or_create name n).1
        × (lookup name (R.get_or_create name n).1.reg ≡ some (R.get_or_create name n).0)
  unfolding new_channel
  create-Sound name n s = elim (Option-cases (lookup name n.reg)) [
    | inr (c, e) ↦ rw (R.get_or_create_old name n c e) (s, e)
    | inl miss ↦
        let (fresh, heap, table) = R.get_or_create_new name n miss in
        (
          record {
            registered =
                λ m d h. ground (arith, heap, table m, s.registered m d, str_beq_iff name m);
          },
          ground (arith, fresh, table name, str_beq_iff name name),
        )
  ]

  pub subscribe-Sound :
      (c who max : ℕ) (n : Net State)
      → Sound n
      → Sound (record n { chans = (subscribe c who max n.chans).1 })
  unfolding subscribe
  subscribe-Sound c who max n s = record {
    registered = λ m d h. ground (arith, s.registered m d h, nat_beq_iff c d);
  }

  pub unsubscribe-Sound :
      (c who : ℕ) (n : Net State)
      → Sound n
      → Sound (record { chans = unsubscribe c who n.chans; reg = n.reg })
  unfolding unsubscribe
  unsubscribe-Sound c who n s = record {
    registered = λ m d h. ground (arith, s.registered m d h, nat_beq_iff c d);
  }

  pub attempt-Sound :
      (env : Net State → Net State) (name : Str) (who : ℕ) (n : Net State)
      → Fair who env
      → Sound n
      → Sound (attempt R env name who n).2
  unfolding attempt
  attempt-Sound env name who n f s =
      let (c, m) = R.get_or_create name n in
      subscribe-Sound c who default_max_subs_per_channel (env m)
        (f.keep_sound m (create-Sound name n s).0)

  -- What others do in a round that does not sweep the channel `name`.
  abbrev pub Spares : Str → (Net State → Net State) → Type 0
  Spares name env =
      (n : Net State) (c : ℕ)
      → Sound n
      → lookup name n.reg ≡ some c
      → ((env n).chans.cell c).deleted ≡ false

  attempt-Spares :
      (env : Net State → Net State) (name : Str) (who : ℕ) (n : Net State)
      → Spares name env
      → Sound n
      → (attempt R env name who n).0 ≢ some channel_deleted
  unfolding attempt subscribe
  attempt-Spares env name who n spares s =
      let (s', here) = create-Sound name n s in
      let live = spares (R.get_or_create name n).1 _ s' here in λ h. ground (arith, live)

  pub loop_stop :
      (env : ℕ → Net State → Net State) (name : Str) (who left : ℕ)
      (last : Option SubscribeError × ℕ × Net State)
      → (attempt R (env left) name who last.2).0 ≢ some channel_deleted
      → subscribe_loop R env name who (suc left) last ≡ attempt R (env left) name who last.2
  unfolding subscribe_loop
  loop_stop env name who left last h = ground (arith, h)

  pub loop_retry :
      (env : ℕ → Net State → Net State) (name : Str) (who left : ℕ)
      (last : Option SubscribeError × ℕ × Net State)
      → (attempt R (env left) name who last.2).0 ≡ some channel_deleted
      → subscribe_loop R env name who (suc left) last
        ≡ subscribe_loop R env name who left (attempt R (env left) name who last.2)
  unfolding subscribe_loop
  loop_retry env name who left last h = ground arith

  pub loop-Sound :
      (env : ℕ → Net State → Net State) (name : Str) (who left : ℕ)
      (last : Option SubscribeError × ℕ × Net State)
      → ((i : ℕ) → Fair who (env i))
      → Sound last.2
      → Sound (subscribe_loop R env name who left last).2
  loop-Sound env name who zero last f s = unfold subscribe_loop in s
  loop-Sound env name who (suc left) last f s =
      let r = attempt R (env left) name who last.2 in
      let s' = attempt-Sound (env left) name who last.2 (f left) s in
      elim (deleted-cases r.0) [
        | inl gone ↦
            rw (loop_retry env name who left last gone) (loop-Sound env name who left r f s')
        | inr other ↦ rw (loop_stop env name who left last other) s'
      ]

  -- One round in which the others do not sweep the channel of that name is enough: then the subscribe
  -- does not fail with `ErrChannelDeleted`, whatever else they do in that round and whatever they do,
  -- sweeps included, in the other rounds, as long as they are fair.
  pub loop_progress :
      (env : ℕ → Net State → Net State) (name : Str) (who left quiet : ℕ)
      (last : Option SubscribeError × ℕ × Net State)
      → ((i : ℕ) → Fair who (env i))
      → Sound last.2
      → quiet < left
      → Spares name (env quiet)
      → (subscribe_loop R env name who left last).0 ≢ some channel_deleted
  loop_progress env name who zero quiet last f s lt e = absurd (omega arith)
  loop_progress env name who (suc left) quiet last f s lt e =
      let r = attempt R (env left) name who last.2 in
      elim (deleted-cases r.0) [
        | inr other ↦ rw (loop_stop env name who left last other) other
        | inl gone ↦ elim (Bool-cases (nat_beq quiet left)) [
          | inl now ↦
              let same : quiet ≡ left = (nat_beq_iff quiet left).0 now in
              absurd (
                attempt-Spares (env left) name who last.2 (subst (λ i. Spares name (env i)) same e)
                  s gone)
          | inr before ↦ rw (loop_retry env name who left last gone) (
              loop_progress env name who left quiet r f
                (attempt-Sound (env left) name who last.2 (f left) s) (ground arith) e)
        ]
      ]

  -- A loop that ends without error has put the subscriber on a channel of that name that is not
  -- deleted.
  pub record Joined (name : Str) (who : ℕ) (after : Net State) (c : ℕ) : Type 0 where
    pub on : has who (after.chans.cell c).subscribers ≡ true
    pub allocated : c < after.chans.next
    pub named : (after.chans.cell c).name ≡ name
    pub live : (after.chans.cell c).deleted ≡ false

  pub attempt-Joined :
      (env : Net State → Net State) (name : Str) (who : ℕ) (n : Net State)
      → Fair who env
      → Sound n
      → (attempt R env name who n).0 ≡ none
      → Joined name who (attempt R env name who n).2 (attempt R env name who n).1
  unfolding attempt
  attempt-Joined env name who n f s done =
      let (c, m) = R.get_or_create name n in
      let (s', here) = create-Sound name n s in
      let (old, named, _) = s'.registered name c here in
      record {
        on =
            ground
              (arith, has-subscribe c who default_max_subs_per_channel (env m).chans done c who);
        allocated = unfold subscribe in ground (arith, f.keep_grows m);
        named = unfold subscribe in ground (arith, f.keep_names m c old);
        live = unfold subscribe in ground arith;
      }
