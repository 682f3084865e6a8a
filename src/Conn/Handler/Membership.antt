-- ===== src/Conn/Handler/Membership.antt =====
-- What the retry loop of `handleSubscribe` does to one connection's subscriptions.
use wirefan.Prelude.{
  ℕ, zero, suc, ◌≤◌, ◌<◌, ◌≡◌, ◌≢◌, refl, Bool, false, ◌||◌, inl, inr, Option, none, some, Str,
  nat_eq, nat_beq, str_eq, Option-cases, arith,
}
use wirefan.Prelude.Sets.{has}
use wirefan.Conn.Handler.{attempt, subscribe_loop}
use wirefan.Conn.Handler.Subscribing.{
  Blank, Sound, Fair, Joined, create-Sound, attempt-Sound, attempt-Joined, deleted-cases, loop_stop,
  loop_retry,
}
use wirefan.Conn.State.{default_max_subs_per_channel}
use wirefan.Hub.Channel.{SubscribeError, subscribe, has-subscribe}
use wirefan.Registry.{Net, Registry, new_channel}

-- From `n` to `m` the subscriptions of `who` grow by the channels that `more` is true of.
pub record Grown {S : Type 0} (who : ℕ) (more : ℕ → Bool) (n m : Net S) : Type 0 where
  pub blank : Blank who m
  pub names : (d : ℕ) → d < n.chans.next → (m.chans.cell d).name ≡ (n.chans.cell d).name
  pub grows : n.chans.next ≤ m.chans.next
  pub mine :
      (d : ℕ)
      → has who (m.chans.cell d).subscribers ≡ (more d || has who (n.chans.cell d).subscribers)

abbrev pub no_channel : ℕ → Bool
no_channel d = false

-- The channels that a verdict of `Subscribe` on channel `c` adds.
abbrev pub gained : Option SubscribeError → ℕ → ℕ → Bool
gained none c = nat_beq c
gained (some e) c = no_channel

Grown-trans :
    {S : Type 0} {who : ℕ} {more : ℕ → Bool} {n m k : Net S}
    → Grown who no_channel n m
    → Grown who more m k
    → Grown who more n k
Grown-trans {n} {m} {k} p q = record {
  blank = q.blank;
  names = λ d h. ground (arith, p.grows, q.names d, p.names d h);
  grows = omega (arith, p.grows, q.grows);
  mine = λ d. ground (arith, q.mine d, p.mine d);
}

module _ (R : Registry) where
  open R use {State, lookup}

  create-Grown :
      (name : Str) (who : ℕ) (n : Net State)
      → Blank who n
      → Grown who no_channel n (R.get_or_create name n).1
  unfolding new_channel
  create-Grown name who n b = elim (Option-cases (lookup name n.reg)) [
    | inr (c, e) ↦
        rw (R.get_or_create_old name n c e)
          (record { blank = b; names = λ d h. refl; grows = omega arith; mine = λ d. refl })
    | inl miss ↦
        let heap = (R.get_or_create_new name n miss).1 in
        record {
          blank = λ d h. unfold has in ground (arith, heap, b d);
          names = λ d h. ground (arith, heap);
          grows = ground (arith, heap);
          mine = λ d. unfold has in ground (arith, heap, b d);
        }
  ]

  env-Grown :
      (env : Net State → Net State) (who : ℕ) (n : Net State)
      → Fair R who env
      → Blank who n
      → Grown who no_channel n (env n)
  env-Grown env who n f b = record {
    blank = λ d h. ground (arith, f.keep_mine n b d, f.keep_grows n, b d);
    names = λ d h. f.keep_names n d h;
    grows = f.keep_grows n;
    mine = λ d. f.keep_mine n b d;
  }

  subscribe_done :
      (c who max : ℕ) (n : Net State)
      → c < n.chans.next
      → Blank who n
      → (subscribe c who max n.chans).0 ≡ none
      → Grown who (nat_beq c) n (record n { chans = (subscribe c who max n.chans).1 })
  subscribe_done c who max n lt b done =
      let mine = has-subscribe c who max n.chans done in
      record {
        blank = λ d h. unfold subscribe in ground (arith, mine d who, b d);
        names = λ d h. unfold subscribe in ground arith;
        grows = unfold subscribe in ground arith;
        mine = λ d. ground (arith, mine d who);
      }

  subscribe_refused :
      (c who max : ℕ) (n : Net State) (e : SubscribeError)
      → Blank who n
      → (subscribe c who max n.chans).0 ≡ some e
      → Grown who no_channel n (record n { chans = (subscribe c who max n.chans).1 })
  unfolding subscribe
  subscribe_refused c who max n e b h = record {
    blank = λ d k. ground (arith, b d);
    names = λ d k. ground arith;
    grows = ground arith;
    mine = λ d. ground arith;
  }

  abbrev Outcome : ℕ → Net State → Option SubscribeError × ℕ × Net State → Type 0
  Outcome who n r = Grown who (gained r.0 r.1) n r.2

  attempt-Outcome :
      (env : Net State → Net State) (name : Str) (who : ℕ) (n : Net State)
      → Fair R who env
      → Sound R n
      → Blank who n
      → Outcome who n (attempt R env name who n)
  unfolding attempt
  attempt-Outcome env name who n f s b =
      let (c, m) = R.get_or_create name n in
      let made = create-Grown name who n b in
      let met = Grown-trans made (env-Grown env who m f made.blank) in
      let (s', here) = create-Sound R name n s in
      let (old, _, _) = s'.registered name c here in
      let v = (subscribe c who default_max_subs_per_channel (env m).chans).0 in
      elim (Option-cases v) [
        | inl done ↦
            rw (done, attempt)
              (Grown-trans met
                (subscribe_done c who _ (env m) (omega (arith, f.keep_grows m)) met.blank done))
        | inr (e, refused) ↦
            rw (refused, attempt)
              (Grown-trans met (subscribe_refused c who _ (env m) e met.blank refused))
      ]

  stopped-Outcome :
      (who : ℕ) (last : Option SubscribeError × ℕ × Net State)
      → Blank who last.2
      → last.0 ≢ none
      → Outcome who last.2 last
  stopped-Outcome who last b h = elim (Option-cases last.0) [
    | inl done ↦ absurd (h done)
    | inr (e, failed) ↦
        rw failed (record { blank = b; names = λ d k. refl; grows = omega arith; mine = λ d. refl })
  ]

  -- The loop adds exactly the channel that it returns to the subscriptions of `who` if it ends
  -- without error, and changes none of them if it fails.
  pub loop-Outcome :
      (env : ℕ → Net State → Net State) (name : Str) (who left : ℕ)
      (last : Option SubscribeError × ℕ × Net State)
      → ((i : ℕ) → Fair R who (env i))
      → Sound R last.2
      → Blank who last.2
      → (left ≡ 0 → last.0 ≢ none)
      → Outcome who last.2 (subscribe_loop R env name who left last)
  loop-Outcome env name who zero last f s b h =
      unfold subscribe_loop in stopped-Outcome who last b (h refl)
  loop-Outcome env name who (suc left) last f s b h =
      let r = attempt R (env left) name who last.2 in
      let out = attempt-Outcome (env left) name who last.2 (f left) s b in
      elim (deleted-cases r.0) [
        | inr other ↦ rw (loop_stop R env name who left last other) out
        | inl gone ↦
            let kept : Grown who no_channel last.2 r.2 = rw gone at out in
            rw (loop_retry R env name who left last gone) (
              Grown-trans kept (
                loop-Outcome env name who left r f
                  (attempt-Sound R (env left) name who last.2 (f left) s) kept.blank
                  (λ z. rw gone (λ k. cc))))
      ]

  -- The channel that it returns then is live, bears the name, and has
  -- `who` among its subscribers.
  pub loop-Joined :
      (env : ℕ → Net State → Net State) (name : Str) (who left : ℕ)
      (last : Option SubscribeError × ℕ × Net State)
      → ((i : ℕ) → Fair R who (env i))
      → Sound R last.2
      → (left ≡ 0 → last.0 ≢ none)
      → (subscribe_loop R env name who left last).0 ≡ none
      → Joined R name who
          (subscribe_loop R env name who left last).2
          (subscribe_loop R env name who left last).1
  loop-Joined env name who zero last f s h done = absurd (h refl (unfold subscribe_loop in done))
  loop-Joined env name who (suc left) last f s h done =
      let r = attempt R (env left) name who last.2 in
      elim (deleted-cases r.0) [
        | inr other ↦ rw (loop_stop R env name who left last other) (
            attempt-Joined R (env left) name who last.2 (f left) s
              (rw (loop_stop R env name who left last other) at done))
        | inl gone ↦ rw (loop_retry R env name who left last gone) (
            loop-Joined env name who left r f
              (attempt-Sound R (env left) name who last.2 (f left) s) (λ z. rw gone (λ k. cc))
              (rw (loop_retry R env name who left last gone) at done))
      ]
