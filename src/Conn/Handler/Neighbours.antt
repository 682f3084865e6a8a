-- ===== src/Conn/Handler/Neighbours.antt =====
-- What other goroutines do while a subscribe is between its locks is fair to it
-- (internal/registry, internal/hub/channel.go, internal/conn/handler.go).
use wirefan.Prelude.{
  ℕ, ◌≢◌, refl, ◌∙◌, inl, inr, List, [], ◌∷◌, Str, nat_beq_iff, nat_eq, str_eq, str_beq_iff, All,
  Option-cases, arith,
}
use wirefan.Prelude.Sets.{has}
use wirefan.Conn.Handler.{Server, handle}
use wirefan.Conn.Handler.Agreement.{Consistent, handle-Consistent}
use wirefan.Conn.Handler.Subscribing.{Fair, Blank, create-Sound, subscribe-Sound, unsubscribe-Sound}
use wirefan.Conn.State.{Libs}
use wirefan.Hub.Channel.{subscribe, unsubscribe, has-unsubscribe, has_other-subscribe}
use wirefan.Registry.{Net, Pass, Registry, new_channel}
use wirefan.Registry.Sweep.{sweep_one, lookup-sweep_one}

-- One critical section of another goroutine.
pub data Act : Type 0 where
  finds : Str → Act
  enters : (c by max : ℕ) → Act
  quits : (c by : ℕ) → Act
  collects : ℕ → Act

-- The act is not one of `who`.
abbrev pub NotBy : ℕ → Act → Type 0
NotBy who (enters c by max) = by ≢ who
NotBy who (quits c by) = by ≢ who
NotBy who (finds name) = Unit
NotBy who (collects c) = Unit

module _ (R : Registry) where
  open R use {State, lookup}

  unfoldable pub run_act : Act → Net State → Net State
  run_act (finds name) n = (R.get_or_create name n).1
  run_act (enters c by max) n = record n { chans = (subscribe c by max n.chans).1 }
  run_act (quits c by) n = record n { chans = unsubscribe c by n.chans }
  run_act (collects c) n = (sweep_one R c (record { net = n; removed = 0 })).net

  unfoldable pub run_acts : List Act → Net State → Net State
  unfolding run_act
  run_acts [] n = n
  run_acts (a ∷ acts) n = run_acts acts (run_act a n)

  finds-Fair : (who : ℕ) (name : Str) → Fair R who (run_act (finds name))
  unfolding run_act new_channel
  finds-Fair who name = record {
    keep_sound = λ n s. (create-Sound R name n s).0;
    keep_names = λ n c lt. elim (Option-cases (lookup name n.reg)) [
      | inr (d, e) ↦ rw (R.get_or_create_old name n d e, run_act) refl
      | inl miss ↦ ground (arith, (R.get_or_create_new name n miss).1)
    ];
    keep_grows = λ n. elim (Option-cases (lookup name n.reg)) [
      | inr (d, e) ↦ rw (R.get_or_create_old name n d e, run_act) (omega arith)
      | inl miss ↦ ground (arith, (R.get_or_create_new name n miss).1)
    ];
    keep_mine = λ n b c. elim (Option-cases (lookup name n.reg)) [
      | inr (d, e) ↦ rw (R.get_or_create_old name n d e, run_act) refl
      | inl miss ↦ unfold has in ground (arith, (R.get_or_create_new name n miss).1, b c)
    ];
  }

  enters-Fair : (who c by max : ℕ) → by ≢ who → Fair R who (run_act (enters c by max))
  unfolding run_act
  enters-Fair who c by max other = record {
    keep_sound = λ n s. subscribe-Sound R c by max n s;
    keep_names = λ n d lt. unfold subscribe in ground arith;
    keep_grows = λ n. unfold subscribe in ground arith;
    keep_mine = λ n b d. has_other-subscribe c by max n.chans d who other;
  }

  quits-Fair : (who c by : ℕ) → by ≢ who → Fair R who (run_act (quits c by))
  unfolding run_act
  quits-Fair who c by other = record {
    keep_sound = λ n s. unsubscribe-Sound R c by n s;
    keep_names = λ n d lt. unfold unsubscribe in ground arith;
    keep_grows = λ n. unfold unsubscribe in ground arith;
    keep_mine = λ n b d. ground (arith, has-unsubscribe c by n.chans d who, nat_beq_iff by who);
  }

  collects-Fair : (who c : ℕ) → Fair R who (run_act (collects c))
  unfolding run_act
  collects-Fair who c = record {
    keep_sound = λ n s. record {
      registered = λ name d h.
          let t : Pass State = record { net = n; removed = 0 } in
          let look = lookup-sweep_one R c t name in
          unfold sweep_one in
          ground (
            arith,
            look,
            s.registered name d,
            nat_beq_iff d c,
            nat_beq_iff c d,
            str_beq_iff (n.chans.cell c).name name,
          );
    };
    keep_names = λ n d lt. unfold sweep_one in ground arith;
    keep_grows = λ n. unfold sweep_one in ground arith;
    keep_mine = λ n b d. unfold sweep_one in ground arith;
  }

  act-Fair : (who : ℕ) (a : Act) → NotBy who a → Fair R who (run_act a)
  act-Fair who (finds name) other = finds-Fair who name
  act-Fair who (enters c by max) other = enters-Fair who c by max other
  act-Fair who (quits c by) other = quits-Fair who c by other
  act-Fair who (collects c) other = collects-Fair who c

  -- `Blank` is kept by what is fair.
  Blank-Fair :
      (who : ℕ) (env : Net State → Net State) (n : Net State)
      → Fair R who env
      → Blank who n
      → Blank who (env n)
  Blank-Fair who env n f b d h = ground (arith, f.keep_mine n b d, f.keep_grows n, b d)

  -- Any sequence of critical sections of other goroutines is fair: they look up and create channels,
  -- subscribe and unsubscribe other connections, and sweep.
  pub run_acts-Fair :
      (who : ℕ) (acts : List Act) → All (NotBy who) acts → Fair R who (run_acts acts)
  unfolding run_acts
  run_acts-Fair who [] others = record {
    keep_sound = λ n s. s;
    keep_names = λ n c lt. refl;
    keep_grows = λ n. omega arith;
    keep_mine = λ n b c. refl;
  }
  run_acts-Fair who (a ∷ acts) others =
      let f = act-Fair who a others.0 in
      let g = run_acts-Fair who acts others.1 in
      record {
        keep_sound = λ n s. g.keep_sound (run_act a n) (f.keep_sound n s);
        keep_names = λ n c lt.
            g.keep_names (run_act a n) c (omega (arith, f.keep_grows n)) ∙ f.keep_names n c lt;
        keep_grows = λ n. omega (arith, f.keep_grows n, g.keep_grows (run_act a n));
        keep_mine = λ n b c.
            g.keep_mine (run_act a n) (Blank-Fair who (run_act a) n f b) c ∙ f.keep_mine n b c;
      }

-- While a connection handles a message, any number of critical sections of other goroutines may run
-- between the two locks of each round of its retry loop: they look up and create channels, subscribe
-- and unsubscribe other connections, and sweep. Its own record of its channels and the channels'
-- subscribers agree after the message if they agreed before it.
pub handle-Consistent_among :
    (L : Libs) (R : Registry) (now : ℕ) (acts : ℕ → List Act) (who : ℕ) (raw : Str) (w : Server L R)
    → ((i : ℕ) → All (NotBy who) (acts i))
    → Consistent L R who w
    → Consistent L R who (handle L R now (λ i. run_acts R (acts i)) who raw w)
handle-Consistent_among L R now acts who raw w others c =
    handle-Consistent L R now (λ i. run_acts R (acts i)) who raw w
      (λ i. run_acts-Fair R who (acts i) (others i)) c
