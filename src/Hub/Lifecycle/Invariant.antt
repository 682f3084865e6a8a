-- ===== src/Hub/Lifecycle/Invariant.antt =====
-- What every interleaving of the critical sections keeps true.
use wirefan.Prelude.{
  ℕ, ◌<◌, ◌≡◌, refl, true, false, inl, inr, ◌∷◌, none, some, Str, nat_eq, nat_beq_iff, str_eq,
  str_beq_iff, Option-cases, arith,
}
use wirefan.Prelude.Sets.{has, remove}
use wirefan.Hub.Channel.{subscribe, unsubscribe}
use wirefan.Hub.Lifecycle.{
  System, Step, create, lose, join, leave, collect, initial, Reach, start, later,
}
use wirefan.Registry.{Channel, Pass, Registry, new_channel}
use wirefan.Registry.Sweep.{sweep_one, lookup-sweep_one, is_empty}

module _ (R : Registry) where
  open R use {State, lookup}

  pub record Inv (s : System State) : Type 0 where
    -- A registered channel stands under its own name, is not deleted, and was handed out.
    pub registered :
        (n : Str) (c : ℕ)
        → lookup n s.net.reg ≡ some c
        → (c < s.net.chans.next)
          × ((s.net.chans.cell c).name ≡ n)
          × ((s.net.chans.cell c).deleted ≡ false)
          × (has c s.held ≡ true)
    -- A channel in someone's hands is registered under its name until it is deleted.
    pub live :
        (c : ℕ)
        → has c s.held ≡ true
        → (c < s.net.chans.next)
          × ((s.net.chans.cell c).deleted ≡ false
              → lookup (s.net.chans.cell c).name s.net.reg ≡ some c)
    -- A deleted channel has no subscriber, and a subscribed one was handed out.
    pub swept : (c : ℕ) → (s.net.chans.cell c).deleted ≡ true → is_empty (s.net.chans.cell c) ≡ true
    pub joined : (c : ℕ) → is_empty (s.net.chans.cell c) ≡ false → has c s.held ≡ true

  initial-Inv : Inv (initial R)
  initial-Inv = record {
    registered = λ n c h. ground (arith, R.lookup-empty n);
    live = λ c h. unfold has in ground arith;
    swept = λ c h. refl;
    joined = λ c h. ground arith;
  }

  create_old-Inv :
      (s : System State) (n : Str) (c : ℕ)
      → lookup n s.net.reg ≡ some c
      → Inv s
      → Inv (record { net = s.net; held = c ∷ s.held })
  unfolding has
  create_old-Inv s n c e v = record {
    registered = λ m d h. ground (arith, v.registered m d h);
    live = λ d h. ground (arith, v.live d, v.registered n c e, nat_beq_iff c d);
    swept = v.swept;
    joined = λ d h. ground (arith, v.joined d h);
  }

  create_new-Inv :
      (s : System State) (n : Str)
      → lookup n s.net.reg ≡ none
      → Inv s
      → Inv (record {
        net = (R.get_or_create n s.net).1;
        held = (R.get_or_create n s.net).0 ∷ s.held;
      })
  unfolding has new_channel
  create_new-Inv s n e v =
      let (fresh, heap, table) = R.get_or_create_new n s.net e in
      record {
        registered =
            λ m d h. ground (arith, fresh, heap, table m, v.registered m d, str_beq_iff n m);
        live = λ d h. ground (
          arith,
          fresh,
          heap,
          table (s.net.chans.cell d).name,
          table n,
          v.live d,
          v.registered n d,
          str_beq_iff n (s.net.chans.cell d).name,
          str_beq_iff n n,
        );
        swept = λ d h. ground (arith, heap, v.swept d);
        joined = λ d h. ground (arith, fresh, heap, v.joined d);
      }

  create-Inv :
      (s : System State) (n : Str)
      → Inv s
      → Inv (record {
        net = (R.get_or_create n s.net).1;
        held = (R.get_or_create n s.net).0 ∷ s.held;
      })
  create-Inv s n v = elim (Option-cases (lookup n s.net.reg)) [
    | inl miss ↦ create_new-Inv s n miss v
    | inr (c, e) ↦ rw (R.get_or_create_old n s.net c e) (create_old-Inv s n c e v)
  ]

  lose-Inv :
      (s : System State) (n : Str) (c : ℕ)
      → lookup n s.net.reg ≡ some c
      → Inv s
      → Inv (record {
        net = record { chans = (new_channel n s.net.chans).1; reg = s.net.reg };
        held = c ∷ s.held;
      })
  unfolding has new_channel
  lose-Inv s n c e v = record {
    registered = λ m d h. ground (arith, v.registered m d h);
    live = λ d h. ground (arith, v.live d, v.registered n c e, nat_beq_iff c d);
    swept = λ d h. ground (arith, v.swept d);
    joined = λ d h. ground (arith, v.joined d);
  }

  join-Inv :
      (s : System State) (c who max : ℕ)
      → has c s.held ≡ true
      → Inv s
      → Inv (record s {
        net = record { chans = (subscribe c who max s.net.chans).1; reg = s.net.reg };
      })
  unfolding subscribe
  join-Inv s c who max held v = record {
    registered = λ m d h. ground (arith, v.registered m d h);
    live = λ d h. ground (arith, v.live d h);
    swept = λ d h. ground (arith, v.swept d, nat_beq_iff c d);
    joined = λ d h. ground (arith, v.joined d, nat_beq_iff c d);
  }

  still_empty :
      (who : ℕ) (ch : Channel)
      → is_empty ch ≡ true
      → is_empty (record ch { subscribers = remove who ch.subscribers }) ≡ true
  unfolding remove
  still_empty who ch e = ground arith

  leave-Inv :
      (s : System State) (c who : ℕ)
      → has c s.held ≡ true
      → Inv s
      → Inv (record s { net = record { chans = unsubscribe c who s.net.chans; reg = s.net.reg } })
  unfolding unsubscribe
  leave-Inv s c who held v = record {
    registered = λ m d h. ground (arith, v.registered m d h);
    live = λ d h. ground (arith, v.live d h);
    swept = λ d h. ground (arith, v.swept d, still_empty who (s.net.chans.cell c), nat_beq_iff c d);
    joined = λ d h. ground (arith, v.joined d, nat_beq_iff c d);
  }

  collect-Inv :
      (s : System State) (c removed : ℕ)
      → c < s.net.chans.next
      → Inv s
      → Inv (record s { net = (sweep_one R c (record { net = s.net; removed = removed })).net })
  collect-Inv s c removed small v =
      let t : Pass State = record { net = s.net; removed = removed } in
      record {
        registered = λ m d h.
            unfold sweep_one in
            ground (
              arith,
              v.registered m d,
              lookup-sweep_one R c t m,
              nat_beq_iff d c,
              str_beq_iff (s.net.chans.cell c).name m,
            );
        live = λ d h.
            unfold sweep_one in
            ground (
              arith,
              v.live d h,
              lookup-sweep_one R c t (s.net.chans.cell d).name,
              nat_beq_iff d c,
            );
        swept = λ d h. unfold sweep_one in ground (arith, v.swept d);
        joined = λ d h. unfold sweep_one in ground (arith, v.joined d);
      }

  Step-Inv : {s t : System State} → Step R s t → Inv s → Inv t
  Step-Inv {s} (create n) v = create-Inv s n v
  Step-Inv {s} (lose n c e) v = lose-Inv s n c e v
  Step-Inv {s} (join c who max h) v = join-Inv s c who max h v
  Step-Inv {s} (leave c who h) v = leave-Inv s c who h v
  Step-Inv {s} (collect c removed h) v = collect-Inv s c removed h v

  pub Reach-Inv : {s : System State} → Reach R s → Inv s
  Reach-Inv start = initial-Inv
  Reach-Inv (later r st) = Step-Inv st (Reach-Inv r)
