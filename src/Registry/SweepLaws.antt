-- ===== src/Registry/SweepLaws.antt =====
-- What one pass of `Sweep` leaves behind (internal/registry/sweep.go).
use wirefan.Prelude.{
  ℕ, ◌≡◌, refl, true, false, Option, none, some, Str, if◌then◌else◌, str_beq_iff, nat_beq_iff, ◌⊎◌,
  inl, inr, Option-cases, arith,
}
use wirefan.Registry.{Net, Pass, Registry}
use wirefan.Registry.Sweep.{is_empty, sweep_one, sweep, lookup-sweep_one}

module _ (R : Registry) where
  open R use {State, lookup}

  -- Every entry stands under its channel's own name.
  abbrev pub WellNamed : Net State → Type 0
  WellNamed w = (n : Str) (c : ℕ) → lookup n w.reg ≡ some c → (w.chans.cell c).name ≡ n

  -- The channel registered under a name, if it has a subscriber.
  abbrev pub occupied : Str → Net State → Option ℕ
  occupied n w = elim (lookup n w.reg) [
    | none ↦ none
    | some c ↦ if is_empty (w.chans.cell c) then none else some c
  ]

  -- Between two callbacks of a pass that began at `w`.
  record During (w : Net State) (t : Pass State) : Type 0 where
    kept :
        (n : Str) (c : ℕ)
        → lookup n w.reg ≡ some c
        → is_empty (w.chans.cell c) ≡ false
        → lookup n t.net.reg ≡ some c
    only : (n : Str) (c : ℕ) → lookup n t.net.reg ≡ some c → lookup n w.reg ≡ some c
    same_subs : (c : ℕ) → (t.net.chans.cell c).subscribers ≡ (w.chans.cell c).subscribers
    same_name : (c : ℕ) → (t.net.chans.cell c).name ≡ (w.chans.cell c).name
    marked :
        (n : Str) (c : ℕ)
        → lookup n w.reg ≡ some c
        → (lookup n t.net.reg ≡ some c) ⊎ ((t.net.chans.cell c).deleted ≡ true)

  same_empty :
      (w : Net State) (t : Pass State) (c : ℕ)
      → During w t
      → is_empty (t.net.chans.cell c) ≡ is_empty (w.chans.cell c)
  same_empty w t c d = rw (d.same_subs c)

  sweep_one-During :
      (w : Net State) (c : ℕ) (t : Pass State) → During w t → During w (sweep_one R c t)
  sweep_one-During w c t d = record {
    kept = λ n e h full.
        ground
          (arith, lookup-sweep_one R c t n, d.kept n e h full, same_empty w t c d, nat_beq_iff e c);
    only = λ n e h. d.only n e (ground (arith, lookup-sweep_one R c t n));
    same_subs = λ e. unfold sweep_one in ground (arith, d.same_subs e);
    same_name = λ e. unfold sweep_one in ground (arith, d.same_name e);
    marked = λ n e h. elim (d.marked n e h) [
      | inl still ↦
          unfold sweep_one in ground (arith, lookup-sweep_one R c t n, still, nat_beq_iff e c)
      | inr gone ↦ inr (unfold sweep_one in ground (arith, gone))
    ];
  }

  Vacated : Net State → Str → ℕ → Pass State → Type 0
  Vacated w n c t = lookup n t.net.reg ≡ some c → is_empty (w.chans.cell c) ≡ false

  sweep_one-Vacated :
      (w : Net State)
      → WellNamed w
      → (n : Str) (c : ℕ) (t : Pass State) → During w t
      → Vacated w n c (sweep_one R c t)
  unfolding Vacated
  sweep_one-Vacated w named n c t d h =
      let before : lookup n t.net.reg ≡ some c = ground (arith, lookup-sweep_one R c t n) in
      ground (
        arith,
        lookup-sweep_one R c t n,
        same_empty w t c d,
        d.same_name c,
        named n c (d.only n c before),
        str_beq_iff (t.net.chans.cell c).name n,
      )

  sweep_one-stable :
      (w : Net State) (n : Str) (c e : ℕ) (t : Pass State)
      → Vacated w n c t
      → Vacated w n c (sweep_one R e t)
  unfolding Vacated
  sweep_one-stable w n c e t v h = v (ground (arith, lookup-sweep_one R e t n))

  pass :
      (w : Net State)
      → WellNamed w
      → let t = R.range (λ c t. (true, sweep_one R c t)) (record { net = w; removed = 0 }) in
        During w t × ((n : Str) (c : ℕ) → Vacated w n c t)
  unfolding Vacated
  pass w named =
      R.range_all (During w) (Vacated w) (λ c t. (true, sweep_one R c t)) (sweep_one-During w)
        (λ c t. refl) (λ n c t h e. absurd (h e)) (λ n c t. sweep_one-Vacated w named n c t)
        (λ n c e t d. sweep_one-stable w n c e t) (record { net = w; removed = 0 })
        (record {
          kept = λ n c h full. h;
          only = λ n c h. h;
          same_subs = λ c. refl;
          same_name = λ c. refl;
          marked = λ n c h. inl h;
        })

  -- A pass removes exactly the channels without a subscriber, no other entry changes, and each
  -- channel that it removed is marked deleted.
  pub lookup-sweep :
      (w : Net State)
      → WellNamed w
      → ((n : Str) → lookup n (sweep R w).0.reg ≡ occupied n w)
        × ((n : Str) (c : ℕ)
            → lookup n w.reg ≡ some c
            → lookup n (sweep R w).0.reg ≡ none
            → ((sweep R w).0.chans.cell c).deleted ≡ true)
  unfolding sweep Vacated
  lookup-sweep w named =
      let (d, v) = pass w named in
      let t : Pass State =
        R.range (λ c t. (true, sweep_one R c t)) (record { net = w; removed = 0 }) in
      (
        λ n. elim (Option-cases (lookup n t.net.reg)) [
          | inl gone ↦ elim (Option-cases (lookup n w.reg)) [
            | inl never ↦ ground arith
            | inr (c, e) ↦ ground (arith, d.kept n c e)
          ]
          | inr (c, e) ↦ ground (arith, d.only n c e, v n c e)
        ],
        λ n c e gone. ground (arith, d.marked n c e),
      )
