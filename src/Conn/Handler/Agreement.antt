-- ===== src/Conn/Handler/Agreement.antt =====
-- A connection's own record of its channels agrees with the channels' subscribers
-- (internal/conn/handler.go, internal/conn/conn.go).
use wirefan.Prelude.{
  ℕ, ◌<◌, ◌≡◌, refl, sym, ◌∙◌, true, false, List, [], ◌∷◌, Option, none, some, Str, if◌then◌else◌,
  nat_beq, nat_beq_iff, nat_eq, str_eq, str_beq_iff, Option-cases, Bool-cases, inl, inr, ap, arith,
}
use wirefan.Prelude.Map.{Map, get, put, del, values, get-put, get-del, has-values}
use wirefan.Prelude.Sets.{has}
use mathlib.Core.Path.{subst, subst₂}
use wirefan.Conn.Handler.{Server, handle, teardown, unsubscribe_all, max_subscribe_retries}
use wirefan.Conn.Handler.Effect.{whole_loop, Changed, Effect, unchanged, refused, joined, left}
use wirefan.Conn.Handler.Handled.{Env, Asks, handle-Effect}
use wirefan.Conn.Handler.Membership.{Grown, no_channel, gained, loop-Outcome, loop-Joined}
use wirefan.Conn.Handler.Subscribing.{unsubscribe-Sound, Blank, Sound, Fair, loop-Sound}
use wirefan.Conn.State.{Libs}
use wirefan.Hub.Channel.{SubscribeError, unsubscribe, has-unsubscribe}
use wirefan.Registry.{Chans, Net, Registry}

-- The subscriptions `subs` of `who` are the channels that have `who` among their subscribers, each
-- under its name.
pub record Agree {S : Type 0} (who : ℕ) (subs : Map Str ℕ) (n : Net S) : Type 0 where
  pub blank : Blank who n
  pub listed :
      (name : Str) (c : ℕ)
      → get name subs ≡ some c
      → (has who (n.chans.cell c).subscribers ≡ true) × ((n.chans.cell c).name ≡ name)
  pub complete :
      (c : ℕ)
      → has who (n.chans.cell c).subscribers ≡ true
      → get (n.chans.cell c).name subs ≡ some c

allocated :
    {S : Type 0} (who c : ℕ) (n : Net S)
    → Blank who n
    → has who (n.chans.cell c).subscribers ≡ true
    → c < n.chans.next
allocated who c n b h = ground (arith, b c)

Grown-Agree :
    {S : Type 0} (who : ℕ) (subs : Map Str ℕ) (n m : Net S)
    → Agree who subs n
    → Grown who no_channel n m
    → Agree who subs m
Grown-Agree who subs n m a g = record {
  blank = g.blank;
  listed = λ name c h.
      let (on, named) = a.listed name c h in
      (g.mine c ∙ on, g.names c (allocated who c n a.blank on) ∙ named);
  complete = λ c h.
      let on = sym (g.mine c) ∙ h in
      ap (λ x. get x subs) (g.names c (allocated who c n a.blank on)) ∙ a.complete c on;
}

-- One more channel, under a name that was not held.
joined-Agree :
    {S : Type 0} (who c : ℕ) (name : Str) (subs : Map Str ℕ) (n m : Net S)
    → Agree who subs n
    → Grown who (nat_beq c) n m
    → get name subs ≡ none
    → (m.chans.cell c).name ≡ name
    → Agree who (put name c subs) m
joined-Agree who c name subs n m a g absent named = record {
  blank = g.blank;
  listed = λ x d h. ground (
    arith,
    get-put name x c subs,
    str_beq_iff name x,
    a.listed x d,
    g.mine d,
    g.names d,
    allocated who d n a.blank,
  );
  complete = λ d h. ground (
    arith,
    get-put name (m.chans.cell d).name c subs,
    str_beq_iff name (m.chans.cell d).name,
    nat_beq_iff c d,
    a.complete d,
    g.mine d,
    g.names d,
    allocated who d n a.blank,
  );
}

left-Agree :
    {S : Type 0} (who c : ℕ) (name : Str) (subs : Map Str ℕ) (n : Net S)
    → Agree who subs n
    → get name subs ≡ some c
    → Agree who (del name subs) (record { chans = unsubscribe c who n.chans; reg = n.reg })
left-Agree who c name subs n a on =
    let (_, named) = a.listed name c on in
    let off = has-unsubscribe c who n.chans in
    let same : (d : ℕ) → ((unsubscribe c who n.chans).cell d).name ≡ (n.chans.cell d).name =
      λ d. unfold unsubscribe in ground arith in
    let size : (unsubscribe c who n.chans).next ≡ n.chans.next = unfold unsubscribe in refl in
    record {
      blank = λ d h. ground (arith, off d who, a.blank d, size);
      listed = λ x d h.
          ground (arith, get-del name x subs, str_beq_iff name x, a.listed x d, off d who, same d);
      complete = λ d h. ground (
        arith,
        get-del name ((unsubscribe c who n.chans).cell d).name subs,
        str_beq_iff name ((unsubscribe c who n.chans).cell d).name,
        a.complete d,
        off d who,
        same d,
        nat_beq_iff c d,
        nat_beq_iff who who,
      );
    }

module _ (L : Libs) (R : Registry) where
  -- `Sound` says that a registered channel stands under its own name and is not deleted.
  abbrev pub Consistent : ℕ → Server L R → Type 0
  Consistent who w = Sound R w.net × Agree who (w.conns who).subs w.net

  carried :
      (who : ℕ) (subs : Map Str ℕ) (n : Net R.State) (w v : Server L R)
      → Changed L R who subs n w v
      → Sound R n
      → Agree who subs n
      → Consistent who v
  carried who subs n w v c s a =
      let subs_eq : subs ≡ (v.conns who).subs =
        ground (arith, c.subs_are who, nat_beq_iff who who) in
      (
        subst (λ m. Sound R m) (sym c.net_is) s,
        subst₂ (λ x m. Agree who x m) subs_eq (sym c.net_is) a,
      )

  -- Whatever a connection sends, and whatever fair other goroutines do to the registry and the
  -- channels meanwhile, its own record of its channels and the channels' subscribers agree after
  -- the message if they agreed before it, and the registry keeps to channels under their own names
  -- that are not deleted if it did before.
  pub handle-Consistent :
      (now : ℕ) (env : Env L R) (who : ℕ) (raw : Str) (w : Server L R)
      → ((i : ℕ) → Fair R who (env i))
      → Consistent who w
      → Consistent who (handle L R now env who raw w)
  handle-Consistent now env who raw w f (s, a) = go (handle-Effect L R now env who raw w)
    where
      v : Server L R
      v = handle L R now env who raw w

      loop : Str → Option SubscribeError × ℕ × Net R.State
      loop name = whole_loop L R env name who w.net

      sound : (name : Str) → Sound R (loop name).2
      sound name = loop-Sound R env name who max_subscribe_retries (none, 0, w.net) f s

      grown : (name : Str) → Grown who (gained (loop name).0 (loop name).1) w.net (loop name).2
      grown name =
          loop-Outcome R env name who max_subscribe_retries (none, 0, w.net) f s a.blank
            (λ z. absurd (omega arith))

      go : Effect L R (Asks L R raw) now env who w v → Consistent who v
      go (unchanged c) = carried who _ _ w v c s a
      go (left name ch on c) =
          carried who _ _ w v c (unsubscribe-Sound R ch who w.net s)
            (left-Agree who ch name _ _ a on)
      go (refused name bad c) = elim (Option-cases (loop name).0) [
        | inl good ↦ absurd (bad good)
        | inr (e, failed) ↦
            let g : Grown who (gained (loop name).0 (loop name).1) w.net (loop name).2 =
              grown name in
            carried who _ _ w v c (sound name) (Grown-Agree who _ _ _ a (rw failed at g))
      ]
      go (joined msg q ok free sure absent room good c) =
          let on =
            loop-Joined R env msg.channel who max_subscribe_retries (none, 0, w.net) f s
              (λ z. absurd (omega arith)) good in
          let g : Grown who (gained (loop msg.channel).0 (loop msg.channel).1) w.net
              (loop msg.channel).2 =
            grown msg.channel in
          carried who _ _ w v c (sound msg.channel)
            (joined-Agree who _ msg.channel _ _ _ a (rw good at g) absent on.named)

  has-unsubscribe_all :
      (who : ℕ) (chs : List ℕ) (h : Chans) (d : ℕ)
      → has who ((unsubscribe_all L R who chs h).cell d).subscribers
        ≡ (if has d chs then false else has who (h.cell d).subscribers)
  unfolding unsubscribe_all has
  has-unsubscribe_all who [] h d = refl
  has-unsubscribe_all who (ch ∷ chs) h d = ground (
    arith,
    has-unsubscribe_all who chs (unsubscribe ch who h) d,
    has-unsubscribe ch who h d who,
    nat_beq_iff ch d,
    nat_beq_iff who who,
  )

  -- A connection that ends is marked closed, and is on no channel any more if its own record of its
  -- channels was right.
  pub teardown_leaves_all :
      (who : ℕ) (w : Server L R) (d : ℕ)
      → Agree who (w.conns who).subs w.net
      → (has who ((teardown L R who w).net.chans.cell d).subscribers ≡ false)
        × (((teardown L R who w).conns who).closed ≡ true)
  unfolding teardown
  teardown_leaves_all who w d a =
      let subs = (w.conns who).subs in
      (
        ground (
          arith,
          has-unsubscribe_all who (values subs) w.net.chans d,
          a.complete d,
          has-values (w.net.chans.cell d).name d subs,
          Bool-cases (has who (w.net.chans.cell d).subscribers),
        ),
        ground (arith, nat_beq_iff who who),
      )
