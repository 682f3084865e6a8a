-- ===== src/Registry/Equivalence.antt =====
-- The two registries cannot be told apart (internal/registry/syncmap.go and sharded.go).
use wirefan.Prelude.{
  ℕ, ◌≡◌, ◌≢◌, refl, sym, ap, ◌∙◌, Bool, ◌⊎◌, inl, inr, List, [], ◌∷◌, Option, none, some, Str,
  str_eq, nat_eq, Option-cases, nat_beq, nat_beq_iff, Bool-cases, arith,
}
use wirefan.Registry.{Chans, Net, Registry, new_channel}
use wirefan.Registry.Sharded.Implements.{new_sharded}
use wirefan.Registry.SyncMap.{new_sync_map}

-- A call of the interface, and what it answers.
pub data Call : Type 0 where
  creates looks deletes : Str → Call
  compares : Str → ℕ → Call

pub data Answer : Type 0 where
  channel : ℕ → Answer
  found : Option ℕ → Answer
  removed : Bool → Answer
  silent : Answer

module _ (R : Registry) where
  unfoldable pub run_call : Call → Net R.State → Answer × Net R.State
  run_call (creates n) w = (channel (R.get_or_create n w).0, (R.get_or_create n w).1)
  run_call (looks n) w = (found (R.lookup n w.reg), w)
  run_call (deletes n) w = (silent, record w { reg = R.delete n w.reg })
  run_call (compares n c) w =
      let r = R.compare_and_delete n c w.reg in (removed r.0, record w { reg = r.1 })

  unfoldable pub run_calls : List Call → Net R.State → List Answer × Net R.State
  unfolding run_call
  run_calls [] w = ([], w)
  run_calls (call ∷ calls) w =
      let r = run_call call w in let s = run_calls calls r.1 in (r.0 ∷ s.0, s.1)

-- The same heap, and the same channel under every name.
pub record Same (R S : Registry) (w : Net R.State) (v : Net S.State) : Type 0 where
  pub heap : w.chans ≡ v.chans
  pub table : (n : Str) → R.lookup n w.reg ≡ S.lookup n v.reg

module _ (R S : Registry) where
  create-Same :
      (n : Str) (w : Net R.State) (v : Net S.State)
      → Same R S w v
      → ((R.get_or_create n w).0 ≡ (S.get_or_create n v).0)
        × Same R S (R.get_or_create n w).1 (S.get_or_create n v).1
  create-Same n w v s = elim (Option-cases (R.lookup n w.reg)) [
    | inr (c, e) ↦
        let e' : S.lookup n v.reg ≡ some c = sym (s.table n) ∙ e in
        rw (R.get_or_create_old n w c e, S.get_or_create_old n v c e') (refl, s)
    | inl miss ↦
        let miss' : S.lookup n v.reg ≡ none = sym (s.table n) ∙ miss in
        let (fresh, heap, table) = R.get_or_create_new n w miss in
        let (fresh', heap', table') = S.get_or_create_new n v miss' in
        (
          fresh ∙ (ap (λ h. h.next) s.heap ∙ sym fresh'),
          record {
            heap = heap ∙ (ap (λ h. (new_channel n h).1) s.heap ∙ sym heap');
            table = λ m. ground (arith, table m, table' m, s.table m, ap (λ h. h.next) s.heap);
          },
        )
  ]

  compare-Same :
      (n : Str) (c : ℕ) (w : Net R.State) (v : Net S.State)
      → Same R S w v
      → ((R.compare_and_delete n c w.reg).0 ≡ (S.compare_and_delete n c v.reg).0)
        × ((m : Str)
            → R.lookup m (R.compare_and_delete n c w.reg).1
              ≡ S.lookup m (S.compare_and_delete n c v.reg).1)
  compare-Same n c w v s = elim (hit_or_miss (R.lookup n w.reg)) [
    | inl hit ↦
        let (yes_r, after_r) = R.compare_and_delete_hit n c w.reg hit in
        let (yes_s, after_s) = S.compare_and_delete_hit n c v.reg (sym (s.table n) ∙ hit) in
        (yes_r ∙ sym yes_s, λ m. ground (arith, after_r m, after_s m, s.table m))
    | inr miss ↦
        let stay_r = R.compare_and_delete_miss n c w.reg miss in
        let stay_s = S.compare_and_delete_miss n c v.reg (λ e. miss (s.table n ∙ e)) in
        rw (stay_r, stay_s) (refl, s.table)
  ]
    where
      hit_or_miss : (o : Option ℕ) → (o ≡ some c) ⊎ (o ≢ some c)
      hit_or_miss none = inr (λ h. cc)
      hit_or_miss (some d) = elim (Bool-cases (nat_beq d c)) [
        | inl same ↦ inl (ground (arith, nat_beq_iff d c))
        | inr other ↦ inr (λ h. ground (arith, nat_beq_iff d c))
      ]

  call-Same :
      (call : Call) (w : Net R.State) (v : Net S.State)
      → Same R S w v
      → ((run_call R call w).0 ≡ (run_call S call v).0)
        × Same R S (run_call R call w).1 (run_call S call v).1
  unfolding run_call
  call-Same (creates n) w v s =
      let (same, after) = create-Same n w v s in (ap (λ c. channel c) same, after)
  call-Same (looks n) w v s = (ap (λ o. found o) (s.table n), s)
  call-Same (deletes n) w v s = (
    refl,
    record {
      heap = s.heap;
      table = λ m. ground (arith, R.lookup-delete n m w.reg, S.lookup-delete n m v.reg, s.table m);
    },
  )
  call-Same (compares n c) w v s =
      let (same, table) = compare-Same n c w v s in
      (ap (λ b. removed b) same, record { heap = s.heap; table = table })

  pub calls-Same :
      (calls : List Call) (w : Net R.State) (v : Net S.State)
      → Same R S w v
      → ((run_calls R calls w).0 ≡ (run_calls S calls v).0)
        × Same R S (run_calls R calls w).1 (run_calls S calls v).1
  unfolding run_calls
  calls-Same [] w v s = (refl, s)
  calls-Same (call ∷ calls) w v s =
      let (same, after) = call-Same call w v s in
      let (rest, last) = calls-Same calls (run_call R call w).1 (run_call S call v).1 after in
      (cc, last)

-- A new registry beside a heap.
abbrev pub start_with : (R : Registry) → Chans → Net R.State
start_with R h = record { chans = h; reg = R.empty }

-- From the start, with any heap, the sharded registry and the one over `sync.Map` give the same
-- answers to any sequence of `GetOrCreate`, `Lookup`, `Delete` and `CompareAndDelete`, make the same
-- channels, and hold the same channel under every name afterwards.
pub sharded_as_sync_map :
    (calls : List Call) (h : Chans)
    → ((run_calls new_sharded calls (start_with new_sharded h)).0
        ≡ (run_calls new_sync_map calls (start_with new_sync_map h)).0)
      × Same new_sharded new_sync_map
          (run_calls new_sharded calls (start_with new_sharded h)).1
          (run_calls new_sync_map calls (start_with new_sync_map h)).1
sharded_as_sync_map calls h = calls-Same new_sharded new_sync_map calls _ _ (record {
  heap = refl;
  table = λ n. new_sharded.lookup-empty n ∙ sym (new_sync_map.lookup-empty n);
})
