-- ===== src/Registry/Sweep.antt =====
-- internal/registry/sweep.go, over either implementation of the registry.
use wirefan.Prelude.{
  ℕ, suc, ◌≡◌, Bool, true, false, [], ◌∷◌, none, some, Str, if◌then◌else◌, nat_eq, nat_beq, str_eq,
  str_beq, str_beq_iff, inl, inr, Bool-cases, Option-cases, arith,
}
use wirefan.Registry.{Channel, Net, Pass, Registry, write}

abbrev pub is_empty : Channel → Bool
is_empty ch = elim ch.subscribers [ [] ↦ true | s ∷ subs ↦ false ]

module _ (R : Registry) where
  open R use {State, lookup, compare_and_delete}

  -- What `Sweep` does with one channel while it holds the channel's `SubsMu`.
  unfoldable pub sweep_one : ℕ → Pass State → Pass State
  sweep_one c t =
      let ch = t.net.chans.cell c in
      let r = compare_and_delete ch.name c t.net.reg in
      if is_empty ch
      then record {
        net = record { chans = write c (record ch { deleted = true }) t.net.chans; reg = r.1 };
        removed = if r.0 then suc t.removed else t.removed;
      }
      else t

  -- `Sweep`: the registry without its empty channels, and how many were removed.
  unfoldable pub sweep : Net State → Net State × ℕ
  sweep w =
      let t = R.range (λ c t. (true, sweep_one c t)) (record { net = w; removed = 0 }) in
      (t.net, t.removed)

  -- What one critical section does to the registry.
  pub lookup-sweep_one :
      (c : ℕ) (t : Pass State) (n : Str)
      → lookup n (sweep_one c t).net.reg ≡ (
          if is_empty (t.net.chans.cell c)
          then elim (lookup n t.net.reg) [
            | none ↦ none
            | some d ↦
                if str_beq (t.net.chans.cell c).name n
                then (if nat_beq d c then none else some d)
                else some d
          ]
          else lookup n t.net.reg)
  unfolding sweep_one
  lookup-sweep_one c t n =
      let k = (t.net.chans.cell c).name in
      elim (Option-cases (lookup k t.net.reg)) [
        | inl miss ↦
            let still = R.compare_and_delete_miss k c t.net.reg (λ e. cc) in
            ground (arith, still, str_beq_iff k n)
        | inr (d, e) ↦ elim (Bool-cases (nat_beq d c)) [
          | inl same ↦
              let gone = (R.compare_and_delete_hit k c t.net.reg (ground arith)).1 n in
              ground (arith, gone, str_beq_iff k n)
          | inr other ↦
              let still = R.compare_and_delete_miss k c t.net.reg (λ h. ground arith) in
              ground (arith, still, str_beq_iff k n)
        ]
      ]
