-- ===== src/Registry/Sharded/Implements.antt =====
-- The sharded registry keeps the promises of the interface (internal/registry/sharded.go).
use wirefan.Prelude.{
  ℕ, zero, suc, ◌+◌, ◌<◌, ◌≡◌, ◌≢◌, refl, Bool, true, List, [], ◌∷◌, some, Str, nat_eq, str_eq,
  nat_beq, nat_beq_iff, dec_lt, ◌⊎◌, Bool-cases, inl, inr, arith,
}
use wirefan.Prelude.Map.{values, has-values}
use wirefan.Prelude.Sets.{has}
use wirefan.Registry.{Pass, Registry}
use wirefan.Registry.Sharded.{
  num_shards, Shards, shard_for, lookup, get_or_create, delete, compare_and_delete, visit_buf,
  visit_from, range, len, lookup-empty, get_or_create_old, get_or_create_new, lookup-delete,
  compare_and_delete_hit, compare_and_delete_miss, len-get_or_create, shard_for-lt,
}

module _ (P : Pass Shards → Type 0) (Q : Str → ℕ → Pass Shards → Type 0)
    (fn : ℕ → Pass Shards → Bool × Pass Shards)
    (keep : (c : ℕ) (t : Pass Shards) → P t → P (fn c t).1)
    (go_on : (c : ℕ) (t : Pass Shards) → (fn c t).0 ≡ true)
    (vacuous : (n : Str) (c : ℕ) (t : Pass Shards) → lookup n t.net.reg ≢ some c → Q n c t)
    (establish : (n : Str) (c : ℕ) (t : Pass Shards) → P t → Q n c (fn c t).1)
    (stable : (n : Str) (c d : ℕ) (t : Pass Shards) → P t → Q n c t → Q n c (fn d t).1) where
  visit_buf-go_on : (buf : List ℕ) (t : Pass Shards) → (visit_buf fn buf t).0 ≡ true
  unfolding visit_buf
  visit_buf-go_on [] t = refl
  visit_buf-go_on (c ∷ buf) t = rw (go_on c t) (visit_buf-go_on buf (fn c t).1)

  visit_buf-keep : (buf : List ℕ) (t : Pass Shards) → P t → P (visit_buf fn buf t).1
  unfolding visit_buf
  visit_buf-keep [] t p = p
  visit_buf-keep (c ∷ buf) t p = rw (go_on c t) (visit_buf-keep buf (fn c t).1 (keep c t p))

  visit_buf-stable :
      (n : Str) (c : ℕ) (buf : List ℕ) (t : Pass Shards)
      → P t
      → Q n c t
      → Q n c (visit_buf fn buf t).1
  unfolding visit_buf
  visit_buf-stable n c [] t p q = q
  visit_buf-stable n c (d ∷ buf) t p q =
      rw (go_on d t) (visit_buf-stable n c buf (fn d t).1 (keep d t p) (stable n c d t p q))

  visit_buf-establish :
      (n : Str) (c : ℕ) (buf : List ℕ) (t : Pass Shards)
      → P t
      → has c buf ≡ true
      → Q n c (visit_buf fn buf t).1
  unfolding visit_buf has
  visit_buf-establish n c [] t p h = absurd (ground arith)
  visit_buf-establish n c (d ∷ buf) t p h = rw (go_on d t) (elim (Bool-cases (nat_beq d c)) [
    | inl same ↦
        rw ((nat_beq_iff d c).0 same)
          (visit_buf-stable n c buf (fn c t).1 (keep c t p) (establish n c t p))
    | inr other ↦ visit_buf-establish n c buf (fn d t).1 (keep d t p) (ground arith)
  ])

  -- One shard: what is registered in it is seen, and what was seen before stays so.
  visit_shard :
      (i : ℕ) (n : Str) (c : ℕ) (t : Pass Shards)
      → P t
      → (shard_for n ≡ i) ⊎ Q n c t
      → Q n c (visit_buf fn (values (t.net.reg i)) t).1
  unfolding lookup
  visit_shard i n c t p (inr q) = visit_buf-stable n c (values (t.net.reg i)) t p q
  visit_shard i n c t p (inl here) = elim (Bool-cases (has c (values (t.net.reg i)))) [
    | inl seen ↦ visit_buf-establish n c (values (t.net.reg i)) t p seen
    | inr unseen ↦
        visit_buf-stable n c (values (t.net.reg i)) t p
          (vacuous n c t (λ e. cc (has-values n c (t.net.reg i) (rw (← here) e), unseen)))
  ]

  visit_from_all :
      (left i : ℕ) (t : Pass Shards)
      → P t
      → ((n : Str) (c : ℕ) → shard_for n < i → Q n c t)
      → P (visit_from fn left i t)
        × ((n : Str) (c : ℕ) → shard_for n < i + left → Q n c (visit_from fn left i t))
  unfolding visit_from
  visit_from_all zero i t p q = (p, λ n c h. q n c (omega arith))
  visit_from_all (suc left) i t p q =
      let t' = (visit_buf fn (values (t.net.reg i)) t).1 in
      let (p', q') =
        visit_from_all left (suc i) t' (visit_buf-keep (values (t.net.reg i)) t p) (λ n c h.
          visit_shard i n c t p (elim (dec_lt (shard_for n) i) [
            | yes below ↦ inr (q n c below)
            | no last ↦ inl (omega arith)
          ])) in
      rw (visit_buf-go_on (values (t.net.reg i)) t) (p', λ n c h. q' n c (omega arith))

  pub range_all :
      (t : Pass Shards) → P t → P (range fn t) × ((n : Str) (c : ℕ) → Q n c (range fn t))
  unfolding range
  range_all t p =
      let (p', q') = visit_from_all num_shards 0 t p (λ n c h. absurd (omega arith)) in
      (p', λ n c. q' n c (shard_for-lt n))

-- `NewSharded`.
unfoldable pub new_sharded : Registry
new_sharded = record {
  State = Shards;
  empty = λ i. [];
  get_or_create = get_or_create;
  lookup = lookup;
  delete = delete;
  compare_and_delete = compare_and_delete;
  range = range;
  len = len;
  lookup-empty = lookup-empty;
  get_or_create_old = get_or_create_old;
  get_or_create_new = get_or_create_new;
  len-get_or_create = len-get_or_create;
  lookup-delete = lookup-delete;
  compare_and_delete_hit = compare_and_delete_hit;
  compare_and_delete_miss = compare_and_delete_miss;
  range_all = range_all;
}
