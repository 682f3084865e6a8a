-- ===== src/Registry/Sharded.antt =====
-- internal/registry/sharded.go: sixteen maps, each behind its own lock.
pub mod Implements
use wirefan.Prelude.{
  ℕ, zero, suc, ◌+◌, ◌%◌, ◌<◌, length, ◌≡◌, ◌≢◌, refl, Bool, true, false, List, [], ◌∷◌, Option,
  none, some, Str, if◌then◌else◌, ◌==◌, nat_eq, str_eq, str_beq_iff, nat_beq, nat_beq_iff, ◌∙◌, leb,
  le→leb, dec_lt, ◌⊎◌, Bool-cases, Option-cases, inl, inr, arith,
}
use wirefan.Prelude.Map.{Map, get, put, del, get-put, get-del, values, has-values, length-put_new}
use wirefan.Prelude.Sets.{has}
use wirefan.Registry.{Net, Pass, Registry, new_channel}
use wirefan.Registry.Fnv.{sum32}

abbrev pub num_shards : ℕ
num_shards = 16

abbrev pub Shards : Type 0
Shards = ℕ → Map Str ℕ

unfoldable pub shard_for : Str → ℕ
shard_for n = sum32 n % num_shards

abbrev set_shard : ℕ → Map Str ℕ → Shards → Shards
set_shard i m r = λ j. if i == j then m else r j

unfoldable pub lookup : Str → Shards → Option ℕ
lookup n r = get n (r (shard_for n))

-- The part of `GetOrCreate` under the write lock.
create_locked : Str → Net Shards → ℕ × Net Shards
create_locked n w =
    let (c, h) = new_channel n w.chans in
    let m = w.reg (shard_for n) in
    elim (get n m) [
      | some d ↦ (d, w)
      | none ↦ (c, record { chans = h; reg = set_shard (shard_for n) (put n c m) w.reg })
    ]

-- `GetOrCreate`, where `env` is what other goroutines do between its read lock and its write lock.
unfoldable pub get_or_create_racing : (Net Shards → Net Shards) → Str → Net Shards → ℕ × Net Shards
unfolding create_locked
get_or_create_racing env n w = elim (get n (w.reg (shard_for n))) [
  | some c ↦ (c, w)
  | none ↦ create_locked n (env w)
]

unfoldable pub get_or_create : Str → Net Shards → ℕ × Net Shards
unfolding get_or_create_racing
get_or_create = get_or_create_racing (λ w. w)

unfoldable pub delete : Str → Shards → Shards
delete n r = set_shard (shard_for n) (del n (r (shard_for n))) r

unfoldable pub compare_and_delete : Str → ℕ → Shards → Bool × Shards
compare_and_delete n c r = elim (get n (r (shard_for n))) [
  | none ↦ (false, r)
  | some cur ↦
      if nat_beq cur c
      then (true, set_shard (shard_for n) (del n (r (shard_for n))) r)
      else (false, r)
]

-- The inner loop of `Range`, over the copied channels; false when `fn` stopped it.
visit_buf : (ℕ → Pass Shards → Bool × Pass Shards) → List ℕ → Pass Shards → Bool × Pass Shards
visit_buf fn [] t = (true, t)
visit_buf fn (c ∷ buf) t =
    let r = fn c t in let rest = visit_buf fn buf r.1 in if r.0 then rest else (false, r.1)

-- The outer loop, over the `left` shards from `i` on.
visit_from : (ℕ → Pass Shards → Bool × Pass Shards) → ℕ → ℕ → Pass Shards → Pass Shards
visit_from fn zero i t = t
visit_from fn (suc left) i t =
    let r = visit_buf fn (values (t.net.reg i)) t in
    let rest = visit_from fn left (suc i) r.1 in if r.0 then rest else r.1

unfoldable pub range : (ℕ → Pass Shards → Bool × Pass Shards) → Pass Shards → Pass Shards
unfolding visit_from visit_buf
range fn t = visit_from fn num_shards 0 t

-- The loop of `Len`, over the first `k` shards.
len_below : ℕ → Shards → ℕ
len_below zero r = 0
len_below (suc k) r = len_below k r + length (r k)

unfoldable pub len : Shards → ℕ
unfolding len_below
len r = len_below num_shards r

create_locked_lem :
    (n : Str) (w : Net Shards) → lookup n (create_locked n w).1.reg ≡ some (create_locked n w).0
unfolding create_locked lookup
create_locked_lem n w =
    ground (arith, get-put n n (new_channel n w.chans).0 (w.reg (shard_for n)), str_beq_iff n n)

-- The channel that is returned is the one registered under the name when `GetOrCreate` returns,
-- whatever other goroutines did between its two locks.
pub get_or_create_racing_lem :
    (env : Net Shards → Net Shards) (n : Str) (w : Net Shards)
    → lookup n (get_or_create_racing env n w).1.reg ≡ some (get_or_create_racing env n w).0
unfolding get_or_create_racing lookup
get_or_create_racing_lem env n w = ground (arith, create_locked_lem n (env w))

pub lookup-empty : (n : Str) → lookup n (λ i. []) ≡ none
unfolding lookup get
lookup-empty n = refl

pub get_or_create_old :
    (n : Str) (w : Net Shards) (c : ℕ) → lookup n w.reg ≡ some c → get_or_create n w ≡ (c, w)
unfolding get_or_create lookup
get_or_create_old n w c e = ground arith

pub get_or_create_new :
    (n : Str) (w : Net Shards)
    → lookup n w.reg ≡ none
    → ((get_or_create n w).0 ≡ w.chans.next)
      × ((get_or_create n w).1.chans ≡ (new_channel n w.chans).1)
      × ((m : Str)
          → lookup m (get_or_create n w).1.reg
            ≡ (if n == m then some w.chans.next else lookup m w.reg))
unfolding get_or_create new_channel lookup
get_or_create_new n w e = (
  ground arith,
  ground arith,
  λ m. ground (arith, str_beq_iff n m, get-put n m w.chans.next (w.reg (shard_for n))),
)

pub lookup-delete :
    (n m : Str) (s : Shards) → lookup m (delete n s) ≡ (if n == m then none else lookup m s)
unfolding delete lookup
lookup-delete n m s = ground (arith, str_beq_iff n m, get-del n m (s (shard_for n)))

pub compare_and_delete_hit :
    (n : Str) (c : ℕ) (s : Shards)
    → lookup n s ≡ some c
    → ((compare_and_delete n c s).0 ≡ true)
      × ((m : Str) → lookup m (compare_and_delete n c s).1 ≡ (if n == m then none else lookup m s))
unfolding compare_and_delete lookup
compare_and_delete_hit n c s e =
    (ground arith, λ m. ground (arith, str_beq_iff n m, get-del n m (s (shard_for n))))

pub compare_and_delete_miss :
    (n : Str) (c : ℕ) (s : Shards) → lookup n s ≢ some c → compare_and_delete n c s ≡ (false, s)
unfolding compare_and_delete lookup
compare_and_delete_miss n c s h = elim (Option-cases (get n (s (shard_for n)))) [
  | inl miss ↦ ground arith
  | inr (d, e) ↦ ground (arith, h)
]

module _ (r : Shards) (i : ℕ) (m : Map Str ℕ) (grows : length m ≡ suc (length (r i))) where
  len_below-set_shard :
      (k : ℕ)
      → len_below k (set_shard i m r)
        ≡ (if leb (suc i) k then suc (len_below k r) else len_below k r)
  unfolding len_below
  len_below-set_shard zero = ground arith
  len_below-set_shard (suc k) = ground (arith, len_below-set_shard k)

get_or_create-reg :
    (n : Str) (w : Net Shards)
    → lookup n w.reg ≡ none
    → (get_or_create n w).1.reg
      ≡ set_shard (shard_for n) (put n w.chans.next (w.reg (shard_for n))) w.reg
unfolding get_or_create lookup new_channel
get_or_create-reg n w e = ground arith

shard_for-lt : (n : Str) → shard_for n < num_shards
unfolding shard_for
shard_for-lt n = omega arith

pub len-get_or_create :
    (n : Str) (w : Net Shards)
    → lookup n w.reg ≡ none
    → len (get_or_create n w).1.reg ≡ suc (len w.reg)
unfolding len lookup
len-get_or_create n w e =
    let i = shard_for n in
    let grown = length-put_new n w.chans.next (w.reg i) e in
    rw (get_or_create-reg n w e) (
      len_below-set_shard w.reg i (put n w.chans.next (w.reg i)) grown num_shards
      ∙ rw (le→leb (suc i) num_shards (shard_for-lt n)))
