-- ===== src/Registry/SyncMap.antt =====
-- internal/registry/syncmap.go, over `sync.Map` as an association list.
use wirefan.Prelude.{
  ℕ, suc, length, ◌≡◌, ◌≢◌, refl, Bool, true, false, List, [], ◌∷◌, none, some, Str, if◌then◌else◌,
  ◌==◌, str_eq, str_beq, str_beq_iff, nat_beq, nat_beq_iff, sym, Bool-cases, Option-cases, inl, inr,
  arith,
}
use wirefan.Prelude.Map.{Map, get, put, del, get-put, get-del, keys, get_of_not-has, length-put_new}
use wirefan.Prelude.Sets.{has}
use wirefan.Registry.{Net, Pass, Registry, new_channel}

abbrev pub SyncMap : Type 0
SyncMap = Map Str ℕ

-- `sync.Map`'s `LoadOrStore` and `CompareAndDelete`.
unfoldable pub load_or_store : Str → ℕ → SyncMap → ℕ × SyncMap
load_or_store n c m = elim (get n m) [ some a ↦ (a, m) | none ↦ (c, put n c m) ]

unfoldable pub compare_and_delete : Str → ℕ → SyncMap → Bool × SyncMap
compare_and_delete n c m = elim (get n m) [
  | some a ↦ if nat_beq a c then (true, del n m) else (false, m)
  | none ↦ (false, m)
]

unfoldable pub store_new : Str → Net SyncMap → ℕ × Net SyncMap
unfolding load_or_store
store_new n w =
    let (c, h) = new_channel n w.chans in
    let (actual, m) = load_or_store n c w.reg in (actual, record { chans = h; reg = m })

-- `GetOrCreate`, where `env` is what other goroutines do between its `Load` and its `LoadOrStore`.
unfoldable pub get_or_create_racing :
    (Net SyncMap → Net SyncMap) → Str → Net SyncMap → ℕ × Net SyncMap
unfolding store_new
get_or_create_racing env n w = elim (get n w.reg) [ some c ↦ (c, w) | none ↦ store_new n (env w) ]

unfoldable pub get_or_create : Str → Net SyncMap → ℕ × Net SyncMap
unfolding get_or_create_racing
get_or_create = get_or_create_racing (λ w. w)

visit_one : (ℕ → Pass SyncMap → Bool × Pass SyncMap) → Str → Pass SyncMap → Bool × Pass SyncMap
visit_one fn k t = elim (get k t.net.reg) [ none ↦ (true, t) | some c ↦ fn c t ]

visit : (ℕ → Pass SyncMap → Bool × Pass SyncMap) → List Str → Pass SyncMap → Pass SyncMap
visit fn [] t = t
visit fn (k ∷ ks) t =
    let r = visit_one fn k t in let rest = visit fn ks r.1 in if r.0 then rest else r.1

-- `Range`: a key that is gone when its turn comes is passed over.
unfoldable pub range : (ℕ → Pass SyncMap → Bool × Pass SyncMap) → Pass SyncMap → Pass SyncMap
unfolding visit visit_one
range fn t = visit fn (keys t.net.reg) t

store_new_lem : (n : Str) (w : Net SyncMap) → get n (store_new n w).1.reg ≡ some (store_new n w).0
unfolding store_new
store_new_lem n w = ground (arith, get-put n n (new_channel n w.chans).0 w.reg, str_beq_iff n n)

-- The channel that is returned is the one registered under the name when `GetOrCreate` returns,
-- whatever other goroutines did since its first look.
pub get_or_create_racing_lem :
    (env : Net SyncMap → Net SyncMap) (n : Str) (w : Net SyncMap)
    → get n (get_or_create_racing env n w).1.reg ≡ some (get_or_create_racing env n w).0
unfolding get_or_create_racing
get_or_create_racing_lem env n w = ground (arith, store_new_lem n (env w))

-- `Len` counts the entries.
unfoldable pub len : SyncMap → ℕ
len m = length m

pub len-get_or_create :
    (n : Str) (w : Net SyncMap)
    → get n w.reg ≡ none
    → len (get_or_create n w).1.reg ≡ suc (len w.reg)
unfolding len get_or_create new_channel
len-get_or_create n w e = ground (arith, length-put_new n w.chans.next w.reg)

module _ (P : Pass SyncMap → Type 0) (Q : Str → ℕ → Pass SyncMap → Type 0)
    (fn : ℕ → Pass SyncMap → Bool × Pass SyncMap)
    (keep : (c : ℕ) (t : Pass SyncMap) → P t → P (fn c t).1)
    (go_on : (c : ℕ) (t : Pass SyncMap) → (fn c t).0 ≡ true)
    (vacuous : (n : Str) (c : ℕ) (t : Pass SyncMap) → get n t.net.reg ≢ some c → Q n c t)
    (establish : (n : Str) (c : ℕ) (t : Pass SyncMap) → P t → Q n c (fn c t).1)
    (stable : (n : Str) (c d : ℕ) (t : Pass SyncMap) → P t → Q n c t → Q n c (fn d t).1) where
  visit_one-go_on : (k : Str) (t : Pass SyncMap) → (visit_one fn k t).0 ≡ true
  unfolding visit_one
  visit_one-go_on k t = elim (Option-cases (get k t.net.reg)) [
    | inl miss ↦ rw (miss, visit_one)
    | inr (c, e) ↦ rw (e, visit_one) (go_on c t)
  ]

  visit_one-keep : (k : Str) (t : Pass SyncMap) → P t → P (visit_one fn k t).1
  unfolding visit_one
  visit_one-keep k t p = elim (Option-cases (get k t.net.reg)) [
    | inl miss ↦ rw (miss, visit_one) p
    | inr (c, e) ↦ rw (e, visit_one) (keep c t p)
  ]

  visit_one-stable :
      (n : Str) (c : ℕ) (k : Str) (t : Pass SyncMap) → P t → Q n c t → Q n c (visit_one fn k t).1
  unfolding visit_one
  visit_one-stable n c k t p q = elim (Option-cases (get k t.net.reg)) [
    | inl miss ↦ rw (miss, visit_one) q
    | inr (d, e) ↦ rw (e, visit_one) (stable n c d t p q)
  ]

  visit_one-establish : (c : ℕ) (k : Str) (t : Pass SyncMap) → P t → Q k c (visit_one fn k t).1
  unfolding visit_one
  visit_one-establish c k t p = elim (Option-cases (get k t.net.reg)) [
    | inl miss ↦ rw (miss, visit_one) (vacuous k c t (λ e. cc))
    | inr (d, e) ↦
        rw (e, visit_one)
          (elim (Bool-cases (nat_beq d c)) [
            | inl same ↦ rw ((nat_beq_iff d c).0 same) (establish k c t p)
            | inr other ↦ stable k c d t p (vacuous k c t (λ h. ground arith))
          ])
  ]

  visit_all :
      (ks : List Str) (t : Pass SyncMap)
      → P t
      → ((n : Str) (c : ℕ) → has n ks ≡ false → Q n c t)
      → P (visit fn ks t) × ((n : Str) (c : ℕ) → Q n c (visit fn ks t))
  unfolding visit has
  visit_all [] t p q = (p, λ n c. q n c refl)
  visit_all (k ∷ ks) t p q = rw (visit_one-go_on k t) (
      visit_all ks (visit_one fn k t).1 (visit_one-keep k t p) (λ n c h.
        elim (Bool-cases (str_beq k n)) [
          | inl same ↦ rw (sym ((str_beq_iff k n).0 same)) (visit_one-establish c k t p)
          | inr other ↦ visit_one-stable n c k t p (q n c (ground arith))
        ]))

  pub range_all :
      (t : Pass SyncMap) → P t → P (range fn t) × ((n : Str) (c : ℕ) → Q n c (range fn t))
  unfolding range
  range_all t p =
      visit_all (keys t.net.reg) t p
        (λ n c h. vacuous n c t (λ e. cc (get_of_not-has n t.net.reg h)))

pub get_or_create_old :
    (n : Str) (w : Net SyncMap) (c : ℕ) → get n w.reg ≡ some c → get_or_create n w ≡ (c, w)
unfolding get_or_create
get_or_create_old n w c e = ground arith

pub get_or_create_new :
    (n : Str) (w : Net SyncMap)
    → get n w.reg ≡ none
    → ((get_or_create n w).0 ≡ w.chans.next)
      × ((get_or_create n w).1.chans ≡ (new_channel n w.chans).1)
      × ((m : Str)
          → get m (get_or_create n w).1.reg ≡ (if n == m then some w.chans.next else get m w.reg))
unfolding get_or_create new_channel
get_or_create_new n w e =
    (ground arith, ground arith, λ m. ground (arith, get-put n m w.chans.next w.reg))

pub compare_and_delete_hit :
    (n : Str) (c : ℕ) (s : SyncMap)
    → get n s ≡ some c
    → ((compare_and_delete n c s).0 ≡ true)
      × ((m : Str) → get m (compare_and_delete n c s).1 ≡ (if n == m then none else get m s))
unfolding compare_and_delete
compare_and_delete_hit n c s e = (ground arith, λ m. ground (arith, get-del n m s))

pub compare_and_delete_miss :
    (n : Str) (c : ℕ) (s : SyncMap) → get n s ≢ some c → compare_and_delete n c s ≡ (false, s)
unfolding compare_and_delete
compare_and_delete_miss n c s h = elim (Option-cases (get n s)) [
  | inl miss ↦ ground arith
  | inr (d, e) ↦ ground (arith, h)
]

pub lookup-empty : (n : Str) → get {V = ℕ} n [] ≡ none
unfolding get
lookup-empty n = refl

-- `NewSyncMap`.
unfoldable pub new_sync_map : Registry
new_sync_map = record {
  State = SyncMap;
  empty = [];
  get_or_create = get_or_create;
  lookup = get;
  delete = del;
  compare_and_delete = compare_and_delete;
  range = range;
  len = len;
  lookup-empty = lookup-empty;
  get_or_create_old = get_or_create_old;
  get_or_create_new = get_or_create_new;
  len-get_or_create = len-get_or_create;
  lookup-delete = get-del;
  compare_and_delete_hit = compare_and_delete_hit;
  compare_and_delete_miss = compare_and_delete_miss;
  range_all = range_all;
}
