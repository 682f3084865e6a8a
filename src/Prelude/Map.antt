-- ===== src/Prelude/Map.antt =====
-- Go maps as association lists, and sets as lists without duplicates.
use Prim.Native.Nat.{suc, ◌≤◌}
use mathlib.Core.Bool.{true, false, ◌||◌}
use mathlib.Core.List.{List, [], ◌∷◌}
use mathlib.Core.Option.{Option, none, some}
use mathlib.Core.Path.{◌≡◌, refl}
use native.Mathlib.Omega.{arith}
use wirefan.Prelude.Tests.{Eq, ◌==◌, if◌then◌else◌}
use wirefan.Prelude.Lists.{length}
use wirefan.Prelude.Sets.{has, IsDistinct}

abbrev pub Map {ℓ κ} : Type ℓ → Type κ → Type (ℓ ⊔ κ)
Map K V = List (K × V)

module _ {ℓ κ} {K : Type ℓ} {V : Type κ} ⦃e : Eq K⦄ where
  -- `m[k]` with its `ok`.
  unfoldable pub get : K → Map K V → Option V
  get k [] = none
  get k ((j, v) ∷ m) = if j == k then some v else get k m

  -- `m[k] = v`.
  unfoldable pub put : K → V → Map K V → Map K V
  put k v [] = (k, v) ∷ []
  put k v ((j, w) ∷ m) = if j == k then (j, v) ∷ m else (j, w) ∷ put k v m

  -- `delete(m, k)`.
  unfoldable pub del : K → Map K V → Map K V
  del k [] = []
  del k ((j, w) ∷ m) = if j == k then del k m else (j, w) ∷ del k m

  pub get-put :
      (k j : K) (v : V) (m : Map K V) → get j (put k v m) ≡ (if k == j then some v else get j m)
  unfolding get put
  get-put k j v [] = refl
  get-put k j v ((i, w) ∷ m) =
      ground (arith, e.beq_iff k j, e.beq_iff i k, e.beq_iff i j, get-put k j v m)

  pub get-del : (k j : K) (m : Map K V) → get j (del k m) ≡ (if k == j then none else get j m)
  unfolding get del
  get-del k j [] = ground arith
  get-del k j ((i, w) ∷ m) =
      ground (arith, e.beq_iff k j, e.beq_iff i k, e.beq_iff i j, get-del k j m)

  pub length-put-le : (k : K) (v : V) (m : Map K V) → length (put k v m) ≤ suc (length m)
  unfolding put
  length-put-le k v [] = omega arith
  length-put-le k v ((j, w) ∷ m) = ground (arith, length-put-le k v m)

  pub length-put_old :
      (k : K) (v w : V) (m : Map K V) → get k m ≡ some w → length (put k v m) ≡ length m
  unfolding put get
  length-put_old k v w [] h = ground arith
  length-put_old k v w ((j, x) ∷ m) h = ground (arith, length-put_old k v w m)

  pub length-put_new :
      (k : K) (v : V) (m : Map K V) → get k m ≡ none → length (put k v m) ≡ suc (length m)
  unfolding put get
  length-put_new k v [] h = refl
  length-put_new k v ((j, x) ∷ m) h = ground (arith, length-put_new k v m)

  pub length-del-le : (k : K) (m : Map K V) → length (del k m) ≤ length m
  unfolding del
  length-del-le k [] = omega arith
  length-del-le k ((j, w) ∷ m) = ground (arith, length-del-le k m)

abbrev pub keys {ℓ κ} : {K : Type ℓ} {V : Type κ} → Map K V → List K
keys [] = []
keys ((k, v) ∷ m) = k ∷ keys m

pub get_of_not-has {ℓ κ} :
    {K : Type ℓ} {V : Type κ} ⦃e : Eq K⦄ (n : K) (m : Map K V)
    → has n (keys m) ≡ false
    → get n m ≡ none
unfolding get has
get_of_not-has n [] h = refl
get_of_not-has n ((k, v) ∷ m) h = ground (arith, get_of_not-has n m)

-- The values, in the order of the entries.
abbrev pub values {ℓ κ} : {K : Type ℓ} {V : Type κ} → Map K V → List V
values [] = []
values ((k, v) ∷ m) = v ∷ values m

pub has-values {ℓ κ} :
    {K : Type ℓ} {V : Type κ} ⦃e : Eq K⦄ ⦃f : Eq V⦄ (n : K) (c : V) (m : Map K V)
    → get n m ≡ some c
    → has c (values m) ≡ true
unfolding get has
has-values n c [] h = cc
has-values ⦃f = f⦄ n c ((k, v) ∷ m) h = ground (arith, f.beq_iff v c, has-values n c m)

module _ {ℓ κ} {K : Type ℓ} {V : Type κ} ⦃e : Eq K⦄ where
  has-keys-put :
      (k j : K) (v : V) (m : Map K V) → has j (keys (put k v m)) ≡ (k == j || has j (keys m))
  unfolding has put
  has-keys-put k j v [] = refl
  has-keys-put k j v ((i, w) ∷ m) =
      ground (arith, e.beq_iff k j, e.beq_iff i k, e.beq_iff i j, has-keys-put k j v m)

  pub put-IsDistinct :
      (k : K) (v : V) (m : Map K V) → IsDistinct (keys m) → IsDistinct (keys (put k v m))
  unfolding put
  put-IsDistinct k v [] d = unfold has in (refl, tt)
  put-IsDistinct k v ((i, w) ∷ m) d =
      ground (arith, e.beq_iff i k, e.beq_iff k i, has-keys-put k i v m, put-IsDistinct k v m d.1)
