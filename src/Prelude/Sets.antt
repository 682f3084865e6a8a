-- ===== src/Prelude/Sets.antt =====
-- A Go set, `map[T]struct{}`: a list in which a key stands once.
use Prim.Native.Nat.{suc, ◌≤◌}
use mathlib.Core.Bool.{Bool, false, ◌||◌}
use mathlib.Core.List.{List, [], ◌∷◌}
use mathlib.Core.Path.{◌≡◌, refl}
use native.Mathlib.Omega.{arith}
use wirefan.Prelude.Tests.{Eq, ◌==◌, if◌then◌else◌}
use wirefan.Prelude.Lists.{length}

module _ {ℓ} {K : Type ℓ} ⦃e : Eq K⦄ where
  unfoldable pub has : K → List K → Bool
  has k [] = false
  has k (j ∷ s) = j == k || has k s

  -- `s[k] = struct{}{}`.
  unfoldable pub add : K → List K → List K
  add k [] = k ∷ []
  add k (j ∷ s) = if j == k then j ∷ s else j ∷ add k s

  -- `delete(s, k)`.
  unfoldable pub remove : K → List K → List K
  remove k [] = []
  remove k (j ∷ s) = if j == k then remove k s else j ∷ remove k s

  pub has-add : (k j : K) (s : List K) → has j (add k s) ≡ (k == j || has j s)
  unfolding has add
  has-add k j [] = refl
  has-add k j (i ∷ s) = ground (arith, e.beq_iff k j, e.beq_iff i k, e.beq_iff i j, has-add k j s)

  pub has-remove : (k j : K) (s : List K) → has j (remove k s) ≡ (if k == j then false else has j s)
  unfolding has remove
  has-remove k j [] = ground arith
  has-remove k j (i ∷ s) =
      ground (arith, e.beq_iff k j, e.beq_iff i k, e.beq_iff i j, has-remove k j s)

  pub length-add-le : (k : K) (s : List K) → length (add k s) ≤ suc (length s)
  unfolding add
  length-add-le k [] = omega arith
  length-add-le k (j ∷ s) = ground (arith, length-add-le k s)

  pub length-remove-le : (k : K) (s : List K) → length (remove k s) ≤ length s
  unfolding remove
  length-remove-le k [] = omega arith
  length-remove-le k (j ∷ s) = ground (arith, length-remove-le k s)

  pub has-nil_of_length : (k : K) (s : List K) → length s ≡ 0 → has k s ≡ false
  unfolding has
  has-nil_of_length k [] h = refl
  has-nil_of_length k (j ∷ s) h = absurd (omega arith)

  -- No key stands twice.
  abbrev pub IsDistinct : List K → Type 0
  IsDistinct [] = Unit
  IsDistinct (k ∷ s) = (has k s ≡ false) × IsDistinct s

  pub add-IsDistinct : (k : K) (s : List K) → IsDistinct s → IsDistinct (add k s)
  unfolding has add
  add-IsDistinct k [] d = (refl, tt)
  add-IsDistinct k (j ∷ s) d =
      ground (arith, e.beq_iff k j, e.beq_iff j k, has-add k j s, add-IsDistinct k s d.1)

  pub remove-IsDistinct : (k : K) (s : List K) → IsDistinct s → IsDistinct (remove k s)
  unfolding remove
  remove-IsDistinct k [] d = tt
  remove-IsDistinct k (j ∷ s) d = ground (arith, has-remove k j s, remove-IsDistinct k s d.1)
