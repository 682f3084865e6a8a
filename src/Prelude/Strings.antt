-- ===== src/Prelude/Strings.antt =====
-- `strings.Split`, `strings.TrimSpace` and the searches of package strings, on bytes.
use Prim.Native.Nat.{ℕ, zero, suc}
use mathlib.Core.Bool.{Bool, ◌&&◌, ◌||◌}
use mathlib.Core.List.{List, [], ◌∷◌, reverse}
use mathlib.Core.Option.{Option, none, some}
use wirefan.Prelude.Tests.{leb, nat_beq, if◌then◌else◌}
use wirefan.Prelude.Text.{Str}

-- `strings.Split(s, sep)`, with a separator of one byte.
unfoldable pub split : ℕ → Str → List Str
split sep [] = [] ∷ []
split sep (c ∷ s) =
    let rest = split sep s in
    if nat_beq c sep
    then [] ∷ rest
    else elim rest [ [] ↦ (c ∷ []) ∷ [] | part ∷ parts ↦ (c ∷ part) ∷ parts ]

-- The text before the last `sep` and the text behind it.
unfoldable pub cut_last : ℕ → Str → Option (Str × Str)
cut_last sep [] = none
cut_last sep (c ∷ s) = elim (cut_last sep s) [
  | some (p, q) ↦ some (c ∷ p, q)
  | none ↦ if nat_beq c sep then some ([], s) else none
]

-- `strings.Count(s, sep)`.
unfoldable pub count : ℕ → Str → ℕ
count sep [] = 0
count sep (c ∷ s) = let n = count sep s in if nat_beq c sep then suc n else n

-- The runes of `unicode.IsSpace` by the number of their bytes.
abbrev is_space : ℕ → Bool
is_space c = (leb 9 c && leb c 13) || nat_beq c 32

abbrev is_space2 : ℕ → ℕ → Bool
is_space2 c d = nat_beq c 0xc2 && (nat_beq d 0x85 || nat_beq d 0xa0)

abbrev is_space3 : ℕ → ℕ → ℕ → Bool
is_space3 c d e =
    (nat_beq c 0xe1 && nat_beq d 0x9a && nat_beq e 0x80)
    || (nat_beq c 0xe2
        && nat_beq d 0x80
        && ((leb 0x80 e && leb e 0x8a) || nat_beq e 0xa8 || nat_beq e 0xa9 || nat_beq e 0xaf))
    || (nat_beq c 0xe2 && nat_beq d 0x81 && nat_beq e 0x9f)
    || (nat_beq c 0xe3 && nat_beq d 0x80 && nat_beq e 0x80)

-- How many bytes the white space has that a string begins with, or, for a string read backwards,
-- ends with.
unfoldable pub space_at_start : Str → ℕ
space_at_start [] = 0
space_at_start (c ∷ []) = if is_space c then 1 else 0
space_at_start (c ∷ d ∷ []) = if is_space c then 1 else if is_space2 c d then 2 else 0
space_at_start (c ∷ d ∷ e ∷ s) =
    if is_space c then 1 else if is_space2 c d then 2 else if is_space3 c d e then 3 else 0

unfoldable pub space_at_end : Str → ℕ
space_at_end [] = 0
space_at_end (c ∷ []) = if is_space c then 1 else 0
space_at_end (c ∷ d ∷ []) = if is_space c then 1 else if is_space2 d c then 2 else 0
space_at_end (c ∷ d ∷ e ∷ s) =
    if is_space c then 1 else if is_space2 d c then 2 else if is_space3 e d c then 3 else 0

unfoldable pub drop_spaces : (Str → ℕ) → ℕ → Str → Str
drop_spaces width skip [] = []
drop_spaces width (suc skip) (c ∷ s) = drop_spaces width skip s
drop_spaces width zero (c ∷ s) = elim (width (c ∷ s)) [
  | zero ↦ c ∷ s
  | suc skip ↦ drop_spaces width skip s
]

-- `strings.TrimSpace`.
unfoldable pub trim_space : Str → Str
trim_space s = reverse (drop_spaces space_at_end 0 (reverse (drop_spaces space_at_start 0 s)))
