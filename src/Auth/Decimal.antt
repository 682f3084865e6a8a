-- ===== src/Auth/Decimal.antt =====
-- `%d` and `strconv`'s `FormatInt` and `ParseInt`, in base 10 over 64-bit integers.
use mathlib.Core.List.{concat-ne-nil}
use wirefan.Prelude.{
  ℕ, zero, suc, ◌+◌, ◌-◌, ◌*◌, ◌/◌, ◌%◌, ◌^◌, ◌≤◌, ◌<◌, ◌≡◌, ◌≢◌, refl, ap, sym, ◌∙◌, Bool, true,
  false, ◌&&◌, inl, inr, [], ◌∷◌, ◌++◌, Option, none, some, Str, codes, if◌then◌else◌, ltb, leb,
  nat_beq, Bool-cases, All, All-append, arith,
}

-- An `int64`; `negsuc n` is -(n + 1).
pub data ℤ : Type 0 where
  pos negsuc : ℕ → ℤ

-- The digits of `n`, most significant first, with fuel above `n`.
digits : ℕ → ℕ → Str
digits zero n = []
digits (suc fuel) n = elim (ltb n 10) [
  | true ↦ (b'0' + n) ∷ []
  | false ↦ digits fuel (n / 10) ++ (b'0' + n % 10) ∷ []
]

unfoldable pub format_nat : ℕ → Str
unfolding digits
format_nat n = digits (suc n) n

unfoldable pub format_int : ℤ → Str
unfolding format_nat
format_int (pos n) = format_nat n
format_int (negsuc n) = b'-' ∷ format_nat (suc n)

abbrev pub is_digit : ℕ → Bool
is_digit c = leb b'0' c && leb c b'9'

-- The value of a run of digits behind the value `acc`.
value : ℕ → Str → Option ℕ
value acc [] = some acc
value acc (c ∷ s) = let rest = value (acc * 10 + (c - b'0')) s in if is_digit c then rest else none

-- `ParseUint` without its bound: at least one digit, and digits only.
unfoldable pub parse_nat : Str → Option ℕ
unfolding value
parse_nat [] = none
parse_nat (c ∷ s) = value 0 (c ∷ s)

in_range : Option ℕ → Option ℤ
in_range none = none
in_range (some n) = if ltb n (2 ^ 63) then some (pos n) else none

in_range_neg : Option ℕ → Option ℤ
in_range_neg none = none
in_range_neg (some zero) = some (pos 0)
in_range_neg (some (suc n)) = if ltb n (2 ^ 63) then some (negsuc n) else none

-- `strconv.ParseInt(s, 10, 64)`, with its error as `none`.
unfoldable pub parse_int : Str → Option ℤ
unfolding parse_nat in_range in_range_neg
parse_int [] = none
parse_int (c ∷ s) =
    if nat_beq c b'+'
    then in_range (parse_nat s)
    else if nat_beq c b'-'
    then in_range_neg (parse_nat s)
    else in_range (parse_nat (c ∷ s))

-- What an `int64` can hold.
abbrev pub IsInt64 : ℤ → Type 0
IsInt64 (pos n) = n < 2 ^ 63
IsInt64 (negsuc n) = n < 2 ^ 63

parse_int_min : parse_int (codes "-9223372036854775808") ≡ some (negsuc (2 ^ 63 - 1))
unfolding parse_int
parse_int_min = refl

parse_int_overflow : parse_int (codes "9223372036854775808") ≡ none
unfolding parse_int
parse_int_overflow = refl

format_int_time : format_int (pos 1767225600000) ≡ codes "1767225600000"
unfolding format_int
format_int_time = refl

abbrev pub IsDigits : Str → Type 0
IsDigits = All (λ c. (b'0' ≤ c) × (c ≤ b'9'))

digits_small : (fuel n : ℕ) → ltb n 10 ≡ true → digits (suc fuel) n ≡ (b'0' + n) ∷ []
unfolding digits
digits_small fuel n h = ground arith

digits_large :
    (fuel n : ℕ)
    → ltb n 10 ≡ false
    → digits (suc fuel) n ≡ digits fuel (n / 10) ++ (b'0' + n % 10) ∷ []
unfolding digits
digits_large fuel n h = ground arith

digits-IsDigits : (fuel n : ℕ) → IsDigits (digits fuel n)
digits-IsDigits zero n = unfold digits in tt
digits-IsDigits (suc fuel) n = elim (Bool-cases (ltb n 10)) [
  | inl small ↦ rw (digits_small fuel n small) (ground arith)
  | inr large ↦ rw (digits_large fuel n large) (
      All-append _ (digits fuel (n / 10)) ((b'0' + n % 10) ∷ []) (digits-IsDigits fuel (n / 10))
        (omega arith))
]

pub format_nat-IsDigits : (n : ℕ) → IsDigits (format_nat n)
unfolding format_nat
format_nat-IsDigits n = digits-IsDigits (suc n) n

value-append :
    (acc : ℕ) (s : Str) (c : ℕ)
    → IsDigits s
    → (b'0' ≤ c) × (c ≤ b'9')
    → (v : ℕ) → value acc s ≡ some v
    → value acc (s ++ c ∷ []) ≡ some (v * 10 + (c - b'0'))
unfolding value
value-append acc [] c ds d v h = ground arith
value-append acc (x ∷ s) c ds d v h =
    ground (arith, value-append (acc * 10 + (x - b'0')) s c ds.1 d v)

value-digits : (fuel n : ℕ) → n < fuel → value 0 (digits fuel n) ≡ some n
value-digits zero n h = absurd (omega arith)
value-digits (suc fuel) n h = elim (Bool-cases (ltb n 10)) [
  | inl small ↦ rw (digits_small fuel n small) (unfold value in ground arith)
  | inr large ↦ rw (digits_large fuel n large) (
      value-append 0 (digits fuel (n / 10)) (b'0' + n % 10) (digits-IsDigits fuel (n / 10))
        (omega arith) (n / 10) (value-digits fuel (n / 10) (ground arith))
      ∙ ap some (omega arith))
]

digits-ne-nil : (fuel n : ℕ) → digits (suc fuel) n ≢ []
digits-ne-nil fuel n = elim (Bool-cases (ltb n 10)) [
  | inl small ↦ rw (digits_small fuel n small) (λ h. cc)
  | inr large ↦ rw (digits_large fuel n large) (concat-ne-nil _ _)
]

parse_nat-value : (s : Str) → s ≢ [] → parse_nat s ≡ value 0 s
unfolding parse_nat
parse_nat-value [] h = absurd (h refl)
parse_nat-value (c ∷ s) h = refl

pub parse_nat-format_nat : (n : ℕ) → parse_nat (format_nat n) ≡ some n
unfolding format_nat
parse_nat-format_nat n =
    parse_nat-value (digits (suc n) n) (digits-ne-nil n n) ∙ value-digits (suc n) n (omega arith)

pub format_nat-injective : (m n : ℕ) → format_nat m ≡ format_nat n → m ≡ n
format_nat-injective m n h = cc (parse_nat-format_nat m, parse_nat-format_nat n)

unsigned : (s : Str) → IsDigits s → s ≢ [] → parse_int s ≡ in_range (parse_nat s)
unfolding parse_int
unsigned [] ds h = absurd (h refl)
unsigned (c ∷ s) ds h = ground arith

-- `ParseInt` reads back what `FormatInt` wrote, over all of `int64`.
pub parse_int-format_int : (i : ℤ) → IsInt64 i → parse_int (format_int i) ≡ some i
unfolding format_int
parse_int-format_int (pos n) h =
    unsigned (format_nat n) (format_nat-IsDigits n) (unfold format_nat in digits-ne-nil n n)
    ∙ ap in_range (parse_nat-format_nat n)
    ∙ unfold in_range in ground arith
parse_int-format_int (negsuc n) h =
    let e = parse_nat-format_nat (suc n) in unfold parse_int in ground (arith, e)

signless : (s : Str) {t : Str} → IsDigits s → s ≢ b'-' ∷ t
signless [] ds h = cc
signless (c ∷ s) ds h = ground arith

pub format_int-injective : (i j : ℤ) → format_int i ≡ format_int j → i ≡ j
unfolding format_int
format_int-injective (pos m) (pos n) h = ap pos (format_nat-injective m n h)
format_int-injective (pos m) (negsuc n) h =
    absurd (signless (format_nat m) (format_nat-IsDigits m) h)
format_int-injective (negsuc m) (pos n) h =
    absurd (signless (format_nat n) (format_nat-IsDigits n) (sym h))
format_int-injective (negsuc m) (negsuc n) h =
    let e : suc m ≡ suc n = format_nat-injective (suc m) (suc n) (cc) in ap negsuc (omega arith)
