-- ===== src/Server/LogValue.antt =====
-- internal/server/upgrade.go: `sanitizeLogValue`, for request values in log lines.
use wirefan.Prelude.{
  ℕ, zero, suc, ◌+◌, ◌/◌, ◌%◌, ◌≤◌, ◌≡◌, refl, sym, ◌∙◌, Bool, false, not, ◌&&◌, ◌||◌, List, [],
  ◌∷◌, ◌++◌, map, Str, if◌then◌else◌, ltb, leb, nat_beq, length, Bool-cases, inl, inr, arith,
}
use wirefan.Conn.Names.Utf8.{runes, any, any-runes}

abbrev max_log_value : ℕ
max_log_value = 1024

-- The test in both loops.
abbrev pub is_unsafe : ℕ → Bool
is_unsafe r =
    (nat_beq r 10 || nat_beq r 13 || nat_beq r 0 || nat_beq r 0x1b || nat_beq r 0x7f || ltb r 0x20)
    && not (nat_beq r 9)

-- `s[:n]`, of a string that may be shorter.
unfoldable pub first_bytes : ℕ → Str → Str
first_bytes zero s = []
first_bytes (suc n) [] = []
first_bytes (suc n) (b ∷ s) = b ∷ first_bytes n s

-- `string([]rune{r})`; a surrogate or a number beyond Unicode is U+FFFD.
unfoldable pub encode_rune : ℕ → Str
encode_rune r =
    if ltb r 0x80
    then r ∷ []
    else if ltb r 0x800
    then (0xc0 + r / 64) ∷ (0x80 + r % 64) ∷ []
    else if (leb 0xd800 r && leb r 0xdfff) || ltb 0x10ffff r
    then 0xef ∷ 0xbf ∷ 0xbd ∷ []
    else if ltb r 0x10000
    then (0xe0 + r / 4096) ∷ (0x80 + r / 64 % 64) ∷ (0x80 + r % 64) ∷ []
    else (0xf0 + r / 262144) ∷ (0x80 + r / 4096 % 64) ∷ (0x80 + r / 64 % 64) ∷ (0x80 + r % 64) ∷ []

unfoldable pub encode_runes : List ℕ → Str
encode_runes [] = []
encode_runes (r ∷ rs) = encode_rune r ++ encode_runes rs

abbrev mask : ℕ → ℕ
mask r = if is_unsafe r then b'?' else r

-- Both loops of `sanitizeLogValue`.
unfoldable pub replace_unsafe : Str → Str
replace_unsafe t = if not (any is_unsafe (runes t)) then t else encode_runes (map mask (runes t))

-- `sanitizeLogValue`.
unfoldable pub sanitize_log_value : Str → Str
sanitize_log_value s =
    replace_unsafe (if ltb max_log_value (length s) then first_bytes max_log_value s else s)

any-append : (p : ℕ → Bool) (xs ys : List ℕ) → any p (xs ++ ys) ≡ (any p xs || any p ys)
unfolding any
any-append p [] ys = refl
any-append p (x ∷ xs) ys = ground (arith, any-append p xs ys)

safe-encode_rune : (r : ℕ) → is_unsafe r ≡ false → any is_unsafe (encode_rune r) ≡ false
unfolding any encode_rune
safe-encode_rune r h = ground arith

safe-mask : (r : ℕ) → is_unsafe (mask r) ≡ false
safe-mask r = elim (Bool-cases (is_unsafe r)) [ inl bad ↦ rw bad refl | inr good ↦ rw good good ]

safe-encode_runes : (rs : List ℕ) → any is_unsafe (encode_runes (map mask rs)) ≡ false
unfolding encode_runes
safe-encode_runes [] = unfold any in refl
safe-encode_runes (r ∷ rs) =
    any-append is_unsafe (encode_rune (mask r)) (encode_runes (map mask rs))
    ∙ ground (arith, safe-encode_rune (mask r) (safe-mask r), safe-encode_runes rs)

unsafe_runes : (s : Str) → any is_unsafe (runes s) ≡ any is_unsafe s
unsafe_runes s = any-runes is_unsafe (λ r h. ground arith) s

safe-replace_unsafe : (t : Str) → any is_unsafe (replace_unsafe t) ≡ false
unfolding replace_unsafe
safe-replace_unsafe t = elim (Bool-cases (any is_unsafe (runes t))) [
  | inl bad ↦ rw (bad, replace_unsafe) (safe-encode_runes (runes t))
  | inr good ↦ rw (good, replace_unsafe) (sym (unsafe_runes t) ∙ good)
]

replace_unsafe-safe : (t : Str) → any is_unsafe t ≡ false → replace_unsafe t ≡ t
unfolding replace_unsafe
replace_unsafe-safe t h = rw (unsafe_runes t, h) refl

-- No control character but the tab is left in a log value, also where the value is not valid UTF-8;
-- a value of at most 1024 bytes without one is logged as it is.
pub sanitize_log_value_lem :
    (s : Str)
    → (any is_unsafe (sanitize_log_value s) ≡ false)
      × (length s ≤ 1024 → any is_unsafe s ≡ false → sanitize_log_value s ≡ s)
unfolding sanitize_log_value
sanitize_log_value_lem s = (
  safe-replace_unsafe (if ltb max_log_value (length s) then first_bytes max_log_value s else s),
  λ small safe. ground (arith, replace_unsafe-safe s safe),
)
