-- ===== src/Auth/Base64.antt =====
-- `encoding/base64`'s `RawURLEncoding`, which is not strict and passes over line breaks.
use wirefan.Prelude.{
  ℕ, ◌+◌, ◌-◌, ◌*◌, ◌/◌, ◌%◌, ◌<◌, ◌≡◌, refl, ◌&&◌, ◌||◌, List, [], ◌∷◌, Option, none, some, Str,
  codes, if◌then◌else◌, ltb, leb, nat_beq, All, arith,
}

letter : ℕ → ℕ
letter i =
    if ltb i 26
    then b'A' + i
    else if ltb i 52
    then b'a' + (i - 26)
    else if ltb i 62
    then b'0' + (i - 52)
    else if nat_beq i 62
    then b'-'
    else b'_'

unletter : ℕ → Option ℕ
unletter c =
    if leb b'A' c && leb c b'Z'
    then some (c - b'A')
    else if leb b'a' c && leb c b'z'
    then some (c - b'a' + 26)
    else if leb b'0' c && leb c b'9'
    then some (c - b'0' + 52)
    else if nat_beq c b'-'
    then some 62
    else if nat_beq c b'_'
    then some 63
    else none

-- `EncodeToString`.
unfoldable pub encode : Str → Str
unfolding letter
encode [] = []
encode (a ∷ []) = letter (a / 4) ∷ letter (a % 4 * 16) ∷ []
encode (a ∷ b ∷ []) = letter (a / 4) ∷ letter (a % 4 * 16 + b / 16) ∷ letter (b % 16 * 4) ∷ []
encode (a ∷ b ∷ c ∷ s) =
    letter (a / 4)
    ∷ letter (a % 4 * 16 + b / 16)
    ∷ letter (b % 16 * 4 + c / 64)
    ∷ letter (c % 64)
    ∷ encode s

-- The six-bit values of the letters; `none` at a byte that is neither a letter nor a line break.
values : Str → Option (List ℕ)
unfolding unletter
values [] = some []
values (c ∷ s) =
    let rest = values s in
    if nat_beq c 10 || nat_beq c 13 then rest else elim (unletter c) [
      | none ↦ none
      | some v ↦ elim rest [ none ↦ none | some vs ↦ some (v ∷ vs) ]
    ]

-- The bytes of a run of six-bit values; one left-over value is an error.
pack : List ℕ → Option Str
pack [] = some []
pack (p ∷ []) = none
pack (p ∷ q ∷ []) = some ((p * 4 + q / 16) ∷ [])
pack (p ∷ q ∷ r ∷ []) = some ((p * 4 + q / 16) ∷ (q % 16 * 16 + r / 4) ∷ [])
pack (p ∷ q ∷ r ∷ t ∷ vs) = elim (pack vs) [
  | none ↦ none
  | some s ↦ some ((p * 4 + q / 16) ∷ (q % 16 * 16 + r / 4) ∷ (r % 4 * 64 + t) ∷ s)
]

-- `DecodeString`, with its error as `none`.
unfoldable pub decode : Str → Option Str
unfolding values pack
decode s = elim (values s) [ none ↦ none | some vs ↦ pack vs ]

encode_text : encode (codes "hi?~") ≡ codes "aGk_fg"
unfolding encode
encode_text = refl

decode_text : decode (codes "aGk_\nfg") ≡ some (codes "hi?~")
unfolding decode
decode_text = refl

decode_stray : decode (codes "aGk_f") ≡ none
unfolding decode
decode_stray = refl

-- The six-bit values that `encode` writes.
split : Str → List ℕ
split [] = []
split (a ∷ []) = (a / 4) ∷ (a % 4 * 16) ∷ []
split (a ∷ b ∷ []) = (a / 4) ∷ (a % 4 * 16 + b / 16) ∷ (b % 16 * 4) ∷ []
split (a ∷ b ∷ c ∷ s) = (a / 4) ∷ (a % 4 * 16 + b / 16) ∷ (b % 16 * 4 + c / 64) ∷ (c % 64) ∷ split s

abbrev pub IsBytes : Str → Type 0
IsBytes = All (λ b. b < 256)

values-letter :
    (i : ℕ) (s : Str) (vs : List ℕ)
    → i < 64
    → values s ≡ some vs
    → values (letter i ∷ s) ≡ some (i ∷ vs)
unfolding values letter
values-letter i s vs h e = ground arith

values-nil : values [] ≡ some []
unfolding values
values-nil = refl

values-encode : (s : Str) → IsBytes s → values (encode s) ≡ some (split s)
unfolding encode split
values-encode [] h = values-nil
values-encode (a ∷ []) h =
    values-letter (a / 4) _ _ (omega arith)
      (values-letter (a % 4 * 16) [] [] (omega arith) values-nil)
values-encode (a ∷ b ∷ []) h = values-letter (a / 4) _ _ (omega arith) (
    values-letter (a % 4 * 16 + b / 16) _ _ (omega arith)
      (values-letter (b % 16 * 4) [] [] (omega arith) values-nil))
values-encode (a ∷ b ∷ c ∷ s) h = values-letter (a / 4) _ _ (omega arith) (
    values-letter (a % 4 * 16 + b / 16) _ _ (omega arith) (
      values-letter (b % 16 * 4 + c / 64) _ _ (omega arith)
        (values-letter (c % 64) (encode s) (split s) (omega arith) (values-encode s h.1.1.1))))

pack-split : (s : Str) → IsBytes s → pack (split s) ≡ some s
unfolding pack split
pack-split [] h = refl
pack-split (a ∷ []) h = ground arith
pack-split (a ∷ b ∷ []) h = ground arith
pack-split (a ∷ b ∷ c ∷ s) h = ground (arith, pack-split s h.1.1.1)

-- A byte string is decoded from its own encoding.
pub decode-encode : (s : Str) → IsBytes s → decode (encode s) ≡ some s
unfolding decode
decode-encode s h = rw (values-encode s h, decode) (pack-split s h)
