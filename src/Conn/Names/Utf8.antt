-- ===== src/Conn/Names/Utf8.antt =====
-- What Go's `range` over a string and `unicode/utf8`'s `Valid` read.
use wirefan.Prelude.{
  ℕ, zero, suc, ◌+◌, ◌*◌, ◌%◌, ◌≤◌, ◌<◌, ◌≡◌, refl, Bool, true, false, ◌||◌, ◌&&◌, List, [], ◌∷◌,
  Option, none, some, Str, if◌then◌else◌, ltb, leb, nat_beq, inl, inr, ◌⊎◌, Bool-cases, arith,
}

abbrev within : ℕ → ℕ → ℕ → Bool
within lo hi b = leb lo b && leb b hi

-- The rune that begins with `b`, and how many bytes of `s` belong to it; `none` if there is none.
-- The second byte has a range of its own behind some first bytes.
two : ℕ → Str → Option (ℕ × ℕ)
two b [] = none
two b (c ∷ s) = if within 0x80 0xbf c then some (b % 32 * 64 + c % 64, 1) else none

three : ℕ → ℕ → ℕ → Str → Option (ℕ × ℕ)
three lo hi b [] = none
three lo hi b (c ∷ []) = none
three lo hi b (c ∷ d ∷ s) =
    if within lo hi c && within 0x80 0xbf d
    then some (b % 16 * 4096 + c % 64 * 64 + d % 64, 2)
    else none

four : ℕ → ℕ → ℕ → Str → Option (ℕ × ℕ)
four lo hi b [] = none
four lo hi b (c ∷ []) = none
four lo hi b (c ∷ d ∷ []) = none
four lo hi b (c ∷ d ∷ e ∷ s) =
    if within lo hi c && within 0x80 0xbf d && within 0x80 0xbf e
    then some (b % 8 * 262144 + c % 64 * 4096 + d % 64 * 64 + e % 64, 3)
    else none

decode_rune : ℕ → Str → Option (ℕ × ℕ)
decode_rune b s =
    if ltb b 0x80
    then some (b, 0)
    else if within 0xc2 0xdf b
    then two b s
    else if nat_beq b 0xe0
    then three 0xa0 0xbf b s
    else if nat_beq b 0xed
    then three 0x80 0x9f b s
    else if within 0xe1 0xef b
    then three 0x80 0xbf b s
    else if nat_beq b 0xf0
    then four 0x90 0xbf b s
    else if within 0xf1 0xf3 b
    then four 0x80 0xbf b s
    else if nat_beq b 0xf4
    then four 0x80 0x8f b s
    else none

-- The runes of a string behind `skip` bytes; an invalid byte is U+FFFD by itself.
runes_from : ℕ → Str → List ℕ
runes_from skip [] = []
runes_from (suc skip) (b ∷ s) = runes_from skip s
runes_from zero (b ∷ s) = elim (decode_rune b s) [
  | none ↦ 0xfffd ∷ runes_from 0 s
  | some (r, w) ↦ r ∷ runes_from w s
]

unfoldable pub runes : Str → List ℕ
unfolding runes_from decode_rune two three four
runes = runes_from 0

valid_from : ℕ → Str → Bool
valid_from skip [] = true
valid_from (suc skip) (b ∷ s) = valid_from skip s
valid_from zero (b ∷ s) = elim (decode_rune b s) [ none ↦ false | some (r, w) ↦ valid_from w s ]

-- `utf8.Valid`.
unfoldable pub valid : Str → Bool
unfolding valid_from decode_rune two three four
valid = valid_from 0

runes_euro :
    runes (0x61 ∷ 0xe2 ∷ 0x82 ∷ 0xac ∷ 0xff ∷ 0x62 ∷ []) ≡ 0x61 ∷ 0x20ac ∷ 0xfffd ∷ 0x62 ∷ []
unfolding runes
runes_euro = refl

surrogate : valid (0xed ∷ 0xa0 ∷ 0x80 ∷ []) ≡ false
unfolding valid
surrogate = refl

-- The bytes that a rune takes behind its first are continuation bytes.
abbrev pub Continues : ℕ → Str → Type 0
Continues zero s = Unit
Continues (suc w) [] = Unit
Continues (suc w) (c ∷ s) = (0x80 ≤ c) × Continues w s

-- An ASCII byte is a rune of its own; any other first byte gives a rune that is not ASCII.
abbrev Reads : ℕ → Str → Option (ℕ × ℕ) → Type 0
Reads b s none = 0x80 ≤ b
Reads b s (some (r, w)) =
    ((b < 0x80) × (r ≡ b) × (w ≡ 0)) ⊎ ((0x80 ≤ b) × (0x80 ≤ r) × Continues w s)

two-Reads : (b : ℕ) (s : Str) → 0xc2 ≤ b → b ≤ 0xdf → Reads b s (two b s)
unfolding two
two-Reads b [] h k = omega arith
two-Reads b (c ∷ s) h k = elim (Bool-cases (within 0x80 0xbf c)) [
  | inl good ↦ rw good (inr (omega arith, ground arith, (ground arith, tt)))
  | inr bad ↦ rw bad (omega arith)
]

three-Reads :
    (lo hi b : ℕ) (s : Str)
    → 0x80 ≤ lo
    → (0xe1 ≤ b) ⊎ (0xa0 ≤ lo)
    → 0xe0 ≤ b
    → b ≤ 0xef
    → hi ≤ 0xbf
    → Reads b s (three lo hi b s)
unfolding three
three-Reads lo hi b [] h j k l m = omega arith
three-Reads lo hi b (c ∷ []) h j k l m = omega arith
three-Reads lo hi b (c ∷ d ∷ s) h j k l m =
    elim (Bool-cases (within lo hi c && within 0x80 0xbf d)) [
      | inl good ↦
          let c_lo : lo ≤ c = ground arith in
          let c_hi : c ≤ hi = ground arith in
          let d_lo : 0x80 ≤ d = ground arith in
          rw good (inr (omega arith, omega arith, (omega arith, (d_lo, tt))))
      | inr bad ↦ rw bad (omega arith)
    ]

four-Reads :
    (lo hi b : ℕ) (s : Str)
    → 0x80 ≤ lo
    → (0xf1 ≤ b) ⊎ (0x90 ≤ lo)
    → 0xf0 ≤ b
    → b ≤ 0xf4
    → hi ≤ 0xbf
    → Reads b s (four lo hi b s)
unfolding four
four-Reads lo hi b [] h j k l m = omega arith
four-Reads lo hi b (c ∷ []) h j k l m = omega arith
four-Reads lo hi b (c ∷ d ∷ []) h j k l m = omega arith
four-Reads lo hi b (c ∷ d ∷ e ∷ s) h j k l m =
    elim (Bool-cases (within lo hi c && within 0x80 0xbf d && within 0x80 0xbf e)) [
      | inl good ↦
          let c_lo : lo ≤ c = ground arith in
          let c_hi : c ≤ hi = ground arith in
          let d_lo : 0x80 ≤ d = ground arith in
          let e_lo : 0x80 ≤ e = ground arith in
          rw good (inr (omega arith, omega arith, (omega arith, (d_lo, (e_lo, tt)))))
      | inr bad ↦ rw bad (omega arith)
    ]

Reads-if :
    (b : ℕ) (s : Str) (t : Bool) (x y : Option (ℕ × ℕ))
    → (t ≡ true → Reads b s x)
    → (t ≡ false → Reads b s y)
    → Reads b s (if t then x else y)
Reads-if b s true x y h k = h refl
Reads-if b s false x y h k = k refl

decode_rune-Reads : (b : ℕ) (s : Str) → Reads b s (decode_rune b s)
unfolding decode_rune
decode_rune-Reads b s =
    Reads-if b s (ltb b 0x80) _ _ (λ t. inl (ground arith, refl, refl))
      λ high.
        let le : 0x80 ≤ b = ground arith in
        Reads-if b s (within 0xc2 0xdf b) _ _ (λ t. two-Reads b s (ground arith) (ground arith))
          λ _.
            Reads-if b s (nat_beq b 0xe0) _ _
              (λ t.
                three-Reads 0xa0 0xbf b s (omega arith) (omega arith) (ground arith) (ground arith)
                  (omega arith))
              λ not_e0.
                Reads-if b s (nat_beq b 0xed) _ _
                  (λ t.
                    three-Reads 0x80 0x9f b s (omega arith) (ground arith) (ground arith)
                      (ground arith) (omega arith))
                  λ _.
                    Reads-if b s (within 0xe1 0xef b) _ _
                      (λ t.
                        three-Reads 0x80 0xbf b s (omega arith) (ground arith) (ground arith)
                          (ground arith) (omega arith))
                      λ _.
                        Reads-if b s (nat_beq b 0xf0) _ _
                          (λ t.
                            four-Reads 0x90 0xbf b s (omega arith) (omega arith) (ground arith)
                              (ground arith) (omega arith))
                          λ _.
                            Reads-if b s (within 0xf1 0xf3 b) _ _
                              (λ t.
                                four-Reads 0x80 0xbf b s (omega arith) (ground arith) (ground arith)
                                  (ground arith) (omega arith))
                              λ _.
                                Reads-if b s (nat_beq b 0xf4) _ _
                                  (λ t.
                                    four-Reads 0x80 0x8f b s (omega arith) (ground arith)
                                      (ground arith) (ground arith) (omega arith))
                                  λ _. le

module _ (p : ℕ → Bool) where
  unfoldable pub any : List ℕ → Bool
  any [] = false
  any (r ∷ rs) = p r || any rs

  -- A test that only ASCII can pass finds the same in the runes as in the bytes.
  any-runes_from :
      ((r : ℕ) → 0x80 ≤ r → p r ≡ false)
      → (skip : ℕ) (s : Str) → Continues skip s
      → any (runes_from skip s) ≡ any s
  unfolding any runes_from
  any-runes_from high skip [] c = refl
  any-runes_from high (suc skip) (b ∷ s) c = rw (high b c.0) (any-runes_from high skip s c.1)
  any-runes_from high zero (b ∷ s) c =
      go (λ w. any-runes_from high w s) (decode_rune b s) (decode_rune-Reads b s)
    where
      go :
          ((w : ℕ) → Continues w s → any (runes_from w s) ≡ any s)
          → (o : Option (ℕ × ℕ)) → Reads b s o
          → any (elim o [ none ↦ 0xfffd ∷ runes_from 0 s | some (r, w) ↦ r ∷ runes_from w s ])
            ≡ (p b || any s)
      go rest none h = rw (high 0xfffd (omega arith), high b h) (rest 0 tt)
      go rest (some (r, w)) (inl (_, same, none_more)) = rw (same, none_more, rest 0 tt)
      go rest (some (r, w)) (inr (h, k, more)) = rw (high r k, high b h) (rest w more)

  pub any-runes : ((r : ℕ) → 0x80 ≤ r → p r ≡ false) → (s : Str) → any (runes s) ≡ any s
  unfolding runes
  any-runes high s = any-runes_from high 0 s tt
