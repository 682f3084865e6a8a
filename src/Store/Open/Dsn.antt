-- ===== src/Store/Open/Dsn.antt =====
-- internal/store/migrate.go: `readOnlyDSN`, and what a `file:` URI says.
use wirefan.Prelude.{
  ℕ, ◌+◌, ◌-◌, ◌*◌, ◌/◌, ◌%◌, ◌<◌, ◌≡◌, refl, Bool, true, false, not, ◌&&◌, ◌||◌, inl, inr, [], ◌∷◌,
  ◌++◌, Str, codes, if◌then◌else◌, nat_beq, ltb, leb, has_prefix, nat_eq, All, Bool-cases, arith,
}
use wirefan.Prelude.Sets.{has}

-- The characters that `url.URL` leaves as they are in a path: letters, digits and `-_.~$&+,/:;=@`.
unfoldable pub is_plain : ℕ → Bool
is_plain c =
    (leb b'a' c && leb c b'z')
    || (leb b'A' c && leb c b'Z')
    || (leb b'0' c && leb c b'9')
    || has c (codes "-_.~$&+,/:;=@")

unfoldable pub upper_hex : ℕ → ℕ
upper_hex i = if ltb i 10 then b'0' + i else b'A' + (i - 10)

-- `(&url.URL{Path: p}).EscapedPath()`.
unfoldable pub escaped_path : Str → Str
escaped_path [] = []
escaped_path (c ∷ s) =
    let rest = escaped_path s in
    if is_plain c then c ∷ rest else b'%' ∷ upper_hex (c / 16) ∷ upper_hex (c % 16) ∷ rest

-- `readOnlyDSN`; `filepath.ToSlash` changes nothing on Unix.
unfoldable pub read_only_dsn : Str → Bool → Str
read_only_dsn path immutable =
    let p = if not (has_prefix path (codes "/")) then b'/' ∷ path else path in
    let q =
      if immutable
      then codes "?mode=ro&immutable=1&_busy_timeout=5000"
      else codes "?mode=ro&_busy_timeout=5000" in
    codes "file://" ++ (escaped_path p ++ q)

-- What SQLite reads of the part of a URI behind `file://`: the file, up to a `?` or a `#`, with
-- `%` and two digits for a byte, and the parameters behind the `?`.
unfoldable pub digit_value : ℕ → ℕ
digit_value c = if leb c b'9' then c - b'0' else c - b'A' + 10

-- What of an escape has been read.
pub data Pending : Type 0 where
  plain percent : Pending
  high : ℕ → Pending

unfoldable pub read_uri : Pending → Str → Str × Str
read_uri state [] = ([], [])
read_uri plain (c ∷ s) =
    let escape = read_uri percent s in
    let rest = read_uri plain s in
    if nat_beq c b'?'
    then ([], s)
    else if nat_beq c b'#'
    then ([], [])
    else if nat_beq c b'%'
    then escape
    else (c ∷ rest.0, rest.1)
read_uri percent (c ∷ s) = read_uri (high (digit_value c)) s
read_uri (high v) (c ∷ s) =
    let rest = read_uri plain s in ((v * 16 + digit_value c) ∷ rest.0, rest.1)

-- Bytes.
abbrev pub AreBytes : Str → Type 0
AreBytes = All (λ c. c < 256)

plain-apart :
    (c : ℕ)
    → is_plain c ≡ true
    → (nat_beq c b'?' ≡ false) × (nat_beq c b'#' ≡ false) × (nat_beq c b'%' ≡ false)
unfolding is_plain has
plain-apart c h = (ground arith, ground arith, ground arith)

digit_value-upper_hex : (i : ℕ) → i < 16 → digit_value (upper_hex i) ≡ i
unfolding digit_value upper_hex
digit_value-upper_hex i h = ground arith

read_uri-escaped : (s q : Str) → AreBytes s → read_uri plain (escaped_path s ++ (b'?' ∷ q)) ≡ (s, q)
unfolding escaped_path read_uri
read_uri-escaped [] q h = refl
read_uri-escaped (c ∷ s) q h = elim (Bool-cases (is_plain c)) [
  | inl kept ↦
      let (a, b, e) = plain-apart c kept in ground (arith, kept, a, b, e, read_uri-escaped s q h.1)
  | inr escaped ↦
      let hi = digit_value-upper_hex (c / 16) (omega (arith, h)) in
      let lo = digit_value-upper_hex (c % 16) (omega arith) in
      ground (arith, escaped, hi, lo, read_uri-escaped s q h.1)
]

-- Round trip: for every absolute path, whatever bytes it holds, the read-only connection is opened on
-- the file of that path and on no other, with exactly the parameters of the code; `immutable=1` is
-- among them only where it is asked for.
pub read_only_dsn-path :
    (path : Str) (immutable : Bool)
    → AreBytes path
    → has_prefix path (codes "/") ≡ true
    → (rest : Str) × (read_only_dsn path immutable ≡ codes "file://" ++ rest)
      × (read_uri plain rest ≡ (
        path,
        if immutable
            then codes "mode=ro&immutable=1&_busy_timeout=5000"
            else codes "mode=ro&_busy_timeout=5000",
      ))
unfolding read_only_dsn
read_only_dsn-path path true b h = (
  escaped_path path ++ codes "?mode=ro&immutable=1&_busy_timeout=5000",
  rw h refl,
  read_uri-escaped path (codes "mode=ro&immutable=1&_busy_timeout=5000") b,
)
read_only_dsn-path path false b h = (
  escaped_path path ++ codes "?mode=ro&_busy_timeout=5000",
  rw h refl,
  read_uri-escaped path (codes "mode=ro&_busy_timeout=5000") b,
)
