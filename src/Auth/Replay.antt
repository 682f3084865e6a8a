-- ===== src/Auth/Replay.antt =====
-- internal/auth/token.go: `ReplayCache`. Times are milliseconds since 1970.
use wirefan.Prelude.{
  ℕ, suc, ◌+◌, ◌≡◌, refl, Bool, true, false, [], ◌∷◌, none, some, Str, if◌then◌else◌, ltb, ◌==◌,
  str_eq, str_beq_iff, length, arith,
}
use wirefan.Prelude.Map.{Map, get, put, get-put}
use wirefan.Auth.Decimal.{ℤ, pos, negsuc}

-- `ReplayCache`, by the jti; a `time.Time` is its `UnixMilli`.
abbrev pub ReplayCache : Type 0
ReplayCache = Map Str ℤ

-- `now.Before(exp)`, which is also the strict order of `UnixMilli`.
abbrev pub before : ℕ → ℤ → Bool
before now (pos e) = ltb now e
before now (negsuc e) = false

-- `CheckAndRecord`.
unfoldable pub check_and_record : Str → ℤ → ReplayCache → Bool × ReplayCache
check_and_record jti exp seen = elim (get jti seen) [
  | some old ↦ (false, seen)
  | none ↦ (true, put jti exp seen)
]

-- `Sweep`: what stays, and how many were removed.
unfoldable pub sweep : ℕ → ReplayCache → ReplayCache × ℕ
sweep now [] = ([], 0)
sweep now ((jti, exp) ∷ seen) =
    let rest = sweep now seen in
    if before now exp then ((jti, exp) ∷ rest.0, rest.1) else (rest.0, suc rest.1)

-- The first call for a jti succeeds and every later one fails, as long as the entry stays; no call
-- touches the entry of another jti.
pub check_and_record_lem :
    (jti : Str) (exp : ℤ) (seen : ReplayCache)
    → ((check_and_record jti exp seen).0 ≡ elim (get jti seen) [ none ↦ true | some old ↦ false ])
      × ((exp' : ℤ) → (check_and_record jti exp' (check_and_record jti exp seen).1).0 ≡ false)
      × ((other : Str)
          → get other (check_and_record jti exp seen).1 ≡ (
              if jti == other
              then elim (get jti seen) [ none ↦ some exp | some old ↦ some old ]
              else get other seen))
unfolding check_and_record
check_and_record_lem jti exp seen = (
  ground arith,
  λ exp'. ground (arith, get-put jti jti exp seen, str_beq_iff jti jti),
  λ other. ground (arith, get-put jti other exp seen, str_beq_iff jti other),
)

length-sweep :
    (now : ℕ) (seen : ReplayCache) → length (sweep now seen).0 + (sweep now seen).1 ≡ length seen
unfolding sweep
length-sweep now [] = refl
length-sweep now ((jti, exp) ∷ seen) = ground (arith, length-sweep now seen)
