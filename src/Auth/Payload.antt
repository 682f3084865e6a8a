-- ===== src/Auth/Payload.antt =====
-- internal/auth/token.go: `macPayload`, the bytes that a token's MAC is computed over.
use wirefan.Prelude.{ℕ, suc, ◌≤◌, ◌≡◌, ◌≢◌, refl, [], ◌∷◌, ◌++◌, Str, codes, length, All, arith}
use wirefan.Auth.Decimal.{
  ℤ, pos, negsuc, format_nat, format_int, IsDigits, format_nat-IsDigits, format_nat-injective,
  format_int-injective,
}

-- `fmt.Sprintf("v1|%d|%d:%s|%d:%s|%s", ...)`.
unfoldable pub mac_payload : ℤ → Str → Str → Str → Str
mac_payload exp_ms socket_id channel jti =
    codes "v1|"
    ++ (format_int exp_ms
        ++ b'|'
          ∷ (format_nat (length socket_id)
              ++ b':'
                ∷ (socket_id
                    ++ b'|' ∷ (format_nat (length channel) ++ b':' ∷ (channel ++ b'|' ∷ jti)))))

abbrev pub Lacks : ℕ → Str → Type 0
Lacks b = All (λ c. c ≢ b)

-- What stands before the first separator is determined, and so is what stands behind it.
cut_unique :
    (b : ℕ) (s t : Str) {r u : Str}
    → Lacks b s
    → Lacks b t
    → s ++ b ∷ r ≡ t ++ b ∷ u
    → (s ≡ t) × (r ≡ u)
cut_unique b [] [] ls lt e = (refl, cc)
cut_unique b [] (y ∷ t) ls lt e = ground (arith, lt.0)
cut_unique b (x ∷ s) [] ls lt e = ground (arith, ls.0)
cut_unique b (x ∷ s) (y ∷ t) {r} {u} ls lt e =
    let (p, q) = cut_unique b s t {r = r} {u = u} ls.1 lt.1 (cc) in (cc, q)

-- So it is where the parts in front are of one length.
append_unique : (s t : Str) {r u : Str} → length s ≡ length t → s ++ r ≡ t ++ u → (s ≡ t) × (r ≡ u)
append_unique [] [] h e = (refl, e)
append_unique [] (y ∷ t) h e = absurd (omega arith)
append_unique (x ∷ s) [] h e = absurd (omega arith)
append_unique (x ∷ s) (y ∷ t) {r} {u} h e =
    let (p, q) = append_unique s t {r = r} {u = u} (omega arith) (cc) in (cc, q)

IsDigits-Lacks : (b : ℕ) (s : Str) → (b'9' ≤ b) × (b ≢ b'9') → IsDigits s → Lacks b s
IsDigits-Lacks b [] h ds = tt
IsDigits-Lacks b (c ∷ s) h ds = (λ e. omega arith, IsDigits-Lacks b s h ds.1)

format_int-Lacks : (i : ℤ) → Lacks b'|' (format_int i)
unfolding format_int
format_int-Lacks (pos n) = IsDigits-Lacks b'|' (format_nat n) (omega arith) (format_nat-IsDigits n)
format_int-Lacks (negsuc n) = (
  λ e. omega arith,
  IsDigits-Lacks b'|' (format_nat (suc n)) (omega arith) (format_nat-IsDigits (suc n)),
)

-- A length-prefixed field and what stands behind it are both determined.
field_unique :
    (s t : Str) {r u : Str}
    → format_nat (length s) ++ b':' ∷ (s ++ b'|' ∷ r)
      ≡ format_nat (length t) ++ b':' ∷ (t ++ b'|' ∷ u)
    → (s ≡ t) × (r ≡ u)
field_unique s t {r} {u} e =
    let colons = λ (x : Str).
      IsDigits-Lacks b':' (format_nat (length x)) (omega arith) (format_nat-IsDigits (length x)) in
    let (n, f) =
      cut_unique b':' (format_nat (length s)) (format_nat (length t)) (colons s) (colons t) e in
    let (p, q) = append_unique s t (format_nat-injective (length s) (length t) n) f in (p, cc)

-- No bytes can move from one field of the payload into another: two signing requests with one
-- payload agree on the expiry, the socket, the channel and the jti.
pub mac_payload-injective :
    (e e' : ℤ) (s s' c c' j j' : Str)
    → mac_payload e s c j ≡ mac_payload e' s' c' j'
    → (e ≡ e') × (s ≡ s') × (c ≡ c') × (j ≡ j')
unfolding mac_payload
mac_payload-injective e e' s s' c c' j j' h =
    let (pe, rest) =
      cut_unique b'|' (format_int e) (format_int e') (format_int-Lacks e) (format_int-Lacks e')
        (cc) in
    let (ps, rest') = field_unique s s' rest in
    let (pc, pj) = field_unique c c' rest' in (format_int-injective e e' pe, ps, pc, pj)

pub format_int-Lacks_colon : (i : ℤ) → Lacks b':' (format_int i)
unfolding format_int
format_int-Lacks_colon (pos n) =
    IsDigits-Lacks b':' (format_nat n) (omega arith) (format_nat-IsDigits n)
format_int-Lacks_colon (negsuc n) = (
  λ e. omega arith,
  IsDigits-Lacks b':' (format_nat (suc n)) (omega arith) (format_nat-IsDigits (suc n)),
)
