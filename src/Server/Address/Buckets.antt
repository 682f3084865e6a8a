-- ===== src/Server/Address/Buckets.antt =====
-- Which clients share a bucket of the cap per address, and the cap itself
-- (internal/server/upgrade.go).
use wirefan.Prelude.{
  ℕ, zero, suc, ◌*◌, ◌/◌, ◌%◌, ◌^◌, ◌≡◌, ◌<◌, ◌↔◌, ◌⊎◌, inl, inr, refl, sym, ap, ◌∙◌, [], ◌∷◌,
  Option, none, some, Str, nat_beq, Bool-cases, if◌then◌else◌, arith,
}
use wirefan.Prelude.Strings.{trim_space}
use wirefan.Auth.Decimal.{pos, negsuc, parse_int}
use wirefan.Server.Address.{
  Addr, v4, v6, Prefix, IsAddr, IsUnmapped6, Netip, unmap, addr_prefix, ip_cap_key, parse_ip_cap,
}

-- Who an address is counted as: an IPv4 address, mapped or not, by itself, and an IPv6 address by
-- its first 64 bits, without its zone.
unfoldable pub client_of : Addr → ℕ ⊎ ℕ
client_of (v4 n) = inl n
client_of (v6 n zone) = if nat_beq (n / 2 ^ 32) 0xffff then inl (n % 2 ^ 32) else inr (n / 2 ^ 64)

-- The prefix of 64 bits behind its first 64 bits `k`.
abbrev subnet : ℕ → Prefix
subnet k = record { addr = v6 (k * 2 ^ 64) []; bits = 64 }

abbrev key_of_client : Netip → ℕ ⊎ ℕ → Str
key_of_client N (inl n) = N.addr_string (v4 n)
key_of_client N (inr k) = N.prefix_string (subnet k)

abbrev IsClient : ℕ ⊎ ℕ → Type 0
IsClient (inl n) = n < 2 ^ 32
IsClient (inr k) = k < 2 ^ 64

client_of-IsClient : (a : Addr) → IsAddr a → IsClient (client_of a)
unfolding client_of
client_of-IsClient (v4 n) h = h
client_of-IsClient (v6 n zone) h = elim (Bool-cases (nat_beq (n / 2 ^ 32) 0xffff)) [
  | inl mapped ↦ rw mapped (omega arith)
  | inr plain ↦ rw plain (omega (arith, h))
]

subnet-IsUnmapped6 : (k : ℕ) → k < 2 ^ 64 → IsUnmapped6 (subnet k)
subnet-IsUnmapped6 k h = (k * 2 ^ 64, refl, omega (arith, h), (λ e. omega (arith, e)), omega arith)

number : Option Prefix → ℕ
number none = 0
number (some p) = elim p.addr [ v4 n ↦ n | v6 n zone ↦ n ]

-- The cap that a trimmed value stands for.
capped : Str → ℕ
capped [] = 200
capped (c ∷ s) = elim (parse_int (c ∷ s)) [
  | none ↦ 200
  | some (pos zero) ↦ 200
  | some (pos (suc n)) ↦ suc n
  | some (negsuc n) ↦ 200
]

capped_lem :
    (s : Str)
    → (0 < capped s)
      × ((capped s ≡ 200) ⊎ (parse_int s ≡ some (pos (capped s))))
      × ((n : ℕ) → parse_int s ≡ some (pos (suc n)) → capped s ≡ suc n)
unfolding capped
capped_lem [] = (omega arith, inl refl, λ n h. absurd (unfold parse_int in ground arith))
capped_lem (c ∷ s) = (ground arith, ground arith, λ n h. ground arith)

module _ (N : Netip) where
  ip_cap_key-client :
      (ip : Str) (a : Addr)
      → N.parse_addr ip ≡ some a
      → ip_cap_key N ip ≡ key_of_client N (client_of a)
  unfolding ip_cap_key client_of unmap addr_prefix
  ip_cap_key-client ip (v4 n) h = rw (h, ip_cap_key) refl
  ip_cap_key-client ip (v6 n zone) h = elim (Bool-cases (nat_beq (n / 2 ^ 32) 0xffff)) [
    | inl mapped ↦ rw (h, ip_cap_key, mapped) refl
    | inr plain ↦ rw (h, ip_cap_key, plain) refl
  ]

  key_of_client-injective :
      (c d : ℕ ⊎ ℕ) → IsClient c → IsClient d → key_of_client N c ≡ key_of_client N d → c ≡ d
  unfolding number
  key_of_client-injective (inl m) (inl n) h k e =
      ground (
        arith,
        sym (N.parse_addr-string (v4 m) h) ∙ ap N.parse_addr e ∙ N.parse_addr-string (v4 n) k,
      )
  key_of_client-injective (inl m) (inr n) h k e = absurd (
      ground (
        arith,
        sym (N.parse_addr-string (v4 m) h)
            ∙ ap N.parse_addr e
            ∙ N.parse_addr-prefix (subnet n) (subnet-IsUnmapped6 n k),
      ))
  key_of_client-injective (inr m) (inl n) h k e = absurd (
      ground (
        arith,
        sym (N.parse_addr-prefix (subnet m) (subnet-IsUnmapped6 m h))
            ∙ ap N.parse_addr e
            ∙ N.parse_addr-string (v4 n) k,
      ))
  key_of_client-injective (inr m) (inr n) h k e =
      let same : some (subnet m) ≡ some (subnet n) =
        sym (N.parse_prefix-string (subnet m) (subnet-IsUnmapped6 m h))
        ∙ ap N.parse_prefix e
        ∙ N.parse_prefix-string (subnet n) (subnet-IsUnmapped6 n k) in
      let numbers : m * 2 ^ 64 ≡ n * 2 ^ 64 = ap number same in ap inr (omega (arith, numbers))

  -- Two addresses are counted in one bucket exactly if they are the same client: IPv4 addresses that
  -- are equal, mapped to IPv6 or not, or IPv6 addresses with the same first 64 bits, whatever their
  -- zones.
  pub ip_cap_key_iff :
      (x y : Str) (a b : Addr)
      → N.parse_addr x ≡ some a
      → N.parse_addr y ≡ some b
      → (ip_cap_key N x ≡ ip_cap_key N y) ↔ (client_of a ≡ client_of b)
  ip_cap_key_iff x y a b h k =
      let key_x = ip_cap_key-client x a h in
      let key_y = ip_cap_key-client y b k in
      (
        λ e.
            key_of_client-injective (client_of a) (client_of b)
              (client_of-IsClient a (N.parse_addr-IsAddr x a h))
              (client_of-IsClient b (N.parse_addr-IsAddr y b k)) (sym key_x ∙ e ∙ key_y),
        λ e. key_x ∙ ap (key_of_client N) e ∙ sym key_y,
      )

-- Whatever `WIREFAN_IP_CAP` says, the cap is positive; it is the default unless the value, without
-- the white space around it, is a positive number of 64 bits, and then it is that number.
pub parse_ip_cap_lem :
    (raw : Str)
    → (0 < parse_ip_cap raw)
      × ((parse_ip_cap raw ≡ 200) ⊎ (parse_int (trim_space raw) ≡ some (pos (parse_ip_cap raw))))
      × ((n : ℕ) → parse_int (trim_space raw) ≡ some (pos (suc n)) → parse_ip_cap raw ≡ suc n)
unfolding parse_ip_cap
parse_ip_cap_lem raw = unfold capped in capped_lem (trim_space raw)
