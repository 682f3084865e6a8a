-- ===== src/Server/Address.antt =====
-- internal/server/upgrade.go: the address that an upgrade is counted under. An address is a number
-- of 32 or 128 bits; its textual forms are those of net/netip, in `Netip`.
pub mod Forwarded
pub mod Buckets
use wirefan.Prelude.{
  ℕ, zero, suc, ◌-◌, ◌*◌, ◌/◌, ◌%◌, ◌^◌, ◌≡◌, ◌≢◌, ◌≤◌, ◌<◌, Bool, true, false, not, ◌&&◌, ◌||◌,
  List, [], ◌∷◌, Option, none, some, Str, codes, if◌then◌else◌, leb, ltb, nat_beq, has_prefix,
  reverse,
}
use wirefan.Prelude.Strings.{split, trim_space, cut_last, count}
use wirefan.Auth.Decimal.{ℤ, pos, negsuc, parse_int}

-- `netip.Addr`, a valid one; an IPv6 address may have a zone.
pub data Addr : Type 0 where
  v4 : ℕ → Addr
  v6 : ℕ → Str → Addr

-- `netip.Prefix`, a valid one.
pub record Prefix : Type 0 where
  pub addr : Addr
  pub bits : ℕ

-- The numbers are of 32 and 128 bits, a prefix has no zone and no more bits than its address. An
-- IPv4-mapped IPv6 address, `::ffff:a.b.c.d`, has 0xffff in front of its last 32 bits.
abbrev pub IsAddr : Addr → Type 0
IsAddr (v4 n) = n < 2 ^ 32
IsAddr (v6 n zone) = n < 2 ^ 128

abbrev pub IsUnmapped6 : Prefix → Type 0
IsUnmapped6 p =
    (n : ℕ) × (p.addr ≡ v6 n []) × (n < 2 ^ 128) × (n / 2 ^ 32 ≢ 0xffff) × (p.bits ≤ 128)

-- `ParseAddr` and `ParsePrefix`, with an error as `none`, and the two methods `String`. What is
-- printed is read back, and an address has no length of a prefix in its text.
pub record Netip : Type 0 where
  pub parse_addr : Str → Option Addr
  pub parse_prefix : Str → Option Prefix
  pub addr_string : Addr → Str
  pub prefix_string : Prefix → Str
  pub parse_addr-IsAddr : (s : Str) (a : Addr) → parse_addr s ≡ some a → IsAddr a
  pub parse_addr-string : (a : Addr) → IsAddr a → parse_addr (addr_string a) ≡ some a
  pub parse_prefix-string : (p : Prefix) → IsUnmapped6 p → parse_prefix (prefix_string p) ≡ some p
  pub parse_addr-prefix : (p : Prefix) → IsUnmapped6 p → parse_addr (prefix_string p) ≡ none

-- `Is4`.
abbrev is4 : Addr → Bool
is4 (v4 n) = true
is4 (v6 n zone) = false

-- `Unmap`: `::ffff:a.b.c.d` is the IPv4 address a.b.c.d.
unfoldable pub unmap : Addr → Addr
unmap (v4 n) = v4 n
unmap (v6 n zone) = if nat_beq (n / 2 ^ 32) 0xffff then v4 (n % 2 ^ 32) else v6 n zone

-- The number with all but its first `bits` of `width` bits cleared.
abbrev keep_bits : ℕ → ℕ → ℕ → ℕ
keep_bits width bits n = n / 2 ^ (width - bits) * 2 ^ (width - bits)

-- `Addr.Prefix(bits)`, which drops the zone; an error as `none`.
unfoldable pub addr_prefix : ℕ → Addr → Option Prefix
addr_prefix bits (v4 n) =
    if leb bits 32 then some (record { addr = v4 (keep_bits 32 bits n); bits = bits }) else none
addr_prefix bits (v6 n zone) =
    if leb bits 128
    then some (record { addr = v6 (keep_bits 128 bits n) []; bits = bits })
    else none

-- `Prefix.Contains`: never an address with a zone, or one of the other family.
unfoldable pub contains : Prefix → Addr → Bool
contains p a = elim p.addr [
  | v4 m ↦ elim a [
    | v4 n ↦ nat_beq (m / 2 ^ (32 - p.bits)) (n / 2 ^ (32 - p.bits))
    | v6 n zone ↦ false
  ]
  | v6 m z ↦ elim a [
    | v4 n ↦ false
    | v6 n zone ↦ elim zone [
      | [] ↦ nat_beq (m / 2 ^ (128 - p.bits)) (n / 2 ^ (128 - p.bits))
      | c ∷ s ↦ false
    ]
  ]
]

-- `addrInPrefixes`; `none` is the zero `Addr`, which is not valid.
unfoldable pub addr_in_prefixes : Option Addr → List Prefix → Bool
addr_in_prefixes none ps = false
addr_in_prefixes (some a) [] = false
addr_in_prefixes (some a) (p ∷ ps) =
    let rest = addr_in_prefixes (some a) ps in if contains p a then true else rest

abbrev default_ip_cap : ℕ
default_ip_cap = 200

abbrev ipv6_cap_prefix_bits : ℕ
ipv6_cap_prefix_bits = 64

-- `parseIPCap`.
unfoldable pub parse_ip_cap : Str → ℕ
parse_ip_cap raw = elim (trim_space raw) [
  | [] ↦ default_ip_cap
  | c ∷ s ↦ elim (parse_int (c ∷ s)) [
    | none ↦ default_ip_cap
    | some (pos zero) ↦ default_ip_cap
    | some (pos (suc n)) ↦ suc n
    | some (negsuc n) ↦ default_ip_cap
  ]
]

-- The host of an address with or without a port.
unfoldable pub host_of : Str → Str
host_of [] = []
host_of (c ∷ s) =
    if nat_beq c b'['
    then elim (cut_last b']' s) [ none ↦ c ∷ s | some (host, rest) ↦ host ]
    else if nat_beq (count b':' (c ∷ s)) 1
    then elim (cut_last b':' (c ∷ s)) [
      | none ↦ c ∷ s
      | some ([], port) ↦ c ∷ s
      | some (d ∷ host, port) ↦ d ∷ host
    ]
    else c ∷ s

module _ (N : Netip) where
  open N use {parse_addr, parse_prefix, addr_string, prefix_string}

  -- `ipCapKey`.
  unfoldable pub ip_cap_key : Str → Str
  ip_cap_key ip = elim (parse_addr ip) [
    | none ↦ ip
    | some a ↦ elim (unmap a) [
      | v4 n ↦ addr_string (v4 n)
      | v6 n zone ↦ elim (addr_prefix ipv6_cap_prefix_bits (v6 n [])) [
        | none ↦ ip
        | some p ↦ prefix_string p
      ]
    ]
  ]

  -- One entry of `parseTrustedProxies`.
  unfoldable pub trusted_entry : Str → Option Prefix
  trusted_entry s = elim (trim_space s) [
    | [] ↦ none
    | c ∷ t ↦ elim (parse_prefix (c ∷ t)) [
      | some p ↦ some p
      | none ↦ elim (parse_addr (c ∷ t)) [
        | none ↦ none
        | some a ↦ addr_prefix (if is4 a then 32 else 128) a
      ]
    ]
  ]

  unfoldable pub trusted_entries : List Str → List Prefix
  trusted_entries [] = []
  trusted_entries (s ∷ ss) =
      let rest = trusted_entries ss in elim (trusted_entry s) [ none ↦ rest | some p ↦ p ∷ rest ]

  -- `parseTrustedProxies`.
  unfoldable pub parse_trusted_proxies : Str → List Prefix
  parse_trusted_proxies [] = []
  parse_trusted_proxies (c ∷ s) = trusted_entries (split b',' (c ∷ s))

  -- `stripHostPort`: the address, whose absence is its third result, and the host.
  unfoldable pub strip_host_port : Str → Option Addr × Str
  strip_host_port s = elim (trim_space s) [
    | [] ↦ (none, [])
    | c ∷ t ↦ (parse_addr (host_of (c ∷ t)), host_of (c ∷ t))
  ]

  -- The loop of `clientIP` over the hops, the last one first.
  unfoldable pub untrusted_hop : List Prefix → List Str → Option Str
  untrusted_hop ps [] = none
  untrusted_hop ps (hop ∷ hops) =
      let rest = untrusted_hop ps hops in
      let (a, host) = strip_host_port hop in
      elim a [ none ↦ rest | some b ↦ if addr_in_prefixes (some b) ps then rest else some host ]

  abbrev first_hop : Str → List Str → Str
  first_hop fallback [] = fallback
  first_hop fallback (hop ∷ hops) = elim (strip_host_port hop).0 [
    | none ↦ fallback
    | some a ↦ (strip_host_port hop).1
  ]

  -- `clientIP`, over `RemoteAddr`, the prefixes and the `X-Forwarded-For` header.
  unfoldable pub client_ip : Str → List Prefix → Str → Str
  client_ip remote ps xff = elim (strip_host_port remote).0 [
    | none ↦ remote
    | some a ↦
        let ra = (strip_host_port remote).1 in
        if not (addr_in_prefixes (some a) ps) then ra else elim xff [
          | [] ↦ ra
          | c ∷ s ↦ elim (untrusted_hop ps (reverse (split b',' (c ∷ s)))) [
            | some host ↦ host
            | none ↦ first_hop ra (split b',' (c ∷ s))
          ]
        ]
  ]
