-- ===== src/Tests/Addresses.antt =====
-- Addresses behind a proxy, with texts that hold the number of an address as one character.
use wirefan.Prelude.{
  ℕ, ◌+◌, ◌*◌, ◌^◌, ◌≡◌, ◌≤◌, ◌↔◌, refl, sym, ◌∙◌, Bool, true, false, List, [], ◌∷◌, ◌++◌, Option,
  none, some, Str, codes, ltb, nat_beq, ◌&&◌, if◌then◌else◌, nat_eq, length, arith,
}
use wirefan.Prelude.Sets.{has}
use wirefan.Prelude.Strings.{trim_space, drop_spaces, count, space_at_start, space_at_end}
use wirefan.Conn.Names.Utf8.{any}
use wirefan.Server.Address.{
  Addr, v4, v6, Prefix, IsAddr, IsUnmapped6, Netip, contains, addr_in_prefixes, strip_host_port,
  host_of, ip_cap_key, client_ip,
}
use wirefan.Server.Address.Buckets.{client_of, ip_cap_key_iff}
use wirefan.Server.Address.Forwarded.{behind, client_ip-forwarded}
use wirefan.Server.LogValue.{is_unsafe, sanitize_log_value, sanitize_log_value_lem}

abbrev is_nil : Str → Bool
is_nil [] = true
is_nil (c ∷ s) = false

abbrev toy_parse : Str → Option Addr
toy_parse [] = none
toy_parse (c ∷ []) = none
toy_parse (c ∷ n ∷ zone) =
    if nat_beq c b'4' && is_nil zone && ltb n (2 ^ 32)
    then some (v4 n)
    else if nat_beq c b'6' && ltb n (2 ^ 128)
    then some (v6 n zone)
    else none

abbrev toy_parse_prefix : Str → Option Prefix
toy_parse_prefix [] = none
toy_parse_prefix (c ∷ []) = none
toy_parse_prefix (c ∷ n ∷ []) = none
toy_parse_prefix (c ∷ n ∷ bits ∷ s) =
    if nat_beq c b'/' then some (record { addr = v6 n []; bits = bits }) else none

abbrev toy_string : Addr → Str
toy_string (v4 n) = b'4' ∷ n ∷ []
toy_string (v6 n zone) = b'6' ∷ n ∷ zone

abbrev toy_prefix_string : Prefix → Str
toy_prefix_string p = elim p.addr [
  | v4 n ↦ b'/' ∷ n ∷ p.bits ∷ []
  | v6 n zone ↦ b'/' ∷ n ∷ p.bits ∷ []
]

toy_parse-IsAddr : (s : Str) (a : Addr) → toy_parse s ≡ some a → IsAddr a
toy_parse-IsAddr [] a h = absurd (ground (arith, h))
toy_parse-IsAddr (c ∷ []) a h = absurd (ground (arith, h))
toy_parse-IsAddr (c ∷ n ∷ zone) (v4 m) h = ground (arith, h)
toy_parse-IsAddr (c ∷ n ∷ zone) (v6 m z) h = ground (arith, h)

toy_parse-string : (a : Addr) → IsAddr a → toy_parse (toy_string a) ≡ some a
toy_parse-string (v4 n) h = ground (arith, h)
toy_parse-string (v6 n zone) h = ground (arith, h)

toy_prefix : (p : Prefix) → IsUnmapped6 p → toy_parse_prefix (toy_prefix_string p) ≡ some p
toy_prefix p (n, e, l, m, h) = ground (arith, e)

toy_apart : (p : Prefix) → IsUnmapped6 p → toy_parse (toy_prefix_string p) ≡ none
toy_apart p (n, e, l, m, h) = ground (arith, e)

abbrev toy_netip : Netip
toy_netip = record {
  parse_addr = toy_parse;
  parse_prefix = toy_parse_prefix;
  addr_string = toy_string;
  prefix_string = toy_prefix_string;
  parse_addr-IsAddr = toy_parse-IsAddr;
  parse_addr-string = toy_parse-string;
  parse_prefix-string = toy_prefix;
  parse_addr-prefix = toy_apart;
}

-- 2001:db8::1 and 2001:db8::2%z are one client.
abbrev net_2001 : ℕ
net_2001 = 0x20010db8 * 2 ^ 96

ip_cap_key_iff_example :
    (ip_cap_key toy_netip (b'6' ∷ (net_2001 + 1) ∷ [])
      ≡ ip_cap_key toy_netip (b'6' ∷ (net_2001 + 2) ∷ codes "z"))
    ↔ (client_of (v6 (net_2001 + 1) []) ≡ client_of (v6 (net_2001 + 2) (codes "z")))
ip_cap_key_iff_example =
    ip_cap_key_iff toy_netip (b'6' ∷ (net_2001 + 1) ∷ []) (b'6' ∷ (net_2001 + 2) ∷ codes "z")
      (v6 (net_2001 + 1) []) (v6 (net_2001 + 2) (codes "z")) refl refl

-- The proxies are 10.0.0.0/8.
abbrev net_10 : ℕ
net_10 = 10 * 2 ^ 24

abbrev proxies : List Prefix
proxies = record { addr = v4 net_10; bits = 8 } ∷ []

abbrev hop_99 : Str
hop_99 = b'4' ∷ 99 ∷ []

abbrev proxy_1 : Str
proxy_1 = b'4' ∷ (net_10 + 1) ∷ []

same_addr : (a b : Addr) → some a ≡ some b → a ≡ b
same_addr a b e = ground (arith, e)

outside : (a : Addr) → v4 99 ≡ a → addr_in_prefixes (some a) proxies ≡ false
unfolding addr_in_prefixes contains
outside a e = rw (sym e) refl

inside : (a : Addr) → v4 (net_10 + 1) ≡ a → addr_in_prefixes (some a) proxies ≡ true
unfolding addr_in_prefixes contains
inside a e = rw (sym e) refl

hop_99_addr : (strip_host_port toy_netip hop_99).0 ≡ some (v4 99)
unfolding strip_host_port trim_space drop_spaces space_at_start space_at_end host_of count
hop_99_addr = refl

proxy_1_addr : (strip_host_port toy_netip proxy_1).0 ≡ some (v4 (net_10 + 1))
unfolding strip_host_port trim_space drop_spaces space_at_start space_at_end host_of count
proxy_1_addr = refl

client_ip-forwarded_example :
    (client_ip toy_netip proxy_1 proxies
        (codes "evil" ++ (b',' ∷ (hop_99 ++ behind (proxy_1 ∷ []))))
      ≡ (strip_host_port toy_netip hop_99).1)
    × (client_ip toy_netip proxy_1 proxies (hop_99 ++ behind (proxy_1 ∷ []))
        ≡ (strip_host_port toy_netip hop_99).1)
client_ip-forwarded_example =
    client_ip-forwarded toy_netip proxies proxy_1 (v4 (net_10 + 1)) (codes "evil") hop_99 (v4 99)
      (proxy_1 ∷ []) proxy_1_addr (inside (v4 (net_10 + 1)) refl) hop_99_addr (outside (v4 99) refl)
      (unfold has in refl) (unfold has in refl, tt)
      ((λ a e. inside a (same_addr (v4 (net_10 + 1)) a (sym proxy_1_addr ∙ e))), tt)

sanitize_log_value_lem_example :
    (any is_unsafe (sanitize_log_value (codes "a\nb")) ≡ false)
    × (length (codes "a\nb") ≤ 1024
        → any is_unsafe (codes "a\nb") ≡ false
        → sanitize_log_value (codes "a\nb") ≡ codes "a\nb")
sanitize_log_value_lem_example = sanitize_log_value_lem (codes "a\nb")
