-- ===== src/Server/Address/Forwarded.antt =====
-- What a client behind proxies can make of its address (internal/server/upgrade.go).
use mathlib.Core.List.{reverse-cons, reverse-append}
use wirefan.Prelude.{
  ℕ, ◌≡◌, ◌≢◌, refl, ◌∙◌, true, false, List, [], ◌∷◌, ◌++◌, append-nil, none, some, Str, nat_eq,
  nat_beq, reverse, All, Bool-cases, Option-cases, inl, inr, arith,
}
use wirefan.Prelude.Sets.{has}
use wirefan.Prelude.Strings.{split, trim_space, drop_spaces}
use wirefan.Server.Address.{
  Addr, Prefix, Netip, addr_in_prefixes, strip_host_port, untrusted_hop, client_ip,
}

abbrev comma : ℕ
comma = b','

-- Entries with a comma in front of each.
unfoldable pub behind : List Str → Str
behind [] = []
behind (t ∷ ts) = b',' ∷ t ++ behind ts

split-cons : (s : Str) → (part : Str) × (parts : List Str) × (split comma s ≡ part ∷ parts)
unfolding split
split-cons [] = ([], [], refl)
split-cons (c ∷ s) =
    let (part, parts, some_part) = split-cons s in
    elim (Bool-cases (nat_beq c comma)) [
      | inl this ↦ ([], split comma s, ground (arith, this))
      | inr other ↦ (c ∷ part, parts, ground (arith, other, some_part))
    ]

split-comma : (s t : Str) → split comma (s ++ comma ∷ t) ≡ split comma s ++ split comma t
unfolding split
split-comma [] t = refl
split-comma (c ∷ s) t =
    let (part, parts, some_part) = split-cons s in ground (arith, some_part, split-comma s t)

split-lacks : (s : Str) → has comma s ≡ false → split comma s ≡ s ∷ []
unfolding split has
split-lacks [] h = refl
split-lacks (c ∷ s) h = ground (arith, split-lacks s)

split-behind :
    (s : Str) (ts : List Str)
    → has comma s ≡ false
    → All (λ t. has comma t ≡ false) ts
    → split comma (s ++ behind ts) ≡ s ∷ ts
unfolding behind
split-behind s [] h a = rw (append-nil s) (split-lacks s h)
split-behind s (t ∷ ts) h a =
    split-comma s (t ++ behind ts) ∙ ground (arith, split-lacks s h, split-behind t ts a.0 a.1)

module _ (N : Netip) (ps : List Prefix) where
  -- A hop that `clientIP` passes over: it is no address, or one of a trusted proxy.
  abbrev pub IsPassed : Str → Type 0
  IsPassed hop =
      (a : Addr) → (strip_host_port N hop).0 ≡ some a → addr_in_prefixes (some a) ps ≡ true

  untrusted_hop-append :
      (xs ys : List Str)
      → untrusted_hop N ps (xs ++ ys)
        ≡ elim (untrusted_hop N ps xs) [ none ↦ untrusted_hop N ps ys | some h ↦ some h ]
  unfolding untrusted_hop
  untrusted_hop-append [] ys = refl
  untrusted_hop-append (x ∷ xs) ys = ground (arith, untrusted_hop-append xs ys)

  untrusted_hop-passed : (t : Str) → IsPassed t → untrusted_hop N ps (t ∷ []) ≡ none
  unfolding untrusted_hop
  untrusted_hop-passed t h = elim (Option-cases (strip_host_port N t).0) [
    | inl no_addr ↦ ground (arith, no_addr)
    | inr (a, is_addr) ↦ ground (arith, is_addr, h a is_addr)
  ]

  untrusted_hop-found :
      (hop : Str) (a : Addr)
      → (strip_host_port N hop).0 ≡ some a
      → addr_in_prefixes (some a) ps ≡ false
      → untrusted_hop N ps (hop ∷ []) ≡ some (strip_host_port N hop).1
  unfolding untrusted_hop
  untrusted_hop-found hop a h u = ground (arith, h, u)

  untrusted_hop-reverse : (ts : List Str) → All IsPassed ts → untrusted_hop N ps (reverse ts) ≡ none
  untrusted_hop-reverse [] a = unfold untrusted_hop in refl
  untrusted_hop-reverse (t ∷ ts) a = rw (reverse-cons t ts) (
      untrusted_hop-append (reverse ts) (t ∷ [])
      ∙ ground (arith, untrusted_hop-reverse ts a.1, untrusted_hop-passed t a.0))

  untrusted_hop-last :
      (left : List Str) (hop : Str) (a : Addr) (ts : List Str)
      → (strip_host_port N hop).0 ≡ some a
      → addr_in_prefixes (some a) ps ≡ false
      → All IsPassed ts
      → untrusted_hop N ps (reverse (left ++ hop ∷ ts)) ≡ some (strip_host_port N hop).1
  untrusted_hop-last left hop a ts h u passed =
      rw (reverse-append left (hop ∷ ts), reverse-cons hop ts)
        (untrusted_hop-append (reverse ts ++ hop ∷ []) (reverse left)
          ∙ ground (
            arith,
            untrusted_hop-append (reverse ts) (hop ∷ []),
            untrusted_hop-reverse ts passed,
            untrusted_hop-found hop a h u,
          ))

  nothing_forwarded : (host : Str) → untrusted_hop N ps (reverse (split comma [])) ≢ some host
  unfolding untrusted_hop strip_host_port split trim_space drop_spaces
  nothing_forwarded host found = ground (arith, found)

  forwarded :
      (remote : Str) (a : Addr) (xff host : Str)
      → (strip_host_port N remote).0 ≡ some a
      → addr_in_prefixes (some a) ps ≡ true
      → untrusted_hop N ps (reverse (split comma xff)) ≡ some host
      → client_ip N remote ps xff ≡ host
  unfolding client_ip
  forwarded remote a [] host h u found = absurd (nothing_forwarded host found)
  forwarded remote a (c ∷ s) host h u found = ground (arith, h, u, found)

  -- A peer that is not a trusted proxy is counted under the address of its own socket, or under
  -- `RemoteAddr` itself where that is no address, whatever it sends in `X-Forwarded-For`.
  pub client_ip-direct :
      (remote xff : Str)
      → ((a : Addr) → (strip_host_port N remote).0 ≡ some a → addr_in_prefixes (some a) ps ≡ false)
      → (client_ip N remote ps xff ≡ client_ip N remote ps [])
        × (client_ip N remote ps xff ≡ elim (strip_host_port N remote).0 [
          | none ↦ remote
          | some a ↦ (strip_host_port N remote).1
        ])
  unfolding client_ip
  client_ip-direct remote xff h = elim (Option-cases (strip_host_port N remote).0) [
    | inl no_addr ↦ (ground (arith, no_addr), ground (arith, no_addr))
    | inr (a, is_addr) ↦
        (ground (arith, is_addr, h a is_addr), ground (arith, is_addr, h a is_addr))
  ]

  -- Behind trusted proxies a client is counted under the hop that the first trusted one added: the
  -- last hop of `X-Forwarded-For` that is an address of no trusted proxy, whatever the client has
  -- put in front of it; entries hold no comma.
  pub client_ip-forwarded :
      (remote : Str) (peer : Addr) (left hop : Str) (a : Addr) (ts : List Str)
      → (strip_host_port N remote).0 ≡ some peer
      → addr_in_prefixes (some peer) ps ≡ true
      → (strip_host_port N hop).0 ≡ some a
      → addr_in_prefixes (some a) ps ≡ false
      → has comma hop ≡ false
      → All (λ t. has comma t ≡ false) ts
      → All IsPassed ts
      → (client_ip N remote ps (left ++ (b',' ∷ (hop ++ behind ts))) ≡ (strip_host_port N hop).1)
        × (client_ip N remote ps (hop ++ behind ts) ≡ (strip_host_port N hop).1)
  client_ip-forwarded remote peer left hop a ts r t h u lacks lack passed =
      let tail = split-behind hop ts lacks lack in
      (
        forwarded remote peer _ _ r t (
            rw (split-comma left (hop ++ behind ts), tail)
              (untrusted_hop-last (split comma left) hop a ts h u passed)),
        forwarded remote peer _ _ r t (rw tail (untrusted_hop-last [] hop a ts h u passed)),
      )
