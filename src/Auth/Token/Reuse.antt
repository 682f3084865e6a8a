-- ===== src/Auth/Token/Reuse.antt =====
-- A token is good once (internal/auth/token.go), whatever happens to the replay cache in between.
use wirefan.Prelude.{
  ℕ, ◌≤◌, ◌<◌, ◌≡◌, ◌≢◌, ap, ◌∙◌, true, false, inl, inr, List, [], ◌∷◌, Option, none, some, Str,
  All, str_eq, str_beq_iff, sym, ltb, Option-cases, Bool-cases, arith,
}
use mathlib.Core.Path.{subst, subst₂}
use wirefan.Prelude.Map.{get}
use wirefan.Auth.Base64
use wirefan.Auth.Decimal.{ℤ, pos, negsuc, parse_int}
use wirefan.Auth.Replay.{ReplayCache, before, sweep, check_and_record, check_and_record_lem}
use wirefan.Auth.Token.{
  Crypto, is_past, split_token, record_use, verify_mac, verify_parts, verify_token_against,
}
use wirefan.Auth.Token.Laws.{verify_token_against-inv}

-- What happens to the cache: a token, any token, is verified, or `Sweep` runs.
pub data Use : Type 0 where
  tried : (now : ℕ) (secret socket_id channel tok : Str) → Use
  swept : ℕ → Use

-- No sweep of the list comes after time `now`.
unfoldable pub Until : ℕ → Use → Type 0
Until now (tried t secret socket_id channel tok) = Unit
Until now (swept t) = t ≤ now

unfoldable pub seen_at : Str → Option ReplayCache → Option ℤ
seen_at jti none = none
seen_at jti (some cache) = get jti cache

module _ (K : Crypto) where
  unfoldable pub use_cache : Use → Option ReplayCache → Option ReplayCache
  use_cache (tried now secret socket_id channel tok) cache =
      (verify_token_against K now secret socket_id channel tok cache).1
  use_cache (swept now) none = none
  use_cache (swept now) (some cache) = some (sweep now cache).0

  unfoldable pub use_all : List Use → Option ReplayCache → Option ReplayCache
  use_all [] cache = cache
  use_all (u ∷ us) cache = use_all us (use_cache u cache)

  record_use-keeps :
      (jti jti' : Str) (e e' : ℤ) (cache : Option ReplayCache)
      → seen_at jti cache ≡ some e
      → seen_at jti (record_use K jti' e' cache).1 ≡ some e
  unfolding record_use seen_at
  record_use-keeps jti jti' e e' none h = h
  record_use-keeps jti jti' e e' (some cache) h =
      ground (arith, (check_and_record_lem jti' e' cache).2 jti, str_beq_iff jti' jti)

  verify-keeps :
      (now : ℕ) (secret socket_id channel tok jti : Str) (e : ℤ) (cache : Option ReplayCache)
      → seen_at jti cache ≡ some e
      → seen_at jti (verify_token_against K now secret socket_id channel tok cache).1 ≡ some e
  unfolding verify_token_against verify_parts verify_mac
  verify-keeps now secret socket_id channel tok jti e cache h =
      elim (Option-cases (split_token tok)) [
        | inl bad ↦ ground arith
        | inr ((exp, jti', sig), p) ↦ elim (Option-cases (parse_int exp)) [
          | inl bad ↦ ground arith
          | inr (e', q) ↦ elim (Option-cases (Base64.decode sig)) [
            | inl bad ↦ ground arith
            | inr (mac, d) ↦ ground (arith, record_use-keeps jti jti' e e' cache h)
          ]
        ]
      ]

  get-sweep :
      (now : ℕ) (jti : Str) (e : ℤ) (cache : ReplayCache)
      → before now e ≡ true
      → get jti cache ≡ some e
      → get jti (sweep now cache).0 ≡ some e
  unfolding sweep get
  get-sweep now jti e [] b h = h
  get-sweep now jti e ((j, x) ∷ cache) b h = elim (Bool-cases (str_eq.beq j jti)) [
    | inl this ↦
        let same : x ≡ e = ground arith in
        let stays : before now x ≡ true = subst (λ y. before now y ≡ true) (sym same) b in
        ground arith
    | inr other ↦
        let rest : get jti (sweep now cache).0 ≡ some e =
          get-sweep now jti e cache b (ground arith) in
        elim (Bool-cases (before now x)) [ inl stays ↦ ground arith | inr goes ↦ ground arith ]
  ]

  swept_at :
      (now : ℕ) (jti : Str) (e : ℤ) (cache : ReplayCache)
      → before now e ≡ true
      → seen_at jti (some cache) ≡ some e
      → seen_at jti (some (sweep now cache).0) ≡ some e
  unfolding seen_at
  swept_at now jti e cache b h = get-sweep now jti e cache b h

  use_all-keeps :
      (now : ℕ) (jti : Str) (e : ℤ) (us : List Use) (cache : Option ReplayCache)
      → All (Until now) us
      → ((t : ℕ) → t ≤ now → before t e ≡ true)
      → seen_at jti cache ≡ some e
      → seen_at jti (use_all us cache) ≡ some e
  unfolding use_all use_cache Until
  use_all-keeps now jti e [] cache u b h = h
  use_all-keeps now jti e (tried t secret socket_id channel tok ∷ us) cache u b h =
      use_all-keeps now jti e us _ u.1 b (verify-keeps t secret socket_id channel tok jti e cache h)
  use_all-keeps now jti e (swept t ∷ us) none u b h = absurd (unfold seen_at in ground arith)
  use_all-keeps now jti e (swept t ∷ us) (some cache) u b h =
      use_all-keeps now jti e us _ u.1 b (swept_at t jti e cache (b t u.0) h)

  early : (now x : ℕ) → now < x → (t : ℕ) → t ≤ now → ltb t x ≡ true
  early now x lt t le = ground arith

  recorded :
      (jti : Str) (e : ℤ) (cache : ReplayCache)
      → (record_use K jti e (some cache)).0 ≡ none
      → seen_at jti (record_use K jti e (some cache)).1 ≡ some e
  unfolding record_use seen_at
  recorded jti e cache h = ground (
    arith,
    (check_and_record_lem jti e cache).2 jti,
    (check_and_record_lem jti e cache).0,
    str_beq_iff jti jti,
  )

  refused_again :
      (jti : Str) (e e' : ℤ) (cache : Option ReplayCache)
      → seen_at jti cache ≡ some e
      → (record_use K jti e' cache).0 ≢ none
  unfolding record_use seen_at check_and_record
  refused_again jti e e' none h = absurd (ground arith)
  refused_again jti e e' (some cache) h = λ z. ground arith

  accepted :
      (now : ℕ) (secret socket_id channel tok exp jti sig : Str) (e : ℤ)
      (cache : Option ReplayCache)
      → (verify_token_against K now secret socket_id channel tok cache).0 ≡ none
      → split_token tok ≡ some (exp, jti, sig)
      → parse_int exp ≡ some e
      → (is_past now e ≡ false)
        × (verify_token_against K now secret socket_id channel tok cache ≡ record_use K jti e cache)
  accepted now secret socket_id channel tok exp jti sig e cache h p q =
      let (exp1, jti1, sig1, e1, p1, q1, live, _, _, all) =
        verify_token_against-inv K now secret socket_id channel tok cache h in
      let same_jti : jti1 ≡ jti = ground arith in
      let same_e : e1 ≡ e = ground arith in
      (
        subst (λ y. is_past now y ≡ false) same_e live,
        subst₂
            (λ j y.
              verify_token_against K now secret socket_id channel tok cache
              ≡ record_use K j y cache)
            same_jti same_e all,
      )

  -- A token that was accepted once is not accepted again, whatever the secret, the socket and the
  -- channel of the second attempt, and whatever tokens are verified and sweeps of the cache run in
  -- between, none of the sweeps later than the second attempt, unless that attempt is made in the very
  -- millisecond of the expiry.
  pub verify_once :
      (now now' : ℕ) (secret secret' socket_id socket_id' channel channel' tok exp jti sig : Str)
      (e : ℤ) (cache : ReplayCache) (us : List Use)
      → (verify_token_against K now secret socket_id channel tok (some cache)).0 ≡ none
      → split_token tok ≡ some (exp, jti, sig)
      → parse_int exp ≡ some e
      → All (Until now') us
      → pos now' ≢ e
      → (verify_token_against K now' secret' socket_id' channel' tok
          (use_all us (verify_token_against K now secret socket_id channel tok (some cache)).1)).0
        ≢ none
  verify_once now now' secret secret' socket_id socket_id' channel channel' tok exp jti sig
        (negsuc x) cache us h p q u off again =
      absurd (
        ground (
          arith,
          (accepted now secret socket_id channel tok exp jti sig (negsuc x) (some cache) h p q).0,
        ))
  verify_once now now' secret secret' socket_id socket_id' channel channel' tok exp jti sig (pos x)
        cache us h p q u off again =
      let first =
        accepted now secret socket_id channel tok exp jti sig (pos x) (some cache) h p q in
      let used = (verify_token_against K now secret socket_id channel tok (some cache)).1 in
      let second =
        accepted now' secret' socket_id' channel' tok exp jti sig (pos x) (use_all us used) again p
          q in
      let soon : now' < x = ground (arith, second.0, off) in
      let held : seen_at jti used ≡ some (pos x) =
        rw first.1 (recorded jti (pos x) cache (ap (λ r. r.0) (sym first.1) ∙ h)) in
      let kept = use_all-keeps now' jti (pos x) us used u (early now' x soon) held in
      refused_again jti (pos x) (pos x) (use_all us used) kept
        (ap (λ r. r.0) (sym second.1) ∙ again)
