-- ===== src/Cli/AdminToken.antt =====
-- cmd/wirefan/main.go: `resolveAdminToken`, over the file `admin.token` of the state directory.
use wirefan.Prelude.{
  ℕ, ◌≡◌, ◌≢◌, refl, ap, sym, ◌∙◌, ◌≤◌, All, Bool, true, false, not, ◌||◌, [], ◌∷◌, Option, none,
  some, Str, if◌then◌else◌, nat_beq, str_eq, str_beq_iff, ◌==◌, Option-cases, List-cases,
  Bool-cases, inl, inr, arith,
}
use wirefan.Auth.Token.Laws.{hex-visible}
use wirefan.Auth.Token.{hex, generate_secret}

-- What `os.ReadFile` finds.
pub data TokenFile : Type 0 where
  missing unreadable : TokenFile
  contents : Str → TokenFile

-- What the process finds at a boot: `WIREFAN_ADMIN_TOKEN`, whether the state directory can be made,
-- the bytes that `GenerateSecret` reads, and whether the file can be written.
pub record Boot : Type 0 where
  pub env_token : Str
  pub has_state_dir : Bool
  pub random : Option Str
  pub is_writable : Bool

-- LF, CR and space.
abbrev is_blank : ℕ → Bool
is_blank c = nat_beq c 10 || nat_beq c 13 || nat_beq c 32

-- The loop that trims the end of the token.
unfoldable pub trim_end : Str → Str
trim_end [] = []
trim_end (c ∷ s) = elim (trim_end s) [ [] ↦ if is_blank c then [] else c ∷ [] | d ∷ t ↦ c ∷ d ∷ t ]

-- A fresh token, written to the file.
unfoldable pub write_token : Boot → TokenFile → Option Str × TokenFile
write_token b file = elim (generate_secret b.random) [
  | none ↦ (none, file)
  | some t ↦ if b.is_writable then (some t, contents t) else (none, file)
]

-- The token of the file, or a fresh one.
unfoldable pub from_file : Boot → TokenFile → Option Str × TokenFile
from_file b missing = write_token b missing
from_file b unreadable = (none, unreadable)
from_file b (contents text) = elim (trim_end text) [
  | [] ↦ write_token b (contents text)
  | c ∷ s ↦ (some (c ∷ s), contents text)
]

-- `resolveAdminToken`: the token, or `none` for an error, and the file behind it.
unfoldable pub resolve_admin_token : Boot → TokenFile → Option Str × TokenFile
resolve_admin_token b file =
    if not (b.env_token == [])
    then (some b.env_token, file)
    else if not b.has_state_dir
    then (none, file)
    else from_file b file

hex-some : (bytes : Str) → bytes ≢ [] → hex bytes ≢ []
unfolding hex
hex-some [] h e = h refl
hex-some (b ∷ s) h e = ground (arith, e)

trim_end-visible : (s : Str) → All (λ c. 0x21 ≤ c) s → trim_end s ≡ s
unfolding trim_end
trim_end-visible [] h = refl
trim_end-visible (c ∷ []) h = ground arith
trim_end-visible (c ∷ d ∷ s) h = ground (arith, trim_end-visible (d ∷ s) h.1)

-- A token that is written is read back.
write_token_lem :
    (b : Boot) (file : TokenFile) (t : Str)
    → b.random ≢ some []
    → (write_token b file).0 ≡ some t
    → ((write_token b file).1 ≡ contents t) × (trim_end t ≡ t) × (t ≢ [])
unfolding write_token generate_secret
write_token_lem b file t r h = elim (Option-cases b.random) [
  | inl no_bytes ↦ absurd (ground (arith, no_bytes, h))
  | inr (bytes, read) ↦
      let is_hex : t ≡ hex bytes = ground (arith, read, h) in
      let some_bytes : bytes ≢ [] = λ e. r (read ∙ ap some e) in
      (
        ground (arith, read, h),
        rw is_hex (trim_end-visible (hex bytes) (hex-visible bytes)),
        λ e. hex-some bytes some_bytes (sym is_hex ∙ e),
      )
]

-- What a file gives as its token.
unfoldable pub stored_token : TokenFile → Str
stored_token missing = []
stored_token unreadable = []
stored_token (contents text) = trim_end text

from_file_lem :
    (b : Boot) (file : TokenFile) (t : Str)
    → b.random ≢ some []
    → (from_file b file).0 ≡ some t
    → (stored_token (from_file b file).1 ≡ t) × (t ≢ [])
unfolding from_file stored_token
from_file_lem b missing t r h =
    let (w, same, some_token) = write_token_lem b missing t r h in
    (ap stored_token w ∙ same, some_token)
from_file_lem b unreadable t r h = absurd (ground (arith, h))
from_file_lem b (contents text) t r h = elim (List-cases (trim_end text)) [
  | inl blank ↦
      let wrote : from_file b (contents text) ≡ write_token b (contents text) =
        rw (blank, from_file) refl in
      let (w, same, some_token) =
        write_token_lem b (contents text) t r (sym (ap (λ p. p.0) wrote) ∙ h) in
      (ap (λ p. stored_token p.1) wrote ∙ ap stored_token w ∙ same, some_token)
  | inr (c, s, filled) ↦
      let kept : from_file b (contents text) ≡ (some (c ∷ s), contents text) =
        rw (filled, from_file) refl in
      let same : c ∷ s ≡ t = ground (arith, kept, h) in
      (ap (λ p. stored_token p.1) kept ∙ filled ∙ same, λ none_. ground (arith, same, none_))
]

from_file-stored :
    (b : Boot) (file : TokenFile) (t : Str)
    → stored_token file ≡ t
    → t ≢ []
    → from_file b file ≡ (some t, file)
unfolding from_file stored_token
from_file-stored b missing t e h = absurd (h (sym e))
from_file-stored b unreadable t e h = absurd (h (sym e))
from_file-stored b (contents text) t e h = elim (List-cases (trim_end text)) [
  | inl blank ↦ absurd (h (sym e ∙ blank))
  | inr (c, s, filled) ↦ rw (filled, from_file) (ground (arith, e, filled))
]

-- Without `WIREFAN_ADMIN_TOKEN` the token comes from the file.
without_env :
    (b : Boot) (file : TokenFile)
    → b.env_token ≡ []
    → b.has_state_dir ≡ true
    → resolve_admin_token b file ≡ from_file b file
unfolding resolve_admin_token
without_env b file e dir = ground (arith, (str_beq_iff b.env_token []).1 e, dir)

without_dir :
    (b : Boot) (file : TokenFile)
    → b.env_token ≡ []
    → b.has_state_dir ≡ false
    → (resolve_admin_token b file).0 ≡ none
unfolding resolve_admin_token
without_dir b file e dir = ground (arith, (str_beq_iff b.env_token []).1 e, dir)

-- The admin token outlives the process: once a boot without `WIREFAN_ADMIN_TOKEN` has resolved one,
-- every later boot without it that finds the state directory resolves the same token, whatever
-- random bytes it would read, and leaves the file; the token is the file's without the white space
-- at its end, where that is not empty, and otherwise a fresh one that the file then holds.
pub resolve_admin_token-again :
    (first second : Boot) (file : TokenFile) (t : Str)
    → first.env_token ≡ []
    → second.env_token ≡ []
    → second.has_state_dir ≡ true
    → first.random ≢ some []
    → (resolve_admin_token first file).0 ≡ some t
    → (resolve_admin_token second (resolve_admin_token first file).1
        ≡ (some t, (resolve_admin_token first file).1))
      × (stored_token (resolve_admin_token first file).1 ≡ t)
resolve_admin_token-again first second file t e f dir r h = elim (Bool-cases first.has_state_dir) [
  | inl first_dir ↦
      let began = without_env first file e first_dir in
      let (stored, some_token) = from_file_lem first file t r (sym (ap (λ p. p.0) began) ∙ h) in
      let holds : stored_token (resolve_admin_token first file).1 ≡ t =
        ap (λ p. stored_token p.1) began ∙ stored in
      (
        without_env second (resolve_admin_token first file).1 f dir
            ∙ from_file-stored second (resolve_admin_token first file).1 t holds some_token,
        holds,
      )
  | inr no_dir ↦ absurd (ground (arith, without_dir first file e no_dir, h))
]
