-- ===== src/Conn/Names.antt =====
-- internal/conn/handler.go: `ValidateChannelName` and the channel-name ACLs.
pub mod Utf8
use wirefan.Prelude.{
  sym, ◌∙◌, ◌⊎◌, str_beq_iff, ℕ, suc, ◌≤◌, ◌<◌, ◌≡◌, ◌≢◌, refl, Bool, true, false, ◌||◌, ◌&&◌, not,
  ◌↔◌, List, [], ◌∷◌, ◌++◌, Option, none, some, Str, codes, if◌then◌else◌, ltb, nat_beq, ◌==◌,
  str_eq, length, has_prefix, All, arith,
}
use Utf8.{runes, any, any-runes}

abbrev pub max_channel_name_len : ℕ
max_channel_name_len = 128

pub data NameError : Type 0 where
  empty_name too_long control_character : NameError

-- The test in the loop of `ValidateChannelName`.
abbrev is_control : ℕ → Bool
is_control r = ltb r 0x20 || nat_beq r 0x7f

-- `ValidateChannelName`; `none` is the error nil.
unfoldable pub validate_channel_name : Str → Option NameError
unfolding any
validate_channel_name [] = some empty_name
validate_channel_name (b ∷ name) =
    if ltb max_channel_name_len (length (b ∷ name))
    then some too_long
    else if any is_control (runes (b ∷ name))
    then some control_character
    else none

abbrev pub stats_channel : Str
stats_channel = codes "_wirefan-stats"

-- `reservedSubscribeAllowed`.
unfoldable pub reserved_subscribe_allowed : Str → Bool
reserved_subscribe_allowed name = name == stats_channel

-- `channelReserved`.
unfoldable pub channel_reserved : Str → Bool
channel_reserved name = has_prefix name (codes "_")

abbrev pub auth_required_prefixes : List Str
auth_required_prefixes = codes "private-" ∷ codes "presence-" ∷ []

has_any_prefix : Str → List Str → Bool
has_any_prefix name [] = false
has_any_prefix name (p ∷ ps) = if has_prefix name p then true else has_any_prefix name ps

-- `ChannelRequiresAuth`.
unfoldable pub channel_requires_auth : Str → Bool
unfolding has_any_prefix
channel_requires_auth name = has_any_prefix name auth_required_prefixes

-- A name may hold any byte but the control characters of ASCII.
abbrev pub IsPrintable : Str → Type 0
IsPrintable = All (λ b. (0x20 ≤ b) × (b ≢ 0x7f))

IsPrintable-of_any : (s : Str) → any is_control s ≡ false → IsPrintable s
unfolding any
IsPrintable-of_any [] h = tt
IsPrintable-of_any (b ∷ s) h = (ground arith, IsPrintable-of_any s (ground arith))

any_of_printable : (s : Str) → IsPrintable s → any is_control s ≡ false
unfolding any
any_of_printable [] h = refl
any_of_printable (b ∷ s) h = ground (arith, any_of_printable s h.1)

control_runes : (s : Str) → any is_control (runes s) ≡ any is_control s
control_runes s = any-runes is_control (λ r h. ground arith) s

-- A channel name is valid exactly if it has 1 to 128 bytes and no control character among them,
-- also where it is not valid UTF-8.
pub validate_channel_name_iff :
    (name : Str)
    → (validate_channel_name name ≡ none)
      ↔ ((0 < length name) × (length name ≤ max_channel_name_len) × IsPrintable name)
unfolding validate_channel_name
validate_channel_name_iff [] = (λ h. absurd (ground arith), λ h. absurd (omega arith))
validate_channel_name_iff (b ∷ name) = (
  λ h.
      let clean : any is_control (runes (b ∷ name)) ≡ false = ground arith in
      (
        omega arith,
        ground arith,
        IsPrintable-of_any (b ∷ name) (sym (control_runes (b ∷ name)) ∙ clean),
      ),
  λ h. ground (arith, control_runes (b ∷ name), any_of_printable (b ∷ name) h.2),
)

auth_not_reserved : (name : Str) → channel_requires_auth name ≡ true → channel_reserved name ≡ false
unfolding channel_requires_auth channel_reserved has_prefix
auth_not_reserved [] h = ground arith
auth_not_reserved (c ∷ s) h = ground arith

-- A name needs a token exactly if it begins with `private-` or `presence-`, and then it is not
-- reserved; a name that `reservedSubscribeAllowed` lets through is reserved and needs no token.
pub name_classes :
    (name : Str)
    → ((channel_requires_auth name ≡ true) ↔ (
        (has_prefix name (codes "private-") ≡ true) ⊎ (has_prefix name (codes "presence-") ≡ true)))
      × (channel_requires_auth name ≡ true → channel_reserved name ≡ false)
      × (reserved_subscribe_allowed name ≡ true
          → (channel_reserved name ≡ true) × (channel_requires_auth name ≡ false))
unfolding channel_requires_auth
name_classes name = (
  (λ h. ground arith, λ h. ground arith),
  λ h. auth_not_reserved name h,
  λ h.
      let is_stats : name ≡ stats_channel =
        (str_beq_iff name stats_channel).0 (unfold reserved_subscribe_allowed in h) in
      rw is_stats (unfold has_prefix channel_reserved in (refl, refl)),
)
