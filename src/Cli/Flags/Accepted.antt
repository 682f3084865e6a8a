-- ===== src/Cli/Flags/Accepted.antt =====
-- The command lines that are accepted, and the one that sets every flag
-- (cmd/wirefan/main.go).
use wirefan.Prelude.{
  ℕ, ◌≡◌, ◌≢◌, refl, Bool, true, false, ◌||◌, ◌⊎◌, inl, inr, List, [], ◌∷◌, ◌++◌, none, Str, codes,
  if◌then◌else◌, str_eq, str_beq, ◌==◌, List-cases, arith,
}
use wirefan.Prelude.Sets.{has}
use wirefan.Prelude.Strings.{split, trim_space}
use wirefan.Cli.Flags.{
  Flags, defaults, AppConfig, FlagError, formal, parse_bool, name_and_value, flag_name, argument,
  effect, parse_args, cleaned, star, check_flags, parse_flags,
}
use wirefan.Cli.Wiring.{new_registry, new_fanout}

some_origin :
    (c : ℕ) (s : Str) (rest : List Str) → has [] rest ≡ false → has [] ((c ∷ s) ∷ rest) ≡ false
unfolding has str_beq
some_origin c s rest h = h

cleaned-has : (ps : List Str) → has [] (cleaned ps) ≡ false
unfolding cleaned
cleaned-has [] = unfold has in refl
cleaned-has (p ∷ ps) = elim (List-cases (trim_space p)) [
  | inl blank ↦ rw (blank, cleaned) (cleaned-has ps)
  | inr (c, s, e) ↦ rw (e, cleaned) (some_origin c s (cleaned ps) (cleaned-has ps))
]

-- What an accepted configuration has, over the flags.
abbrev pub IsSound : Flags → AppConfig → Type 0
IsSound f cfg =
    (cfg.allowed_origins ≢ [])
    × (has [] cfg.allowed_origins ≡ false)
    × (has star cfg.allowed_origins ≡ true → f.dev ≡ true)
    × ((cfg.store == codes "sqlite" || cfg.store == codes "memory") ≡ true)
    × ((cfg.registry == codes "sync-map" || cfg.registry == codes "sharded") ≡ true)
    × ((cfg.fanout == codes "per-conn" || cfg.fanout == codes "sharded") ≡ true)

check_flags-IsSound :
    (f : Flags) (cfg : AppConfig)
    → check_flags f ≡ inr cfg
    → (cfg.show_version ≡ true) ⊎ IsSound f cfg
unfolding check_flags
check_flags-IsSound f cfg h =
    let origins = cleaned-has (split b',' f.allowed_origins) in ground (arith, h, origins)

chosen :
    {M : Type 0} (procs : ℕ) (f : Flags) (cfg : AppConfig)
    → IsSound f cfg
    → (new_registry cfg.registry ≢ none) × (new_fanout {M = M} procs cfg.fanout ≢ none)
unfolding new_registry new_fanout
chosen procs f cfg sound = (λ e. ground (arith, sound, e), λ e. ground (arith, sound, e))

-- A configuration that `parseFlags` accepts asks for the version, or it has at least one origin and
-- no empty one, it allows every origin only under `--dev`, its key store is `sqlite` or `memory`,
-- and `newRegistry` and `newFanout` know the kinds that it names.
pub parse_flags-IsSound :
    {M : Type 0} (procs : ℕ) (args : List Str) (cfg : AppConfig)
    → parse_flags args ≡ inr cfg
    → (f : Flags) × (parse_args none args defaults ≡ inr f)
      × ((cfg.show_version ≡ true)
          ⊎ (IsSound f cfg
              × (new_registry cfg.registry ≢ none)
              × (new_fanout {M = M} procs cfg.fanout ≢ none)))
unfolding parse_flags
parse_flags-IsSound {M} procs args cfg h = go (parse_args none args defaults) refl h
  where
    go :
        (r : FlagError ⊎ Flags)
        → parse_args none args defaults ≡ r
        → elim r as (λ _. FlagError ⊎ AppConfig) [ inl e ↦ inl e | inr f ↦ check_flags f ] ≡ inr cfg
        → (f : Flags) × (parse_args none args defaults ≡ inr f)
          × ((cfg.show_version ≡ true)
              ⊎ (IsSound f cfg
                  × (new_registry cfg.registry ≢ none)
                  × (new_fanout {M = M} procs cfg.fanout ≢ none)))
    go (inl e) p q = absurd (ground (arith, q))
    go (inr f) p q = elim (check_flags-IsSound f cfg q) [
      | inl shown ↦ (f, p, inl shown)
      | inr sound ↦
          let (registry, fanout) = chosen {M = M} procs f cfg sound in
          (f, p, inr (sound, registry, fanout))
    ]

abbrev show_bool : Bool → Str
show_bool b = if b then codes "true" else codes "false"

-- The command line that sets every flag.
unfoldable pub args_of : Flags → List Str
args_of f =
    (codes "--listen=" ++ f.listen)
    ∷ (codes "-admin-addr=" ++ f.admin_addr)
    ∷ (codes "--allowed-origins=" ++ f.allowed_origins)
    ∷ (codes "--dev=" ++ show_bool f.dev)
    ∷ codes "--store"
    ∷ f.store
    ∷ (codes "--db-path=" ++ f.db_path)
    ∷ codes "-registry"
    ∷ f.registry
    ∷ (codes "--fanout=" ++ f.fanout)
    ∷ (codes "--version=" ++ show_bool f.version)
    ∷ []

-- By the two switches the command line computes to the setting.
parse_args-switches :
    (f g : Flags) (dev version : Bool)
    → parse_args none (args_of (record f { dev = dev; version = version })) g
      ≡ inr (record f { dev = dev; version = version })
unfolding parse_args args_of argument flag_name effect formal name_and_value parse_bool has str_beq
parse_args-switches f g true true = refl
parse_args-switches f g true false = refl
parse_args-switches f g false true = refl
parse_args-switches f g false false = refl

-- Every setting of the flags, whatever bytes it holds, is read back from the command line that gives
-- it, in the forms `--name=value`, `-name=value` and `--name value`.
pub parse_args-args_of : (f g : Flags) → parse_args none (args_of f) g ≡ inr f
parse_args-args_of f g = parse_args-switches f g f.dev f.version
