-- ===== src/Tests/Command.antt =====
-- Command lines and boots.
use wirefan.Prelude.{
  ◌≡◌, ◌≢◌, refl, true, false, ◌⊎◌, inr, List, [], ◌∷◌, none, some, Str, codes, str_eq, str_beq,
  arith,
}
use wirefan.Prelude.Sets.{has}
use wirefan.Prelude.Strings.{split, trim_space, drop_spaces, space_at_start, space_at_end}
use wirefan.Auth.Token.{hex, generate_secret}
use wirefan.Cli.AdminToken.{
  Boot, missing, from_file, write_token, resolve_admin_token, stored_token,
  resolve_admin_token-again,
}
use wirefan.Cli.Flags.{
  Flags, defaults, AppConfig, formal, name_and_value, flag_name, argument, effect, parse_args,
  cleaned, check_flags, parse_flags,
}
use wirefan.Cli.Flags.Accepted.{IsSound, parse_flags-IsSound, args_of, parse_args-args_of}
use wirefan.Cli.Wiring.{new_registry, new_fanout}

abbrev arguments : List Str
arguments =
    codes "--allowed-origins"
    ∷ codes " https://a.example ,,https://b.example"
    ∷ codes "-fanout=sharded"
    ∷ []

abbrev config : AppConfig
config = record {
  addr = codes ":8080";
  admin_addr = codes "127.0.0.1:6060";
  allowed_origins = codes "https://a.example" ∷ codes "https://b.example" ∷ [];
  store = codes "sqlite";
  db_path = [];
  registry = codes "sync-map";
  fanout = codes "sharded";
  show_version = false;
}

accepted : parse_flags arguments ≡ inr config
unfolding parse_flags parse_args argument flag_name effect formal name_and_value check_flags cleaned
    split trim_space drop_spaces space_at_start space_at_end has str_beq
accepted = refl

parse_flags-IsSound_example :
    (f : Flags) × (parse_args none arguments defaults ≡ inr f)
    × ((config.show_version ≡ true)
        ⊎ (IsSound f config
            × (new_registry config.registry ≢ none)
            × (new_fanout {M = Str} 4 config.fanout ≢ none)))
parse_flags-IsSound_example = parse_flags-IsSound {M = Str} 4 arguments config accepted

abbrev odd_flags : Flags
odd_flags = record defaults { listen = codes "=-"; allowed_origins = codes "*"; dev = true }

parse_args-args_of_example : parse_args none (args_of odd_flags) defaults ≡ inr odd_flags
parse_args-args_of_example = parse_args-args_of odd_flags defaults

abbrev boot : Str → Boot
boot random = record {
  env_token = [];
  has_state_dir = true;
  random = some random;
  is_writable = true;
}

resolved : (resolve_admin_token (boot (255 ∷ [])) missing).0 ≡ some (codes "ff")
unfolding resolve_admin_token from_file write_token generate_secret hex str_beq
resolved = refl

resolve_admin_token-again_example :
    (resolve_admin_token (boot (7 ∷ [])) (resolve_admin_token (boot (255 ∷ [])) missing).1
      ≡ (some (codes "ff"), (resolve_admin_token (boot (255 ∷ [])) missing).1))
    × (stored_token (resolve_admin_token (boot (255 ∷ [])) missing).1 ≡ codes "ff")
resolve_admin_token-again_example =
    resolve_admin_token-again (boot (255 ∷ [])) (boot (7 ∷ [])) missing (codes "ff") refl refl refl
      (λ e. ground (arith, e)) resolved
