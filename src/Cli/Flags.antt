-- ===== src/Cli/Flags.antt =====
-- cmd/wirefan/main.go: `parseFlags`, with what package flag does.
pub mod Accepted
use wirefan.Prelude.{
  ℕ, zero, suc, Bool, true, false, not, ◌&&◌, ◌||◌, List, [], ◌∷◌, Option, none, some, Str, codes,
  if◌then◌else◌, nat_beq, str_eq, ◌==◌, ◌⊎◌, inl, inr,
}
use wirefan.Prelude.Sets.{has}
use wirefan.Prelude.Strings.{split, trim_space}

-- The variables that the flags set.
pub record Flags : Type 0 where
  pub listen : Str
  pub admin_addr : Str
  pub allowed_origins : Str
  pub dev : Bool
  pub store : Str
  pub db_path : Str
  pub registry : Str
  pub fanout : Str
  pub version : Bool

abbrev pub defaults : Flags
defaults = record {
  listen = codes ":8080";
  admin_addr = codes "127.0.0.1:6060";
  allowed_origins = [];
  dev = false;
  store = codes "sqlite";
  db_path = [];
  registry = codes "sync-map";
  fanout = codes "per-conn";
  version = false;
}

-- `server.Config` and `appConfig`.
pub record AppConfig : Type 0 where
  pub addr : Str
  pub admin_addr : Str
  pub allowed_origins : List Str
  pub store : Str
  pub db_path : Str
  pub registry : Str
  pub fanout : Str
  pub show_version : Bool

-- The errors of package flag, then those of `parseFlags`.
pub data FlagError : Type 0 where
  help bad_syntax undefined needs_argument bad_boolean : FlagError
  bad_store bad_registry bad_fanout no_origins empty_origins star_without_dev : FlagError

-- `formal`: what a flag of that name is.
pub data Formal : Type 0 where
  text_flag : (Str → Flags → Flags) → Formal
  bool_flag : (Bool → Flags → Flags) → Formal

unfoldable pub formal : Str → Option Formal
formal name =
    if name == codes "listen"
    then some (text_flag (λ v f. record f { listen = v }))
    else if name == codes "admin-addr"
    then some (text_flag (λ v f. record f { admin_addr = v }))
    else if name == codes "allowed-origins"
    then some (text_flag (λ v f. record f { allowed_origins = v }))
    else if name == codes "dev"
    then some (bool_flag (λ b f. record f { dev = b }))
    else if name == codes "store"
    then some (text_flag (λ v f. record f { store = v }))
    else if name == codes "db-path"
    then some (text_flag (λ v f. record f { db_path = v }))
    else if name == codes "registry"
    then some (text_flag (λ v f. record f { registry = v }))
    else if name == codes "fanout"
    then some (text_flag (λ v f. record f { fanout = v }))
    else if name == codes "version"
    then some (bool_flag (λ b f. record f { version = b }))
    else none

-- `strconv.ParseBool`.
unfoldable pub parse_bool : Str → Option Bool
parse_bool s =
    if has s (codes "1" ∷ codes "t" ∷ codes "T" ∷ codes "true" ∷ codes "TRUE" ∷ codes "True" ∷ [])
    then some true
    else if has s
        (codes "0" ∷ codes "f" ∷ codes "F" ∷ codes "false" ∷ codes "FALSE" ∷ codes "False" ∷ [])
    then some false
    else none

-- The name and the value of an argument; the first character is never the `=`.
unfoldable pub name_and_value : Str → Str × Option Str
name_and_value [] = ([], none)
name_and_value (c ∷ s) =
    let (name, value) = name_and_value s in
    if nat_beq c b'=' then ([], some s) else (c ∷ name, value)

-- What an argument is: not a flag, `--`, bad syntax, or a flag without its minus signs.
pub data Argument : Type 0 where
  not_a_flag terminator malformed : Argument
  flag : Str → Argument

unfoldable pub flag_name : Str → Argument
flag_name [] = malformed
flag_name (c ∷ s) = if nat_beq c b'-' || nat_beq c b'=' then malformed else flag (c ∷ s)

unfoldable pub argument : Str → Argument
argument [] = not_a_flag
argument (c ∷ []) = not_a_flag
argument (c ∷ d ∷ s) =
    if not (nat_beq c b'-')
    then not_a_flag
    else if not (nat_beq d b'-')
    then flag_name (d ∷ s)
    else elim s [ [] ↦ terminator | e ∷ t ↦ flag_name (e ∷ t) ]

-- What one flag does: it sets a variable, waits for the next argument, or fails.
pub data Effect : Type 0 where
  sets : (Flags → Flags) → Effect
  waits : (Str → Flags → Flags) → Effect
  fails : FlagError → Effect

unfoldable pub effect : Str → Effect
effect s =
    let (name, value) = name_and_value s in
    elim (formal name) [
      | none ↦ if name == codes "help" || name == codes "h" then fails help else fails undefined
      | some (bool_flag set) ↦ elim value [
        | none ↦ sets (set true)
        | some v ↦ elim (parse_bool v) [ none ↦ fails bad_boolean | some b ↦ sets (set b) ]
      ]
      | some (text_flag set) ↦ elim value [ none ↦ waits set | some v ↦ sets (set v) ]
    ]

-- `FlagSet.Parse`, where `waiting` is a flag that takes the next argument.
unfoldable pub parse_args : Option (Str → Flags → Flags) → List Str → Flags → FlagError ⊎ Flags
parse_args none [] f = inr f
parse_args (some set) [] f = inl needs_argument
parse_args (some set) (v ∷ args) f = parse_args none args (set v f)
parse_args none (s ∷ args) f = elim (argument s) [
  | not_a_flag ↦ inr f
  | terminator ↦ inr f
  | malformed ↦ inl bad_syntax
  | flag name ↦ elim (effect name) [
    | sets set ↦ parse_args none args (set f)
    | waits set ↦ parse_args (some set) args f
    | fails e ↦ inl e
  ]
]

-- The origins of the list, without white space and empty entries.
unfoldable pub cleaned : List Str → List Str
cleaned [] = []
cleaned (p ∷ ps) = elim (trim_space p) [ [] ↦ cleaned ps | c ∷ s ↦ (c ∷ s) ∷ cleaned ps ]

abbrev pub star : Str
star = codes "*"

-- `parseFlags` behind `fs.Parse`.
unfoldable pub check_flags : Flags → FlagError ⊎ AppConfig
check_flags f =
    if f.version
    then inr (record {
      addr = [];
      admin_addr = [];
      allowed_origins = [];
      store = [];
      db_path = [];
      registry = [];
      fanout = [];
      show_version = true;
    })
    else if not (f.store == codes "sqlite") && not (f.store == codes "memory")
    then inl bad_store
    else if not (f.registry == codes "sync-map") && not (f.registry == codes "sharded")
    then inl bad_registry
    else if not (f.fanout == codes "per-conn") && not (f.fanout == codes "sharded")
    then inl bad_fanout
    else if f.allowed_origins == []
    then inl no_origins
    else elim (cleaned (split b',' f.allowed_origins)) [
      | [] ↦ inl empty_origins
      | o ∷ os ↦
          if not f.dev && has star (o ∷ os)
          then inl star_without_dev
          else inr (record {
            addr = f.listen;
            admin_addr = f.admin_addr;
            allowed_origins = o ∷ os;
            store = f.store;
            db_path = f.db_path;
            registry = f.registry;
            fanout = f.fanout;
            show_version = false;
          })
    ]

-- `parseFlags`.
unfoldable pub parse_flags : List Str → FlagError ⊎ AppConfig
parse_flags args = elim (parse_args none args defaults) [ inl e ↦ inl e | inr f ↦ check_flags f ]
