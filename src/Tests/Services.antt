-- ===== src/Tests/Services.antt =====
-- Runs of internal/server/upgrade.go, internal/store and internal/hub/hub.go.
use wirefan.Prelude.{
  All, ℕ, ◌≤◌, ◌≡◌, refl, true, false, [], ◌∷◌, none, some, Str, codes, str_eq, nat_eq, str_beq,
}
use wirefan.Prelude.Map.{get, put}
use wirefan.Prelude.Sets.{has, add}
use wirefan.Auth.Token.{hash_secret}
use wirefan.Hub.Tracking.{
  CloseError, Gate, drain_close, new_hub, add_conn, admit, close_key, drain_wait, len,
}
use wirefan.Hub.Tracking.Survivors.{Reach, connect, revoke, start, later, was_sent, no_survivor}
use wirefan.Server.Upgrade.{UpgradeHandler, count_of, check_key, serve, enter}
use wirefan.Server.Upgrade.Cap
use wirefan.Server.Upgrade.Cap.{occurrences, cap_holds}
use wirefan.Store.Memory
use wirefan.Store.Memory.{
  Keys, create_key, lookup_key, revoke_key, IsRevoked, Steps, IsRevoked-for_good,
}
use wirefan.Auth.Decimal.{pos, negsuc}
use wirefan.Store.Migrate.{
  Session, at_least, keys_table, has_table, Db, foreign, migrations, latest, migrate, validate_from,
  check_database, check_pre_versioning, run_migrations, apply_migration, create_keys,
}
use wirefan.Store.Migrate.Laws.{quiet, migrate-reaches}
use wirefan.Tests.Samples.{toy_crypto}

abbrev id_a : Str
id_a = codes "k"

abbrev keys : Keys
keys =
    (
      id_a,
      record {
        id = id_a;
        name = codes "app";
        secret_hash = hash_secret toy_crypto (codes "s");
        created_at = 1;
        revoked_at = none;
      },
    )
    ∷ []

-- The store.
revoked : IsRevoked id_a (revoke_key id_a 5 keys).1
unfolding revoke_key lookup_key get put str_beq
revoked = (_, 5, refl, refl)

IsRevoked-for_good_example :
    IsRevoked id_a (create_key (codes "l") 6 (codes "b") [] (revoke_key id_a 5 keys).1).1
IsRevoked-for_good_example =
    IsRevoked-for_good id_a
      (Memory.more (Memory.stop (revoke_key id_a 5 keys).1)
        (Memory.creates (codes "l") 6 (codes "b") [] unknown_l))
      revoked
  where
    unknown_l : lookup_key (codes "l") (revoke_key id_a 5 keys).1 ≡ none
    unknown_l = unfold revoke_key lookup_key get put str_beq in refl

-- The schema.
abbrev empty_file : Db
empty_file = record { user_version = pos 0; tables = [] }

abbrev foreign_file : Db
foreign_file = record {
  user_version = pos 0;
  tables = record { title = codes "users"; columns = [] } ∷ [];
}

abbrev all_fine : Session
all_fine = record { can_read = true; can_begin = λ v. true; can_commit = λ v. true }

migrates : (migrate all_fine quiet migrations empty_file).0 ≡ none
unfolding migrate validate_from check_database check_pre_versioning run_migrations apply_migration
    create_keys latest str_beq
migrates = refl

migrate-reaches_example :
    All
      (λ m. at_least m.version (migrate all_fine quiet migrations empty_file).1.user_version ≡ true)
      migrations
migrate-reaches_example =
    migrate-reaches all_fine quiet migrations empty_file (λ v db h. h) migrates

refuses : (migrate all_fine quiet migrations foreign_file).0 ≡ some foreign
unfolding migrate validate_from check_database check_pre_versioning run_migrations apply_migration
    create_keys latest str_beq
refuses = refl

-- A foreign file at version -1 is not refused.
takes_over :
    migrate all_fine quiet migrations (record foreign_file { user_version = negsuc 0 })
    ≡ (none, record { user_version = pos 1; tables = keys_table ∷ foreign_file.tables })
unfolding migrate validate_from check_database run_migrations apply_migration create_keys latest
    has_table str_beq
takes_over = refl

-- The hub.
abbrev key_of : ℕ → Str
key_of c = id_a

abbrev gone : CloseError
gone = record { code = 1008; reason = codes "key revoked" }

abbrev no_one : Gate
no_one = record { hub = new_hub; sent = []; forced = [] }

abbrev one : Gate
one = (admit key_of 3 no_one).1

abbrev closing : Gate
closing = (close_key key_of id_a gone one).1

closing-Reach : Reach key_of (closing, false)
closing-Reach = later (later start (connect 3 no_one false)) (revoke id_a gone one false)

three_tracked : has 3 closing.hub.conns ≡ true
unfolding admit add_conn close_key has add get
three_tracked = refl

no_survivor_example :
    ((e : CloseError)
      → get (key_of 3) closing.hub.closed_keys ≡ some e
      → was_sent 3 e closing.sent ≡ true)
    × (false ≡ true → was_sent 3 drain_close closing.sent ≡ true)
no_survivor_example = no_survivor key_of closing false 3 closing-Reach three_tracked

still_three : has 3 (drain_wait (λ i g. g) 2 closing).hub.conns ≡ true
unfolding admit add_conn close_key has add get drain_wait len
still_three = refl

-- The admission of connections.
abbrev counting : UpgradeHandler
counting = record { ip_count = []; ip_cap = 2 }

abbrev ip_a : Str
ip_a = codes "10.0.0.1"

abbrev let_in : UpgradeHandler
let_in = (serve false id_a ip_a keys counting).1

let_in_ok : (serve false id_a ip_a keys counting).0 ≡ none
unfolding serve check_key lookup_key get str_beq enter count_of
let_in_ok = refl

let_in-Reach : Cap.Reach 2 (let_in, ip_a ∷ [])
let_in-Reach = Cap.later Cap.start (Cap.accept false id_a ip_a keys counting [] let_in_ok)

cap_holds_example :
    (count_of ip_a let_in ≡ occurrences ip_a (ip_a ∷ []))
    × (occurrences ip_a (ip_a ∷ []) ≤ 2)
    × (get ip_a let_in.ip_count ≡ none → occurrences ip_a (ip_a ∷ []) ≡ 0)
    × (occurrences ip_a (ip_a ∷ []) ≡ 0 → get ip_a let_in.ip_count ≡ none)
cap_holds_example = cap_holds 2 let_in (ip_a ∷ []) ip_a let_in-Reach
