-- ===== src/Store/Sqlite/Path.antt =====
-- internal/store/sqlite.go: which paths of a database file are accepted.
use wirefan.Prelude.{
  ℕ, ◌≡◌, refl, Bool, true, false, not, ◌&&◌, ◌||◌, List, [], ◌∷◌, Str, codes, nat_eq, ◌==◌,
  has_prefix, if◌then◌else◌, ◌++◌, arith,
}
use wirefan.Prelude.Sets.{has}

-- `?`, `#`, NUL, LF and CR.
abbrev forbidden : List ℕ
forbidden = 63 ∷ 35 ∷ 0 ∷ 10 ∷ 13 ∷ []

-- `strings.ContainsAny(s, chars)` with ASCII characters.
unfoldable pub contains_any : Str → List ℕ → Bool
contains_any [] chars = false
contains_any (b ∷ s) chars = has b chars || contains_any s chars

-- `filepath.IsAbs`, on Unix.
abbrev is_abs : Str → Bool
is_abs path = has_prefix path (codes "/")

abbrev is_empty : Str → Bool
is_empty [] = true
is_empty (b ∷ s) = false

-- `validateDBPath`.
unfoldable pub validate_db_path : Str → Bool
validate_db_path path = not (is_empty path) && is_abs path && not (contains_any path forbidden)

-- `strings.Cut(s, "?")`, by which the driver finds the parameters of a data source name.
unfoldable pub cut_query : Str → Str × Str
cut_query [] = ([], [])
cut_query (b ∷ s) =
    let (file, query) = cut_query s in if b == 63 then ([], s) else (b ∷ file, query)

cut_query-append :
    (path query : Str)
    → contains_any path forbidden ≡ false
    → cut_query (path ++ 63 ∷ query) ≡ (path, query)
unfolding cut_query contains_any has
cut_query-append [] query h = refl
cut_query-append (b ∷ path) query h = ground (arith, cut_query-append path query)

has-forbidden :
    (path : Str)
    → contains_any path forbidden ≡ false
    → (has 0 path ≡ false) × (has 10 path ≡ false) × (has 13 path ≡ false)
unfolding contains_any has
has-forbidden [] h = (refl, refl, refl)
has-forbidden (b ∷ path) h = ground (arith, has-forbidden path)

-- The path and the parameters that `NewSQLite` adds after a `?` are what the driver reads back, for every path
-- that `validateDBPath` accepts; such a path is absolute, and it holds neither a NUL nor an end of line.
pub validate_db_path_lem :
    (path query : Str)
    → validate_db_path path ≡ true
    → (cut_query (path ++ 63 ∷ query) ≡ (path, query))
      × (has_prefix path (codes "/") ≡ true)
      × (has 0 path ≡ false)
      × (has 10 path ≡ false)
      × (has 13 path ≡ false)
unfolding validate_db_path
validate_db_path_lem path query h =
    let allowed : contains_any path forbidden ≡ false = ground arith in
    let (no_nul, no_lf, no_cr) = has-forbidden path allowed in
    (cut_query-append path query allowed, ground arith, no_nul, no_lf, no_cr)
