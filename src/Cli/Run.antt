-- ===== src/Cli/Run.antt =====
-- cmd/wirefan/main.go: `run`, what it opens and what it closes again.
use wirefan.Prelude.{
  ℕ, ◌≡◌, refl, Bool, true, false, inl, inr, List, [], ◌∷◌, ◌++◌, Option, none, some, Str,
  if◌then◌else◌, str_eq, Option-cases, ◌∙◌, arith,
}
use wirefan.Cli.Flags.{AppConfig}
use wirefan.Cli.Wiring.{new_registry, new_fanout}

-- What has to be closed again: the key store, the fanout with its workers, and the limiter with its
-- collector.
pub data Resource : Type 0 where
  store fanout limiter : Resource

pub data Event : Type 0 where
  opened closed : Resource → Event
  served : Event

-- The outcomes of what `run` calls: `openStore`, `resolveAdminToken`, `GenerateSecret`, each with its
-- error as false, and `Server.Run` with its error.
pub record Outcomes : Type 0 where
  pub has_store : Bool
  pub admin_token : Option Str
  pub signing_secret : Option Str
  pub server : Option Str

-- The errors of `run`.
pub data RunError : Type 0 where
  no_store no_admin_token no_secret unknown_registry unknown_fanout : RunError
  failed : Str → RunError

-- What runs while a resource is open: its deferred `Close` comes last.
unfoldable pub with_resource :
    Resource → Option RunError × List Event → Option RunError × List Event
with_resource r body = (body.0, opened r ∷ (body.1 ++ closed r ∷ []))

-- The call of `Server.Run`.
unfoldable pub serve : Option Str → Option RunError × List Event
serve none = (none, served ∷ [])
serve (some e) = (some (failed e), served ∷ [])

-- `run` behind `openStore`, over `GOMAXPROCS`.
unfoldable pub start : ℕ → AppConfig → Outcomes → Option RunError × List Event
start procs cfg o = elim o.admin_token [
  | none ↦ (some no_admin_token, [])
  | some token ↦ elim o.signing_secret [
    | none ↦ (some no_secret, [])
    | some secret ↦ elim (new_registry cfg.registry) [
      | none ↦ (some unknown_registry, [])
      | some reg ↦ elim (new_fanout {M = Str} procs cfg.fanout) [
        | none ↦ (some unknown_fanout, [])
        | some fan ↦ with_resource fanout (with_resource limiter (serve o.server))
      ]
    ]
  ]
]

-- `run`.
unfoldable pub run : ℕ → AppConfig → Outcomes → Option RunError × List Event
run procs cfg o =
    if o.has_store then with_resource store (start procs cfg o) else (some no_store, [])

abbrev same : Resource → Resource → Bool
same store store = true
same fanout fanout = true
same limiter limiter = true
same r t = false

-- A resource that is closed was opened last.
unfoldable pub pop : Resource → List Resource → Option (List Resource)
pop r [] = none
pop r (t ∷ stack) = if same r t then some stack else none

-- The open resources behind a run of events, the last opened first; `none` where something is closed
-- that was not opened last.
unfoldable pub still_open : List Event → List Resource → Option (List Resource)
still_open [] stack = some stack
still_open (opened r ∷ es) stack = still_open es (r ∷ stack)
still_open (served ∷ es) stack = still_open es stack
still_open (closed r ∷ es) stack = elim (pop r stack) [ none ↦ none | some t ↦ still_open es t ]

abbrev IsBalanced : List Event → Type 0
IsBalanced es = (s : List Resource) → still_open es s ≡ some s

still_open-append :
    (xs ys : List Event) (s t : List Resource)
    → still_open xs s ≡ some t
    → still_open (xs ++ ys) s ≡ still_open ys t
unfolding still_open
still_open-append [] ys s t h = ground (arith, h)
still_open-append (opened r ∷ xs) ys s t h = still_open-append xs ys (r ∷ s) t h
still_open-append (served ∷ xs) ys s t h = still_open-append xs ys s t h
still_open-append (closed r ∷ xs) ys s t h = elim (Option-cases (pop r s)) [
  | inl stuck ↦ absurd (ground (arith, stuck, h))
  | inr (u, popped) ↦
      ground (arith, popped, still_open-append xs ys u t (ground (arith, popped, h)))
]

same_refl : (r : Resource) → same r r ≡ true
same_refl store = refl
same_refl fanout = refl
same_refl limiter = refl

with_resource-IsBalanced :
    (r : Resource) (body : Option RunError × List Event)
    → IsBalanced body.1
    → IsBalanced (with_resource r body).1
unfolding with_resource still_open pop
with_resource-IsBalanced r body b s =
    still_open-append body.1 (closed r ∷ []) (r ∷ s) (r ∷ s) (b (r ∷ s))
    ∙ ground (arith, same_refl r)

serve-IsBalanced : (e : Option Str) → IsBalanced (serve e).1
unfolding serve still_open
serve-IsBalanced none s = refl
serve-IsBalanced (some e) s = refl

nothing-IsBalanced : IsBalanced []
unfolding still_open
nothing-IsBalanced s = refl

Option-IsBalanced {ℓ} :
    {A : Type ℓ} (o : Option A) (n : Option RunError × List Event)
    (f : A → Option RunError × List Event)
    → IsBalanced n.1
    → ((a : A) → IsBalanced (f a).1)
    → IsBalanced (elim o as (λ _. Option RunError × List Event) [ none ↦ n | some a ↦ f a ]).1
Option-IsBalanced none n f h k = h
Option-IsBalanced (some a) n f h k = k a

-- However `run` ends, what it has opened is closed again, the last opened first.
pub run-closes :
    (procs : ℕ) (cfg : AppConfig) (o : Outcomes) → still_open (run procs cfg o).1 [] ≡ some []
unfolding run
run-closes procs cfg o = closes o.has_store
  where
    body : IsBalanced (with_resource fanout (with_resource limiter (serve o.server))).1
    body =
        with_resource-IsBalanced fanout (with_resource limiter (serve o.server))
          (with_resource-IsBalanced limiter (serve o.server) (serve-IsBalanced o.server))

    started : IsBalanced (start procs cfg o).1
    started =
        unfold start in
        Option-IsBalanced o.admin_token _ _ nothing-IsBalanced λ token.
          Option-IsBalanced o.signing_secret _ _ nothing-IsBalanced λ secret.
            Option-IsBalanced (new_registry cfg.registry) _ _ nothing-IsBalanced λ reg.
              Option-IsBalanced (new_fanout {M = Str} procs cfg.fanout) _ _ nothing-IsBalanced
                λ fan. body

    closes :
        (b : Bool)
        → still_open
            (if b then with_resource store (start procs cfg o) else (some no_store, [])).1
            []
          ≡ some []
    closes true = with_resource-IsBalanced store (start procs cfg o) started []
    closes false = nothing-IsBalanced []
