-- ===== src/Registry.antt =====
-- internal/registry/registry.go: channels, and what a registry promises.
-- A `*Channel` is a number, the place of the channel in the heap `Chans`.
pub mod Fnv
pub mod SyncMap
pub mod Sharded
pub mod Sweep
pub mod SweepLaws
pub mod Equivalence
use wirefan.Prelude.{
  ℕ, suc, ◌≡◌, ◌≢◌, Bool, true, false, List, [], Option, none, some, Str, if◌then◌else◌, ◌==◌,
  nat_eq, str_eq,
}

pub record Channel : Type 0 where
  pub name : Str
  pub subscribers : List ℕ
  pub deleted : Bool

pub record Chans : Type 0 where
  pub cell : ℕ → Channel
  pub next : ℕ

abbrev pub write : ℕ → Channel → Chans → Chans
write c ch h = record h { cell = λ d. if c == d then ch else h.cell d }

-- `newChannel`, with the allocation that its `&` makes.
unfoldable pub new_channel : Str → Chans → ℕ × Chans
new_channel name h = (
  h.next,
  record (write h.next (record { name = name; subscribers = []; deleted = false }) h) {
    next = suc h.next;
  },
)

-- The heap together with a registry's own state.
pub record Net (S : Type 0) : Type 0 where
  pub chans : Chans
  pub reg : S

-- The variables of a running `Sweep`.
pub record Pass (S : Type 0) : Type 0 where
  pub net : Net S
  pub removed : ℕ

-- The interface, with the laws that its clients rely on.
pub record Registry : Type 1 where
  pub State : Type 0
  pub empty : State
  pub get_or_create : Str → Net State → ℕ × Net State
  pub lookup : Str → State → Option ℕ
  pub delete : Str → State → State
  pub compare_and_delete : Str → ℕ → State → Bool × State
  pub range : (ℕ → Pass State → Bool × Pass State) → Pass State → Pass State
  pub len : State → ℕ
  pub lookup-empty : (n : Str) → lookup n empty ≡ none
  pub get_or_create_old :
      (n : Str) (w : Net State) (c : ℕ) → lookup n w.reg ≡ some c → get_or_create n w ≡ (c, w)
  pub get_or_create_new :
      (n : Str) (w : Net State)
      → lookup n w.reg ≡ none
      → ((get_or_create n w).0 ≡ w.chans.next)
        × ((get_or_create n w).1.chans ≡ (new_channel n w.chans).1)
        × ((m : Str)
            → lookup m (get_or_create n w).1.reg
              ≡ (if n == m then some w.chans.next else lookup m w.reg))
  pub len-get_or_create :
      (n : Str) (w : Net State)
      → lookup n w.reg ≡ none
      → len (get_or_create n w).1.reg ≡ suc (len w.reg)
  pub lookup-delete :
      (n m : Str) (s : State) → lookup m (delete n s) ≡ (if n == m then none else lookup m s)
  pub compare_and_delete_hit :
      (n : Str) (c : ℕ) (s : State)
      → lookup n s ≡ some c
      → ((compare_and_delete n c s).0 ≡ true)
        × ((m : Str)
            → lookup m (compare_and_delete n c s).1 ≡ (if n == m then none else lookup m s))
  pub compare_and_delete_miss :
      (n : Str) (c : ℕ) (s : State) → lookup n s ≢ some c → compare_and_delete n c s ≡ (false, s)
  -- A callback that never stops the loop is called on every entry that is there from start to end.
  pub range_all :
      (P : Pass State → Type 0) (Q : Str → ℕ → Pass State → Type 0)
      (fn : ℕ → Pass State → Bool × Pass State)
      → ((c : ℕ) (t : Pass State) → P t → P (fn c t).1)
      → ((c : ℕ) (t : Pass State) → (fn c t).0 ≡ true)
      → ((n : Str) (c : ℕ) (t : Pass State) → lookup n t.net.reg ≢ some c → Q n c t)
      → ((n : Str) (c : ℕ) (t : Pass State) → P t → Q n c (fn c t).1)
      → ((n : Str) (c d : ℕ) (t : Pass State) → P t → Q n c t → Q n c (fn d t).1)
      → (t : Pass State) → P t
      → P (range fn t) × ((n : Str) (c : ℕ) → Q n c (range fn t))
