-- ===== src/Server/Upgrade/Cap.antt =====
-- The count of connections for each address, and its cap (internal/server/upgrade.go).
use wirefan.Prelude.{
  ℕ, suc, ◌-◌, ◌≤◌, ◌<◌, ◌≡◌, ◌≢◌, refl, Bool, List, [], ◌∷◌, none, some, Str, if◌then◌else◌, ◌==◌,
  nat_beq, str_eq, str_beq_iff, Option-cases, inl, inr, arith,
}
use wirefan.Prelude.Map.{get, put, get-put, get-del}
use wirefan.Store.Memory.{Keys}
use wirefan.Server.Upgrade.{UpgradeHandler, count_of, check_key, enter, serve, leave}

-- How often an address stands in the list of the open connections' addresses.
pub occurrences : Str → List Str → ℕ
occurrences ip [] = 0
occurrences ip (j ∷ ips) = if j == ip then suc (occurrences ip ips) else occurrences ip ips

-- The list without the first entry for `ip`.
pub close_one : Str → List Str → List Str
close_one ip [] = []
close_one ip (j ∷ ips) = if j == ip then ips else j ∷ close_one ip ips

-- Requests come, and the connections that were let in end, in any order. The second part of a state
-- is the addresses of the open connections.
pub data Step : UpgradeHandler × List Str → UpgradeHandler × List Str → Type 0 where
  accept :
      (is_draining : Bool) (key_id ip : Str) (m : Keys) (h : UpgradeHandler) (open_ips : List Str)
      → (serve is_draining key_id ip m h).0 ≡ none
      → Step (h, open_ips) ((serve is_draining key_id ip m h).1, ip ∷ open_ips)
  refuse :
      (is_draining : Bool) (key_id ip : Str) (m : Keys) (h : UpgradeHandler) (open_ips : List Str)
      → (serve is_draining key_id ip m h).0 ≢ none
      → Step (h, open_ips) ((serve is_draining key_id ip m h).1, open_ips)
  finish :
      (ip : Str) (h : UpgradeHandler) (open_ips : List Str)
      → 0 < occurrences ip open_ips
      → Step (h, open_ips) (leave ip h, close_one ip open_ips)

pub data Reach (cap : ℕ) : UpgradeHandler × List Str → Type 0 where
  start : Reach cap (record { ip_count = []; ip_cap = cap }, [])
  later : {s t : UpgradeHandler × List Str} → Reach cap s → Step s t → Reach cap t

record Inv (cap : ℕ) (s : UpgradeHandler × List Str) : Type 0 where
  exact :
      (ip : Str)
      → get ip s.0.ip_count
        ≡ (if nat_beq (occurrences ip s.1) 0 then none else some (occurrences ip s.1))
  below : (ip : Str) → occurrences ip s.1 ≤ cap
  fixed : s.0.ip_cap ≡ cap

occurrences-close_one :
    (ip j : Str) (ips : List Str)
    → occurrences j (close_one ip ips)
      ≡ (if ip == j then occurrences j ips - 1 else occurrences j ips)
unfolding occurrences close_one
occurrences-close_one ip j [] = ground arith
occurrences-close_one ip j (i ∷ ips) =
    ground
      (arith, str_beq_iff i ip, str_beq_iff ip j, str_beq_iff i j, occurrences-close_one ip j ips)

-- What `serve` does to the count, on each of its answers.
pub serve_lem :
    (is_draining : Bool) (key_id ip : Str) (m : Keys) (h : UpgradeHandler)
    → ((serve is_draining key_id ip m h).0 ≢ none → (serve is_draining key_id ip m h).1 ≡ h)
      × ((serve is_draining key_id ip m h).0 ≡ none
          → (check_key is_draining key_id m ≡ none)
            × (count_of ip h < h.ip_cap)
            × ((serve is_draining key_id ip m h).1
                ≡ record h { ip_count = put ip (suc (count_of ip h)) h.ip_count }))
unfolding serve enter
serve_lem is_draining key_id ip m h = elim (Option-cases (check_key is_draining key_id m)) [
  | inr (r, bad) ↦ (λ k. ground arith, λ k. absurd (ground arith))
  | inl good ↦ (λ k. ground arith, λ k. (good, ground arith, ground arith))
]

Step-Inv : (cap : ℕ) {s t : UpgradeHandler × List Str} → Step s t → Inv cap s → Inv cap t
unfolding occurrences count_of
Step-Inv cap (accept d key ip m h ips ok) v =
    let (_, room, after) = (serve_lem d key ip m h).1 ok in
    rw after (record {
      exact = λ j. ground (
        arith,
        get-put ip j (suc (count_of ip h)) h.ip_count,
        str_beq_iff ip j,
        v.exact j,
        v.exact ip,
      );
      below = λ j. ground (arith, str_beq_iff ip j, v.below j, v.exact ip, v.fixed, room);
      fixed = v.fixed;
    })
Step-Inv cap (refuse d key ip m h ips no_) v = rw ((serve_lem d key ip m h).0 no_) v
Step-Inv cap (finish ip h ips on) v =
    unfold leave in
    record {
      exact = λ j. ground (
        arith,
        get-put ip j (count_of ip h - 1) h.ip_count,
        get-del ip j h.ip_count,
        occurrences-close_one ip j ips,
        str_beq_iff ip j,
        v.exact j,
        v.exact ip,
      );
      below = λ j. ground (arith, occurrences-close_one ip j ips, v.below j);
      fixed = v.fixed;
    }

Reach-Inv : (cap : ℕ) {s : UpgradeHandler × List Str} → Reach cap s → Inv cap s
Reach-Inv cap start =
    unfold get occurrences in record { exact = λ ip. refl; below = λ ip. omega arith; fixed = refl }
Reach-Inv cap (later r st) = Step-Inv cap st (Reach-Inv cap r)

-- In every reachable state the count of an address is the number of its open connections, it has no
-- entry without one, and there are at most `cap` of them.
pub cap_holds :
    (cap : ℕ) (h : UpgradeHandler) (open_ips : List Str) (ip : Str)
    → Reach cap (h, open_ips)
    → (count_of ip h ≡ occurrences ip open_ips)
      × (occurrences ip open_ips ≤ cap)
      × (get ip h.ip_count ≡ none → occurrences ip open_ips ≡ 0)
      × (occurrences ip open_ips ≡ 0 → get ip h.ip_count ≡ none)
unfolding count_of
cap_holds cap h open_ips ip r =
    let v = Reach-Inv cap r in
    let e = v.exact ip in
    (ground (arith, e), v.below ip, λ k. ground (arith, e), λ k. ground (arith, e))
