-- ===== src/Server/Life/Shutdown.antt =====
-- The shutdown of the server, with everything else that runs meanwhile (internal/server/server.go).
use wirefan.Prelude.{
  ℕ, ◌≤◌, ◌<◌, ◌≡◌, refl, ap, Bool, true, false, not, ◌∷◌, none, some, Str, nat_eq, arith,
}
use wirefan.Prelude.Sets.{has, has-remove, has-nil_of_length, remove}
use wirefan.Store.Memory.{Keys}
use wirefan.Hub.Tracking.{
  CloseError, mark_draining, announce, len, admit, add_conn, close_key, remove_conn,
}
use wirefan.Fanout.{Fanout, per_conn, sharded, Pool, Job, enqueue, take_job}
use wirefan.Server.Upgrade.{UpgradeHandler, draining, serve, check_key}
use wirefan.Server.Life.{
  Phase, selecting, failed, health_set, marked, announced, drained, admin_down, public_down,
  closing, finished, health, Report, Life, new_server, advance_at, advance,
}

-- How far the shutdown is.
pub rank : Phase → ℕ
rank selecting = 0
rank failed = 0
rank health_set = 1
rank marked = 2
rank announced = 3
rank drained = 4
rank admin_down = 5
rank public_down = 6
rank closing = 7
rank finished = 8

abbrev pub is_open : {M : Type 0} → Fanout M → Bool
is_open per_conn = true
is_open (sharded p) = not p.closed

module _ {M : Type 0} where
  enqueue-closed :
      (name : Str) (c : ℕ) (msg : M) (p q : Pool M)
      → enqueue name c msg p ≡ some q
      → q.closed ≡ p.closed
  unfolding enqueue
  enqueue-closed name c msg p q h = ground arith

  take_job-closed :
      (i : ℕ) (j : Job M) (p q : Pool M) → take_job i p ≡ some (j, q) → q.closed ≡ p.closed
  unfolding take_job
  take_job-closed i j p q h = ground arith

module _ {M : Type 0} (key_of : ℕ → Str) (names : ℕ → Str) where
  -- `Run` goes on, or another goroutine makes a step: an upgrade passes its checks, a connection is
  -- given to `Hub.Add`, one ends, a key is revoked, a publish is queued, or a worker takes a job.
  pub data Step (l : Life M) : Life M → Type 0 where
    main : (r : Report) → Step l (advance r l)
    upgrade :
        (c : ℕ) (key_id ip : Str) (m : Keys) (h : UpgradeHandler)
        → l.public_up ≡ true
        → (serve l.is_draining key_id ip m h).0 ≡ none
        → Step l (record l { upgrading = c ∷ l.upgrading })
    join :
        (c : ℕ)
        → has c l.upgrading ≡ true
        → Step l (record l { upgrading = remove c l.upgrading; gate = (admit key_of c l.gate).1 })
    leave : (c : ℕ) → Step l (record l { gate = record l.gate { hub = remove_conn c l.gate.hub } })
    revoke :
        (id : Str) (e : CloseError) → Step l (record l { gate = (close_key key_of id e l.gate).1 })
    publish :
        (c : ℕ) (msg : M) (p q : Pool M)
        → l.fan ≡ sharded p
        → enqueue (names c) c msg p ≡ some q
        → Step l (record l { fan = sharded q })
    work :
        (i : ℕ) (j : Job M) (p q : Pool M)
        → l.fan ≡ sharded p
        → take_job i p ≡ some (j, q)
        → Step l (record l { fan = sharded q })

  pub data Reach (fan : Fanout M) (has_admin : Bool) : Life M → Type 0 where
    start : Reach fan has_admin (new_server fan has_admin)
    later : {l k : Life M} → Reach fan has_admin l → Step l k → Reach fan has_admin k

  -- What holds behind each call, for a connection `c`.
  abbrev Inv : ℕ → Life M → Type 0
  Inv c l =
      (1 ≤ rank l.phase → l.is_draining ≡ true)
      × (2 ≤ rank l.phase → l.gate.hub.draining ≡ true)
      × (4 ≤ rank l.phase → has c l.gate.hub.conns ≡ true → has c l.gate.forced ≡ true)
      × (5 ≤ rank l.phase → l.admin_up ≡ false)
      × (6 ≤ rank l.phase → l.public_up ≡ false)
      × (rank l.phase < 7 → is_open l.fan ≡ true)

  main-Inv :
      (p : Phase) (r : Report) (l : Life M) (c : ℕ)
      → l.phase ≡ p
      → Inv c l
      → Inv c (advance_at p r l)
  unfolding advance_at rank mark_draining announce len
  main-Inv selecting r l c e v = ground (arith, ap rank e)
  main-Inv failed r l c e v = v
  main-Inv health_set r l c e v = ground (arith, ap rank e)
  main-Inv marked r l c e v = ground (arith, ap rank e)
  main-Inv announced r l c e v = ground (arith, ap rank e, has-nil_of_length c l.gate.hub.conns)
  main-Inv drained r l c e v = ground (arith, ap rank e)
  main-Inv admin_down r l c e v = ground (arith, ap rank e)
  main-Inv public_down r l c e v = ground (arith, ap rank e)
  main-Inv closing r l c e v = ground (arith, ap rank e, v)
  main-Inv finished r l c e v = v

  Step-Inv : (c : ℕ) {l k : Life M} → Step l k → Inv c l → Inv c k
  Step-Inv c {l} (main r) v = unfold advance in main-Inv l.phase r l c refl v
  Step-Inv c {l} (upgrade d key_id ip m h up passed) v = v
  Step-Inv c {l} (join d passed) v = unfold admit add_conn in ground arith
  Step-Inv c {l} (leave d) v = unfold remove_conn in ground (arith, has-remove d c l.gate.hub.conns)
  Step-Inv c {l} (revoke id e) v = unfold close_key in v
  Step-Inv c {l} (publish d msg p q is_pool queued) v =
      ground (arith, ap is_open is_pool, enqueue-closed (names d) d msg p q queued)
  Step-Inv c {l} (work i j p q is_pool taken) v =
      ground (arith, ap is_open is_pool, take_job-closed i j p q taken)

  Reach-Inv :
      (c : ℕ) {fan : Fanout M} {has_admin : Bool} {l : Life M}
      → is_open fan ≡ true
      → Reach fan has_admin l
      → Inv c l
  Reach-Inv c o start = unfold new_server rank in ground (arith, o)
  Reach-Inv c o (later r st) = Step-Inv c st (Reach-Inv c o r)

  -- The fanout is closed last, whatever else runs during the shutdown: once a server that began
  -- with an open fanout has closed it, both listeners are down, every upgrade is answered 503, the
  -- hub takes no connection, and each connection that the hub still tracks has been torn down.
  pub fanout_last :
      (fan : Fanout M) (has_admin : Bool) (l : Life M)
      → is_open fan ≡ true
      → Reach fan has_admin l
      → is_open l.fan ≡ false
      → (l.admin_up ≡ false)
        × (l.public_up ≡ false)
        × (health l.is_draining ≡ 503)
        × ((key_id ip : Str) (m : Keys) (h : UpgradeHandler)
            → serve l.is_draining key_id ip m h ≡ (some draining, h))
        × ((c : ℕ) → (admit key_of c l.gate).0 ≡ false)
        × ((c : ℕ) → has c l.gate.hub.conns ≡ true → has c l.gate.forced ≡ true)
  fanout_last fan has_admin l o r shut =
      let v = Reach-Inv 0 o r in
      let last : 7 ≤ rank l.phase = ground (arith, v, shut) in
      let marked_ : l.is_draining ≡ true = ground (arith, v, last) in
      (
        ground (arith, v, last),
        ground (arith, v, last),
        rw marked_ (unfold health in refl),
        λ key_id ip m h. rw marked_ (unfold serve check_key in refl),
        λ c. unfold admit add_conn in ground (arith, v, last),
        λ c h. ground (arith, Reach-Inv c o r, last, h),
      )
