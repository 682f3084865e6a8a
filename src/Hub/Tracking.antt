-- ===== src/Hub/Tracking.antt =====
-- internal/hub/hub.go: the open connections, the revoked keys, and the drain at shutdown.
-- A connection is a number; its `APIKeyID()` never changes, so it is a function `key_of`.
pub mod Survivors
use wirefan.Prelude.{
  ℕ, zero, suc, Bool, true, false, ◌&&◌, ◌||◌, List, [], ◌∷◌, Option, none, some, Str, codes,
  if◌then◌else◌, nat_beq, nat_eq, str_eq, ◌==◌, length, ltb,
}
use wirefan.Prelude.Map.{Map, get, put}
use wirefan.Prelude.Sets.{add, remove}

-- `websocket.CloseError`.
pub record CloseError : Type 0 where
  pub code : ℕ
  pub reason : Str

pub record Hub : Type 0 where
  pub conns : List ℕ
  pub closed_keys : Map Str CloseError
  pub draining : Bool

-- `drainClose`; 1001 is `websocket.StatusGoingAway`.
abbrev pub drain_close : CloseError
drain_close = record { code = 1001; reason = codes "shutdown" }

-- `New`.
abbrev pub new_hub : Hub
new_hub = record { conns = []; closed_keys = []; draining = false }

-- `Remove`.
unfoldable pub remove_conn : ℕ → Hub → Hub
remove_conn c h = record h { conns = remove c h.conns }

-- `Len`.
unfoldable pub len : Hub → ℕ
len h = length h.conns

-- The hub with the close handshakes that were started, newest first, and the connections that were
-- torn down without one.
pub record Gate : Type 0 where
  pub hub : Hub
  pub sent : List (ℕ × CloseError)
  pub forced : List ℕ

-- `go c.CloseFrame(...)` for each of a list of connections.
unfoldable pub close_frames : List ℕ → CloseError → List (ℕ × CloseError) → List (ℕ × CloseError)
close_frames [] e sent = sent
close_frames (c ∷ cs) e sent = (c, e) ∷ close_frames cs e sent

module _ (key_of : ℕ → Str) where
  -- `Add`; `none` reports true, and `some e` false along with the close to send.
  unfoldable pub add_conn : ℕ → Hub → Option CloseError × Hub
  add_conn c h = if h.draining then (some drain_close, h) else elim (get (key_of c) h.closed_keys) [
    | some e ↦ (some e, h)
    | none ↦ (none, record h { conns = add c h.conns })
  ]

  -- The loop of `CloseKey` over the tracked connections.
  unfoldable pub matching : Str → List ℕ → List ℕ
  matching id [] = []
  matching id (c ∷ cs) = if key_of c == id then c ∷ matching id cs else matching id cs

  -- `CloseKey`, with the number of connections that it closed.
  unfoldable pub close_key : Str → CloseError → Gate → ℕ × Gate
  close_key id e g =
      let matched = matching id g.hub.conns in
      (
        length matched,
        record g {
          hub = record g.hub { closed_keys = put id e g.hub.closed_keys };
          sent = close_frames matched e g.sent;
        },
      )

  -- What `Run` does with the verdict of `Add`: a refused connection is sent the close itself.
  unfoldable pub admit : ℕ → Gate → Bool × Gate
  admit c g = elim (add_conn c g.hub).0 [
    | none ↦ (true, record g { hub = (add_conn c g.hub).1 })
    | some e ↦ (false, record g { sent = close_frames (c ∷ []) e g.sent })
  ]

-- The first critical section of `Drain`.
unfoldable pub mark_draining : Gate → Gate
mark_draining g = record g { hub = record g.hub { draining = true } }

-- The close frames of `Drain`, over `snapshot`.
unfoldable pub announce : Gate → Gate
announce g = record g { sent = close_frames g.hub.conns drain_close g.sent }

-- The wait of `Drain`: the context ends after `ticks` ticks, and before each `env` is what other
-- goroutines do.
unfoldable pub drain_wait : (ℕ → Gate → Gate) → ℕ → Gate → Gate
drain_wait env zero g = if ltb 0 (len g.hub) then record g { forced = g.hub.conns } else g
drain_wait env (suc ticks) g =
    let rest = drain_wait env ticks (env ticks g) in if ltb 0 (len g.hub) then rest else g

-- `Drain`.
unfoldable pub drain : (ℕ → Gate → Gate) → (Gate → Gate) → ℕ → Gate → Gate
unfolding mark_draining announce drain_wait
drain env between ticks g = drain_wait env ticks (announce (between (mark_draining g)))
