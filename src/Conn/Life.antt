-- ===== src/Conn/Life.antt =====
-- internal/conn: `Run` of conn.go with the two pumps of pumps.go, as the steps of its goroutines. What
-- the pumps do with messages is in Conn/Handler and Conn/Send; here they run until they return.
pub mod Order
pub mod Ends
use wirefan.Prelude.{ℕ, zero, suc, ◌≡◌, Bool, true, false, ◌||◌, ◌⊎◌, List, [], ◌∷◌, Str, codes}
use wirefan.Hub.Tracking.{CloseError}

-- Where `Run` stands: before `Hub.Add`, in its `select`, behind the close request that it took from
-- there, behind that close frame, receiving the errors of that many pumps, behind each call of the
-- clean-up, or returned.
pub data Place : Type 0 where
  adding selecting slow framed : Place
  receiving : ℕ → Place
  released net_closed marked_closed unsubscribed returned : Place

-- `Run` and its pumps, with the errors that wait in `errc`, and what is done so far.
pub record Life : Type 0 where
  pub place : Place
  pub is_reading : Bool
  pub is_writing : Bool
  pub errc : ℕ
  -- By `Run` itself, and by `CloseNow` or the context of the caller.
  pub is_cancelled : Bool
  pub is_forced : Bool
  pub frames : List CloseError
  pub is_tracked : Bool
  pub is_released : Bool
  pub is_closed : Bool
  pub has_left : Bool

abbrev pub start : Life
start = record {
  place = adding;
  is_reading = false;
  is_writing = false;
  errc = 0;
  is_cancelled = false;
  is_forced = false;
  frames = [];
  is_tracked = false;
  is_released = false;
  is_closed = false;
  has_left = false;
}

-- 1008 is `websocket.StatusPolicyViolation`, and 1011 `StatusInternalError`.
abbrev pub slow_consumer : CloseError
slow_consumer = record { code = 1008; reason = codes "slow consumer" }

abbrev pub full_at_start : CloseError
full_at_start = record { code = 1011; reason = codes "send chan full at start" }

-- The calls of `Run` after both pumps have returned.
unfoldable pub clean_up : Place → Life → Life
clean_up released l = record l { place = net_closed }
clean_up net_closed l = record l { place = marked_closed; is_closed = true }
clean_up marked_closed l = record l { place = unsubscribed; has_left = true }
clean_up unsubscribed l = record l { place = returned; is_tracked = false; is_cancelled = true }
clean_up place l = l

abbrev pub in_clean_up : Place → Bool
in_clean_up released = true
in_clean_up net_closed = true
in_clean_up marked_closed = true
in_clean_up unsubscribed = true
in_clean_up place = false

-- Whether `runCtx` is done.
abbrev pub is_done : Life → Bool
is_done l = l.is_cancelled || l.is_forced

-- What `Run` and its pumps do by themselves.
pub data Step (l : Life) : Life → Type 0 where
  -- `Hub.Add` refuses: the close is sent, and the deferred cancel runs.
  refuse :
      (e : CloseError)
      → l.place ≡ adding
      → Step l (record l { place = returned; frames = e ∷ l.frames; is_cancelled = true })
  -- The hello does not fit.
  overflow :
      l.place ≡ adding
      → Step l
          (record l { place = returned; frames = full_at_start ∷ l.frames; is_cancelled = true })
  -- The pumps are started.
  go :
      l.place ≡ adding
      → Step l
          (record l { place = selecting; is_tracked = true; is_reading = true; is_writing = true })
  -- A pump returns when `runCtx` is done.
  read_stops :
      l.is_reading ≡ true
      → is_done l ≡ true
      → Step l (record l { is_reading = false; errc = suc l.errc })
  write_stops :
      l.is_writing ≡ true
      → is_done l ≡ true
      → Step l (record l { is_writing = false; errc = suc l.errc })
  -- The `select` finds the error of a pump.
  pump_error :
      (n : ℕ)
      → l.place ≡ selecting
      → l.errc ≡ suc n
      → Step l (record l { place = receiving 1; errc = n; is_cancelled = true })
  -- `CloseFrame` of a slow consumer, which was asked to close, and what follows it.
  frame : l.place ≡ slow → Step l (record l { place = framed; frames = slow_consumer ∷ l.frames })
  cancel : l.place ≡ framed → Step l (record l { place = receiving 2; is_cancelled = true })
  receive :
      (m n : ℕ)
      → l.place ≡ receiving (suc m)
      → l.errc ≡ suc n
      → Step l (record l { place = receiving m; errc = n })
  -- `ws.CloseNow`, and what follows it.
  release : l.place ≡ receiving 0 → Step l (record l { place = released; is_released = true })
  clean : in_clean_up l.place ≡ true → Step l (clean_up l.place l)

-- What happens to them: a read or a write on the socket fails, `Send` finds the connection too slow
-- and the `select` takes its request, or the context is cancelled from outside.
pub data Outside (l : Life) : Life → Type 0 where
  read_fails : l.is_reading ≡ true → Outside l (record l { is_reading = false; errc = suc l.errc })
  write_fails : l.is_writing ≡ true → Outside l (record l { is_writing = false; errc = suc l.errc })
  close_request : l.place ≡ selecting → Outside l (record l { place = slow })
  force : l.is_forced ≡ false → Outside l (record l { is_forced = true })

pub data Move (l k : Life) : Type 0 where
  runs : Step l k → Move l k
  happens : Outside l k → Move l k

pub data Reach : Life → Type 0 where
  begin : Reach start
  later : {l k : Life} → Reach l → Move l k → Reach k
