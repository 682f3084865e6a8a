-- ===== src/Hub/Tracking/Survivors.antt =====
-- No connection outlives the revocation of its key, or the drain, without a close
-- (internal/hub/hub.go).
use wirefan.Prelude.{
  ℕ, zero, suc, ◌≡◌, refl, sym, ap, ◌∙◌, Bool, true, false, ◌&&◌, ◌||◌, ◌⊎◌, inl, inr, List, [],
  ◌∷◌, none, some, Str, nat_beq, nat_beq_iff, nat_eq, str_beq, str_beq_iff, str_eq, ◌==◌, arith,
}
use wirefan.Prelude.Map.{get, get-put}
use wirefan.Prelude.Sets.{has, has-add, has-remove, has-nil_of_length}
use wirefan.Hub.Tracking.{
  CloseError, drain_close, new_hub, remove_conn, len, Gate, close_frames, add_conn, matching,
  close_key, admit, mark_draining, announce, drain_wait,
}

abbrev close_beq : CloseError → CloseError → Bool
close_beq d e = nat_beq d.code e.code && str_beq d.reason e.reason

-- The close `e` was started on `c`.
pub was_sent : ℕ → CloseError → List (ℕ × CloseError) → Bool
was_sent c e [] = false
was_sent c e ((d, f) ∷ sent) = (nat_beq d c && close_beq f e) || was_sent c e sent

was_sent-close_frames :
    (cs : List ℕ) (e : CloseError) (sent : List (ℕ × CloseError)) (c : ℕ) (f : CloseError)
    → was_sent c f (close_frames cs e sent) ≡ ((has c cs && close_beq e f) || was_sent c f sent)
unfolding was_sent close_frames has
was_sent-close_frames [] e sent c f = refl
was_sent-close_frames (d ∷ cs) e sent c f = ground (arith, was_sent-close_frames cs e sent c f)

close_beq_refl : (e : CloseError) → close_beq e e ≡ true
close_beq_refl e = ground (arith, nat_beq_iff e.code e.code, str_beq_iff e.reason e.reason)

module _ (key_of : ℕ → Str) where
  -- A step of any goroutine, and whether `Drain` has sent its closes.
  pub data Step : Gate × Bool → Gate × Bool → Type 0 where
    connect : (c : ℕ) (g : Gate) (b : Bool) → Step (g, b) ((admit key_of c g).1, b)
    disconnect :
        (c : ℕ) (g : Gate) (b : Bool) → Step (g, b) (record g { hub = remove_conn c g.hub }, b)
    revoke :
        (id : Str) (e : CloseError) (g : Gate) (b : Bool)
        → Step (g, b) ((close_key key_of id e g).1, b)
    start_drain : (g : Gate) (b : Bool) → Step (g, b) (mark_draining g, b)
    send_drain : (g : Gate) (b : Bool) → g.hub.draining ≡ true → Step (g, b) (announce g, true)

  pub data Reach : Gate × Bool → Type 0 where
    start : Reach (record { hub = new_hub; sent = []; forced = [] }, false)
    later : {s t : Gate × Bool} → Reach s → Step s t → Reach t

  record Inv (s : Gate × Bool) : Type 0 where
    closed :
        (c : ℕ) (e : CloseError)
        → has c s.0.hub.conns ≡ true
        → get (key_of c) s.0.hub.closed_keys ≡ some e
        → was_sent c e s.0.sent ≡ true
    drained :
        s.1 ≡ true → (c : ℕ) → has c s.0.hub.conns ≡ true → was_sent c drain_close s.0.sent ≡ true
    marked : s.1 ≡ true → s.0.hub.draining ≡ true

  has-matching :
      (id : Str) (cs : List ℕ) (c : ℕ)
      → has c (matching key_of id cs) ≡ (key_of c == id && has c cs)
  unfolding has matching
  has-matching id [] c = ground arith
  has-matching id (d ∷ cs) c = ground (arith, nat_beq_iff d c, has-matching id cs c)

  admit_keeps :
      (c : ℕ) (g : Gate) (d : ℕ) (e : CloseError)
      → (was_sent d e g.sent ≡ true → was_sent d e (admit key_of c g).1.sent ≡ true)
        × ((admit key_of c g).1.hub.closed_keys ≡ g.hub.closed_keys)
        × ((admit key_of c g).1.hub.draining ≡ g.hub.draining)
  unfolding admit add_conn was_sent close_frames
  admit_keeps c g d e = (λ h. ground arith, ground arith, ground arith)

  admitted :
      (c : ℕ) (g : Gate) (d : ℕ)
      → has d (admit key_of c g).1.hub.conns ≡ true
      → (has d g.hub.conns ≡ true)
        ⊎ ((c ≡ d) × (g.hub.draining ≡ false) × (get (key_of c) g.hub.closed_keys ≡ none))
  unfolding admit add_conn
  admitted c g d h = ground (arith, has-add c d g.hub.conns, nat_beq_iff c d)

  connect-Inv : (c : ℕ) (g : Gate) (b : Bool) → Inv (g, b) → Inv ((admit key_of c g).1, b)
  connect-Inv c g b v = record {
    closed = λ d e h k.
        let (more, keys, _) = admit_keeps c g d e in
        elim (admitted c g d h) [
          | inl old ↦ more (v.closed d e old (ap (get (key_of d)) (sym keys) ∙ k))
          | inr (same, _, open_) ↦ absurd (ground (arith, ap (get (key_of d)) keys, same))
        ];
    drained = λ h d k. elim (admitted c g d k) [
      | inl old ↦ (admit_keeps c g d drain_close).0 (v.drained h d old)
      | inr (_, open_, _) ↦ absurd (ground (arith, v.marked h))
    ];
    marked = λ h. (admit_keeps c g c drain_close).2 ∙ v.marked h;
  }

  disconnect-Inv :
      (c : ℕ) (g : Gate) (b : Bool) → Inv (g, b) → Inv (record g { hub = remove_conn c g.hub }, b)
  unfolding remove_conn
  disconnect-Inv c g b v = record {
    closed = λ d e h k. v.closed d e (ground (arith, has-remove c d g.hub.conns)) k;
    drained = λ h d k. v.drained h d (ground (arith, has-remove c d g.hub.conns));
    marked = v.marked;
  }

  revoke-Inv :
      (id : Str) (e : CloseError) (g : Gate) (b : Bool)
      → Inv (g, b)
      → Inv ((close_key key_of id e g).1, b)
  unfolding close_key
  revoke-Inv id e g b v =
      let matched = matching key_of id g.hub.conns in
      record {
        closed = λ d f h k. ground (
          arith,
          was_sent-close_frames matched e g.sent d f,
          has-matching id g.hub.conns d,
          get-put id (key_of d) e g.hub.closed_keys,
          v.closed d f,
          close_beq_refl e,
          str_beq_iff id (key_of d),
          str_beq_iff (key_of d) id,
        );
        drained = λ h d k.
            ground (arith, was_sent-close_frames matched e g.sent d drain_close, v.drained h d);
        marked = v.marked;
      }

  announce-Inv : (g : Gate) (b : Bool) → g.hub.draining ≡ true → Inv (g, b) → Inv (announce g, true)
  unfolding announce
  announce-Inv g b m v = record {
    closed = λ d f h k.
        ground (arith, was_sent-close_frames g.hub.conns drain_close g.sent d f, v.closed d f);
    drained = λ h d k. ground (
      arith,
      was_sent-close_frames g.hub.conns drain_close g.sent d drain_close,
      close_beq_refl drain_close,
    );
    marked = λ h. m;
  }

  Step-Inv : {s t : Gate × Bool} → Step s t → Inv s → Inv t
  Step-Inv (connect c g b) v = connect-Inv c g b v
  Step-Inv (disconnect c g b) v = disconnect-Inv c g b v
  Step-Inv (revoke id e g b) v = revoke-Inv id e g b v
  Step-Inv (start_drain g b) v =
      unfold mark_draining in record { closed = v.closed; drained = v.drained; marked = λ h. refl }
  Step-Inv (send_drain g b m) v = announce-Inv g b m v

  Reach-Inv : {s : Gate × Bool} → Reach s → Inv s
  Reach-Inv start = record {
    closed = λ c e h k. absurd (unfold has in ground arith);
    drained = λ h. absurd (ground arith);
    marked = λ h. absurd (ground arith);
  }
  Reach-Inv (later r st) = Step-Inv st (Reach-Inv r)

  -- In every reachable state, in whatever order connections came and went, keys were revoked and the
  -- drain ran: a tracked connection whose key was revoked has been sent the close of that key, and
  -- once the drain has sent its closes every tracked connection has been sent one.
  pub no_survivor :
      (g : Gate) (announced : Bool) (c : ℕ)
      → Reach (g, announced)
      → has c g.hub.conns ≡ true
      → ((e : CloseError) → get (key_of c) g.hub.closed_keys ≡ some e → was_sent c e g.sent ≡ true)
        × (announced ≡ true → was_sent c drain_close g.sent ≡ true)
  no_survivor g announced c r h =
      let v = Reach-Inv r in (λ e k. v.closed c e h k, λ k. v.drained k c h)

-- When the wait of `Drain` ends, whatever the others did, every connection that is still tracked
-- has been torn down.
pub drain_wait-forces :
    (env : ℕ → Gate → Gate) (ticks : ℕ) (g : Gate) (c : ℕ)
    → has c (drain_wait env ticks g).hub.conns ≡ true
    → has c (drain_wait env ticks g).forced ≡ true
unfolding drain_wait len
drain_wait-forces env zero g c h = ground (arith, has-nil_of_length c g.hub.conns)
drain_wait-forces env (suc ticks) g c h =
    ground (arith, has-nil_of_length c g.hub.conns, drain_wait-forces env ticks (env ticks g) c)
