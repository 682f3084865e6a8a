-- ===== src/Conn/Send/Delivery.antt =====
-- Who receives a broadcast, and how often (internal/hub/channel.go, internal/conn/handler.go).
use wirefan.Prelude.{
  ℕ, ◌≤◌, ◌<◌, ◌≡◌, refl, ◌∙◌, inl, inr, Bool, true, false, List, [], ◌∷◌, ◌++◌, if◌then◌else◌,
  nat_beq, nat_beq_iff, nat_eq, length, arith,
}
use wirefan.Prelude.Sets.{has, IsDistinct}
use wirefan.Conn.Policy.{
  Buffer, accepted, slow_consumer, apply, apply_room, apply_lem, disconnect, drop_oldest,
  drop_newest, drop_first, try_send,
}
use wirefan.Conn.Send.{send, broadcast_to}
use wirefan.Conn.State.{Frame, Conn, World}
use wirefan.Hub.Channel.{broadcast, send_each}

module _ {B : Type 0} where
  -- A connection that was sent one message: a closed one is as it was, and one that is refused the
  -- message is asked to close.
  unfoldable pub received : Frame → Conn B → Conn B
  received msg c = if c.closed then c else elim (apply c.policy msg c.send).0 [
    | accepted ↦ record c { send = (apply c.policy msg c.send).1 }
    | slow_consumer ↦ record c { send = (apply c.policy msg c.send).1; close_req = true }
  ]

  -- A live connection with room in its buffer has the message behind all that waited before; one
  -- under `PolicyDisconnect` without room keeps its buffer and is asked to close.
  pub received_lem :
      (msg : Frame) (c : Conn B)
      → c.closed ≡ false
      → (length c.send.queue < c.send.capacity
          → (received msg c).send.queue ≡ c.send.queue ++ msg ∷ [])
        × (c.policy ≡ disconnect
            → c.send.capacity ≤ length c.send.queue
            → received msg c ≡ record c { close_req = true })
  unfolding received apply
  received_lem msg c live = (
    λ room. ground (arith, apply_room c.policy msg c.send room),
    λ p full. unfold try_send in ground arith,
  )

module _ {B : Type 0} where
  -- What becomes of a connection `c` that is sent `msg`: closed, it keeps its buffer; with room, it
  -- has the message behind all that waited before; at a full buffer, its policy says whether it is
  -- asked to close, loses the message, or loses the oldest one instead.
  abbrev pub Delivered : Frame → Conn B → Buffer Frame → Bool → Type 0
  Delivered msg c after asked =
      (c.closed ≡ true → after ≡ c.send)
      × (c.closed ≡ false
          → length c.send.queue < c.send.capacity
          → after.queue ≡ c.send.queue ++ msg ∷ [])
      × (c.closed ≡ false
          → length c.send.queue ≡ c.send.capacity
          → 0 < c.send.capacity
          → (c.policy ≡ disconnect → (after ≡ c.send) × (asked ≡ true))
            × (c.policy ≡ drop_newest → after ≡ c.send)
            × (c.policy ≡ drop_oldest → after.queue ≡ drop_first c.send.queue ++ msg ∷ []))

  full_lem :
      (msg : Frame) (c : Conn B)
      → c.closed ≡ false
      → length c.send.queue ≡ c.send.capacity
      → 0 < c.send.capacity
      → (c.policy ≡ disconnect
          → ((received msg c).send ≡ c.send) × ((received msg c).close_req ≡ true))
        × (c.policy ≡ drop_newest → (received msg c).send ≡ c.send)
        × (c.policy ≡ drop_oldest
            → (received msg c).send.queue ≡ drop_first c.send.queue ++ msg ∷ [])
  unfolding received
  full_lem msg c live full some_ =
      elim (apply_lem c.policy msg c.send (omega (arith, full)) some_) [
        | inl (room, e) ↦ absurd (omega (arith, room, full))
        | inr (_, a, b, d) ↦ (λ p. ground arith, λ p. ground arith, λ p. ground arith)
      ]

  pub Delivered-received :
      (msg : Frame) (c : Conn B) → Delivered msg c (received msg c).send (received msg c).close_req
  unfolding received
  Delivered-received msg c =
      (λ shut. ground arith, λ live room. (received_lem msg c live).0 room, full_lem msg c)

module _ {B S : Type 0} where
  conns-send :
      (who : ℕ) (msg : Frame) (w : World B S) (j : ℕ)
      → (send who msg w).1.conns j
        ≡ (if nat_beq who j then received msg (w.conns who) else w.conns j)
  unfolding send received
  conns-send who msg w j = ground (arith, nat_beq_iff who j)

  pub net-send : (who : ℕ) (msg : Frame) (w : World B S) → (send who msg w).1.net ≡ w.net
  unfolding send
  net-send who msg w = ground arith

  conns-send_each :
      (msg : Frame) (subs : List ℕ) (w : World B S) (j : ℕ)
      → IsDistinct subs
      → (send_each (λ who v. (send who msg v).1) subs w).conns j
        ≡ (if has j subs then received msg (w.conns j) else w.conns j)
  unfolding send_each has
  conns-send_each msg [] w j d = refl
  conns-send_each msg (s ∷ subs) w j d = ground (
    arith,
    conns-send_each msg subs (send s msg w).1 j d.1,
    conns-send s msg w j,
    nat_beq_iff s j,
  )

  -- A broadcast on a channel is sent once to each of its subscribers and to no other connection.
  pub conns-broadcast_to :
      (c : ℕ) (msg : Frame) (w : World B S) (j : ℕ)
      → IsDistinct (w.net.chans.cell c).subscribers
      → (broadcast_to c msg w).conns j
        ≡ (if has j (w.net.chans.cell c).subscribers then received msg (w.conns j) else w.conns j)
  unfolding broadcast_to broadcast
  conns-broadcast_to c msg w j d = conns-send_each msg (w.net.chans.cell c).subscribers w j d

  net-send_each :
      (msg : Frame) (subs : List ℕ) (w : World B S)
      → (send_each (λ who v. (send who msg v).1) subs w).net ≡ w.net
  unfolding send_each
  net-send_each msg [] w = refl
  net-send_each msg (s ∷ subs) w = net-send_each msg subs (send s msg w).1 ∙ net-send s msg w

  pub net-broadcast_to : (c : ℕ) (msg : Frame) (w : World B S) → (broadcast_to c msg w).net ≡ w.net
  unfolding broadcast_to broadcast
  net-broadcast_to c msg w = net-send_each msg (w.net.chans.cell c).subscribers w
