-- ===== src/Conn/Policy.antt =====
-- internal/conn/policy.go: what happens to a message when the send buffer is full.
-- `Send`, the one caller of `Apply`, passes nil for `onSent`.
use wirefan.Prelude.{
  ℕ, ◌≤◌, ◌<◌, ◌≡◌, Bool, true, false, List, [], ◌∷◌, ◌++◌, if◌then◌else◌, ltb, length,
  length-append, ◌⊎◌, inl, inr, Bool-cases, dec_lt, ◌↔◌, arith,
}

-- A buffered Go channel: what is queued, oldest first.
pub record Buffer (A : Type 0) : Type 0 where
  pub queue : List A
  pub capacity : ℕ

module _ {A : Type 0} where
  -- `select { case send <- msg: … default: }`: whether the send went through.
  unfoldable pub try_send : A → Buffer A → Bool × Buffer A
  try_send msg b =
      if ltb (length b.queue) b.capacity
      then (true, record b { queue = b.queue ++ msg ∷ [] })
      else (false, b)

  abbrev pub drop_first : List A → List A
  drop_first [] = []
  drop_first (a ∷ q) = q

  -- `select { case <-send: default: }`.
  unfoldable pub try_receive : Buffer A → Buffer A
  try_receive b = record b { queue = drop_first b.queue }

pub data Policy : Type 0 where
  disconnect drop_oldest drop_newest : Policy

-- `ErrSlowConsumer`, the one error of `Apply`.
pub data Verdict : Type 0 where
  accepted slow_consumer : Verdict

module _ {A : Type 0} where
  -- `PolicyDropOldest.Apply` once the buffer was full, where `env` is what writers that do not take
  -- `sendMu`, and the write pump, do between its steps.
  evict_and_retry : (ℕ → Buffer A → Buffer A) → A → Buffer A → Buffer A
  evict_and_retry env msg b = (try_send msg (env 1 (try_receive (env 0 b)))).1

  -- `Apply` of the three policies.
  unfoldable pub apply_racing :
      (ℕ → Buffer A → Buffer A) → Policy → A → Buffer A → Verdict × Buffer A
  unfolding evict_and_retry
  apply_racing env disconnect msg b =
      let r = try_send msg b in (if r.0 then accepted else slow_consumer, r.1)
  apply_racing env drop_oldest msg b =
      let r = try_send msg b in (accepted, if r.0 then r.1 else evict_and_retry env msg b)
  apply_racing env drop_newest msg b = (accepted, (try_send msg b).1)

  -- With no one else at the buffer.
  unfoldable pub apply : Policy → A → Buffer A → Verdict × Buffer A
  unfolding apply_racing
  apply = apply_racing (λ i b. b)

  -- A Go channel never holds more than its capacity.
  abbrev pub Fits : Buffer A → Type 0
  Fits b = length b.queue ≤ b.capacity

  pub try_send-Fits :
      (msg : A) (b : Buffer A)
      → Fits b
      → Fits (try_send msg b).1 × ((try_send msg b).1.capacity ≡ b.capacity)
  unfolding try_send
  try_send-Fits msg b f = ground (arith, length-append b.queue (msg ∷ []))

  try_receive-Fits : (b : Buffer A) → Fits b → Fits (try_receive b)
  unfolding try_receive
  try_receive-Fits b f = ground arith

  evict_and_retry-Fits :
      (env : ℕ → Buffer A → Buffer A) (msg : A) (b : Buffer A)
      → ((i : ℕ) (c : Buffer A) → Fits c → Fits (env i c))
      → Fits b
      → Fits (evict_and_retry env msg b)
  unfolding evict_and_retry
  evict_and_retry-Fits env msg b keep f =
      (try_send-Fits msg (env 1 (try_receive (env 0 b)))
        (keep 1 (try_receive (env 0 b)) (try_receive-Fits (env 0 b) (keep 0 b f)))).0

  apply_racing-Fits :
      (env : ℕ → Buffer A → Buffer A) (p : Policy) (msg : A) (b : Buffer A)
      → ((i : ℕ) (c : Buffer A) → Fits c → Fits (env i c))
      → Fits b
      → Fits (apply_racing env p msg b).1
  unfolding apply_racing
  apply_racing-Fits env disconnect msg b keep f = (try_send-Fits msg b f).0
  apply_racing-Fits env drop_newest msg b keep f = (try_send-Fits msg b f).0
  apply_racing-Fits env drop_oldest msg b keep f = elim (Bool-cases (try_send msg b).0) [
    | inl sent ↦ rw sent (try_send-Fits msg b f).0
    | inr full ↦ rw full (evict_and_retry-Fits env msg b keep f)
  ]

  apply_racing-verdict :
      (env : ℕ → Buffer A → Buffer A) (p : Policy) (msg : A) (b : Buffer A)
      → ((apply_racing env p msg b).0 ≡ slow_consumer)
        ↔ ((p ≡ disconnect) × (b.capacity ≤ length b.queue))
  unfolding apply_racing try_send
  apply_racing-verdict env disconnect msg b = (λ h. ground arith, λ h. ground arith)
  apply_racing-verdict env drop_newest msg b = (λ h. ground arith, λ h. ground arith)
  apply_racing-verdict env drop_oldest msg b = (λ h. ground arith, λ h. ground arith)

  -- Whatever the other goroutines do to the buffer between the steps of `Apply`, so long as they do
  -- not overfill it, it is not overfilled, and a slow consumer is reported exactly by
  -- `PolicyDisconnect` at a full buffer.
  pub apply_racing_safe :
      (env : ℕ → Buffer A → Buffer A) (p : Policy) (msg : A) (b : Buffer A)
      → ((i : ℕ) (c : Buffer A) → Fits c → Fits (env i c))
      → Fits b
      → Fits (apply_racing env p msg b).1
        × (((apply_racing env p msg b).0 ≡ slow_consumer)
            ↔ ((p ≡ disconnect) × (b.capacity ≤ length b.queue)))
  apply_racing_safe env p msg b keep f =
      (apply_racing-Fits env p msg b keep f, apply_racing-verdict env p msg b)

  pub apply_room :
      (p : Policy) (msg : A) (b : Buffer A)
      → length b.queue < b.capacity
      → apply p msg b ≡ (accepted, record b { queue = b.queue ++ msg ∷ [] })
  unfolding apply try_send
  apply_room disconnect msg b h = ground arith
  apply_room drop_oldest msg b h = ground arith
  apply_room drop_newest msg b h = ground arith

  -- At a buffer that holds no more than its capacity, which is not 0, and that no one else is at: with
  -- room, every policy queues the message behind the others. At a full one
  -- `PolicyDisconnect` refuses it, `PolicyDropNewest` loses it, and `PolicyDropOldest` loses the
  -- oldest message instead.
  pub apply_lem :
      (p : Policy) (msg : A) (b : Buffer A)
      → Fits b
      → 0 < b.capacity
      → ((length b.queue < b.capacity)
          × (apply p msg b ≡ (accepted, record b { queue = b.queue ++ msg ∷ [] })))
        ⊎ ((length b.queue ≡ b.capacity)
            × (apply disconnect msg b ≡ (slow_consumer, b))
            × (apply drop_newest msg b ≡ (accepted, b))
            × (apply drop_oldest msg b
                ≡ (accepted, record b { queue = drop_first b.queue ++ msg ∷ [] })))
  unfolding apply try_send try_receive
  apply_lem p msg b f h = elim (dec_lt (length b.queue) b.capacity) [
    | yes room ↦ inl (room, apply_room p msg b room)
    | no full ↦ inr (omega arith, ground arith, ground arith, ground arith)
  ]
