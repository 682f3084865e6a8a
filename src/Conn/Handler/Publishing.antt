-- ===== src/Conn/Handler/Publishing.antt =====
-- What a publish reaches (internal/conn/handler.go, `handlePublish`).
use wirefan.Prelude.{
  ℕ, suc, ◌≡◌, refl, sym, ◌∙◌, true, false, some, if◌then◌else◌, nat_beq_iff, nat_eq, str_eq, arith,
}
use mathlib.Core.Path.{subst₂}
use wirefan.Prelude.Map.{get}
use wirefan.Prelude.Sets.{has, IsDistinct}
use wirefan.Conn.Handler.{Server, charge_key, charge_publish, publish_allowed, handle_publish}
use wirefan.Conn.Names.{channel_reserved}
use wirefan.Conn.Send.{fan_out}
use wirefan.Conn.Send.Delivery.{received, Delivered, Delivered-received, conns-broadcast_to}
use wirefan.Conn.State.{Incoming, Libs, event}
use wirefan.Fanout.{per_conn}
use wirefan.Registry.{Registry}

module _ (L : Libs) (R : Registry) where
  -- Both buckets of `who` have a token for a publish at time `now`.
  abbrev pub MayPublish : ℕ → ℕ → Server L R → Type 0
  MayPublish now who w =
      ((charge_publish L R now who w).0 ≡ true)
      × ((charge_key L R now who (charge_publish L R now who w).1).0 ≡ true)

  -- The two charges change the buckets only, not what `who` would buffer.
  charged-received :
      (now who ch : ℕ) (msg : Incoming) (w : Server L R) (j : ℕ)
      → (received
          (event msg.channel msg.payload (L.ulid w.minted))
          ((charge_key L R now who (charge_publish L R now who w).1).1.conns j)).send
        ≡ (received (event msg.channel msg.payload (L.ulid w.minted)) (w.conns j)).send
  unfolding charge_key charge_publish received
  charged-received now who ch msg w j = ground (arith, nat_beq_iff who j)

  charged-send :
      (now who : ℕ) (w : Server L R) (j : ℕ)
      → ((charge_key L R now who (charge_publish L R now who w).1).1.conns j).send
        ≡ (w.conns j).send
  unfolding charge_key charge_publish
  charged-send now who w j = ground (arith, nat_beq_iff who j)

  charged_rest :
      (now who : ℕ) (w : Server L R)
      → let v = (charge_key L R now who (charge_publish L R now who w).1).1 in
        (v.net ≡ w.net) × (v.fanout ≡ w.fanout) × (v.minted ≡ w.minted)
  unfolding charge_key charge_publish
  charged_rest now who w = (refl, refl, refl)

  published_each :
      (ch : ℕ) (msg : Incoming) (w : Server L R) (j : ℕ)
      → w.fanout ≡ per_conn
      → IsDistinct (w.net.chans.cell ch).subscribers
      → (publish_allowed L R ch msg w).conns j ≡ (
          if has j (w.net.chans.cell ch).subscribers
          then received (event msg.channel msg.payload (L.ulid w.minted)) (w.conns j)
          else w.conns j)
  unfolding publish_allowed fan_out
  published_each ch msg w j plain d =
      rw (plain, fan_out)
        (conns-broadcast_to ch (event msg.channel msg.payload (L.ulid w.minted))
          (record w { minted = suc w.minted; published = suc w.published }) j d)

  charged-close_req :
      (now who ch : ℕ) (msg : Incoming) (w : Server L R) (j : ℕ)
      → ((received
            (event msg.channel msg.payload (L.ulid w.minted))
            ((charge_key L R now who (charge_publish L R now who w).1).1.conns j)).close_req
          ≡ (received (event msg.channel msg.payload (L.ulid w.minted)) (w.conns j)).close_req)
        × (((charge_key L R now who (charge_publish L R now who w).1).1.conns j).close_req
            ≡ (w.conns j).close_req)
  unfolding charge_key charge_publish received
  charged-close_req now who ch msg w j =
      (ground (arith, nat_beq_iff who j), ground (arith, nat_beq_iff who j))

  sends_each :
      (now who ch : ℕ) (msg : Incoming) (w : Server L R) (j : ℕ)
      → channel_reserved msg.channel ≡ false
      → get msg.channel (w.conns who).subs ≡ some ch
      → MayPublish now who w
      → w.fanout ≡ per_conn
      → IsDistinct (w.net.chans.cell ch).subscribers
      → let c = (handle_publish L R now who msg w).conns j in
        let r = received (event msg.channel msg.payload (L.ulid w.minted)) (w.conns j) in
        (c.send ≡ (if has j (w.net.chans.cell ch).subscribers then r.send else (w.conns j).send))
        × (c.close_req ≡ (
            if has j (w.net.chans.cell ch).subscribers then r.close_req else (w.conns j).close_req))
  unfolding charge_key charge_publish
  sends_each now who ch msg w j free on (p, q) plain d =
      let v = (charge_key L R now who (charge_publish L R now who w).1).1 in
      let (net_eq, fan_eq, mint_eq) = charged_rest now who w in
      let goes : handle_publish L R now who msg w ≡ publish_allowed L R ch msg v =
        unfold handle_publish in ground arith in
      let each = published_each ch msg v j (fan_eq ∙ plain) d in
      rw goes (
        ground (arith, each, charged-received now who ch msg w j, charged-send now who w j),
        ground (arith, each, charged-close_req now who ch msg w j),
      )

  -- With the per-connection fanout, a publish that both buckets let pass, to a channel that the
  -- publisher is on and that is not reserved, sends the event once to each of the channel's
  -- subscribers, whose buffers take it as their policies say, and leaves the buffer of every other
  -- connection as it is: a live subscriber with room in its buffer has the event at the end of it.
  pub handle_publish-delivers :
      (now who ch : ℕ) (msg : Incoming) (w : Server L R) (j : ℕ)
      → channel_reserved msg.channel ≡ false
      → get msg.channel (w.conns who).subs ≡ some ch
      → MayPublish now who w
      → w.fanout ≡ per_conn
      → IsDistinct (w.net.chans.cell ch).subscribers
      → let c = (handle_publish L R now who msg w).conns j in
        (has j (w.net.chans.cell ch).subscribers ≡ true
          → Delivered
              (event msg.channel msg.payload (L.ulid w.minted))
              (w.conns j)
              c.send
              c.close_req)
        × (has j (w.net.chans.cell ch).subscribers ≡ false
            → (c.send ≡ (w.conns j).send) × (c.close_req ≡ (w.conns j).close_req))
  handle_publish-delivers now who ch msg w j free on may plain d =
      let (sent, asked) = sends_each now who ch msg w j free on may plain d in
      let ev = event msg.channel msg.payload (L.ulid w.minted) in
      (
        λ is_on.
            subst₂ (λ b a. Delivered ev (w.conns j) b a) (sym (ground arith)) (sym (ground arith))
              (Delivered-received ev (w.conns j)),
        λ off. (ground arith, ground arith),
      )
