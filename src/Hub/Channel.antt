-- ===== src/Hub/Channel.antt =====
-- internal/hub/channel.go. A subscriber is the number of a connection.
use wirefan.Prelude.{
  ℕ, ◌≤◌, ◌<◌, ◌≡◌, ◌≢◌, nat_beq_iff, true, false, ◌||◌, ◌&&◌, ◌⊎◌, inl, inr, Bool-cases, List, [],
  ◌∷◌, Option, none, some, if◌then◌else◌, ◌==◌, nat_eq, leb, leb→le, length, arith,
}
use wirefan.Prelude.Sets.{
  has, add, remove, has-add, has-remove, length-add-le, IsDistinct, add-IsDistinct,
}
use wirefan.Registry.{Chans, write}

pub data SubscribeError : Type 0 where
  too_many_subs channel_deleted : SubscribeError

-- `Subscribe`; `none` is the error nil.
unfoldable pub subscribe : ℕ → ℕ → ℕ → Chans → Option SubscribeError × Chans
subscribe c s max h =
    let ch = h.cell c in
    if ch.deleted
    then (some channel_deleted, h)
    else if leb max (length ch.subscribers)
    then (some too_many_subs, h)
    else (none, write c (record ch { subscribers = add s ch.subscribers }) h)

unfoldable pub unsubscribe : ℕ → ℕ → Chans → Chans
unsubscribe c s h =
    let ch = h.cell c in write c (record ch { subscribers = remove s ch.subscribers }) h

-- `SubscriberCount`.
unfoldable pub subscriber_count : ℕ → Chans → ℕ
subscriber_count c h = length (h.cell c).subscribers

-- The loop of `Broadcast` over the snapshot, with the subscribers' `Send`.
unfoldable pub send_each {ℓ} : {W : Type ℓ} → (ℕ → W → W) → List ℕ → W → W
send_each send [] w = w
send_each send (s ∷ subs) w = send_each send subs (send s w)

-- `Broadcast`, over what `Send` does with the message.
unfoldable pub broadcast {ℓ} : {W : Type ℓ} → (ℕ → W → W) → ℕ → Chans → W → W
unfolding send_each
broadcast send c h w = send_each send (h.cell c).subscribers w

pub has-subscribe :
    (c s max : ℕ) (h : Chans)
    → (subscribe c s max h).0 ≡ none
    → (d t : ℕ)
    → has t ((subscribe c s max h).1.cell d).subscribers
      ≡ ((c == d && s == t) || has t (h.cell d).subscribers)
unfolding subscribe
has-subscribe c s max h done d t =
    ground (arith, has-add s t (h.cell c).subscribers, has-add s t (h.cell d).subscribers)

-- The verdict and the effect of `Subscribe` on every branch: a swept channel is refused before a
-- full one, a refusal changes nothing, and a success adds `s` and nothing else.
pub subscribe_lem :
    (c s max : ℕ) (h : Chans)
    → (((h.cell c).deleted ≡ true) × (subscribe c s max h ≡ (some channel_deleted, h)))
      ⊎ (((h.cell c).deleted ≡ false)
          × (max ≤ length (h.cell c).subscribers)
          × (subscribe c s max h ≡ (some too_many_subs, h)))
      ⊎ (((h.cell c).deleted ≡ false)
          × (length (h.cell c).subscribers < max)
          × ((subscribe c s max h).0 ≡ none)
          × ((d t : ℕ)
              → has t ((subscribe c s max h).1.cell d).subscribers
                ≡ ((c == d && s == t) || has t (h.cell d).subscribers)))
subscribe_lem c s max h = elim (Bool-cases (h.cell c).deleted) [
  | inl gone ↦ inl (gone, unfold subscribe in ground arith)
  | inr live ↦ inr (elim (Bool-cases (leb max (length (h.cell c).subscribers))) [
    | inl full ↦ inl (live, leb→le _ _ full, unfold subscribe in ground arith)
    | inr room ↦
        let done : (subscribe c s max h).0 ≡ none = unfold subscribe in ground arith in
        inr (live, ground arith, done, has-subscribe c s max h done)
  ])
]

-- Whatever the verdict, `Subscribe` of `s` leaves every other subscription alone.
pub has_other-subscribe :
    (c s max : ℕ) (h : Chans) (d t : ℕ)
    → s ≢ t
    → has t ((subscribe c s max h).1.cell d).subscribers ≡ has t (h.cell d).subscribers
unfolding subscribe
has_other-subscribe c s max h d t other =
    ground (arith, has-add s t (h.cell c).subscribers, nat_beq_iff s t)

-- `Unsubscribe` takes `s` off `c` and leaves every other subscription alone.
pub has-unsubscribe :
    (c s : ℕ) (h : Chans) (d t : ℕ)
    → has t ((unsubscribe c s h).cell d).subscribers
      ≡ (if c == d && s == t then false else has t (h.cell d).subscribers)
unfolding unsubscribe
has-unsubscribe c s h d t =
    ground (arith, has-remove s t (h.cell c).subscribers, has-remove s t (h.cell d).subscribers)

-- The cap holds on every channel that `Subscribe` was always called on with the same `max`.
pub subscribe-cap :
    (c s max : ℕ) (h : Chans) (d : ℕ)
    → subscriber_count d h ≤ max
    → subscriber_count d (subscribe c s max h).1 ≤ max
unfolding subscribe subscriber_count
subscribe-cap c s max h d b = ground (arith, length-add-le s (h.cell c).subscribers)

subscribers-subscribe :
    (c s max : ℕ) (h : Chans) (d : ℕ)
    → (((subscribe c s max h).1.cell d).subscribers ≡ (h.cell d).subscribers)
      ⊎ (((subscribe c s max h).1.cell d).subscribers ≡ add s (h.cell d).subscribers)
unfolding subscribe
subscribers-subscribe c s max h d = ground arith

pub subscribe-IsDistinct :
    (c s max : ℕ) (h : Chans) (d : ℕ)
    → IsDistinct (h.cell d).subscribers
    → IsDistinct ((subscribe c s max h).1.cell d).subscribers
subscribe-IsDistinct c s max h d b = elim (subscribers-subscribe c s max h d) [
  | inl same ↦ rw same b
  | inr more ↦ rw more (add-IsDistinct s (h.cell d).subscribers b)
]
