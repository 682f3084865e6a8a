-- ===== src/Tests/Handlers.antt =====
-- Runs of internal/conn/handler.go and conn.go.
use wirefan.Prelude.{
  All, List, ℕ, zero, suc, ◌≡◌, ◌≢◌, refl, true, false, [], ◌∷◌, none, some, Str, codes,
  if◌then◌else◌, nat_eq, str_eq, has_prefix, leb, str_beq, arith,
}
use wirefan.Prelude.Map.{get, put}
use wirefan.Prelude.Sets.{has, IsDistinct}
use wirefan.Conn.Handler.{
  Server, handle, dispatch, handle_subscribe, allow_control, charge_control, subscribe_allowed,
  check_token, join, attempt, handle_publish, teardown, subscribe_loop, charge_publish, charge_key,
}
use wirefan.Conn.Handler.Admission.{Entitled, handle-admits}
use wirefan.Conn.Handler.Agreement.{Agree, Consistent, handle-Consistent, teardown_leaves_all}
use wirefan.Conn.Handler.Neighbours.{
  Act, finds, enters, quits, collects, NotBy, run_act, run_acts, run_acts-Fair,
  handle-Consistent_among,
}
use wirefan.Conn.Handler.Publishing.{MayPublish, handle_publish-delivers}
use wirefan.Conn.Handler.Refusing.{not_on, Answered, handle_publish-refused}
use wirefan.Conn.Handler.Subscribing.{Sound, Fair, Spares, loop_progress}
use wirefan.Conn.Names.{
  channel_reserved, channel_requires_auth, reserved_subscribe_allowed, validate_channel_name,
}
use wirefan.Conn.Names.Utf8.{valid, runes}
use wirefan.Conn.Send.Delivery.{Delivered}
use wirefan.Conn.State.{op_of, not_subscribed, event, new_conn}
use wirefan.Hub.Channel.{channel_deleted, subscribe}
use wirefan.Conn.Send.{send_ack}
use wirefan.Ratelimit
use wirefan.Registry.{Registry, new_channel}
use wirefan.Registry.SyncMap
use wirefan.Registry.SyncMap.{new_sync_map}
use wirefan.Tests.Samples.{toy_libs, fresh_server, ask}

abbrev R : Registry
R = new_sync_map

abbrev news : Str
news = codes "news"

abbrev fresh : Server toy_libs R
fresh = fresh_server R

quiet-Fair : (who : ℕ) → Fair R who (λ n. n)
quiet-Fair who = record {
  keep_sound = λ n s. s;
  keep_names = λ n c h. refl;
  keep_grows = λ n. omega arith;
  keep_mine = λ n b c. refl;
}

fresh-Sound : Sound R fresh.net
fresh-Sound = record { registered = λ name c h. absurd (ground (arith, R.lookup-empty name)) }

fresh-Agree : Agree 0 (fresh.conns 0).subs fresh.net
fresh-Agree = record {
  blank = λ d h. unfold has in refl;
  listed = λ name c h. absurd (unfold get new_conn in ground arith);
  complete = λ c h. absurd (unfold has in ground arith);
}

abbrev after : Server toy_libs R
after = handle toy_libs R 5 (λ i n. n) 0 (codes "subscribe") fresh

after-Agree : Agree 0 (after.conns 0).subs after.net
after-Agree =
    (handle-Consistent toy_libs R 5 (λ i n. n) 0 (codes "subscribe") fresh (λ i. quiet-Fair 0)
      (fresh-Sound, fresh-Agree)).1

teardown_leaves_all_example :
    (has 0 ((teardown toy_libs R 0 after).net.chans.cell 0).subscribers ≡ false)
    × (((teardown toy_libs R 0 after).conns 0).closed ≡ true)
teardown_leaves_all_example = teardown_leaves_all toy_libs R 0 after 0 after-Agree

fresh_absent : get news (fresh.conns 0).subs ≡ none
unfolding get new_conn
fresh_absent = refl

after_held : get news (after.conns 0).subs ≢ none
unfolding handle valid dispatch handle_subscribe allow_control charge_control charge_key
    Ratelimit.allow Ratelimit.bucket_of Ratelimit.new_limiter subscribe_allowed check_token join
    subscribe_loop attempt new_sync_map SyncMap.get_or_create subscribe send_ack op_of str_beq get
    put new_conn channel_reserved channel_requires_auth reserved_subscribe_allowed has_prefix
    validate_channel_name runes new_channel
after_held e = ground arith

handle-admits_example : Path ℕ 0 0 × Entitled toy_libs R 5 0 news (codes "subscribe") fresh
handle-admits_example =
    handle-admits toy_libs R 5 (λ i n. n) 0 (codes "subscribe") fresh 0 news fresh_absent after_held

-- A sweep visits the channel in two of the rounds; in the last one another connection joins it.
abbrev round : ℕ → List Act
round zero = enters 0 1 9 ∷ []
round (suc i) = collects 0 ∷ []

round-NotBy : (i : ℕ) → All (NotBy 0) (round i)
round-NotBy zero = (λ e. omega (arith, e), tt)
round-NotBy (suc i) = (tt, tt)

last-Spares : Spares R news (run_acts R (round 0))
last-Spares n c s h = unfold run_acts run_act subscribe in ground (arith, s.registered news c h)

loop_progress_example :
    (subscribe_loop R (λ i. run_acts R (round i)) news 0 3 (none, 0, fresh.net)).0
    ≢ some channel_deleted
loop_progress_example =
    loop_progress R (λ i. run_acts R (round i)) news 0 3 0 (none, 0, fresh.net)
      (λ i. run_acts-Fair R 0 (round i) (round-NotBy i)) fresh-Sound (omega arith) last-Spares

-- Three connections, the first two on the channel `news`.
abbrev busy : Server toy_libs R
busy = record fresh {
  net = record {
    chans = record {
      cell = λ c. record { name = news; subscribers = 0 ∷ 1 ∷ []; deleted = false };
      next = 1;
    };
    reg = R.empty;
  };
  conns = λ j. record (fresh.conns j) { subs = if leb j 1 then (news, 0) ∷ [] else [] };
}

open_news : channel_reserved news ≡ false
unfolding channel_reserved has_prefix
open_news = refl

on_news : get news (busy.conns 0).subs ≡ some 0
unfolding get str_beq
on_news = refl

may_post : MayPublish toy_libs R 5 0 busy
unfolding charge_publish charge_key Ratelimit.allow Ratelimit.bucket_of Ratelimit.new_limiter get
    new_conn
may_post = (refl, refl)

two-IsDistinct : IsDistinct (busy.net.chans.cell 0).subscribers
two-IsDistinct = unfold has in (refl, (refl, tt))

handle_publish-delivers_example :
    let c = (handle_publish toy_libs R 5 0 (ask (codes "publish")) busy).conns 1 in
    (has 1 (busy.net.chans.cell 0).subscribers ≡ true
      → Delivered (event news (codes "1") (toy_libs.ulid 0)) (busy.conns 1) c.send c.close_req)
    × (has 1 (busy.net.chans.cell 0).subscribers ≡ false
        → (c.send ≡ (busy.conns 1).send) × (c.close_req ≡ (busy.conns 1).close_req))
handle_publish-delivers_example =
    handle_publish-delivers toy_libs R 5 0 0 (ask (codes "publish")) busy 1 open_news on_news
      may_post refl two-IsDistinct

handle_publish-refused_example :
    Answered toy_libs R 0
      (ask (codes "publish"))
      not_subscribed
      fresh
      (handle_publish toy_libs R 5 0 (ask (codes "publish")) fresh)
handle_publish-refused_example =
    handle_publish-refused toy_libs R 5 0 (ask (codes "publish")) fresh not_subscribed
      (not_on open_news fresh_absent)

-- Between the locks, another connection joins a channel and a sweep visits it.
abbrev busy_others : List Act
busy_others = finds news ∷ enters 0 1 9 ∷ quits 0 1 ∷ collects 0 ∷ []

one-ne-zero : Path ℕ 1 0 → ⊥
one-ne-zero e = omega arith

others-NotBy : All (NotBy 0) busy_others
others-NotBy = (tt, (one-ne-zero, (one-ne-zero, (tt, tt))))

handle-Consistent_among_example :
    Consistent toy_libs R 0
      (handle toy_libs R 5 (λ i. run_acts R busy_others) 0 (codes "subscribe") fresh)
handle-Consistent_among_example =
    handle-Consistent_among toy_libs R 5 (λ i. busy_others) 0 (codes "subscribe") fresh
      (λ i. others-NotBy) (fresh-Sound, fresh-Agree)
