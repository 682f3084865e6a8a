-- ===== src/Conn/Handler/Checking.antt =====
-- The outcomes of the token check of `handleSubscribe` (internal/conn/handler.go).
use wirefan.Prelude.{
  ℕ, ◌≡◌, refl, Bool, true, false, ◌⊎◌, inl, inr, Option, none, nat_beq_iff, str_eq, Option-cases,
  Bool-cases, arith,
}
use wirefan.Auth.Token.{malformed, expired, invalid, replayed, verify_token_against}
use wirefan.Conn.Handler.{Server, check_token}
use wirefan.Conn.Names.{channel_requires_auth}
use wirefan.Conn.Send.{send_op_error}
use wirefan.Conn.Send.Calm.{Calm-send_op_error}
use wirefan.Auth.Replay.{ReplayCache}
use wirefan.Conn.State.{ErrorCode, Incoming, Libs, auth_replayed, auth_failed}
use wirefan.Registry.{Registry}
use wirefan.Conn.Handler.Effect.{Changed, Calm-after}
use wirefan.Conn.Handler.Cases.{Near}

module _ (L : Libs) (R : Registry) where
  open L use {rate, crypto}

  -- A failed token check counts and answers, and changes nobody's subscriptions.
  failed-Changed :
      (who : ℕ) (msg : Incoming) (code : ErrorCode) (cache : Option ReplayCache) (n : ℕ)
      (u : Server L R)
      → Changed L R who
          (u.conns who).subs
          u.net
          u
          (send_op_error who msg code (record u { replay_cache = cache; auth_fails = n }))
  failed-Changed who msg code cache n u =
      Calm-after L R who _ _
        (record {
          net_is = refl;
          subs_are = λ j. ground (arith, nat_beq_iff who j);
          max_same = λ j. refl;
        })
        (Calm-send_op_error who msg code _)

  Near-refl : (who : ℕ) (u : Server L R) → Near L R who u u
  Near-refl who u = record {
    near_net = refl;
    near_conn =
        λ j. record { subs_same = refl; max_same = refl; socket_same = refl; key_same = refl };
  }

  abbrev pub Checks : ℕ → ℕ → Incoming → Server L R → Bool × Server L R → Type 0
  Checks now who msg u r =
      ((r.0 ≡ true)
        × Near L R who u r.1
        × (channel_requires_auth msg.channel ≡ true
            → (verify_token_against crypto now u.signing_secret (u.conns who).socket_id msg.channel
                msg.token u.replay_cache).0
              ≡ none))
      ⊎ ((r.0 ≡ false) × Changed L R who (u.conns who).subs u.net u r.1)

  pub check_token-Checks :
      (now who : ℕ) (msg : Incoming) (u : Server L R)
      → Checks now who msg u (check_token L R now who msg u)
  unfolding check_token
  check_token-Checks now who msg u =
      let r =
        verify_token_against crypto now u.signing_secret (u.conns who).socket_id msg.channel
          msg.token u.replay_cache in
      elim (Bool-cases (channel_requires_auth msg.channel)) [
        | inr public ↦ rw public (inl (refl, Near-refl who u, λ h. cc))
        | inl private ↦ elim (Option-cases r.0) [
          | inl good ↦
              rw (private, good, check_token)
                (inl (
                  refl,
                  record {
                    near_net = refl;
                    near_conn = λ j. record {
                      subs_same = refl;
                      max_same = refl;
                      socket_same = refl;
                      key_same = refl;
                    };
                  },
                  λ h. refl,
                ))
          | inr (replayed, e) ↦
              rw (private, e, check_token)
                (inr (refl, failed-Changed who msg auth_replayed r.1 _ u))
          | inr (malformed, e) ↦
              rw (private, e, check_token) (inr (refl, failed-Changed who msg auth_failed r.1 _ u))
          | inr (expired, e) ↦
              rw (private, e, check_token) (inr (refl, failed-Changed who msg auth_failed r.1 _ u))
          | inr (invalid, e) ↦
              rw (private, e, check_token) (inr (refl, failed-Changed who msg auth_failed r.1 _ u))
        ]
      ]
