-- ===== src/Ebpf/Sessions/Expiry/Seen.antt =====
-- The first reading of the timer callback in natto64-ebpf/src/lib.rs, by the packets of a session.
use natto.Common.{
  ℕ, ◌+◌, ◌-◌, ◌≤◌, ◌<◌, ◌≡◌, ◌≢◌, ◌⊎◌, ◌∙◌, ap, inl, inr, true, some, Option-cases, Bool-cases,
  ◌==◌, ==_iff, dec_lt, ℕ_discrete, arith,
}
use natto.Abi.{FwdNatKey, NatVal, nat_key}
use natto.Ebpf.Kernel.{Kernel, TimedFwdNatVal}
use natto.Ebpf.World.{World}
use natto.Ebpf.Sessions.{session_timeout_ns, current_cfg}
use natto.Ebpf.Sessions.Expiry.{expiry_confirmation_ns, reverse_last_seen, session_timer_callback}
use natto.Ebpf.Sessions.Expiry.Laws.{
  rearmed, last_seen, callback_keeps_active, callback_observes_idle,
}

module _ {k : Kernel} (key : FwdNatKey) (value : TimedFwdNatVal k.Timer) (w : World k) where
  -- A time at which a packet of the session is recorded: of the client in its entry, or a reply in
  -- the reverse entry under its external tuple, where that has the session's generation.
  pub data SeenAt (t : ℕ) : Type 0 where
    by_client : value.last_seen_ns ≡ t → SeenAt t
    by_reply :
        (reverse : NatVal)
        → k.nat_maps.get w.nat (nat_key value.ext_v4 value.ext_port key.proto) ≡ some reverse
        → reverse.generation ≡ value.generation
        → reverse.last_seen_ns ≡ t
        → SeenAt t

  -- The last of them.
  pub record IsLatest (t : ℕ) : Type 0 where
    pub seen : SeenAt t
    pub latest : (t' : ℕ) → SeenAt t' → t' ≤ t

  last_seen-SeenAt : SeenAt (last_seen key value w)
  unfolding reverse_last_seen
  last_seen-SeenAt =
      elim (Option-cases (k.nat_maps.get w.nat (nat_key value.ext_v4 value.ext_port key.proto))) [
        | inl e ↦ by_client (rw e (omega arith))
        | inr (reverse, e) ↦ elim (Bool-cases (reverse.generation == value.generation)) [
          | inr foreign ↦ by_client (rw (e, foreign) (omega arith))
          | inl same ↦ elim (dec_lt value.last_seen_ns reverse.last_seen_ns) [
            | yes later ↦
                by_reply reverse e ((==_iff _ _).0 same) (rw (e, same) (omega (arith, later)))
            | no earlier ↦ by_client (rw (e, same) (omega (arith, earlier)))
          ]
        ]
      ]

  SeenAt-le : (t : ℕ) → SeenAt t → t ≤ last_seen key value w
  unfolding reverse_last_seen
  SeenAt-le t (by_client e) = omega (arith, e)
  SeenAt-le t (by_reply reverse stored generation e) =
      let same : (reverse.generation == value.generation) ≡ true = (==_iff _ _).1 generation in
      rw (stored, same) (omega (arith, e))

  IsLatest-last_seen : (t : ℕ) → IsLatest t → last_seen key value w ≡ t
  IsLatest-last_seen t l =
      omega (arith, l.latest (last_seen key value w) last_seen-SeenAt, SeenAt-le t l.seen)

  module _ (now : ℕ) (between : World k → World k)
      (stored : k.fwd_maps.get w.fwd_nat key ≡ some value)
      (expires : session_timeout_ns (current_cfg w) ≢ 0) where
    -- Where `t` is the last time at which a packet of either direction of a session is recorded, the
    -- timer callback does one of three things. If less than a timeout has passed since, it clears the
    -- observation and starts the timer for the time that is left. Otherwise, it notes `t` as observed
    -- and starts the timer for the confirmation interval. Only a session of which `t` has been noted
    -- before goes on to be confirmed.
    pub callback_first_reading :
        (t : ℕ)
        → IsLatest t
        → ((now < t + session_timeout_ns (current_cfg w))
            × (session_timer_callback key now between w ≡ record w {
              fwd_nat =
                  k.fwd_maps.write w.fwd_nat key
                    (rearmed k value 0 (session_timeout_ns (current_cfg w) - (now - t)));
            }))
          ⊎ ((t + session_timeout_ns (current_cfg w) ≤ now)
              × ((value.observed_last_seen_ns ≡ t)
                  ⊎ (session_timer_callback key now between w ≡ record w {
                    fwd_nat =
                        k.fwd_maps.write w.fwd_nat key (rearmed k value t expiry_confirmation_ns);
                  })))
    callback_first_reading t latest =
        let timeout = session_timeout_ns (current_cfg w) in
        let same = IsLatest-last_seen t latest in
        elim (dec_lt now (t + timeout)) [
          | yes active ↦ inl (
            active,
            callback_keeps_active key now between w value stored expires
                  (omega (arith, active, same))
                ∙ ap
                    (λ s. record w {
                      fwd_nat =
                          k.fwd_maps.write w.fwd_nat key (rearmed k value 0 (timeout - (now - s)));
                    })
                    same,
          )
          | no idle ↦ inr (
            omega (arith, idle),
            elim (ℕ_discrete value.observed_last_seen_ns t) [
              | yes noted ↦ inl noted
              | no unnoted ↦ inr (
                  callback_observes_idle key now between w value stored expires
                    (omega (arith, idle, same)) (λ e. unnoted (e ∙ same))
                  ∙ ap
                      (λ s. record w {
                        fwd_nat =
                            k.fwd_maps.write w.fwd_nat key
                              (rearmed k value s expiry_confirmation_ns);
                      })
                      same)
            ],
          )
        ]
