-- ===== src/Ebpf/Sessions/Expiry/Laws.antt =====
-- When the timer callback of natto64-ebpf/src/lib.rs removes a session, and when it may not.
use natto.Common.{ℕ, ◌+◌, ◌-◌, ◌≤◌, ◌<◌, max, ◌≡◌, ◌≢◌, ◌∙◌, true, false, some, ltb, ◌==◌, arith}
use natto.Abi.{FwdNatKey, nat_key}
use natto.Ebpf.Kernel.{Kernel, TimedFwdNatVal}
use natto.Ebpf.World.{World}
use natto.Ebpf.Sessions.{session_timeout_ns, current_cfg, timer_rearm}
use natto.Ebpf.Sessions.Expiry.{
  expiry_confirmation_ns, reverse_last_seen, rearm_session, confirm_expiry, expire_value,
  session_timer_callback,
}

active_test : (now seen t : ℕ) → now < seen + t → t ≢ 0 → ltb (now - seen) t ≡ true
active_test now seen t h pos = ground arith

pub idle_test : (now seen t : ℕ) → seen + t ≤ now → ltb (now - seen) t ≡ false
idle_test now seen t h = ground arith

pub unequal_test : (a b : ℕ) → a ≢ b → (a == b) ≡ false
unequal_test a b h = ground arith

-- The session with a timer that was just started, and an observation.
abbrev pub rearmed : (k : Kernel) → TimedFwdNatVal k.Timer → ℕ → ℕ → TimedFwdNatVal k.Timer
rearmed k value observed delay = record value {
  observed_last_seen_ns = observed;
  timer = (timer_rearm k value.timer delay).0;
}

pub equal_test : (a b : ℕ) → a ≡ b → (a == b) ≡ true
equal_test a b h = ground arith

module _ {k : Kernel} where
  -- When either direction of a session was last seen.
  abbrev pub last_seen : FwdNatKey → TimedFwdNatVal k.Timer → World k → ℕ
  last_seen key value w = max value.last_seen_ns (
      reverse_last_seen value.generation
        (k.nat_maps.get w.nat (nat_key value.ext_v4 value.ext_port key.proto)))

  rearm_session_at :
      (key : FwdNatKey) (observed delay : ℕ) (w : World k) (value : TimedFwdNatVal k.Timer)
      → k.fwd_maps.get w.fwd_nat key ≡ some value
      → rearm_session key observed delay w
        ≡ record w { fwd_nat = k.fwd_maps.write w.fwd_nat key (rearmed k value observed delay) }
  unfolding rearm_session
  rearm_session_at key observed delay w value h = ground arith

  module _ (key : FwdNatKey) (now : ℕ) (between : World k → World k) (w : World k)
      (value : TimedFwdNatVal k.Timer) (stored : k.fwd_maps.get w.fwd_nat key ≡ some value)
      (expires : session_timeout_ns (current_cfg w) ≢ 0) where
    callback_at :
        session_timer_callback key now between w
        ≡ expire_value key value (session_timeout_ns (current_cfg w)) now between w
    unfolding session_timer_callback
    callback_at = ground arith

    -- A session of which either direction was seen less than a timeout ago stays: the callback
    -- only clears its observation and starts its timer for the time that is left.
    pub callback_keeps_active :
        now < last_seen key value w + session_timeout_ns (current_cfg w)
        → session_timer_callback key now between w ≡ record w {
          fwd_nat = k.fwd_maps.write w.fwd_nat key (
              rearmed k value 0
                (session_timeout_ns (current_cfg w) - (now - last_seen key value w)));
        }
    unfolding expire_value
    callback_keeps_active active =
        callback_at
        ∙ (rw
            (active_test now (last_seen key value w) (session_timeout_ns (current_cfg w)) active
              expires)
            (rearm_session_at key 0 _ w value stored))

    -- A session that is found idle for the first time since it was last seen stays too: its
    -- time of last use is noted, and its timer is started for the confirmation interval.
    pub callback_observes_idle :
        last_seen key value w + session_timeout_ns (current_cfg w) ≤ now
        → value.observed_last_seen_ns ≢ last_seen key value w
        → session_timer_callback key now between w ≡ record w {
          fwd_nat =
              k.fwd_maps.write w.fwd_nat key
                (rearmed k value (last_seen key value w) expiry_confirmation_ns);
        }
    unfolding expire_value
    callback_observes_idle idle unobserved =
        callback_at
        ∙ (rw
            (
              idle_test now (last_seen key value w) (session_timeout_ns (current_cfg w)) idle,
              unequal_test value.observed_last_seen_ns (last_seen key value w) unobserved,
            )
            (rearm_session_at key (last_seen key value w) _ w value stored))

    -- The callback of a session that was found idle before goes on to its second reading.
    pub callback_confirms :
        last_seen key value w + session_timeout_ns (current_cfg w) ≤ now
        → value.observed_last_seen_ns ≡ last_seen key value w
        → session_timer_callback key now between w
          ≡ confirm_expiry key
              (nat_key value.ext_v4 value.ext_port key.proto)
              value.generation
              value.last_seen_ns
              (last_seen key value w)
              (session_timeout_ns (current_cfg w))
              now
              (between w)
    unfolding expire_value
    callback_confirms idle observed =
        callback_at
        ∙ (rw (
          idle_test now (last_seen key value w) (session_timeout_ns (current_cfg w)) idle,
          equal_test value.observed_last_seen_ns (last_seen key value w) observed,
        ))
