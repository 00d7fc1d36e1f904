-- ===== src/Ebpf/Consistent/Expiry.antt =====
-- The timer callback and the classifier of replies in natto64-ebpf/src/lib.rs keep the state
-- consistent.
use natto.Common.{
  ℕ, inl, inr, Bool, true, false, not, ltb, ◌==◌, if◌then◌else◌, max, ◌-◌, Bool-cases, Option-cases,
}
use natto.Abi.{Nat64Config, NatKey, FwdNatKey, nat_key}
use natto.Abi.Keys.{NatKey-discrete, FwdNatKey-discrete}
use natto.Ebpf.Kernel.{Kernel, IsLruMap, TimedFwdNatVal}
use natto.Ebpf.World.{World}
use natto.Ebpf.Sessions.{session_timeout_ns, current_cfg}
use natto.Ebpf.Sessions.Expiry.{
  expiry_confirmation_ns, reverse_last_seen, rearm_session, remove_session, confirm_expiry,
  expire_value, session_timer_callback,
}
use natto.Ebpf.Reverse.{try_nat64_reverse}
use natto.Ebpf.Reverse.Guard.{try_nat64_reverse-Verdict}
use natto.Ebpf.Consistent.{
  AllEntries-write, AllEntries-remove, FwdOk, NatOk, IsConsistent, searched-IsConsistent,
  SameMaps-IsConsistent, with_fwd-IsConsistent, with_nat-IsConsistent,
}

module _ {k : Kernel} (fwd_laws : IsLruMap k.fwd_maps) (nat_laws : IsLruMap k.nat_maps)
    (cfg : Nat64Config) where
  rearm_session-IsConsistent :
      (key : FwdNatKey) (observed delay : ℕ) (w : World k)
      → IsConsistent cfg w
      → IsConsistent cfg (rearm_session key observed delay w)
  unfolding rearm_session
  rearm_session-IsConsistent key observed delay w c =
      elim (Option-cases (k.fwd_maps.get w.fwd_nat key)) [
        | inl miss ↦ rw (miss, rearm_session) c
        | inr (value, stored) ↦
            rw (stored, rearm_session)
              (with_fwd-IsConsistent cfg _ c (
                AllEntries-write k.fwd_maps (FwdOk k cfg) fwd_laws FwdNatKey-discrete w.fwd_nat key
                  _ c.fwd_ok stored (c.fwd_ok key value stored)))
      ]

  remove_forward :
      (key : FwdNatKey) {w : World k}
      → IsConsistent cfg w
      → IsConsistent cfg (record w { fwd_nat = k.fwd_maps.remove w.fwd_nat key })
  remove_forward key {w} c = with_fwd-IsConsistent cfg _ c (
      AllEntries-remove k.fwd_maps (FwdOk k cfg) fwd_laws FwdNatKey-discrete w.fwd_nat key c.fwd_ok)

  remove_session-IsConsistent :
      (key : FwdNatKey) (reverse_key : NatKey) (both : Bool) (w : World k)
      → IsConsistent cfg w
      → IsConsistent cfg (remove_session key reverse_key both w)
  unfolding remove_session
  remove_session-IsConsistent key reverse_key true w c = remove_forward key (
      with_nat-IsConsistent cfg _ c (
        AllEntries-remove k.nat_maps (NatOk k cfg) nat_laws NatKey-discrete w.nat reverse_key
          c.nat_ok))
  remove_session-IsConsistent key reverse_key false w c = remove_forward key c

  if_IsConsistent :
      (b : Bool) (v w : World k)
      → IsConsistent cfg v
      → IsConsistent cfg w
      → IsConsistent cfg (if b then v else w)
  if_IsConsistent true v w cv cw = cv
  if_IsConsistent false v w cv cw = cw

  confirm_expiry-IsConsistent :
      (key : FwdNatKey) (reverse_key : NatKey) (generation seen latest timeout now : ℕ)
      (w : World k)
      → IsConsistent cfg w
      → IsConsistent cfg (confirm_expiry key reverse_key generation seen latest timeout now w)
  unfolding confirm_expiry
  confirm_expiry-IsConsistent key reverse_key generation seen latest timeout now w c =
      if_IsConsistent _ _ _ (rearm_session-IsConsistent key 0 _ w c)
        (remove_session-IsConsistent key reverse_key _ w c)

  expire_value-IsConsistent :
      (key : FwdNatKey) (value : TimedFwdNatVal k.Timer) (timeout now : ℕ)
      (between : World k → World k) (w : World k)
      → IsConsistent cfg w
      → IsConsistent cfg (between w)
      → IsConsistent cfg (expire_value key value timeout now between w)
  unfolding expire_value
  expire_value-IsConsistent key value timeout now between w c c' =
      let reverse_key = nat_key value.ext_v4 value.ext_port key.proto in
      let latest =
        max value.last_seen_ns
          (reverse_last_seen value.generation (k.nat_maps.get w.nat reverse_key)) in
      let confirmed =
        confirm_expiry-IsConsistent key reverse_key value.generation value.last_seen_ns latest
          timeout now (between w) c' in
      let observed = rearm_session-IsConsistent key latest expiry_confirmation_ns w c in
      let active = rearm_session-IsConsistent key 0 (timeout - (now - latest)) w c in
      elim (Bool-cases (ltb (now - latest) timeout)) [
        | inl e ↦ rw e active
        | inr e ↦ elim (Bool-cases (not (value.observed_last_seen_ns == latest))) [
          | inl f ↦ rw (e, f) observed
          | inr f ↦ rw (e, f) confirmed
        ]
      ]

  -- The callback keeps a consistent state, if what happens between its two readings does.
  pub session_timer_callback-IsConsistent :
      (key : FwdNatKey) (now : ℕ) (between : World k → World k) (w : World k)
      → IsConsistent cfg w
      → IsConsistent cfg (between w)
      → IsConsistent cfg (session_timer_callback key now between w)
  unfolding session_timer_callback
  session_timer_callback-IsConsistent key now between w c c' =
      elim (Option-cases (k.fwd_maps.get w.fwd_nat key)) [
        | inl miss ↦ rw (miss, session_timer_callback) c
        | inr (value, stored) ↦
            rw (stored, session_timer_callback)
              (if_IsConsistent (session_timeout_ns (current_cfg w) == 0) w
                (expire_value key value (session_timeout_ns (current_cfg w)) now between w) c
                (expire_value-IsConsistent key value _ now between w c c'))
      ]

  -- So does the classifier of replies, whatever packet it is given.
  pub try_nat64_reverse-IsConsistent :
      (skb : k.Skb) (now : ℕ) (w : World k)
      → IsConsistent cfg w
      → IsConsistent cfg (try_nat64_reverse skb now w).0
  try_nat64_reverse-IsConsistent skb now w c = elim (try_nat64_reverse-Verdict w skb now) [
    | inl passed ↦ SameMaps-IsConsistent cfg passed.same_maps c
    | inr a ↦
        let stored = a.reply.stored in
        searched-IsConsistent cfg
          (with_nat-IsConsistent cfg _ c (
            AllEntries-write k.nat_maps (NatOk k cfg) nat_laws NatKey-discrete w.nat _ _ c.nat_ok
              stored (c.nat_ok _ a.value stored)))
          a.same_config a.same_fwd a.refreshed
  ]
