-- ===== src/Ebpf/Sessions/Expiry/Removal.antt =====
-- The expiry of an idle session by the timer callback of natto64-ebpf/src/lib.rs.
use natto.Common.{
  ℕ, ◌+◌, ◌≤◌, max, ◌≡◌, ◌≢◌, refl, ◌∙◌, Bool, true, false, none, some, if◌then◌else◌, arith,
}
use natto.Abi.{FwdNatKey, NatKey, nat_key}
use natto.Ebpf.Kernel.{Kernel, IsLruMap, TimedFwdNatVal}
use natto.Ebpf.World.{World}
use natto.Ebpf.Sessions.{session_timeout_ns, current_cfg}
use natto.Ebpf.Sessions.Expiry.{
  expiry_confirmation_ns, same_generation, reverse_last_seen, remove_session, confirm_expiry,
  session_timer_callback,
}
use natto.Ebpf.Sessions.Expiry.Laws.{
  last_seen, rearmed, idle_test, equal_test, callback_confirms, callback_observes_idle,
}

module _ {k : Kernel} where
  confirm_idle :
      (key : FwdNatKey) (reverse_key : NatKey) (generation seen latest timeout now : ℕ)
      (w : World k) (value : TimedFwdNatVal k.Timer)
      → k.fwd_maps.get w.fwd_nat key ≡ some value
      → max value.last_seen_ns (reverse_last_seen generation (k.nat_maps.get w.nat reverse_key))
        ≡ latest
      → latest + timeout ≤ now
      → confirm_expiry key reverse_key generation seen latest timeout now w
        ≡ remove_session key reverse_key
            (same_generation generation (k.nat_maps.get w.nat reverse_key))
            w
  unfolding confirm_expiry
  confirm_idle key reverse_key generation seen latest timeout now w value stored same idle =
      rw (stored, same, equal_test latest latest refl, idle_test now latest timeout idle)

  remove_session_maps :
      (laws : IsLruMap k.fwd_maps) (key : FwdNatKey) (reverse_key : NatKey) (both : Bool)
      (w : World k)
      → let v = remove_session key reverse_key both w in
        (k.fwd_maps.get v.fwd_nat key ≡ none)
        × (v.nat ≡ (if both then k.nat_maps.remove w.nat reverse_key else w.nat))
  unfolding remove_session
  remove_session_maps laws key reverse_key true w = (laws.get-remove_self w.fwd_nat key, refl)
  remove_session_maps laws key reverse_key false w = (laws.get-remove_self w.fwd_nat key, refl)

  -- What an expiry leaves: no forward entry of the flow; and the entry of its external tuple in
  -- the reverse map is removed if it is of the same generation, and kept if the tuple has been
  -- used again since.
  abbrev pub IsExpired : FwdNatKey → TimedFwdNatVal k.Timer → World k → World k → Type 0
  IsExpired key value w v =
      let reverse_key = nat_key value.ext_v4 value.ext_port key.proto in
      (k.fwd_maps.get v.fwd_nat key ≡ none)
      × (v.nat ≡ (
          if same_generation value.generation (k.nat_maps.get w.nat reverse_key)
          then k.nat_maps.remove w.nat reverse_key
          else w.nat))

  -- A session that has been idle for the timeout, and was found so before, is removed if nothing
  -- happens between the two readings of the callback.
  pub callback_expires :
      (laws : IsLruMap k.fwd_maps) (key : FwdNatKey) (now : ℕ) (w : World k)
      (value : TimedFwdNatVal k.Timer)
      → k.fwd_maps.get w.fwd_nat key ≡ some value
      → session_timeout_ns (current_cfg w) ≢ 0
      → last_seen key value w + session_timeout_ns (current_cfg w) ≤ now
      → value.observed_last_seen_ns ≡ last_seen key value w
      → IsExpired key value w (session_timer_callback key now (λ u. u) w)
  callback_expires laws key now w value stored expires idle observed =
      rw
        (callback_confirms key now (λ u. u) w value stored expires idle observed
          ∙ confirm_idle key _ value.generation value.last_seen_ns (last_seen key value w) _ now w
              value stored refl idle)
        (remove_session_maps laws key _ _ w)

  -- The world in which an idle session was observed.
  observed_world : FwdNatKey → TimedFwdNatVal k.Timer → World k → World k
  observed_world key value w = record w {
    fwd_nat =
        k.fwd_maps.write w.fwd_nat key
          (rearmed k value (last_seen key value w) expiry_confirmation_ns);
  }

  -- A session that has been idle for the timeout, but was not noted at its time of last use, is
  -- removed by two runs of the callback with nothing in between, whatever was noted before.
  pub callback_twice_expires :
      (laws : IsLruMap k.fwd_maps) (key : FwdNatKey) (now later : ℕ) (w : World k)
      (value : TimedFwdNatVal k.Timer)
      → k.fwd_maps.get w.fwd_nat key ≡ some value
      → session_timeout_ns (current_cfg w) ≢ 0
      → last_seen key value w + session_timeout_ns (current_cfg w) ≤ now
      → value.observed_last_seen_ns ≢ last_seen key value w
      → now ≤ later
      → IsExpired key value w
          (session_timer_callback key later (λ u. u) (session_timer_callback key now (λ u. u) w))
  unfolding observed_world current_cfg
  callback_twice_expires laws key now later w value stored expires idle unobserved order =
      rw (callback_observes_idle key now (λ u. u) w value stored expires idle unobserved) (
        callback_expires laws key later (observed_world key value w)
          (rearmed k value (last_seen key value w) expiry_confirmation_ns)
          (laws.get-write_self w.fwd_nat key _ stored) expires (omega arith) refl)
