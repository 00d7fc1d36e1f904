-- ===== src/Ebpf/Sessions/Expiry.antt =====
-- natto64-ebpf/src/lib.rs: the timer callback that expires a session.
pub mod Laws
pub mod Removal
pub mod Seen
use natto.Common.{
  ℕ, ◌+◌, ◌-◌, max, Bool, true, false, not, ◌||◌, Option, none, some, ltb, ◌==◌, if◌then◌else◌,
}
use natto.Abi.{FwdNatKey, NatKey, NatVal, nat_key}
use natto.Ebpf.Kernel.{Kernel, TimedFwdNatVal}
use natto.Ebpf.World.{World}
use natto.Ebpf.Sessions.{session_timeout_ns, current_cfg, timer_rearm}

abbrev pub expiry_confirmation_ns : ℕ
expiry_confirmation_ns = 10_000_000

-- Is there a reverse entry, of the session's own generation?
unfoldable pub same_generation : ℕ → Option NatVal → Bool
same_generation generation none = false
same_generation generation (some reverse) = reverse.generation == generation

-- When it was last seen, and otherwise 0.
unfoldable pub reverse_last_seen : ℕ → Option NatVal → ℕ
reverse_last_seen generation none = 0
reverse_last_seen generation (some reverse) =
    if reverse.generation == generation then reverse.last_seen_ns else 0

module _ {k : Kernel} where
  -- Writes the observation and starts the timer of a session that stays.
  unfoldable pub rearm_session : FwdNatKey → ℕ → ℕ → World k → World k
  rearm_session key observed delay w = elim (k.fwd_maps.get w.fwd_nat key) [
    | none ↦ w
    | some value ↦ record w {
      fwd_nat = k.fwd_maps.write w.fwd_nat key (record value {
        observed_last_seen_ns = observed;
        timer = (timer_rearm k value.timer delay).0;
      });
    }
  ]

  -- The two removals.
  unfoldable pub remove_session : FwdNatKey → NatKey → Bool → World k → World k
  remove_session key reverse_key reverse_too w =
      let w' = if reverse_too then record w { nat = k.nat_maps.remove w.nat reverse_key } else w in
      record w' { fwd_nat = k.fwd_maps.remove w'.fwd_nat key }

  -- The second reading of a session that was found idle twice. `seen` is what the first reading
  -- found in the entry, which the callback still points to if the entry has gone.
  unfoldable pub confirm_expiry : FwdNatKey → NatKey → ℕ → ℕ → ℕ → ℕ → ℕ → World k → World k
  confirm_expiry key reverse_key generation seen latest timeout_ns now_ns w =
      let final_fwd_last_seen : ℕ = elim (k.fwd_maps.get w.fwd_nat key) [
        | none ↦ seen
        | some value ↦ value.last_seen_ns
      ] in
      let final_reverse = k.nat_maps.get w.nat reverse_key in
      let final_latest = max final_fwd_last_seen (reverse_last_seen generation final_reverse) in
      if not (final_latest == latest) || ltb (now_ns - final_latest) timeout_ns
      then rearm_session key 0 (timeout_ns - (now_ns - final_latest)) w
      else remove_session key reverse_key (same_generation generation final_reverse) w

  unfoldable pub expire_value :
      FwdNatKey → TimedFwdNatVal k.Timer → ℕ → ℕ → (World k → World k) → World k → World k
  expire_value key value timeout_ns now_ns between w =
      let reverse_key = nat_key value.ext_v4 value.ext_port key.proto in
      let latest =
        max value.last_seen_ns
          (reverse_last_seen value.generation (k.nat_maps.get w.nat reverse_key)) in
      let elapsed = now_ns - latest in
      if ltb elapsed timeout_ns
      then rearm_session key 0 (timeout_ns - elapsed) w
      else if not (value.observed_last_seen_ns == latest)
      then rearm_session key latest expiry_confirmation_ns w
      else confirm_expiry key reverse_key value.generation value.last_seen_ns latest timeout_ns
          now_ns (between w)

  -- `between` is what the other processors do between the two readings. A session that is not in
  -- the map stands for the null pointers of the code.
  unfoldable pub session_timer_callback : FwdNatKey → ℕ → (World k → World k) → World k → World k
  session_timer_callback key now_ns between w = elim (k.fwd_maps.get w.fwd_nat key) [
    | none ↦ w
    | some value ↦
        let timeout_ns = session_timeout_ns (current_cfg w) in
        if timeout_ns == 0 then w else expire_value key value timeout_ns now_ns between w
  ]
