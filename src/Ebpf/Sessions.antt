-- ===== src/Ebpf/Sessions.antt =====
-- natto64-ebpf/src/lib.rs: the sessions of the forward map, and the timers that they are armed with.
pub mod Mapping
pub mod Flow
pub mod Expiry
use natto.Common.{
  ℕ, ◌+◌, ◌*◌, max, List, [], ◌∷◌, Bool, true, false, not, ◌&&◌, Option, none, some, ◌==◌,
  if◌then◌else◌, saturating_mul, from_be_bytes32, replicate,
}
use mathlib.Core.Option
use natto.Abi.{Nat64Config, FwdNatKey, v4_select_policy_hash_vm_v6}
use natto.Abi.ProdCounters.{
  fwd_nat_lookup_hit, fwd_nat_refresh_ok, fwd_nat_lookup_miss, port_alloc_ok, port_alloc_err,
  fwd_nat_insert_err, fwd_nat_insert_ok,
}
use natto.Ebpf.Kernel.{Kernel, TimedFwdNatVal}
use natto.Ebpf.World.{World, with_counters}
use natto.Ebpf.Ports.{alloc_port}

-- The configuration that is used until userspace has written one.
unfoldable pub default_cfg : Nat64Config
default_cfg = record {
  prefix96 = 0x00 ∷ 0x64 ∷ 0xff ∷ 0x9b ∷ replicate 8 0;
  v4_pool = from_be_bytes32 203 0 113 10 ∷ replicate 15 0;
  v4_pool_len = 1;
  port_min = 20_000;
  port_max = 60_000;
  session_timeout_secs = 0;
  v4_policy = v4_select_policy_hash_vm_v6;
  bridge_ifindex = 0;
  uplink_ifindex = 0;
  pad = 0 ∷ 0 ∷ 0 ∷ [];
}

unfoldable pub session_timeout_ns : Nat64Config → ℕ
session_timeout_ns cfg = saturating_mul cfg.session_timeout_secs 1_000_000_000

module _ {k : Kernel} where
  -- `CONFIG.get(&CONFIG_KEY).unwrap_or(&DEFAULT_CFG)`.
  unfoldable pub current_cfg : World k → Nat64Config
  current_cfg w = Option.get_or w.config default_cfg

module _ (k : Kernel) where
  -- `TimedFwdNatVal::new`.
  unfoldable pub timed_fwd_nat_val : ℕ → ℕ → ℕ → ℕ → TimedFwdNatVal k.Timer
  timed_fwd_nat_val ext_v4 ext_port generation last_seen_ns = record {
    ext_v4 = ext_v4;
    ext_port = ext_port;
    pad = 0;
    last_seen_ns = last_seen_ns;
    generation = generation;
    pad2 = 0;
    observed_last_seen_ns = 0;
    timer = k.zeroed;
  }

  -- A timer after an attempt to start it, and whether that succeeded.
  unfoldable pub timer_rearm : k.Timer → ℕ → k.Timer × Bool
  timer_rearm timer delay_ns = elim (k.timer_start timer (max delay_ns 1)) [
    | none ↦ (timer, false)
    | some started ↦ (started, true)
  ]

  -- The three helper calls that arm the timer of a new session.
  unfoldable pub arm_timer : k.Timer → ℕ → k.Timer × Bool
  arm_timer timer delay_ns = elim (k.timer_init timer) [
    | none ↦ (timer, false)
    | some ready ↦ elim (k.timer_set_callback ready) [
      | none ↦ (ready, false)
      | some hooked ↦ timer_rearm hooked delay_ns
    ]
  ]

module _ {k : Kernel} where
  unfoldable pub arm_session_timer : FwdNatKey → World k → World k × Bool
  arm_session_timer key w = elim (k.fwd_maps.get w.fwd_nat key) [
    | none ↦ (w, false)
    | some value ↦
        let (timer, armed) = arm_timer k value.timer (session_timeout_ns (current_cfg w)) in
        (
          record w { fwd_nat = k.fwd_maps.write w.fwd_nat key (record value { timer = timer }) },
          armed,
        )
  ]

  -- What follows an insertion that succeeded: the timer, where sessions expire.
  unfoldable pub finish_mapping :
      Nat64Config → FwdNatKey → ℕ × ℕ × ℕ → World k → World k × Option (ℕ × ℕ × ℕ)
  finish_mapping cfg key mapping w =
      let (w', armed) =
        if cfg.session_timeout_secs == 0 then (w, true) else arm_session_timer key w in
      if armed then (with_counters (fwd_nat_insert_ok ∷ []) [] w', some mapping) else (
        with_counters (fwd_nat_insert_err ∷ []) []
            (record w' { fwd_nat = k.fwd_maps.remove w'.fwd_nat key }),
        none,
      )

  -- What follows an allocation that succeeded.
  unfoldable pub insert_mapping :
      Nat64Config → FwdNatKey → ℕ → ℕ → ℕ → ℕ → World k → World k × Option (ℕ × ℕ × ℕ)
  insert_mapping cfg key ext_v4 ext_port generation now_ns w =
      let value = timed_fwd_nat_val k ext_v4 ext_port generation now_ns in
      elim (k.fwd_maps.insert w.fwd_nat key value) [
        | none ↦ (with_counters (fwd_nat_insert_err ∷ []) [] w, none)
        | some inserted ↦
            finish_mapping cfg key (ext_v4, ext_port, generation) (record w { fwd_nat = inserted })
      ]

  unfoldable pub create_mapping :
      Nat64Config → FwdNatKey → ℕ → ℕ → ℕ → ℕ → World k → World k × Option (ℕ × ℕ × ℕ)
  create_mapping cfg key selected_ext_v4 proto now_ns prandom w =
      let (w', port) =
        alloc_port cfg selected_ext_v4 proto (with_counters (fwd_nat_lookup_miss ∷ []) [] w) in
      elim port [
        | none ↦ (with_counters (port_alloc_err ∷ []) [] w', none)
        | some ext_port ↦
            insert_mapping cfg key selected_ext_v4 ext_port prandom now_ns
              (with_counters (port_alloc_ok ∷ []) [] w')
      ]

  -- `prandom` is the number that `bpf_get_prandom_u32` returns.
  unfoldable pub lookup_or_create_mapping :
      Nat64Config → FwdNatKey → ℕ → ℕ → ℕ → ℕ → World k → World k × Option (ℕ × ℕ × ℕ)
  lookup_or_create_mapping cfg key selected_ext_v4 proto now_ns prandom w =
      elim (k.fwd_maps.get w.fwd_nat key) [
        | none ↦ create_mapping cfg key selected_ext_v4 proto now_ns prandom w
        | some existing ↦
            let seen = record existing { last_seen_ns = now_ns; observed_last_seen_ns = 0 } in
            (
              with_counters (fwd_nat_lookup_hit ∷ fwd_nat_refresh_ok ∷ []) []
                  (record w { fwd_nat = k.fwd_maps.write w.fwd_nat key seen }),
              some (existing.ext_v4, existing.ext_port, existing.generation),
            )
      ]
