-- ===== src/Ebpf/Ports.antt =====
-- natto64-ebpf/src/lib.rs: the allocator of external ports.
pub mod Search
pub mod Laws
use natto.Common.{
  ℕ, zero, suc, ◌+◌, ◌-◌, ◌%◌, List, [], ◌∷◌, Bool, true, false, Option, none, some, leb, ltb,
  if◌then◌else◌, is_some, wrapping_add32,
}
use natto.Abi.{Nat64Config, PortCooldownRing, nat_key}
use natto.Abi.ProdCounters.{port_alloc_exhausted}
use natto.Abi.DebugCounters.{
  port_alloc_probe, port_alloc_collide, cooldown_skip, cooldown_probe_more, cooldown_push_ok,
  cooldown_push_err,
}
use natto.Ebpf.Cooldown.{cooldown_contains, cooldown_push}
use natto.Ebpf.Kernel.{Kernel}
use natto.Ebpf.World.{World, with_counters}

-- The test of the cooldown ring, where there is one.
unfoldable pub in_cooldown : Option PortCooldownRing → ℕ → Bool
in_cooldown none port = false
in_cooldown (some ring) port = cooldown_contains ring port

module _ {k : Kernel} where
  -- What the allocator does with the port it has found.
  unfoldable pub take_port : ℕ → Bool → World k → World k × Option ℕ
  take_port port had_cooldown_skip w =
      let w' = if had_cooldown_skip then with_counters [] (cooldown_probe_more ∷ []) w else w in
      elim w'.port_cooldown [
        | some ring ↦ (
          with_counters [] (cooldown_push_ok ∷ [])
              (record w' { port_cooldown = some (cooldown_push ring port) }),
          some port,
        )
        | none ↦ (with_counters [] (cooldown_push_err ∷ []) w', some port)
      ]

  -- The loop over the probes that are left.
  unfoldable pub probe_loop : ℕ → Nat64Config → ℕ → ℕ → ℕ → ℕ → Bool → World k → World k × Option ℕ
  probe_loop zero cfg span ext_v4 proto cursor had_cooldown_skip w =
      (with_counters (port_alloc_exhausted ∷ []) [] (record w { port_cursor = some cursor }), none)
  probe_loop (suc left) cfg span ext_v4 proto cursor had_cooldown_skip w =
      let cursor' = wrapping_add32 cursor 1 in
      let candidate = cfg.port_min + cursor' % span in
      let probed = record (with_counters [] (port_alloc_probe ∷ []) w) {
        port_cursor = some cursor';
      } in
      elim (ltb 65535 candidate) [
        | true ↦ probe_loop left cfg span ext_v4 proto cursor' had_cooldown_skip probed
        | false ↦ elim (in_cooldown probed.port_cooldown candidate) [
          | true ↦
              probe_loop left cfg span ext_v4 proto cursor' true
                (with_counters [] (cooldown_skip ∷ []) probed)
          | false ↦ elim (is_some (k.nat_maps.get probed.nat (nat_key ext_v4 candidate proto))) [
            | true ↦
                probe_loop left cfg span ext_v4 proto cursor' had_cooldown_skip
                  (with_counters [] (port_alloc_collide ∷ []) probed)
            | false ↦ take_port candidate had_cooldown_skip probed
          ]
        ]
      ]

  unfoldable pub alloc_port : Nat64Config → ℕ → ℕ → World k → World k × Option ℕ
  alloc_port cfg ext_v4 proto w =
      if leb cfg.port_max cfg.port_min then (w, none) else elim w.port_cursor [
        | none ↦ (w, none)
        | some cursor ↦
            probe_loop 16 cfg (cfg.port_max - cfg.port_min + 1) ext_v4 proto cursor false w
      ]
