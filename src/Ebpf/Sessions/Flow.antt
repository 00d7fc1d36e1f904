-- ===== src/Ebpf/Sessions/Flow.antt =====
-- The contract of `lookup_or_create_mapping` in natto64-ebpf/src/lib.rs, over several packets.
use natto.Common.{
  none-ne-some, ℕ, ◌≤◌, ◌≡◌, sym, ◌∙◌, ap, ap₂, inl, inr, [], ◌∷◌, Option, none, some, Option-cases,
  arith, false,
}
use natto.Abi.{Nat64Config, FwdNatKey, nat_key}
use natto.Abi.ProdCounters.{fwd_nat_lookup_miss, port_alloc_ok}
use natto.Ebpf.Kernel.{Kernel, IsLruMap}
use natto.Ebpf.World.{World, with_counters, with_counters-SameMaps}
use natto.Ebpf.Ports.{in_cooldown, alloc_port}
use natto.Ebpf.Ports.Laws.{alloc_port_sound}
use natto.Ebpf.Sessions.{
  timed_fwd_nat_val, finish_mapping, insert_mapping, create_mapping, lookup_or_create_mapping,
}
use natto.Ebpf.Sessions.Mapping.{
  Maps, Settled, lookup_or_create_mapping_hit, lookup_or_create_mapping-Settled,
}

module _ {k : Kernel} where
  finish_mapping_result :
      (cfg : Nat64Config) (key : FwdNatKey) (a p g : ℕ) (w : World k) {a' p' g' : ℕ}
      → (finish_mapping cfg key (a, p, g) w).1 ≡ some (a', p', g')
      → (a' ≡ a) × (p' ≡ p) × (g' ≡ g)
  unfolding finish_mapping
  finish_mapping_result cfg key a p g w h = ground arith

  insert_mapping_result :
      (cfg : Nat64Config) (key : FwdNatKey) (a p g now : ℕ) (w : World k) {a' p' g' : ℕ}
      → (insert_mapping cfg key a p g now w).1 ≡ some (a', p', g')
      → (a' ≡ a) × (p' ≡ p) × (g' ≡ g)
  unfolding insert_mapping
  insert_mapping_result cfg key a p g now w h =
      elim (Option-cases (k.fwd_maps.insert w.fwd_nat key (timed_fwd_nat_val k a p g now))) [
        | inl full ↦ absurd (none-ne-some (rw (full, insert_mapping) at h))
        | inr (inserted, e) ↦
            finish_mapping_result cfg key a p g (record w { fwd_nat = inserted })
              (rw (e, insert_mapping) at h)
      ]

  -- The allocation that a new mapping rests on.
  create_mapping_result :
      (cfg : Nat64Config) (key : FwdNatKey) (selected proto now prandom : ℕ) (w : World k)
      {a p g : ℕ}
      → (create_mapping cfg key selected proto now prandom w).1 ≡ some (a, p, g)
      → (a ≡ selected)
        × (g ≡ prandom)
        × ((alloc_port cfg selected proto (with_counters (fwd_nat_lookup_miss ∷ []) [] w)).1
            ≡ some p)
  unfolding create_mapping
  create_mapping_result cfg key selected proto now prandom w h =
      let r = alloc_port cfg selected proto (with_counters (fwd_nat_lookup_miss ∷ []) [] w) in
      elim (Option-cases r.1) [
        | inl none_left ↦ absurd (none-ne-some (rw (none_left, create_mapping) at h))
        | inr (port, e) ↦
            let (address, same_port, generation) =
              insert_mapping_result cfg key selected port prandom now
                (with_counters (port_alloc_ok ∷ []) [] r.0) (rw (e, create_mapping) at h) in
            (address, generation, e ∙ ap some (sym same_port))
      ]

  Settled-some :
      (key : FwdNatKey) (v : World k) (r : Option (ℕ × ℕ × ℕ)) {a p g : ℕ}
      → r ≡ some (a, p, g)
      → Settled key (v, r)
      → Maps v key a p g
  Settled-some key v r e s = rw e at s

  -- What may happen after a packet of a flow: more packets of it, whatever the configuration, the time
  -- and the address selected then, and any change of the state that leaves its entry of the forward
  -- map, so those of packets of other flows, of replies and of the counters.
  pub data Later (key : FwdNatKey) (v : World k) : World k → Type 0 where
    here : Later key v v
    packet :
        {u t : World k}
        → Later key v u
        → (cfg : Nat64Config) (selected proto now prandom : ℕ)
        → t ≡ (lookup_or_create_mapping cfg key selected proto now prandom u).0
        → Later key v t
    elsewhere :
        {u t : World k}
        → Later key v u
        → k.fwd_maps.get t.fwd_nat key ≡ k.fwd_maps.get u.fwd_nat key
        → Later key v t

  -- The mapping of an entry is what a packet of its flow gets, and what it leaves.
  mapped_again :
      (laws : IsLruMap k.fwd_maps) (cfg : Nat64Config) (key : FwdNatKey)
      (selected proto now prandom : ℕ) (u : World k) {a p g : ℕ}
      → Maps u key a p g
      → (lookup_or_create_mapping cfg key selected proto now prandom u).1 ≡ some (a, p, g)
  mapped_again laws cfg key selected proto now prandom u m =
      (lookup_or_create_mapping_hit cfg key selected proto now prandom u m.value m.stored).0
      ∙ ap some (λ i. (m.has_ext_v4 i, m.has_ext_port i, m.has_generation i))

  Later-Maps :
      (laws : IsLruMap k.fwd_maps) (key : FwdNatKey) {v u : World k} {a p g : ℕ}
      → Maps v key a p g
      → Later key v u
      → Maps u key a p g
  Later-Maps laws key m here = m
  Later-Maps laws key m (packet {u} later cfg selected proto now prandom e) =
      let again =
        mapped_again laws cfg key selected proto now prandom u (Later-Maps laws key m later) in
      rw e (
        Settled-some key _ _ again
          (lookup_or_create_mapping-Settled laws cfg key selected proto now prandom u))
  Later-Maps laws key m (elsewhere later e) =
      let held = Later-Maps laws key m later in
      record {
        value = held.value;
        stored = e ∙ held.stored;
        has_ext_v4 = held.has_ext_v4;
        has_ext_port = held.has_ext_port;
        has_generation = held.has_generation;
      }

  -- A mapping that a call returns is the one that every later packet of the flow gets, whatever the
  -- configuration, the time and the address selected then, and however many packets of it came in
  -- between, while everything else leaves the flow's entry of the forward map as it is.
  pub lookup_or_create_mapping_stable :
      (laws : IsLruMap k.fwd_maps) (cfg cfg' : Nat64Config) (key : FwdNatKey)
      (selected proto now prandom selected' proto' now' prandom' : ℕ) (w u : World k) {a p g : ℕ}
      → (lookup_or_create_mapping cfg key selected proto now prandom w).1 ≡ some (a, p, g)
      → Later key (lookup_or_create_mapping cfg key selected proto now prandom w).0 u
      → (lookup_or_create_mapping cfg' key selected' proto' now' prandom' u).1 ≡ some (a, p, g)
  lookup_or_create_mapping_stable laws cfg cfg' key selected proto now prandom selected' proto' now'
        prandom' w u h later =
      mapped_again laws cfg' key selected' proto' now' prandom' u (
        Later-Maps laws key
          (Settled-some key _ _ h
            (lookup_or_create_mapping-Settled laws cfg key selected proto now prandom w))
          later)

  pub lookup_miss :
      (cfg : Nat64Config) (key : FwdNatKey) (selected proto now prandom : ℕ) (w : World k)
      → k.fwd_maps.get w.fwd_nat key ≡ none
      → lookup_or_create_mapping cfg key selected proto now prandom w
        ≡ create_mapping cfg key selected proto now prandom w
  unfolding lookup_or_create_mapping
  lookup_miss cfg key selected proto now prandom w miss = rw (miss, lookup_or_create_mapping)

  -- A new flow that gets a mapping gets the address that was selected, the generation drawn, and a
  -- port of the configured range that is not cooling down and for which the reverse map has no entry
  -- under that address and protocol.
  pub lookup_or_create_mapping_fresh :
      (cfg : Nat64Config) (key : FwdNatKey) (selected proto now prandom : ℕ) (w : World k)
      {a p g : ℕ}
      → k.fwd_maps.get w.fwd_nat key ≡ none
      → (lookup_or_create_mapping cfg key selected proto now prandom w).1 ≡ some (a, p, g)
      → (a ≡ selected)
        × (g ≡ prandom)
        × (cfg.port_min ≤ p)
        × (p ≤ cfg.port_max)
        × (in_cooldown w.port_cooldown p ≡ false)
        × (k.nat_maps.get w.nat (nat_key a p proto) ≡ none)
  lookup_or_create_mapping_fresh cfg key selected proto now prandom w {a} {p} {g} miss h =
      let w1 = with_counters (fwd_nat_lookup_miss ∷ []) [] w in
      let same = with_counters-SameMaps (fwd_nat_lookup_miss ∷ []) [] w in
      let (address, generation, allocated) =
        create_mapping_result cfg key selected proto now prandom w
          (ap (λ r. r.1) (sym (lookup_miss cfg key selected proto now prandom w miss)) ∙ h) in
      let (low, high, cool, unused, _, _, _) =
        alloc_port_sound cfg selected proto w1 {port = p} {v = (alloc_port cfg selected proto w1).0}
          (λ i. ((alloc_port cfg selected proto w1).0, allocated i)) in
      (
        address,
        generation,
        low,
        high,
        ap (λ c. in_cooldown c p) (sym same.same_cooldown) ∙ cool,
        ap₂ (λ m x. k.nat_maps.get m (nat_key x p proto)) (sym same.same_nat) address ∙ unused,
      )
