-- ===== src/Ebpf/Ports/Laws.antt =====
-- The contract of the port allocator of natto64-ebpf/src/lib.rs.
use mathlib.Core.Option
use native.Mathlib.Nat.{mod-lt}
use natto.Common.{
  ℕ, zero, suc, ◌+◌, ◌-◌, ◌%◌, ◌^◌, ◌≤◌, ◌<◌, ◌≡◌, refl, sym, ◌∙◌, ap, inl, inr, ◌⊎◌, Bool, true,
  false, Option, none, some, leb, if◌then◌else◌, wrapping_add32, Bool-cases, Option-cases, arith,
}
use natto.Abi.{Nat64Config, nat_key}
use natto.Ebpf.Cooldown.{cooldown_push}
use natto.Ebpf.Kernel.{Kernel}
use natto.Ebpf.World.{World}
use natto.Ebpf.Ports.{in_cooldown, alloc_port}
use natto.Ebpf.Ports.Search.{blocked, first_free, Searched, probe_loop-Searched}

-- The number of ports in the range of a configuration.
abbrev pub span : Nat64Config → ℕ
span cfg = cfg.port_max - cfg.port_min + 1

-- The candidate of probe `i`, for the value that the cursor has before the call.
abbrev pub candidate : Nat64Config → ℕ → ℕ → ℕ
candidate cfg cursor i = cfg.port_min + (cursor + 1 + i) % 2 ^ 32 % span cfg

branch_found :
    (b : Bool) (rest : Option ℕ) (c : ℕ) {port : ℕ}
    → (if b then rest else some c) ≡ some port
    → ((b ≡ true) × (rest ≡ some port)) ⊎ ((b ≡ false) × (c ≡ port))
branch_found true rest c h = inl (refl, h)
branch_found false rest c h = inr (refl, cc)

module _ {k : Kernel} where
  -- The port that an allocation has to find.
  unfoldable pub allocation : Nat64Config → ℕ → ℕ → World k → Option ℕ
  allocation cfg ext_v4 proto w =
      if leb cfg.port_max cfg.port_min then none else elim w.port_cursor [
        | none ↦ none
        | some cursor ↦ first_free 16 cfg (span cfg) ext_v4 proto cursor w
      ]

  -- An allocation returns the first port that is neither in use nor cooling down among the
  -- candidates of the next 16 cursor values, and no port for an empty or a one-port range or
  -- without a cursor. It adds that port to the cooldown ring, and changes neither the
  -- configuration nor a translation map.
  pub alloc_port-Searched :
      (cfg : Nat64Config) (ext_v4 proto : ℕ) (w : World k)
      → Searched w (alloc_port cfg ext_v4 proto w) (allocation cfg ext_v4 proto w)
  unfolding alloc_port allocation
  alloc_port-Searched cfg ext_v4 proto w = elim (Option-cases w.port_cursor) [
    | inl e ↦ ground arith
    | inr (cursor, e) ↦
        ground (arith, probe_loop-Searched cfg (span cfg) ext_v4 proto 16 cursor false w)
  ]

  module _ (cfg : Nat64Config) (ext_v4 proto : ℕ) (w : World k) where
    first_free_sound :
        (left cursor : ℕ) {port : ℕ}
        → cfg.port_min < cfg.port_max
        → first_free left cfg (span cfg) ext_v4 proto cursor w ≡ some port
        → (cfg.port_min ≤ port) × (port ≤ cfg.port_max) × (blocked ext_v4 proto w port ≡ false)
    unfolding first_free
    first_free_sound zero cursor range h = cc
    first_free_sound (suc left) cursor range h =
        let port' = cfg.port_min + wrapping_add32 cursor 1 % span cfg in
        let at_most : wrapping_add32 cursor 1 % span cfg < span cfg = mod-lt _ (omega arith) in
        elim (branch_found (blocked ext_v4 proto w port') _ port' h) [
          | inl (full, later) ↦ first_free_sound left (wrapping_add32 cursor 1) range later
          | inr (open_port, same) ↦
              (omega arith, omega arith, ap (blocked ext_v4 proto w) (sym same) ∙ open_port)
        ]

    first_free_total :
        (left cursor i : ℕ)
        → i < left
        → cursor < 2 ^ 32
        → blocked ext_v4 proto w (candidate cfg cursor i) ≡ false
        → (port : ℕ) × (first_free left cfg (span cfg) ext_v4 proto cursor w ≡ some port)
    unfolding first_free
    first_free_total zero cursor i h c free = elim h [ ]
    first_free_total (suc left) cursor zero h c free =
        let here : candidate cfg cursor 0 ≡ cfg.port_min + wrapping_add32 cursor 1 % span cfg =
          ap (λ (t : ℕ). cfg.port_min + t % 2 ^ 32 % span cfg) (omega arith) in
        (cfg.port_min + wrapping_add32 cursor 1 % span cfg, rw (rw here at free))
    first_free_total (suc left) cursor (suc i) h c free =
        let later : candidate cfg cursor (suc i) ≡ candidate cfg (wrapping_add32 cursor 1) i =
          ap (λ (t : ℕ). cfg.port_min + t % span cfg) (omega arith) in
        let rest =
          first_free_total left (wrapping_add32 cursor 1) i (omega arith) (omega arith)
            (rw later at free) in
        elim (Bool-cases
          (blocked ext_v4 proto w (cfg.port_min + wrapping_add32 cursor 1 % span cfg))) [
            | inl full ↦ (rest.0, rw full rest.1)
            | inr open_port ↦ (cfg.port_min + wrapping_add32 cursor 1 % span cfg, rw open_port)
          ]

    first_free-none :
        (left cursor : ℕ)
        → ((i : ℕ) → i < span cfg → blocked ext_v4 proto w (cfg.port_min + i) ≡ true)
        → first_free left cfg (span cfg) ext_v4 proto cursor w ≡ none
    unfolding first_free
    first_free-none zero cursor all = refl
    first_free-none (suc left) cursor all =
        rw (all (wrapping_add32 cursor 1 % span cfg) (mod-lt _ (omega arith)))
          (first_free-none left (wrapping_add32 cursor 1) all)

  -- An allocation that finds a port searches from a cursor, in a range of more than one port.
  allocation_found :
      (cfg : Nat64Config) (ext_v4 proto : ℕ) (w : World k) {port : ℕ}
      → allocation cfg ext_v4 proto w ≡ some port
      → (cfg.port_min < cfg.port_max)
        × ((cursor : ℕ) × (first_free 16 cfg (span cfg) ext_v4 proto cursor w ≡ some port))
  unfolding allocation
  allocation_found cfg ext_v4 proto w h = elim (Option-cases w.port_cursor) [
    | inl e ↦ absurd (ground arith)
    | inr (cursor, e) ↦ (ground arith, (cursor, ground arith))
  ]

  cooling_blocked :
      (ext_v4 proto : ℕ) (w : World k) (port : ℕ)
      → in_cooldown w.port_cooldown port ≡ true
      → blocked ext_v4 proto w port ≡ true
  unfolding blocked
  cooling_blocked ext_v4 proto w port h = ground arith

  allocation_at :
      (cfg : Nat64Config) (ext_v4 proto : ℕ) (w : World k) (cursor : ℕ)
      → cfg.port_min < cfg.port_max
      → w.port_cursor ≡ some cursor
      → allocation cfg ext_v4 proto w ≡ first_free 16 cfg (span cfg) ext_v4 proto cursor w
  unfolding allocation
  allocation_at cfg ext_v4 proto w cursor range e = ground arith

  allocation-none :
      (cfg : Nat64Config) (ext_v4 proto : ℕ) (w : World k)
      → ((i : ℕ) → i < span cfg → blocked ext_v4 proto w (cfg.port_min + i) ≡ true)
      → allocation cfg ext_v4 proto w ≡ none
  unfolding allocation
  allocation-none cfg ext_v4 proto w all = elim (Option-cases w.port_cursor) [
    | inl e ↦ ground arith
    | inr (cursor, e) ↦ ground (arith, first_free-none cfg ext_v4 proto w 16 cursor all)
  ]

  unblocked :
      (ext_v4 proto : ℕ) (w : World k) (port : ℕ)
      → blocked ext_v4 proto w port ≡ false
      → (in_cooldown w.port_cooldown port ≡ false)
        × (k.nat_maps.get w.nat (nat_key ext_v4 port proto) ≡ none)
  unfolding blocked
  unblocked ext_v4 proto w port h = ground arith

  module _ (cfg : Nat64Config) (ext_v4 proto : ℕ) (w : World k) where
    -- A port that the allocator returns lies in the configured range, is not in the cooldown ring,
    -- and has no entry in the reverse map for the external address and protocol; the port enters
    -- the ring, and neither translation map changes.
    pub alloc_port_sound :
        {port : ℕ} {v : World k}
        → alloc_port cfg ext_v4 proto w ≡ (v, some port)
        → (cfg.port_min ≤ port)
          × (port ≤ cfg.port_max)
          × (in_cooldown w.port_cooldown port ≡ false)
          × (k.nat_maps.get w.nat (nat_key ext_v4 port proto) ≡ none)
          × (v.port_cooldown ≡ Option.map (λ ring. cooldown_push ring port) w.port_cooldown)
          × (v.nat ≡ w.nat)
          × (v.fwd_nat ≡ w.fwd_nat)
    alloc_port_sound {port} {v} h =
        let searched = alloc_port-Searched cfg ext_v4 proto w in
        let found : allocation cfg ext_v4 proto w ≡ some port =
          sym searched.result ∙ ap (λ r. r.1) h in
        let (range, (cursor, first)) = allocation_found cfg ext_v4 proto w found in
        let (low, high, open_port) = first_free_sound cfg ext_v4 proto w 16 cursor range first in
        let (cool, unused) = unblocked ext_v4 proto w port open_port in
        (
          low,
          high,
          cool,
          unused,
          ap (λ r. r.0.port_cooldown) (sym h) ∙ (rw found at searched.cooled),
          ap (λ r. r.0.nat) (sym h) ∙ searched.same_nat,
          ap (λ r. r.0.fwd_nat) (sym h) ∙ searched.same_fwd,
        )

    -- In a range of at least two ports, and with a 32-bit cursor: if one of the 16 candidates after
    -- the cursor is neither cooling down nor in the reverse map, an allocation returns a port.
    pub alloc_port_total :
        (cursor i : ℕ)
        → cfg.port_min < cfg.port_max
        → w.port_cursor ≡ some cursor
        → cursor < 2 ^ 32
        → i < 16
        → blocked ext_v4 proto w (candidate cfg cursor i) ≡ false
        → (port : ℕ) × ((alloc_port cfg ext_v4 proto w).1 ≡ some port)
    alloc_port_total cursor i range at_cursor c h free =
        let (port, first) = first_free_total cfg ext_v4 proto w 16 cursor i h c free in
        (
          port,
          (alloc_port-Searched cfg ext_v4 proto w).result
              ∙ allocation_at cfg ext_v4 proto w cursor range at_cursor
              ∙ first,
        )

    -- Once the cooldown ring holds every port of the range, an allocation fails whatever the
    -- reverse map holds, and leaves the ring as it is, so that every later one fails too.
    pub alloc_port_starved :
        ((i : ℕ) → i < span cfg → in_cooldown w.port_cooldown (cfg.port_min + i) ≡ true)
        → ((alloc_port cfg ext_v4 proto w).1 ≡ none)
          × ((alloc_port cfg ext_v4 proto w).0.port_cooldown ≡ w.port_cooldown)
    alloc_port_starved all =
        let searched = alloc_port-Searched cfg ext_v4 proto w in
        let nothing =
          allocation-none cfg ext_v4 proto w (λ i h. cooling_blocked ext_v4 proto w _ (all i h)) in
        (searched.result ∙ nothing, rw nothing at searched.cooled)
