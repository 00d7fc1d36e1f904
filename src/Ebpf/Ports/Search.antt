-- ===== src/Ebpf/Ports/Search.antt =====
-- The port that the allocator of natto64-ebpf/src/lib.rs finds, and what it leaves alone.
use mathlib.Core.Option
use mathlib.Core.Path.{subst}
use natto.Common.{
  ℕ, zero, suc, ◌+◌, ◌%◌, ◌≡◌, refl, List, [], ◌∷◌, Bool, true, false, ◌||◌, Option, none, some,
  ltb, if◌then◌else◌, is_some, wrapping_add32, arith,
}
use natto.Abi.{Nat64Config, nat_key}
use natto.Abi.ProdCounters.{ProdCounter, port_alloc_exhausted}
use natto.Abi.DebugCounters.{DebugCounter, port_alloc_probe, port_alloc_collide, cooldown_skip}
use natto.Ebpf.Cooldown.{cooldown_push}
use natto.Ebpf.Kernel.{Kernel}
use natto.Ebpf.World.{World, with_counters, with_counters-SameMaps}
use natto.Ebpf.Ports.{in_cooldown, take_port, probe_loop}

module _ {k : Kernel} where
  -- The state that decides which ports are free.
  pub record SameSession (v w : World k) : Type 0 where
    pub same_config : v.config ≡ w.config
    pub same_nat : v.nat ≡ w.nat
    pub same_fwd : v.fwd_nat ≡ w.fwd_nat
    pub same_cooldown : v.port_cooldown ≡ w.port_cooldown

  -- A port that the allocator passes over: it is no 16-bit number, cools down, or is in use.
  unfoldable pub blocked : ℕ → ℕ → World k → ℕ → Bool
  blocked ext_v4 proto w port =
      ltb 65535 port
      || in_cooldown w.port_cooldown port
      || is_some (k.nat_maps.get w.nat (nat_key ext_v4 port proto))

  blocked-same :
      (ext_v4 proto : ℕ) {v w : World k} (port : ℕ)
      → SameSession v w
      → blocked ext_v4 proto v port ≡ blocked ext_v4 proto w port
  unfolding blocked
  blocked-same ext_v4 proto port s = rw (s.same_cooldown, s.same_nat)

  -- The first port that is not blocked among the candidates of the next `left` cursor values.
  unfoldable pub first_free : ℕ → Nat64Config → ℕ → ℕ → ℕ → ℕ → World k → Option ℕ
  first_free zero cfg span ext_v4 proto cursor w = none
  first_free (suc left) cfg span ext_v4 proto cursor w =
      let cursor' = wrapping_add32 cursor 1 in
      let candidate = cfg.port_min + cursor' % span in
      let rest = first_free left cfg span ext_v4 proto cursor' w in
      if blocked ext_v4 proto w candidate then rest else some candidate

  first_free-same :
      (left : ℕ) (cfg : Nat64Config) (span ext_v4 proto cursor : ℕ) {v w : World k}
      → SameSession v w
      → first_free left cfg span ext_v4 proto cursor v
        ≡ first_free left cfg span ext_v4 proto cursor w
  unfolding first_free
  first_free-same zero cfg span ext_v4 proto cursor s = refl
  first_free-same (suc left) cfg span ext_v4 proto cursor s = rw (
    blocked-same ext_v4 proto (cfg.port_min + wrapping_add32 cursor 1 % span) s,
    first_free-same left cfg span ext_v4 proto (wrapping_add32 cursor 1) s,
  )

  -- The result of a search from `w`: the world is as before but for the cursor and the counters,
  -- and a port that is found enters the cooldown ring, where there is one.
  pub record Searched (w : World k) (r : World k × Option ℕ) (found : Option ℕ) : Type 0 where
    pub result : r.1 ≡ found
    pub same_config : r.0.config ≡ w.config
    pub same_nat : r.0.nat ≡ w.nat
    pub same_fwd : r.0.fwd_nat ≡ w.fwd_nat
    pub cooled : r.0.port_cooldown ≡ elim found [
      | none ↦ w.port_cooldown
      | some port ↦ Option.map (λ ring. cooldown_push ring port) w.port_cooldown
    ]

  count :
      (prods : List ProdCounter) (debugs : List DebugCounter) (w : World k)
      → SameSession (with_counters prods debugs w) w
  count prods debugs w = ground (arith, with_counters-SameMaps prods debugs w)

  take_port-Searched :
      (port : ℕ) (skip : Bool) (w : World k) → Searched w (take_port port skip w) (some port)
  unfolding take_port with_counters
  take_port-Searched port skip w = ground arith

  Searched-same :
      {v w : World k} {r : World k × Option ℕ} (found found' : Option ℕ)
      → SameSession v w
      → found ≡ found'
      → Searched v r found
      → Searched w r found'
  Searched-same found found' s e h = ground arith

  module _ (cfg : Nat64Config) (span ext_v4 proto : ℕ) where
    probed : ℕ → World k → World k
    probed cursor w = record (with_counters [] (port_alloc_probe ∷ []) w) {
      port_cursor = some cursor;
    }

    probed-same : (cursor : ℕ) (w : World k) → SameSession (probed cursor w) w
    unfolding probed
    probed-same cursor w = ground (arith, count [] (port_alloc_probe ∷ []) w)

    counted-same :
        (c : DebugCounter) (cursor : ℕ) (w : World k)
        → SameSession (with_counters [] (c ∷ []) (probed cursor w)) w
    counted-same c cursor w =
        ground (arith, count [] (c ∷ []) (probed cursor w), probed-same cursor w)

    -- The four ways out of one probe.
    ladder :
        {w : World k} (far cools used : Bool) {r0 r1 r2 taken : World k × Option ℕ}
        (rest found : Option ℕ)
        → Searched w r0 rest
        → Searched w r1 rest
        → Searched w r2 rest
        → Searched w taken found
        → Searched w
            (elim far [
              | true ↦ r0
              | false ↦ elim cools [ true ↦ r1 | false ↦ elim used [ true ↦ r2 | false ↦ taken ] ]
            ])
            (if (far || cools || used) then rest else found)
    ladder true cools used rest found h0 h1 h2 h = h0
    ladder false true used rest found h0 h1 h2 h = h1
    ladder false false true rest found h0 h1 h2 h = h2
    ladder false false false rest found h0 h1 h2 h = h

    found_by_test :
        (w v : World k) (port : ℕ) (rest : Option ℕ)
        → SameSession v w
        → (if (ltb 65535 port
              || in_cooldown v.port_cooldown port
              || is_some (k.nat_maps.get v.nat (nat_key ext_v4 port proto)))
            then rest
            else some port)
          ≡ (if blocked ext_v4 proto w port then rest else some port)
    unfolding blocked
    found_by_test w v port rest same = rw (same.same_cooldown, same.same_nat)

    pub probe_loop-Searched :
        (left cursor : ℕ) (skip : Bool) (w : World k)
        → Searched w
            (probe_loop left cfg span ext_v4 proto cursor skip w)
            (first_free left cfg span ext_v4 proto cursor w)
    unfolding probe_loop first_free probed
    probe_loop-Searched zero cursor skip w =
        ground
          (arith, count (port_alloc_exhausted ∷ []) [] (record w { port_cursor = some cursor }))
    probe_loop-Searched (suc left) cursor skip w =
        let cursor' = wrapping_add32 cursor 1 in
        let p = probed cursor' w in
        let same = probed-same cursor' w in
        let same1 = counted-same cooldown_skip cursor' w in
        let same2 = counted-same port_alloc_collide cursor' w in
        let rest = first_free left cfg span ext_v4 proto cursor' w in
        let port = cfg.port_min + cursor' % span in
        subst (Searched w _) (found_by_test w p port rest same) (
          ladder (ltb 65535 port) (in_cooldown p.port_cooldown port)
            (is_some (k.nat_maps.get p.nat (nat_key ext_v4 port proto))) rest (some port)
            (Searched-same _ rest same (first_free-same left cfg span ext_v4 proto cursor' same)
              (probe_loop-Searched left cursor' skip p))
            (Searched-same _ rest same1 (first_free-same left cfg span ext_v4 proto cursor' same1)
              (probe_loop-Searched left cursor' true (with_counters [] (cooldown_skip ∷ []) p)))
            (Searched-same _ rest same2 (first_free-same left cfg span ext_v4 proto cursor' same2) (
              probe_loop-Searched left cursor' skip (with_counters [] (port_alloc_collide ∷ []) p)))
            (Searched-same _ (some port) same refl (take_port-Searched port skip p)))
