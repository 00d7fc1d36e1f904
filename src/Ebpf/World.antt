-- ===== src/Ebpf/World.antt =====
-- The maps of natto64-ebpf/src/lib.rs as one state, and the counters that all its code bumps.
use natto.Common.{ℕ, ◌≡◌, List, [], ◌∷◌, Option, none, some, arith}
use natto.Abi.{Nat64Config, PortCooldownRing}
use natto.Abi.ProdCounters.{ProdCounter, ProdCounters, bump_prod}
use natto.Abi.DebugCounters.{DebugCounter, DebugCounters, bump_debug}
use natto.Abi.Samples.{DbgIpv6Sample, DbgFwdTcpSample, DbgFwdTcpCsumSample}
use natto.Ebpf.Kernel.{Kernel}

-- The three rings of samples: for each the cursor, if it is there, and the slots that are there.
pub record Samples : Type 0 where
  pub fwd_dst_cursor : Option ℕ
  pub fwd_dst : List DbgIpv6Sample
  pub fwd_tcp_cursor : Option ℕ
  pub fwd_tcp : List DbgFwdTcpSample
  pub fwd_tcp_csum_cursor : Option ℕ
  pub fwd_tcp_csum : List DbgFwdTcpCsumSample

-- `CONFIG`, `PROD_COUNTERS`, `DEBUG_COUNTERS`, `NAT`, `FWD_NAT`, `PORT_CURSOR` and `PORT_COOLDOWN`,
-- and the samples.
-- Of an array with one entry for each processor this is the current processor's, if it is there.
pub record World (k : Kernel) : Type 0 where
  pub config : Option Nat64Config
  pub prod : Option ProdCounters
  pub debug : Option DebugCounters
  pub nat : k.nat_maps.Map
  pub fwd_nat : k.fwd_maps.Map
  pub port_cursor : Option ℕ
  pub port_cooldown : Option PortCooldownRing
  pub samples : Samples

bump_all_prod : List ProdCounter → ProdCounters → ProdCounters
bump_all_prod [] p = p
bump_all_prod (c ∷ cs) p = bump_all_prod cs (bump_prod c p)

bump_all_debug : List DebugCounter → DebugCounters → DebugCounters
bump_all_debug [] d = d
bump_all_debug (c ∷ cs) d = bump_all_debug cs (bump_debug c d)

module _ {k : Kernel} where
  -- `with_counters` with a closure that bumps the counters listed: it runs only where both
  -- structures are there.
  unfoldable pub with_counters : List ProdCounter → List DebugCounter → World k → World k
  unfolding bump_all_prod bump_all_debug
  with_counters prods debugs w = elim w.prod [
    | none ↦ w
    | some p ↦ elim w.debug [
      | none ↦ w
      | some d ↦ record w {
        prod = some (bump_all_prod prods p);
        debug = some (bump_all_debug debugs d);
      }
    ]
  ]

  -- Counting changes nothing but the counters.
  pub record SameMaps (v w : World k) : Type 0 where
    pub same_config : v.config ≡ w.config
    pub same_nat : v.nat ≡ w.nat
    pub same_fwd : v.fwd_nat ≡ w.fwd_nat
    pub same_cursor : v.port_cursor ≡ w.port_cursor
    pub same_cooldown : v.port_cooldown ≡ w.port_cooldown

  pub with_counters-SameMaps :
      (prods : List ProdCounter) (debugs : List DebugCounter) (w : World k)
      → SameMaps (with_counters prods debugs w) w
  unfolding with_counters
  with_counters-SameMaps prods debugs w = ground arith
