-- ===== src/Tests/Dataplane.antt =====
-- Pools, ports and sessions of natto64-ebpf/src/lib.rs at concrete inputs.
use natto.Common.{
  ℕ, zero, suc, ◌+◌, ◌-◌, ◌%◌, ◌^◌, ◌≤◌, ◌<◌, ◌≡◌, ◌≢◌, ◌↔◌, refl, List, [], ◌∷◌, Bool, true, false,
  Option, none, some, arith, replicate, ltb, leb, ◌==◌, if◌then◌else◌, from_be_bytes32, byte_at,
}
use natto.Abi.{Nat64Config, NatVal, FwdNatKey, default_ring, fwd_nat_key, select_v4_from_pool}
use natto.Ebpf.Kernel.{TimedFwdNatVal}
use natto.Ebpf.World.{World}
use natto.Ebpf.Pool.{select_v4_from_pool_ebpf, v4_in_pool}
use natto.Ebpf.Pool.Laws.{Pooled, select_v4_from_pool_ebpf-eq, v4_in_pool_iff}
use natto.Ebpf.Cooldown.{cooldown_contains, cooldown_push}
use natto.Ebpf.Cooldown.Window.{cooldown_contains-pushed, pushed}
use natto.Ebpf.Ports.{in_cooldown, alloc_port}
use natto.Ebpf.Ports.Search.{Searched, blocked}
use natto.Ebpf.Ports.Laws.{
  span, candidate, allocation, alloc_port-Searched, alloc_port_total, alloc_port_starved,
}
use natto.Ebpf.Sessions.{default_cfg, timed_fwd_nat_val, lookup_or_create_mapping}
use natto.Ebpf.Sessions.Mapping.{Settled, lookup_or_create_mapping-Settled}
use natto.Ebpf.Sessions.Flow.{
  here, packet, elsewhere, lookup_or_create_mapping_stable, lookup_or_create_mapping_fresh,
}
use natto.Tests.Machine.{no_samples, machine, machine_laws}

abbrev pub client : List ℕ
client = 0xfd ∷ replicate 15 1

abbrev pub flow : FwdNatKey
flow = fwd_nat_key client 0x08080808 51_000 443 6

abbrev external : ℕ
external = 0xcb00710a

-- The built-in configuration, with sessions that expire.
abbrev pub expiring_cfg : Nat64Config
expiring_cfg = record default_cfg { session_timeout_secs = 5 }

abbrev pub empty_world : World machine
empty_world = record {
  config = some expiring_cfg;
  prod = none;
  debug = none;
  nat = λ key. none;
  fwd_nat = λ key. none;
  port_cursor = some 41;
  port_cooldown = some default_ring;
  samples = no_samples;
}

abbrev existing : TimedFwdNatVal ℕ
existing = timed_fwd_nat_val machine external 20042 99 1000

abbrev known_world : World machine
known_world = record empty_world { fwd_nat = λ key. some existing }

allocates : (alloc_port expiring_cfg external 6 empty_world).1 ≡ some 20042
unfolding alloc_port default_cfg default_ring natto.Ebpf.Ports.probe_loop in_cooldown
    natto.Ebpf.World.with_counters cooldown_contains natto.Ebpf.Ports.take_port
allocates = refl

allocated : World machine
allocated = (alloc_port expiring_cfg external 6 empty_world).0

creates :
    (lookup_or_create_mapping expiring_cfg flow external 6 1000 99 empty_world).1
    ≡ some (external, 20042, 99)
unfolding lookup_or_create_mapping natto.Ebpf.Sessions.create_mapping alloc_port default_cfg
    natto.Ebpf.World.with_counters natto.Ebpf.Ports.probe_loop in_cooldown cooldown_contains
    default_ring natto.Ebpf.Ports.take_port natto.Ebpf.Sessions.insert_mapping
    natto.Ebpf.Sessions.finish_mapping natto.Ebpf.Sessions.arm_session_timer
    natto.Ebpf.Sessions.arm_timer natto.Ebpf.Sessions.timer_rearm natto.Abi.Keys.FwdNatKey-discrete
    fwd_nat_key natto.Common.ℕ_discrete
creates = refl

select_v4_from_pool_ebpf-eq_example :
    select_v4_from_pool_ebpf client expiring_cfg ≡ select_v4_from_pool client expiring_cfg
select_v4_from_pool_ebpf-eq_example = select_v4_from_pool_ebpf-eq client expiring_cfg

v4_in_pool_iff_example : (v4_in_pool external expiring_cfg ≡ true) ↔ Pooled external expiring_cfg
v4_in_pool_iff_example = v4_in_pool_iff external expiring_cfg

cooldown_contains-pushed_example :
    (cooldown_contains (pushed (20_042 ∷ 20_041 ∷ [])) 20_041 ≡ true)
    ↔ ((k : ℕ) × (k < 64) × (k < 2) × (byte_at (20_042 ∷ 20_041 ∷ []) k ≡ 20_041))
cooldown_contains-pushed_example =
    cooldown_contains-pushed (20_042 ∷ 20_041 ∷ []) 20_041 (omega arith)

alloc_port-Searched_example :
    Searched empty_world
      (alloc_port expiring_cfg external 6 empty_world)
      (allocation expiring_cfg external 6 empty_world)
alloc_port-Searched_example = alloc_port-Searched expiring_cfg external 6 empty_world

allocates_pair : alloc_port expiring_cfg external 6 empty_world ≡ (allocated, some 20042)
unfolding allocated
allocates_pair i = ((alloc_port expiring_cfg external 6 empty_world).0, allocates i)

open_port : blocked external 6 empty_world (candidate expiring_cfg 41 1) ≡ false
unfolding blocked in_cooldown cooldown_contains default_ring default_cfg
open_port = refl

range : expiring_cfg.port_min < expiring_cfg.port_max
unfolding default_cfg
range = omega arith

alloc_port_total_example :
    (port : ℕ) × ((alloc_port expiring_cfg external 6 empty_world).1 ≡ some port)
alloc_port_total_example =
    alloc_port_total expiring_cfg external 6 empty_world 41 1 range refl (omega arith) (omega arith)
      open_port

-- A range of two ports, both of which were allocated before.
abbrev narrow : Nat64Config
narrow = record expiring_cfg { port_min = 20_000; port_max = 20_001 }

abbrev cooling_world : World machine
cooling_world = record empty_world {
  port_cooldown = some (cooldown_push (cooldown_push default_ring 20_001) 20_000);
}

all_cooling :
    (i : ℕ) → i < span narrow → in_cooldown cooling_world.port_cooldown (narrow.port_min + i) ≡ true
unfolding in_cooldown cooldown_contains cooldown_push default_ring
all_cooling zero h = refl
all_cooling (suc zero) h = refl
all_cooling (suc (suc i)) h = absurd (omega arith)

alloc_port_starved_example :
    ((alloc_port narrow external 6 cooling_world).1 ≡ none)
    × ((alloc_port narrow external 6 cooling_world).0.port_cooldown ≡ cooling_world.port_cooldown)
alloc_port_starved_example = alloc_port_starved narrow external 6 cooling_world all_cooling

lookup_or_create_mapping_fresh_example :
    (external ≡ external)
    × Path ℕ 99 99
    × (expiring_cfg.port_min ≤ 20_042)
    × (20_042 ≤ expiring_cfg.port_max)
    × (in_cooldown (some default_ring) 20042 ≡ false)
    × (Path (Option NatVal) none none)
lookup_or_create_mapping_fresh_example =
    lookup_or_create_mapping_fresh expiring_cfg flow external 6 1000 99 empty_world refl creates

-- The client has sent a packet, another flow has been opened, and the client has sent one more.
abbrev other_flow : FwdNatKey
other_flow = fwd_nat_key client 0x08080808 51_001 443 6

abbrev sent_once : World machine
sent_once = (lookup_or_create_mapping expiring_cfg flow external 6 1000 99 empty_world).0

abbrev other_sent : World machine
other_sent = (lookup_or_create_mapping expiring_cfg other_flow external 6 1500 97 sent_once).0

abbrev sent_twice : World machine
sent_twice = (lookup_or_create_mapping default_cfg flow 1 6 1600 96 other_sent).0

untouched : other_sent.fwd_nat flow ≡ sent_once.fwd_nat flow
unfolding lookup_or_create_mapping natto.Ebpf.Sessions.create_mapping alloc_port default_cfg
    natto.Ebpf.World.with_counters natto.Ebpf.Ports.probe_loop in_cooldown cooldown_contains
    default_ring natto.Ebpf.Ports.take_port natto.Ebpf.Sessions.insert_mapping
    natto.Ebpf.Sessions.finish_mapping natto.Ebpf.Sessions.arm_session_timer
    natto.Ebpf.Sessions.arm_timer natto.Ebpf.Sessions.timer_rearm natto.Abi.Keys.FwdNatKey-discrete
    fwd_nat_key natto.Common.ℕ_discrete natto.Ebpf.Cooldown.cooldown_push
untouched = refl

lookup_or_create_mapping_stable_example :
    (lookup_or_create_mapping default_cfg flow 1 6 2000 98 sent_twice).1
    ≡ some (external, 20042, 99)
lookup_or_create_mapping_stable_example =
    lookup_or_create_mapping_stable machine_laws expiring_cfg default_cfg flow external 6 1000 99 1
      6 2000 98 empty_world sent_twice creates
      (packet (elsewhere here untouched) default_cfg 1 6 1600 96 refl)

lookup_or_create_mapping-Settled_example :
    Settled flow (lookup_or_create_mapping expiring_cfg flow external 6 1000 99 empty_world)
lookup_or_create_mapping-Settled_example =
    lookup_or_create_mapping-Settled machine_laws expiring_cfg flow external 6 1000 99 empty_world
