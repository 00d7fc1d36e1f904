-- ===== src/Tests/Consistent.antt =====
-- Runs of the whole dataplane of natto64-ebpf/src/lib.rs at concrete inputs.
use natto.Common.{refl}
use natto.Ebpf.World.{World}
use natto.Ebpf.Sessions.{current_cfg}
use natto.Ebpf.Sessions.Expiry.{session_timer_callback}
use natto.Ebpf.Forward.{try_nat64_forward}
use natto.Ebpf.Reverse.{try_nat64_reverse}
use natto.Ebpf.Consistent.{IsConsistent}
use natto.Ebpf.Consistent.Forward.Carried.{Forwards}
use natto.Ebpf.Consistent.Forward.Carrying.{try_nat64_forward-Forwards}
use natto.Ebpf.Consistent.Reach.{
  forwards, replies, expires, here, next, IsFresh, Reach-IsConsistent,
}
use natto.Tests.Machine.{machine, machine_laws, nat_machine_laws}
use natto.Tests.Dataplane.{flow, empty_world, expiring_cfg}
use natto.Tests.Forward.{packet6}
use natto.Tests.Reverse.{packet}

empty_world-IsFresh : IsFresh expiring_cfg empty_world
unfolding current_cfg
empty_world-IsFresh = record { has_config = refl; no_flow = λ key. refl; no_session = λ key. refl }

empty_world-IsConsistent : IsConsistent expiring_cfg empty_world
empty_world-IsConsistent =
    Reach-IsConsistent machine_laws nat_machine_laws expiring_cfg empty_world-IsFresh here

try_nat64_forward-Forwards_example :
    Forwards expiring_cfg packet6 1000 (try_nat64_forward packet6 1000 99 empty_world)
try_nat64_forward-Forwards_example =
    try_nat64_forward-Forwards machine_laws nat_machine_laws expiring_cfg packet6 1000 99
      empty_world empty_world-IsConsistent

abbrev opened : World machine
opened = (try_nat64_forward packet6 1000 99 empty_world).0

abbrev answered : World machine
answered = (try_nat64_reverse (packet 6) 2000 opened).0

-- A timer that fires while a second packet of the client is handled.
Reach-IsConsistent_example : IsConsistent expiring_cfg (
    session_timer_callback flow 9_000_000_000
      (λ w. (try_nat64_forward packet6 9_000_000_000 7 w).0)
      answered)
Reach-IsConsistent_example =
    Reach-IsConsistent machine_laws nat_machine_laws expiring_cfg empty_world-IsFresh (
      next (next (next here (forwards packet6 1000 99 refl)) (replies (packet 6) 2000 refl)) (
        expires flow 9_000_000_000 (λ w. (try_nat64_forward packet6 9_000_000_000 7 w).0)
          (next here (forwards packet6 9_000_000_000 7 refl)) refl))
