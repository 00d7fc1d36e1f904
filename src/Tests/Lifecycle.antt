-- ===== src/Tests/Lifecycle.antt =====
-- The life of a dataplane of natto64 at concrete inputs.
use natto.Common.{◌≡◌, refl, ◌⊎◌, [], ◌∷◌, true, false, none, some, arith, leb, if◌then◌else◌}
use natto.Ebpf.World.{World}
use natto.Ebpf.Sessions.{current_cfg}
use natto.Ebpf.Forward.{try_nat64_forward}
use natto.Ebpf.Consistent.Reach as States
use natto.Ebpf.Consistent.Reach.{IsFresh}
use natto.Userspace.System.{Text}
use natto.Userspace.Error.{Result, ok, err, parse_interface_index, pos_overflow}
use natto.Userspace.Config.{Nat64Config, validate}
use natto.Userspace.Interfaces.{
  contains, join, is_whitespace, trim, trim_start, trim_end, parse_u32, parse_digits,
  interface_index,
}
use natto.Userspace.Interfaces.Laws.{IsEntry, value_from, interface_index_reads}
use natto.Userspace.Dataplane.{
  Nat64, Runtime, load, configure, is_benign, ensure_clsact, attach_classifier, write_config,
  attach_to, attach,
}
use natto.Userspace.Dataplane.Outcome.{Succeeded, Failed, attach_outcome}
use natto.Userspace.Dataplane.Lifecycle.{configures, attaches, changes, Reach, here, next}
use natto.Userspace.Dataplane.Retry.{IsStuck, stuck_forever}
use natto.Userspace.Dataplane.Policy.{Applies, attached-Applies}
use natto.Userspace.Builder.{Nat64Builder, builder, with_v4_pool, with_port_min, config, build}
use natto.Userspace.Builder
use natto.Userspace.Builder.Laws.{Serves, attach-Serves}
use natto.Tests.Host.{host, host-IsSystem}
use natto.Tests.Machine.{machine, machine_laws, nat_machine_laws}
use natto.Tests.Forward.{packet6}
use natto.Tests.Dataplane.{empty_world}
use natto.Tests.Policy.{policy}

abbrev bridge : Text
bridge = 98 ∷ 114 ∷ []

abbrev uplink : Text
uplink = 101 ∷ 116 ∷ 104 ∷ []

-- An interface that takes no classifier.
abbrev bad_uplink : Text
bad_uplink = 120 ∷ []

abbrev started : Runtime host
started = record {
  os = tt;
  nat64 = record {
    ebpf = record { config = none; loaded = λ p. false; attached = λ p. false };
    config = none;
    attached = false;
  };
}

starts : load {s = host} tt [] ≡ ok started.nat64
unfolding load
starts = refl

configured : Runtime host
configured = (configure policy started).0

running : Runtime host
running = (attach bridge uplink configured).0

attach_outcome_example :
    Succeeded bridge uplink configured (attach bridge uplink configured)
    ⊎ Failed configured (attach bridge uplink configured)
attach_outcome_example = attach_outcome host-IsSystem bridge uplink configured

runs : Reach started running
unfolding running configured
runs = next (next here (configures policy refl)) (attaches bridge uplink refl)

is_running : running.nat64.attached ≡ true
unfolding running configured configure validate attach attach_to write_config ensure_clsact
    is_benign attach_classifier interface_index contains join trim trim_start trim_end is_whitespace
    parse_u32 parse_digits
is_running = refl

-- The machine changes without touching the classifiers.
runs_on : Reach started running
runs_on = next runs (changes tt refl)

abbrev world : World machine
world = record empty_world { config = running.nat64.ebpf.config }

world-IsFresh : IsFresh (current_cfg world) world
world-IsFresh = record { has_config = refl; no_flow = λ key. refl; no_session = λ key. refl }

abbrev open_world : World machine
open_world = (try_nat64_forward packet6 1000 99 world).0

attached-Applies_example :
    (c : Nat64Config) × (running.nat64.config ≡ some c) × Applies c open_world
attached-Applies_example =
    attached-Applies machine_laws nat_machine_laws host-IsSystem tt [] world open_world starts runs
      is_running refl world-IsFresh (States.next States.here (States.forwards packet6 1000 99 refl))

-- An attachment whose uplink takes no classifier.
half_attached : Runtime host
half_attached = (attach bridge bad_uplink configured).0

half_attached-IsStuck : IsStuck half_attached
unfolding half_attached configured configure validate attach attach_to write_config ensure_clsact
    is_benign attach_classifier interface_index contains join trim trim_start trim_end is_whitespace
    parse_u32 parse_digits
half_attached-IsStuck = record { free = refl; loaded = refl }

reconfigured : Runtime host
reconfigured = (configure policy half_attached).0

stuck_forever_example : Failed reconfigured (attach bridge uplink reconfigured)
unfolding reconfigured
stuck_forever_example =
    stuck_forever host-IsSystem bridge uplink half_attached-IsStuck
      (next here (configures policy refl))

abbrev office : Nat64Builder
office = with_port_min 30_000 (with_v4_pool (0xcb00710a ∷ []) (builder []))

abbrev found : Result host (Nat64 host) → Nat64 host
found (ok n) = n
found (err e) = started.nat64

office_nat64 : Nat64 host
office_nat64 = found (Builder.attach office bridge uplink tt).1

office_runs : Builder.attach {s = host} office bridge uplink tt ≡ (tt, ok office_nat64)
unfolding office_nat64 Builder.attach build load config with_port_min with_v4_pool builder configure
    validate attach attach_to write_config ensure_clsact is_benign attach_classifier interface_index
    contains join trim trim_start trim_end is_whitespace parse_u32 parse_digits
office_runs = refl

attach-Serves_example : Serves office bridge uplink tt tt office_nat64
attach-Serves_example = attach-Serves host-IsSystem office bridge uplink tt office_runs

bridge-IsEntry : IsEntry bridge
unfolding contains
bridge-IsEntry = record {
  not_empty = λ e. cc;
  not_dot = λ e. cc;
  not_dot_dot = λ e. ground arith;
  no_slash = refl;
}

interface_index_reads_example : interface_index host tt bridge ≡ (
    if leb (value_from 0 (1 ∷ 2 ∷ [])) 4294967295
    then ok (value_from 0 (1 ∷ 2 ∷ []))
    else err (parse_interface_index bridge pos_overflow))
interface_index_reads_example =
    interface_index_reads host tt bridge 1 (2 ∷ []) bridge-IsEntry (omega arith) refl
