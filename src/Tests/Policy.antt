-- ===== src/Tests/Policy.antt =====
-- Policies and metrics of natto64 at concrete inputs.
use natto.Common.{◌≡◌, ◌↔◌, refl, List, [], ◌∷◌, some, arith, min, replicate, u64_max}
use natto.Abi.ProdCounters.{ProdCounters, pkts_total}
use natto.Ebpf.World.{World, SameMaps}
use natto.Ebpf.Sessions.{current_cfg}
use natto.Ebpf.Forward.{try_nat64_forward}
use natto.Userspace.Error.{ok}
use natto.Userspace.Config.{Nat64Config, validate, dataplane_config}
use natto.Userspace.Config.Laws.{IsValid, validate_iff}
use natto.Userspace.Config.Starved.{first_port, one_port_policy_starved}
use natto.Userspace.Metrics.{aggregate_prod_counters}
use natto.Userspace.Metrics.Laws.{total, aggregate_prod_counters-total}
use natto.Tests.Host.{host}
use natto.Tests.Machine.{machine}
use natto.Tests.Dataplane.{empty_world}
use natto.Tests.Forward.{packet6}

abbrev pub policy : Nat64Config
policy = record {
  prefix96 = 0x00 ∷ 0x64 ∷ 0xff ∷ 0x9b ∷ replicate 8 0;
  v4_pool = 0xcb00710a ∷ 0xcb00710b ∷ [];
  port_min = 30_000;
  port_max = 30_100;
  session_timeout = some (record { as_secs = 300; subsec_nanos = 1 });
}

pub policy-IsValid : IsValid policy
policy-IsValid = record {
  some_address = omega arith;
  pool_fits = omega arith;
  port_pos = omega arith;
  range = omega arith;
  timeout_pos = omega arith;
}

accepts : validate host policy ≡ ok tt
unfolding validate
accepts = refl

validate_iff_example : (validate host policy ≡ ok tt) ↔ IsValid policy
validate_iff_example = validate_iff host policy

abbrev one_port_world : World machine
one_port_world = record empty_world { config = some (dataplane_config (first_port policy) 3 4) }

one_port : current_cfg one_port_world ≡ dataplane_config (first_port policy) 3 4
unfolding current_cfg
one_port = refl

one_port_policy_starved_example :
    (validate host (first_port policy) ≡ ok tt)
    × ((try_nat64_forward packet6 1000 99 one_port_world).2 ≡ machine.tc_act_pipe)
    × SameMaps (try_nat64_forward packet6 1000 99 one_port_world).0 one_port_world
one_port_policy_starved_example =
    one_port_policy_starved host policy accepts 3 4 packet6 1000 99 one_port_world one_port
      (λ key. refl)

abbrev processors : List ProdCounters
processors = (λ field. 3) ∷ (λ field. u64_max) ∷ []

aggregate_prod_counters-total_example :
    aggregate_prod_counters processors pkts_total ≡ min (total pkts_total processors) u64_max
aggregate_prod_counters-total_example = aggregate_prod_counters-total pkts_total processors
