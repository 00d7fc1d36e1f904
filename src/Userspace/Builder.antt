-- ===== src/Userspace/Builder.antt =====
-- natto64/src/builder.rs: a reusable description of a dataplane.
pub mod Laws
use natto.Common.{ℕ, List, [], Option, none}
use natto.Userspace.System.{System, Text}
use natto.Userspace.Error.{Result, ok, err}
use natto.Userspace.Config.{Duration, Nat64Config, rfc_6052_well_known_prefix}
use natto.Userspace.Dataplane.{Nat64, Runtime, load, configure}
use natto.Userspace.Dataplane

abbrev default_port_min : ℕ
default_port_min = 20_000

abbrev default_port_max : ℕ
default_port_max = 60_000

pub record Nat64Builder : Type 0 where
  pub ebpf_object : Text
  pub prefix96 : List ℕ
  pub v4_pool : List ℕ
  pub port_min : ℕ
  pub port_max : ℕ
  pub session_timeout : Option Duration

unfoldable pub builder : Text → Nat64Builder
builder ebpf_object = record {
  ebpf_object = ebpf_object;
  prefix96 = rfc_6052_well_known_prefix;
  v4_pool = [];
  port_min = default_port_min;
  port_max = default_port_max;
  session_timeout = none;
}

unfoldable pub with_prefix96 : List ℕ → Nat64Builder → Nat64Builder
with_prefix96 prefix96 self = record self { prefix96 = prefix96 }

unfoldable pub with_v4_pool : List ℕ → Nat64Builder → Nat64Builder
with_v4_pool v4_pool self = record self { v4_pool = v4_pool }

unfoldable pub with_port_min : ℕ → Nat64Builder → Nat64Builder
with_port_min port_min self = record self { port_min = port_min }

unfoldable pub with_port_max : ℕ → Nat64Builder → Nat64Builder
with_port_max port_max self = record self { port_max = port_max }

unfoldable pub with_session_timeouts : Option Duration → Nat64Builder → Nat64Builder
with_session_timeouts session_timeout self = record self { session_timeout = session_timeout }

unfoldable pub config : Nat64Builder → Nat64Config
config self = record {
  prefix96 = self.prefix96;
  v4_pool = self.v4_pool;
  port_min = self.port_min;
  port_max = self.port_max;
  session_timeout = self.session_timeout;
}

module _ {s : System} where
  -- A method of a new dataplane, which is dropped where the method fails.
  abbrev pub finish : Runtime s × Result s (Unit {0}) → s.Os × Result s (Nat64 s)
  finish (r, ok u) = (r.os, ok r.nat64)
  finish (r, err e) = (r.os, err e)

  unfoldable pub build : Nat64Builder → s.Os → s.Os × Result s (Nat64 s)
  build self os = elim (load os self.ebpf_object) [
    | err e ↦ (os, err e)
    | ok nat64 ↦ finish (configure (config self) (record { os = os; nat64 = nat64 }))
  ]

  unfoldable pub attach : Nat64Builder → Text → Text → s.Os → s.Os × Result s (Nat64 s)
  attach self bridge uplink os =
      let (os', built) = build self os in
      elim built [
        | err e ↦ (os', err e)
        | ok nat64 ↦ finish (Dataplane.attach bridge uplink (record { os = os'; nat64 = nat64 }))
      ]
