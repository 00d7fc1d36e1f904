-- ===== src/Tests/Messages.antt =====
-- Messages of natto64/src/error.rs at concrete inputs.
use natto.Common.{◌≡◌, refl}
use natto.Userspace.Error.{v4_pool_too_large, invalid_port_range, missing_map}
use natto.Userspace.Interfaces.{codes}
use natto.Userspace.Messages.{display}
use natto.Tests.Host.{host}

too_large :
    display {s = host} (v4_pool_too_large 17 16)
    ≡ codes "the external IPv4 pool contains 17 addresses, but the dataplane supports at most 16"
unfolding display natto.Userspace.Messages.decimal natto.Userspace.Messages.decimal_from
too_large = refl

bad_range :
    display {s = host} (invalid_port_range 0 60_000)
    ≡ codes
        "invalid external port range 0..=60000; the lower bound must be nonzero and no greater than the upper bound"
unfolding display natto.Userspace.Messages.decimal natto.Userspace.Messages.decimal_from
bad_range = refl

no_map :
    display {s = host} (missing_map "CONFIG") ≡ codes "required eBPF map `CONFIG` was not found"
unfolding display
no_map = refl
