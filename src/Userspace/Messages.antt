-- ===== src/Userspace/Messages.antt =====
-- natto64/src/error.rs: the messages of the errors.
pub mod Laws
use Prim.Native.String.{String}
use natto.Common.{ℕ, zero, suc, ◌+◌, ◌/◌, ◌%◌, [], ◌∷◌, ◌++◌, ◌==◌, if◌then◌else◌}
use natto.Userspace.System.{System, Text}
use natto.Userspace.Error.{
  Error, read_ebpf_object, load_ebpf_object, empty_v4_pool, v4_pool_too_large, invalid_port_range,
  invalid_session_timeout, not_configured, already_attached, invalid_interface_name,
  read_interface_index, parse_interface_index, missing_map, configure_map, read_metrics,
  traffic_control, missing_program, program,
}
use natto.Userspace.Interfaces.{codes}

-- The decimal digits of a number in front of `tail`, the last one first.
unfoldable pub decimal_from : ℕ → ℕ → Text → Text
decimal_from zero value tail = tail
decimal_from (suc fuel) value tail =
    let digit = b'0' + value % 10 in
    let rest = decimal_from fuel (value / 10) (digit ∷ tail) in
    if value / 10 == 0 then digit ∷ tail else rest

-- How `{}` writes a number of at most 64 bits, which has at most 20 digits.
unfoldable pub decimal : ℕ → Text
decimal value = decimal_from 20 value []

-- A name between backquotes.
abbrev quoted : Text → Text
quoted name = b'`' ∷ name ++ b'`' ∷ []

-- `Display::fmt`.
unfoldable pub display : {s : System} → Error s → Text
display (read_ebpf_object path source) = codes "failed to read eBPF object " ++ quoted path
display (load_ebpf_object source) = codes "failed to load eBPF object"
display empty_v4_pool = codes "the external IPv4 pool must not be empty"
display (v4_pool_too_large actual maximum) =
    codes "the external IPv4 pool contains "
    ++ decimal actual
    ++ codes " addresses, but the dataplane supports at most "
    ++ decimal maximum
display (invalid_port_range port_min port_max) =
    codes "invalid external port range "
    ++ decimal port_min
    ++ codes "..="
    ++ decimal port_max
    ++ codes "; the lower bound must be nonzero and no greater than the upper bound"
display invalid_session_timeout = codes "the session timeout must be greater than zero"
display not_configured = codes "NAT64 must be configured before it is attached"
display already_attached = codes "the NAT64 dataplane is already attached"
display (invalid_interface_name interface) =
    quoted interface ++ codes " is not a valid Linux interface name"
display (read_interface_index interface source) =
    codes "failed to read the index of interface " ++ quoted interface
display (parse_interface_index interface source) =
    codes "interface " ++ quoted interface ++ codes " reported a non-numeric interface index"
display (missing_map name) =
    codes "required eBPF map " ++ quoted (codes name) ++ codes " was not found"
display (configure_map source) = codes "failed to write the NAT64 dataplane configuration"
display (read_metrics source) = codes "failed to read NAT64 production metrics"
display (traffic_control interface source) =
    codes "failed to prepare traffic control on interface " ++ quoted interface
display (missing_program name) =
    codes "required eBPF program " ++ quoted (codes name) ++ codes " was not found"
display (program source) = codes "failed to load or attach an eBPF classifier"
