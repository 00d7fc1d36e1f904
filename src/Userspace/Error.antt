-- ===== src/Userspace/Error.antt =====
-- natto64/src/error.rs: the errors of the userspace crate.
use Prim.Native.String.{String}
use natto.Common.{ℕ, Option, none, some}
use natto.Userspace.System.{System, Text}

-- `std::num::ParseIntError`, by its kind.
pub data ParseIntError : Type 0 where
  empty : ParseIntError
  invalid_digit : ParseIntError
  pos_overflow : ParseIntError

pub data Error (s : System) : Type 0 where
  read_ebpf_object : Text → s.IoError → Error s
  load_ebpf_object : s.EbpfError → Error s
  empty_v4_pool : Error s
  v4_pool_too_large : ℕ → ℕ → Error s
  invalid_port_range : ℕ → ℕ → Error s
  invalid_session_timeout : Error s
  not_configured : Error s
  already_attached : Error s
  invalid_interface_name : Text → Error s
  read_interface_index : Text → s.IoError → Error s
  parse_interface_index : Text → ParseIntError → Error s
  missing_map : String → Error s
  configure_map : s.MapError → Error s
  read_metrics : s.MapError → Error s
  traffic_control : Text → s.TcError → Error s
  missing_program : String → Error s
  program : s.ProgramError → Error s

pub data Result {ℓ} (s : System) (A : Type ℓ) : Type ℓ where
  ok : A → Result s A
  err : Error s → Result s A

-- The underlying error of another library, as `StdError::source` gives it.
pub data Source (s : System) : Type 0 where
  io : s.IoError → Source s
  ebpf : s.EbpfError → Source s
  parse_int : ParseIntError → Source s
  map : s.MapError → Source s
  tc : s.TcError → Source s
  classifier : s.ProgramError → Source s

module _ {s : System} where
  unfoldable pub source : Error s → Option (Source s)
  source (read_ebpf_object path e) = some (io e)
  source (load_ebpf_object e) = some (ebpf e)
  source (read_interface_index interface e) = some (io e)
  source (parse_interface_index interface e) = some (parse_int e)
  source (configure_map e) = some (map e)
  source (read_metrics e) = some (map e)
  source (traffic_control interface e) = some (tc e)
  source (program e) = some (classifier e)
  source empty_v4_pool = none
  source (v4_pool_too_large actual maximum) = none
  source (invalid_port_range port_min port_max) = none
  source invalid_session_timeout = none
  source not_configured = none
  source already_attached = none
  source (invalid_interface_name interface) = none
  source (missing_map name) = none
  source (missing_program name) = none
