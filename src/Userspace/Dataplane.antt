-- ===== src/Userspace/Dataplane.antt =====
-- natto64/src/lib.rs: a loaded dataplane, from the object to the attached classifiers.
pub mod Rules
pub mod Attach
pub mod Outcome
pub mod Lifecycle
pub mod Retry
pub mod Policy
use Prim.Native.String.{String}
use natto.Common.{
  ℕ, ◌⊎◌, inl, inr, Bool, true, false, ◌||◌, Option, none, some, ◌==◌, if◌then◌else◌, is_some,
}
use natto.Abi
use natto.Userspace.System.{System, Text}
use natto.Userspace.Error.{
  Error, Result, ok, err, read_ebpf_object, load_ebpf_object, not_configured, already_attached,
  missing_map, configure_map, traffic_control, missing_program, program,
}
use natto.Userspace.Config.{Nat64Config, validate, dataplane_config}
use natto.Userspace.Interfaces.{interface_index}
use natto.Userspace.Metrics.{Nat64Metrics, aggregate_prod_counters}

abbrev pub config_map_name : String
config_map_name = "CONFIG"

abbrev pub prod_counters_map_name : String
prod_counters_map_name = "PROD_COUNTERS"

abbrev pub prod_counters_key : ℕ
prod_counters_key = 0

abbrev pub forward_program_name : String
forward_program_name = "nat64_forward"

abbrev pub reverse_program_name : String
reverse_program_name = "nat64_reverse"

pub record Nat64 (s : System) : Type 0 where
  pub ebpf : s.Ebpf
  pub config : Option Nat64Config
  pub attached : Bool

-- The machine and the dataplane, which `&mut self` gives to the methods.
pub record Runtime (s : System) : Type 0 where
  pub os : s.Os
  pub nat64 : Nat64 s

-- A method: what it changed is kept where it fails.
abbrev pub M {ℓ} : System → Type ℓ → Type ℓ
M s A = Runtime s → Runtime s × Result s A

infixl 5 ◌>>=◌ ◌>>◌
abbrev pub ◌>>=◌ {ℓ κ} : {s : System} {A : Type ℓ} {B : Type κ} → M s A → (A → M s B) → M s B
◌>>=◌ m f r = elim (m r).1 [ ok a ↦ f a (m r).0 | err e ↦ ((m r).0, err e) ]

abbrev pub ◌>>◌ {κ} : {s : System} {B : Type κ} → M s (Unit {0}) → M s B → M s B
m >> n = m >>= λ _. n

-- The error code of `AlreadyExists`, `EEXIST`.
abbrev already_exists : Option ℕ → Bool
already_exists none = false
already_exists (some errno) = errno == 17

-- Is it the error of a qdisc that is there?
unfoldable pub is_benign : (s : System) → s.TcError → Bool
is_benign s source =
    s.is_already_attached source
    || elim (s.netlink_error source) [ none ↦ false | some e ↦ already_exists (s.raw_os_error e) ]

module _ {s : System} where
  abbrev pub lift {ℓ} : {A : Type ℓ} → Result s A → M s A
  lift a r = (r, a)

  abbrev pub get_os : M s s.Os
  get_os r = (r, ok r.os)

  abbrev pub get_nat64 : M s (Nat64 s)
  get_nat64 r = (r, ok r.nat64)

  abbrev set_os : s.Os → M s (Unit {0})
  set_os os r = (record r { os = os }, ok tt)

  abbrev pub set_nat64 : Nat64 s → M s (Unit {0})
  set_nat64 nat64 r = (record r { nat64 = nat64 }, ok tt)

  abbrev set_ebpf : s.Ebpf → M s (Unit {0})
  set_ebpf ebpf r = (record r { nat64 = record r.nat64 { ebpf = ebpf } }, ok tt)

  -- `map_err` and `ok_or`.
  abbrev map_err {ℓ κ} : {E : Type ℓ} {A : Type κ} → (E → Error s) → E ⊎ A → Result s A
  map_err f (inl e) = err (f e)
  map_err f (inr a) = ok a

  abbrev check {ℓ} : {E : Type ℓ} → (E → Error s) → Option E → Result s (Unit {0})
  check f none = ok tt
  check f (some e) = err (f e)

  abbrev require : Bool → Error s → Result s (Unit {0})
  require true e = ok tt
  require false e = err e

  abbrev pub ok_or {ℓ} : {A : Type ℓ} → Option A → Error s → Result s A
  ok_or none e = err e
  ok_or (some a) e = ok a

  unfoldable pub load : s.Os → Text → Result s (Nat64 s)
  load os path = elim (s.read os path) [
    | inl source ↦ err (read_ebpf_object path source)
    | inr object ↦ elim (s.load object) [
      | inl source ↦ err (load_ebpf_object source)
      | inr ebpf ↦ ok (record { ebpf = ebpf; config = none; attached = false })
    ]
  ]

  unfoldable pub configure : Nat64Config → M s (Unit {0})
  configure config = do
    self ← get_nat64
    if self.attached
        then lift (err already_attached)
        else do lift (validate s config); set_nat64 (record self { config = some config })

  unfoldable pub ensure_clsact : Text → M s (Unit {0})
  ensure_clsact interface = do
    os ← get_os
    elim (s.qdisc_add_clsact os interface) [
      | inl source ↦
          if is_benign s source then lift (ok tt) else lift (err (traffic_control interface source))
      | inr os' ↦ set_os os'
    ]

  unfoldable pub attach_classifier : String → Text → M s (Unit {0})
  attach_classifier name interface = do
    self ← get_nat64
    lift (require (s.has_program self.ebpf name) (missing_program name))
    lift (check program (s.as_classifier self.ebpf name))
    loaded ← lift (map_err program (s.load_program self.ebpf name))
    set_ebpf loaded
    os ← get_os
    (os', hooked) ← lift (map_err program (s.attach_ingress os loaded name interface))
    set_os os'
    set_ebpf hooked

  -- The block of `attach` that writes the configuration.
  unfoldable pub write_config : Abi.Nat64Config → M s (Unit {0})
  write_config dataplane = do
    self ← get_nat64
    lift (require (s.has_map self.ebpf config_map_name) (missing_map config_map_name))
    lift (check configure_map (s.as_hash_map self.ebpf config_map_name))
    written ←
        lift (map_err configure_map (s.insert self.ebpf config_map_name Abi.config_key dataplane))
    set_ebpf written

  -- The steps after the guard and the reading of both interface indices.
  unfoldable pub attach_to : Nat64Config → Text → Text → ℕ → ℕ → M s (Unit {0})
  attach_to config bridge uplink bridge_ifindex uplink_ifindex = do
    write_config (dataplane_config config bridge_ifindex uplink_ifindex)
    ensure_clsact bridge
    ensure_clsact uplink
    attach_classifier forward_program_name bridge
    attach_classifier reverse_program_name uplink
    self ← get_nat64
    set_nat64 (record self { attached = true })

  unfoldable pub attach : Text → Text → M s (Unit {0})
  attach bridge uplink = do
    self ← get_nat64
    if self.attached then lift (err already_attached) else do
      config ← lift (ok_or self.config not_configured)
      os ← get_os
      bridge_ifindex ← lift (interface_index s os bridge)
      uplink_ifindex ← lift (interface_index s os uplink)
      attach_to config bridge uplink bridge_ifindex uplink_ifindex

  unfoldable pub read_metrics : Nat64 s → Result s Nat64Metrics
  read_metrics self =
      if s.has_map self.ebpf prod_counters_map_name
      then elim (s.as_per_cpu_array self.ebpf prod_counters_map_name) [
        | some source ↦ err (Error.read_metrics source)
        | none ↦ elim (s.get_per_cpu self.ebpf prod_counters_map_name prod_counters_key) [
          | inl source ↦ err (Error.read_metrics source)
          | inr values ↦ ok (aggregate_prod_counters values)
        ]
      ]
      else err (missing_map prod_counters_map_name)
