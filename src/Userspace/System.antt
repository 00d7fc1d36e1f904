-- ===== src/Userspace/System.antt =====
-- What natto64 takes from the machine and from the `aya` crate: files, traffic control, and a loaded
-- eBPF object with its maps and programs. None of it is code of this repository.
use Prim.Native.String.{String}
use natto.Common.{ℕ, ◌≡◌, ◌⊎◌, inl, inr, Bool, Option, some, List}
use natto.Abi.{Nat64Config}
use natto.Abi.ProdCounters.{ProdCounters}

-- Names and paths, by their code points.
abbrev pub Text : Type 0
Text = List ℕ

-- A call that fails leaves the machine and the object as they were.
pub record System : Type 1 where
  pub IoError : Type 0
  pub EbpfError : Type 0
  pub MapError : Type 0
  pub ProgramError : Type 0
  -- `TcError`, with the two cases that the code looks at, and the error code of the second.
  pub TcError : Type 0
  pub NetlinkError : Type 0
  pub is_already_attached : TcError → Bool
  pub netlink_error : TcError → Option NetlinkError
  pub raw_os_error : NetlinkError → Option ℕ
  -- The machine: files, and the `clsact` qdiscs of its interfaces.
  pub Os : Type 0
  pub read : Os → Text → IoError ⊎ List ℕ
  pub read_to_string : Os → Text → IoError ⊎ Text
  pub qdisc_add_clsact : Os → Text → TcError ⊎ Os
  -- A loaded object. A map or a program is found by its name, and `none` of an `as_…` is success.
  pub Ebpf : Type 0
  pub load : List ℕ → EbpfError ⊎ Ebpf
  pub has_map : Ebpf → String → Bool
  pub as_hash_map : Ebpf → String → Option MapError
  pub insert : Ebpf → String → ℕ → Nat64Config → MapError ⊎ Ebpf
  pub as_per_cpu_array : Ebpf → String → Option MapError
  pub get_per_cpu : Ebpf → String → ℕ → MapError ⊎ List ProdCounters
  pub has_program : Ebpf → String → Bool
  pub as_classifier : Ebpf → String → Option ProgramError
  pub load_program : Ebpf → String → ProgramError ⊎ Ebpf
  pub attach_ingress : Os → Ebpf → String → Text → ProgramError ⊎ (Os × Ebpf)
  -- What can be observed: the entries of a map, whether a program is loaded, and whether it is on an
  -- interface, which the machine can change.
  pub get : Ebpf → String → ℕ → Option Nat64Config
  pub IsLoaded : Ebpf → String → Type 0
  pub IsAttached : Os → Ebpf → String → Text → Type 0

-- What is documented of an object: an insertion stores its entry, a program is loaded once, and no
-- call takes anything of that back.
pub record IsSystem (s : System) : Type 0 where
  pub get-insert :
      (e : s.Ebpf) (map : String) (key : ℕ) (value : Nat64Config) {e' : s.Ebpf}
      → s.insert e map key value ≡ inr e'
      → s.get e' map key ≡ some value
  pub get-load :
      (e : s.Ebpf) (program map : String) (key : ℕ) {e' : s.Ebpf}
      → s.load_program e program ≡ inr e'
      → s.get e' map key ≡ s.get e map key
  pub get-attach :
      (os : s.Os) (e : s.Ebpf) (program map : String) (interface : Text) (key : ℕ) {os' : s.Os}
      {e' : s.Ebpf}
      → s.attach_ingress os e program interface ≡ inr (os', e')
      → s.get e' map key ≡ s.get e map key
  pub load_once :
      (e : s.Ebpf) (program : String)
      → s.IsLoaded e program
      → (source : s.ProgramError) × (s.load_program e program ≡ inl source)
  pub load-IsLoaded :
      (e : s.Ebpf) (program : String) {e' : s.Ebpf}
      → s.load_program e program ≡ inr e'
      → s.IsLoaded e' program
  pub IsLoaded-insert :
      (e : s.Ebpf) (program map : String) (key : ℕ) (value : Nat64Config) {e' : s.Ebpf}
      → s.insert e map key value ≡ inr e'
      → s.IsLoaded e program
      → s.IsLoaded e' program
  pub IsLoaded-load :
      (e : s.Ebpf) (program other : String) {e' : s.Ebpf}
      → s.load_program e program ≡ inr e'
      → s.IsLoaded e other
      → s.IsLoaded e' other
  pub IsLoaded-attach :
      (os : s.Os) (e : s.Ebpf) (program other : String) (interface : Text) {os' : s.Os}
      {e' : s.Ebpf}
      → s.attach_ingress os e program interface ≡ inr (os', e')
      → s.IsLoaded e other
      → s.IsLoaded e' other
  pub attach-IsAttached :
      (os : s.Os) (e : s.Ebpf) (program : String) (interface : Text) {os' : s.Os} {e' : s.Ebpf}
      → s.attach_ingress os e program interface ≡ inr (os', e')
      → s.IsAttached os' e' program interface
  pub IsAttached-load :
      (os : s.Os) (e : s.Ebpf) (program other : String) (interface : Text) {e' : s.Ebpf}
      → s.load_program e program ≡ inr e'
      → s.IsAttached os e other interface
      → s.IsAttached os e' other interface
  pub IsAttached-attach :
      (os : s.Os) (e : s.Ebpf) (program other : String) (interface at : Text) {os' : s.Os}
      {e' : s.Ebpf}
      → s.attach_ingress os e program interface ≡ inr (os', e')
      → s.IsAttached os e other at
      → s.IsAttached os' e' other at
  pub IsAttached-clsact :
      (os : s.Os) (e : s.Ebpf) (program : String) (interface at : Text) {os' : s.Os}
      → s.qdisc_add_clsact os at ≡ inr os'
      → s.IsAttached os e program interface
      → s.IsAttached os' e program interface
  pub IsAttached-insert :
      (os : s.Os) (e : s.Ebpf) (program map : String) (interface : Text) (key : ℕ)
      (value : Nat64Config) {e' : s.Ebpf}
      → s.insert e map key value ≡ inr e'
      → s.IsAttached os e program interface
      → s.IsAttached os e' program interface
