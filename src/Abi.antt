-- ===== src/Abi.antt =====
-- natto64-abi/src/lib.rs: the types and helpers that the dataplane and userspace share.
pub mod ProdCounters
pub mod DebugCounters
pub mod Samples
pub mod Keys
use natto.Common.{
  ℕ, ◌+◌, ◌%◌, ◌^◌, List, [], ◌∷◌, Bool, ◌&&◌, ◌||◌, Option, none, some, ltb, ◌==◌, if◌then◌else◌,
  u32, wrapping_mul32, bit_xor, replicate, set, splice, get_or, byte_at, to_be_bytes16,
  to_be_bytes32, from_be_bytes32,
}

pub record Nat64Config : Type 0 where
  pub prefix96 : List ℕ
  pub v4_pool : List ℕ
  pub v4_pool_len : ℕ
  pub bridge_ifindex : ℕ
  pub uplink_ifindex : ℕ
  pub port_min : ℕ
  pub port_max : ℕ
  pub session_timeout_secs : ℕ
  pub v4_policy : ℕ
  pub pad : List ℕ

abbrev pub config_key : ℕ
config_key = 0

abbrev pub v4_pool_max : ℕ
v4_pool_max = 16

abbrev pub cooldown_size : ℕ
cooldown_size = 64

abbrev pub v4_select_policy_hash_vm_v6 : ℕ
v4_select_policy_hash_vm_v6 = 0

pub record PortCooldownRing : Type 0 where
  pub idx : ℕ
  pub ports : List ℕ

unfoldable pub default_ring : PortCooldownRing
default_ring = record { idx = 0; ports = replicate cooldown_size 0 }

pub record NatKey : Type 0 where
  pub ext_v4 : ℕ
  pub ext_port : ℕ
  pub proto : ℕ
  pub pad : ℕ

pub record NatVal : Type 0 where
  pub vm_v6 : List ℕ
  pub vm_port : ℕ
  pub remote_v4 : ℕ
  pub remote_port : ℕ
  pub pad : ℕ
  pub generation : ℕ
  pub last_seen_ns : ℕ

pub record FwdNatKey : Type 0 where
  pub vm_v6 : List ℕ
  pub remote_v4 : ℕ
  pub vm_port : ℕ
  pub remote_port : ℕ
  pub proto : ℕ
  pub pad : List ℕ

unfoldable pub nat_key : ℕ → ℕ → ℕ → NatKey
nat_key ext_v4 ext_port proto = record {
  ext_v4 = ext_v4;
  ext_port = ext_port;
  proto = proto;
  pad = 0;
}

unfoldable pub nat_lookup_key_from_ipv4 : ℕ → ℕ → ℕ → NatKey
nat_lookup_key_from_ipv4 dst_v4 dst_port proto = nat_key dst_v4 dst_port proto

unfoldable pub nat_key_from_return_tuple : ℕ → ℕ → ℕ → NatKey
nat_key_from_return_tuple dst_v4 dst_port proto = nat_lookup_key_from_ipv4 dst_v4 dst_port proto

-- `NatVal::new_forward_with_generation`.
unfoldable pub new_forward_with_generation : List ℕ → ℕ → ℕ → ℕ → ℕ → ℕ → NatVal
new_forward_with_generation vm_v6 vm_port_host remote_v4_be remote_port_host generation seen =
    record {
      vm_v6 = vm_v6;
      vm_port = vm_port_host;
      remote_v4 = remote_v4_be;
      remote_port = remote_port_host;
      pad = 0;
      generation = generation;
      last_seen_ns = seen;
    }

-- `NatVal::new_forward`.
unfoldable pub new_forward : List ℕ → ℕ → ℕ → ℕ → ℕ → NatVal
new_forward vm_v6 vm_port_host remote_v4_be remote_port_host seen = record {
  vm_v6 = vm_v6;
  vm_port = vm_port_host;
  remote_v4 = remote_v4_be;
  remote_port = remote_port_host;
  pad = 0;
  generation = 0;
  last_seen_ns = seen;
}

unfoldable pub nat_make_entry : ℕ → ℕ → ℕ → List ℕ → ℕ → ℕ → ℕ → ℕ → NatKey × NatVal
nat_make_entry ext_v4 ext_port proto vm_v6 vm_port remote_v4 remote_port seen =
    (nat_key ext_v4 ext_port proto, new_forward vm_v6 vm_port remote_v4 remote_port seen)

unfoldable pub nat_tuple_matches : NatVal → ℕ → ℕ → Bool
nat_tuple_matches nat_val ipv4_src tcp_sport =
    nat_val.remote_v4 == ipv4_src && nat_val.remote_port == tcp_sport

unfoldable pub fwd_nat_key : List ℕ → ℕ → ℕ → ℕ → ℕ → FwdNatKey
fwd_nat_key vm_v6 remote_v4 vm_port remote_port proto = record {
  vm_v6 = vm_v6;
  remote_v4 = remote_v4;
  vm_port = vm_port;
  remote_port = remote_port;
  proto = proto;
  pad = 0 ∷ 0 ∷ 0 ∷ [];
}

unfoldable pub nat64_embedded_v4_be : List ℕ → ℕ
nat64_embedded_v4_be dst =
    from_be_bytes32 (byte_at dst 12) (byte_at dst 13) (byte_at dst 14) (byte_at dst 15)

unfoldable pub nat64_embedded_v4_bytes : List ℕ → List ℕ
nat64_embedded_v4_bytes dst = byte_at dst 12 ∷ byte_at dst 13 ∷ byte_at dst 14 ∷ byte_at dst 15 ∷ []

-- The FNV-1a loop over the address.
unfoldable pub hash_bytes : List ℕ → ℕ → ℕ
hash_bytes [] hash = hash
hash_bytes (byte ∷ rest) hash = hash_bytes rest (wrapping_mul32 (bit_xor hash byte) 0x0100_0193)

unfoldable pub select_v4_from_pool : List ℕ → Nat64Config → Option ℕ
select_v4_from_pool vm_v6 cfg =
    if cfg.v4_pool_len == 0 || ltb v4_pool_max cfg.v4_pool_len
    then none
    else some (get_or cfg.v4_pool (hash_bytes vm_v6 0x811c_9dc5 % cfg.v4_pool_len) 0)

unfoldable pub build_ipv4_pseudo_header_bytes : ℕ → ℕ → ℕ → ℕ → List ℕ
build_ipv4_pseudo_header_bytes src_v4_be dst_v4_be l4_len proto =
    let pseudo = replicate 12 0 in
    let pseudo = splice pseudo 0 (to_be_bytes32 src_v4_be) in
    let pseudo = splice pseudo 4 (to_be_bytes32 dst_v4_be) in
    let pseudo = set pseudo 9 proto in splice pseudo 10 (to_be_bytes16 l4_len)

unfoldable pub build_ipv6_pseudo_header_bytes : List ℕ → List ℕ → ℕ → ℕ → List ℕ
build_ipv6_pseudo_header_bytes src_v6 dst_v6 l4_len next_header =
    let pseudo = replicate 40 0 in
    let pseudo = splice pseudo 0 src_v6 in
    let pseudo = splice pseudo 16 dst_v6 in
    let pseudo = splice pseudo 32 (to_be_bytes32 l4_len) in set pseudo 39 next_header
