-- ===== src/Userspace/Config.antt =====
-- natto64/src/lib.rs: the translation policy, its validation, and the dataplane's form of it.
pub mod Laws
pub mod Dataplane
pub mod Starved
use natto.Common.{
  ℕ, zero, suc, ◌+◌, ◌<◌, ◌≤◌, min, List, [], ◌∷◌, Bool, true, false, not, ◌&&◌, ◌||◌, Option, none,
  some, ltb, ◌==◌, if◌then◌else◌, length, replicate, saturating_add, u32,
}
use natto.Abi
use natto.Abi.{v4_pool_max, v4_select_policy_hash_vm_v6}
use natto.Userspace.System.{System}
use natto.Userspace.Error.{
  Result, ok, err, empty_v4_pool, v4_pool_too_large, invalid_port_range, invalid_session_timeout,
}

-- The first 12 bytes of `64:ff9b::/96`.
abbrev pub rfc_6052_well_known_prefix : List ℕ
rfc_6052_well_known_prefix = 0x00 ∷ 0x64 ∷ 0xff ∷ 0x9b ∷ replicate 8 0

-- `std::time::Duration`: whole seconds, and the nanoseconds of the last one.
pub record Duration : Type 0 where
  pub as_secs : ℕ
  pub subsec_nanos : ℕ

-- The policy; an address of the pool is its 32 bits as a number.
pub record Nat64Config : Type 0 where
  pub prefix96 : List ℕ
  pub v4_pool : List ℕ
  pub port_min : ℕ
  pub port_max : ℕ
  pub session_timeout : Option Duration

abbrev is_zero : Duration → Bool
is_zero timeout = timeout.as_secs == 0 && timeout.subsec_nanos == 0

abbrev is_zero_timeout : Option Duration → Bool
is_zero_timeout none = false
is_zero_timeout (some timeout) = is_zero timeout

unfoldable pub validate : (s : System) → Nat64Config → Result s (Unit {0})
validate s config =
    if length config.v4_pool == 0
    then err empty_v4_pool
    else if ltb v4_pool_max (length config.v4_pool)
    then err (v4_pool_too_large (length config.v4_pool) v4_pool_max)
    else if config.port_min == 0 || ltb config.port_max config.port_min
    then err (invalid_port_range config.port_min config.port_max)
    else if is_zero_timeout config.session_timeout
    then err invalid_session_timeout
    else ok tt

-- `for (slot, address) in v4_pool.iter_mut().zip(&self.v4_pool)`.
unfoldable pub fill_slots : List ℕ → List ℕ → List ℕ
fill_slots [] addresses = []
fill_slots (slot ∷ slots) [] = slot ∷ slots
fill_slots (slot ∷ slots) (address ∷ addresses) = address ∷ fill_slots slots addresses

unfoldable pub timeout_secs : Option Duration → ℕ
timeout_secs none = 0
timeout_secs (some timeout) =
    let rounded_up =
      saturating_add timeout.as_secs (if not (timeout.subsec_nanos == 0) then 1 else 0) in
    u32 (min rounded_up 0xffff_ffff)

unfoldable pub dataplane_config : Nat64Config → ℕ → ℕ → Abi.Nat64Config
dataplane_config config bridge_ifindex uplink_ifindex = record {
  prefix96 = config.prefix96;
  v4_pool = fill_slots (replicate v4_pool_max 0) config.v4_pool;
  v4_pool_len = u32 (length config.v4_pool);
  bridge_ifindex = bridge_ifindex;
  uplink_ifindex = uplink_ifindex;
  port_min = config.port_min;
  port_max = config.port_max;
  session_timeout_secs = timeout_secs config.session_timeout;
  v4_policy = v4_select_policy_hash_vm_v6;
  pad = 0 ∷ 0 ∷ 0 ∷ [];
}
