-- ===== src/Ebpf/Kernel.antt =====
-- What the classifiers of natto64-ebpf take from the kernel and from the `aya-ebpf` crate: packet
-- access, LRU hash maps and timers. None of it is code of this repository, so it is an interface.
use natto.Common.{ℕ, ◌≡◌, ◌≢◌, List, Option, none, some}
use natto.Abi.{NatKey, NatVal, FwdNatKey}

-- An LRU hash map. `insert` fails with `none`, and `write` stores through the pointer that
-- `get_ptr_mut` gives for a key that is present.
pub record LruMap (K V : Type 0) : Type 1 where
  pub Map : Type 0
  pub get : Map → K → Option V
  pub insert : Map → K → V → Option Map
  pub remove : Map → K → Map
  pub write : Map → K → V → Map

-- What is documented of it: an insertion stores its entry and may evict others, which never
-- changes the value of an entry that stays.
pub record IsLruMap {K V : Type 0} (m : LruMap K V) : Type 0 where
  pub get-insert_self :
      (t : m.Map) (k : K) (v : V) {u : m.Map} → m.insert t k v ≡ some u → m.get u k ≡ some v
  pub get-insert_ne :
      (t : m.Map) (k j : K) (v : V) {u : m.Map} {x : V}
      → m.insert t k v ≡ some u
      → j ≢ k
      → m.get u j ≡ some x
      → m.get t j ≡ some x
  pub get-remove_self : (t : m.Map) (k : K) → m.get (m.remove t k) k ≡ none
  pub get-remove_ne : (t : m.Map) (k j : K) → j ≢ k → m.get (m.remove t k) j ≡ m.get t j
  pub get-write_self :
      (t : m.Map) (k : K) (v : V) {x : V} → m.get t k ≡ some x → m.get (m.write t k v) k ≡ some v
  pub get-write_ne : (t : m.Map) (k j : K) (v : V) → j ≢ k → m.get (m.write t k v) j ≡ m.get t j

-- `TimedFwdNatVal`, over the kernel's timers.
pub record TimedFwdNatVal (Timer : Type 0) : Type 0 where
  pub ext_v4 : ℕ
  pub ext_port : ℕ
  pub pad : ℕ
  pub last_seen_ns : ℕ
  pub generation : ℕ
  pub pad2 : ℕ
  pub observed_last_seen_ns : ℕ
  pub timer : Timer

pub record Kernel : Type 1 where
  -- `bpf_timer`, its zeroed state, and the three helpers, which fail with `none`.
  pub Timer : Type 0
  pub zeroed : Timer
  pub timer_init : Timer → Option Timer
  pub timer_set_callback : Timer → Option Timer
  pub timer_start : Timer → ℕ → Option Timer
  -- The maps `NAT` and `FWD_NAT`.
  pub nat_maps : LruMap NatKey NatVal
  pub fwd_maps : LruMap FwdNatKey (TimedFwdNatVal Timer)
  -- The packet: `load` gives bytes at an offset, and the helpers that change it fail with `none`
  -- and then leave it as it was.
  pub Skb : Type 0
  pub load : Skb → ℕ → ℕ → Option (List ℕ)
  pub store : Skb → ℕ → List ℕ → Option Skb
  pub change_proto : Skb → ℕ → Option Skb
  pub l4_csum_replace : Skb → ℕ → ℕ → ℕ → ℕ → Option Skb
  -- `bpf_csum_diff`, `none` where it is negative, and the action of `bpf_redirect_neigh`.
  pub csum_diff : List ℕ → List ℕ → Option ℕ
  pub redirect_neigh : ℕ → ℕ
  -- The constants of the kernel's headers.
  pub tc_act_pipe : ℕ
  pub tc_act_shot : ℕ
  pub tc_act_redirect : ℕ
  pub bpf_f_pseudo_hdr : ℕ
  pub bpf_f_mark_mangled_0 : ℕ
