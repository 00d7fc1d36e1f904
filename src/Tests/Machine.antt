-- ===== src/Tests/Machine.antt =====
-- A kernel for concrete runs: unbounded maps, timers that are the delay they were started with,
-- and packets that are lists of bytes.
use mathlib.Core.HLevel.{Discrete}
use mathlib.Core.Logic.{ite, if_pos, if_neg}
use mathlib.Core.Option
use natto.Common.{
  ℕ, ◌+◌, refl, sym, ap, ◌∙◌, List, [], Option, none, some, leb, if◌then◌else◌, ◌==◌, ◌++◌,
  replicate, length, take, drop, splice,
}
use natto.Abi.Keys.{NatKey-discrete, FwdNatKey-discrete}
use natto.Ebpf.World.{Samples}
use natto.Ebpf.Kernel.{LruMap, IsLruMap, Kernel}

module _ {K V : Type 0} (d : Discrete K) where
  abbrev stored : (K → Option V) → K → Option V → K → Option V
  stored t k v j = ite (d j k) v (t j)

  abbrev pub function_map : LruMap K V
  function_map = record {
    Map = K → Option V;
    get = λ t k. t k;
    insert = λ t k v. some (stored t k (some v));
    remove = λ t k. stored t k none;
    write = λ t k v. stored t k (some v);
  }

  pub function_map-IsLruMap : IsLruMap function_map
  function_map-IsLruMap = record {
    get-insert_self =
        λ t k v {u} e. sym (ap (λ o. Option.get_or o t k) e) ∙ if_pos (d k k) refl (some v) (t k);
    get-insert_ne = λ t k j v {u} {x} e ne h.
        sym (if_neg (d j k) ne (some v) (t j)) ∙ ap (λ o. Option.get_or o t j) e ∙ h;
    get-remove_self = λ t k. if_pos (d k k) refl none (t k);
    get-remove_ne = λ t k j ne. if_neg (d j k) ne none (t j);
    get-write_self = λ t k v h. if_pos (d k k) refl (some v) (t k);
    get-write_ne = λ t k j v ne. if_neg (d j k) ne (some v) (t j);
  }

abbrev pub machine : Kernel
machine = record {
  Timer = ℕ;
  zeroed = 0;
  timer_init = λ timer. some timer;
  timer_set_callback = λ timer. some timer;
  timer_start = λ timer delay. some delay;
  nat_maps = function_map NatKey-discrete;
  fwd_maps = function_map FwdNatKey-discrete;
  Skb = List ℕ;
  load = λ skb offset n.
      if leb (offset + n) (length skb) then some (take n (drop offset skb)) else none;
  store = λ skb offset bytes.
      if leb (offset + length bytes) (length skb) then some (splice skb offset bytes) else none;
  change_proto = λ skb proto. some (
      if proto == 0xdd86
      then take 14 skb ++ replicate 20 0 ++ drop 14 skb
      else take 14 skb ++ drop 34 skb);
  l4_csum_replace = λ skb offset from to flags. some skb;
  csum_diff = λ from to. some 0;
  redirect_neigh = λ ifindex. 7;
  tc_act_pipe = 3;
  tc_act_shot = 2;
  tc_act_redirect = 7;
  bpf_f_pseudo_hdr = 16;
  bpf_f_mark_mangled_0 = 32;
}

pub machine_laws : IsLruMap machine.fwd_maps
machine_laws = function_map-IsLruMap FwdNatKey-discrete

abbrev pub no_samples : Samples
no_samples = record {
  fwd_dst_cursor = none;
  fwd_dst = [];
  fwd_tcp_cursor = none;
  fwd_tcp = [];
  fwd_tcp_csum_cursor = none;
  fwd_tcp_csum = [];
}

pub nat_machine_laws : IsLruMap machine.nat_maps
nat_machine_laws = function_map-IsLruMap NatKey-discrete
