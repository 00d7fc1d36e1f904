-- ===== src/Userspace/Dataplane/Policy.antt =====
-- The policy of natto64/src/lib.rs as the classifiers of natto64-ebpf/src/lib.rs apply it.
use mathlib.Core.Option
use mathlib.Core.Path.{subst}
use natto.Common.{ℕ, ◌≤◌, ◌<◌, ◌≡◌, ◌≢◌, sym, ◌∙◌, ap, inl, inr, true, some, length, take, byte_at}
use natto.Abi
use natto.Ebpf.Kernel.{Kernel, IsLruMap}
use natto.Ebpf.World.{World}
use natto.Ebpf.Pool.{v4_in_pool}
use natto.Ebpf.Sessions.{current_cfg, default_cfg}
use natto.Ebpf.Sessions.Mapping.{Maps}
use natto.Ebpf.Ipv6.{Ipv6Info, parse_ipv6_base}
use natto.Ebpf.Packet.{load_be32}
use natto.Ebpf.Forward.{try_nat64_forward}
use natto.Ebpf.Reverse.{try_nat64_reverse}
use natto.Ebpf.Reverse.Guard.{try_nat64_reverse-Verdict}
use natto.Ebpf.Consistent.{IsConsistent}
use natto.Ebpf.Consistent.Forward.{flow_key}
use natto.Ebpf.Consistent.Forward.Carried.{ReadsPorts}
use natto.Ebpf.Consistent.Forward.Carrying.{try_nat64_forward-Forwards}
use natto.Ebpf.Consistent.Reach as States
use natto.Ebpf.Consistent.Reach.{IsFresh, Reach-IsConsistent}
use natto.Userspace.System.{System, IsSystem, Text}
use natto.Userspace.Error.{ok}
use natto.Userspace.Config.{Nat64Config, dataplane_config}
use natto.Userspace.Config.Laws.{IsValid}
use natto.Userspace.Config.Dataplane.{v4_in_policy_iff}
use natto.Userspace.Dataplane.{Runtime, config_map_name, load}
use natto.Userspace.Dataplane.Lifecycle.{Reach, Reach-IsSound}

-- One of the addresses of a policy.
abbrev pub InPool : Nat64Config → ℕ → Type 0
InPool config v4 = (i : ℕ) × (i < length config.v4_pool) × (byte_at config.v4_pool i ≡ v4)

module _ {k : Kernel} (config : Nat64Config) (skb : k.Skb) where
  -- A packet to the prefix of a policy, whose flow is mapped in `v` to an address of the policy and a
  -- port of its range.
  pub record SentBy (v : World k) : Type 0 where
    pub info : Ipv6Info
    pub parses : parse_ipv6_base k skb 14 ≡ some info
    pub to_prefix : take 12 info.dst ≡ config.prefix96
    pub sport : ℕ
    pub dport : ℕ
    pub ports : ReadsPorts k skb info info.next_header sport dport
    pub ext_v4 : ℕ
    pub ext_port : ℕ
    pub generation : ℕ
    pub mapped : Maps v (flow_key info sport dport info.next_header) ext_v4 ext_port generation
    pub in_policy : InPool config ext_v4
    pub above_min : config.port_min ≤ ext_port
    pub below_max : ext_port ≤ config.port_max

-- A packet to an address of a policy.
pub record AnswerTo (k : Kernel) (config : Nat64Config) (skb : k.Skb) : Type 0 where
  pub ext_v4 : ℕ
  pub reads_dst : load_be32 k skb 30 ≡ some ext_v4
  pub in_policy : InPool config ext_v4

-- The classifiers in the state `w` apply a policy to any packet that they do not pass on.
pub record Applies (config : Nat64Config) {k : Kernel} (w : World k) : Type 0 where
  pub forward :
      (skb : k.Skb) (now prandom : ℕ)
      → (try_nat64_forward skb now prandom w).2 ≢ k.tc_act_pipe
      → SentBy config skb (try_nat64_forward skb now prandom w).0
  pub reverse :
      (skb : k.Skb) (now : ℕ)
      → (try_nat64_reverse skb now w).2 ≢ k.tc_act_pipe
      → AnswerTo k config skb

module _ {k : Kernel} (fwd_laws : IsLruMap k.fwd_maps) (nat_laws : IsLruMap k.nat_maps)
    (config : Nat64Config) (valid : IsValid config) (bi ui : ℕ) (w : World k)
    (consistent : IsConsistent (dataplane_config config bi ui) w) where
  consistent-Applies : Applies config w
  unfolding dataplane_config
  consistent-Applies = record {
    forward = λ skb now prandom sent.
        let c =
          (try_nat64_forward-Forwards fwd_laws nat_laws (dataplane_config config bi ui) skb now
              prandom w consistent).carried
            sent in
        record {
          info = c.info;
          parses = c.parses;
          to_prefix = c.to_prefix;
          sport = c.sport;
          dport = c.dport;
          ports = c.ports;
          ext_v4 = c.ext_v4;
          ext_port = c.ext_port;
          generation = c.generation;
          mapped = c.has_session.mapped;
          in_policy = (v4_in_policy_iff config valid bi ui c.ext_v4).0 c.external.in_pool;
          above_min = c.external.above_min;
          below_max = c.external.below_max;
        };
    reverse = λ skb now sent. elim (try_nat64_reverse-Verdict w skb now) [
      | inl passed ↦ absurd (sent passed.passes)
      | inr answered ↦
          let r = answered.reply in
          record {
            ext_v4 = answered.ip.ipv4_dst;
            reads_dst = r.segment.header.reads_dst;
            in_policy =
                (v4_in_policy_iff config valid bi ui answered.ip.ipv4_dst).0
                  (ap (v4_in_pool answered.ip.ipv4_dst) (sym consistent.has_config) ∙ r.in_pool);
          }
    ];
  }

module _ {s : System} {k : Kernel} where
  -- However a dataplane was used since it was loaded: while it is attached, the classifiers that run
  -- with the configuration map of its object, from a state without sessions and over any steps of the
  -- dataplane, apply the policy that it keeps. A packet that the forward classifier does not pass on
  -- goes to the policy's prefix, and its flow has an external address of the policy and a port of its
  -- range; one that the reverse classifier does not pass on goes to an address of the policy.
  pub attached-Applies :
      (fwd_laws : IsLruMap k.fwd_maps) (nat_laws : IsLruMap k.nat_maps) (laws : IsSystem s)
      (os : s.Os) (path : Text) {r v : Runtime s} (start w : World k)
      → load os path ≡ ok r.nat64
      → Reach r v
      → v.nat64.attached ≡ true
      → start.config ≡ s.get v.nat64.ebpf config_map_name Abi.config_key
      → IsFresh (current_cfg start) start
      → States.Reach start w
      → (config : Nat64Config) × (v.nat64.config ≡ some config) × Applies config w
  unfolding current_cfg
  attached-Applies fwd_laws nat_laws laws os path start w loads reach attached shared fresh steps =
      let sound = Reach-IsSound laws os path loads reach in
      let (config, bridge, uplink, bi, ui, kept, configured, _) = sound.translates attached in
      let same : current_cfg start ≡ dataplane_config config bi ui =
        ap (λ c. Option.get_or c default_cfg) (shared ∙ configured) in
      let consistent : IsConsistent (dataplane_config config bi ui) w =
        subst (λ c. IsConsistent c w) same
          (Reach-IsConsistent fwd_laws nat_laws (current_cfg start) fresh steps) in
      (
        config,
        kept,
        consistent-Applies fwd_laws nat_laws config (sound.valid config kept) bi ui w consistent,
      )
