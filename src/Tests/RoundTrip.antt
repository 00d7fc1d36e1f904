-- ===== src/Tests/RoundTrip.antt =====
-- A flow through both classifiers of natto64-ebpf/src/lib.rs at concrete inputs.
use mathlib.Core.Option
use natto.Common.{
  ℕ, ◌≡◌, refl, sym, ap, inl, List, [], ◌∷◌, ◌++◌, none, some, take, drop, splice, replicate, arith,
  ◌==◌, if◌then◌else◌,
}
use natto.Abi.{
  Nat64Config, NatVal, nat_key, nat64_embedded_v4_be, new_forward_with_generation, default_ring,
}
use natto.Xlat.Checksum.Verify.{tcp}
use natto.Ebpf.Kernel.{TimedFwdNatVal}
use natto.Ebpf.World.{World}
use natto.Ebpf.Sessions.{current_cfg, default_cfg, timed_fwd_nat_val}
use natto.Ebpf.Packet.{load_be16, load_be32, load_u8}
use natto.Ebpf.Packet.Transport.{tcp_ports}
use natto.Ebpf.Ipv6.{Ipv6Info, parse_ipv6_base, ipv6_from_be_words}
use natto.Ebpf.Forward.{try_nat64_forward}
use natto.Ebpf.Reverse.{try_nat64_reverse}
use natto.Ebpf.Consistent.Forward.{flow_key}
use natto.Ebpf.Consistent.Forward.Carried.{ReadsPorts, tcp_fields}
use natto.Ebpf.Consistent.Reach.{IsFresh, IsFresh-IsConsistent}
use natto.Ebpf.Consistent.RoundTrip.{seen, try_nat64_forward_answered}
use natto.Tests.Machine.{machine, machine_laws, nat_machine_laws, no_samples}
use natto.Tests.Forward.{server6, syn}
use natto.Tests.Reverse.{
  home, external, packet, reads, ports, ethernet, rewritten, update, addressed,
}
use natto.Tests.Reverse

abbrev bridged_cfg : Nat64Config
bridged_cfg = record default_cfg { bridge_ifindex = 3; uplink_ifindex = 4 }

abbrev home_packet : List ℕ
home_packet =
    replicate 12 0
    ++ (0x86 ∷ 0xdd ∷ 0x60 ∷ 0 ∷ 0 ∷ 0 ∷ 0 ∷ 20 ∷ 6 ∷ 64 ∷ [])
    ++ home
    ++ server6
    ++ syn

abbrev home_info : Ipv6Info
home_info = record {
  src = home;
  dst = server6;
  next_header = 6;
  payload_len = 20;
  l4_abs_offset = 54;
}

-- The state before it, without sessions.
abbrev fresh : World machine
fresh = record {
  config = some bridged_cfg;
  prod = none;
  debug = none;
  nat = λ key. none;
  fwd_nat = λ key. none;
  port_cursor = some 41;
  port_cooldown = some default_ring;
  samples = no_samples;
}

fresh-IsFresh : IsFresh bridged_cfg fresh
unfolding current_cfg
fresh-IsFresh = record { has_config = refl; no_flow = λ key. refl; no_session = λ key. refl }

parses : parse_ipv6_base machine home_packet 14 ≡ some home_info
unfolding parse_ipv6_base load_be16 load_be32 load_u8 ipv6_from_be_words natto.Xlat.Wire.read_u16_be
    natto.Xlat.Wire.read_u32_be
parses = refl

home_ports : ReadsPorts machine home_packet home_info 6 51_000 443
unfolding tcp_ports load_be16 natto.Xlat.Wire.read_u16_be
home_ports =
    tcp_fields (take 14 home_packet ++ drop 34 home_packet)
      (splice (take 14 home_packet ++ drop 34 home_packet) 12 (0x08 ∷ 0x00 ∷ [])) refl refl refl
      refl

abbrev value : TimedFwdNatVal ℕ
value = timed_fwd_nat_val machine external 20_042 99 1000

-- What the packet leaves in the reverse map, and the time it was last seen.
abbrev answer : ℕ → NatVal
answer seen_ns = seen home_info 51_000 443 99 seen_ns

-- The packet leaves, its mapping is in the forward map, and the entry for the replies in the other.
sent :
    ((try_nat64_forward home_packet 1000 99 fresh).2 ≡ 7)
    × ((try_nat64_forward home_packet 1000 99 fresh).0.fwd_nat (flow_key home_info 51_000 443 6)
        ≡ some value)
    × ((try_nat64_forward home_packet 1000 99 fresh).0.nat (nat_key external 20_042 6)
        ≡ some (answer 1000))
    × (current_cfg (try_nat64_forward home_packet 1000 99 fresh).0 ≡ bridged_cfg)
unfolding try_nat64_forward natto.Ebpf.Forward.forward_parsed natto.Ebpf.Forward.forward_tcp
    natto.Ebpf.Forward.forward_tcp_mapped natto.Ebpf.Forward.forward_diagnose
    natto.Ebpf.Sampling.record_fwd_dst_sample natto.Ebpf.Sampling.classify_fwd_dst
    natto.Ebpf.Sampling.same_bytes natto.Ebpf.World.with_counters current_cfg
    natto.Ebpf.Pool.select_v4_from_pool_ebpf natto.Ebpf.Pool.pool_entry natto.Abi.hash_bytes
    natto.Ebpf.Sessions.lookup_or_create_mapping natto.Ebpf.Sessions.create_mapping
    natto.Ebpf.Sessions.insert_mapping natto.Ebpf.Sessions.finish_mapping
    natto.Ebpf.Ports.alloc_port natto.Ebpf.Ports.probe_loop natto.Ebpf.Ports.in_cooldown
    natto.Ebpf.Ports.take_port natto.Ebpf.Cooldown.cooldown_contains
    natto.Ebpf.Cooldown.cooldown_push default_ring parse_ipv6_base load_be16 load_be32 load_u8
    ipv6_from_be_words natto.Xlat.Wire.read_u16_be natto.Xlat.Wire.read_u32_be
    natto.Ebpf.Ipv6.is_extension_header tcp_ports natto.Ebpf.Forward.Rewrite.forward_tcp_rewrite
    natto.Ebpf.Packet.write_ipv4_header natto.Ebpf.Packet.ipv4_wire_header
    natto.Ebpf.Packet.Transport.apply_l4_nat64_checksum_delta_v6_to_v4
    natto.Ebpf.Packet.Transport.load_u16 natto.Ebpf.Packet.Transport.csum_diff
    natto.Ebpf.Packet.ipv6_pseudo_header natto.Ebpf.Packet.ipv4_pseudo_header
    natto.Ebpf.Packet.Transport.replace_port natto.Ebpf.Packet.Transport.mark_udp_ipv4
    natto.Ebpf.Forward.Rewrite.forward_tcp_insert natto.Ebpf.Forward.Rewrite.send_uplink
    natto.Ebpf.Packet.redirect_to_iface natto.Ebpf.Packet.count_redirect
    natto.Ebpf.Sampling.record_fwd_tcp_csum_sample natto.Ebpf.Sampling.record_fwd_tcp_sample
    default_cfg nat64_embedded_v4_be natto.Abi.fwd_nat_key natto.Abi.Keys.FwdNatKey-discrete
    natto.Abi.Keys.NatKey-discrete natto.Abi.nat_key natto.Common.ℕ_discrete
    new_forward_with_generation timed_fwd_nat_val
sent = (refl, refl, refl, refl)

-- The state after a first reply.
abbrev open_world : World machine
open_world = record (try_nat64_forward home_packet 1000 99 fresh).0 {
  nat = λ key. some (answer 3000);
}

kept :
    open_world.nat (nat_key external 20_042 6)
    ≡ Option.map
        (λ (v : NatVal). record v { last_seen_ns = 3000 })
        ((try_nat64_forward home_packet 1000 99 fresh).0.nat (nat_key external 20_042 6))
unfolding timed_fwd_nat_val
kept = sym (ap (Option.map (λ (v : NatVal). record v { last_seen_ns = 3000 })) sent.2)

same_config : current_cfg open_world ≡ bridged_cfg
unfolding current_cfg
same_config = sent.3

try_nat64_forward_answered_example :
    ((try_nat64_reverse (packet 6) 5000 open_world).1 ≡ addressed tcp 6 20)
    × ((try_nat64_reverse (packet 6) 5000 open_world).2 ≡ (
        if bridged_cfg.bridge_ifindex == 0
        then machine.tc_act_shot
        else machine.redirect_neigh bridged_cfg.bridge_ifindex))
unfolding rewritten reads nat64_embedded_v4_be new_forward_with_generation timed_fwd_nat_val
try_nat64_forward_answered_example =
    try_nat64_forward_answered machine_laws nat_machine_laws bridged_cfg home_packet 1000 99 fresh
      (IsFresh-IsConsistent fresh-IsFresh) (omega (arith, sent.0)) home_info parses refl 51_000 443
      home_ports value sent.1 open_world (packet 6) 3000 5000 Reverse.info same_config kept
      (record {
        segment = record {
          header = reads;
          unfragmented = refl;
          transport = inl refl;
          reads_ports = ports;
        };
        is_tcp = refl;
        from_remote = refl;
        to_external = refl;
      })
      (record {
        header = reads;
        ethertype = ethernet;
        version = refl;
        no_options = refl;
        holds_header = omega arith;
      })
      (omega arith) rewritten update
