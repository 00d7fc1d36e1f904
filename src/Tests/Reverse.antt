-- ===== src/Tests/Reverse.antt =====
-- Replies through the classifier of natto64-ebpf/src/lib.rs at concrete inputs.
use natto.Common.{
  ℕ, ◌≡◌, refl, inl, List, [], ◌∷◌, ◌++◌, true, false, none, some, arith, length, splice, replicate,
  to_be_bytes16, to_be_bytes32, take, drop, byte_at, if◌then◌else◌, ◌==◌,
}
use natto.Abi.{NatVal, new_forward_with_generation, default_ring}
use natto.Xlat.Checksum.Verify.{Transport, tcp, udp}
use natto.Xlat.Headers.Fields.{build_ipv4_header, build_ipv6_header}
use natto.Ebpf.World.{World}
use natto.Ebpf.Sessions.{default_cfg, current_cfg}
use natto.Ebpf.Pool.{v4_in_pool}
use natto.Ebpf.Packet.{
  write_ipv4_header, write_ipv6_header, ipv4_pseudo_header, ipv6_pseudo_header, load_u8, load_be16,
  load_be32,
}
use natto.Ebpf.Packet.Headers.{write_ipv4_header_builds, write_ipv6_header_builds}
use natto.Ebpf.Packet.Transport.{tcp_ports}
use natto.Ebpf.Reverse.{Ipv4Info, try_nat64_reverse}
use natto.Ebpf.Reverse.Rewrite.{nat64_source_v6, rewrite_udp}
use natto.Ebpf.Reverse.Replies.{Header, IsReply, Verdict}
use natto.Ebpf.Reverse.Guard.{try_nat64_reverse-Verdict}
use natto.Ebpf.Reverse.Translate.{Rewritten, checked}
use natto.Ebpf.Reverse.Delivery.{try_nat64_reverse_delivers}
use natto.Ebpf.Reverse.ZeroChecksum.{rewrite_udp_loses}
use natto.Tests.Machine.{no_samples, machine}

-- A client whose address has two zero bytes after the first two.
abbrev pub home : List ℕ
home = 0xfd ∷ 0x12 ∷ 0 ∷ 0 ∷ replicate 12 7

abbrev pub remote : ℕ
remote = 0x08080808

abbrev pub external : ℕ
external = 0xcb00710a

abbrev header : ℕ → List ℕ
header proto =
    0x45 ∷ 0 ∷ 0 ∷ 40 ∷ 0 ∷ 0 ∷ 0x40 ∷ 0 ∷ 64 ∷ proto ∷ 0 ∷ 0 ∷ 8 ∷ 8 ∷ 8 ∷ 8 ∷ 203 ∷ 0 ∷ 113 ∷ 10
    ∷ []

-- A reply from port 443 to port 20042.
abbrev pub packet : ℕ → List ℕ
packet proto =
    replicate 12 0
    ++ (0x08 ∷ 0x00 ∷ [])
    ++ header proto
    ++ (1 ∷ 187 ∷ 78 ∷ 74 ∷ 0 ∷ 20 ∷ 0xab ∷ 0xcd ∷ replicate 12 0)

abbrev pub session : NatVal
session = new_forward_with_generation home 51_000 remote 443 99 1000

abbrev pub refreshed : NatVal
refreshed = record session { last_seen_ns = 5000 }

abbrev pub world : World machine
world = record {
  config = some (record default_cfg { bridge_ifindex = 3 });
  prod = none;
  debug = none;
  nat = λ key. some session;
  fwd_nat = λ key. none;
  port_cursor = some 41;
  port_cooldown = some default_ring;
  samples = no_samples;
}

abbrev pub info : Ipv4Info
info = record {
  ihl_bytes = 20;
  total_len = 40;
  is_fragment = false;
  proto = 6;
  ipv4_src = remote;
  ipv4_dst = external;
}

unfoldable pub reads : Header machine (packet 6) info
unfolding load_u8 load_be16 load_be32 natto.Xlat.Wire.read_u16_be natto.Xlat.Wire.read_u32_be
reads = record {
  vihl = 0x45;
  reads_vihl = refl;
  has_ihl_bytes = refl;
  reads_total_len = refl;
  flags = 0x4000;
  reads_flags = refl;
  has_is_fragment = refl;
  reads_proto = refl;
  reads_src = refl;
  reads_dst = refl;
}

pub ports : tcp_ports machine (packet 6) 34 ≡ some (443, 20_042)
unfolding tcp_ports load_be16 natto.Xlat.Wire.read_u16_be
ports = refl

pooled : v4_in_pool external (current_cfg world) ≡ true
unfolding v4_in_pool current_cfg default_cfg natto.Ebpf.Pool.pool_prefix_contains
pooled = refl

reply : IsReply world (packet 6) info 443 20_042 session
unfolding new_forward_with_generation
reply = record {
  segment = record {
    header = reads;
    unfragmented = refl;
    transport = inl refl;
    reads_ports = ports;
  };
  in_pool = pooled;
  stored = refl;
  from_address = refl;
  from_port = refl;
}

pub ethernet : load_be16 machine (packet 6) 12 ≡ some 0x0800
unfolding load_be16 natto.Xlat.Wire.read_u16_be
ethernet = refl

abbrev pub typed : ℕ → List ℕ
typed proto =
    splice (take 14 (packet proto) ++ replicate 20 0 ++ drop 14 (packet proto)) 12
      (0x86 ∷ 0xdd ∷ [])

abbrev pub headed : Transport → ℕ → ℕ → List ℕ
headed t proto len =
    splice (typed proto) 14 (build_ipv6_header t (nat64_source_v6 remote) home len 64)

abbrev pub addressed : Transport → ℕ → ℕ → List ℕ
addressed t proto len = splice (headed t proto len) 56 (to_be_bytes16 51_000)

unfoldable pub rewritten : Rewritten machine tcp (packet 6) 20 remote external 20_042 refreshed
unfolding nat64_source_v6 new_forward_with_generation natto.Xlat.Headers.build_ipv6_header_tcp
rewritten = record {
  grown = take 14 (packet 6) ++ replicate 20 0 ++ drop 14 (packet 6);
  grows = refl;
  typed = typed 6;
  types = refl;
  headed = headed tcp 6 20;
  heads = refl;
  addressed = addressed tcp 6 20;
  addresses = refl;
}

try_nat64_reverse-Verdict_example :
    Verdict world (packet 6) 5000 (try_nat64_reverse (packet 6) 5000 world)
try_nat64_reverse-Verdict_example = try_nat64_reverse-Verdict world (packet 6) 5000

pub update :
    checked machine tcp 20 remote external 20_042 refreshed (addressed tcp 6 20)
    ≡ (addressed tcp 6 20, true)
unfolding natto.Ebpf.Packet.Transport.apply_l4_nat64_checksum_delta_v4_to_v6
    natto.Ebpf.Packet.Transport.csum_diff ipv4_pseudo_header ipv6_pseudo_header nat64_source_v6
    new_forward_with_generation natto.Ebpf.Packet.Transport.replace_port
update = refl

client_16 : length session.vm_v6 ≡ 16
unfolding new_forward_with_generation
client_16 = refl

try_nat64_reverse_delivers_example :
    ((try_nat64_reverse (packet 6) 5000 world).1 ≡ addressed tcp 6 20)
    × ((try_nat64_reverse (packet 6) 5000 world).2 ≡ (
        if (current_cfg world).bridge_ifindex == 0
        then machine.tc_act_shot
        else machine.redirect_neigh (current_cfg world).bridge_ifindex))
unfolding rewritten reads
try_nat64_reverse_delivers_example =
    try_nat64_reverse_delivers world (packet 6) 5000 info 443 20_042 session reply
      (record {
        header = reads;
        ethertype = ethernet;
        version = refl;
        no_options = refl;
        holds_header = omega arith;
      })
      refl (omega arith) client_16 rewritten update

rewritten_udp : Rewritten machine udp (packet 17) 20 remote external 20_042 refreshed
unfolding nat64_source_v6 new_forward_with_generation natto.Xlat.Headers.build_ipv6_header_udp
rewritten_udp = record {
  grown = take 14 (packet 17) ++ replicate 20 0 ++ drop 14 (packet 17);
  grows = refl;
  typed = typed 17;
  types = refl;
  headed = headed udp 17 20;
  heads = refl;
  addressed = addressed udp 17 20;
  addresses = refl;
}

holds :
    machine.load rewritten_udp.addressed 40 2
    ≡ some (take 2 (drop 26 (build_ipv6_header udp (nat64_source_v6 remote) refreshed.vm_v6 20 64)))
unfolding rewritten_udp nat64_source_v6 new_forward_with_generation
    natto.Xlat.Headers.build_ipv6_header_udp
holds = refl

client_bytes : (byte_at refreshed.vm_v6 2 ≡ 0) × (byte_at refreshed.vm_v6 3 ≡ 0)
unfolding new_forward_with_generation
client_bytes = (refl, refl)

rewrite_udp_loses_example :
    ((rewrite_udp default_cfg 20 34 remote external 20_042 refreshed (packet 17) world).1
      ≡ rewritten_udp.addressed)
    × ((rewrite_udp default_cfg 20 34 remote external 20_042 refreshed (packet 17) world).2 ≡ 3)
rewrite_udp_loses_example =
    rewrite_udp_loses default_cfg (packet 17) 20 remote external 20_042 refreshed world client_16
      rewritten_udp holds client_bytes.0 client_bytes.1

write_ipv4_header_builds_example :
    write_ipv4_header machine (packet 6) 20 external remote 6
    ≡ machine.store
        (packet 6)
        14
        (build_ipv4_header tcp (to_be_bytes32 external) (to_be_bytes32 remote) 40 64 0)
write_ipv4_header_builds_example =
    write_ipv4_header_builds machine (packet 6) tcp 20 external remote (omega arith) (omega arith)

write_ipv6_header_builds_example :
    write_ipv6_header machine (packet 6) 20 6 home home
    ≡ machine.store (packet 6) 14 (build_ipv6_header tcp home home 20 64)
write_ipv6_header_builds_example =
    write_ipv6_header_builds machine (packet 6) tcp 20 home home refl refl
