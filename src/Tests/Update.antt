-- ===== src/Tests/Update.antt =====
-- Checksums that natto64-ebpf/src/lib.rs updates, at concrete inputs.
use natto.Common.{
  ℕ, ◌^◌, ◌<◌, ◌≡◌, ◌≢◌, refl, List, [], ◌∷◌, ◌++◌, true, none, some, arith, length, replicate,
  take, drop,
}
use natto.Abi.{
  NatVal, build_ipv4_pseudo_header_bytes, build_ipv6_pseudo_header_bytes,
  new_forward_with_generation, default_ring,
}
use natto.Xlat.Checksum.{checksum16}
use natto.Xlat.Checksum.Words.{IsBytes, checksum16-residue}
use natto.Ebpf.World.{World}
use natto.Ebpf.Ipv6.{Ipv6Info}
use natto.Ebpf.Sessions.{default_cfg}
use natto.Ebpf.Forward.Rewrite.{forward_tcp_rewrite}
use natto.Ebpf.Reverse.Rewrite.{rewrite_tcp, nat64_source_v6}
use natto.Ebpf.Update.Segment.{segment}
use natto.Ebpf.Update.Reply.{Returned, IsRemotePacket}
use natto.Ebpf.Update.Reverse.{rewrite_tcp-Returned}
use natto.Ebpf.Ipv6.{parse_ipv6_base}
use natto.Ebpf.Pool.{v4_in_pool}
use natto.Ebpf.Forward.{try_nat64_forward}
use natto.Ebpf.Consistent.Reach.{IsFresh, IsFresh-IsConsistent}
use natto.Ebpf.Update.Frame.{IsClientFrame, Translated}
use natto.Ebpf.Update.Classifier.{try_nat64_forward-Translates}
use natto.Tests.Machine.{machine_laws, no_samples}
use natto.Tests.Forward.{server6}
use natto.Tests.Reverse.{home, remote, external}
use natto.Tests.Summing.{summing, summing-IsPacketKernel}

abbrev quiet : World summing
quiet = record {
  config = none;
  prod = none;
  debug = none;
  nat = λ key. none;
  fwd_nat = λ key. none;
  port_cursor = some 41;
  port_cooldown = some default_ring;
  samples = no_samples;
}

abbrev info : Ipv6Info
info = record { src = home; dst = server6; next_header = 6; payload_len = 20; l4_abs_offset = 54 }

-- From port 443 on: the sequence numbers, the flags of a SYN and the window.
abbrev syn_middle : List ℕ
syn_middle = 1 ∷ 187 ∷ 0 ∷ 0 ∷ 0 ∷ 1 ∷ 0 ∷ 0 ∷ 0 ∷ 0 ∷ 0x50 ∷ 2 ∷ 0xff ∷ 0xff ∷ []

abbrev urgent : List ℕ
urgent = 0 ∷ 0 ∷ []

abbrev syn_segment : List ℕ
syn_segment = segment [] syn_middle urgent 51_000 175 161

syn_verifies : checksum16 (build_ipv6_pseudo_header_bytes home server6 20 6 ++ syn_segment) ≡ 0xffff
unfolding build_ipv6_pseudo_header_bytes natto.Xlat.Checksum.Fold.residue
    natto.Xlat.Checksum.Words.word_sum
syn_verifies =
    checksum16-residue (build_ipv6_pseudo_header_bytes home server6 20 6 ++ syn_segment)
      (ground arith) (omega arith)

remote_word : natto.Abi.nat64_embedded_v4_be server6 < 2 ^ 32
unfolding natto.Abi.nat64_embedded_v4_be
remote_word = omega arith

abbrev answer : NatVal
answer = new_forward_with_generation home 51_000 remote 443 99 1000

abbrev ack_middle : List ℕ
ack_middle = 0 ∷ 0 ∷ 0 ∷ 1 ∷ 0 ∷ 0 ∷ 0 ∷ 0 ∷ 0x50 ∷ 0x12 ∷ 0xff ∷ 0xff ∷ []

abbrev https : List ℕ
https = 1 ∷ 187 ∷ []

abbrev ack_segment : List ℕ
ack_segment = segment https ack_middle urgent 20_042 19 178

abbrev ack_packet : List ℕ
ack_packet = replicate 12 0 ++ (0x08 ∷ 0x00 ∷ []) ++ (replicate 20 0 ++ (ack_segment ++ []))

ack_verifies :
    checksum16 (build_ipv4_pseudo_header_bytes remote external 20 6 ++ ack_segment) ≡ 0xffff
unfolding build_ipv4_pseudo_header_bytes natto.Xlat.Checksum.Fold.residue
    natto.Xlat.Checksum.Words.word_sum
ack_verifies =
    checksum16-residue (build_ipv4_pseudo_header_bytes remote external 20 6 ++ ack_segment)
      (ground arith) (omega arith)

ack_remote :
    IsRemotePacket summing-IsPacketKernel 20 remote external 20_042 answer
      (replicate 12 0)
      (0x08 ∷ 0x00 ∷ [])
      (replicate 20 0)
      https
      ack_middle
      urgent
      []
      19
      178
      ack_packet
ack_remote = record {
  macs_size = refl;
  kind_size = refl;
  gap_size = refl;
  head_size = refl;
  middle_size = refl;
  rest_size = refl;
  parts = record {
    even_head = refl;
    even_middle = refl;
    head_bytes = ground arith;
    middle_bytes = ground arith;
    rest_bytes = ground arith;
  };
  lo_byte = omega arith;
  hi_byte = omega arith;
  holds = refl;
  complete = tt;
  verifies = ack_verifies;
}

ack_returned :
    (rewrite_tcp default_cfg 20 remote external 20_042 answer ack_packet quiet).2
    ≢ summing.tc_act_pipe
unfolding rewrite_tcp natto.Ebpf.Packet.write_ipv6_header natto.Ebpf.Packet.ipv6_wire_header
    natto.Ebpf.Packet.Transport.apply_l4_nat64_checksum_delta_v4_to_v6
    natto.Ebpf.Packet.Transport.csum_diff natto.Ebpf.Packet.ipv6_pseudo_header
    natto.Ebpf.Packet.ipv4_pseudo_header natto.Ebpf.Packet.Transport.replace_port nat64_source_v6
    natto.Ebpf.Reverse.Rewrite.send natto.Ebpf.Packet.redirect_to_iface
    natto.Ebpf.Sessions.default_cfg new_forward_with_generation
ack_returned = omega arith

home-IsBytes : (answer.vm_port < 65536) × (length answer.vm_v6 ≡ 16) × IsBytes answer.vm_v6
unfolding new_forward_with_generation
home-IsBytes = (omega arith, refl, ground arith)

rewrite_tcp-Returned_example :
    Returned summing-IsPacketKernel 20 remote external 20_042 answer
      (replicate 12 0)
      (0x08 ∷ 0x00 ∷ [])
      (replicate 20 0)
      https
      ack_middle
      urgent
      []
      19
      178
      (rewrite_tcp default_cfg 20 remote external 20_042 answer ack_packet quiet).1
rewrite_tcp-Returned_example =
    rewrite_tcp-Returned summing-IsPacketKernel default_cfg 20 remote external 20_042 answer
      (replicate 12 0) (0x08 ∷ 0x00 ∷ []) (replicate 20 0) https ack_middle urgent [] 19 178
      (omega arith) (omega arith) (omega arith) (omega arith) home-IsBytes.0 home-IsBytes.1
      home-IsBytes.2 ack_packet ack_remote quiet ack_returned

-- The same packet as it arrives, in a state without sessions.
abbrev frame_start : List ℕ
frame_start = 0x60 ∷ 0 ∷ 0 ∷ 0 ∷ 0 ∷ 20 ∷ 6 ∷ 64 ∷ take 12 home

abbrev frame_gap : List ℕ
frame_gap = drop 12 home ++ server6

abbrev frame : List ℕ
frame = replicate 12 0 ++ (0x86 ∷ 0xdd ∷ []) ++ frame_start ++ (frame_gap ++ (syn_segment ++ []))

syn_parses : parse_ipv6_base summing frame 14 ≡ some info
unfolding parse_ipv6_base natto.Ebpf.Packet.load_be16 natto.Ebpf.Packet.load_be32
    natto.Ebpf.Packet.load_u8 natto.Ebpf.Ipv6.ipv6_from_be_words natto.Xlat.Wire.read_u16_be
    natto.Xlat.Wire.read_u32_be
syn_parses = refl

syn_frame :
    IsClientFrame summing-IsPacketKernel default_cfg info 51_000
      (replicate 12 0)
      (0x86 ∷ 0xdd ∷ [])
      frame_start
      frame_gap
      syn_middle
      urgent
      []
      175
      161
      frame
syn_frame = record {
  macs_size = refl;
  kind_size = refl;
  start_size = refl;
  gap_size = refl;
  middle_size = refl;
  payload_size = refl;
  parts = record {
    even_head = refl;
    even_middle = refl;
    head_bytes = tt;
    middle_bytes = ground arith;
    rest_bytes = ground arith;
  };
  lo_byte = omega arith;
  hi_byte = omega arith;
  src_size = refl;
  dst_size = refl;
  src_bytes = ground arith;
  dst_bytes = ground arith;
  remote_word = remote_word;
  sport_word = omega arith;
  parses = syn_parses;
  is_tcp = refl;
  holds = refl;
  complete = tt;
  verifies = syn_verifies;
}

quiet-IsFresh : IsFresh default_cfg quiet
unfolding natto.Ebpf.Sessions.current_cfg
quiet-IsFresh = record { has_config = refl; no_flow = λ key. refl; no_session = λ key. refl }

port_words : default_cfg.port_max < 65536
unfolding default_cfg
port_words = omega arith

pool_words : (v4 : ℕ) → v4_in_pool v4 default_cfg ≡ true → v4 < 2 ^ 32
unfolding v4_in_pool default_cfg natto.Ebpf.Pool.pool_prefix_contains
pool_words v4 h = ground arith

syn_leaves : (try_nat64_forward frame 1000 99 quiet).2 ≢ summing.tc_act_pipe
unfolding try_nat64_forward natto.Ebpf.Forward.forward_parsed natto.Ebpf.Forward.forward_tcp
    natto.Ebpf.Forward.forward_tcp_mapped natto.Ebpf.Forward.forward_diagnose
    natto.Ebpf.Sampling.record_fwd_dst_sample natto.Ebpf.Sampling.classify_fwd_dst
    natto.Ebpf.Sampling.same_bytes natto.Ebpf.World.with_counters natto.Ebpf.Sessions.current_cfg
    natto.Ebpf.Pool.select_v4_from_pool_ebpf natto.Ebpf.Pool.pool_entry natto.Abi.hash_bytes
    natto.Ebpf.Sessions.lookup_or_create_mapping natto.Ebpf.Sessions.create_mapping
    natto.Ebpf.Sessions.insert_mapping natto.Ebpf.Sessions.finish_mapping
    natto.Ebpf.Ports.alloc_port natto.Ebpf.Ports.probe_loop natto.Ebpf.Ports.in_cooldown
    natto.Ebpf.Ports.take_port natto.Ebpf.Cooldown.cooldown_contains
    natto.Ebpf.Cooldown.cooldown_push default_ring parse_ipv6_base natto.Ebpf.Packet.load_be16
    natto.Ebpf.Packet.load_be32 natto.Ebpf.Packet.load_u8 natto.Ebpf.Ipv6.ipv6_from_be_words
    natto.Xlat.Wire.read_u16_be natto.Xlat.Wire.read_u32_be natto.Ebpf.Ipv6.is_extension_header
    natto.Ebpf.Packet.Transport.tcp_ports forward_tcp_rewrite natto.Ebpf.Packet.write_ipv4_header
    natto.Ebpf.Packet.ipv4_wire_header
    natto.Ebpf.Packet.Transport.apply_l4_nat64_checksum_delta_v6_to_v4
    natto.Ebpf.Packet.Transport.load_u16 natto.Ebpf.Packet.Transport.csum_diff
    natto.Ebpf.Packet.ipv6_pseudo_header natto.Ebpf.Packet.ipv4_pseudo_header
    natto.Ebpf.Packet.Transport.replace_port natto.Ebpf.Packet.Transport.mark_udp_ipv4
    natto.Ebpf.Forward.Rewrite.forward_tcp_insert natto.Ebpf.Forward.Rewrite.send_uplink
    natto.Ebpf.Packet.redirect_to_iface natto.Ebpf.Sessions.default_cfg
syn_leaves = omega arith

try_nat64_forward-Translates_example :
    Translated summing-IsPacketKernel default_cfg info 51_000
      (replicate 12 0)
      (0x86 ∷ 0xdd ∷ [])
      frame_start
      frame_gap
      syn_middle
      urgent
      []
      175
      161
      (try_nat64_forward frame 1000 99 quiet).1
try_nat64_forward-Translates_example =
    try_nat64_forward-Translates summing-IsPacketKernel default_cfg info 1000 99 51_000
      (replicate 12 0) (0x86 ∷ 0xdd ∷ []) frame_start frame_gap syn_middle urgent [] 175 161
      machine_laws port_words pool_words frame syn_frame quiet (IsFresh-IsConsistent quiet-IsFresh)
      syn_leaves
