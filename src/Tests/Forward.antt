-- ===== src/Tests/Forward.antt =====
-- Packets through the forward classifier of natto64-ebpf/src/lib.rs at concrete inputs.
use natto.Common.{ℕ, ◌≡◌, ◌≢◌, ◌⊎◌, refl, List, [], ◌∷◌, ◌++◌, arith, replicate}
use natto.Ebpf.Ipv6.{Ipv6Info}
use natto.Ebpf.Reverse.Replies.{Passed}
use natto.Ebpf.Forward.{try_nat64_forward}
use natto.Ebpf.Forward.Guard.{Targeted, try_nat64_forward-Passed}
use natto.Ebpf.Forward.Rewrite.{forward_tcp_rewrite}
use natto.Tests.Machine.{machine}
use natto.Tests.Dataplane.{client, empty_world, expiring_cfg}

abbrev pub server6 : List ℕ
server6 = 0x00 ∷ 0x64 ∷ 0xff ∷ 0x9b ∷ replicate 8 0 ++ (8 ∷ 8 ∷ 8 ∷ 8 ∷ [])

abbrev pub syn : List ℕ
syn = 0xc7 ∷ 0x38 ∷ 1 ∷ 187 ∷ replicate 16 0

-- From port 51000 of the client to port 443 of 8.8.8.8.
abbrev pub packet6 : List ℕ
packet6 =
    replicate 12 0
    ++ (0x86 ∷ 0xdd ∷ 0x60 ∷ 0 ∷ 0 ∷ 0 ∷ 0 ∷ 20 ∷ 6 ∷ 64 ∷ [])
    ++ client
    ++ server6
    ++ syn

try_nat64_forward-Passed_example :
    Passed empty_world packet6 (try_nat64_forward packet6 1000 99 empty_world)
    ⊎ Targeted empty_world packet6
try_nat64_forward-Passed_example = try_nat64_forward-Passed empty_world packet6 1000 99

abbrev info : Ipv6Info
info = record { src = client; dst = server6; next_header = 6; payload_len = 20; l4_abs_offset = 54 }

-- The packet once it has the size of an IPv4 packet.
abbrev shrunk : List ℕ
shrunk = replicate 34 0 ++ syn

sent :
    (forward_tcp_rewrite expiring_cfg info
      (51_000, 443)
      (0xcb00710a, 20_042, 99)
      shrunk
      1000
      empty_world).2
    ≡ 2
unfolding forward_tcp_rewrite natto.Ebpf.Packet.write_ipv4_header natto.Ebpf.Packet.ipv4_wire_header
    natto.Ebpf.Packet.Transport.apply_l4_nat64_checksum_delta_v6_to_v4
    natto.Ebpf.Packet.Transport.load_u16 natto.Ebpf.Packet.Transport.csum_diff
    natto.Ebpf.Packet.ipv6_pseudo_header natto.Ebpf.Packet.ipv4_pseudo_header
    natto.Ebpf.Packet.Transport.replace_port natto.Ebpf.Packet.Transport.mark_udp_ipv4
    natto.Ebpf.Forward.Rewrite.forward_tcp_insert natto.Ebpf.Forward.Rewrite.send_uplink
    natto.Ebpf.Packet.redirect_to_iface natto.Ebpf.Sessions.default_cfg
sent = refl

leaves :
    (forward_tcp_rewrite expiring_cfg info
      (51_000, 443)
      (0xcb00710a, 20_042, 99)
      shrunk
      1000
      empty_world).2
    ≢ machine.tc_act_pipe
leaves = omega (arith, sent)
