-- ===== src/Ebpf/Update/Reply.antt =====
-- The bytes of a TCP reply, before and after natto64-ebpf/src/lib.rs rewrites it.
use natto.Common.{to_be_bytes32, ℕ, ◌+◌, ◌<◌, ◌≡◌, refl, List, ◌++◌, arith, length, to_be_bytes16}
use natto.Abi.{NatVal, build_ipv4_pseudo_header_bytes, build_ipv6_pseudo_header_bytes}
use natto.Xlat.Checksum.{checksum16}
use natto.Xlat.Checksum.Verify.{tcp}
use natto.Xlat.Checksum.Words.{IsBytes}
use natto.Xlat.Headers.Fields.{build_ipv6_header}
use natto.Ebpf.Kernel.{Kernel}
use natto.Ebpf.Reverse.Rewrite.{nat64_wkpf_prefix, nat64_source_v6}
use natto.Ebpf.Update.{IsPacketKernel}
use natto.Ebpf.Update.Segment.{append-IsBytes, segment, IsParts}
use natto.Ebpf.Update.Verify.{to_be_bytes32-IsBytes}

pub source-length : (v : ℕ) → length (nat64_source_v6 v) ≡ 16
unfolding nat64_source_v6
source-length v = refl

pub source-IsBytes : (v : ℕ) → IsBytes (nat64_source_v6 v)
unfolding nat64_source_v6
source-IsBytes v =
    append-IsBytes nat64_wkpf_prefix (to_be_bytes32 v) (ground arith) (to_be_bytes32-IsBytes v)

module _ {k : Kernel} where
  module _ {bytes : k.Skb → List ℕ} {IsComplete : k.Skb → Type 0}
      (laws : IsPacketKernel k bytes IsComplete) (len src dst dport : ℕ) (value : NatVal)
      (macs kind gap head middle rest padding : List ℕ) (lo hi : ℕ) where
    abbrev header : List ℕ
    header = build_ipv6_header tcp (nat64_source_v6 src) value.vm_v6 len 64

    abbrev link : List ℕ
    link = macs ++ to_be_bytes16 0x86dd

    -- The packet that is sent: an IPv6 frame with the header for the client, and the segment of the
    -- remote end with the client's port as its destination and a checksum that verifies over IPv6.
    pub record Returned (skb' : k.Skb) : Type 0 where
      pub lo' : ℕ
      pub hi' : ℕ
      pub holds :
          bytes skb'
          ≡ link ++ (header ++ (segment head middle rest value.vm_port lo' hi' ++ padding))
      pub verifies :
          checksum16 (
            build_ipv6_pseudo_header_bytes (nat64_source_v6 src) value.vm_v6 len 6
            ++ segment head middle rest value.vm_port lo' hi')
          ≡ 0xffff

    -- What arrives at the rewriting: an IPv4 packet whose header has no options, and whose TCP
    -- checksum verifies.
    pub record IsRemotePacket (skb : k.Skb) : Type 0 where
      pub macs_size : length macs ≡ 12
      pub kind_size : length kind ≡ 2
      pub gap_size : length gap ≡ 20
      pub head_size : length head ≡ 2
      pub middle_size : length middle ≡ 12
      pub rest_size : length rest + 18 ≡ len
      pub parts : IsParts head middle rest
      pub lo_byte : lo < 256
      pub hi_byte : hi < 256
      pub holds :
          bytes skb ≡ macs ++ kind ++ (gap ++ (segment head middle rest dport lo hi ++ padding))
      pub complete : IsComplete skb
      pub verifies :
          checksum16
            (build_ipv4_pseudo_header_bytes src dst len 6 ++ segment head middle rest dport lo hi)
          ≡ 0xffff
