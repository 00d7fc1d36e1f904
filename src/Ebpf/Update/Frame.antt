-- ===== src/Ebpf/Update/Frame.antt =====
-- The bytes of a TCP packet of a client, before and after the forward classifier of
-- natto64-ebpf/src/lib.rs.
use natto.Common.{
  none-ne-some, ℕ, ◌+◌, ◌^◌, ◌<◌, ◌≡◌, sym, ◌∙◌, ap, inl, inr, List, [], ◌++◌, Option, some,
  Option-cases, arith, length, take, drop, to_be_bytes16, to_be_bytes32,
}
use mathlib.Core.Option.{some-injective}
use natto.Abi.{
  Nat64Config, nat64_embedded_v4_be, build_ipv4_pseudo_header_bytes, build_ipv6_pseudo_header_bytes,
}
use natto.Xlat.Wire.{read_u16_be}
use natto.Xlat.Checksum.{checksum16}
use natto.Xlat.Checksum.Verify.{tcp}
use natto.Xlat.Checksum.Words.{IsBytes}
use natto.Xlat.Headers.Fields.{build_ipv4_header}
use natto.Ebpf.Kernel.{Kernel}
use natto.Ebpf.Packet.{load_be16}
use natto.Ebpf.Packet.Transport.{tcp_ports}
use natto.Ebpf.Ipv6.{Ipv6Info, parse_ipv6_base}
use natto.Ebpf.Consistent.{IsExternal}
use natto.Ebpf.Update.{IsPacketKernel}
use natto.Ebpf.Update.Sums.{drop-append}
use natto.Ebpf.Update.Segment.{segment, IsParts}

first : {a b c d : ℕ} → ◌≡◌ {A = Option (ℕ × ℕ)} (some (a, b)) (some (c, d)) → a ≡ c
first h = ap (λ p. p.0) (some-injective _ _ h)

module _ {k : Kernel} {bytes : k.Skb → List ℕ} {IsComplete : k.Skb → Type 0}
    (laws : IsPacketKernel k bytes IsComplete) where
  -- The source port that is read is that of the segment.
  pub port_lem :
      (skb : k.Skb) (front tail : List ℕ) (sport : ℕ) {read dport : ℕ}
      → length front ≡ 34
      → sport < 65536
      → bytes skb ≡ front ++ (to_be_bytes16 sport ++ tail)
      → tcp_ports k skb 34 ≡ some (read, dport)
      → read ≡ sport
  unfolding tcp_ports load_be16 read_u16_be
  port_lem skb front tail sport {read} {dport} size word holds h =
      elim (Option-cases (k.load skb 34 2)) [
        | inl e ↦ absurd (none-ne-some (rw (e, tcp_ports) at h))
        | inr (loaded, e) ↦
            let at_port : loaded ≡ to_be_bytes16 sport =
              laws.loads skb 34 2 e
              ∙ ap (λ b. take 2 (drop 34 b)) holds
              ∙ ap (take 2) (drop-append front (to_be_bytes16 sport ++ tail) 34 (sym size)) in
            elim (Option-cases (k.load skb 36 2)) [
              | inl e1 ↦ absurd (none-ne-some (rw (e, tcp_ports, e1) at h))
              | inr (loaded1, e1) ↦
                  sym (first (rw (e, tcp_ports, e1) at h)) ∙ ap read_u16_be at_port ∙ omega arith
            ]
      ]

  module _ (cfg : Nat64Config) (info : Ipv6Info) (sport : ℕ)
      (macs kind start gap middle rest padding : List ℕ) (lo hi : ℕ) where
    -- A packet of a client as it arrives: an Ethernet frame with a 40-byte IPv6 header, written as
    -- its halves, and a TCP segment whose checksum verifies over IPv6.
    pub record IsClientFrame (skb : k.Skb) : Type 0 where
      pub macs_size : length macs ≡ 12
      pub kind_size : length kind ≡ 2
      pub start_size : length start ≡ 20
      pub gap_size : length gap ≡ 20
      pub middle_size : length middle ≡ 14
      pub payload_size : length rest + 18 ≡ info.payload_len
      pub parts : IsParts [] middle rest
      pub lo_byte : lo < 256
      pub hi_byte : hi < 256
      pub src_size : length info.src ≡ 16
      pub dst_size : length info.dst ≡ 16
      pub src_bytes : IsBytes info.src
      pub dst_bytes : IsBytes info.dst
      pub remote_word : nat64_embedded_v4_be info.dst < 2 ^ 32
      pub sport_word : sport < 65536
      pub parses : parse_ipv6_base k skb 14 ≡ some info
      pub is_tcp : info.next_header ≡ 6
      pub holds :
          bytes skb
          ≡ macs ++ kind ++ start ++ (gap ++ (segment [] middle rest sport lo hi ++ padding))
      pub complete : IsComplete skb
      pub verifies :
          checksum16 (
            build_ipv6_pseudo_header_bytes info.src info.dst info.payload_len 6
            ++ segment [] middle rest sport lo hi)
          ≡ 0xffff

    -- An IPv4 frame with the client's segment: from an external address and port of the
    -- configuration to the remote address, with a checksum that verifies over IPv4.
    pub record Translated (skb' : k.Skb) : Type 0 where
      pub ext_v4 : ℕ
      pub ext_port : ℕ
      pub external : IsExternal cfg ext_v4 ext_port
      pub lo' : ℕ
      pub hi' : ℕ
      pub holds :
          bytes skb'
          ≡ macs
            ++ to_be_bytes16 0x0800
            ++ (build_ipv4_header tcp
                  (to_be_bytes32 ext_v4)
                  (to_be_bytes32 (nat64_embedded_v4_be info.dst))
                  (info.payload_len + 20)
                  64
                  0
                ++ (segment [] middle rest ext_port lo' hi' ++ padding))
      pub verifies :
          checksum16 (
            build_ipv4_pseudo_header_bytes ext_v4 (nat64_embedded_v4_be info.dst) info.payload_len 6
            ++ segment [] middle rest ext_port lo' hi')
          ≡ 0xffff
