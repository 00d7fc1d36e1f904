-- ===== src/Ebpf/Update/Reverse.antt =====
-- The packet that natto64-ebpf/src/lib.rs sends for a TCP reply of a session.
use natto.Common.{
  ℕ, ◌^◌, ◌<◌, ◌≡◌, ◌≢◌, refl, sym, ◌∙◌, ap, inl, inr, List, ◌∷◌, ◌++◌, true, false, some,
  Option-cases, Bool-cases, arith, length, take, drop, splice, u16, to_be_bytes16, length-append,
}
use natto.Abi.{Nat64Config, NatVal}
use natto.Xlat.Checksum.Verify.{tcp}
use natto.Xlat.Checksum.Words.{IsBytes}
use natto.Xlat.Headers.Fields.{build_ipv6_header, build_ipv6_header-IsIpv6Header}
use natto.Ebpf.Kernel.{Kernel}
use natto.Ebpf.World.{World}
use natto.Ebpf.Packet.{to_be16, write_ipv6_header}
use natto.Ebpf.Packet.Headers.{write_ipv6_header_builds}
use natto.Ebpf.Packet.Transport.{apply_l4_nat64_checksum_delta_v4_to_v6}
use natto.Ebpf.Reverse.Rewrite.{nat64_source_v6, send, rewrite_tcp}
use natto.Ebpf.Forward.Opening.{not_passed}
use natto.Ebpf.Update.{IsPacketKernel}
use natto.Ebpf.Update.Delta.{v4_to_v6-IsUpdated}
use natto.Ebpf.Update.Sums.{append_assoc, take-append, drop-append, splice-append}
use natto.Ebpf.Update.Segment.{segment, around-segment}
use natto.Ebpf.Update.Verify.{to_ipv6-verifies}
use natto.Ebpf.Update.Reply.{source-length, source-IsBytes, Returned, IsRemotePacket}

module _ {k : Kernel} where
  module _ {bytes : k.Skb → List ℕ} {IsComplete : k.Skb → Type 0}
      (laws : IsPacketKernel k bytes IsComplete) (cfg : Nat64Config) (len src dst dport : ℕ)
      (value : NatVal) (macs kind gap head middle rest padding : List ℕ) (lo hi : ℕ) where
    abbrev header : List ℕ
    header = build_ipv6_header tcp (nat64_source_v6 src) value.vm_v6 len 64

    abbrev link : List ℕ
    link = macs ++ to_be_bytes16 0x86dd

    abbrev Goes : k.Skb → Type 0
    Goes = Returned laws len src dst dport value macs kind gap head middle rest padding lo hi

    module _ (short : len < 65536) (small_src : src < 2 ^ 32) (small_dst : dst < 2 ^ 32)
        (small_dport : dport < 65536) (small_port : value.vm_port < 65536)
        (client_size : length value.vm_v6 ≡ 16) (client_bytes : IsBytes value.vm_v6) (skb : k.Skb)
        (remote : IsRemotePacket laws len src dst dport value macs kind gap head middle rest padding
          lo hi skb) where
      abbrev tail : ℕ → ℕ → ℕ → List ℕ
      tail port l h = segment head middle rest port l h ++ padding

      typed_lem :
          {skb1 skb2 : k.Skb}
          → k.change_proto skb (to_be16 0x86dd) ≡ some skb1
          → k.store skb1 12 (to_be_bytes16 0x86dd) ≡ some skb2
          → (room : List ℕ) × (length room ≡ 20)
            × (bytes skb2 ≡ link ++ (room ++ gap ++ tail dport lo hi))
            × IsComplete skb2
      typed_lem {skb1} e1 e2 =
          let (room, size, grown) = laws.grows skb e1 in
          let behind = gap ++ tail dport lo hi in
          let here : 14 ≡ length (macs ++ kind) =
            omega (arith, length-append macs kind, remote.macs_size, remote.kind_size) in
          let first : take 14 (bytes skb) ≡ macs ++ kind =
            ap (take 14) remote.holds
            ∙ ap (λ n. take n (macs ++ kind ++ behind)) here
            ∙ take-append (macs ++ kind) behind in
          let second : drop 14 (bytes skb) ≡ behind =
            ap (drop 14) remote.holds ∙ drop-append (macs ++ kind) behind 14 here in
          let whole : bytes skb1 ≡ macs ++ (kind ++ (room ++ behind)) =
            grown
            ∙ ap (λ t. t ++ room ++ drop 14 (bytes skb)) first
            ∙ ap (λ t. macs ++ kind ++ room ++ t) second
            ∙ append_assoc (macs ++ kind) room behind
            ∙ append_assoc macs kind (room ++ behind) in
          (
            room,
            size,
            laws.bytes-store skb1 12 (to_be_bytes16 0x86dd) e2
                ∙ ap (λ b. splice b 12 (to_be_bytes16 0x86dd)) whole
                ∙ splice-append macs kind (to_be_bytes16 0x86dd) (room ++ behind) 12
                    (sym remote.macs_size) (sym remote.kind_size)
                ∙ sym (append_assoc macs (to_be_bytes16 0x86dd) (room ++ behind))
                ∙ ap (λ t. link ++ t) (sym (append_assoc room gap (tail dport lo hi))),
            laws.store-IsComplete skb1 12 _ e2
                (laws.change_proto-IsComplete skb _ e1 remote.complete),
          )

      header_size : length header ≡ 40
      header_size =
          (build_ipv6_header-IsIpv6Header tcp (nat64_source_v6 src) value.vm_v6 len 64
            (source-length src) client_size short).size

      addressed_lem :
          {skb2 skb3 skb4 : k.Skb}
          → (room : List ℕ) × (length room ≡ 20)
            × (bytes skb2 ≡ link ++ (room ++ gap ++ tail dport lo hi))
            × IsComplete skb2
          → write_ipv6_header k skb2 len 6 (nat64_source_v6 src) value.vm_v6 ≡ some skb3
          → k.store skb3 56 (to_be_bytes16 value.vm_port) ≡ some skb4
          → (bytes skb4 ≡ link ++ header ++ tail value.vm_port lo hi) × IsComplete skb4
      addressed_lem {skb2} {skb3} (room, size, typed, complete) e3 e4 =
          let stored =
            sym (
              write_ipv6_header_builds k skb2 tcp len (nat64_source_v6 src) value.vm_v6
                (source-length src) client_size)
            ∙ e3 in
          let link_size : 14 ≡ length link =
            omega (arith, length-append macs (to_be_bytes16 0x86dd), remote.macs_size) in
          let headed =
            laws.bytes-store skb2 14 header stored
            ∙ ap (λ b. splice b 14 header) typed
            ∙ splice-append link (room ++ gap) header (tail dport lo hi) 14 link_size
                (omega (arith, header_size, length-append room gap, size, remote.gap_size))
            ∙ sym (append_assoc link header (tail dport lo hi))
            ∙ ap (λ t. link ++ header ++ t)
                (append_assoc head (to_be_bytes16 dport ++ (middle ++ (lo ∷ hi ∷ rest))) padding)
            ∙ sym (
                append_assoc (link ++ header) head
                  ((to_be_bytes16 dport ++ (middle ++ (lo ∷ hi ∷ rest))) ++ padding)) in
          (
            laws.bytes-store skb3 56 (to_be_bytes16 value.vm_port) e4
                ∙ ap (λ b. splice b 56 (to_be_bytes16 value.vm_port)) headed
                ∙ splice-append (link ++ header ++ head) (to_be_bytes16 dport)
                    (to_be_bytes16 value.vm_port) ((middle ++ (lo ∷ hi ∷ rest)) ++ padding) 56
                    (omega (
                      arith,
                      length-append (link ++ header) head,
                      length-append link header,
                      link_size,
                      header_size,
                      remote.head_size,
                    ))
                    refl
                ∙ append_assoc (link ++ header) head
                    ((to_be_bytes16 value.vm_port ++ (middle ++ (lo ∷ hi ∷ rest))) ++ padding)
                ∙ ap (λ t. link ++ header ++ t)
                    (sym (
                      append_assoc head
                        (to_be_bytes16 value.vm_port ++ (middle ++ (lo ∷ hi ∷ rest))) padding)),
            laws.store-IsComplete skb3 56 _ e4
                (laws.store-IsComplete skb2 14 header stored complete),
          )

      updated_lem :
          {skb4 final : k.Skb}
          → (bytes skb4 ≡ link ++ header ++ tail value.vm_port lo hi) × IsComplete skb4
          → apply_l4_nat64_checksum_delta_v4_to_v6 k 70 len 6 src dst
              (nat64_source_v6 src)
              value.vm_v6
              (some (dport, value.vm_port))
              false
              skb4
            ≡ (final, true)
          → Goes final
      updated_lem {skb4} (holds, complete) done =
          let front = link ++ header in
          let port = value.vm_port in
          let before = front ++ (head ++ (to_be_bytes16 port ++ middle)) in
          let here : 70 ≡ length before = omega (
            arith,
            length-append front (head ++ (to_be_bytes16 port ++ middle)),
            length-append head (to_be_bytes16 port ++ middle),
            length-append link header,
            length-append macs (to_be_bytes16 0x86dd),
            header_size,
            remote.macs_size,
            remote.head_size,
            remote.middle_size,
          ) in
          let u =
            v4_to_v6-IsUpdated laws before (rest ++ padding) 70 here lo hi len 6 src dst
              (nat64_source_v6 src) value.vm_v6 dport port skb4
              (holds ∙ sym (around-segment front head middle rest padding port lo hi)) complete
              done in
          record {
            lo' = u.lo';
            hi' = u.hi';
            holds =
                u.holds
                ∙ around-segment front head middle rest padding port u.lo' u.hi'
                ∙ append_assoc link header (tail port u.lo' u.hi');
            verifies =
                to_ipv6-verifies head middle rest remote.parts src dst (nat64_source_v6 src)
                  value.vm_v6 small_src small_dst (source-length src) client_size
                  (source-IsBytes src) client_bytes len short
                  (omega (arith, remote.head_size, remote.middle_size, remote.rest_size)) dport port
                  lo hi u.lo' u.hi' small_dport small_port remote.lo_byte remote.hi_byte u.lo_byte
                  u.hi_byte u.sums remote.verifies;
          }

      -- A TCP reply that leaves the rewriting with any action but that of passing on is the segment
      -- of the remote end behind the IPv6 header that natto64-xlat builds for the client: with the
      -- client's port as its destination and nothing else changed but its checksum, which verifies
      -- over IPv6 as that of the reply did over IPv4. The reply has an IPv4 header without options,
      -- its checksum is not left to a device, and all fields fit their widths.
      pub rewrite_tcp-Returned :
          (w : World k)
          → (rewrite_tcp cfg len src dst dport value skb w).2 ≢ k.tc_act_pipe
          → Returned laws len src dst dport value macs kind gap head middle rest padding lo hi
              (rewrite_tcp cfg len src dst dport value skb w).1
      unfolding rewrite_tcp send
      rewrite_tcp-Returned w h =
          let fits : u16 len ≡ len = omega (arith, short) in
          let src6 = nat64_source_v6 src in
          elim (Option-cases (k.change_proto skb (to_be16 0x86dd))) [
            | inl e ↦ not_passed skb _ (rw (e, rewrite_tcp) at h)
            | inr (skb1, e1) ↦ elim (Option-cases (k.store skb1 12 (to_be_bytes16 0x86dd))) [
              | inl e ↦ not_passed skb1 _ (rw (e1, rewrite_tcp, e) at h)
              | inr (skb2, e2) ↦
                  elim (Option-cases (write_ipv6_header k skb2 len 6 src6 value.vm_v6)) [
                    | inl e ↦ not_passed skb2 _ (rw (e1, rewrite_tcp, e2, fits, e) at h)
                    | inr (skb3, e3) ↦
                        elim (Option-cases (k.store skb3 56 (to_be_bytes16 value.vm_port))) [
                          | inl e ↦ not_passed skb3 _ (rw (e1, rewrite_tcp, e2, fits, e3, e) at h)
                          | inr (skb4, e4) ↦
                              let r =
                                apply_l4_nat64_checksum_delta_v4_to_v6 k 70 len 6 src dst src6
                                  value.vm_v6 (some (dport, value.vm_port)) false skb4 in
                              elim (Bool-cases r.1) [
                                | inr e ↦
                                    not_passed r.0 _
                                      (rw (e1, rewrite_tcp, e2, fits, e3, e4, fits, e) at h)
                                | inl e ↦
                                    rw (e1, rewrite_tcp, e2, fits, e3, e4, fits, e)
                                      (updated_lem {final = r.0}
                                        (addressed_lem (typed_lem e1 e2) e3 e4)
                                        (ap (λ b. (r.0, b)) e))
                              ]
                        ]
                  ]
            ]
          ]
