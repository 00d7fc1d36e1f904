-- ===== src/Ebpf/Update/Forward.antt =====
-- The packet that natto64-ebpf/src/lib.rs sends for a TCP packet of a client.
use natto.Common.{
  none-ne-some, ℕ, ◌+◌, ◌^◌, ◌<◌, ◌≡◌, ◌≢◌, refl, sym, ◌∙◌, ap, inl, inr, List, [], ◌∷◌, ◌++◌,
  false, some, Option-cases, Bool-cases, arith, length, splice, ltb, to_be_bytes16, to_be_bytes32,
  length-append,
}
use natto.Abi.{
  Nat64Config, nat_key, new_forward_with_generation, nat64_embedded_v4_be,
  build_ipv4_pseudo_header_bytes, build_ipv6_pseudo_header_bytes,
}
use natto.Abi.DebugCounters.{rewrite_v4_src_ok, rewrite_tcp_sport_ok}
use natto.Xlat.Checksum.{checksum16}
use natto.Xlat.Checksum.Verify.{tcp}
use natto.Xlat.Checksum.Words.{IsBytes}
use natto.Xlat.Headers.Fields.{build_ipv4_header}
use natto.Ebpf.Kernel.{Kernel}
use natto.Ebpf.World.{World, with_counters}
use natto.Ebpf.Packet.{write_ipv4_header}
use natto.Ebpf.Packet.Headers.{write_ipv4_header_builds}
use natto.Ebpf.Packet.Transport.{FwdL4CsumTrace, apply_l4_nat64_checksum_delta_v6_to_v4}
use natto.Ebpf.Ipv6.{Ipv6Info}
use natto.Ebpf.Reverse.Rewrite.{pass}
use natto.Ebpf.Forward.Rewrite.{send_uplink, forward_tcp_insert, forward_tcp_rewrite}
use natto.Ebpf.Forward.Opening.{not_passed}
use natto.Ebpf.Update.{IsPacketKernel}
use natto.Ebpf.Update.Delta.{v6_to_v4-IsUpdated}
use natto.Ebpf.Update.Sums.{append_assoc, splice-append}
use natto.Ebpf.Update.Segment.{segment, IsParts, around-segment}
use natto.Ebpf.Update.Verify.{to_ipv4-verifies}

length-build :
    (src dst total : ℕ)
    → length (build_ipv4_header tcp (to_be_bytes32 src) (to_be_bytes32 dst) total 64 0) ≡ 20
unfolding natto.Xlat.Headers.build_ipv4_header_tcp natto.Xlat.Headers.ipv4_header_fields
length-build src dst total = refl

module _ {k : Kernel} where
  -- The insertion into the reverse map leaves the packet as it is.
  insert-same :
      (cfg : Nat64Config) (info : Ipv6Info) (ports : ℕ × ℕ) (mapping : ℕ × ℕ × ℕ)
      (trace : FwdL4CsumTrace) (skb : k.Skb) (now : ℕ) (w : World k)
      → (forward_tcp_insert cfg info ports mapping trace skb now w).1 ≡ skb
  unfolding forward_tcp_insert send_uplink pass
  insert-same cfg info (sport, dport) (ext_v4, ext_port, generation) trace skb now w =
      let value =
        new_forward_with_generation info.src sport (nat64_embedded_v4_be info.dst) dport generation
          now in
      elim (Option-cases (k.nat_maps.insert w.nat (nat_key ext_v4 ext_port 6) value)) [
        | inl e ↦ rw (e, forward_tcp_insert)
        | inr (inserted, e) ↦ rw (e, forward_tcp_insert)
      ]

  module _ {bytes : k.Skb → List ℕ} {IsComplete : k.Skb → Type 0}
      (laws : IsPacketKernel k bytes IsComplete) (cfg : Nat64Config) (info : Ipv6Info)
      (sport dport ext_v4 ext_port generation now : ℕ) (link gap middle rest padding : List ℕ)
      (lo hi : ℕ) where
    abbrev header : List ℕ
    header =
        build_ipv4_header tcp (to_be_bytes32 ext_v4) (to_be_bytes32 (nat64_embedded_v4_be info.dst))
          (info.payload_len + 20) 64 0

    -- The packet that is sent: behind the same link header, the IPv4 header for the external and the
    -- remote address, and the client's segment with the external port as its source and a checksum
    -- that verifies over IPv4.
    pub record Sent (skb' : k.Skb) : Type 0 where
      pub lo' : ℕ
      pub hi' : ℕ
      pub holds :
          bytes skb' ≡ link ++ (header ++ (segment [] middle rest ext_port lo' hi' ++ padding))
      pub verifies :
          checksum16 (
            build_ipv4_pseudo_header_bytes ext_v4 (nat64_embedded_v4_be info.dst) info.payload_len 6
            ++ segment [] middle rest ext_port lo' hi')
          ≡ 0xffff

    -- What arrives at the rewriting: a packet of a client, without its IPv6 header but with room for
    -- an IPv4 header, whose TCP checksum verifies over IPv6.
    pub record IsClientPacket (skb : k.Skb) : Type 0 where
      pub link_size : length link ≡ 14
      pub gap_size : length gap ≡ 20
      pub middle_size : length middle ≡ 14
      pub payload_size : length rest + 18 ≡ info.payload_len
      pub parts : IsParts [] middle rest
      pub lo_byte : lo < 256
      pub hi_byte : hi < 256
      pub src_size : length info.src ≡ 16
      pub dst_size : length info.dst ≡ 16
      pub src_bytes : IsBytes info.src
      pub dst_bytes : IsBytes info.dst
      pub sport_word : sport < 65536
      pub holds : bytes skb ≡ link ++ (gap ++ (segment [] middle rest sport lo hi ++ padding))
      pub complete : IsComplete skb
      pub verifies :
          checksum16 (
            build_ipv6_pseudo_header_bytes info.src info.dst info.payload_len 6
            ++ segment [] middle rest sport lo hi)
          ≡ 0xffff

    module _ (small_v4 : ext_v4 < 2 ^ 32) (small_port : ext_port < 65536)
        (small_remote : nat64_embedded_v4_be info.dst < 2 ^ 32) (skb : k.Skb)
        (client : IsClientPacket skb) where
      headed_lem :
          {skb1 : k.Skb}
          → write_ipv4_header k skb info.payload_len ext_v4 (nat64_embedded_v4_be info.dst) 6
            ≡ some skb1
          → (info.payload_len < 65516) × (k.store skb 14 header ≡ some skb1)
      headed_lem e =
          let builds =
            write_ipv4_header_builds k skb tcp info.payload_len ext_v4
              (nat64_embedded_v4_be info.dst) small_v4 small_remote in
          elim (Bool-cases (ltb 65535 (info.payload_len + 20))) [
            | inl over ↦ absurd (none-ne-some (sym (rw over at builds) ∙ e))
            | inr fits ↦ (ground arith, sym (rw fits at builds) ∙ e)
          ]

      addressed_lem :
          {skb1 skb2 : k.Skb}
          → k.store skb 14 header ≡ some skb1
          → k.store skb1 34 (to_be_bytes16 ext_port) ≡ some skb2
          → (bytes skb2 ≡ link ++ header ++ (segment [] middle rest ext_port lo hi ++ padding))
            × IsComplete skb2
      addressed_lem {skb1} e1 e2 =
          let tail = segment [] middle rest sport lo hi ++ padding in
          let size = length-build ext_v4 (nat64_embedded_v4_be info.dst) (info.payload_len + 20) in
          let first =
            laws.bytes-store skb 14 header e1
            ∙ ap (λ b. splice b 14 header) client.holds
            ∙ splice-append link gap header tail 14 (sym client.link_size)
                (size ∙ sym client.gap_size)
            ∙ sym (append_assoc link header tail) in
          (
            laws.bytes-store skb1 34 (to_be_bytes16 ext_port) e2
                ∙ ap (λ b. splice b 34 (to_be_bytes16 ext_port)) first
                ∙ splice-append (link ++ header) (to_be_bytes16 sport) (to_be_bytes16 ext_port)
                    ((middle ++ (lo ∷ hi ∷ rest)) ++ padding) 34
                    (omega (arith, length-append link header, size, client.link_size)) refl,
            laws.store-IsComplete skb1 34 _ e2
                (laws.store-IsComplete skb 14 header e1 client.complete),
          )

      updated_lem :
          (skb2 : k.Skb) (w : World k) {trace : FwdL4CsumTrace}
          → info.payload_len < 65516
          → (bytes skb2 ≡ link ++ header ++ (segment [] middle rest ext_port lo hi ++ padding))
            × IsComplete skb2
          → (apply_l4_nat64_checksum_delta_v6_to_v4 50 info.payload_len 6 info.src info.dst ext_v4
              (nat64_embedded_v4_be info.dst)
              (some (sport, ext_port))
              false
              skb2
              w).2
            ≡ some trace
          → Sent
              (apply_l4_nat64_checksum_delta_v6_to_v4 50 info.payload_len 6 info.src info.dst ext_v4
                (nat64_embedded_v4_be info.dst)
                (some (sport, ext_port))
                false
                skb2
                w).1
      updated_lem skb2 w short (holds, complete) done =
          let front = link ++ header in
          let remote = nat64_embedded_v4_be info.dst in
          let before = front ++ ([] ++ (to_be_bytes16 ext_port ++ middle)) in
          let size = length-build ext_v4 remote (info.payload_len + 20) in
          let here : 50 ≡ length before = omega (
            arith,
            length-append front (to_be_bytes16 ext_port ++ middle),
            length-append link header,
            size,
            client.link_size,
            client.middle_size,
          ) in
          let u =
            v6_to_v4-IsUpdated laws before (rest ++ padding) 50 here lo hi info.payload_len 6 ext_v4
              remote info.src info.dst sport ext_port skb2
              (holds ∙ sym (around-segment front [] middle rest padding ext_port lo hi)) complete w
              done in
          record {
            lo' = u.lo';
            hi' = u.hi';
            holds =
                u.holds
                ∙ around-segment front [] middle rest padding ext_port u.lo' u.hi'
                ∙ append_assoc link header (segment [] middle rest ext_port u.lo' u.hi' ++ padding);
            verifies =
                to_ipv4-verifies [] middle rest client.parts ext_v4 remote info.src info.dst
                  small_v4 small_remote client.src_size client.dst_size client.src_bytes
                  client.dst_bytes info.payload_len (omega (arith, short))
                  (omega (arith, client.middle_size, client.payload_size)) sport ext_port lo hi
                  u.lo' u.hi' client.sport_word small_port client.lo_byte client.hi_byte u.lo_byte
                  u.hi_byte u.sums client.verifies;
          }

      -- A TCP packet of a client that leaves the rewriting with any action but that of passing on is
      -- the client's segment behind the IPv4 header that natto64-xlat builds for the external and
      -- the remote address: with the external port as its source and nothing else changed but its
      -- checksum, which verifies over IPv4 as that of the client did over IPv6.
      pub forward_tcp_rewrite-Sent :
          (w : World k)
          → (forward_tcp_rewrite cfg info (sport, dport) (ext_v4, ext_port, generation) skb now w).2
            ≢ k.tc_act_pipe
          → Sent
              (forward_tcp_rewrite cfg info
                (sport, dport)
                (ext_v4, ext_port, generation)
                skb
                now
                w).1
      unfolding forward_tcp_rewrite
      forward_tcp_rewrite-Sent w h =
          let remote = nat64_embedded_v4_be info.dst in
          elim (Option-cases (write_ipv4_header k skb info.payload_len ext_v4 remote 6)) [
            | inl e ↦ not_passed skb _ (rw (e, forward_tcp_rewrite) at h)
            | inr (skb1, e1) ↦ elim (Option-cases (k.store skb1 34 (to_be_bytes16 ext_port))) [
              | inl e ↦ not_passed skb1 _ (rw (e1, forward_tcp_rewrite, e) at h)
              | inr (skb2, e2) ↦
                  let w2 =
                    with_counters [] (rewrite_tcp_sport_ok ∷ [])
                      (with_counters [] (rewrite_v4_src_ok ∷ []) w) in
                  let r =
                    apply_l4_nat64_checksum_delta_v6_to_v4 50 info.payload_len 6 info.src info.dst
                      ext_v4 remote (some (sport, ext_port)) false skb2 w2 in
                  elim (Option-cases r.2) [
                    | inl e ↦ not_passed r.1 _ (rw (e1, forward_tcp_rewrite, e2, e) at h)
                    | inr (trace, e3) ↦
                        let (short, stored) = headed_lem e1 in
                        rw
                          (
                            e1,
                            forward_tcp_rewrite,
                            e2,
                            e3,
                            insert-same cfg info (sport, dport) (ext_v4, ext_port, generation) trace
                                r.1 now r.0,
                          )
                          (updated_lem skb2 w2 short (addressed_lem stored e2) e3)
                  ]
            ]
          ]
