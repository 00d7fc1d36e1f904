-- ===== src/Ebpf/Update/Classifier.antt =====
-- The whole forward classifier of natto64-ebpf/src/lib.rs on a TCP packet of a client, by its bytes.
use natto.Common.{
  ℕ, ◌^◌, ◌<◌, ◌≡◌, ◌≢◌, refl, sym, ◌∙◌, ap, ap₂, inl, inr, List, [], ◌∷◌, ◌++◌, false, true, not,
  ◌&&◌, some, ◌==◌, ==_iff, Option-cases, Bool-cases, arith, length, take, drop, splice, ltb,
  to_be_bytes16, length-append,
}
use natto.Abi.{Nat64Config, fwd_nat_key, nat64_embedded_v4_be}
use natto.Abi.ProdCounters.{pkts_total, pkts_ipv6, pkts_nat64_tcp, pkts_nat64_dst}
use natto.Abi.DebugCounters.{
  dbg_fwd_enter, dbg_fwd_eth_ipv6, dbg_fwd_tcp_branch, proto_change_ok, pkts_ipv6_parsed_ok,
  dbg_fwd_nat64_prefix_match,
}
use natto.Ebpf.Kernel.{Kernel, IsLruMap}
use natto.Ebpf.World.{World}
use natto.Ebpf.Pool.{select_v4_from_pool_ebpf, v4_in_pool}
use natto.Ebpf.Pool.Laws.{select_v4_from_pool_ebpf-in_pool}
use natto.Ebpf.Sessions.{current_cfg, lookup_or_create_mapping}
use natto.Ebpf.Packet.{to_be16, load_be16}
use natto.Ebpf.Packet.Transport.{tcp_ports}
use natto.Ebpf.Ipv6.{Ipv6Info, is_extension_header}
use natto.Ebpf.Sampling.{same_bytes}
use natto.Ebpf.Reverse.Rewrite.{Outcome, pass}
use natto.Ebpf.Forward.{
  forward_tcp_mapped, forward_tcp, forward_diagnose, forward_parsed, try_nat64_forward,
}
use natto.Ebpf.Forward.Guard.{forward_diagnose-SameMaps}
use natto.Ebpf.Consistent.{IsConsistent, SameMaps-IsConsistent, counted-IsConsistent}
use natto.Ebpf.Consistent.Sessions.{lookup_or_create_mapping-Granted}
use natto.Ebpf.Update.{IsPacketKernel}
use natto.Ebpf.Update.Sums.{append_assoc, take-append, drop-append, splice-append}
use natto.Ebpf.Update.Segment.{segment}
use natto.Ebpf.Update.Forward.{forward_tcp_rewrite-Sent}
use natto.Ebpf.Update.Frame.{port_lem, IsClientFrame, Translated}

module _ {k : Kernel} {bytes : k.Skb → List ℕ} {IsComplete : k.Skb → Type 0}
    (laws : IsPacketKernel k bytes IsComplete) where
  module _ (cfg : Nat64Config) (info : Ipv6Info) (now prandom sport : ℕ)
      (macs kind start gap middle rest padding : List ℕ) (lo hi : ℕ) where
    abbrev Translates : Outcome k → Type 0
    Translates r =
        r.2 ≢ k.tc_act_pipe
        → Translated laws cfg info sport macs kind start gap middle rest padding lo hi r.1

    passed : (skb : k.Skb) (w : World k) → Translates (pass skb w)
    unfolding pass
    passed skb w = λ h. absurd (h refl)

    module _ (fwd_laws : IsLruMap k.fwd_maps) (port_words : cfg.port_max < 65536)
        (pool_words : (v4 : ℕ) → v4_in_pool v4 cfg ≡ true → v4 < 2 ^ 32) (skb0 : k.Skb)
        (client : IsClientFrame laws cfg info sport macs kind start gap middle rest padding lo hi
          skb0) where
      abbrev tail : List ℕ
      tail = segment [] middle rest sport lo hi ++ padding

      mapped-Translates :
          (ext_v4 read dport : ℕ) (skb : k.Skb) (w : World k)
          → IsConsistent cfg w
          → v4_in_pool ext_v4 cfg ≡ true
          → read ≡ sport
          → bytes skb ≡ macs ++ to_be_bytes16 0x0800 ++ (gap ++ tail)
          → IsComplete skb
          → Translates (forward_tcp_mapped cfg info ext_v4 (read, dport) skb now prandom w)
      unfolding forward_tcp_mapped
      mapped-Translates ext_v4 read dport skb w c in_pool same holds complete =
          let remote = nat64_embedded_v4_be info.dst in
          let key = fwd_nat_key info.src remote read dport 6 in
          let r = lookup_or_create_mapping cfg key ext_v4 6 now prandom w in
          let granted =
            lookup_or_create_mapping-Granted fwd_laws cfg key ext_v4 6 now prandom w c in_pool in
          elim (Option-cases r.1) [
            | inl e ↦ rw (e, forward_tcp_mapped) (passed skb _)
            | inr ((a, p, g), e) ↦
                rw (e, forward_tcp_mapped)
                  (λ h.
                    let external = granted.external e in
                    let sent =
                      forward_tcp_rewrite-Sent laws cfg info read dport a p g now
                        (macs ++ to_be_bytes16 0x0800) gap middle rest padding lo hi
                        (pool_words a external.in_pool)
                        (omega (arith, external.below_max, port_words)) client.remote_word skb
                        (record {
                          link_size =
                              omega (
                                arith,
                                length-append macs (to_be_bytes16 0x0800),
                                client.macs_size,
                              );
                          gap_size = client.gap_size;
                          middle_size = client.middle_size;
                          payload_size = client.payload_size;
                          parts = client.parts;
                          lo_byte = client.lo_byte;
                          hi_byte = client.hi_byte;
                          src_size = client.src_size;
                          dst_size = client.dst_size;
                          src_bytes = client.src_bytes;
                          dst_bytes = client.dst_bytes;
                          sport_word = omega (arith, same, client.sport_word);
                          holds = rw same holds;
                          complete = complete;
                          verifies = rw same client.verifies;
                        })
                        r.0 h in
                    record {
                      ext_v4 = a;
                      ext_port = p;
                      external = external;
                      lo' = sent.lo';
                      hi' = sent.hi';
                      holds = sent.holds;
                      verifies = sent.verifies;
                    })
          ]

      shrunk_lem :
          {skb1 skb2 : k.Skb}
          → k.change_proto skb0 (to_be16 0x0800) ≡ some skb1
          → k.store skb1 12 (to_be_bytes16 0x0800) ≡ some skb2
          → (bytes skb2 ≡ macs ++ to_be_bytes16 0x0800 ++ (gap ++ tail)) × IsComplete skb2
      shrunk_lem {skb1} e1 e2 =
          let link = macs ++ kind in
          let behind = gap ++ tail in
          let link_size : 14 ≡ length link =
            omega (arith, length-append macs kind, client.macs_size, client.kind_size) in
          let front : take 14 (bytes skb0) ≡ link =
            ap (take 14) (client.holds ∙ append_assoc link start behind)
            ∙ ap (λ n. take n (link ++ (start ++ behind))) link_size
            ∙ take-append link (start ++ behind) in
          let back : drop 34 (bytes skb0) ≡ behind =
            ap (drop 34) client.holds
            ∙ drop-append (link ++ start) behind 34
                (omega (arith, length-append link start, link_size, client.start_size)) in
          (
            laws.bytes-store skb1 12 (to_be_bytes16 0x0800) e2
                ∙ ap (λ b. splice b 12 (to_be_bytes16 0x0800))
                    (laws.shrinks skb0 e1
                      ∙ ap₂ (λ a b. a ++ b) front back
                      ∙ append_assoc macs kind behind)
                ∙ splice-append macs kind (to_be_bytes16 0x0800) behind 12 (sym client.macs_size)
                    (sym client.kind_size)
                ∙ sym (append_assoc macs (to_be_bytes16 0x0800) behind),
            laws.store-IsComplete skb1 12 _ e2
                (laws.change_proto-IsComplete skb0 _ e1 client.complete),
          )

      read_lem :
          (skb : k.Skb) {read dport : ℕ}
          → bytes skb ≡ macs ++ to_be_bytes16 0x0800 ++ (gap ++ tail)
          → tcp_ports k skb 34 ≡ some (read, dport)
          → read ≡ sport
      read_lem skb holds h =
          let link = macs ++ to_be_bytes16 0x0800 in
          port_lem laws skb (link ++ gap) ((middle ++ (lo ∷ hi ∷ rest)) ++ padding) sport
            (omega (
              arith,
              length-append link gap,
              length-append macs (to_be_bytes16 0x0800),
              client.macs_size,
              client.gap_size,
            ))
            client.sport_word (holds ∙ sym (append_assoc link gap tail)) h

      tcp-Translates :
          (ext_v4 : ℕ) (w0 : World k)
          → IsConsistent cfg w0
          → v4_in_pool ext_v4 cfg ≡ true
          → Translates (forward_tcp cfg info ext_v4 skb0 now prandom w0)
      unfolding forward_tcp
      tcp-Translates ext_v4 w0 c0 in_pool =
          let c =
            counted-IsConsistent cfg [] (proto_change_ok ∷ [])
              (counted-IsConsistent cfg (pkts_nat64_tcp ∷ []) (dbg_fwd_tcp_branch ∷ []) c0) in
          elim (Bool-cases (ltb 1500 info.payload_len)) [
            | inl long ↦ rw (long, forward_tcp) (passed skb0 _)
            | inr fits ↦ elim (Option-cases (k.change_proto skb0 (to_be16 0x0800))) [
              | inl e ↦ rw (fits, forward_tcp, e) (passed skb0 _)
              | inr (skb1, e1) ↦ elim (Option-cases (k.store skb1 12 (to_be_bytes16 0x0800))) [
                | inl e ↦ rw (fits, forward_tcp, e1, e) (passed skb1 _)
                | inr (skb2, e2) ↦ elim (Option-cases (tcp_ports k skb2 34)) [
                  | inl e ↦ rw (fits, forward_tcp, e1, e2, e) (passed skb2 _)
                  | inr ((read, dport), e3) ↦
                      let (holds, complete) = shrunk_lem e1 e2 in
                      rw (fits, forward_tcp, e1, e2, e3)
                        (mapped-Translates ext_v4 read dport skb2 _ c in_pool
                          (read_lem skb2 holds e3) holds complete)
                ]
              ]
            ]
          ]

      parsed-Translates :
          (w0 : World k)
          → IsConsistent cfg w0
          → Translates (forward_parsed info skb0 now prandom w0)
      unfolding forward_parsed
      parsed-Translates w0 c0 =
          let w1 = forward_diagnose info w0 in
          let c1 = SameMaps-IsConsistent cfg (forward_diagnose-SameMaps info w0) c0 in
          let same = c1.has_config in
          let cfg1 = current_cfg w1 in
          let six = (==_iff info.next_header 6).1 client.is_tcp in
          let known : (not (info.next_header == 6) && not (info.next_header == 17)) ≡ false =
            ground (arith, client.is_tcp) in
          elim (Bool-cases (same_bytes (take 12 info.dst) cfg1.prefix96)) [
            | inr other ↦ rw (other, forward_parsed) (passed skb0 _)
            | inl prefix ↦ elim (Bool-cases (is_extension_header info.next_header)) [
              | inl ext ↦ rw (prefix, forward_parsed, ext) (passed skb0 _)
              | inr plain ↦ elim (Option-cases (select_v4_from_pool_ebpf info.src cfg1)) [
                | inl no_pool ↦ rw (prefix, forward_parsed, plain, known, no_pool) (passed skb0 _)
                | inr (ext_v4, selected) ↦
                    rw (prefix, forward_parsed, plain, known, selected, six, same)
                      (tcp-Translates ext_v4 _
                        (counted-IsConsistent cfg (pkts_nat64_dst ∷ [])
                          (dbg_fwd_nat64_prefix_match ∷ []) c1)
                        (select_v4_from_pool_ebpf-in_pool info.src cfg
                          (ap (select_v4_from_pool_ebpf info.src) (sym same) ∙ selected)))
              ]
            ]
          ]

      -- A TCP packet of a client, whose checksum verifies over IPv6, is passed on, or leaves as an
      -- IPv4 packet from an external address and port of the configuration: with the header that
      -- natto64-xlat builds for these addresses, and with the client's segment, of which the source
      -- port is replaced and the checksum, so that it verifies over IPv4. The state is consistent,
      -- the checksum of the packet is not left to a device, and the addresses and ports of the
      -- configuration fit their 32 and 16 bits.
      pub try_nat64_forward-Translates :
          (w0 : World k)
          → IsConsistent cfg w0
          → (try_nat64_forward skb0 now prandom w0).2 ≢ k.tc_act_pipe
          → Translated laws cfg info sport macs kind start gap middle rest padding lo hi
              (try_nat64_forward skb0 now prandom w0).1
      unfolding try_nat64_forward
      try_nat64_forward-Translates w0 c0 =
          let c = counted-IsConsistent cfg [] (pkts_ipv6_parsed_ok ∷ []) (
            counted-IsConsistent cfg (pkts_ipv6 ∷ []) (dbg_fwd_eth_ipv6 ∷ [])
              (counted-IsConsistent cfg (pkts_total ∷ []) (dbg_fwd_enter ∷ []) c0)) in
          elim (Option-cases (load_be16 k skb0 12)) [
            | inl e ↦ rw (e, try_nat64_forward) (passed skb0 _)
            | inr (ether_type, e) ↦ elim (Bool-cases (not (ether_type == 0x86dd))) [
              | inl other ↦ rw (e, try_nat64_forward, other) (passed skb0 _)
              | inr ipv6 ↦ rw (e, try_nat64_forward, ipv6, client.parses) (parsed-Translates _ c)
            ]
          ]
