-- ===== src/Ebpf/Packet/Transport.antt =====
-- natto64-ebpf/src/lib.rs: the transport headers, and the incremental update of their checksums.
use natto.Common.{
  ℕ, ◌+◌, ◌*◌, ◌%◌, List, [], ◌∷◌, Bool, true, false, not, ◌||◌, Option, none, some, ◌==◌,
  if◌then◌else◌, length, byte_at, ◌>>=◌, bit_or,
}
use mathlib.Core.Option
use natto.Abi.DebugCounters.{
  nat64_v6_to_v4_udp_err_parse, nat64_v4_to_v6_udp_err_parse, dbg_fwd_l4_csum_pseudo_err,
  dbg_fwd_l4_csum_port_err,
}
use natto.Ebpf.Kernel.{Kernel}
use natto.Ebpf.World.{World, with_counters}
use natto.Ebpf.Packet.{to_be16, load_be16, ipv4_pseudo_header, ipv6_pseudo_header}

-- Three stages of a checksum, as the 16-bit numbers of a little-endian machine.
pub record FwdL4CsumTrace : Type 0 where
  pub old_check_be : ℕ
  pub after_pseudo_be : ℕ
  pub after_port_be : ℕ

module _ (k : Kernel) where
  unfoldable pub tcp_ports : k.Skb → ℕ → Option (ℕ × ℕ)
  tcp_ports skb tcp_offset = do
    sport ← load_be16 k skb tcp_offset
    dport ← load_be16 k skb (tcp_offset + 2)
    some (sport, dport)

  -- The two ports and the length of a UDP header.
  unfoldable pub udp_fields : k.Skb → ℕ → Option (ℕ × ℕ × ℕ)
  udp_fields skb udp_offset = do
    sport ← load_be16 k skb udp_offset
    dport ← load_be16 k skb (udp_offset + 2)
    udp_len ← load_be16 k skb (udp_offset + 4)
    some (sport, dport, udp_len)

  -- `ctx.load::<u16>` without a change of the byte order.
  unfoldable pub load_u16 : k.Skb → ℕ → Option ℕ
  load_u16 skb offset =
      Option.map (λ bytes. byte_at bytes 0 + byte_at bytes 1 * 256) (k.load skb offset 2)

  unfoldable pub csum_diff : List ℕ → List ℕ → Option ℕ
  csum_diff old new =
      if not (length old % 4 == 0) || not (length new % 4 == 0) then none else k.csum_diff old new

  -- The replacement of a port in the checksum, where there is one.
  unfoldable pub replace_port : ℕ → Option (ℕ × ℕ) → k.Skb → Option k.Skb
  replace_port csum_offset none skb = some skb
  replace_port csum_offset (some (old_port, new_port)) skb =
      k.l4_csum_replace skb csum_offset (to_be16 old_port) (to_be16 new_port) 2

module _ {k : Kernel} where
  unfoldable pub udp_ports_len : k.Skb → ℕ → World k → World k × Option (ℕ × ℕ × ℕ)
  udp_ports_len skb udp_offset w = elim (udp_fields k skb udp_offset) [
    | none ↦ (with_counters [] (nat64_v6_to_v4_udp_err_parse ∷ []) w, none)
    | some fields ↦ (w, some fields)
  ]

  unfoldable pub udp_ports_len_reverse : k.Skb → ℕ → World k → World k × Option (ℕ × ℕ × ℕ)
  udp_ports_len_reverse skb udp_offset w = elim (udp_fields k skb udp_offset) [
    | none ↦ (with_counters [] (nat64_v4_to_v6_udp_err_parse ∷ []) w, none)
    | some fields ↦ (w, some fields)
  ]

  -- The last part of the update from IPv6 to IPv4: the marking of a UDP checksum.
  unfoldable pub mark_udp_ipv4 :
      ℕ → Bool → FwdL4CsumTrace → k.Skb → World k → World k × k.Skb × Option FwdL4CsumTrace
  mark_udp_ipv4 csum_offset udp_ipv4 trace skb w =
      if udp_ipv4
      then elim (k.l4_csum_replace skb csum_offset (to_be16 0) (to_be16 0xffff)
          (bit_or 2 k.bpf_f_mark_mangled_0)) [
            | none ↦ (w, skb, none)
            | some marked ↦ (w, marked, some trace)
          ]
      else (w, skb, some trace)

  unfoldable pub apply_l4_nat64_checksum_delta_v6_to_v4 :
      ℕ
      → ℕ
      → ℕ
      → List ℕ
      → List ℕ
      → ℕ
      → ℕ
      → Option (ℕ × ℕ)
      → Bool
      → k.Skb
      → World k
      → World k × k.Skb × Option FwdL4CsumTrace
  apply_l4_nat64_checksum_delta_v6_to_v4 csum_offset l4_len proto old_src_v6 old_dst_v6 new_src_v4
        new_dst_v4 port_rewrite udp_ipv4 skb w =
      elim (load_u16 k skb csum_offset) [
        | none ↦ (w, skb, none)
        | some old_check_be ↦
            elim (csum_diff k (ipv6_pseudo_header old_src_v6 old_dst_v6 l4_len proto)
              (ipv4_pseudo_header new_src_v4 new_dst_v4 l4_len proto)) [
                | none ↦ (w, skb, none)
                | some pseudo_delta ↦
                    elim (k.l4_csum_replace skb csum_offset 0 pseudo_delta k.bpf_f_pseudo_hdr) [
                      | none ↦ (with_counters [] (dbg_fwd_l4_csum_pseudo_err ∷ []) w, skb, none)
                      | some skb1 ↦ elim (load_u16 k skb1 csum_offset) [
                        | none ↦ (w, skb1, none)
                        | some after_pseudo_be ↦
                            elim (replace_port k csum_offset port_rewrite skb1) [
                              | none ↦
                                  (with_counters [] (dbg_fwd_l4_csum_port_err ∷ []) w, skb1, none)
                              | some skb2 ↦ elim (load_u16 k skb2 csum_offset) [
                                | none ↦ (w, skb2, none)
                                | some after_port_be ↦
                                    mark_udp_ipv4 csum_offset udp_ipv4
                                      (record {
                                        old_check_be = old_check_be;
                                        after_pseudo_be = after_pseudo_be;
                                        after_port_be = after_port_be;
                                      })
                                      skb2 w
                              ]
                            ]
                      ]
                    ]
              ]
      ]

module _ (k : Kernel) where
  -- The update from IPv4 to IPv6, with the packet as far as it got and whether all of it succeeded.
  unfoldable pub apply_l4_nat64_checksum_delta_v4_to_v6 :
      ℕ → ℕ → ℕ → ℕ → ℕ → List ℕ → List ℕ → Option (ℕ × ℕ) → Bool → k.Skb → k.Skb × Bool
  apply_l4_nat64_checksum_delta_v4_to_v6 csum_offset l4_len proto old_src_v4 old_dst_v4 new_src_v6
        new_dst_v6 port_rewrite udp_v6 skb =
      elim (csum_diff k (ipv4_pseudo_header old_src_v4 old_dst_v4 l4_len proto)
        (ipv6_pseudo_header new_src_v6 new_dst_v6 l4_len proto)) [
          | none ↦ (skb, false)
          | some pseudo_delta ↦
              elim (k.l4_csum_replace skb csum_offset 0 pseudo_delta k.bpf_f_pseudo_hdr) [
                | none ↦ (skb, false)
                | some skb1 ↦ elim (replace_port k csum_offset port_rewrite skb1) [
                  | none ↦ (skb1, false)
                  | some skb2 ↦
                      if udp_v6
                      then elim (k.l4_csum_replace skb2 csum_offset 0 0
                          (bit_or (bit_or 2 k.bpf_f_pseudo_hdr) k.bpf_f_mark_mangled_0)) [
                            | none ↦ (skb2, false)
                            | some skb3 ↦ (skb3, true)
                          ]
                      else (skb2, true)
                ]
              ]
        ]
