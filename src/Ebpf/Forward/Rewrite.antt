-- ===== src/Ebpf/Forward/Rewrite.antt =====
-- natto64-ebpf/src/lib.rs: how the forward classifier rewrites a packet that has its mapping.
use mathlib.Core.Option
use natto.Common.{ℕ, ◌+◌, List, [], ◌∷◌, true, false, none, some, to_be_bytes16}
use natto.Abi.{
  Nat64Config, NatVal, nat_key, new_forward_with_generation, nat64_embedded_v4_be,
  nat64_embedded_v4_bytes,
}
use natto.Abi.ProdCounters.{
  ProdCounter, nat64_v6_to_v4_ok, nat64_v6_to_v4_udp_ok, nat64_v6_to_v4_err_write_hdr,
  nat64_v6_to_v4_err_csum,
}
use natto.Abi.DebugCounters.{
  DebugCounter, dbg_fwd_return_err, rewrite_v4_src_ok, rewrite_v4_src_err, dbg_fwd_write_ipv4_err,
  rewrite_tcp_sport_ok, rewrite_tcp_sport_err, dbg_fwd_store_bytes_err, dbg_fwd_l4_csum_err,
  nat_insert_ok, nat_insert_err, dbg_fwd_nat_insert_err, fwd_rewrite_ok_before_redirect,
  proto_change_ok, proto_change_err, nat64_v6_to_v4_udp_err_change_proto,
  nat64_v6_to_v4_udp_err_l2_store, nat64_v6_to_v4_udp_err_udp_store, nat64_v6_to_v4_udp_err_csum,
  nat_insert_udp_ok, nat_insert_udp_err,
}
use natto.Ebpf.Kernel.{Kernel}
use natto.Ebpf.World.{World, with_counters}
use natto.Ebpf.Packet.{to_be16, eth_hdr_len, ipv4_hdr_len, write_ipv4_header, redirect_to_iface}
use natto.Ebpf.Packet.Transport.{FwdL4CsumTrace, load_u16, apply_l4_nat64_checksum_delta_v6_to_v4}
use natto.Ebpf.Ipv6.{Ipv6Info}
use natto.Ebpf.Sampling.{record_fwd_tcp_sample, record_fwd_tcp_csum_sample}
use natto.Ebpf.Reverse.Rewrite.{Outcome, pass}

module _ {k : Kernel} where
  -- An error of the UDP branch: its own counters, then that of all errors.
  abbrev pub fail_udp : List ProdCounter → List DebugCounter → k.Skb → World k → Outcome k
  fail_udp prods debugs skb w =
      pass skb (with_counters [] (dbg_fwd_return_err ∷ []) (with_counters prods debugs w))

  -- The redirection to the uplink.
  unfoldable pub send_uplink : Nat64Config → k.Skb → World k → Outcome k
  send_uplink cfg skb w =
      let (w', action) = redirect_to_iface cfg.uplink_ifindex true w in (w', skb, action)

  -- The entry for the replies, and what follows it.
  unfoldable pub forward_tcp_insert :
      Nat64Config → Ipv6Info → ℕ × ℕ → ℕ × ℕ × ℕ → FwdL4CsumTrace → k.Skb → ℕ → World k → Outcome k
  forward_tcp_insert cfg info (sport, dport) (ext_v4, ext_port, generation) trace skb now w =
      let remote_v4 = nat64_embedded_v4_be info.dst in
      let value = new_forward_with_generation info.src sport remote_v4 dport generation now in
      elim (k.nat_maps.insert w.nat (nat_key ext_v4 ext_port 6) value) [
        | none ↦
            pass skb (
              with_counters [] (nat_insert_err ∷ dbg_fwd_nat_insert_err ∷ dbg_fwd_return_err ∷ [])
                w)
        | some inserted ↦
            let w1 = with_counters [] (nat_insert_ok ∷ []) (record w { nat = inserted }) in
            let w2 =
              record_fwd_tcp_sample info.dst (nat64_embedded_v4_bytes info.dst) remote_v4 ext_v4
                sport dport true true w1 in
            let w3 =
              with_counters (nat64_v6_to_v4_ok ∷ []) (fwd_rewrite_ok_before_redirect ∷ []) w2 in
            let final_check_be =
              Option.get_or (load_u16 k skb (eth_hdr_len + ipv4_hdr_len + 16))
                trace.after_port_be in
            send_uplink cfg skb (
              record_fwd_tcp_csum_sample trace final_check_be (to_be16 sport) (to_be16 ext_port)
                ext_v4 remote_v4 w3)
      ]

  unfoldable pub forward_tcp_rewrite :
      Nat64Config → Ipv6Info → ℕ × ℕ → ℕ × ℕ × ℕ → k.Skb → ℕ → World k → Outcome k
  forward_tcp_rewrite cfg info (sport, dport) (ext_v4, ext_port, generation) skb now w =
      let remote_v4 = nat64_embedded_v4_be info.dst in
      let tcp_offset = eth_hdr_len + ipv4_hdr_len in
      elim (write_ipv4_header k skb info.payload_len ext_v4 remote_v4 6) [
        | none ↦ pass skb (
            with_counters (nat64_v6_to_v4_err_write_hdr ∷ [])
              (rewrite_v4_src_err ∷ dbg_fwd_write_ipv4_err ∷ dbg_fwd_return_err ∷ []) w)
        | some skb1 ↦
            let w1 = with_counters [] (rewrite_v4_src_ok ∷ []) w in
            elim (k.store skb1 tcp_offset (to_be_bytes16 ext_port)) [
              | none ↦ pass skb1 (
                  with_counters (nat64_v6_to_v4_err_csum ∷ [])
                    (rewrite_tcp_sport_err ∷ dbg_fwd_store_bytes_err ∷ dbg_fwd_return_err ∷ []) w1)
              | some skb2 ↦
                  let w2 = with_counters [] (rewrite_tcp_sport_ok ∷ []) w1 in
                  let (w3, skb3, trace) =
                    apply_l4_nat64_checksum_delta_v6_to_v4 (tcp_offset + 16) info.payload_len 6
                      info.src info.dst ext_v4 remote_v4 (some (sport, ext_port)) false skb2 w2 in
                  elim trace [
                    | none ↦ pass skb3 (
                        with_counters (nat64_v6_to_v4_err_csum ∷ [])
                          (dbg_fwd_l4_csum_err ∷ dbg_fwd_return_err ∷ []) w3)
                    | some trace' ↦
                        forward_tcp_insert cfg info (sport, dport) (ext_v4, ext_port, generation)
                          trace' skb3 now w3
                  ]
            ]
      ]

  -- The entry for the replies of a UDP flow; the packet is sent even where it cannot be inserted.
  unfoldable pub forward_udp_insert :
      Nat64Config → Ipv6Info → ℕ × ℕ → ℕ × ℕ × ℕ → k.Skb → ℕ → World k → Outcome k
  forward_udp_insert cfg info (sport, dport) (ext_v4, ext_port, generation) skb now w =
      let value : NatVal = record {
        vm_v6 = info.src;
        vm_port = sport;
        remote_v4 = nat64_embedded_v4_be info.dst;
        remote_port = dport;
        pad = 0;
        generation = generation;
        last_seen_ns = now;
      } in
      let w1 : World k = elim (k.nat_maps.insert w.nat (nat_key ext_v4 ext_port 17) value) [
        | none ↦ with_counters [] (nat_insert_err ∷ nat_insert_udp_err ∷ []) w
        | some inserted ↦
            with_counters [] (nat_insert_ok ∷ nat_insert_udp_ok ∷ []) (record w { nat = inserted })
      ] in
      send_uplink cfg skb
        (with_counters (nat64_v6_to_v4_udp_ok ∷ []) (fwd_rewrite_ok_before_redirect ∷ []) w1)

  unfoldable pub forward_udp_rewrite :
      Nat64Config → Ipv6Info → ℕ × ℕ × ℕ → ℕ × ℕ × ℕ → k.Skb → ℕ → World k → Outcome k
  forward_udp_rewrite cfg info (sport, dport, udp_len) (ext_v4, ext_port, generation) skb now w =
      let remote_v4 = nat64_embedded_v4_be info.dst in
      let udp_v4_offset = eth_hdr_len + ipv4_hdr_len in
      elim (k.change_proto skb (to_be16 0x0800)) [
        | none ↦ fail_udp [] (proto_change_err ∷ nat64_v6_to_v4_udp_err_change_proto ∷ []) skb w
        | some skb1 ↦
            let w1 = with_counters [] (proto_change_ok ∷ []) w in
            elim (k.store skb1 12 (to_be_bytes16 0x0800)) [
              | none ↦ fail_udp [] (nat64_v6_to_v4_udp_err_l2_store ∷ []) skb1 w1
              | some skb2 ↦ elim (write_ipv4_header k skb2 udp_len ext_v4 remote_v4 17) [
                | none ↦
                    fail_udp (nat64_v6_to_v4_err_write_hdr ∷ []) (rewrite_v4_src_err ∷ []) skb2 w1
                | some skb3 ↦
                    let w3 = with_counters [] (rewrite_v4_src_ok ∷ []) w1 in
                    elim (k.store skb3 udp_v4_offset (to_be_bytes16 ext_port)) [
                      | none ↦ fail_udp [] (nat64_v6_to_v4_udp_err_udp_store ∷ []) skb3 w3
                      | some skb4 ↦
                          let (w4, skb5, trace) =
                            apply_l4_nat64_checksum_delta_v6_to_v4 (udp_v4_offset + 6) udp_len 17
                              info.src info.dst ext_v4 remote_v4 (some (sport, ext_port)) true skb4
                              w3 in
                          elim trace [
                            | none ↦ fail_udp [] (nat64_v6_to_v4_udp_err_csum ∷ []) skb5 w4
                            | some trace' ↦
                                forward_udp_insert cfg info (sport, dport)
                                  (ext_v4, ext_port, generation) skb5 now w4
                          ]
                    ]
              ]
            ]
      ]
