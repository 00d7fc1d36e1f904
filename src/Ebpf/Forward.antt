-- ===== src/Ebpf/Forward.antt =====
-- natto64-ebpf/src/lib.rs: the classifier of the forward path, from IPv6 to IPv4.
pub mod Rewrite
pub mod Guard
pub mod Opening
use natto.Common.{
  ℕ, ◌+◌, List, [], ◌∷◌, Bool, true, false, not, ◌&&◌, Option, none, some, ltb, ◌==◌, if◌then◌else◌,
  take, to_be_bytes16,
}
use natto.Abi.{Nat64Config, fwd_nat_key, nat64_embedded_v4_be, nat64_embedded_v4_bytes}
use natto.Abi.ProdCounters.{
  pkts_total, pkts_ipv6, pkts_nat64_dst, pkts_nat64_tcp, pkts_nat64_udp,
  unsupported_ipv6_extension_headers, unsupported_ipv6_non_tcp_udp, nat64_v6_to_v4_err_csum,
}
use natto.Abi.DebugCounters.{
  dbg_fwd_enter, dbg_fwd_return_err, dbg_fwd_eth_ipv6, pkts_ipv6_parsed_ok, pkts_ipv6_ext_hdr,
  pkts_ipv6_non_tcp_udp, pkts_udp, dbg_fwd_nat64_prefix_match, dbg_fwd_tcp_branch,
  dbg_fwd_udp_branch, dbg_fwd_tcp_parse_err, proto_change_err, proto_change_ok,
  nat64_v6_to_v4_err_change_proto, dbg_fwd_adjust_room_err, nat64_v6_to_v4_err_l2_store,
  dbg_fwd_store_bytes_err, dbg_fwd_redirect_or_return_err, nat64_v6_to_v4_udp_err_len,
}
use natto.Ebpf.Kernel.{Kernel}
use natto.Ebpf.World.{World, with_counters}
use natto.Ebpf.Pool.{select_v4_from_pool_ebpf}
use natto.Ebpf.Sessions.{current_cfg, lookup_or_create_mapping}
use natto.Ebpf.Packet.{to_be16, eth_hdr_len, ipv4_hdr_len, max_l4_len, load_be16}
use natto.Ebpf.Packet.Transport.{tcp_ports, udp_ports_len}
use natto.Ebpf.Ipv6.{Ipv6Info, is_extension_header, parse_ipv6_base}
use natto.Ebpf.Sampling.{same_bytes, record_fwd_dst_sample, classify_fwd_dst}
use natto.Ebpf.Reverse.Rewrite.{Outcome, pass}
use natto.Ebpf.Forward.Rewrite.{forward_tcp_rewrite, forward_udp_rewrite}

module _ {k : Kernel} where
  -- What follows the reading of the TCP ports; the packet has its IPv4 size and type by then.
  unfoldable pub forward_tcp_mapped :
      Nat64Config → Ipv6Info → ℕ → ℕ × ℕ → k.Skb → ℕ → ℕ → World k → Outcome k
  forward_tcp_mapped cfg info ext_v4 (sport, dport) skb now prandom w =
      let remote_v4 = nat64_embedded_v4_be info.dst in
      let (w', mapping) =
        lookup_or_create_mapping cfg (fwd_nat_key info.src remote_v4 sport dport 6) ext_v4 6 now
          prandom w in
      elim mapping [
        | none ↦
            pass skb
              (with_counters [] (dbg_fwd_redirect_or_return_err ∷ dbg_fwd_return_err ∷ []) w')
        | some (ext_v4', ext_port, generation) ↦
            forward_tcp_rewrite cfg info (sport, dport) (ext_v4', ext_port, generation) skb now w'
      ]

  unfoldable pub forward_tcp : Nat64Config → Ipv6Info → ℕ → k.Skb → ℕ → ℕ → World k → Outcome k
  forward_tcp cfg info ext_v4 skb now prandom w0 =
      let w = with_counters (pkts_nat64_tcp ∷ []) (dbg_fwd_tcp_branch ∷ []) w0 in
      if ltb max_l4_len info.payload_len
      then pass skb (
          with_counters (nat64_v6_to_v4_err_csum ∷ [])
            (dbg_fwd_tcp_parse_err ∷ dbg_fwd_return_err ∷ []) w)
      else elim (k.change_proto skb (to_be16 0x0800)) [
        | none ↦ pass skb (
            with_counters []
              (proto_change_err ∷ nat64_v6_to_v4_err_change_proto ∷ dbg_fwd_adjust_room_err
                ∷ dbg_fwd_return_err ∷ [])
              w)
        | some skb1 ↦
            let w1 = with_counters [] (proto_change_ok ∷ []) w in
            elim (k.store skb1 12 (to_be_bytes16 0x0800)) [
              | none ↦ pass skb1 (
                  with_counters []
                    (nat64_v6_to_v4_err_l2_store ∷ dbg_fwd_store_bytes_err ∷ dbg_fwd_return_err
                      ∷ [])
                    w1)
              | some skb2 ↦ elim (tcp_ports k skb2 (eth_hdr_len + ipv4_hdr_len)) [
                | none ↦ pass skb2 (
                    with_counters (nat64_v6_to_v4_err_csum ∷ [])
                      (dbg_fwd_tcp_parse_err ∷ dbg_fwd_return_err ∷ []) w1)
                | some ports ↦ forward_tcp_mapped cfg info ext_v4 ports skb2 now prandom w1
              ]
            ]
      ]

  -- A UDP packet whose length is not accepted.
  abbrev pub bad_length : k.Skb → World k → Outcome k
  bad_length skb w = pass skb (
      with_counters [] (dbg_fwd_return_err ∷ [])
        (with_counters [] (nat64_v6_to_v4_udp_err_len ∷ []) w))

  -- What follows the reading of the UDP header; the packet is still as it came.
  unfoldable pub forward_udp_read :
      Nat64Config → Ipv6Info → ℕ → k.Skb → ℕ → ℕ → World k × Option (ℕ × ℕ × ℕ) → Outcome k
  forward_udp_read cfg info ext_v4 skb now prandom (w, none) = pass skb w
  forward_udp_read cfg info ext_v4 skb now prandom (w, some (sport, dport, udp_len)) =
      if ltb udp_len 8
      then bad_length skb w
      else if ltb max_l4_len udp_len
      then bad_length skb w
      else let remote_v4 = nat64_embedded_v4_be info.dst in
        let (w', mapping) =
          lookup_or_create_mapping cfg (fwd_nat_key info.src remote_v4 sport dport 17) ext_v4 17 now
            prandom w in
        elim mapping [
          | none ↦ pass skb (with_counters [] (dbg_fwd_return_err ∷ []) w')
          | some (ext_v4', ext_port, generation) ↦
              forward_udp_rewrite cfg info (sport, dport, udp_len) (ext_v4', ext_port, generation)
                skb now w'
        ]

  unfoldable pub forward_udp : Nat64Config → Ipv6Info → ℕ → k.Skb → ℕ → ℕ → World k → Outcome k
  forward_udp cfg info ext_v4 skb now prandom w = forward_udp_read cfg info ext_v4 skb now prandom (
      udp_ports_len skb info.l4_abs_offset
        (with_counters (pkts_nat64_udp ∷ []) (dbg_fwd_udp_branch ∷ []) w))

  -- The counters of the protocol, and the diagnostics of the destination.
  unfoldable pub forward_diagnose : Ipv6Info → World k → World k
  forward_diagnose info w =
      let w' =
        if is_extension_header info.next_header
        then with_counters [] (pkts_ipv6_ext_hdr ∷ []) w
        else if not (info.next_header == 6) && not (info.next_header == 17)
        then with_counters [] (pkts_ipv6_non_tcp_udp ∷ []) w
        else if info.next_header == 17
        then with_counters [] (pkts_udp ∷ []) w
        else w in
      classify_fwd_dst info.dst (record_fwd_dst_sample info.dst w')

  -- What follows the parse of the IPv6 header.
  unfoldable pub forward_parsed : Ipv6Info → k.Skb → ℕ → ℕ → World k → Outcome k
  forward_parsed info skb now prandom w0 =
      let w1 = forward_diagnose info w0 in
      let cfg = current_cfg w1 in
      if not (same_bytes (take 12 info.dst) cfg.prefix96)
      then pass skb (with_counters [] (dbg_fwd_return_err ∷ []) w1)
      else let w = with_counters (pkts_nat64_dst ∷ []) (dbg_fwd_nat64_prefix_match ∷ []) w1 in
        if is_extension_header info.next_header
        then pass skb
            (with_counters (unsupported_ipv6_extension_headers ∷ []) (dbg_fwd_return_err ∷ []) w)
        else if not (info.next_header == 6) && not (info.next_header == 17)
        then pass skb
            (with_counters (unsupported_ipv6_non_tcp_udp ∷ []) (dbg_fwd_return_err ∷ []) w)
        else elim (select_v4_from_pool_ebpf info.src cfg) [
          | none ↦ pass skb w
          | some ext_v4 ↦
              if info.next_header == 6
              then forward_tcp cfg info ext_v4 skb now prandom w
              else forward_udp cfg info ext_v4 skb now prandom w
        ]

  -- `now` and `prandom` are what `bpf_ktime_get_ns` and `bpf_get_prandom_u32` return.
  unfoldable pub try_nat64_forward : k.Skb → ℕ → ℕ → World k → Outcome k
  try_nat64_forward skb now prandom w0 =
      let w = with_counters (pkts_total ∷ []) (dbg_fwd_enter ∷ []) w0 in
      elim (load_be16 k skb 12) [
        | none ↦ pass skb w
        | some ether_type ↦
            if not (ether_type == 0x86dd)
            then pass skb (with_counters [] (dbg_fwd_return_err ∷ []) w)
            else let w1 = with_counters (pkts_ipv6 ∷ []) (dbg_fwd_eth_ipv6 ∷ []) w in
              elim (parse_ipv6_base k skb eth_hdr_len) [
                | none ↦ pass skb w1
                | some info ↦
                    forward_parsed info skb now prandom
                      (with_counters [] (pkts_ipv6_parsed_ok ∷ []) w1)
              ]
      ]
