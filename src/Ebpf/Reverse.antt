-- ===== src/Ebpf/Reverse.antt =====
-- natto64-ebpf/src/lib.rs: the classifier of replies, from IPv4 to IPv6.
pub mod Rewrite
pub mod Untouched
pub mod Replies
pub mod Stages
pub mod Guard
pub mod Translate
pub mod Delivery
pub mod ZeroChecksum
use natto.Common.{
  ℕ, ◌+◌, ◌-◌, ◌*◌, List, [], ◌∷◌, ◌++◌, Bool, true, false, not, ◌&&◌, ◌||◌, Option, none, some,
  ltb, leb, ◌==◌, if◌then◌else◌, shr, low_bits,
}
use natto.Abi.{Nat64Config, NatVal, nat_lookup_key_from_ipv4, nat_tuple_matches}
use natto.Abi.ProdCounters.{
  ProdCounter, pkts_total, pkts_ipv4, pkts_ipv4_tcp, pkts_ipv4_udp, nat_lookup_miss, nat_lookup_hit,
  nat_lookup_tuple_mismatch, nat_hit_refresh_ok, nat64_v4_to_v6_err_csum, nat64_v4_to_v6_udp_miss,
  nat64_v4_to_v6_udp_tuple_mismatch, unsupported_ipv4_fragments, unsupported_ipv4_non_tcp_udp,
}
use natto.Abi.DebugCounters.{
  DebugCounter, dbg_rev_enter, dbg_rev_return_err, dbg_rev_eth_ipv4, dbg_rev_pool_match,
  pkts_ipv4_to_v4src, nat64_v4_to_v6_udp_err_parse, nat64_v4_to_v6_udp_err_len,
}
use natto.Ebpf.Kernel.{Kernel}
use natto.Ebpf.World.{World, with_counters}
use natto.Ebpf.Pool.{v4_in_pool}
use natto.Ebpf.Packet.{eth_hdr_len, max_l4_len, load_u8, load_be16, load_be32}
use natto.Ebpf.Packet.Transport.{tcp_ports, udp_ports_len_reverse}
use natto.Ebpf.Sessions.{current_cfg}
use natto.Ebpf.Reverse.Rewrite.{Outcome, pass, rewrite_tcp, rewrite_udp}

-- The fields of the IPv4 header that the classifier reads.
pub record Ipv4Info : Type 0 where
  pub ihl_bytes : ℕ
  pub total_len : ℕ
  pub is_fragment : Bool
  pub proto : ℕ
  pub ipv4_src : ℕ
  pub ipv4_dst : ℕ

module _ {k : Kernel} where
  -- The return that most checks end in: one more counter, and the packet passes as it is.
  abbrev reject : k.Skb → World k → Outcome k
  reject skb w = pass skb (with_counters [] (dbg_rev_return_err ∷ []) w)

  -- Writes the time of a reply through the pointer to its entry.
  unfoldable pub refresh : NatVal → ℕ → ℕ → ℕ → ℕ → World k → World k
  refresh value now ipv4_dst dport proto w = with_counters (nat_hit_refresh_ok ∷ []) [] (record w {
    nat =
        k.nat_maps.write w.nat (nat_lookup_key_from_ipv4 ipv4_dst dport proto)
          (record value { last_seen_ns = now });
  })

  unfoldable pub reverse_tcp : Nat64Config → Ipv4Info → k.Skb → ℕ → World k → Outcome k
  reverse_tcp cfg ip skb now w0 =
      let w = with_counters (pkts_ipv4_tcp ∷ []) (pkts_ipv4_to_v4src ∷ []) w0 in
      let tcp_len = ip.total_len - ip.ihl_bytes in
      if ltb max_l4_len tcp_len
      then reject skb (with_counters (nat64_v4_to_v6_err_csum ∷ []) [] w)
      else elim (tcp_ports k skb (eth_hdr_len + ip.ihl_bytes)) [
        | none ↦ pass skb w
        | some (sport, dport) ↦
            elim (k.nat_maps.get w.nat (nat_lookup_key_from_ipv4 ip.ipv4_dst dport 6)) [
              | none ↦ pass skb (with_counters (nat_lookup_miss ∷ []) (dbg_rev_return_err ∷ []) w)
              | some value ↦
                  let hit = with_counters (nat_lookup_hit ∷ []) [] w in
                  if not (nat_tuple_matches value ip.ipv4_src sport)
                  then pass skb (
                      with_counters (nat_lookup_tuple_mismatch ∷ nat_lookup_miss ∷ [])
                        (dbg_rev_return_err ∷ []) hit)
                  else rewrite_tcp cfg tcp_len ip.ipv4_src ip.ipv4_dst dport
                      (record value { last_seen_ns = now }) skb
                      (refresh value now ip.ipv4_dst dport 6 hit)
            ]
      ]

  -- What follows the reading of the UDP header.
  unfoldable pub reverse_udp_read :
      Nat64Config → Ipv4Info → k.Skb → ℕ → World k × Option (ℕ × ℕ × ℕ) → Outcome k
  reverse_udp_read cfg ip skb now (w, none) = pass skb w
  reverse_udp_read cfg ip skb now (w, some (sport, dport, udp_len)) =
      if ltb udp_len 8 || ltb max_l4_len udp_len || ltb ip.total_len (ip.ihl_bytes + udp_len)
      then reject skb (with_counters [] (nat64_v4_to_v6_udp_err_len ∷ []) w)
      else elim (k.nat_maps.get w.nat (nat_lookup_key_from_ipv4 ip.ipv4_dst dport 17)) [
        | none ↦ pass skb (with_counters (nat64_v4_to_v6_udp_miss ∷ []) (dbg_rev_return_err ∷ []) w)
        | some value ↦
            if not (value.remote_v4 == ip.ipv4_src) || not (value.remote_port == sport)
            then reject skb (with_counters (nat64_v4_to_v6_udp_tuple_mismatch ∷ []) [] w)
            else rewrite_udp cfg udp_len (eth_hdr_len + ip.ihl_bytes) ip.ipv4_src ip.ipv4_dst dport
                (record value { last_seen_ns = now }) skb (refresh value now ip.ipv4_dst dport 17 w)
      ]

  unfoldable pub reverse_udp : Nat64Config → Ipv4Info → k.Skb → ℕ → World k → Outcome k
  reverse_udp cfg ip skb now w = reverse_udp_read cfg ip skb now (
      udp_ports_len_reverse skb (eth_hdr_len + ip.ihl_bytes)
        (with_counters (pkts_ipv4_udp ∷ []) [] w))

  -- What follows the parse of the IPv4 header.
  unfoldable pub reverse_parsed : Ipv4Info → k.Skb → ℕ → World k → Outcome k
  reverse_parsed ip skb now w0 =
      let cfg = current_cfg w0 in
      if not (v4_in_pool ip.ipv4_dst cfg)
      then reject skb w0
      else let w = with_counters [] (dbg_rev_pool_match ∷ []) w0 in
        if ip.is_fragment
        then pass skb (with_counters (unsupported_ipv4_fragments ∷ []) (dbg_rev_return_err ∷ []) w)
        else if not (ip.proto == 6) && not (ip.proto == 17)
        then pass skb
            (with_counters (unsupported_ipv4_non_tcp_udp ∷ []) (dbg_rev_return_err ∷ []) w)
        else if ip.proto == 6
        then reverse_tcp cfg ip skb now w
        else reverse_udp cfg ip skb now w

  -- The loads after the test for fragments.
  unfoldable pub reverse_addresses : ℕ → ℕ → Bool → k.Skb → ℕ → World k → Outcome k
  reverse_addresses ihl_bytes total_len is_fragment skb now w =
      elim (load_u8 k skb (eth_hdr_len + 9)) [
        | none ↦ pass skb w
        | some proto ↦ elim (load_be32 k skb (eth_hdr_len + 12)) [
          | none ↦ pass skb w
          | some ipv4_src ↦ elim (load_be32 k skb (eth_hdr_len + 16)) [
            | none ↦ pass skb w
            | some ipv4_dst ↦
                reverse_parsed
                  (record {
                    ihl_bytes = ihl_bytes;
                    total_len = total_len;
                    is_fragment = is_fragment;
                    proto = proto;
                    ipv4_src = ipv4_src;
                    ipv4_dst = ipv4_dst;
                  })
                  skb now w
          ]
        ]
      ]

  unfoldable pub reverse_ipv4 : k.Skb → ℕ → World k → Outcome k
  reverse_ipv4 skb now w = elim (load_u8 k skb eth_hdr_len) [
    | none ↦ pass skb w
    | some vihl ↦
        let ihl_bytes = low_bits vihl 4 * 4 in
        if not (shr vihl 4 == 4)
        then reject skb w
        else if not (leb 20 ihl_bytes && leb ihl_bytes 60)
        then reject skb w
        else elim (load_be16 k skb (eth_hdr_len + 2)) [
          | none ↦ pass skb w
          | some total_len ↦
              if ltb total_len ihl_bytes
              then reject skb w
              else elim (load_be16 k skb (eth_hdr_len + 6)) [
                | none ↦ pass skb w
                | some frag_off_flags ↦
                    let is_fragment = not (low_bits frag_off_flags 14 == 0) in
                    reverse_addresses ihl_bytes total_len is_fragment skb now (
                      if is_fragment
                      then with_counters [] (nat64_v4_to_v6_udp_err_parse ∷ []) w
                      else w)
              ]
        ]
  ]

  -- `now` is what `bpf_ktime_get_ns` returns.
  unfoldable pub try_nat64_reverse : k.Skb → ℕ → World k → Outcome k
  try_nat64_reverse skb now w0 =
      let w = with_counters (pkts_total ∷ []) (dbg_rev_enter ∷ []) w0 in
      elim (load_be16 k skb 12) [
        | none ↦ pass skb w
        | some ether_type ↦
            if not (ether_type == 0x0800)
            then reject skb w
            else reverse_ipv4 skb now (with_counters (pkts_ipv4 ∷ []) (dbg_rev_eth_ipv4 ∷ []) w)
      ]
