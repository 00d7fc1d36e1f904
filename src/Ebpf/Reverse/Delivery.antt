-- ===== src/Ebpf/Reverse/Delivery.antt =====
-- The replies that natto64-ebpf/src/lib.rs delivers, and those it loses.
use mathlib.Core.Option
use natto.Common.{
  ℕ, ◌-◌, ◌*◌, ◌≤◌, ◌≡◌, sym, ◌∙◌, ap, ap₂, [], ◌∷◌, true, false, not, ◌&&◌, some, ltb, leb, ◌==◌,
  if◌then◌else◌, shr, low_bits, length, arith,
}
use natto.Abi.{Nat64Config, NatVal, nat_key, nat_lookup_key_from_ipv4, nat_tuple_matches}
use natto.Abi.ProdCounters.{pkts_total, pkts_ipv4, pkts_ipv4_tcp, nat_lookup_hit, nat64_v4_to_v6_ok}
use natto.Abi.DebugCounters.{
  dbg_rev_enter, dbg_rev_eth_ipv4, dbg_rev_pool_match, pkts_ipv4_to_v4src, rewrite_tcp_dport_ok,
}
use natto.Xlat.Checksum.Verify.{tcp}
use natto.Ebpf.Kernel.{Kernel}
use natto.Ebpf.World.{World, with_counters, SameMaps, with_counters-SameMaps}
use natto.Ebpf.Pool.{v4_in_pool}
use natto.Ebpf.Sessions.{current_cfg, default_cfg}
use natto.Ebpf.Packet.{load_be16, redirect_to_iface}
use natto.Ebpf.Reverse.{
  Ipv4Info, refresh, reverse_tcp, reverse_parsed, reverse_addresses, reverse_ipv4,
  try_nat64_reverse,
}
use natto.Ebpf.Reverse.Rewrite.{send, rewrite_tcp}
use natto.Ebpf.Reverse.Untouched.{SameMaps-trans}
use natto.Ebpf.Reverse.Replies.{Header, IsReply}
use natto.Ebpf.Reverse.Translate.{Rewritten, checked, rewrite_tcp_lem}

-- The header is that of an IPv4 packet without options in an Ethernet frame, of a length that can
-- hold it.
pub record Arrives (k : Kernel) (skb : k.Skb) (ip : Ipv4Info) : Type 0 where
  pub header : Header k skb ip
  pub ethertype : load_be16 k skb 12 ≡ some 0x0800
  pub version : shr header.vihl 4 ≡ 4
  pub no_options : ip.ihl_bytes ≡ 20
  pub holds_header : ip.ihl_bytes ≤ ip.total_len

module _ {k : Kernel} (skb : k.Skb) (now : ℕ) (ip : Ipv4Info) where
  addresses-parsed :
      (header : Header k skb ip) (w : World k)
      → reverse_addresses ip.ihl_bytes ip.total_len ip.is_fragment skb now w
        ≡ reverse_parsed ip skb now w
  unfolding reverse_addresses
  addresses-parsed h w = rw (h.reads_proto, reverse_addresses, h.reads_src, h.reads_dst)

  ipv4-parsed :
      (arrives : Arrives k skb ip) (w : World k)
      → ip.is_fragment ≡ false
      → reverse_ipv4 skb now w ≡ reverse_parsed ip skb now w
  unfolding reverse_ipv4
  ipv4-parsed a w whole =
      let h = a.header in
      let four : not (shr h.vihl 4 == 4) ≡ false = ground (arith, a.version) in
      let size : not (leb 20 (low_bits h.vihl 4 * 4) && leb (low_bits h.vihl 4 * 4) 60) ≡ false =
        ground (arith, a.no_options, h.has_ihl_bytes) in
      let long : ltb ip.total_len (low_bits h.vihl 4 * 4) ≡ false =
        ground (arith, a.holds_header, h.has_ihl_bytes) in
      let plain : not (low_bits h.flags 14 == 0) ≡ false = sym h.has_is_fragment ∙ whole in
      rw (h.reads_vihl, reverse_ipv4, four, size, h.reads_total_len, long, h.reads_flags, plain)
        (ap₂ (λ n b. reverse_addresses n ip.total_len b skb now w) (sym h.has_ihl_bytes) (sym whole)
          ∙ addresses-parsed h w)

  nat64-parsed :
      (arrives : Arrives k skb ip) (w : World k)
      → ip.is_fragment ≡ false
      → try_nat64_reverse skb now w
        ≡ reverse_parsed ip skb now (
            with_counters
              (pkts_ipv4 ∷ [])
              (dbg_rev_eth_ipv4 ∷ [])
              (with_counters (pkts_total ∷ []) (dbg_rev_enter ∷ []) w))
  unfolding try_nat64_reverse
  nat64-parsed a w whole = rw (a.ethertype, try_nat64_reverse) (ipv4-parsed a _ whole)

long_test : (n : ℕ) → n ≤ 1500 → ltb 1500 n ≡ false
long_test n h = ground arith

same_tuple :
    (value : NatVal) (src sport : ℕ)
    → value.remote_v4 ≡ src
    → value.remote_port ≡ sport
    → not (nat_tuple_matches value src sport) ≡ false
unfolding nat_tuple_matches
same_tuple value src sport a p = ground arith

module _ {k : Kernel} (w0 : World k) (skb : k.Skb) (now : ℕ) (ip : Ipv4Info) (sport dport : ℕ)
    (value : NatVal) (reply : IsReply w0 skb ip sport dport value) (is_tcp : ip.proto ≡ 6)
    (small : ip.total_len - ip.ihl_bytes ≤ 1500) where
  parsed-tcp :
      (w : World k)
      → SameMaps w w0
      → reverse_parsed ip skb now w
        ≡ reverse_tcp (current_cfg w) ip skb now (with_counters [] (dbg_rev_pool_match ∷ []) w)
  unfolding reverse_parsed current_cfg
  parsed-tcp w s =
      let inside : v4_in_pool ip.ipv4_dst (current_cfg w) ≡ true =
        ap (λ c. v4_in_pool ip.ipv4_dst (Option.get_or c default_cfg)) s.same_config
        ∙ reply.in_pool in
      let whole = reply.segment.unfragmented in
      let six : (ip.proto == 6) ≡ true = ground (arith, is_tcp) in
      rw (inside, reverse_parsed) (ground (arith, whole, six))

  tcp-rewritten :
      (cfg : Nat64Config) (w : World k)
      → SameMaps w w0
      → (v : World k) × (reverse_tcp cfg ip skb now w
          ≡ rewrite_tcp cfg
              (ip.total_len - ip.ihl_bytes)
              ip.ipv4_src
              ip.ipv4_dst
              dport
              (record value { last_seen_ns = now })
              skb
              v)
  unfolding reverse_tcp nat_lookup_key_from_ipv4
  tcp-rewritten cfg w s =
      let w1 = with_counters (pkts_ipv4_tcp ∷ []) (pkts_ipv4_to_v4src ∷ []) w in
      let same = with_counters-SameMaps (pkts_ipv4_tcp ∷ []) (pkts_ipv4_to_v4src ∷ []) w in
      let fits = long_test (ip.total_len - ip.ihl_bytes) small in
      let stored : k.nat_maps.get w1.nat (nat_key ip.ipv4_dst dport 6) ≡ some value =
        ap₂ (λ t p. k.nat_maps.get t (nat_key ip.ipv4_dst dport p)) (same.same_nat ∙ s.same_nat)
          (sym is_tcp)
        ∙ reply.stored in
      (
        refresh value now ip.ipv4_dst dport 6 (with_counters (nat_lookup_hit ∷ []) [] w1),
        rw (
          fits,
          reverse_tcp,
          reply.segment.reads_ports,
          stored,
          same_tuple value ip.ipv4_src sport reply.from_address reply.from_port,
        ),
      )

send_lem :
    {k : Kernel} (cfg : Nat64Config) (skb : k.Skb) (w : World k)
    → ((send nat64_v4_to_v6_ok cfg skb w).1 ≡ skb)
      × ((send nat64_v4_to_v6_ok cfg skb w).2 ≡ (
          if cfg.bridge_ifindex == 0 then k.tc_act_shot else k.redirect_neigh cfg.bridge_ifindex))
unfolding send redirect_to_iface
send_lem cfg skb w = ground arith

module _ {k : Kernel} (w : World k) (skb : k.Skb) (now : ℕ) (ip : Ipv4Info) (sport dport : ℕ)
    (value : NatVal) where
  -- Every TCP reply of a session with at most 1500 bytes of TCP, in an IPv4 packet without options,
  -- reaches the client, unless a helper of the kernel fails: the packet that leaves is the one whose IPv6 header natto64-xlat builds for
  -- the client's address, with the client's port as its destination and an updated checksum, and it
  -- is redirected to the bridge, or dropped where no bridge is configured.
  pub try_nat64_reverse_delivers :
      (reply : IsReply w skb ip sport dport value) (arrives : Arrives k skb ip)
      → ip.proto ≡ 6
      → ip.total_len - ip.ihl_bytes ≤ 1500
      → length value.vm_v6 ≡ 16
      → (r : Rewritten k tcp skb
          (ip.total_len - ip.ihl_bytes)
          ip.ipv4_src
          ip.ipv4_dst
          dport
          (record value { last_seen_ns = now }))
        {final : k.Skb}
      → checked k tcp
          (ip.total_len - ip.ihl_bytes)
          ip.ipv4_src
          ip.ipv4_dst
          dport
          (record value { last_seen_ns = now })
          r.addressed
        ≡ (final, true)
      → let cfg = current_cfg w in
        ((try_nat64_reverse skb now w).1 ≡ final)
        × ((try_nat64_reverse skb now w).2 ≡ (
            if cfg.bridge_ifindex == 0 then k.tc_act_shot else k.redirect_neigh cfg.bridge_ifindex))
  unfolding current_cfg
  try_nat64_reverse_delivers reply arrives is_tcp small client r done =
      let w1 = with_counters (pkts_total ∷ []) (dbg_rev_enter ∷ []) w in
      let w2 = with_counters (pkts_ipv4 ∷ []) (dbg_rev_eth_ipv4 ∷ []) w1 in
      let s2 =
        SameMaps-trans (with_counters-SameMaps (pkts_ipv4 ∷ []) _ w1)
          (with_counters-SameMaps (pkts_total ∷ []) _ w) in
      let s3 = SameMaps-trans (with_counters-SameMaps [] (dbg_rev_pool_match ∷ []) w2) s2 in
      let (v, rewrites) =
        tcp-rewritten w skb now ip sport dport value reply is_tcp small (current_cfg w2) _ s3 in
      let path =
        nat64-parsed skb now ip arrives w reply.segment.unfragmented
        ∙ parsed-tcp w skb now ip sport dport value reply is_tcp small w2 s2
        ∙ rewrites
        ∙ rewrite_tcp_lem (current_cfg w2) skb _ ip.ipv4_src ip.ipv4_dst dport _ v client
            (omega arith) r done in
      let sent = send_lem (current_cfg w2) _ (with_counters [] (rewrite_tcp_dport_ok ∷ []) v) in
      (
        ap (λ o. o.1) path ∙ sent.0,
        ap (λ o. o.2) path
            ∙ sent.1
            ∙ ap
                (λ c.
                  let cfg = Option.get_or c default_cfg in
                  if cfg.bridge_ifindex == 0
                  then k.tc_act_shot
                  else k.redirect_neigh cfg.bridge_ifindex)
                s2.same_config,
      )
