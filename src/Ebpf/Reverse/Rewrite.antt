-- ===== src/Ebpf/Reverse/Rewrite.antt =====
-- natto64-ebpf/src/lib.rs: how the classifier of replies rewrites a packet of a session.
use natto.Common.{
  ℕ, ◌+◌, List, [], ◌∷◌, ◌++◌, true, false, none, some, ◌==◌, if◌then◌else◌, u16, replicate,
  to_be_bytes16, to_be_bytes32,
}
use natto.Abi.{Nat64Config, NatVal}
use natto.Abi.ProdCounters.{
  ProdCounter, nat64_v4_to_v6_ok, nat64_v4_to_v6_udp_ok, nat64_v4_to_v6_err_write_hdr,
  nat64_v4_to_v6_err_csum, unsupported_ipv4_udp_zero_checksum,
}
use natto.Abi.DebugCounters.{
  DebugCounter, dbg_rev_return_err, rev_rewrite_ok_before_redirect, nat64_v4_to_v6_err_change_proto,
  nat64_v4_to_v6_err_l2_store, rewrite_tcp_dport_err, rewrite_tcp_dport_ok,
  nat64_v4_to_v6_udp_err_change_proto, nat64_v4_to_v6_udp_err_l2_store,
  nat64_v4_to_v6_udp_err_parse, nat64_v4_to_v6_udp_err_dport_store,
  nat64_v4_to_v6_udp_zero_csum_unsupported, nat64_v4_to_v6_udp_err_csum,
}
use natto.Ebpf.Kernel.{Kernel}
use natto.Ebpf.World.{World, with_counters}
use natto.Ebpf.Packet.{to_be16, eth_hdr_len, write_ipv6_header, redirect_to_iface}
use natto.Ebpf.Packet.Transport.{load_u16, apply_l4_nat64_checksum_delta_v4_to_v6}

-- The state, the packet and the action after a classifier has run.
abbrev pub Outcome : Kernel → Type 0
Outcome k = World k × k.Skb × ℕ

-- The prefix of the sources that replies get.
abbrev pub nat64_wkpf_prefix : List ℕ
nat64_wkpf_prefix = 0x00 ∷ 0x64 ∷ 0xff ∷ 0x9b ∷ replicate 8 0

unfoldable pub nat64_source_v6 : ℕ → List ℕ
nat64_source_v6 ipv4_src = nat64_wkpf_prefix ++ to_be_bytes32 ipv4_src

module _ {k : Kernel} where
  -- The packet goes on with the next classifier.
  unfoldable pub pass : k.Skb → World k → Outcome k
  pass skb w = (w, skb, k.tc_act_pipe)

  -- An error of the rewriting: its own counters, then that of all errors.
  abbrev pub fail : List ProdCounter → List DebugCounter → k.Skb → World k → Outcome k
  fail prods debugs skb w =
      pass skb (with_counters [] (dbg_rev_return_err ∷ []) (with_counters prods debugs w))

  -- The last step: the counters, and the redirection to the bridge.
  unfoldable pub send : ProdCounter → Nat64Config → k.Skb → World k → Outcome k
  send ok cfg skb w =
      let (w', action) =
        redirect_to_iface cfg.bridge_ifindex false
          (with_counters (ok ∷ []) (rev_rewrite_ok_before_redirect ∷ []) w) in
      (w', skb, action)

  unfoldable pub rewrite_tcp : Nat64Config → ℕ → ℕ → ℕ → ℕ → NatVal → k.Skb → World k → Outcome k
  rewrite_tcp cfg tcp_len ipv4_src ipv4_dst tcp_dport value skb w =
      elim (k.change_proto skb (to_be16 0x86dd)) [
        | none ↦ fail [] (nat64_v4_to_v6_err_change_proto ∷ []) skb w
        | some skb1 ↦ elim (k.store skb1 12 (to_be_bytes16 0x86dd)) [
          | none ↦ fail [] (nat64_v4_to_v6_err_l2_store ∷ []) skb1 w
          | some skb2 ↦
              let src_v6 = nat64_source_v6 ipv4_src in
              elim (write_ipv6_header k skb2 (u16 tcp_len) 6 src_v6 value.vm_v6) [
                | none ↦ fail (nat64_v4_to_v6_err_write_hdr ∷ []) [] skb2 w
                | some skb3 ↦
                    let new_tcp_offset = eth_hdr_len + 40 in
                    elim (k.store skb3 (new_tcp_offset + 2) (to_be_bytes16 value.vm_port)) [
                      | none ↦ fail [] (rewrite_tcp_dport_err ∷ []) skb3 w
                      | some skb4 ↦
                          let w4 = with_counters [] (rewrite_tcp_dport_ok ∷ []) w in
                          let (skb5, updated) =
                            apply_l4_nat64_checksum_delta_v4_to_v6 k (new_tcp_offset + 16)
                              (u16 tcp_len) 6 ipv4_src ipv4_dst src_v6 value.vm_v6
                              (some (tcp_dport, value.vm_port)) false skb4 in
                          if updated
                          then send nat64_v4_to_v6_ok cfg skb5 w4
                          else fail (nat64_v4_to_v6_err_csum ∷ []) [] skb5 w4
                    ]
              ]
        ]
      ]

  -- The checksum of a UDP reply: where the two bytes read are zero the packet is given up.
  unfoldable pub rewrite_udp_checksum :
      Nat64Config → ℕ → ℕ → ℕ → ℕ → ℕ → NatVal → k.Skb → World k → Outcome k
  rewrite_udp_checksum cfg udp_len udp_off_v4 ipv4_src ipv4_dst udp_dport value skb w =
      elim (load_u16 k skb (udp_off_v4 + 6)) [
        | none ↦ pass skb w
        | some incoming ↦
            if incoming == 0
            then fail (unsupported_ipv4_udp_zero_checksum ∷ [])
                (nat64_v4_to_v6_udp_zero_csum_unsupported ∷ []) skb w
            else let (skb', updated) =
                apply_l4_nat64_checksum_delta_v4_to_v6 k (eth_hdr_len + 40 + 6) udp_len 17 ipv4_src
                  ipv4_dst (nat64_source_v6 ipv4_src) value.vm_v6 (some (udp_dport, value.vm_port))
                  true skb in
              if updated
              then send nat64_v4_to_v6_udp_ok cfg skb' w
              else fail [] (nat64_v4_to_v6_udp_err_csum ∷ []) skb' w
      ]

  unfoldable pub rewrite_udp :
      Nat64Config → ℕ → ℕ → ℕ → ℕ → ℕ → NatVal → k.Skb → World k → Outcome k
  rewrite_udp cfg udp_len udp_off_v4 ipv4_src ipv4_dst udp_dport value skb w =
      elim (k.change_proto skb (to_be16 0x86dd)) [
        | none ↦ fail [] (nat64_v4_to_v6_udp_err_change_proto ∷ []) skb w
        | some skb1 ↦ elim (k.store skb1 12 (to_be_bytes16 0x86dd)) [
          | none ↦ fail [] (nat64_v4_to_v6_udp_err_l2_store ∷ []) skb1 w
          | some skb2 ↦
              elim (write_ipv6_header k skb2 udp_len 17 (nat64_source_v6 ipv4_src) value.vm_v6) [
                | none ↦ fail [] (nat64_v4_to_v6_udp_err_parse ∷ []) skb2 w
                | some skb3 ↦
                    elim (k.store skb3 (eth_hdr_len + 40 + 2) (to_be_bytes16 value.vm_port)) [
                      | none ↦ fail [] (nat64_v4_to_v6_udp_err_dport_store ∷ []) skb3 w
                      | some skb4 ↦
                          rewrite_udp_checksum cfg udp_len udp_off_v4 ipv4_src ipv4_dst udp_dport
                            value skb4 w
                    ]
              ]
        ]
      ]
