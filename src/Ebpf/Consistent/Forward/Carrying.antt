-- ===== src/Ebpf/Consistent/Forward/Carrying.antt =====
-- The whole forward classifier of natto64-ebpf/src/lib.rs, and the sessions of the packets it sends.
use natto.Common.{
  ℕ, ◌≡◌, sym, ◌∙◌, ap, inl, inr, [], ◌∷◌, not, ◌&&◌, some, ◌==◌, ==_iff, take, Option-cases,
  Bool-cases, arith,
}
use natto.Abi.{Nat64Config}
use natto.Abi.ProdCounters.{
  pkts_total, pkts_ipv6, pkts_nat64_dst, unsupported_ipv6_extension_headers,
  unsupported_ipv6_non_tcp_udp,
}
use natto.Abi.DebugCounters.{
  dbg_fwd_enter, dbg_fwd_return_err, dbg_fwd_eth_ipv6, pkts_ipv6_parsed_ok,
  dbg_fwd_nat64_prefix_match,
}
use natto.Ebpf.Kernel.{Kernel, IsLruMap}
use natto.Ebpf.World.{World}
use natto.Ebpf.Pool.{select_v4_from_pool_ebpf}
use natto.Ebpf.Pool.Laws.{select_v4_from_pool_ebpf-in_pool}
use natto.Ebpf.Sessions.{current_cfg}
use natto.Ebpf.Packet.{load_be16}
use natto.Ebpf.Ipv6.{Ipv6Info, is_extension_header, parse_ipv6_base}
use natto.Ebpf.Sampling.{same_bytes}
use natto.Ebpf.Forward.{forward_diagnose, forward_parsed, try_nat64_forward}
use natto.Ebpf.Forward.Guard.{same_bytes_lem, known_transport, forward_diagnose-SameMaps}
use natto.Ebpf.Consistent.{IsConsistent, SameMaps-IsConsistent, counted-IsConsistent}
use natto.Ebpf.Consistent.Forward.Carried.{Forwards, unsent}
use natto.Ebpf.Consistent.Forward.Branches.{forward_tcp-Forwards, forward_udp-Forwards}

module _ {k : Kernel} where
  module _ (fwd_laws : IsLruMap k.fwd_maps) (nat_laws : IsLruMap k.nat_maps) (cfg : Nat64Config)
      (skb0 : k.Skb) (now prandom : ℕ) where
    forward_parsed-Forwards :
        (info : Ipv6Info) (w : World k)
        → parse_ipv6_base k skb0 14 ≡ some info
        → IsConsistent cfg w
        → Forwards cfg skb0 now (forward_parsed info skb0 now prandom w)
    unfolding forward_parsed
    forward_parsed-Forwards info w0 parses c0 =
        let w1 = forward_diagnose info w0 in
        let c1 = SameMaps-IsConsistent cfg (forward_diagnose-SameMaps info w0) c0 in
        let same = c1.has_config in
        let cfg1 = current_cfg w1 in
        let c =
          counted-IsConsistent cfg (pkts_nat64_dst ∷ []) (dbg_fwd_nat64_prefix_match ∷ []) c1 in
        elim (Bool-cases (same_bytes (take 12 info.dst) cfg1.prefix96)) [
          | inr other ↦
              rw (other, forward_parsed)
                (unsent cfg skb0 now skb0
                  (counted-IsConsistent cfg [] (dbg_fwd_return_err ∷ []) c1))
          | inl prefix ↦ elim (Bool-cases (is_extension_header info.next_header)) [
            | inl ext ↦
                rw (prefix, forward_parsed, ext)
                  (unsent cfg skb0 now skb0 (
                    counted-IsConsistent cfg (unsupported_ipv6_extension_headers ∷ [])
                      (dbg_fwd_return_err ∷ []) c))
            | inr plain ↦
                elim (Bool-cases (not (info.next_header == 6) && not (info.next_header == 17))) [
                  | inl unknown ↦
                      rw (prefix, forward_parsed, plain, unknown)
                        (unsent cfg skb0 now skb0 (
                          counted-IsConsistent cfg (unsupported_ipv6_non_tcp_udp ∷ [])
                            (dbg_fwd_return_err ∷ []) c))
                  | inr known ↦ elim (Option-cases (select_v4_from_pool_ebpf info.src cfg1)) [
                    | inl no_pool ↦
                        rw (prefix, forward_parsed, plain, known, no_pool)
                          (unsent cfg skb0 now skb0 c)
                    | inr (ext_v4, selected) ↦
                        let inside =
                          select_v4_from_pool_ebpf-in_pool info.src cfg
                            (ap (select_v4_from_pool_ebpf info.src) (sym same) ∙ selected) in
                        let to_prefix =
                          same_bytes_lem _ _ prefix ∙ ap (λ (c : Nat64Config). c.prefix96) same in
                        elim (Bool-cases (info.next_header == 6)) [
                          | inl six ↦
                              rw (prefix, forward_parsed, plain, known, selected, six, same)
                                (forward_tcp-Forwards fwd_laws nat_laws cfg skb0 now prandom info
                                  parses to_prefix ext_v4 inside _
                                  ((==_iff info.next_header 6).0 six) c)
                          | inr other ↦
                              rw (prefix, forward_parsed, plain, known, selected, other, same)
                                (forward_udp-Forwards fwd_laws nat_laws cfg skb0 now prandom info
                                  parses to_prefix ext_v4 inside _
                                  (ground (arith, known_transport info.next_header known)) c)
                        ]
                  ]
                ]
          ]
        ]

    -- A packet, whatever it holds, leaves the state consistent; and where it is not passed on, it is a
    -- TCP or UDP packet to the prefix whose flow has an external address of the pool and an external
    -- port of the range in the forward map, and its session, with the address and port of the client
    -- and the remote ones, in the reverse map under that external tuple; a UDP flow may lack the
    -- latter, where the reverse map does not take it.
    pub try_nat64_forward-Forwards :
        (w0 : World k)
        → IsConsistent cfg w0
        → Forwards cfg skb0 now (try_nat64_forward skb0 now prandom w0)
    unfolding try_nat64_forward
    try_nat64_forward-Forwards w0 c0 =
        let c = counted-IsConsistent cfg (pkts_total ∷ []) (dbg_fwd_enter ∷ []) c0 in
        let c1 = counted-IsConsistent cfg (pkts_ipv6 ∷ []) (dbg_fwd_eth_ipv6 ∷ []) c in
        elim (Option-cases (load_be16 k skb0 12)) [
          | inl e ↦ rw (e, try_nat64_forward) (unsent cfg skb0 now skb0 c)
          | inr (ether_type, e) ↦ elim (Bool-cases (not (ether_type == 0x86dd))) [
            | inl other ↦
                rw (e, try_nat64_forward, other)
                  (unsent cfg skb0 now skb0
                    (counted-IsConsistent cfg [] (dbg_fwd_return_err ∷ []) c))
            | inr ipv6 ↦ elim (Option-cases (parse_ipv6_base k skb0 14)) [
              | inl short ↦ rw (e, try_nat64_forward, ipv6, short) (unsent cfg skb0 now skb0 c1)
              | inr (info, parses) ↦
                  rw (e, try_nat64_forward, ipv6, parses)
                    (forward_parsed-Forwards info _ parses
                      (counted-IsConsistent cfg [] (pkts_ipv6_parsed_ok ∷ []) c1))
            ]
          ]
        ]
