-- ===== src/Ebpf/Consistent/Forward/Branches.antt =====
-- The two branches of the forward classifier in natto64-ebpf/src/lib.rs, from the address on.
use mathlib.Core.Path.{subst}
use natto.Common.{
  ℕ, ◌≡◌, refl, sym, inl, inr, [], ◌∷◌, true, none, Option, some, ltb, take, Option-cases,
  Bool-cases, to_be_bytes16,
}
use natto.Abi.{Nat64Config}
use natto.Abi.ProdCounters.{pkts_nat64_tcp, pkts_nat64_udp, nat64_v6_to_v4_err_csum}
use natto.Abi.DebugCounters.{
  dbg_fwd_return_err, dbg_fwd_tcp_branch, dbg_fwd_udp_branch, dbg_fwd_tcp_parse_err,
  proto_change_err, proto_change_ok, nat64_v6_to_v4_err_change_proto, dbg_fwd_adjust_room_err,
  nat64_v6_to_v4_err_l2_store, dbg_fwd_store_bytes_err, dbg_fwd_redirect_or_return_err,
  nat64_v6_to_v4_udp_err_len, nat64_v6_to_v4_udp_err_parse,
}
use natto.Ebpf.Kernel.{Kernel, IsLruMap}
use natto.Ebpf.World.{World, with_counters}
use natto.Ebpf.Pool.{v4_in_pool}
use natto.Ebpf.Sessions.{lookup_or_create_mapping}
use natto.Ebpf.Sessions.Mapping.{Maps, Settled, lookup_or_create_mapping-Settled}
use natto.Ebpf.Packet.{to_be16}
use natto.Ebpf.Packet.Transport.{tcp_ports, udp_fields, udp_ports_len}
use natto.Ebpf.Ipv6.{Ipv6Info, parse_ipv6_base}
use natto.Ebpf.Reverse.Rewrite.{Outcome}
use natto.Ebpf.Forward.{forward_tcp_mapped, forward_tcp, forward_udp_read, forward_udp}
use natto.Ebpf.Consistent.{IsExternal, IsConsistent, counted-IsConsistent}
use natto.Ebpf.Consistent.Sessions.{lookup_or_create_mapping-Granted}
use natto.Ebpf.Consistent.Forward.{flow_key, HasSession, Sends}
use natto.Ebpf.Consistent.Forward.Tcp.{forward_tcp_rewrite-Sends}
use natto.Ebpf.Consistent.Forward.Udp.{forward_udp_rewrite-Sends}
use natto.Ebpf.Consistent.Forward.Carried.{
  ReadsPorts, tcp_fields, udp_header, Forwards, unsent, parse_ipv6_base-length,
}

module _ {k : Kernel} where
  Maps-some :
      (key : _) (v : World k) (r : Option (ℕ × ℕ × ℕ)) {a p g : ℕ}
      → r ≡ some (a, p, g)
      → Settled key (v, r)
      → Maps v key a p g
  Maps-some key v r e s = rw e at s

  module _ (fwd_laws : IsLruMap k.fwd_maps) (nat_laws : IsLruMap k.nat_maps) (cfg : Nat64Config)
      (skb0 : k.Skb) (now prandom : ℕ) where
    module _ (info : Ipv6Info) (parses : parse_ipv6_base k skb0 14 ≡ some info)
        (to_prefix : take 12 info.dst ≡ cfg.prefix96) (ext_v4 : ℕ)
        (in_pool : v4_in_pool ext_v4 cfg ≡ true) where
      carry :
          (proto sport dport a p g : ℕ) {r : Outcome k}
          → info.next_header ≡ proto
          → ReadsPorts k skb0 info proto sport dport
          → IsExternal cfg a p
          → Sends cfg info proto sport dport a p g now r
          → Forwards cfg skb0 now r
      carry proto sport dport a p g {r} is_proto ports external sends = record {
        consistent = sends.consistent;
        carried = λ q. record {
          info = info;
          parses = parses;
          to_prefix = to_prefix;
          sport = sport;
          dport = dport;
          ports = subst (λ n. ReadsPorts k skb0 info n sport dport) (sym is_proto) ports;
          ext_v4 = a;
          ext_port = p;
          generation = g;
          external = external;
          has_session =
              subst (λ n. HasSession {k = k} cfg info n sport dport a p g now r.0) (sym is_proto)
                (sends.sent q);
        };
      }

      forward_tcp_mapped-Forwards :
          (sport dport : ℕ) (skb : k.Skb) (w : World k)
          → info.next_header ≡ 6
          → ReadsPorts k skb0 info 6 sport dport
          → IsConsistent cfg w
          → Forwards cfg skb0 now
              (forward_tcp_mapped cfg info ext_v4 (sport, dport) skb now prandom w)
      unfolding forward_tcp_mapped
      forward_tcp_mapped-Forwards sport dport skb w is_tcp ports c =
          let key = flow_key info sport dport 6 in
          let r = lookup_or_create_mapping cfg key ext_v4 6 now prandom w in
          let granted =
            lookup_or_create_mapping-Granted fwd_laws cfg key ext_v4 6 now prandom w c in_pool in
          elim (Option-cases r.1) [
            | inl e ↦
                rw (e, forward_tcp_mapped)
                  (unsent cfg skb0 now skb (
                    counted-IsConsistent cfg []
                      (dbg_fwd_redirect_or_return_err ∷ dbg_fwd_return_err ∷ [])
                      granted.consistent))
            | inr ((a, p, g), e) ↦
                let maps =
                  Maps-some key r.0 r.1 e
                    (lookup_or_create_mapping-Settled fwd_laws cfg key ext_v4 6 now prandom w) in
                let external = granted.external e in
                rw (e, forward_tcp_mapped)
                  (carry 6 sport dport a p g is_tcp ports external (
                    forward_tcp_rewrite-Sends nat_laws cfg info
                      (parse_ipv6_base-length k skb0 14 parses) sport dport a p g now external skb
                      r.0 granted.consistent maps))
          ]

      pub forward_tcp-Forwards :
          (w0 : World k)
          → info.next_header ≡ 6
          → IsConsistent cfg w0
          → Forwards cfg skb0 now (forward_tcp cfg info ext_v4 skb0 now prandom w0)
      unfolding forward_tcp
      forward_tcp-Forwards w0 is_tcp c0 =
          let w = with_counters (pkts_nat64_tcp ∷ []) (dbg_fwd_tcp_branch ∷ []) w0 in
          let c = counted-IsConsistent cfg (pkts_nat64_tcp ∷ []) (dbg_fwd_tcp_branch ∷ []) c0 in
          let c1 = counted-IsConsistent cfg [] (proto_change_ok ∷ []) c in
          elim (Bool-cases (ltb 1500 info.payload_len)) [
            | inl long ↦
                rw (long, forward_tcp)
                  (unsent cfg skb0 now skb0 (
                    counted-IsConsistent cfg (nat64_v6_to_v4_err_csum ∷ [])
                      (dbg_fwd_tcp_parse_err ∷ dbg_fwd_return_err ∷ []) c))
            | inr fits ↦ elim (Option-cases (k.change_proto skb0 (to_be16 0x0800))) [
              | inl e ↦
                  rw (fits, forward_tcp, e)
                    (unsent cfg skb0 now skb0 (
                      counted-IsConsistent cfg []
                        (proto_change_err ∷ nat64_v6_to_v4_err_change_proto
                          ∷ dbg_fwd_adjust_room_err ∷ dbg_fwd_return_err ∷ [])
                        c))
              | inr (skb1, e1) ↦ elim (Option-cases (k.store skb1 12 (to_be_bytes16 0x0800))) [
                | inl e ↦
                    rw (fits, forward_tcp, e1, e)
                      (unsent cfg skb0 now skb1 (
                        counted-IsConsistent cfg []
                          (nat64_v6_to_v4_err_l2_store ∷ dbg_fwd_store_bytes_err
                            ∷ dbg_fwd_return_err ∷ [])
                          c1))
                | inr (skb2, e2) ↦ elim (Option-cases (tcp_ports k skb2 34)) [
                  | inl e ↦
                      rw (fits, forward_tcp, e1, e2, e)
                        (unsent cfg skb0 now skb2 (
                          counted-IsConsistent cfg (nat64_v6_to_v4_err_csum ∷ [])
                            (dbg_fwd_tcp_parse_err ∷ dbg_fwd_return_err ∷ []) c1))
                  | inr ((sport, dport), e3) ↦
                      rw (fits, forward_tcp, e1, e2, e3)
                        (forward_tcp_mapped-Forwards sport dport skb2 _ is_tcp
                          (tcp_fields skb1 skb2 refl e1 e2 e3) c1)
                ]
              ]
            ]
          ]

      forward_udp_read-Forwards :
          (w : World k)
          → info.next_header ≡ 17
          → IsConsistent cfg w
          → (fields : Option (ℕ × ℕ × ℕ)) → fields ≡ udp_fields k skb0 info.l4_abs_offset
          → Forwards cfg skb0 now (forward_udp_read cfg info ext_v4 skb0 now prandom (w, fields))
      unfolding forward_udp_read
      forward_udp_read-Forwards w is_udp c none reads = unsent cfg skb0 now skb0 c
      forward_udp_read-Forwards w is_udp c (some (sport, dport, udp_len)) reads =
          let bad =
            counted-IsConsistent cfg [] (dbg_fwd_return_err ∷ [])
              (counted-IsConsistent cfg [] (nat64_v6_to_v4_udp_err_len ∷ []) c) in
          let key = flow_key info sport dport 17 in
          let r = lookup_or_create_mapping cfg key ext_v4 17 now prandom w in
          let granted =
            lookup_or_create_mapping-Granted fwd_laws cfg key ext_v4 17 now prandom w c in_pool in
          elim (Bool-cases (ltb udp_len 8)) [
            | inl short ↦ rw (short, forward_udp_read) (unsent cfg skb0 now skb0 bad)
            | inr enough ↦ elim (Bool-cases (ltb 1500 udp_len)) [
              | inl long ↦ rw (enough, forward_udp_read, long) (unsent cfg skb0 now skb0 bad)
              | inr fits ↦ elim (Option-cases r.1) [
                | inl e ↦
                    rw (enough, forward_udp_read, fits, e)
                      (unsent cfg skb0 now skb0
                        (counted-IsConsistent cfg [] (dbg_fwd_return_err ∷ []) granted.consistent))
                | inr ((a, p, g), e) ↦
                    let maps =
                      Maps-some key r.0 r.1 e (
                        lookup_or_create_mapping-Settled fwd_laws cfg key ext_v4 17 now prandom
                          w) in
                    let external = granted.external e in
                    rw (enough, forward_udp_read, fits, e)
                      (carry 17 sport dport a p g is_udp (udp_header udp_len refl (sym reads))
                        external
                        (forward_udp_rewrite-Sends nat_laws cfg info
                          (parse_ipv6_base-length k skb0 14 parses) sport dport a p g now external
                          udp_len skb0 r.0 granted.consistent maps))
              ]
            ]
          ]

      pub forward_udp-Forwards :
          (w0 : World k)
          → info.next_header ≡ 17
          → IsConsistent cfg w0
          → Forwards cfg skb0 now (forward_udp cfg info ext_v4 skb0 now prandom w0)
      unfolding forward_udp udp_ports_len
      forward_udp-Forwards w0 is_udp c0 =
          let c = counted-IsConsistent cfg (pkts_nat64_udp ∷ []) (dbg_fwd_udp_branch ∷ []) c0 in
          elim (Option-cases (udp_fields k skb0 info.l4_abs_offset)) [
            | inl e ↦
                rw (e, udp_ports_len)
                  (forward_udp_read-Forwards _ is_udp
                    (counted-IsConsistent cfg [] (nat64_v6_to_v4_udp_err_parse ∷ []) c) none
                    (sym e))
            | inr (fields, e) ↦
                rw (e, udp_ports_len) (forward_udp_read-Forwards _ is_udp c (some fields) (sym e))
          ]
