-- ===== src/Ebpf/Consistent/Forward/Udp.antt =====
-- The UDP branch of the forward classifier in natto64-ebpf/src/lib.rs, from the mapping of a flow on.
use natto.Common.{
  ℕ, ◌≡◌, refl, inl, inr, List, [], ◌∷◌, true, some, Option-cases, length, to_be_bytes16,
}
use natto.Abi.{Nat64Config, nat_key, new_forward_with_generation, nat64_embedded_v4_be}
use natto.Abi.ProdCounters.{ProdCounter, nat64_v6_to_v4_udp_ok, nat64_v6_to_v4_err_write_hdr}
use natto.Abi.DebugCounters.{
  DebugCounter, dbg_fwd_return_err, rewrite_v4_src_ok, rewrite_v4_src_err, proto_change_ok,
  proto_change_err, nat64_v6_to_v4_udp_err_change_proto, nat64_v6_to_v4_udp_err_l2_store,
  nat64_v6_to_v4_udp_err_udp_store, nat64_v6_to_v4_udp_err_csum, nat_insert_ok, nat_insert_err,
  nat_insert_udp_ok, nat_insert_udp_err,
}
use natto.Ebpf.Kernel.{Kernel, IsLruMap}
use natto.Ebpf.World.{World, with_counters, with_counters-SameMaps}
use natto.Ebpf.Packet.{to_be16, write_ipv4_header}
use natto.Ebpf.Packet.Transport.{apply_l4_nat64_checksum_delta_v6_to_v4}
use natto.Ebpf.Ipv6.{Ipv6Info}
use natto.Ebpf.Sessions.Mapping.{Maps}
use natto.Ebpf.Reverse.Untouched.{SameMaps-trans}
use natto.Ebpf.Forward.Rewrite.{fail_udp, forward_udp_insert, forward_udp_rewrite}
use natto.Ebpf.Forward.Opening.{send_uplink-SameMaps}
use natto.Ebpf.Consistent.{IsExternal, IsConsistent, SameMaps-IsConsistent, counted-IsConsistent}
use natto.Ebpf.Consistent.Forward.{
  session, flow_key, apply_l4-SameMaps, SameMaps-Maps, Sends, passed_on, Sends-SameMaps,
  inserted_session,
}

module _ {k : Kernel} (nat_laws : IsLruMap k.nat_maps) (cfg : Nat64Config) (info : Ipv6Info)
    (client : length info.src ≡ 16) (sport dport a p g now : ℕ)
    (external : IsExternal cfg a p) where
  forward_udp_insert-Sends :
      (skb : k.Skb) (w : World k)
      → IsConsistent cfg w
      → Maps w (flow_key info sport dport 17) a p g
      → Sends cfg info 17 sport dport a p g now
          (forward_udp_insert cfg info (sport, dport) (a, p, g) skb now w)
  unfolding forward_udp_insert new_forward_with_generation
  forward_udp_insert-Sends skb w c m =
      elim (Option-cases
        (k.nat_maps.insert w.nat (nat_key a p 17) (session info sport dport g now))) [
          | inl full ↦
              rw (full, forward_udp_insert)
                (Sends-SameMaps cfg info 17 sport dport a p g now
                  (SameMaps-trans (send_uplink-SameMaps cfg skb _) (
                    SameMaps-trans (with_counters-SameMaps (nat64_v6_to_v4_udp_ok ∷ []) _ _)
                      (with_counters-SameMaps [] (nat_insert_err ∷ nat_insert_udp_err ∷ []) w)))
                  c (record { mapped = m; opened = inr (refl, full) }))
          | inr (t, e) ↦
              let done =
                inserted_session cfg info 17 sport dport a p g now nat_laws client external c m e in
              rw (e, forward_udp_insert)
                (Sends-SameMaps cfg info 17 sport dport a p g now
                  (SameMaps-trans (send_uplink-SameMaps cfg skb _) (
                    SameMaps-trans (with_counters-SameMaps (nat64_v6_to_v4_udp_ok ∷ []) _ _)
                      (with_counters-SameMaps [] (nat_insert_ok ∷ nat_insert_udp_ok ∷ []) _)))
                  done.0 done.1)
        ]

  failed_udp :
      (prods : List ProdCounter) (debugs : List DebugCounter) (skb : k.Skb) {w : World k}
      → IsConsistent cfg w
      → Sends cfg info 17 sport dport a p g now (fail_udp prods debugs skb w)
  failed_udp prods debugs skb c = passed_on cfg info 17 sport dport a p g now skb (
      counted-IsConsistent cfg [] (dbg_fwd_return_err ∷ [])
        (counted-IsConsistent cfg prods debugs c))

  pub forward_udp_rewrite-Sends :
      (udp_len : ℕ) (skb : k.Skb) (w : World k)
      → IsConsistent cfg w
      → Maps w (flow_key info sport dport 17) a p g
      → Sends cfg info 17 sport dport a p g now
          (forward_udp_rewrite cfg info (sport, dport, udp_len) (a, p, g) skb now w)
  unfolding forward_udp_rewrite
  forward_udp_rewrite-Sends udp_len skb w c m =
      let remote_v4 = nat64_embedded_v4_be info.dst in
      let s1 = with_counters-SameMaps [] (proto_change_ok ∷ []) w in
      let w1 = with_counters [] (proto_change_ok ∷ []) w in
      let c1 = SameMaps-IsConsistent cfg s1 c in
      elim (Option-cases (k.change_proto skb (to_be16 0x0800))) [
        | inl e ↦
            rw (e, forward_udp_rewrite)
              (failed_udp [] (proto_change_err ∷ nat64_v6_to_v4_udp_err_change_proto ∷ []) skb c)
        | inr (skb1, e1) ↦ elim (Option-cases (k.store skb1 12 (to_be_bytes16 0x0800))) [
          | inl e ↦
              rw (e1, forward_udp_rewrite, e)
                (failed_udp [] (nat64_v6_to_v4_udp_err_l2_store ∷ []) skb1 c1)
          | inr (skb2, e2) ↦ elim (Option-cases (write_ipv4_header k skb2 udp_len a remote_v4 17)) [
            | inl e ↦
                rw (e1, forward_udp_rewrite, e2, e)
                  (failed_udp (nat64_v6_to_v4_err_write_hdr ∷ []) (rewrite_v4_src_err ∷ []) skb2 c1)
            | inr (skb3, e3) ↦
                let w3 = with_counters [] (rewrite_v4_src_ok ∷ []) w1 in
                let s3 =
                  SameMaps-trans (with_counters-SameMaps [] (rewrite_v4_src_ok ∷ []) w1) s1 in
                let c3 = SameMaps-IsConsistent cfg s3 c in
                elim (Option-cases (k.store skb3 34 (to_be_bytes16 p))) [
                  | inl e ↦
                      rw (e1, forward_udp_rewrite, e2, e3, e)
                        (failed_udp [] (nat64_v6_to_v4_udp_err_udp_store ∷ []) skb3 c3)
                  | inr (skb4, e4) ↦
                      let r =
                        apply_l4_nat64_checksum_delta_v6_to_v4 40 udp_len 17 info.src info.dst a
                          remote_v4 (some (sport, p)) true skb4 w3 in
                      let s4 =
                        SameMaps-trans
                          (apply_l4-SameMaps 40 udp_len 17 info.src info.dst a remote_v4 sport p
                            true skb4 w3)
                          s3 in
                      let c4 = SameMaps-IsConsistent cfg s4 c in
                      elim (Option-cases r.2) [
                        | inl e ↦
                            rw (e1, forward_udp_rewrite, e2, e3, e4, e)
                              (failed_udp [] (nat64_v6_to_v4_udp_err_csum ∷ []) r.1 c4)
                        | inr (trace, e5) ↦
                            rw (e1, forward_udp_rewrite, e2, e3, e4, e5)
                              (forward_udp_insert-Sends r.1 r.0 c4
                                (SameMaps-Maps (flow_key info sport dport 17) a p g s4 m))
                      ]
                ]
          ]
        ]
      ]
