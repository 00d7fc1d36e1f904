-- ===== src/Ebpf/Consistent/Forward/Tcp.antt =====
-- The TCP branch of the forward classifier in natto64-ebpf/src/lib.rs, from the mapping of a flow on.
use natto.Common.{ℕ, ◌≡◌, inl, inr, [], ◌∷◌, false, some, Option-cases, length, to_be_bytes16}
use natto.Abi.{Nat64Config, nat_key, nat64_embedded_v4_be}
use natto.Abi.ProdCounters.{
  nat64_v6_to_v4_ok, nat64_v6_to_v4_err_write_hdr, nat64_v6_to_v4_err_csum,
}
use natto.Abi.DebugCounters.{
  dbg_fwd_return_err, rewrite_v4_src_ok, rewrite_v4_src_err, dbg_fwd_write_ipv4_err,
  rewrite_tcp_sport_ok, rewrite_tcp_sport_err, dbg_fwd_store_bytes_err, dbg_fwd_l4_csum_err,
  nat_insert_ok, nat_insert_err, dbg_fwd_nat_insert_err,
}
use natto.Ebpf.Kernel.{Kernel, IsLruMap}
use natto.Ebpf.World.{World, with_counters, with_counters-SameMaps}
use natto.Ebpf.Packet.{write_ipv4_header}
use natto.Ebpf.Packet.Transport.{FwdL4CsumTrace, apply_l4_nat64_checksum_delta_v6_to_v4}
use natto.Ebpf.Ipv6.{Ipv6Info}
use natto.Ebpf.Sessions.Mapping.{Maps}
use natto.Ebpf.Reverse.Untouched.{SameMaps-trans}
use natto.Ebpf.Forward.Rewrite.{forward_tcp_insert, forward_tcp_rewrite}
use natto.Ebpf.Forward.Opening.{tcp_sample-SameMaps, csum_sample-SameMaps, send_uplink-SameMaps}
use natto.Ebpf.Consistent.{IsExternal, IsConsistent, SameMaps-IsConsistent, counted-IsConsistent}
use natto.Ebpf.Consistent.Forward.{
  session, flow_key, apply_l4-SameMaps, SameMaps-Maps, Sends, passed_on, Sends-SameMaps,
  inserted_session,
}

module _ {k : Kernel} (nat_laws : IsLruMap k.nat_maps) (cfg : Nat64Config) (info : Ipv6Info)
    (client : length info.src ≡ 16) (sport dport a p g now : ℕ)
    (external : IsExternal cfg a p) where
  forward_tcp_insert-Sends :
      (trace : FwdL4CsumTrace) (skb : k.Skb) (w : World k)
      → IsConsistent cfg w
      → Maps w (flow_key info sport dport 6) a p g
      → Sends cfg info 6 sport dport a p g now
          (forward_tcp_insert cfg info (sport, dport) (a, p, g) trace skb now w)
  unfolding forward_tcp_insert
  forward_tcp_insert-Sends trace skb w c m =
      elim (Option-cases
        (k.nat_maps.insert w.nat (nat_key a p 6) (session info sport dport g now))) [
          | inl full ↦
              rw (full, forward_tcp_insert)
                (passed_on cfg info 6 sport dport a p g now skb (
                  counted-IsConsistent cfg []
                    (nat_insert_err ∷ dbg_fwd_nat_insert_err ∷ dbg_fwd_return_err ∷ []) c))
          | inr (t, e) ↦
              let done =
                inserted_session cfg info 6 sport dport a p g now nat_laws client external c m e in
              rw (e, forward_tcp_insert)
                (Sends-SameMaps cfg info 6 sport dport a p g now
                  (SameMaps-trans (send_uplink-SameMaps cfg skb _) (
                    SameMaps-trans (csum_sample-SameMaps trace _ _ _ _ _ _) (
                      SameMaps-trans (with_counters-SameMaps (nat64_v6_to_v4_ok ∷ []) _ _) (
                        SameMaps-trans (tcp_sample-SameMaps _ _ _ _ _ _ _ _ _)
                          (with_counters-SameMaps [] (nat_insert_ok ∷ []) _)))))
                  done.0 done.1)
        ]

  pub forward_tcp_rewrite-Sends :
      (skb : k.Skb) (w : World k)
      → IsConsistent cfg w
      → Maps w (flow_key info sport dport 6) a p g
      → Sends cfg info 6 sport dport a p g now
          (forward_tcp_rewrite cfg info (sport, dport) (a, p, g) skb now w)
  unfolding forward_tcp_rewrite
  forward_tcp_rewrite-Sends skb w c m =
      let remote_v4 = nat64_embedded_v4_be info.dst in
      let s1 = with_counters-SameMaps [] (rewrite_v4_src_ok ∷ []) w in
      let w1 = with_counters [] (rewrite_v4_src_ok ∷ []) w in
      let c1 = SameMaps-IsConsistent cfg s1 c in
      elim (Option-cases (write_ipv4_header k skb info.payload_len a remote_v4 6)) [
        | inl e ↦
            rw (e, forward_tcp_rewrite)
              (passed_on cfg info 6 sport dport a p g now skb (
                counted-IsConsistent cfg (nat64_v6_to_v4_err_write_hdr ∷ [])
                  (rewrite_v4_src_err ∷ dbg_fwd_write_ipv4_err ∷ dbg_fwd_return_err ∷ []) c))
        | inr (skb1, e1) ↦ elim (Option-cases (k.store skb1 34 (to_be_bytes16 p))) [
          | inl e ↦
              rw (e1, forward_tcp_rewrite, e)
                (passed_on cfg info 6 sport dport a p g now skb1 (
                  counted-IsConsistent cfg (nat64_v6_to_v4_err_csum ∷ [])
                    (rewrite_tcp_sport_err ∷ dbg_fwd_store_bytes_err ∷ dbg_fwd_return_err ∷ []) c1))
          | inr (skb2, e2) ↦
              let w2 = with_counters [] (rewrite_tcp_sport_ok ∷ []) w1 in
              let r =
                apply_l4_nat64_checksum_delta_v6_to_v4 50 info.payload_len 6 info.src info.dst a
                  remote_v4 (some (sport, p)) false skb2 w2 in
              let s3 =
                SameMaps-trans
                  (apply_l4-SameMaps 50 info.payload_len 6 info.src info.dst a remote_v4 sport p
                    false skb2 w2)
                  (SameMaps-trans (with_counters-SameMaps [] (rewrite_tcp_sport_ok ∷ []) w1) s1) in
              let c3 = SameMaps-IsConsistent cfg s3 c in
              elim (Option-cases r.2) [
                | inl e ↦
                    rw (e1, forward_tcp_rewrite, e2, e)
                      (passed_on cfg info 6 sport dport a p g now r.1 (
                        counted-IsConsistent cfg (nat64_v6_to_v4_err_csum ∷ [])
                          (dbg_fwd_l4_csum_err ∷ dbg_fwd_return_err ∷ []) c3))
                | inr (trace, e3) ↦
                    rw (e1, forward_tcp_rewrite, e2, e3)
                      (forward_tcp_insert-Sends trace r.1 r.0 c3
                        (SameMaps-Maps (flow_key info sport dport 6) a p g s3 m))
              ]
        ]
      ]
