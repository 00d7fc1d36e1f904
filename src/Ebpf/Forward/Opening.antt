-- ===== src/Ebpf/Forward/Opening.antt =====
-- What the forward classifier of natto64-ebpf/src/lib.rs leaves in the reverse map.
use natto.Common.{
  ℕ, ◌≡◌, ◌≢◌, refl, ◌∙◌, ap, inl, inr, List, [], ◌∷◌, Bool, true, false, some, Option-cases, arith,
  to_be_bytes16,
}
use natto.Abi.{Nat64Config, nat_key, new_forward_with_generation, nat64_embedded_v4_be}
use natto.Abi.ProdCounters.{nat64_v6_to_v4_ok}
use natto.Abi.DebugCounters.{nat_insert_ok, rewrite_v4_src_ok, rewrite_tcp_sport_ok}
use natto.Ebpf.Kernel.{Kernel, IsLruMap}
use natto.Ebpf.World.{World, with_counters, SameMaps, with_counters-SameMaps}
use natto.Ebpf.Packet.{write_ipv4_header}
use natto.Ebpf.Packet.Transport.{FwdL4CsumTrace, apply_l4_nat64_checksum_delta_v6_to_v4}
use natto.Ebpf.Ipv6.{Ipv6Info}
use natto.Ebpf.Sampling.{record_fwd_tcp_sample, record_fwd_tcp_csum_sample}
use natto.Ebpf.Reverse.Rewrite.{Outcome, pass}
use natto.Ebpf.Reverse.Untouched.{redirect_to_iface-SameMaps}
use natto.Ebpf.Forward.Rewrite.{send_uplink, forward_tcp_insert, forward_tcp_rewrite}

module _ {k : Kernel} where
  pub tcp_sample-SameMaps :
      (a b : List ℕ) (c d e f : ℕ) (g h : Bool) (w : World k)
      → SameMaps (record_fwd_tcp_sample a b c d e f g h w) w
  unfolding record_fwd_tcp_sample
  tcp_sample-SameMaps a b c d e f g h w = ground arith

  pub csum_sample-SameMaps :
      (t : FwdL4CsumTrace) (a b c d e : ℕ) (w : World k)
      → SameMaps (record_fwd_tcp_csum_sample t a b c d e w) w
  unfolding record_fwd_tcp_csum_sample with_counters
  csum_sample-SameMaps t a b c d e w = ground arith

  pub send_uplink-SameMaps :
      (cfg : Nat64Config) (skb : k.Skb) (w : World k) → SameMaps (send_uplink cfg skb w).0 w
  unfolding send_uplink
  send_uplink-SameMaps cfg skb w = redirect_to_iface-SameMaps cfg.uplink_ifindex true w

  -- A passed packet has the action of passing.
  pub not_passed : {P : Type 0} (skb : k.Skb) (w : World k) → (pass skb w).2 ≢ k.tc_act_pipe → P
  unfolding pass
  not_passed skb w h = absurd (h refl)

  module _ (laws : IsLruMap k.nat_maps) (cfg : Nat64Config) (info : Ipv6Info)
      (sport dport ext_v4 ext_port generation now : ℕ) where
    -- The reverse map holds the session of the flow under its external tuple.
    abbrev pub Opened : Outcome k → Type 0
    Opened r =
        k.nat_maps.get r.0.nat (nat_key ext_v4 ext_port 6)
        ≡ some (
            new_forward_with_generation info.src sport (nat64_embedded_v4_be info.dst) dport
              generation now)

    forward_tcp_insert-Opened :
        (trace : FwdL4CsumTrace) (skb : k.Skb) (w : World k)
        → (forward_tcp_insert cfg info
            (sport, dport)
            (ext_v4, ext_port, generation)
            trace
            skb
            now
            w).2
          ≢ k.tc_act_pipe
        → Opened (
            forward_tcp_insert cfg info
              (sport, dport)
              (ext_v4, ext_port, generation)
              trace
              skb
              now
              w)
    unfolding forward_tcp_insert
    forward_tcp_insert-Opened trace skb w h =
        let value =
          new_forward_with_generation info.src sport (nat64_embedded_v4_be info.dst) dport
            generation now in
        elim (Option-cases (k.nat_maps.insert w.nat (nat_key ext_v4 ext_port 6) value)) [
          | inl full ↦ not_passed skb _ (rw (full, forward_tcp_insert) at h)
          | inr (inserted, e) ↦
              rw (e, forward_tcp_insert)
                (ap (λ t. k.nat_maps.get t (nat_key ext_v4 ext_port 6))
                    ((send_uplink-SameMaps cfg skb _).same_nat
                      ∙ (csum_sample-SameMaps trace _ _ _ _ _ _).same_nat
                      ∙ (with_counters-SameMaps (nat64_v6_to_v4_ok ∷ []) _ _).same_nat
                      ∙ (tcp_sample-SameMaps _ _ _ _ _ _ _ _ _).same_nat
                      ∙ (with_counters-SameMaps [] (nat_insert_ok ∷ []) _).same_nat)
                  ∙ laws.get-insert_self w.nat (nat_key ext_v4 ext_port 6) value e)
        ]

    -- A TCP packet that leaves the rewriting with any action but that of passing on has its session in
    -- the reverse map: under the external tuple, with the client's address and port, the remote tuple,
    -- and the generation of its mapping.
    pub forward_tcp_rewrite_opens :
        (skb : k.Skb) (w : World k)
        → (forward_tcp_rewrite cfg info (sport, dport) (ext_v4, ext_port, generation) skb now w).2
          ≢ k.tc_act_pipe
        → Opened
            (forward_tcp_rewrite cfg info (sport, dport) (ext_v4, ext_port, generation) skb now w)
    unfolding forward_tcp_rewrite
    forward_tcp_rewrite_opens skb w h =
        let remote_v4 = nat64_embedded_v4_be info.dst in
        elim (Option-cases (write_ipv4_header k skb info.payload_len ext_v4 remote_v4 6)) [
          | inl e ↦ not_passed skb _ (rw (e, forward_tcp_rewrite) at h)
          | inr (skb1, e1) ↦ elim (Option-cases (k.store skb1 34 (to_be_bytes16 ext_port))) [
            | inl e ↦ not_passed skb1 _ (rw (e1, forward_tcp_rewrite, e) at h)
            | inr (skb2, e2) ↦
                let w2 =
                  with_counters [] (rewrite_tcp_sport_ok ∷ [])
                    (with_counters [] (rewrite_v4_src_ok ∷ []) w) in
                let r =
                  apply_l4_nat64_checksum_delta_v6_to_v4 50 info.payload_len 6 info.src info.dst
                    ext_v4 remote_v4 (some (sport, ext_port)) false skb2 w2 in
                elim (Option-cases r.2) [
                  | inl e ↦ not_passed r.1 _ (rw (e1, forward_tcp_rewrite, e2, e) at h)
                  | inr (trace, e3) ↦
                      rw (e1, forward_tcp_rewrite, e2, e3)
                        (forward_tcp_insert-Opened trace r.1 r.0
                          (rw (e1, forward_tcp_rewrite, e2, e3) at h))
                ]
          ]
        ]
