-- ===== src/Ebpf/Reverse/Untouched.antt =====
-- What rewriting a reply in natto64-ebpf/src/lib.rs leaves alone.
use natto.Common.{
  ℕ, ◌+◌, refl, ◌∙◌, inl, inr, List, [], ◌∷◌, Bool, true, false, ◌==◌, if◌then◌else◌, Option-cases,
  Bool-cases, arith, u16, to_be_bytes16,
}
use natto.Abi.{Nat64Config, NatVal}
use natto.Abi.ProdCounters.{ProdCounter}
use natto.Abi.DebugCounters.{DebugCounter, dbg_rev_return_err}
use natto.Ebpf.Kernel.{Kernel}
use natto.Ebpf.World.{World, SameMaps, with_counters-SameMaps}
use natto.Ebpf.Packet.{to_be16, write_ipv6_header, count_redirect, redirect_to_iface}
use natto.Ebpf.Packet.Transport.{load_u16}
use natto.Ebpf.Reverse.Rewrite.{
  nat64_source_v6, Outcome, pass, fail, send, rewrite_tcp, rewrite_udp_checksum, rewrite_udp,
}

module _ {k : Kernel} where
  pub SameMaps-trans : {u v w : World k} → SameMaps u v → SameMaps v w → SameMaps u w
  SameMaps-trans s t = record {
    same_config = s.same_config ∙ t.same_config;
    same_nat = s.same_nat ∙ t.same_nat;
    same_fwd = s.same_fwd ∙ t.same_fwd;
    same_cursor = s.same_cursor ∙ t.same_cursor;
    same_cooldown = s.same_cooldown ∙ t.same_cooldown;
  }

  count_redirect-SameMaps :
      (forward done : Bool) (w : World k) → SameMaps (count_redirect forward done w) w
  unfolding count_redirect
  count_redirect-SameMaps forward done w = ground arith

  pub redirect_to_iface-SameMaps :
      (ifindex : ℕ) (forward : Bool) (w : World k)
      → SameMaps (redirect_to_iface ifindex forward w).0 w
  unfolding redirect_to_iface
  redirect_to_iface-SameMaps ifindex forward w = elim (Bool-cases (ifindex == 0)) [
    | inl zero_index ↦ rw zero_index (count_redirect-SameMaps forward false w)
    | inr some_index ↦
        rw some_index
          (count_redirect-SameMaps forward (k.redirect_neigh ifindex == k.tc_act_redirect) w)
  ]

  module _ (w : World k) where
    pass-SameMaps : (skb : k.Skb) → SameMaps (pass skb w).0 w
    unfolding pass
    pass-SameMaps skb = record {
      same_config = refl;
      same_nat = refl;
      same_fwd = refl;
      same_cursor = refl;
      same_cooldown = refl;
    }

    pub fail-SameMaps :
        (prods : List ProdCounter) (debugs : List DebugCounter) (skb : k.Skb)
        → SameMaps (fail prods debugs skb w).0 w
    unfolding pass
    fail-SameMaps prods debugs skb =
        SameMaps-trans (with_counters-SameMaps [] (dbg_rev_return_err ∷ []) _)
          (with_counters-SameMaps prods debugs w)

    send-SameMaps :
        (ok : ProdCounter) (cfg : Nat64Config) (skb : k.Skb) → SameMaps (send ok cfg skb w).0 w
    unfolding send
    send-SameMaps ok cfg skb =
        SameMaps-trans (redirect_to_iface-SameMaps cfg.bridge_ifindex false _)
          (with_counters-SameMaps (ok ∷ []) _ w)

  module _ (w : World k) where
    abbrev Kept : Outcome k → Type 0
    Kept r = SameMaps r.0 w

    if_Kept : (b : Bool) (r s : Outcome k) → Kept r → Kept s → Kept (if b then r else s)
    if_Kept true r s hr hs = hr
    if_Kept false r s hr hs = hs

    -- Rewriting changes no map, wherever it ends.
    pub rewrite_tcp-SameMaps :
        (cfg : Nat64Config) (tcp_len src dst dport : ℕ) (value : NatVal) (skb : k.Skb)
        → SameMaps (rewrite_tcp cfg tcp_len src dst dport value skb w).0 w
    unfolding rewrite_tcp
    rewrite_tcp-SameMaps cfg tcp_len src dst dport value skb =
        elim (Option-cases (k.change_proto skb (to_be16 0x86dd))) [
          | inl e ↦ rw (e, rewrite_tcp) (fail-SameMaps w [] _ skb)
          | inr (skb1, e1) ↦ elim (Option-cases (k.store skb1 12 (to_be_bytes16 0x86dd))) [
            | inl e ↦ rw (e1, rewrite_tcp, e) (fail-SameMaps w [] _ skb1)
            | inr (skb2, e2) ↦
                elim (Option-cases
                  (write_ipv6_header k skb2 (u16 tcp_len) 6 (nat64_source_v6 src) value.vm_v6)) [
                    | inl e ↦ rw (e1, rewrite_tcp, e2, e) (fail-SameMaps w _ [] skb2)
                    | inr (skb3, e3) ↦
                        elim (Option-cases (k.store skb3 56 (to_be_bytes16 value.vm_port))) [
                          | inl e ↦ rw (e1, rewrite_tcp, e2, e3, e) (fail-SameMaps w [] _ skb3)
                          | inr (skb4, e4) ↦
                              rw (e1, rewrite_tcp, e2, e3, e4)
                                (if_Kept _ _ _
                                  (SameMaps-trans (send-SameMaps _ _ cfg _)
                                    (with_counters-SameMaps [] _ w))
                                  (SameMaps-trans (fail-SameMaps _ _ [] _)
                                    (with_counters-SameMaps [] _ w)))
                        ]
                  ]
          ]
        ]

    rewrite_udp_checksum-SameMaps :
        (cfg : Nat64Config) (udp_len off src dst dport : ℕ) (value : NatVal) (skb : k.Skb)
        → SameMaps (rewrite_udp_checksum cfg udp_len off src dst dport value skb w).0 w
    unfolding rewrite_udp_checksum
    rewrite_udp_checksum-SameMaps cfg udp_len off src dst dport value skb =
        elim (Option-cases (load_u16 k skb (off + 6))) [
          | inl e ↦ rw (e, rewrite_udp_checksum) (pass-SameMaps w skb)
          | inr (incoming, e) ↦
              rw (e, rewrite_udp_checksum)
                (if_Kept _ _ _ (fail-SameMaps w _ _ skb)
                  (if_Kept _ _ _ (send-SameMaps w _ cfg _) (fail-SameMaps w [] _ _)))
        ]

    pub rewrite_udp-SameMaps :
        (cfg : Nat64Config) (udp_len off src dst dport : ℕ) (value : NatVal) (skb : k.Skb)
        → SameMaps (rewrite_udp cfg udp_len off src dst dport value skb w).0 w
    unfolding rewrite_udp
    rewrite_udp-SameMaps cfg udp_len off src dst dport value skb =
        elim (Option-cases (k.change_proto skb (to_be16 0x86dd))) [
          | inl e ↦ rw (e, rewrite_udp) (fail-SameMaps w [] _ skb)
          | inr (skb1, e1) ↦ elim (Option-cases (k.store skb1 12 (to_be_bytes16 0x86dd))) [
            | inl e ↦ rw (e1, rewrite_udp, e) (fail-SameMaps w [] _ skb1)
            | inr (skb2, e2) ↦
                elim (Option-cases
                  (write_ipv6_header k skb2 udp_len 17 (nat64_source_v6 src) value.vm_v6)) [
                    | inl e ↦ rw (e1, rewrite_udp, e2, e) (fail-SameMaps w [] _ skb2)
                    | inr (skb3, e3) ↦
                        elim (Option-cases (k.store skb3 56 (to_be_bytes16 value.vm_port))) [
                          | inl e ↦ rw (e1, rewrite_udp, e2, e3, e) (fail-SameMaps w [] _ skb3)
                          | inr (skb4, e4) ↦
                              rw (e1, rewrite_udp, e2, e3, e4)
                                (rewrite_udp_checksum-SameMaps cfg udp_len off src dst dport value
                                  skb4)
                        ]
                  ]
          ]
        ]
