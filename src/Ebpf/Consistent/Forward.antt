-- ===== src/Ebpf/Consistent/Forward.antt =====
-- A packet that the forward classifier of natto64-ebpf/src/lib.rs sends has its session in both maps.
pub mod Tcp
pub mod Udp
pub mod Carried
pub mod Branches
pub mod Carrying
use natto.Common.{
  ℕ, ◌≡◌, ◌≢◌, refl, sym, ◌∙◌, ap, inl, inr, ◌⊎◌, List, [], ◌∷◌, Bool, none, some, Option-cases,
  length, arith,
}
use natto.Abi.{
  Nat64Config, NatVal, nat_key, FwdNatKey, new_forward_with_generation, nat64_embedded_v4_be,
  fwd_nat_key,
}
use natto.Abi.Keys.{NatKey-discrete}
use natto.Ebpf.Kernel.{Kernel, IsLruMap}
use natto.Ebpf.World.{World, with_counters, SameMaps}
use natto.Ebpf.Packet.Transport.{mark_udp_ipv4, apply_l4_nat64_checksum_delta_v6_to_v4}
use natto.Ebpf.Ipv6.{Ipv6Info}
use natto.Ebpf.Sessions.Mapping.{Maps}
use natto.Ebpf.Reverse.Rewrite.{Outcome, pass}
use natto.Ebpf.Consistent.{
  AllEntries-insert, IsExternal, NatOk, IsConsistent, SameMaps-IsConsistent, with_nat-IsConsistent,
}

-- The session of a flow, as the reverse map holds it.
abbrev pub session : Ipv6Info → ℕ → ℕ → ℕ → ℕ → NatVal
session info sport dport generation now =
    new_forward_with_generation info.src sport (nat64_embedded_v4_be info.dst) dport generation now

abbrev pub flow_key : Ipv6Info → ℕ → ℕ → ℕ → FwdNatKey
flow_key info sport dport proto =
    fwd_nat_key info.src (nat64_embedded_v4_be info.dst) sport dport proto

session_ok :
    (k : Kernel) (cfg : Nat64Config) (info : Ipv6Info) (proto sport dport a p g now : ℕ)
    → length info.src ≡ 16
    → IsExternal cfg a p
    → NatOk k cfg (nat_key a p proto) (session info sport dport g now)
unfolding nat_key new_forward_with_generation
session_ok k cfg info proto sport dport a p g now client e = (e, client)

module _ {k : Kernel} where
  pub apply_l4-SameMaps :
      (offset len proto : ℕ) (src dst : List ℕ) (a d sport p : ℕ) (udp : Bool) (skb : k.Skb)
      (w : World k)
      → SameMaps
          (apply_l4_nat64_checksum_delta_v6_to_v4 offset len proto src dst a d
            (some (sport, p))
            udp
            skb
            w).0
          w
  unfolding apply_l4_nat64_checksum_delta_v6_to_v4 mark_udp_ipv4 with_counters
  apply_l4-SameMaps offset len proto src dst a d sport p udp skb w = ground arith

  pub SameMaps-Maps :
      {v w : World k} (key : FwdNatKey) (a p g : ℕ)
      → SameMaps v w
      → Maps w key a p g
      → Maps v key a p g
  SameMaps-Maps key a p g s m = record {
    value = m.value;
    stored = ap (λ t. k.fwd_maps.get t key) s.same_fwd ∙ m.stored;
    has_ext_v4 = m.has_ext_v4;
    has_ext_port = m.has_ext_port;
    has_generation = m.has_generation;
  }

  module _ (cfg : Nat64Config) (info : Ipv6Info) (proto sport dport a p g now : ℕ) where
    -- The forward map holds the mapping of the flow, and the reverse map its session, unless it is a
    -- UDP flow and the reverse map did not take it.
    pub record HasSession (v : World k) : Type 0 where
      pub mapped : Maps v (flow_key info sport dport proto) a p g
      pub opened :
          (k.nat_maps.get v.nat (nat_key a p proto) ≡ some (session info sport dport g now))
          ⊎ ((proto ≡ 17)
              × (k.nat_maps.insert v.nat (nat_key a p proto) (session info sport dport g now)
                  ≡ none))

    -- The state stays consistent, and a packet that is not passed on has its session.
    pub record Sends (r : Outcome k) : Type 0 where
      pub consistent : IsConsistent cfg r.0
      pub sent : r.2 ≢ k.tc_act_pipe → HasSession r.0

    pub passed_on : (skb : k.Skb) {w : World k} → IsConsistent cfg w → Sends (pass skb w)
    unfolding pass
    passed_on skb c = record { consistent = c; sent = λ h. absurd (h refl) }

    -- What follows an entry that was tried, up to the counters, the samples and the redirection.
    pub HasSession-SameMaps : {v w : World k} → SameMaps v w → HasSession w → HasSession v
    HasSession-SameMaps s h = record {
      mapped = SameMaps-Maps (flow_key info sport dport proto) a p g s h.mapped;
      opened = elim h.opened [
        | inl stored ↦ inl (ap (λ t. k.nat_maps.get t (nat_key a p proto)) s.same_nat ∙ stored)
        | inr (udp, full) ↦ inr (
          udp,
          ap (λ t. k.nat_maps.insert t (nat_key a p proto) (session info sport dport g now))
                s.same_nat
              ∙ full,
        )
      ];
    }

    pub Sends-SameMaps :
        {r : Outcome k} {w : World k} → SameMaps r.0 w → IsConsistent cfg w → HasSession w → Sends r
    Sends-SameMaps s c h = record {
      consistent = SameMaps-IsConsistent cfg s c;
      sent = λ q. HasSession-SameMaps s h;
    }

    -- The entry for the replies.
    pub inserted_session :
        (nat_laws : IsLruMap k.nat_maps) {w : World k} {t : k.nat_maps.Map}
        → length info.src ≡ 16
        → IsExternal cfg a p
        → IsConsistent cfg w
        → Maps w (flow_key info sport dport proto) a p g
        → k.nat_maps.insert w.nat (nat_key a p proto) (session info sport dport g now) ≡ some t
        → IsConsistent cfg (record w { nat = t }) × HasSession (record w { nat = t })
    inserted_session nat_laws {w} {t} client external c m e = (
      with_nat-IsConsistent cfg t c (
          AllEntries-insert k.nat_maps (NatOk k cfg) nat_laws NatKey-discrete w.nat _ _ c.nat_ok
            (session_ok k cfg info proto sport dport a p g now client external) e),
      record {
        mapped = record {
          value = m.value;
          stored = m.stored;
          has_ext_v4 = m.has_ext_v4;
          has_ext_port = m.has_ext_port;
          has_generation = m.has_generation;
        };
        opened = inl (nat_laws.get-insert_self w.nat _ _ e);
      },
    )
