-- ===== src/Ebpf/Reverse/Translate.antt =====
-- How natto64-ebpf/src/lib.rs translates a reply whose rewriting succeeds.
use natto.Common.{
  ℕ, ◌+◌, ◌^◌, ◌<◌, ◌≡◌, refl, ◌∙◌, [], ◌∷◌, Bool, true, false, some, ◌==◌, u16, length,
  to_be_bytes16, arith,
}
use natto.Abi.{Nat64Config, NatVal}
use natto.Abi.ProdCounters.{nat64_v4_to_v6_ok, nat64_v4_to_v6_udp_ok}
use natto.Abi.DebugCounters.{rewrite_tcp_dport_ok}
use natto.Xlat.Checksum.Verify.{Transport, tcp, udp, proto_of, field_of}
use natto.Xlat.Headers.Fields.{build_ipv6_header}
use natto.Ebpf.Kernel.{Kernel}
use natto.Ebpf.World.{World, with_counters}
use natto.Ebpf.Packet.{to_be16, write_ipv6_header}
use natto.Ebpf.Packet.Headers.{write_ipv6_header_builds}
use natto.Ebpf.Packet.Transport.{load_u16, apply_l4_nat64_checksum_delta_v4_to_v6}
use natto.Ebpf.Reverse.Rewrite.{
  nat64_source_v6, pass, send, rewrite_tcp, rewrite_udp_checksum, rewrite_udp,
}

-- The steps of a rewriting, from `skb` on, in which no helper of the kernel fails, and the packet
-- `addressed` before the update of its checksum.
pub record Rewritten (k : Kernel) (t : Transport) (skb : k.Skb) (len src dst dport : ℕ)
    (value : NatVal) : Type 0 where
  pub grown : k.Skb
  pub grows : k.change_proto skb (to_be16 0x86dd) ≡ some grown
  pub typed : k.Skb
  pub types : k.store grown 12 (to_be_bytes16 0x86dd) ≡ some typed
  pub headed : k.Skb
  pub heads :
      k.store typed 14 (build_ipv6_header t (nat64_source_v6 src) value.vm_v6 len 64) ≡ some headed
  pub addressed : k.Skb
  pub addresses : k.store headed 56 (to_be_bytes16 value.vm_port) ≡ some addressed

-- The update of the checksum of an addressed packet.
abbrev pub checked : (k : Kernel) → Transport → ℕ → ℕ → ℕ → ℕ → NatVal → k.Skb → k.Skb × Bool
checked k t len src dst dport value addressed =
    apply_l4_nat64_checksum_delta_v4_to_v6 k (54 + field_of t) len (proto_of t) src dst
      (nat64_source_v6 src) value.vm_v6 (some (dport, value.vm_port)) (proto_of t == 17) addressed

module _ {k : Kernel} (t : Transport) (skb : k.Skb) (len src dst dport : ℕ) (value : NatVal)
    (client : length value.vm_v6 ≡ 16) (r : Rewritten k t skb len src dst dport value) where
  source-length : length (nat64_source_v6 src) ≡ 16
  unfolding nat64_source_v6
  source-length = refl

  writes_header :
      write_ipv6_header k r.typed len (proto_of t) (nat64_source_v6 src) value.vm_v6 ≡ some r.headed
  writes_header =
      write_ipv6_header_builds k r.typed t len (nat64_source_v6 src) value.vm_v6 source-length
        client
      ∙ r.heads

module _ {k : Kernel} (cfg : Nat64Config) (skb : k.Skb) (len src dst dport : ℕ) (value : NatVal)
    (w : World k) (client : length value.vm_v6 ≡ 16) where
  pub rewrite_tcp_lem :
      len < 2 ^ 16
      → (r : Rewritten k tcp skb len src dst dport value) {final : k.Skb}
      → checked k tcp len src dst dport value r.addressed ≡ (final, true)
      → rewrite_tcp cfg len src dst dport value skb w
        ≡ send nat64_v4_to_v6_ok cfg final (with_counters [] (rewrite_tcp_dport_ok ∷ []) w)
  unfolding rewrite_tcp
  rewrite_tcp_lem short r done =
      let fits : u16 len ≡ len = omega arith in
      rw (
        r.grows,
        rewrite_tcp,
        r.types,
        fits,
        writes_header tcp skb len src dst dport value client r,
        r.addresses,
        fits,
        done,
      )

  pub rewrite_udp_lem :
      (off : ℕ) (r : Rewritten k udp skb len src dst dport value)
      → rewrite_udp cfg len off src dst dport value skb w
        ≡ rewrite_udp_checksum cfg len off src dst dport value r.addressed w
  unfolding rewrite_udp
  rewrite_udp_lem off r = rw (
    r.grows,
    rewrite_udp,
    r.types,
    writes_header udp skb len src dst dport value client r,
    r.addresses,
  )

  pub rewrite_udp_checksum_lem :
      (off : ℕ) (addressed : k.Skb) {final : k.Skb} {incoming : ℕ}
      → load_u16 k addressed (off + 6) ≡ some incoming
      → (incoming == 0) ≡ false
      → checked k udp len src dst dport value addressed ≡ (final, true)
      → rewrite_udp_checksum cfg len off src dst dport value addressed w
        ≡ send nat64_v4_to_v6_udp_ok cfg final w
  unfolding rewrite_udp_checksum
  rewrite_udp_checksum_lem off addressed read nonzero done =
      rw (read, rewrite_udp_checksum, nonzero, done)

  -- Where the two bytes read are zero, the packet passes on to the next classifier as it is.
  pub rewrite_udp_checksum-zero :
      (off : ℕ) (addressed : k.Skb)
      → load_u16 k addressed (off + 6) ≡ some 0
      → ((rewrite_udp_checksum cfg len off src dst dport value addressed w).1 ≡ addressed)
        × ((rewrite_udp_checksum cfg len off src dst dport value addressed w).2 ≡ k.tc_act_pipe)
  unfolding rewrite_udp_checksum pass
  rewrite_udp_checksum-zero off addressed read = ground arith
