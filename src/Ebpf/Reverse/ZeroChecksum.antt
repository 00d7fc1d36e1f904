-- ===== src/Ebpf/Reverse/ZeroChecksum.antt =====
-- The test for a missing UDP checksum in the classifier of replies of natto64-ebpf/src/lib.rs.
use mathlib.Core.Option
use mathlib.Core.Path.{subst₂}
use natto.Common.{
  ℕ, ◌+◌, ◌*◌, ◌≡◌, refl, sym, ◌∙◌, ap, ap₂, List, [], ◌∷◌, some, length, byte_at, take, drop,
  table, eq_table,
}
use natto.Abi.{Nat64Config, NatVal}
use natto.Xlat.Headers.{build_ipv6_header_udp}
use natto.Xlat.Checksum.Verify.{udp}
use natto.Xlat.Headers.Fields.{build_ipv6_header}
use natto.Ebpf.Kernel.{Kernel}
use natto.Ebpf.World.{World}
use natto.Ebpf.Packet.Transport.{load_u16}
use natto.Ebpf.Reverse.Rewrite.{nat64_source_v6, rewrite_udp}
use natto.Ebpf.Reverse.Translate.{Rewritten, rewrite_udp_lem, rewrite_udp_checksum-zero}

table-client_bytes :
    (f g : ℕ → ℕ) (len : ℕ)
    → take 2 (drop 26 (build_ipv6_header udp (table 16 f) (table 16 g) len 64)) ≡ g 2 ∷ g 3 ∷ []
unfolding build_ipv6_header_udp
table-client_bytes f g len = refl

client_bytes :
    (src client : List ℕ) (len : ℕ)
    → length src ≡ 16
    → length client ≡ 16
    → take 2 (drop 26 (build_ipv6_header udp src client len 64))
      ≡ byte_at client 2 ∷ byte_at client 3 ∷ []
client_bytes src client len hs hc =
    subst₂
      (λ s c.
        take 2 (drop 26 (build_ipv6_header udp s c len 64))
        ≡ byte_at client 2 ∷ byte_at client 3 ∷ [])
      (sym (eq_table 16 src 0 hs)) (sym (eq_table 16 client 0 hc))
      (table-client_bytes (byte_at src) (byte_at client) len)

source_length : (src : ℕ) → length (nat64_source_v6 src) ≡ 16
unfolding nat64_source_v6
source_length src = refl

module _ {k : Kernel} (cfg : Nat64Config) (skb : k.Skb) (len src dst dport : ℕ) (value : NatVal)
    (w : World k) where
  -- A UDP reply that came without IPv4 options is given up whenever bytes 2 and 3 of the address of
  -- its client are zero, whatever its checksum: the two bytes that the test for a missing checksum
  -- reads belong to the new IPv6 header, if the packet holds what was stored there. By then the
  -- packet is rewritten, and it passes on to the next classifier in that form.
  pub rewrite_udp_loses :
      length value.vm_v6 ≡ 16
      → (r : Rewritten k udp skb len src dst dport value)
      → k.load r.addressed 40 2
        ≡ some (take 2 (drop 26 (build_ipv6_header udp (nat64_source_v6 src) value.vm_v6 len 64)))
      → byte_at value.vm_v6 2 ≡ 0
      → byte_at value.vm_v6 3 ≡ 0
      → ((rewrite_udp cfg len 34 src dst dport value skb w).1 ≡ r.addressed)
        × ((rewrite_udp cfg len 34 src dst dport value skb w).2 ≡ k.tc_act_pipe)
  unfolding load_u16
  rewrite_udp_loses client r holds zero2 zero3 =
      let read : load_u16 k r.addressed 40 ≡ some 0 =
        ap (Option.map (λ bytes. byte_at bytes 0 + byte_at bytes 1 * 256)) (
          holds
          ∙ ap some (
              client_bytes (nat64_source_v6 src) value.vm_v6 len (source_length src) client
              ∙ ap₂ (λ a b. a ∷ b ∷ []) zero2 zero3)) in
      let lost =
        rewrite_udp_checksum-zero cfg skb len src dst dport value w client 34 r.addressed read in
      let path = rewrite_udp_lem cfg skb len src dst dport value w client 34 r in
      (ap (λ o. o.1) path ∙ lost.0, ap (λ o. o.2) path ∙ lost.1)
