-- ===== src/Ebpf/Update/Delta.antt =====
-- The incremental updates of a checksum in natto64-ebpf/src/lib.rs, as sums.
use mathlib.Core.Path.{subst}
use natto.Common.{
  none-ne-some, ℕ, ◌+◌, ◌*◌, ◌%◌, ◌<◌, ◌≡◌, ◌⊎◌, refl, ◌∙◌, ap, ap₂, inl, inr, List, [], ◌∷◌, ◌++◌,
  Bool, true, false, some, Option-cases, arith, length, byte_at, not16, splice,
}
use natto.Ebpf.Kernel.{Kernel}
use natto.Ebpf.World.{World}
use natto.Ebpf.Packet.{to_be16, ipv4_pseudo_header, ipv6_pseudo_header}
use natto.Ebpf.Packet.Transport.{
  FwdL4CsumTrace, load_u16, csum_diff, replace_port, mark_udp_ipv4,
  apply_l4_nat64_checksum_delta_v6_to_v4, apply_l4_nat64_checksum_delta_v4_to_v6,
}
use natto.Ebpf.Update.{le_sum, IsPacketKernel}
use natto.Ebpf.Update.Sums.{splice-append, byte_at-append}

-- A packet around the two bytes of its checksum.
abbrev pub around : List ℕ → List ℕ → ℕ → ℕ → List ℕ
around before after lo hi = before ++ ((lo ∷ hi ∷ []) ++ after)

false-ne-true {ℓ} : {A : Type ℓ} {a b : A} → ◌≡◌ {A = A × Bool} (a, false) (b, true) → ⊥
false-ne-true h = absurd (cc)

kernel_diff :
    (k : Kernel) (old new : List ℕ) {diff : ℕ}
    → csum_diff k old new ≡ some diff
    → k.csum_diff old new ≡ some diff
unfolding csum_diff
kernel_diff k old new h = ground arith

module _ {k : Kernel} {bytes : k.Skb → List ℕ} {IsComplete : k.Skb → Type 0}
    (laws : IsPacketKernel k bytes IsComplete) (before after : List ℕ) (off : ℕ)
    (here : off ≡ length before) where
  -- The checksum of `skb'` in place of `lo` and `hi`, with `from` and `to` exchanged in its sum.
  pub record IsUpdated (lo hi from to : ℕ) (skb' : k.Skb) : Type 0 where
    pub lo' : ℕ
    pub hi' : ℕ
    pub lo_byte : lo' < 256
    pub hi_byte : hi' < 256
    pub holds : bytes skb' ≡ around before after lo' hi'
    pub complete : IsComplete skb'
    pub sums : (not16 (lo' + hi' * 256) + from) % 65535 ≡ (not16 (lo + hi * 256) + to) % 65535

  replaced-IsUpdated :
      (skb : k.Skb) (lo hi from to flags : ℕ) {skb' : k.Skb}
      → bytes skb ≡ around before after lo hi
      → k.l4_csum_replace skb off from to flags ≡ some skb'
      → (flags ≡ 2) ⊎ (flags ≡ k.bpf_f_pseudo_hdr) × (from ≡ 0)
      → IsComplete skb
      → IsUpdated lo hi from to skb'
  replaced-IsUpdated skb lo hi from to flags holds e kind complete =
      let (r, complete') = laws.replaces skb off from to flags e kind complete in
      let first : byte_at (bytes skb) off ≡ lo =
        ap (λ b. byte_at b off) holds ∙ byte_at-append before _ off 0 (omega (arith, here)) in
      let second : byte_at (bytes skb) (off + 1) ≡ hi =
        ap (λ b. byte_at b (off + 1)) holds
        ∙ byte_at-append before _ (off + 1) 1 (omega (arith, here)) in
      record {
        lo' = r.lo;
        hi' = r.hi;
        lo_byte = r.lo_byte;
        hi_byte = r.hi_byte;
        holds =
            r.same_rest
            ∙ ap (λ b. splice b off (r.lo ∷ r.hi ∷ [])) holds
            ∙ splice-append before (lo ∷ hi ∷ []) (r.lo ∷ r.hi ∷ []) after off here refl;
        complete = complete';
        sums = r.sums ∙ ap₂ (λ a b. (not16 (a + b * 256) + to) % 65535) first second;
      }

  -- Both replacements of an update, that of the pseudo-header and that of a port.
  both-IsUpdated :
      (skb : k.Skb) (lo hi diff old new port port' : ℕ) {skb1 skb2 : k.Skb}
      → bytes skb ≡ around before after lo hi
      → IsComplete skb
      → (diff + old) % 65535 ≡ new % 65535
      → k.l4_csum_replace skb off 0 diff k.bpf_f_pseudo_hdr ≡ some skb1
      → k.l4_csum_replace skb1 off (to_be16 port) (to_be16 port') 2 ≡ some skb2
      → IsUpdated lo hi (old + to_be16 port) (new + to_be16 port') skb2
  both-IsUpdated skb lo hi diff old new port port' {skb1} holds complete sum e1 e2 =
      let u1 =
        replaced-IsUpdated skb lo hi 0 diff k.bpf_f_pseudo_hdr holds e1 (inr (refl, refl))
          complete in
      let u2 =
        replaced-IsUpdated skb1 u1.lo' u1.hi' (to_be16 port) (to_be16 port') 2 u1.holds e2
          (inl refl) u1.complete in
      record {
        lo' = u2.lo';
        hi' = u2.hi';
        lo_byte = u2.lo_byte;
        hi_byte = u2.hi_byte;
        holds = u2.holds;
        complete = u2.complete;
        sums = omega (arith, u1.sums, u2.sums, sum);
      }

module _ {k : Kernel} {bytes : k.Skb → List ℕ} {IsComplete : k.Skb → Type 0}
    (laws : IsPacketKernel k bytes IsComplete) (before after : List ℕ) (off : ℕ)
    (here : off ≡ length before) (lo hi len proto src4 dst4 : ℕ) (src6 dst6 : List ℕ)
    (port port' : ℕ) (skb : k.Skb) (holds : bytes skb ≡ around before after lo hi)
    (complete : IsComplete skb) where
  abbrev pub sum6 : ℕ
  sum6 = le_sum (ipv6_pseudo_header src6 dst6 len proto)

  abbrev pub sum4 : ℕ
  sum4 = le_sum (ipv4_pseudo_header src4 dst4 len proto)

  -- From IPv6 to IPv4.
  pub v6_to_v4-IsUpdated :
      (w : World k) {trace : FwdL4CsumTrace}
      → (apply_l4_nat64_checksum_delta_v6_to_v4 off len proto src6 dst6 src4 dst4
          (some (port, port'))
          false
          skb
          w).2
        ≡ some trace
      → IsUpdated laws before after off here lo hi
          (sum6 + to_be16 port)
          (sum4 + to_be16 port')
          (apply_l4_nat64_checksum_delta_v6_to_v4 off len proto src6 dst6 src4 dst4
            (some (port, port'))
            false
            skb
            w).1
  unfolding apply_l4_nat64_checksum_delta_v6_to_v4 replace_port mark_udp_ipv4
  v6_to_v4-IsUpdated w done =
      let old = ipv6_pseudo_header src6 dst6 len proto in
      let new = ipv4_pseudo_header src4 dst4 len proto in
      elim (Option-cases (load_u16 k skb off)) [
        | inl e ↦ absurd (none-ne-some (rw (e, apply_l4_nat64_checksum_delta_v6_to_v4) at done))
        | inr (check, e) ↦ elim (Option-cases (csum_diff k old new)) [
          | inl e1 ↦
              absurd (none-ne-some (rw (e, apply_l4_nat64_checksum_delta_v6_to_v4, e1) at done))
          | inr (diff, e1) ↦
              elim (Option-cases (k.l4_csum_replace skb off 0 diff k.bpf_f_pseudo_hdr)) [
                | inl e2 ↦
                    absurd (
                      none-ne-some (rw (e, apply_l4_nat64_checksum_delta_v6_to_v4, e1, e2) at done))
                | inr (skb1, e2) ↦ elim (Option-cases (load_u16 k skb1 off)) [
                  | inl e3 ↦ absurd (
                      none-ne-some
                        (rw (e, apply_l4_nat64_checksum_delta_v6_to_v4, e1, e2, e3) at done))
                  | inr (check1, e3) ↦
                      elim (Option-cases
                        (k.l4_csum_replace skb1 off (to_be16 port) (to_be16 port') 2)) [
                          | inl e4 ↦ absurd (
                              none-ne-some (
                                rw (e, apply_l4_nat64_checksum_delta_v6_to_v4, e1, e2, e3, e4) at
                                  done))
                          | inr (skb2, e4) ↦ elim (Option-cases (load_u16 k skb2 off)) [
                            | inl e5 ↦ absurd (
                                none-ne-some (
                                  rw (e, apply_l4_nat64_checksum_delta_v6_to_v4, e1, e2, e3, e4, e5)
                                    at done))
                            | inr (check2, e5) ↦
                                rw (e, apply_l4_nat64_checksum_delta_v6_to_v4, e1, e2, e3, e4, e5)
                                  (both-IsUpdated laws before after off here skb lo hi diff sum6
                                    sum4 port port' holds complete
                                    (laws.csum_diff-sums old new (kernel_diff k old new e1)) e2 e4)
                          ]
                        ]
                ]
              ]
        ]
      ]

  -- From IPv4 to IPv6.
  pub v4_to_v6-IsUpdated :
      {skb' : k.Skb}
      → apply_l4_nat64_checksum_delta_v4_to_v6 k off len proto src4 dst4 src6 dst6
          (some (port, port'))
          false
          skb
        ≡ (skb', true)
      → IsUpdated laws before after off here lo hi (sum4 + to_be16 port) (sum6 + to_be16 port') skb'
  unfolding apply_l4_nat64_checksum_delta_v4_to_v6 replace_port
  v4_to_v6-IsUpdated {skb'} done =
      let old = ipv4_pseudo_header src4 dst4 len proto in
      let new = ipv6_pseudo_header src6 dst6 len proto in
      elim (Option-cases (csum_diff k old new)) [
        | inl e1 ↦ absurd (false-ne-true (rw (e1, apply_l4_nat64_checksum_delta_v4_to_v6) at done))
        | inr (diff, e1) ↦
            elim (Option-cases (k.l4_csum_replace skb off 0 diff k.bpf_f_pseudo_hdr)) [
              | inl e2 ↦
                  absurd
                    (false-ne-true (rw (e1, apply_l4_nat64_checksum_delta_v4_to_v6, e2) at done))
              | inr (skb1, e2) ↦
                  elim (Option-cases
                    (k.l4_csum_replace skb1 off (to_be16 port) (to_be16 port') 2)) [
                      | inl e4 ↦ absurd (
                          false-ne-true
                            (rw (e1, apply_l4_nat64_checksum_delta_v4_to_v6, e2, e4) at done))
                      | inr (skb2, e4) ↦
                          subst
                            (IsUpdated laws before after off here lo hi (sum4 + to_be16 port)
                              (sum6 + to_be16 port'))
                            (ap (λ r. r.0)
                              (rw (e1, apply_l4_nat64_checksum_delta_v4_to_v6, e2, e4) at done))
                            (both-IsUpdated laws before after off here skb lo hi diff sum4 sum6 port
                              port' holds complete
                              (laws.csum_diff-sums old new (kernel_diff k old new e1)) e2 e4)
                    ]
            ]
      ]
