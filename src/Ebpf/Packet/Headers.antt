-- ===== src/Ebpf/Packet/Headers.antt =====
-- The headers that natto64-ebpf/src/lib.rs writes, against the builders of natto64-xlat/src/headers.rs
-- and natto64-abi/src/lib.rs.
use natto.Common.{
  ℕ, ◌+◌, ◌*◌, ◌^◌, ◌<◌, ◌≡◌, refl, sym, ap, ◌∙◌, List, none, arith, length, byte_at, table,
  eq_table, to_be_bytes32, not16, ltb, if◌then◌else◌, bit_or, Bool-cases, inl, inr,
}
use mathlib.Core.Path.{subst₂}
use natto.Abi.{build_ipv4_pseudo_header_bytes, build_ipv6_pseudo_header_bytes}
use natto.Xlat.Checksum.{
  fold_sum, checksum16, checksum16_with_seed, sum_words, ipv4_header_checksum_20b,
}
use natto.Xlat.Checksum.Fold.{residue, fold_sum-residue}
use natto.Xlat.Checksum.Verify.{Transport, tcp, udp, proto_of}
use natto.Xlat.Headers.{
  ipv4_header_fields, build_ipv4_header_tcp, build_ipv4_header_udp, build_ipv6_header_tcp,
  build_ipv6_header_udp,
}
use natto.Xlat.Headers.Fields.{build_ipv4_header, build_ipv6_header}
use natto.Ebpf.Kernel.{Kernel}
use natto.Ebpf.Packet.{
  fold_u32_fixed, ipv4_wire_header, ipv6_wire_header, ipv4_pseudo_header, ipv6_pseudo_header,
  ipv4_header_checksum, write_ipv4_header, write_ipv6_header,
}

-- Three rounds are enough: on every 32-bit sum the straight-line fold is the fold loop of natto64-xlat.
pub fold_u32_fixed-fold_sum : (sum : ℕ) → sum < 2 ^ 32 → fold_u32_fixed sum ≡ fold_sum sum
unfolding fold_u32_fixed residue
fold_u32_fixed-fold_sum sum h = ground (arith, fold_sum-residue sum)

ipv4_pseudo_header_eq :
    (src dst len proto : ℕ)
    → proto < 256
    → ipv4_pseudo_header src dst len proto ≡ build_ipv4_pseudo_header_bytes src dst len proto
unfolding ipv4_pseudo_header build_ipv4_pseudo_header_bytes
ipv4_pseudo_header_eq src dst len proto h = ground arith

table-pseudo6 :
    (f g : ℕ → ℕ) (len proto : ℕ)
    → proto < 256
    → ipv6_pseudo_header (table 16 f) (table 16 g) len proto
      ≡ build_ipv6_pseudo_header_bytes (table 16 f) (table 16 g) len proto
unfolding ipv6_pseudo_header build_ipv6_pseudo_header_bytes
table-pseudo6 f g len proto h = ground arith

-- The pseudo-headers whose difference updates a checksum are those of natto64-abi, for 16-byte IPv6
-- addresses and 8-bit protocol numbers.
pub pseudo_headers_eq :
    (src4 dst4 : ℕ) (src6 dst6 : List ℕ) (len proto : ℕ)
    → length src6 ≡ 16
    → length dst6 ≡ 16
    → proto < 256
    → (ipv4_pseudo_header src4 dst4 len proto ≡ build_ipv4_pseudo_header_bytes src4 dst4 len proto)
      × (ipv6_pseudo_header src6 dst6 len proto
          ≡ build_ipv6_pseudo_header_bytes src6 dst6 len proto)
pseudo_headers_eq src4 dst4 src6 dst6 len proto hs hd h = (
  ipv4_pseudo_header_eq src4 dst4 len proto h,
  subst₂ (λ s d. ipv6_pseudo_header s d len proto ≡ build_ipv6_pseudo_header_bytes s d len proto)
      (sym (eq_table 16 src6 0 hs)) (sym (eq_table 16 dst6 0 hd))
      (table-pseudo6 (byte_at src6) (byte_at dst6) len proto h),
)

-- The protocol and time-to-live word of the header.
ttl_word : Transport → ℕ
ttl_word t = 16384 + proto_of t

checksum_sum :
    (t : Transport) (total src dst : ℕ)
    → total < 65536
    → src < 2 ^ 32
    → dst < 2 ^ 32
    → ipv4_header_checksum total (ttl_word t) src dst
      ≡ ipv4_header_checksum_20b
          (ipv4_header_fields (to_be_bytes32 src) (to_be_bytes32 dst) total 64 0 (proto_of t))
unfolding ipv4_header_checksum ipv4_header_checksum_20b checksum16 checksum16_with_seed sum_words
    ipv4_header_fields ttl_word
checksum_sum tcp total src dst ht hs hd =
    ap not16 (fold_u32_fixed-fold_sum _ (omega arith) ∙ ap fold_sum (omega arith))
checksum_sum udp total src dst ht hs hd =
    ap not16 (fold_u32_fixed-fold_sum _ (omega arith) ∙ ap fold_sum (omega arith))

wire_header-build :
    (t : Transport) (total src dst : ℕ)
    → total < 65536
    → src < 2 ^ 32
    → dst < 2 ^ 32
    → ipv4_wire_header total (ttl_word t) (ipv4_header_checksum total (ttl_word t) src dst) src dst
      ≡ build_ipv4_header t (to_be_bytes32 src) (to_be_bytes32 dst) total 64 0
unfolding ipv4_wire_header build_ipv4_header_tcp build_ipv4_header_udp ipv4_header_fields ttl_word
wire_header-build tcp total src dst ht hs hd = rw (checksum_sum tcp total src dst ht hs hd)
wire_header-build udp total src dst ht hs hd = rw (checksum_sum udp total src dst ht hs hd)

ttl_word-or : (t : Transport) → bit_or (64 * 2 ^ 8) (proto_of t) ≡ ttl_word t
unfolding ttl_word
ttl_word-or tcp = refl
ttl_word-or udp = refl

table-header6 :
    (t : Transport) (f g : ℕ → ℕ) (payload_len : ℕ)
    → ipv6_wire_header payload_len (proto_of t) (table 16 f) (table 16 g)
      ≡ build_ipv6_header t (table 16 f) (table 16 g) payload_len 64
unfolding ipv6_wire_header build_ipv6_header_tcp build_ipv6_header_udp
table-header6 tcp f g payload_len = refl
table-header6 udp f g payload_len = refl

module _ (k : Kernel) (skb : k.Skb) (t : Transport) (payload_len : ℕ) where
  -- The header that the forward path writes over a packet is the one that natto64-xlat builds for
  -- these addresses and this protocol, with 64 as time to live and 0 as identification, where the
  -- total length fits 16 bits; otherwise nothing is written and the helper fails.
  pub write_ipv4_header_builds :
      (src dst : ℕ)
      → src < 2 ^ 32
      → dst < 2 ^ 32
      → write_ipv4_header k skb payload_len src dst (proto_of t) ≡ (
          if ltb 65535 (payload_len + 20)
          then none
          else k.store skb 14
              (build_ipv4_header t (to_be_bytes32 src) (to_be_bytes32 dst) (payload_len + 20) 64 0))
  unfolding write_ipv4_header
  write_ipv4_header_builds src dst hs hd = elim (Bool-cases (ltb 65535 (payload_len + 20))) [
    | inl over ↦ rw over
    | inr fits ↦
        rw (fits, ttl_word-or t)
          (ap (k.store skb 14)
            (wire_header-build t (payload_len + 20) src dst (ground arith) hs hd))
  ]

  -- The header that the reverse path writes is the one that natto64-xlat builds for these 16-byte
  -- addresses and this protocol, with 64 as hop limit.
  pub write_ipv6_header_builds :
      (src dst : List ℕ)
      → length src ≡ 16
      → length dst ≡ 16
      → write_ipv6_header k skb payload_len (proto_of t) src dst
        ≡ k.store skb 14 (build_ipv6_header t src dst payload_len 64)
  unfolding write_ipv6_header
  write_ipv6_header_builds src dst hs hd =
      subst₂
        (λ s d.
          k.store skb 14 (ipv6_wire_header payload_len (proto_of t) s d)
          ≡ k.store skb 14 (build_ipv6_header t s d payload_len 64))
        (sym (eq_table 16 src 0 hs)) (sym (eq_table 16 dst 0 hd))
        (ap (k.store skb 14) (table-header6 t (byte_at src) (byte_at dst) payload_len))
