-- ===== src/Xlat/Checksum/Verify.antt =====
-- The four transport checksums of natto64-xlat/src/checksum.rs against the Internet checksum of
-- the pseudo-headers of natto64-abi/src/lib.rs.
use natto.Common.{
  ℕ, ◌+◌, ◌%◌, ◌^◌, ◌<◌, ◌≡◌, refl, ◌∙◌, List, ◌++◌, arith, length, byte_at, table, eq_table, sym,
}
use mathlib.Core.Path.{subst}
use natto.Abi.{build_ipv4_pseudo_header_bytes, build_ipv6_pseudo_header_bytes}
use natto.Xlat.Checksum.{
  checksum16, finish, sum_segment, seed_ipv4, seed_ipv6, tcp_checksum_ipv4, tcp_checksum_ipv6,
  udp_checksum_ipv4, udp_checksum_ipv6,
}
use natto.Xlat.Checksum.Words.{IsBytes, word_sum, word_sum-le}
use natto.Xlat.Checksum.Field.{filled}
use natto.Xlat.Checksum.Segment.{
  reference, seed_ipv4-Seeds, seed_ipv6-Seeds, segment-reference, segment-verifies,
  word_sum-pseudo4, word_sum-pseudo6,
}

-- The two transports, with their protocol number and the offset of their checksum field.
pub data Transport : Type 0 where
  tcp udp : Transport

abbrev pub proto_of : Transport → ℕ
proto_of tcp = 6
proto_of udp = 17

abbrev pub field_of : Transport → ℕ
field_of tcp = 16
field_of udp = 6

abbrev pub checksum_ipv4 : Transport → ℕ → ℕ → List ℕ → ℕ
checksum_ipv4 tcp = tcp_checksum_ipv4
checksum_ipv4 udp = udp_checksum_ipv4

abbrev pub checksum_ipv6 : Transport → List ℕ → List ℕ → List ℕ → ℕ
checksum_ipv6 tcp = tcp_checksum_ipv6
checksum_ipv6 udp = udp_checksum_ipv6

field_even : (t : Transport) → field_of t % 2 ≡ 0
field_even tcp = refl
field_even udp = refl

proto-lt : (t : Transport) → proto_of t < 256
proto-lt tcp = omega arith
proto-lt udp = omega arith

checksum_ipv4-finish :
    (t : Transport) (src dst : ℕ) (segment : List ℕ)
    → checksum_ipv4 t src dst segment
      ≡ finish
          (sum_segment (field_of t) 0 segment (seed_ipv4 src dst (proto_of t) (length segment)))
unfolding tcp_checksum_ipv4 udp_checksum_ipv4
checksum_ipv4-finish tcp src dst segment = refl
checksum_ipv4-finish udp src dst segment = refl

checksum_ipv6-finish :
    (t : Transport) (src dst segment : List ℕ)
    → checksum_ipv6 t src dst segment
      ≡ finish
          (sum_segment (field_of t) 0 segment (seed_ipv6 src dst (proto_of t) (length segment)))
unfolding tcp_checksum_ipv6 udp_checksum_ipv6
checksum_ipv6-finish tcp src dst segment = refl
checksum_ipv6-finish udp src dst segment = refl

pseudo6_table :
    (f g : ℕ → ℕ) (len proto : ℕ)
    → length (build_ipv6_pseudo_header_bytes (table 16 f) (table 16 g) len proto) ≡ 40
unfolding build_ipv6_pseudo_header_bytes
pseudo6_table f g len proto = refl

pseudo6_even :
    (src dst : List ℕ) (len proto : ℕ)
    → length src ≡ 16
    → length dst ≡ 16
    → length (build_ipv6_pseudo_header_bytes src dst len proto) % 2 ≡ 0
pseudo6_even src dst len proto hs hd =
    subst (λ s. length (build_ipv6_pseudo_header_bytes s dst len proto) % 2 ≡ 0)
      (sym (eq_table 16 src 0 hs))
      (subst
        (λ d. length (build_ipv6_pseudo_header_bytes (table 16 (byte_at src)) d len proto) % 2 ≡ 0)
        (sym (eq_table 16 dst 0 hd))
        (omega (arith, pseudo6_table (byte_at src) (byte_at dst) len proto)))

module _ (t : Transport) (src dst : ℕ) (segment : List ℕ) (hs : src < 2 ^ 32) (hd : dst < 2 ^ 32)
    (bytes : IsBytes segment) (len : length segment < 65536) where
  abbrev pseudo4 : List ℕ
  pseudo4 = build_ipv4_pseudo_header_bytes src dst (length segment) (proto_of t)

  pseudo4_even : length pseudo4 % 2 ≡ 0
  unfolding build_ipv4_pseudo_header_bytes
  pseudo4_even = refl

  pseudo4_small : word_sum pseudo4 < 4000000
  pseudo4_small =
      omega (arith, proto-lt t, word_sum-pseudo4 src dst (length segment) (proto_of t) hs hd len)

  -- For segments of up to 65535 bytes and either transport, the checksum over IPv4 is the
  -- complement of the Internet checksum of the pseudo-header followed by the segment with its
  -- checksum field cleared, with 0xffff in place of zero.
  pub checksum_ipv4-reference :
      checksum_ipv4 t src dst segment
      ≡ reference
          (build_ipv4_pseudo_header_bytes src dst (length segment) (proto_of t))
          (field_of t)
          segment
  checksum_ipv4-reference =
      checksum_ipv4-finish t src dst segment
      ∙ segment-reference _ (field_of t) pseudo4 segment (field_even t) pseudo4_even pseudo4_small
          bytes len (seed_ipv4-Seeds src dst (proto_of t) (length segment) hs hd len (proto-lt t))

  -- A TCP or UDP segment of up to 65535 bytes that holds its checksum field verifies once the
  -- checksum over IPv4 is written there: with the pseudo-header in front it sums to 0xffff.
  pub checksum_ipv4-verifies :
      field_of t + 1 < length segment
      → checksum16 (
          build_ipv4_pseudo_header_bytes src dst (length segment) (proto_of t)
          ++ filled (field_of t) (checksum_ipv4 t src dst segment) segment)
        ≡ 0xffff
  checksum_ipv4-verifies h = rw (checksum_ipv4-finish t src dst segment) (
      segment-verifies _ (field_of t) pseudo4 segment (field_even t) pseudo4_even pseudo4_small
        bytes len (seed_ipv4-Seeds src dst (proto_of t) (length segment) hs hd len (proto-lt t)) h)

module _ (t : Transport) (src dst segment : List ℕ) (hs : length src ≡ 16) (hd : length dst ≡ 16)
    (bs : IsBytes src) (bd : IsBytes dst) (bytes : IsBytes segment)
    (len : length segment < 65536) where
  abbrev pseudo6 : List ℕ
  pseudo6 = build_ipv6_pseudo_header_bytes src dst (length segment) (proto_of t)

  pseudo6_small : word_sum pseudo6 < 4000000
  pseudo6_small = omega (
    arith,
    proto-lt t,
    word_sum-le src bs,
    word_sum-le dst bd,
    word_sum-pseudo6 src dst (length segment) (proto_of t) hs hd len,
  )

  -- For segments of up to 65535 bytes and either transport, the checksum over IPv6 is the
  -- complement of the Internet checksum of the 40-byte pseudo-header followed by the segment with
  -- its checksum field cleared, with 0xffff in place of zero.
  pub checksum_ipv6-reference :
      checksum_ipv6 t src dst segment
      ≡ reference
          (build_ipv6_pseudo_header_bytes src dst (length segment) (proto_of t))
          (field_of t)
          segment
  checksum_ipv6-reference =
      checksum_ipv6-finish t src dst segment
      ∙ segment-reference _ (field_of t) pseudo6 segment (field_even t)
          (pseudo6_even src dst (length segment) (proto_of t) hs hd) pseudo6_small bytes len
          (seed_ipv6-Seeds src dst (proto_of t) (length segment) hs hd bs bd len (proto-lt t))

  -- A TCP or UDP segment of up to 65535 bytes that holds its checksum field verifies once the
  -- checksum over IPv6 is written there: with the pseudo-header in front it sums to 0xffff.
  pub checksum_ipv6-verifies :
      field_of t + 1 < length segment
      → checksum16 (
          build_ipv6_pseudo_header_bytes src dst (length segment) (proto_of t)
          ++ filled (field_of t) (checksum_ipv6 t src dst segment) segment)
        ≡ 0xffff
  checksum_ipv6-verifies h = rw (checksum_ipv6-finish t src dst segment) (
      segment-verifies _ (field_of t) pseudo6 segment (field_even t)
        (pseudo6_even src dst (length segment) (proto_of t) hs hd) pseudo6_small bytes len
        (seed_ipv6-Seeds src dst (proto_of t) (length segment) hs hd bs bd len (proto-lt t)) h)
