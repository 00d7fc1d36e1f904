-- ===== src/Xlat/Headers/Fields.antt =====
-- What the headers of natto64-xlat/src/headers.rs hold, read back by field.
use natto.Common.{
  ℕ, ◌+◌, ◌^◌, ◌<◌, ◌≡◌, refl, sym, ap, ◌∙◌, List, [], ◌∷◌, arith, length, byte_at, take, drop,
  table, eq_table, splice, to_be_bytes16, not16,
}
use mathlib.Core.Path.{subst, subst₂}
use natto.Xlat.Checksum.{checksum16, fold_sum, ipv4_header_checksum_20b}
use natto.Xlat.Checksum.Fold.{fold_sum-complement}
use natto.Xlat.Checksum.Words.{IsBytes, word_sum, word_sum-le}
use natto.Xlat.Checksum.Segment.{with_seed_fold}
use natto.Xlat.Checksum.Verify.{Transport, tcp, udp, proto_of}
use natto.Xlat.Wire.{read_u16_be}
use natto.Xlat.Headers.{
  ipv4_header_fields, build_ipv4_header_tcp, build_ipv4_header_udp, build_ipv6_header_tcp,
  build_ipv6_header_udp,
}

abbrev pub build_ipv4_header : Transport → List ℕ → List ℕ → ℕ → ℕ → ℕ → List ℕ
build_ipv4_header tcp = build_ipv4_header_tcp
build_ipv4_header udp = build_ipv4_header_udp

abbrev pub build_ipv6_header : Transport → List ℕ → List ℕ → ℕ → ℕ → List ℕ
build_ipv6_header tcp = build_ipv6_header_tcp
build_ipv6_header udp = build_ipv6_header_udp

-- A 20-byte IPv4 header that verifies, without options, fragmentation or traffic class.
pub record IsIpv4Header (src dst : List ℕ) (total_len ttl identification proto : ℕ) (hdr : List ℕ)
    : Type 0 where
  pub size : length hdr ≡ 20
  pub version_ihl : byte_at hdr 0 ≡ 0x45
  pub traffic_class : byte_at hdr 1 ≡ 0
  pub has_total_len : read_u16_be (drop 2 hdr) ≡ total_len
  pub has_identification : read_u16_be (drop 4 hdr) ≡ identification
  pub unfragmented : read_u16_be (drop 6 hdr) ≡ 0
  pub has_ttl : byte_at hdr 8 ≡ ttl
  pub has_proto : byte_at hdr 9 ≡ proto
  pub has_src : take 4 (drop 12 hdr) ≡ src
  pub has_dst : drop 16 hdr ≡ dst
  pub verifies : checksum16 hdr ≡ 0xffff

module _ (f g : ℕ → ℕ) (total_len ttl identification proto : ℕ) (hl : total_len < 2 ^ 16)
    (ht : ttl < 256) (hi : identification < 2 ^ 16) (hp : proto < 256)
    (hf : word_sum (table 4 f) < 200000) (hg : word_sum (table 4 g) < 200000) where
  abbrev fields4 : List ℕ
  fields4 = ipv4_header_fields (table 4 f) (table 4 g) total_len ttl identification proto

  abbrev filled4 : ℕ → List ℕ
  filled4 checksum = splice fields4 10 (to_be_bytes16 checksum)

  word_sum-fields4 : word_sum fields4 < 2 ^ 30
  unfolding word_sum ipv4_header_fields
  word_sum-fields4 = omega arith

  word_sum-filled4 :
      (checksum : ℕ) → checksum < 65536 → word_sum (filled4 checksum) ≡ word_sum fields4 + checksum
  unfolding word_sum ipv4_header_fields
  word_sum-filled4 checksum h = omega arith

  checksum16-lem :
      (bytes : List ℕ) → word_sum bytes < 2 ^ 32 → checksum16 bytes ≡ fold_sum (word_sum bytes)
  unfolding checksum16
  checksum16-lem bytes h = with_seed_fold bytes 0 (word_sum bytes) (omega arith) h

  filled4-verifies : checksum16 (filled4 (ipv4_header_checksum_20b fields4)) ≡ 0xffff
  unfolding ipv4_header_checksum_20b
  filled4-verifies =
      let complement = not16 (checksum16 fields4) in
      let sum = word_sum-filled4 complement (omega arith) in
      let whole = checksum16-lem fields4 (omega (arith, word_sum-fields4)) in
      checksum16-lem (filled4 complement) (omega (arith, sum, word_sum-fields4))
      ∙ ap fold_sum (omega (arith, sum, whole))
      ∙ fold_sum-complement (word_sum fields4)

  filled4-IsIpv4Header :
      IsIpv4Header
        (table 4 f)
        (table 4 g)
        total_len
        ttl
        identification
        proto
        (filled4 (ipv4_header_checksum_20b fields4))
  unfolding ipv4_header_fields read_u16_be
  filled4-IsIpv4Header = record {
    size = refl;
    version_ihl = refl;
    traffic_class = refl;
    has_total_len = omega arith;
    has_identification = omega arith;
    unfragmented = refl;
    has_ttl = refl;
    has_proto = refl;
    has_src = refl;
    has_dst = refl;
    verifies = filled4-verifies;
  }

build_ipv4_header-table :
    (t : Transport) (src dst : List ℕ) (total_len ttl identification : ℕ)
    → build_ipv4_header t src dst total_len ttl identification
      ≡ splice (ipv4_header_fields src dst total_len ttl identification (proto_of t)) 10 (
          to_be_bytes16 (
            ipv4_header_checksum_20b
              (ipv4_header_fields src dst total_len ttl identification (proto_of t))))
unfolding build_ipv4_header_tcp build_ipv4_header_udp
build_ipv4_header-table tcp src dst total_len ttl identification = refl
build_ipv4_header-table udp src dst total_len ttl identification = refl

word_sum-address :
    (src : List ℕ) → IsBytes src → length src ≡ 4 → word_sum (table 4 (byte_at src)) < 200000
word_sum-address src h len =
    subst (λ s. word_sum s < 200000) (eq_table 4 src 0 len) (omega (arith, word_sum-le src h))

proto_of-lt : (t : Transport) → proto_of t < 256
proto_of-lt tcp = omega arith
proto_of-lt udp = omega arith

-- For 4-byte addresses and fields in range, the TCP and the UDP builder give a 20-byte header
-- that holds each field where IPv4 has it, and whose Internet checksum is 0xffff.
pub build_ipv4_header-IsIpv4Header :
    (t : Transport) (src dst : List ℕ) (total_len ttl identification : ℕ)
    → length src ≡ 4
    → length dst ≡ 4
    → IsBytes src
    → IsBytes dst
    → total_len < 2 ^ 16
    → ttl < 256
    → identification < 2 ^ 16
    → IsIpv4Header src dst total_len ttl identification
        (proto_of t)
        (build_ipv4_header t src dst total_len ttl identification)
build_ipv4_header-IsIpv4Header t src dst total_len ttl identification ls ld bs bd hl ht hi =
    subst₂
      (λ s d.
        IsIpv4Header s d total_len ttl identification (proto_of t)
          (build_ipv4_header t s d total_len ttl identification))
      (sym (eq_table 4 src 0 ls)) (sym (eq_table 4 dst 0 ld))
      (rw (build_ipv4_header-table t) (
        filled4-IsIpv4Header (byte_at src) (byte_at dst) total_len ttl identification (proto_of t)
          hl ht hi (proto_of-lt t) (word_sum-address src bs ls) (word_sum-address dst bd ld)))

-- A 40-byte IPv6 base header without traffic class or flow label.
pub record IsIpv6Header (src dst : List ℕ) (payload_len hop_limit next_header : ℕ) (hdr : List ℕ)
    : Type 0 where
  pub size : length hdr ≡ 40
  pub version_flow : take 4 hdr ≡ 0x60 ∷ 0 ∷ 0 ∷ 0 ∷ []
  pub has_payload_len : read_u16_be (drop 4 hdr) ≡ payload_len
  pub has_next_header : byte_at hdr 6 ≡ next_header
  pub has_hop_limit : byte_at hdr 7 ≡ hop_limit
  pub has_src : take 16 (drop 8 hdr) ≡ src
  pub has_dst : drop 24 hdr ≡ dst

table-IsIpv6Header :
    (t : Transport) (f g : ℕ → ℕ) (payload_len hop_limit : ℕ)
    → payload_len < 2 ^ 16
    → IsIpv6Header
        (table 16 f)
        (table 16 g)
        payload_len
        hop_limit
        (proto_of t)
        (build_ipv6_header t (table 16 f) (table 16 g) payload_len hop_limit)
unfolding build_ipv6_header_tcp build_ipv6_header_udp read_u16_be
table-IsIpv6Header tcp f g payload_len hop_limit h = record {
  size = refl;
  version_flow = refl;
  has_payload_len = omega arith;
  has_next_header = refl;
  has_hop_limit = refl;
  has_src = refl;
  has_dst = refl;
}
table-IsIpv6Header udp f g payload_len hop_limit h = record {
  size = refl;
  version_flow = refl;
  has_payload_len = omega arith;
  has_next_header = refl;
  has_hop_limit = refl;
  has_src = refl;
  has_dst = refl;
}

-- For 16-byte addresses and a 16-bit length, the TCP and the UDP builder give a 40-byte header
-- that holds each field where IPv6 has it.
pub build_ipv6_header-IsIpv6Header :
    (t : Transport) (src dst : List ℕ) (payload_len hop_limit : ℕ)
    → length src ≡ 16
    → length dst ≡ 16
    → payload_len < 2 ^ 16
    → IsIpv6Header src dst payload_len hop_limit
        (proto_of t)
        (build_ipv6_header t src dst payload_len hop_limit)
build_ipv6_header-IsIpv6Header t src dst payload_len hop_limit ls ld h =
    subst₂
      (λ s d.
        IsIpv6Header s d payload_len hop_limit (proto_of t)
          (build_ipv6_header t s d payload_len hop_limit))
      (sym (eq_table 16 src 0 ls)) (sym (eq_table 16 dst 0 ld))
      (table-IsIpv6Header t (byte_at src) (byte_at dst) payload_len hop_limit h)
