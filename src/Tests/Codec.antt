-- ===== src/Tests/Codec.antt =====
-- Checksums, headers and integers of natto64-xlat at concrete inputs.
use natto.Common.{some, leb, true, length, ◌+◌, ℕ, ◌≡◌, refl, List, [], ◌∷◌, ◌++◌, arith, replicate}
use natto.Abi.{build_ipv4_pseudo_header_bytes, build_ipv6_pseudo_header_bytes}
use natto.Xlat.Checksum.{fold_sum, checksum16}
use natto.Xlat.Checksum.Words.{IsBytes}
use natto.Xlat.Checksum.Field.{filled}
use natto.Xlat.Checksum.Segment.{reference}
use natto.Xlat.Checksum.Verify.{
  tcp, udp, checksum_ipv4, checksum_ipv6, checksum_ipv4-reference, checksum_ipv4-verifies,
  checksum_ipv6-reference, checksum_ipv6-verifies,
}
use natto.Ebpf.Ipv6.{parse_ipv6_base}
use natto.Ebpf.Ipv6.Parse.{Holds, parse_ipv6_base-build}
use natto.Tests.Machine.{machine}
use natto.Xlat.Headers.Fields.{
  IsIpv4Header, IsIpv6Header, build_ipv4_header, build_ipv6_header, build_ipv4_header-IsIpv4Header,
  build_ipv6_header-IsIpv6Header,
}

-- A DNS query, up to its header.
abbrev query : List ℕ
query = 0xc7 ∷ 0x38 ∷ 0 ∷ 53 ∷ 0 ∷ 11 ∷ 0xab ∷ 0xcd ∷ 1 ∷ 2 ∷ 3 ∷ []

abbrev alice : List ℕ
alice = 192 ∷ 0 ∷ 2 ∷ 1 ∷ []

abbrev bob : List ℕ
bob = 198 ∷ 51 ∷ 100 ∷ 7 ∷ []

abbrev alice6 : List ℕ
alice6 = 0x20 ∷ 0x01 ∷ 0x0d ∷ 0xb8 ∷ replicate 12 1

abbrev bob6 : List ℕ
bob6 = 0x20 ∷ 0x01 ∷ 0x0d ∷ 0xb8 ∷ replicate 12 2

folds : fold_sum 0x0001_fffe ≡ 0xffff
unfolding fold_sum
folds = refl

query-IsBytes : IsBytes query
query-IsBytes = ground arith

alice-IsBytes : IsBytes alice
alice-IsBytes = ground arith

bob-IsBytes : IsBytes bob
bob-IsBytes = ground arith

alice6-IsBytes : IsBytes alice6
alice6-IsBytes = ground arith

bob6-IsBytes : IsBytes bob6
bob6-IsBytes = ground arith

checksum_ipv4-reference_example :
    checksum_ipv4 udp 0xc0000201 0xc6336407 query
    ≡ reference (build_ipv4_pseudo_header_bytes 0xc0000201 0xc6336407 11 17) 6 query
checksum_ipv4-reference_example =
    checksum_ipv4-reference udp 0xc0000201 0xc6336407 query (omega arith) (omega arith)
      query-IsBytes (omega arith)

checksum_ipv4-verifies_example :
    checksum16 (
      build_ipv4_pseudo_header_bytes 0xc0000201 0xc6336407 11 17
      ++ filled 6 (checksum_ipv4 udp 0xc0000201 0xc6336407 query) query)
    ≡ 0xffff
checksum_ipv4-verifies_example =
    checksum_ipv4-verifies udp 0xc0000201 0xc6336407 query (omega arith) (omega arith) query-IsBytes
      (omega arith) (omega arith)

checksum_ipv6-reference_example :
    checksum_ipv6 udp alice6 bob6 query
    ≡ reference (build_ipv6_pseudo_header_bytes alice6 bob6 11 17) 6 query
checksum_ipv6-reference_example =
    checksum_ipv6-reference udp alice6 bob6 query refl refl alice6-IsBytes bob6-IsBytes
      query-IsBytes (omega arith)

checksum_ipv6-verifies_example :
    checksum16 (
      build_ipv6_pseudo_header_bytes alice6 bob6 11 17
      ++ filled 6 (checksum_ipv6 udp alice6 bob6 query) query)
    ≡ 0xffff
checksum_ipv6-verifies_example =
    checksum_ipv6-verifies udp alice6 bob6 query refl refl alice6-IsBytes bob6-IsBytes query-IsBytes
      (omega arith) (omega arith)

build_ipv4_header-IsIpv4Header_example :
    IsIpv4Header alice bob 60 64 0xbeef 6 (build_ipv4_header tcp alice bob 60 64 0xbeef)
build_ipv4_header-IsIpv4Header_example =
    build_ipv4_header-IsIpv4Header tcp alice bob 60 64 0xbeef refl refl alice-IsBytes bob-IsBytes
      (omega arith) (omega arith) (omega arith)

build_ipv6_header-IsIpv6Header_example :
    IsIpv6Header alice6 bob6 40 64 17 (build_ipv6_header udp alice6 bob6 40 64)
build_ipv6_header-IsIpv6Header_example =
    build_ipv6_header-IsIpv6Header udp alice6 bob6 40 64 refl refl (omega arith)

abbrev header6 : List ℕ
header6 = build_ipv6_header udp alice6 bob6 40 64

-- A packet of the header alone.
header6-Holds : Holds machine header6 0 header6
header6-Holds at size h =
    let inside : leb (0 + at + size) (length header6) ≡ true = ground arith in
    let same : 0 + at ≡ at = omega arith in rw (inside, same)

parse_ipv6_base-build_example :
    parse_ipv6_base machine header6 0
    ≡ some (record {
      src = alice6;
      dst = bob6;
      next_header = 17;
      payload_len = 40;
      l4_abs_offset = 40;
    })
parse_ipv6_base-build_example =
    parse_ipv6_base-build machine header6 0 udp alice6 bob6 40 64 refl refl alice6-IsBytes
      bob6-IsBytes (omega arith) header6-Holds
