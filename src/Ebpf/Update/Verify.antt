-- ===== src/Ebpf/Update/Verify.antt =====
-- An update of natto64-ebpf/src/lib.rs between the checksums over IPv6 and over IPv4.
use natto.Common.{
  ℕ, ◌+◌, ◌*◌, ◌%◌, ◌^◌, ◌<◌, ◌≡◌, refl, sym, ap, List, ◌++◌, arith, length, not16, length-append,
  to_be_bytes16, to_be_bytes32,
}
use mathlib.Core.Path.{subst}
use natto.Abi.{build_ipv4_pseudo_header_bytes, build_ipv6_pseudo_header_bytes}
use natto.Xlat.Checksum.{checksum16}
use natto.Xlat.Checksum.Words.{IsBytes, word_sum}
use natto.Xlat.Checksum.Segment.{word_sum-pseudo4, word_sum-pseudo6}
use natto.Ebpf.Packet.{to_be16, ipv4_pseudo_header, ipv6_pseudo_header}
use natto.Ebpf.Packet.Headers.{pseudo_headers_eq}
use natto.Ebpf.Update.{le_sum}
use natto.Ebpf.Update.Segment.{segment, IsParts, append-IsBytes, segment-verifies}

pub to_be_bytes32-IsBytes : (v : ℕ) → IsBytes (to_be_bytes32 v)
to_be_bytes32-IsBytes v = (omega arith, (omega arith, (omega arith, (omega arith, tt))))

to_be_bytes16-IsBytes : (v : ℕ) → IsBytes (to_be_bytes16 v)
to_be_bytes16-IsBytes v = (omega arith, (omega arith, tt))

pseudo4-IsBytes : (src dst len proto : ℕ) → IsBytes (ipv4_pseudo_header src dst len proto)
unfolding ipv4_pseudo_header
pseudo4-IsBytes src dst len proto =
    let s = to_be_bytes32 src in
    let d = to_be_bytes32 dst in
    let p = to_be_bytes16 proto in
    append-IsBytes (s ++ d ++ p) (to_be_bytes16 len)
      (append-IsBytes (s ++ d) p
        (append-IsBytes s d (to_be_bytes32-IsBytes src) (to_be_bytes32-IsBytes dst))
        (to_be_bytes16-IsBytes proto))
      (to_be_bytes16-IsBytes len)

pseudo6-IsBytes :
    (src dst : List ℕ) (len proto : ℕ)
    → IsBytes src
    → IsBytes dst
    → IsBytes (ipv6_pseudo_header src dst len proto)
unfolding ipv6_pseudo_header
pseudo6-IsBytes src dst len proto hs hd =
    let l = to_be_bytes32 len in
    append-IsBytes (src ++ dst ++ l) (to_be_bytes32 proto)
      (append-IsBytes (src ++ dst) l (append-IsBytes src dst hs hd) (to_be_bytes32-IsBytes len))
      (to_be_bytes32-IsBytes proto)

length-pseudo4 : (src dst len proto : ℕ) → length (ipv4_pseudo_header src dst len proto) ≡ 12
unfolding ipv4_pseudo_header
length-pseudo4 src dst len proto = refl

length-pseudo6 :
    (src dst : List ℕ) (len proto : ℕ)
    → length src ≡ 16
    → length dst ≡ 16
    → length (ipv6_pseudo_header src dst len proto) ≡ 40
unfolding ipv6_pseudo_header
length-pseudo6 src dst len proto hs hd = omega (
  arith,
  length-append (src ++ dst ++ to_be_bytes32 len) (to_be_bytes32 proto),
  length-append (src ++ dst) (to_be_bytes32 len),
  length-append src dst,
)

module _ (head middle rest : List ℕ) (parts : IsParts head middle rest) (src4 dst4 : ℕ)
    (src6 dst6 : List ℕ) (hs4 : src4 < 2 ^ 32) (hd4 : dst4 < 2 ^ 32) (hs6 : length src6 ≡ 16)
    (hd6 : length dst6 ≡ 16) (bs6 : IsBytes src6) (bd6 : IsBytes dst6) (len : ℕ)
    (short : len < 65536) (fits : length head + length middle + length rest + 4 ≡ len)
    (port port' lo hi lo' hi' : ℕ) (small : port < 65536) (small' : port' < 65536)
    (lo_byte : lo < 256) (hi_byte : hi < 256) (lo_byte' : lo' < 256) (hi_byte' : hi' < 256) where
  abbrev p4 : List ℕ
  p4 = ipv4_pseudo_header src4 dst4 len 6

  abbrev p6 : List ℕ
  p6 = ipv6_pseudo_header src6 dst6 len 6

  eq4 : p4 ≡ build_ipv4_pseudo_header_bytes src4 dst4 len 6
  eq4 = (pseudo_headers_eq src4 dst4 src6 dst6 len 6 hs6 hd6 (omega arith)).0

  eq6 : p6 ≡ build_ipv6_pseudo_header_bytes src6 dst6 len 6
  eq6 = (pseudo_headers_eq src4 dst4 src6 dst6 len 6 hs6 hd6 (omega arith)).1

  positive4 : 0 < word_sum p4
  positive4 = omega (arith, ap word_sum eq4, word_sum-pseudo4 src4 dst4 len 6 hs4 hd4 short)

  positive6 : 0 < word_sum p6
  positive6 = omega (arith, ap word_sum eq6, word_sum-pseudo6 src6 dst6 len 6 hs6 hd6 short)

  -- A TCP checksum over IPv6 that verifies becomes one over IPv4 that verifies.
  pub to_ipv4-verifies :
      (not16 (lo' + hi' * 256) + (le_sum p6 + to_be16 port)) % 65535
        ≡ (not16 (lo + hi * 256) + (le_sum p4 + to_be16 port')) % 65535
      → checksum16
          (build_ipv6_pseudo_header_bytes src6 dst6 len 6 ++ segment head middle rest port lo hi)
        ≡ 0xffff
      → checksum16
          (build_ipv4_pseudo_header_bytes src4 dst4 len 6 ++ segment head middle rest port' lo' hi')
        ≡ 0xffff
  to_ipv4-verifies sums good =
      let l4 = length-pseudo4 src4 dst4 len 6 in
      let l6 = length-pseudo6 src6 dst6 len 6 hs6 hd6 in
      subst (λ p. checksum16 (p ++ segment head middle rest port' lo' hi') ≡ 0xffff) eq4
        (segment-verifies head middle rest parts p6 p4 (omega (arith, l6)) (omega (arith, l4))
          (pseudo6-IsBytes src6 dst6 len 6 bs6 bd6) (pseudo4-IsBytes src4 dst4 len 6) positive4 port
          port' lo hi lo' hi' small small' lo_byte hi_byte lo_byte' hi_byte'
          (omega (arith, l6, fits)) (omega (arith, l4, fits)) sums
          (subst (λ p. checksum16 (p ++ segment head middle rest port lo hi) ≡ 0xffff) (sym eq6)
            good))

  -- And the other way.
  pub to_ipv6-verifies :
      (not16 (lo' + hi' * 256) + (le_sum p4 + to_be16 port)) % 65535
        ≡ (not16 (lo + hi * 256) + (le_sum p6 + to_be16 port')) % 65535
      → checksum16
          (build_ipv4_pseudo_header_bytes src4 dst4 len 6 ++ segment head middle rest port lo hi)
        ≡ 0xffff
      → checksum16
          (build_ipv6_pseudo_header_bytes src6 dst6 len 6 ++ segment head middle rest port' lo' hi')
        ≡ 0xffff
  to_ipv6-verifies sums good =
      let l4 = length-pseudo4 src4 dst4 len 6 in
      let l6 = length-pseudo6 src6 dst6 len 6 hs6 hd6 in
      subst (λ p. checksum16 (p ++ segment head middle rest port' lo' hi') ≡ 0xffff) eq6
        (segment-verifies head middle rest parts p4 p6 (omega (arith, l4)) (omega (arith, l6))
          (pseudo4-IsBytes src4 dst4 len 6) (pseudo6-IsBytes src6 dst6 len 6 bs6 bd6) positive6 port
          port' lo hi lo' hi' small small' lo_byte hi_byte lo_byte' hi_byte'
          (omega (arith, l4, fits)) (omega (arith, l6, fits)) sums
          (subst (λ p. checksum16 (p ++ segment head middle rest port lo hi) ≡ 0xffff) (sym eq4)
            good))
