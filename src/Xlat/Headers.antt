-- ===== src/Xlat/Headers.antt =====
-- natto64-xlat/src/headers.rs: the fixed-size IPv4 and IPv6 headers.
pub mod Fields
use natto.Common.{ℕ, ◌≡◌, refl, List, [], ◌∷◌, replicate, set, splice, to_be_bytes16}
use natto.Xlat.Checksum.{ipv4_header_checksum_20b}

-- The fields of an IPv4 header before its checksum is written.
unfoldable pub ipv4_header_fields : List ℕ → List ℕ → ℕ → ℕ → ℕ → ℕ → List ℕ
ipv4_header_fields src dst total_len ttl identification proto =
    let hdr = replicate 20 0 in
    let hdr = set hdr 0 0x45 in
    let hdr = set hdr 1 0 in
    let hdr = splice hdr 2 (to_be_bytes16 total_len) in
    let hdr = splice hdr 4 (to_be_bytes16 identification) in
    let hdr = splice hdr 6 (to_be_bytes16 0) in
    let hdr = set hdr 8 ttl in
    let hdr = set hdr 9 proto in let hdr = splice hdr 12 src in splice hdr 16 dst

unfoldable pub build_ipv4_header_tcp : List ℕ → List ℕ → ℕ → ℕ → ℕ → List ℕ
build_ipv4_header_tcp src dst total_len ttl identification =
    let hdr = ipv4_header_fields src dst total_len ttl identification 6 in
    splice hdr 10 (to_be_bytes16 (ipv4_header_checksum_20b hdr))

unfoldable pub build_ipv4_header_udp : List ℕ → List ℕ → ℕ → ℕ → ℕ → List ℕ
build_ipv4_header_udp src dst total_len ttl identification =
    let hdr = ipv4_header_fields src dst total_len ttl identification 17 in
    splice hdr 10 (to_be_bytes16 (ipv4_header_checksum_20b hdr))

unfoldable pub build_ipv6_header_tcp : List ℕ → List ℕ → ℕ → ℕ → List ℕ
build_ipv6_header_tcp src dst payload_len hop_limit =
    let hdr = replicate 40 0 in
    let hdr = set hdr 0 0x60 in
    let hdr = set hdr 1 0 in
    let hdr = set hdr 2 0 in
    let hdr = set hdr 3 0 in
    let hdr = splice hdr 4 (to_be_bytes16 payload_len) in
    let hdr = set hdr 6 6 in
    let hdr = set hdr 7 hop_limit in let hdr = splice hdr 8 src in splice hdr 24 dst

unfoldable pub build_ipv6_header_udp : List ℕ → List ℕ → ℕ → ℕ → List ℕ
build_ipv6_header_udp src dst payload_len hop_limit =
    let hdr = replicate 40 0 in
    let hdr = set hdr 0 0x60 in
    let hdr = set hdr 1 0 in
    let hdr = set hdr 2 0 in
    let hdr = set hdr 3 0 in
    let hdr = splice hdr 4 (to_be_bytes16 payload_len) in
    let hdr = set hdr 6 17 in
    let hdr = set hdr 7 hop_limit in let hdr = splice hdr 8 src in splice hdr 24 dst
