-- ===== src/Xlat/Checksum.antt =====
-- natto64-xlat/src/checksum.rs: the Internet checksum of IPv4, TCP and UDP.
pub mod Fold
pub mod Words
pub mod Field
pub mod Segment
pub mod Verify
use natto.Common.{
  ℕ, zero, suc, ◌+◌, ◌/◌, ◌%◌, ◌^◌, ◌<◌, ◌≡◌, refl, List, [], ◌∷◌, Acc, lt_wf, dite, dec_lt, arith,
  length, WellFounded, u16, u32, shr, low_bits, wrapping_add32, not16, to_be_bytes32,
  from_be_bytes16, ◌==◌, if◌then◌else◌,
}

-- One round of the fold: `(sum & 0xffff) + (sum >> 16)`.
abbrev pub fold_round : ℕ → ℕ
fold_round sum = low_bits sum 16 + shr sum 16

fold_rounds : (sum : ℕ) → Acc ◌<◌ sum → ℕ
fold_rounds sum (Acc.intro _ smaller) =
    dite (dec_lt 0 (shr sum 16)) (λ h. fold_rounds (fold_round sum) (smaller _ (omega arith)))
      (λ _. u16 sum)

unfoldable pub fold_sum : ℕ → ℕ
unfolding fold_rounds lt_wf dec_lt
fold_sum sum = fold_rounds sum (lt_wf.apply sum)

-- The `chunks_exact(2)` loop and its remainder.
unfoldable pub sum_words : List ℕ → ℕ → ℕ
sum_words [] sum = sum
sum_words (last ∷ []) sum = wrapping_add32 sum (from_be_bytes16 last 0)
sum_words (hi ∷ lo ∷ rest) sum = sum_words rest (wrapping_add32 sum (from_be_bytes16 hi lo))

unfoldable pub checksum16_with_seed : List ℕ → ℕ → ℕ
checksum16_with_seed bytes sum = fold_sum (sum_words bytes sum)

unfoldable pub checksum16 : List ℕ → ℕ
checksum16 bytes = checksum16_with_seed bytes 0

unfoldable pub ipv4_header_checksum_20b : List ℕ → ℕ
ipv4_header_checksum_20b hdr = not16 (checksum16 hdr)

-- The index loop of the four transport checksums: `i` is the index of the next byte, and the
-- two bytes of the checksum field, at `field` and `field + 1`, count as zero.
unfoldable pub sum_segment : ℕ → ℕ → List ℕ → ℕ → ℕ
sum_segment field i [] sum = sum
sum_segment field i (last ∷ []) sum =
    wrapping_add32 sum (from_be_bytes16 (if i == field then 0 else last) 0)
sum_segment field i (hi ∷ lo ∷ rest) sum = sum_segment field (i + 2) rest (
    wrapping_add32 sum
      (from_be_bytes16 (if i == field then 0 else hi) (if i + 1 == field + 1 then 0 else lo)))

-- `!fold_sum(sum)`, with zero sent as 0xffff.
unfoldable pub finish : ℕ → ℕ
finish sum = let checksum = not16 (fold_sum sum) in if checksum == 0 then 0xffff else checksum

-- The sum over the two addresses, the protocol number and the length of an IPv4 segment.
unfoldable pub seed_ipv4 : ℕ → ℕ → ℕ → ℕ → ℕ
seed_ipv4 src_v4_be dst_v4_be proto len =
    let src = checksum16_with_seed (to_be_bytes32 src_v4_be) 0 in
    let dst = checksum16_with_seed (to_be_bytes32 dst_v4_be) src in
    wrapping_add32 (wrapping_add32 dst proto) (u16 len)

unfoldable pub seed_ipv6 : List ℕ → List ℕ → ℕ → ℕ → ℕ
seed_ipv6 src_v6 dst_v6 proto len =
    let l4_len = u32 len in
    let src = checksum16_with_seed src_v6 0 in
    let dst = checksum16_with_seed dst_v6 src in
    wrapping_add32
      (wrapping_add32 (wrapping_add32 dst (low_bits (shr l4_len 16) 16)) (low_bits l4_len 16)) proto

unfoldable pub tcp_checksum_ipv4 : ℕ → ℕ → List ℕ → ℕ
tcp_checksum_ipv4 src_v4_be dst_v4_be tcp =
    finish (sum_segment 16 0 tcp (seed_ipv4 src_v4_be dst_v4_be 6 (length tcp)))

unfoldable pub tcp_checksum_ipv6 : List ℕ → List ℕ → List ℕ → ℕ
tcp_checksum_ipv6 src_v6 dst_v6 tcp =
    finish (sum_segment 16 0 tcp (seed_ipv6 src_v6 dst_v6 6 (length tcp)))

unfoldable pub udp_checksum_ipv4 : ℕ → ℕ → List ℕ → ℕ
udp_checksum_ipv4 src_v4_be dst_v4_be udp =
    finish (sum_segment 6 0 udp (seed_ipv4 src_v4_be dst_v4_be 17 (length udp)))

unfoldable pub udp_checksum_ipv6 : List ℕ → List ℕ → List ℕ → ℕ
udp_checksum_ipv6 src_v6 dst_v6 udp =
    finish (sum_segment 6 0 udp (seed_ipv6 src_v6 dst_v6 17 (length udp)))
