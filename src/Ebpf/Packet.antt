-- ===== src/Ebpf/Packet.antt =====
-- natto64-ebpf/src/lib.rs: the helpers that read and rewrite a packet.
pub mod Headers
pub mod Transport
use natto.Common.{
  ℕ, ◌+◌, ◌*◌, ◌/◌, ◌%◌, ◌^◌, List, [], ◌∷◌, ◌++◌, Bool, true, false, Option, none, some, ltb, ◌==◌,
  if◌then◌else◌, u16, shr, low_bits, wrapping_add32, not16, to_be_bytes16, to_be_bytes32, byte_at,
  bit_or,
}
use mathlib.Core.Option
use natto.Abi.ProdCounters.{
  ProdCounter, fwd_redirect_ok, fwd_redirect_err, rev_redirect_ok, rev_redirect_err, bump_prod,
}
use natto.Abi.DebugCounters.{
  DebugCounter, bump_debug, dbg_fwd_return_ok, dbg_fwd_return_err, dbg_rev_return_ok,
  dbg_rev_return_err,
}
use natto.Ebpf.Kernel.{Kernel}
use natto.Ebpf.World.{World}
use natto.Xlat.Wire.{read_u16_be, read_u32_be}

abbrev pub eth_hdr_len : ℕ
eth_hdr_len = 14

abbrev pub ipv4_hdr_len : ℕ
ipv4_hdr_len = 20

abbrev pub max_l4_len : ℕ
max_l4_len = 1500

-- The 16-bit number whose bytes in the memory of a little-endian machine are those of `value` in
-- wire order: `u16::to_be` of the dataplane.
abbrev pub to_be16 : ℕ → ℕ
to_be16 value = value % 256 * 256 + value / 256

-- The fold, in straight line.
unfoldable pub fold_u32_fixed : ℕ → ℕ
fold_u32_fixed sum =
    let sum = low_bits sum 16 + shr sum 16 in
    let sum = low_bits sum 16 + shr sum 16 in let sum = low_bits sum 16 + shr sum 16 in u16 sum

-- The bytes of an `Ipv4WireHeader` in memory.
unfoldable pub ipv4_wire_header : ℕ → ℕ → ℕ → ℕ → ℕ → List ℕ
ipv4_wire_header total_len ttl_proto checksum src_v4 dst_v4 =
    to_be_bytes16 0x4500
    ++ to_be_bytes16 total_len
    ++ to_be_bytes16 0
    ++ to_be_bytes16 0
    ++ to_be_bytes16 ttl_proto
    ++ to_be_bytes16 checksum
    ++ to_be_bytes32 src_v4
    ++ to_be_bytes32 dst_v4

-- The bytes of an `Ipv6WireHeader` in memory.
unfoldable pub ipv6_wire_header : ℕ → ℕ → List ℕ → List ℕ → List ℕ
ipv6_wire_header payload_len next_header src_v6 dst_v6 =
    to_be_bytes32 0x6000_0000
    ++ to_be_bytes16 payload_len
    ++ (next_header ∷ 64 ∷ [])
    ++ src_v6
    ++ dst_v6

-- The bytes of an `Ipv4PseudoHeader` and of an `Ipv6PseudoHeader` in memory.
unfoldable pub ipv4_pseudo_header : ℕ → ℕ → ℕ → ℕ → List ℕ
ipv4_pseudo_header src_v4 dst_v4 l4_len proto =
    to_be_bytes32 src_v4 ++ to_be_bytes32 dst_v4 ++ to_be_bytes16 proto ++ to_be_bytes16 l4_len

unfoldable pub ipv6_pseudo_header : List ℕ → List ℕ → ℕ → ℕ → List ℕ
ipv6_pseudo_header src_v6 dst_v6 l4_len next_header =
    src_v6 ++ dst_v6 ++ to_be_bytes32 l4_len ++ to_be_bytes32 next_header

-- The checksum of the header that is written, from its fields.
unfoldable pub ipv4_header_checksum : ℕ → ℕ → ℕ → ℕ → ℕ
ipv4_header_checksum total_len ttl_proto src_v4 dst_v4 =
    let sum = wrapping_add32 0 0x4500 in
    let sum = wrapping_add32 sum total_len in
    let sum = wrapping_add32 sum ttl_proto in
    let sum = wrapping_add32 sum (shr src_v4 16) in
    let sum = wrapping_add32 sum (low_bits src_v4 16) in
    let sum = wrapping_add32 sum (shr dst_v4 16) in
    let sum = wrapping_add32 sum (low_bits dst_v4 16) in not16 (fold_u32_fixed sum)

module _ (k : Kernel) where
  unfoldable pub load_u8 : k.Skb → ℕ → Option ℕ
  load_u8 skb offset = Option.map (λ bytes. byte_at bytes 0) (k.load skb offset 1)

  -- `ctx.load::<u16>` and `u16::from_be`, and the same of 32 bits.
  unfoldable pub load_be16 : k.Skb → ℕ → Option ℕ
  load_be16 skb offset = Option.map read_u16_be (k.load skb offset 2)

  unfoldable pub load_be32 : k.Skb → ℕ → Option ℕ
  load_be32 skb offset = Option.map read_u32_be (k.load skb offset 4)

  unfoldable pub write_ipv4_header : k.Skb → ℕ → ℕ → ℕ → ℕ → Option k.Skb
  write_ipv4_header skb payload_len src_v4 dst_v4 l4_proto =
      let total_len = payload_len + ipv4_hdr_len in
      let ttl_proto = bit_or (64 * 2 ^ 8) l4_proto in
      let checksum = ipv4_header_checksum total_len ttl_proto src_v4 dst_v4 in
      if ltb 65535 total_len
      then none
      else k.store skb eth_hdr_len (ipv4_wire_header total_len ttl_proto checksum src_v4 dst_v4)

  unfoldable pub write_ipv6_header : k.Skb → ℕ → ℕ → List ℕ → List ℕ → Option k.Skb
  write_ipv6_header skb payload_len next_header src_v6 dst_v6 =
      k.store skb eth_hdr_len (ipv6_wire_header payload_len next_header src_v6 dst_v6)

module _ {k : Kernel} where
  -- Counts in each of the two structures that is there.
  abbrev count_each : ProdCounter → DebugCounter → World k → World k
  count_each p d w = record w {
    prod = Option.map (bump_prod p) w.prod;
    debug = Option.map (bump_debug d) w.debug;
  }

  -- The four functions that count the outcome of a redirection.
  unfoldable pub count_redirect : Bool → Bool → World k → World k
  count_redirect true true w = count_each fwd_redirect_ok dbg_fwd_return_ok w
  count_redirect true false w = count_each fwd_redirect_err dbg_fwd_return_err w
  count_redirect false true w = count_each rev_redirect_ok dbg_rev_return_ok w
  count_redirect false false w = count_each rev_redirect_err dbg_rev_return_err w

  unfoldable pub redirect_to_iface : ℕ → Bool → World k → World k × ℕ
  redirect_to_iface ifindex forward w =
      if ifindex == 0
      then (count_redirect forward false w, k.tc_act_shot)
      else let action = k.redirect_neigh ifindex in
        (count_redirect forward (action == k.tc_act_redirect) w, action)
