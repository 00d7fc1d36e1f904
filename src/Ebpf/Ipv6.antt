-- ===== src/Ebpf/Ipv6.antt =====
-- natto64-ebpf/src/ipv6.rs: the parser of the IPv6 base header.
pub mod Parse
use natto.Common.{ℕ, ◌+◌, List, ◌++◌, Bool, ◌||◌, Option, none, some, ◌==◌, ◌>>=◌, to_be_bytes32}
use natto.Ebpf.Kernel.{Kernel}
use natto.Ebpf.Packet.{load_u8, load_be16, load_be32}

abbrev pub ipv6_base_hdr_len : ℕ
ipv6_base_hdr_len = 40

pub record Ipv6Info : Type 0 where
  pub src : List ℕ
  pub dst : List ℕ
  pub next_header : ℕ
  pub payload_len : ℕ
  pub l4_abs_offset : ℕ

unfoldable pub is_extension_header : ℕ → Bool
is_extension_header next_header =
    next_header == 0
    || next_header == 43
    || next_header == 44
    || next_header == 60
    || next_header == 50
    || next_header == 51

unfoldable pub ipv6_from_be_words : ℕ → ℕ → ℕ → ℕ → List ℕ
ipv6_from_be_words w0 w1 w2 w3 =
    to_be_bytes32 w0 ++ to_be_bytes32 w1 ++ to_be_bytes32 w2 ++ to_be_bytes32 w3

module _ (k : Kernel) where
  -- The four words of an address.
  abbrev pub load_address : k.Skb → ℕ → Option (List ℕ)
  load_address skb offset = do
    w0 ← load_be32 k skb offset
    w1 ← load_be32 k skb (offset + 4)
    w2 ← load_be32 k skb (offset + 8)
    w3 ← load_be32 k skb (offset + 12)
    some (ipv6_from_be_words w0 w1 w2 w3)

  -- `none` is the error `Truncated`, the only one.
  unfoldable pub parse_ipv6_base : k.Skb → ℕ → Option Ipv6Info
  parse_ipv6_base skb l3_offset = do
    payload_len ← load_be16 k skb (l3_offset + 4)
    next_header ← load_u8 k skb (l3_offset + 6)
    src ← load_address skb (l3_offset + 8)
    dst ← load_address skb (l3_offset + 24)
    some (record {
      src = src;
      dst = dst;
      next_header = next_header;
      payload_len = payload_len;
      l4_abs_offset = l3_offset + ipv6_base_hdr_len;
    })
