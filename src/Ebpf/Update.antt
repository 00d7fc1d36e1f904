-- ===== src/Ebpf/Update.antt =====
-- What the helpers of the kernel that natto64-ebpf/src/lib.rs updates a checksum with do to the bytes
-- of a packet.
pub mod Sums
pub mod Delta
pub mod Segment
pub mod Verify
pub mod Forward
pub mod Reply
pub mod Reverse
pub mod Frame
pub mod Classifier
use natto.Common.{
  ℕ, ◌+◌, ◌*◌, ◌%◌, ◌<◌, ◌≡◌, ◌⊎◌, List, [], ◌∷◌, ◌++◌, Option, some, not16, splice, take, drop,
  length, byte_at,
}
use natto.Ebpf.Kernel.{Kernel}
use natto.Ebpf.Packet.{to_be16}

-- The sum of the 16-bit words of `bytes` as a little-endian machine reads them.
unfoldable pub le_sum : List ℕ → ℕ
le_sum [] = 0
le_sum (last ∷ []) = last
le_sum (lo ∷ hi ∷ rest) = lo + hi * 256 + le_sum rest

-- The two bytes at `offset` have changed so that the sum that their complement stands for has grown
-- by `to` and shrunk by `from`.
pub record IsReplaced (before after : List ℕ) (offset from to : ℕ) : Type 0 where
  pub lo : ℕ
  pub hi : ℕ
  pub lo_byte : lo < 256
  pub hi_byte : hi < 256
  pub same_rest : after ≡ splice before offset (lo ∷ hi ∷ [])
  pub sums :
      (not16 (lo + hi * 256) + from) % 65535
      ≡ (not16 (byte_at before offset + byte_at before (offset + 1) * 256) + to) % 65535

-- What is documented of the helpers, for a packet whose checksum is complete: one that the sender has
-- computed in full, and that no device is to finish.
pub record IsPacketKernel (k : Kernel) (bytes : k.Skb → List ℕ) (IsComplete : k.Skb → Type 0)
    : Type 0 where
  pub loads :
      (skb : k.Skb) (offset n : ℕ) {loaded : List ℕ}
      → k.load skb offset n ≡ some loaded
      → loaded ≡ take n (drop offset (bytes skb))
  pub bytes-store :
      (skb : k.Skb) (offset : ℕ) (new : List ℕ) {skb' : k.Skb}
      → k.store skb offset new ≡ some skb'
      → bytes skb' ≡ splice (bytes skb) offset new
  pub store-IsComplete :
      (skb : k.Skb) (offset : ℕ) (new : List ℕ) {skb' : k.Skb}
      → k.store skb offset new ≡ some skb'
      → IsComplete skb
      → IsComplete skb'
  -- From IPv4 to IPv6, 20 bytes of room are made behind the Ethernet header; the other way, the
  -- packet loses as many there.
  pub grows :
      (skb : k.Skb) {skb' : k.Skb}
      → k.change_proto skb (to_be16 0x86dd) ≡ some skb'
      → (room : List ℕ) × (length room ≡ 20)
        × (bytes skb' ≡ take 14 (bytes skb) ++ room ++ drop 14 (bytes skb))
  pub shrinks :
      (skb : k.Skb) {skb' : k.Skb}
      → k.change_proto skb (to_be16 0x0800) ≡ some skb'
      → bytes skb' ≡ take 14 (bytes skb) ++ drop 34 (bytes skb)
  pub change_proto-IsComplete :
      (skb : k.Skb) (proto : ℕ) {skb' : k.Skb}
      → k.change_proto skb proto ≡ some skb'
      → IsComplete skb
      → IsComplete skb'
  pub csum_diff-sums :
      (old new : List ℕ) {diff : ℕ}
      → k.csum_diff old new ≡ some diff
      → (diff + le_sum old) % 65535 ≡ le_sum new % 65535
  -- With a size of two bytes in the flags, or with a difference and none.
  pub replaces :
      (skb : k.Skb) (offset from to flags : ℕ) {skb' : k.Skb}
      → k.l4_csum_replace skb offset from to flags ≡ some skb'
      → (flags ≡ 2) ⊎ (flags ≡ k.bpf_f_pseudo_hdr) × (from ≡ 0)
      → IsComplete skb
      → IsReplaced (bytes skb) (bytes skb') offset from to × IsComplete skb'
