-- ===== src/Xlat/Wire.antt =====
-- natto64-xlat/src/wire.rs: big-endian integers.
use natto.Common.{
  ℕ, ◌^◌, ◌<◌, ◌≡◌, List, [], ◌∷◌, arith, byte_at, to_be_bytes16, to_be_bytes32, from_be_bytes16,
  from_be_bytes32,
}

unfoldable pub read_u16_be : List ℕ → ℕ
read_u16_be bytes = from_be_bytes16 (byte_at bytes 0) (byte_at bytes 1)

unfoldable pub read_u32_be : List ℕ → ℕ
read_u32_be bytes =
    from_be_bytes32 (byte_at bytes 0) (byte_at bytes 1) (byte_at bytes 2) (byte_at bytes 3)

unfoldable pub write_u16_be : ℕ → List ℕ
write_u16_be v = to_be_bytes16 v

unfoldable pub write_u32_be : ℕ → List ℕ
write_u32_be v = to_be_bytes32 v

-- A 16-bit and a 32-bit integer read back from the bytes that are written for them.
pub read-write :
    (v w : ℕ)
    → v < 2 ^ 16
    → w < 2 ^ 32
    → (read_u16_be (write_u16_be v) ≡ v) × (read_u32_be (write_u32_be w) ≡ w)
unfolding read_u16_be write_u16_be read_u32_be write_u32_be
read-write v w hv hw = omega arith

-- Every two bytes and every four bytes are those written for the integer read from them.
pub write-read :
    (a b c d : ℕ)
    → a < 256
    → b < 256
    → c < 256
    → d < 256
    → (write_u16_be (read_u16_be (a ∷ b ∷ [])) ≡ a ∷ b ∷ [])
      × (write_u32_be (read_u32_be (a ∷ b ∷ c ∷ d ∷ [])) ≡ a ∷ b ∷ c ∷ d ∷ [])
unfolding read_u16_be write_u16_be read_u32_be write_u32_be
write-read a b c d ha hb hc hd = ground arith
