-- ===== src/Common/Word.antt =====
-- Machine integers as native numbers: casts, wrapping and saturating operations, bytes.
use Prim.Native.Nat.{ℕ, ◌+◌, ◌-◌, ◌*◌, ◌/◌, ◌%◌, ◌^◌, min}
use mathlib.Core.List.{List, [], ◌∷◌}
use natto.Common.Lists.{get_or}

abbrev pub u8 : ℕ → ℕ
u8 n = n % 2 ^ 8

abbrev pub u16 : ℕ → ℕ
u16 n = n % 2 ^ 16

abbrev pub u32 : ℕ → ℕ
u32 n = n % 2 ^ 32

abbrev pub u64_max : ℕ
u64_max = 18_446_744_073_709_551_615

-- `x >> k` and `x & (2^k - 1)`.
abbrev pub shr : ℕ → ℕ → ℕ
shr x k = x / 2 ^ k

abbrev pub low_bits : ℕ → ℕ → ℕ
low_bits x k = x % 2 ^ k

-- `u32::wrapping_add` and `u32::wrapping_mul`.
abbrev pub wrapping_add32 : ℕ → ℕ → ℕ
wrapping_add32 a b = u32 (a + b)

abbrev pub wrapping_mul32 : ℕ → ℕ → ℕ
wrapping_mul32 a b = u32 (a * b)

-- `!x` on a `u16`.
abbrev pub not16 : ℕ → ℕ
not16 x = 65535 - x

-- The `u64` operations; `saturating_sub` is the subtraction of ℕ.
abbrev pub saturating_add : ℕ → ℕ → ℕ
saturating_add a b = min (a + b) u64_max

abbrev pub saturating_mul : ℕ → ℕ → ℕ
saturating_mul a b = min (a * b) u64_max

-- Big-endian bytes.
abbrev pub to_be_bytes16 : ℕ → List ℕ
to_be_bytes16 v = u8 (v / 256) ∷ u8 v ∷ []

abbrev pub to_be_bytes32 : ℕ → List ℕ
to_be_bytes32 v = u8 (v / 16777216) ∷ u8 (v / 65536) ∷ u8 (v / 256) ∷ u8 v ∷ []

abbrev pub from_be_bytes16 : ℕ → ℕ → ℕ
from_be_bytes16 hi lo = hi * 256 + lo

abbrev pub from_be_bytes32 : ℕ → ℕ → ℕ → ℕ → ℕ
from_be_bytes32 a b c d = a * 16777216 + b * 65536 + c * 256 + d

-- Byte `i` of an array.
abbrev pub byte_at : List ℕ → ℕ → ℕ
byte_at bytes i = get_or bytes i 0
