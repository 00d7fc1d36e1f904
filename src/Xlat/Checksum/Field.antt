-- ===== src/Xlat/Checksum/Field.antt =====
-- The two bytes of a checksum field within a segment: cleared, and filled with a value.
use natto.Common.{
  ℕ, zero, suc, ◌+◌, ◌/◌, ◌%◌, ◌<◌, ◌≡◌, refl, ◌∙◌, ap, List, [], ◌∷◌, ◌++◌, arith, length, set,
  from_be_bytes16, u8,
}
use natto.Xlat.Checksum.Words.{IsBytes, word_sum, cleared}

pub length-cleared : (field i : ℕ) (bytes : List ℕ) → length (cleared field i bytes) ≡ length bytes
unfolding cleared
length-cleared field i [] = refl
length-cleared field i (b ∷ rest) = ap suc (length-cleared field (i + 1) rest)

pub cleared-IsBytes :
    (field i : ℕ) (bytes : List ℕ) → IsBytes bytes → IsBytes (cleared field i bytes)
unfolding cleared
cleared-IsBytes field i [] h = tt
cleared-IsBytes field i (b ∷ rest) h = (ground arith, cleared-IsBytes field (i + 1) rest h.1)

cleared_past : (field i : ℕ) (bytes : List ℕ) → field + 1 < i → cleared field i bytes ≡ bytes
unfolding cleared
cleared_past field i [] h = refl
cleared_past field i (b ∷ rest) h = ground (arith, cleared_past field (i + 1) rest)

pub word_sum-append :
    (xs ys : List ℕ) → length xs % 2 ≡ 0 → word_sum (xs ++ ys) ≡ word_sum xs + word_sum ys
unfolding word_sum
word_sum-append [] ys h = omega arith
word_sum-append (x ∷ []) ys h = absurd (omega arith)
word_sum-append (hi ∷ lo ∷ rest) ys h = omega (arith, word_sum-append rest ys (omega arith))

-- `segment[field..field + 2].copy_from_slice(&checksum.to_be_bytes())`.
unfoldable pub filled : ℕ → ℕ → List ℕ → List ℕ
filled field checksum bytes = set (set bytes field (u8 (checksum / 256))) (field + 1) (u8 checksum)

module _ (a b : ℕ) where
  word_sum-set :
      (k i field : ℕ) (bytes : List ℕ)
      → field ≡ i + k
      → k % 2 ≡ 0
      → k + 1 < length bytes
      → word_sum (set (set bytes k a) (k + 1) b)
        ≡ word_sum (cleared field i bytes) + from_be_bytes16 a b
  unfolding word_sum cleared
  word_sum-set zero i field [] e p h = absurd (omega arith)
  word_sum-set zero i field (x ∷ []) e p h = absurd (omega arith)
  word_sum-set zero i field (hi ∷ lo ∷ rest) e p h =
      ground (arith, cleared_past field (i + 1 + 1) rest)
  word_sum-set (suc zero) i field bytes e p h = absurd (omega arith)
  word_sum-set (suc (suc k)) i field [] e p h = absurd (omega arith)
  word_sum-set (suc (suc k)) i field (x ∷ []) e p h = absurd (omega arith)
  word_sum-set (suc (suc k)) i field (hi ∷ lo ∷ rest) e p h =
      let next : suc (suc k) + 1 ≡ suc (suc (k + 1)) = omega arith in
      rw next (
        ground
          (arith, word_sum-set k (i + 1 + 1) field rest (omega arith) (omega arith) (omega arith)))

pub word_sum-filled :
    (field checksum : ℕ) (bytes : List ℕ)
    → field % 2 ≡ 0
    → field + 1 < length bytes
    → checksum < 65536
    → word_sum (filled field checksum bytes) ≡ word_sum (cleared field 0 bytes) + checksum
unfolding filled
word_sum-filled field checksum bytes p h c =
    word_sum-set (u8 (checksum / 256)) (u8 checksum) field 0 field bytes (omega arith) p h
    ∙ omega arith
