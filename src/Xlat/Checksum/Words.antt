-- ===== src/Xlat/Checksum/Words.antt =====
-- The word sums of natto64-xlat/src/checksum.rs against a plain sum that does not wrap.
use natto.Common.{
  ℕ, ◌+◌, ◌*◌, ◌%◌, ◌^◌, ◌≤◌, ◌<◌, ◌≡◌, refl, ◌∙◌, ap, List, [], ◌∷◌, arith, length, ◌==◌,
  if◌then◌else◌, from_be_bytes16,
}
use natto.Xlat.Checksum.{fold_sum, sum_words, checksum16_with_seed, checksum16, sum_segment}
use natto.Xlat.Checksum.Fold.{residue, fold_sum-residue}

abbrev pub IsBytes : List ℕ → Type 0
IsBytes [] = Unit {0}
IsBytes (b ∷ bs) = (b < 256) × IsBytes bs

-- The sum of the big-endian 16-bit words of `bytes`, an odd last byte padded by zero.
unfoldable pub word_sum : List ℕ → ℕ
word_sum [] = 0
word_sum (last ∷ []) = from_be_bytes16 last 0
word_sum (hi ∷ lo ∷ rest) = from_be_bytes16 hi lo + word_sum rest

-- A word is at most 65535, so `n` bytes sum to at most 65535 for each pair begun.
pub word_sum-le : (bytes : List ℕ) → IsBytes bytes → 2 * word_sum bytes ≤ 65535 * (length bytes + 1)
unfolding word_sum
word_sum-le [] h = omega arith
word_sum-le (last ∷ []) h = omega arith
word_sum-le (hi ∷ lo ∷ rest) h = omega (arith, word_sum-le rest h.1.1)

pub sum_words-word_sum :
    (bytes : List ℕ) (sum : ℕ)
    → sum + word_sum bytes < 2 ^ 32
    → sum_words bytes sum ≡ sum + word_sum bytes
unfolding word_sum sum_words
sum_words-word_sum [] sum h = omega arith
sum_words-word_sum (last ∷ []) sum h = omega arith
sum_words-word_sum (hi ∷ lo ∷ rest) sum h =
    omega (arith, sum_words-word_sum rest ((sum + from_be_bytes16 hi lo) % 2 ^ 32) (omega arith))

-- Where the 32-bit accumulator does not overflow, the checksum of `bytes` is the
-- one's-complement value of the plain sum of their words and the seed.
pub checksum16_with_seed-residue :
    (bytes : List ℕ) (seed : ℕ)
    → seed + word_sum bytes < 2 ^ 32
    → checksum16_with_seed bytes seed ≡ residue (seed + word_sum bytes)
unfolding checksum16_with_seed
checksum16_with_seed-residue bytes seed h =
    ap fold_sum (sum_words-word_sum bytes seed h) ∙ fold_sum-residue (seed + word_sum bytes)

-- For up to 131070 bytes the 32-bit accumulator does not overflow, and the checksum is the
-- one's-complement value of the sum of the big-endian words.
pub checksum16-residue :
    (bytes : List ℕ)
    → IsBytes bytes
    → length bytes ≤ 131070
    → checksum16 bytes ≡ residue (word_sum bytes)
unfolding checksum16
checksum16-residue bytes h len =
    checksum16_with_seed-residue bytes 0 (omega (arith, word_sum-le bytes h))
    ∙ ap residue (omega arith)

-- The bytes with the two bytes at `field` cleared, where `bytes` begins at index `i`.
unfoldable pub cleared : ℕ → ℕ → List ℕ → List ℕ
cleared field i [] = []
cleared field i (b ∷ rest) =
    (if i == field then 0 else if i == field + 1 then 0 else b) ∷ cleared field (i + 1) rest

module _ (field : ℕ) where
  hi_byte :
      (i hi : ℕ)
      → i % 2 ≡ field % 2
      → (if i == field then 0 else if i == field + 1 then 0 else hi)
        ≡ (if i == field then 0 else hi)
  hi_byte i hi h = ground arith

  lo_byte :
      (i lo : ℕ)
      → i % 2 ≡ field % 2
      → (if i + 1 == field then 0 else if i + 1 == field + 1 then 0 else lo)
        ≡ (if i + 1 == field + 1 then 0 else lo)
  lo_byte i lo h = ground arith

  -- At an even distance from the checksum field the segment loop sums the cleared bytes.
  pub sum_segment-cleared :
      (i : ℕ) (bytes : List ℕ) (sum : ℕ)
      → i % 2 ≡ field % 2
      → sum_segment field i bytes sum ≡ sum_words (cleared field i bytes) sum
  unfolding sum_segment cleared sum_words
  sum_segment-cleared i [] sum h = refl
  sum_segment-cleared i (last ∷ []) sum h = rw (hi_byte i last h)
  sum_segment-cleared i (hi ∷ lo ∷ rest) sum h =
      let e : i + 1 + 1 ≡ i + 2 = omega arith in
      rw (e, hi_byte i hi h, lo_byte i lo h) (sum_segment-cleared (i + 2) rest _ (omega arith))
