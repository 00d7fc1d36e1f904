-- ===== src/Xlat/Checksum/Fold.antt =====
-- The folding loop of natto64-xlat/src/checksum.rs in closed form.
use natto.Common.{
  ℕ, ◌+◌, ◌-◌, ◌%◌, ◌≤◌, ◌<◌, ◌≡◌, ◌∙◌, Acc, lt_wf, dec_lt, arith, ◌==◌, if◌then◌else◌, not16, shr,
}
use native.Mathlib.Bridge.{le_prop}
use mathlib.Core.Logic.{dif_pos, dif_neg}
use natto.Xlat.Checksum.{fold_round, fold_rounds, fold_sum}

-- The one's-complement value of a sum: its residue modulo 65535 in 1 … 65535, and 0 for 0 alone.
unfoldable pub residue : ℕ → ℕ
residue sum = if sum == 0 then 0 else (sum - 1) % 65535 + 1

residue-fold_round : (sum : ℕ) → 65536 ≤ sum → residue (fold_round sum) ≡ residue sum
unfolding residue
residue-fold_round sum h = ground arith

residue_small : (sum : ℕ) → sum < 65536 → residue sum ≡ sum
unfolding residue
residue_small sum h = ground arith

fold_rounds-residue : (sum : ℕ) (w : Acc ◌<◌ sum) → fold_rounds sum w ≡ residue sum
unfolding fold_rounds
fold_rounds-residue sum (Acc.intro _ smaller) = elim (dec_lt 0 (shr sum 16)) [
  | yes h ↦
      dif_pos (dec_lt 0 (shr sum 16)) le_prop h _ _
      ∙ fold_rounds-residue (fold_round sum) (smaller _ (omega arith))
      ∙ residue-fold_round sum (omega arith)
  | no h ↦ dif_neg (dec_lt 0 (shr sum 16)) h _ _ ∙ omega (arith, residue_small sum (omega arith))
]

-- The folding loop ends for every accumulator and returns the one's-complement value of the sum:
-- 0 for 0, and otherwise the number in 1 … 65535 that is congruent to the sum modulo 65535.
pub fold_sum-residue : (sum : ℕ) → fold_sum sum ≡ residue sum
unfolding fold_sum
fold_sum-residue sum = fold_rounds-residue sum (lt_wf.apply sum)

pub fold_sum-lt : (sum : ℕ) → fold_sum sum < 65536
unfolding residue
fold_sum-lt sum = ground (arith, fold_sum-residue sum)

pub fold_sum-add_fold : (a b : ℕ) → fold_sum (fold_sum a + b) ≡ fold_sum (a + b)
unfolding residue
fold_sum-add_fold a b =
    ground (arith, fold_sum-residue a, fold_sum-residue (a + b), fold_sum-residue (fold_sum a + b))

-- A sum to which the complement of its fold is added folds to 0xffff.
pub fold_sum-complement : (sum : ℕ) → fold_sum (sum + not16 (fold_sum sum)) ≡ 65535
unfolding residue
fold_sum-complement sum =
    ground (arith, fold_sum-residue sum, fold_sum-residue (sum + not16 (fold_sum sum)))
