-- ===== src/Userspace/Messages/Laws.antt =====
-- The numbers in the messages of natto64/src/error.rs.
use natto.Common.{
  ℕ, zero, suc, ◌/◌, ◌%◌, ◌^◌, ◌<◌, ◌≡◌, refl, ◌∙◌, ap, inl, inr, List, [], ◌∷◌, Bool-cases, true,
  ◌==◌, arith,
}
use native.Mathlib.Numerals.{unary_clauses}
use natto.Userspace.System.{Text}
use natto.Userspace.Interfaces.Laws.{chars, IsNumeral, value_from}
use natto.Userspace.Messages.{decimal_from, decimal}

-- The digits of `value`, in front of those of `ds`.
pub record Prints (value : ℕ) (ds : List ℕ) (printed : Text) : Type 0 where
  pub digits : List ℕ
  pub numeral : IsNumeral digits
  pub writes : printed ≡ chars digits
  pub reads : value_from 0 digits ≡ value_from value ds

power : (fuel value : ℕ) → value < 10 ^ suc fuel → value / 10 < 10 ^ fuel
power fuel value h = omega (arith, simp unary_clauses at h)

last_digit :
    (value : ℕ) (ds : List ℕ)
    → value < 10
    → IsNumeral ds
    → Prints value ds (chars (value % 10 ∷ ds))
last_digit value ds small numeral = record {
  digits = value % 10 ∷ ds;
  numeral = (omega arith, numeral);
  writes = refl;
  reads = ap (λ n. value_from n ds) (omega arith);
}

decimal_from-Prints :
    (fuel value : ℕ) (ds : List ℕ)
    → value < 10 ^ suc fuel
    → IsNumeral ds
    → Prints value ds (decimal_from (suc fuel) value (chars ds))
unfolding decimal_from
decimal_from-Prints zero value ds small numeral =
    let last : (value / 10 == 0) ≡ true = ground arith in
    rw (last, decimal_from) (last_digit value ds (omega arith) numeral)
decimal_from-Prints (suc fuel) value ds small numeral = elim (Bool-cases (value / 10 == 0)) [
  | inl last ↦ rw (last, decimal_from) (last_digit value ds (ground arith) numeral)
  | inr more ↦
      let p =
        decimal_from-Prints fuel (value / 10) (value % 10 ∷ ds) (power (suc fuel) value small)
          (omega arith, numeral) in
      rw (more, decimal_from)
        (record {
          digits = p.digits;
          numeral = p.numeral;
          writes = p.writes;
          reads = p.reads ∙ ap (λ n. value_from n ds) (omega arith);
        })
]

-- A number of up to 64 bits is printed as a decimal numeral that stands for it.
pub decimal-Prints : (value : ℕ) → value < 2 ^ 64 → Prints value [] (decimal value)
unfolding decimal
decimal-Prints value h = decimal_from-Prints 19 value [] (omega arith) tt
