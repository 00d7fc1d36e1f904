-- ===== src/Ebpf/Update/Sums.antt =====
-- The sums behind the checksums that natto64-ebpf/src/lib.rs updates in place.
use natto.Common.{
  ℕ, zero, suc, ◌+◌, ◌*◌, ◌%◌, ◌≤◌, ◌<◌, ◌≡◌, refl, ◌∙◌, ap, ap₂, sym, List, [], ◌∷◌, ◌++◌, arith,
  length, take, drop, splice, byte_at, length-append, to_be_bytes16,
}
use natto.Xlat.Checksum.{checksum16}
use natto.Xlat.Checksum.Fold.{residue}
use natto.Xlat.Checksum.Words.{IsBytes, word_sum, checksum16-residue}
use natto.Ebpf.Packet.{to_be16}
use natto.Ebpf.Update.{le_sum}

-- A sum in the order of the machine is one in the order of the wire with its bytes exchanged.
pub le_sum-word_sum : (bytes : List ℕ) → le_sum bytes % 65535 ≡ (256 * word_sum bytes) % 65535
unfolding le_sum word_sum
le_sum-word_sum [] = refl
le_sum-word_sum (last ∷ []) = omega arith
le_sum-word_sum (lo ∷ hi ∷ rest) = omega (arith, le_sum-word_sum rest)

pub le_sum-append : (xs ys : List ℕ) → length xs % 2 ≡ 0 → le_sum (xs ++ ys) ≡ le_sum xs + le_sum ys
unfolding le_sum
le_sum-append [] ys h = omega arith
le_sum-append (x ∷ []) ys h = absurd (omega arith)
le_sum-append (lo ∷ hi ∷ rest) ys h = omega (arith, le_sum-append rest ys (omega arith))

pub le_sum-port : (port : ℕ) → port < 65536 → le_sum (to_be_bytes16 port) ≡ to_be16 port
unfolding le_sum
le_sum-port port h = omega arith

-- A packet verifies when the sum of its words is a multiple of 65535, but not zero.
pub verifies :
    (bytes : List ℕ)
    → IsBytes bytes
    → length bytes ≤ 131070
    → 0 < word_sum bytes
    → le_sum bytes % 65535 ≡ 0
    → checksum16 bytes ≡ 0xffff
unfolding residue
verifies bytes h len positive zero_sum =
    ground (arith, checksum16-residue bytes h len, le_sum-word_sum bytes)

pub verified :
    (bytes : List ℕ)
    → IsBytes bytes
    → length bytes ≤ 131070
    → checksum16 bytes ≡ 0xffff
    → le_sum bytes % 65535 ≡ 0
unfolding residue
verified bytes h len good = ground (arith, checksum16-residue bytes h len, le_sum-word_sum bytes)

module _ {ℓ} {A : Type ℓ} where
  pub take-append : (xs ys : List A) → take (length xs) (xs ++ ys) ≡ xs
  take-append [] ys = refl
  take-append (x ∷ xs) ys = ap (◌∷◌ x) (take-append xs ys)

  pub drop-append : (xs ys : List A) (n : ℕ) → n ≡ length xs → drop n (xs ++ ys) ≡ ys
  drop-append [] ys zero h = refl
  drop-append [] ys (suc n) h = absurd (omega arith)
  drop-append (x ∷ xs) ys zero h = absurd (omega arith)
  drop-append (x ∷ xs) ys (suc n) h = drop-append xs ys n (omega arith)

  pub append_assoc : (xs ys zs : List A) → (xs ++ ys) ++ zs ≡ xs ++ (ys ++ zs)
  append_assoc [] ys zs = refl
  append_assoc (x ∷ xs) ys zs = ap (◌∷◌ x) (append_assoc xs ys zs)

  -- A write of the size of what stands there.
  pub splice-append :
      (xs old new zs : List A) (i : ℕ)
      → i ≡ length xs
      → length new ≡ length old
      → splice (xs ++ (old ++ zs)) i new ≡ xs ++ (new ++ zs)
  splice-append xs old new zs i here same = rw here (
      ap₂ (λ a b. a ++ (new ++ b)) (take-append xs (old ++ zs))
        (ap (drop (length xs + length new)) (sym (append_assoc xs old zs))
          ∙ drop-append (xs ++ old) zs _ (omega (arith, length-append xs old))))

pub byte_at-append :
    (xs ys : List ℕ) (i j : ℕ) → i ≡ length xs + j → byte_at (xs ++ ys) i ≡ byte_at ys j
byte_at-append [] ys i j h = ap (byte_at ys) (omega arith)
byte_at-append (x ∷ xs) ys zero j h = absurd (omega arith)
byte_at-append (x ∷ xs) ys (suc i) j h = byte_at-append xs ys i j (omega arith)
