-- ===== src/Tests/Summing.antt =====
-- A kernel whose packet helpers sum, for concrete runs.
use natto.Common.{
  none-ne-some, ℕ, ◌+◌, ◌-◌, ◌*◌, ◌/◌, ◌%◌, ◌≡◌, refl, sym, List, [], ◌∷◌, Bool-cases, inl, inr,
  some, arith, leb, length, byte_at, not16, splice, replicate, take, drop,
}
use mathlib.Core.Option.{some-injective}
use natto.Ebpf.Kernel.{Kernel}
use natto.Ebpf.Update.{le_sum, IsPacketKernel}
use natto.Tests.Machine.{machine}

-- The complement of a checksum after an update.
abbrev complement : List ℕ → ℕ → ℕ → ℕ → ℕ
complement skb offset from to =
    (not16 (byte_at skb offset + byte_at skb (offset + 1) * 256) + to + 65534 * from) % 65535

-- The kernel of the other runs, with sums.
abbrev pub summing : Kernel
summing = record machine {
  csum_diff = λ old new. some (le_sum new + 65534 * le_sum old);
  l4_csum_replace = λ skb offset from to flags.
      let check = 65535 - complement skb offset from to in
      some (splice skb offset (check % 256 ∷ check / 256 ∷ []));
}

abbrev pub All : List ℕ → Type 0
All skb = Unit {0}

some-eq {ℓ} : {A : Type ℓ} {a b : A} → some a ≡ some b → a ≡ b
some-eq h = some-injective _ _ h

stored :
    (skb : List ℕ) (offset : ℕ) (new : List ℕ) {skb' : List ℕ}
    → summing.store skb offset new ≡ some skb'
    → skb' ≡ splice skb offset new
stored skb offset new h = elim (Bool-cases (leb (offset + length new) (length skb))) [
  | inl e ↦ sym (some-eq (rw e at h))
  | inr e ↦ absurd (none-ne-some (rw e at h))
]

loaded :
    (skb : List ℕ) (offset n : ℕ) {bytes : List ℕ}
    → summing.load skb offset n ≡ some bytes
    → bytes ≡ take n (drop offset skb)
loaded skb offset n h = elim (Bool-cases (leb (offset + n) (length skb))) [
  | inl e ↦ sym (some-eq (rw e at h))
  | inr e ↦ absurd (none-ne-some (rw e at h))
]

pub summing-IsPacketKernel : IsPacketKernel summing (λ skb. skb) All
summing-IsPacketKernel = record {
  loads = loaded;
  bytes-store = stored;
  store-IsComplete = λ skb offset new e c. tt;
  grows = λ skb e. (replicate 20 0, refl, sym (some-eq e));
  shrinks = λ skb e. sym (some-eq e);
  change_proto-IsComplete = λ skb proto e c. tt;
  csum_diff-sums = λ old new {diff} e. omega (arith, some-eq e);
  replaces = λ skb offset from to flags {skb'} e kind c.
      let n = complement skb offset from to in
      (
        record {
          lo = (65535 - n) % 256;
          hi = (65535 - n) / 256;
          lo_byte = omega arith;
          hi_byte = omega arith;
          same_rest = sym (some-eq e);
          sums = omega arith;
        },
        tt,
      );
}
