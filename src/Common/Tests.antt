-- ===== src/Common/Tests.antt =====
-- Boolean tests on the native numbers, and the conditional.
use Prim.Native.Nat.{ℕ, zero, suc, ◌≤◌, compare, Ordering}
use mathlib.Core.Path.{◌≡◌, refl}
use mathlib.Core.Logic.{◌↔◌, ◌⊎◌, inl, inr}
use mathlib.Core.Bool.{Bool, true, false, ◌||◌}
use mathlib.Core.Option.{Option, none, some}
use native.Mathlib.Decide.{dec_le}
use native.Mathlib.Omega.{arith}

abbrev pub ltb : ℕ → ℕ → Bool
ltb a b = elim (compare a b) [ Ordering.lt ↦ true | _ ↦ false ]

abbrev pub leb : ℕ → ℕ → Bool
leb a b = elim (compare a b) [ Ordering.gt ↦ false | _ ↦ true ]

infix 50 ◌==◌
abbrev pub ◌==◌ : ℕ → ℕ → Bool
a == b = elim (compare a b) [ Ordering.eq ↦ true | _ ↦ false ]

infix 1 if◌then◌else◌
abbrev pub if◌then◌else◌ {ℓ} : {A : Type ℓ} → Bool → A → A → A
if true then x else y = x
if false then x else y = y

pub ==_iff : (a b : ℕ) → ((a == b) ≡ true) ↔ (a ≡ b)
==_iff a b = ground arith

pub ==_refl : (a : ℕ) → (a == a) ≡ true
==_refl a = ground arith

pub Bool-cases : (b : Bool) → (b ≡ true) ⊎ (b ≡ false)
Bool-cases true = inl refl
Bool-cases false = inr refl

pub Option-cases {ℓ} : {A : Type ℓ} (o : Option A) → (o ≡ none) ⊎ ((a : A) × (o ≡ some a))
Option-cases none = inl refl
Option-cases (some a) = inr (a, refl)

pub Sum-cases {ℓ κ} :
    {A : Type ℓ} {B : Type κ} (c : A ⊎ B) → ((a : A) × (c ≡ inl a)) ⊎ ((b : B) × (c ≡ inr b))
Sum-cases (inl a) = inl (a, refl)
Sum-cases (inr b) = inr (b, refl)

abbrev pub is_some {ℓ} : {A : Type ℓ} → Option A → Bool
is_some none = false
is_some (some a) = true

-- Some test at `0`, …, `n` passes, as a chain of `||`.
unfoldable pub any_upto : (ℕ → Bool) → ℕ → Bool
any_upto p zero = p 0
any_upto p (suc n) = any_upto p n || p (suc n)

pub any_upto-witness :
    (p : ℕ → Bool) (n : ℕ) → any_upto p n ≡ true → (k : ℕ) × (k ≤ n) × (p k ≡ true)
unfolding any_upto
any_upto-witness p zero h = (0, omega arith, h)
any_upto-witness p (suc n) h = elim (Bool-cases (any_upto p n)) [
  | inl before ↦ let (k, below, e) = any_upto-witness p n before in (k, omega arith, e)
  | inr not_before ↦ (suc n, omega arith, ground arith)
]

pub any_upto_at : (p : ℕ → Bool) (n k : ℕ) → k ≤ n → p k ≡ true → any_upto p n ≡ true
unfolding any_upto
any_upto_at p zero k h e = let same : k ≡ 0 = omega arith in ground arith
any_upto_at p (suc n) k h e = elim (dec_le k n) [
  | yes below ↦ ground (arith, any_upto_at p n k)
  | no above ↦ let same : k ≡ suc n = omega arith in ground arith
]

infixl 1 ◌>>=◌
abbrev pub ◌>>=◌ {ℓ κ} : {A : Type ℓ} {B : Type κ} → Option A → (A → Option B) → Option B
none >>= f = none
some a >>= f = f a

pub none-ne-some {ℓ} : {A : Type ℓ} {a : A} → none ≡ some a → ⊥
none-ne-some h = cc
