-- ===== src/Userspace/Dataplane/Rules.antt =====
-- How a statement about a method of natto64/src/lib.rs follows from its parts.
use natto.Common.{◌≡◌, refl, Bool, true, false, Option, none, some, if◌then◌else◌}
use natto.Userspace.System.{System}
use natto.Userspace.Error.{Error, Result, ok, err}
use natto.Userspace.Dataplane.{Runtime, M, ◌>>=◌, ok_or}

module _ {s : System} where
  result_rule {ℓ κ} :
      {A : Type ℓ} {B : Type κ} (P : Runtime s × Result s B → Type 0) (f : A → M s B)
      (v : Runtime s) (a : Result s A)
      → ((x : A) → a ≡ ok x → P (f x v))
      → ((e : Error s) → a ≡ err e → P (v, err e))
      → P (elim a [ ok x ↦ f x v | err e ↦ (v, err e) ])
  result_rule P f v (ok x) good bad = good x refl
  result_rule P f v (err e) good bad = bad e refl

  pub bind_rule {ℓ κ} :
      {A : Type ℓ} {B : Type κ} (P : Runtime s × Result s B → Type 0) (m : M s A) (f : A → M s B)
      (r : Runtime s)
      → ((x : A) → (m r).1 ≡ ok x → P (f x (m r).0))
      → ((e : Error s) → (m r).1 ≡ err e → P ((m r).0, err e))
      → P ((m >>= f) r)
  bind_rule P m f r good bad = result_rule P f (m r).0 (m r).1 good bad

  pub if_rule {κ} :
      {B : Type κ} (P : Runtime s × Result s B → Type 0) (b : Bool) (m n : M s B) (r : Runtime s)
      → (b ≡ true → P (m r))
      → (b ≡ false → P (n r))
      → P ((if b then m else n) r)
  if_rule P true m n r yes_case no_case = yes_case refl
  if_rule P false m n r yes_case no_case = no_case refl

  pub ok_or-ok {ℓ} :
      {A : Type ℓ} (o : Option A) (e : Error s) {a : A} → ok_or o e ≡ ok a → o ≡ some a
  ok_or-ok none e h = cc
  ok_or-ok (some a) e h = cc
