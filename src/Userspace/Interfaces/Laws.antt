-- ===== src/Userspace/Interfaces/Laws.antt =====
-- Which index natto64/src/lib.rs reads for an interface.
use mathlib.Core.Path.{subst}
use natto.Common.{
  ℕ, ◌+◌, ◌*◌, ◌-◌, ◌≤◌, ◌<◌, ◌≡◌, ◌≢◌, refl, ◌∙◌, ap, ap₂, inl, inr, List, [], ◌∷◌, ◌++◌, true,
  false, not, ◌&&◌, ltb, leb, ◌==◌, if◌then◌else◌, Bool-cases, ==_iff, arith,
}
use natto.Userspace.System.{System, Text}
use natto.Userspace.Error.{pos_overflow, ok, err, invalid_interface_name, parse_interface_index}
use natto.Userspace.Interfaces.{
  codes, contains, join, is_whitespace, trim_start, trim_end, trim, parse_digits, parse_u32,
  is_empty, is_dot, is_dot_dot, is_invalid, index_path, interface_index,
}

-- A decimal numeral, by its digits, and the number that it stands for.
abbrev pub IsNumeral : List ℕ → Type 0
IsNumeral [] = Unit {0}
IsNumeral (d ∷ ds) = (d < 10) × IsNumeral ds

abbrev pub chars : List ℕ → Text
chars [] = []
chars (d ∷ ds) = (b'0' + d) ∷ chars ds

abbrev pub value_from : ℕ → List ℕ → ℕ
value_from value [] = value
value_from value (d ∷ ds) = value_from (value * 10 + d) ds

-- The name of a directory entry: not empty, not `.` or `..`, and without a slash.
pub record IsEntry (name : Text) : Type 0 where
  pub not_empty : name ≢ []
  pub not_dot : name ≢ b'.' ∷ []
  pub not_dot_dot : name ≢ b'.' ∷ b'.' ∷ []
  pub no_slash : contains name b'/' ≡ false

value-le : (value : ℕ) (ds : List ℕ) → value ≤ value_from value ds
value-le value [] = omega arith
value-le value (d ∷ ds) = omega (arith, value-le (value * 10 + d) ds)

parse_digits-chars :
    (value : ℕ) (ds : List ℕ)
    → IsNumeral ds
    → value ≤ 4294967295
    → parse_digits value (chars ds) ≡ (
        if leb (value_from value ds) 4294967295
        then inr (value_from value ds)
        else inl pos_overflow)
unfolding parse_digits
parse_digits-chars value [] h small = ground arith
parse_digits-chars value (d ∷ ds) h small =
    let next = value * 10 + d in
    let digit : value * 10 + (48 + d - 48) ≡ next = omega arith in
    let known : not (leb 48 (48 + d) && leb (48 + d) 57) ≡ false = ground arith in
    elim (Bool-cases (ltb 4294967295 next)) [
      | inl big ↦
          let above : leb (value_from next ds) 4294967295 ≡ false =
            ground (arith, value-le next ds) in
          rw (known, digit, big, above)
      | inr fits ↦ rw (known, digit, fits) (parse_digits-chars next ds h.1 (ground arith))
    ]

parse_u32-chars :
    (d : ℕ) (ds : List ℕ)
    → IsNumeral (d ∷ ds)
    → parse_u32 (chars (d ∷ ds)) ≡ (
        if leb (value_from 0 (d ∷ ds)) 4294967295
        then inr (value_from 0 (d ∷ ds))
        else inl pos_overflow)
unfolding parse_u32
parse_u32-chars d [] h = parse_digits-chars 0 (d ∷ []) h (omega arith)
parse_u32-chars d (e ∷ ds) h =
    let no_sign : (48 + d == 43) ≡ false = ground arith in
    rw no_sign (parse_digits-chars 0 (d ∷ e ∷ ds) h (omega arith))

digit_solid : (d : ℕ) → d < 10 → is_whitespace (48 + d) ≡ false
unfolding is_whitespace
digit_solid d h = ground arith

trim_end-chars : (ds : List ℕ) → IsNumeral ds → trim_end (chars ds ++ 10 ∷ []) ≡ chars ds
unfolding trim_end is_whitespace
trim_end-chars [] h = refl
trim_end-chars (d ∷ []) h = rw (digit_solid d h.0)
trim_end-chars (d ∷ e ∷ ds) h = rw (trim_end-chars (e ∷ ds) h.1)

trim-chars :
    (d : ℕ) (ds : List ℕ) → IsNumeral (d ∷ ds) → trim (chars (d ∷ ds) ++ 10 ∷ []) ≡ chars (d ∷ ds)
unfolding trim trim_start
trim-chars d ds h = rw (trim_end-chars (d ∷ ds) h, digit_solid d h.0)

is_empty-false : (name : Text) → name ≢ [] → is_empty name ≡ false
is_empty-false [] h = absurd (h refl)
is_empty-false (c ∷ name) h = refl

is_dot-false : (name : Text) → name ≢ b'.' ∷ [] → is_dot name ≡ false
is_dot-false [] h = refl
is_dot-false (c ∷ []) h = elim (Bool-cases (c == 46)) [
  | inl same ↦ absurd (h (ap (λ x. x ∷ []) ((==_iff c 46).0 same)))
  | inr other ↦ other
]
is_dot-false (c ∷ d ∷ name) h = refl

is_dot_dot-false : (name : Text) → name ≢ b'.' ∷ b'.' ∷ [] → is_dot_dot name ≡ false
is_dot_dot-false [] h = refl
is_dot_dot-false (c ∷ []) h = refl
is_dot_dot-false (c ∷ d ∷ []) h = elim (Bool-cases (c == 46 && d == 46)) [
  | inl same ↦ absurd (
      h (ap₂ (λ x y. x ∷ y ∷ []) ((==_iff c 46).0 (ground arith)) ((==_iff d 46).0 (ground arith))))
  | inr other ↦ other
]
is_dot_dot-false (c ∷ d ∷ e ∷ name) h = refl

index_path-entry :
    (name : Text)
    → IsEntry name
    → index_path name ≡ (codes "/sys/class/net/" ++ name) ++ codes "/ifindex"
unfolding join contains
index_path-entry [] h = absurd (h.not_empty refl)
index_path-entry (c ∷ name) h =
    let relative : (c == 47) ≡ false = ground (arith, h.no_slash) in rw relative

-- The index of an interface is read from its own entry under `/sys/class/net`: for the name of a
-- directory entry, where the file `ifindex` of that entry holds a decimal numeral and the end of
-- the line, the result is the number, or the error of an overflow where it exceeds 32 bits.
pub interface_index_reads :
    (s : System) (os : s.Os) (name : Text) (d : ℕ) (ds : List ℕ)
    → IsEntry name
    → IsNumeral (d ∷ ds)
    → s.read_to_string os ((codes "/sys/class/net/" ++ name) ++ codes "/ifindex")
      ≡ inr (chars (d ∷ ds) ++ 10 ∷ [])
    → interface_index s os name ≡ (
        if leb (value_from 0 (d ∷ ds)) 4294967295
        then ok (value_from 0 (d ∷ ds))
        else err (parse_interface_index name pos_overflow))
unfolding interface_index
interface_index_reads s os name d ds entry numeral holds =
    let parsed = ap parse_u32 (trim-chars d ds numeral) ∙ parse_u32-chars d ds numeral in
    rw
      (
        is_empty-false name entry.not_empty,
        entry.no_slash,
        is_dot-false name entry.not_dot,
        is_dot_dot-false name entry.not_dot_dot,
        ap (s.read_to_string os) (index_path-entry name entry) ∙ holds,
        interface_index,
        parsed,
      )
      (ground arith)

true_absurd : true ≡ false → ⊥
true_absurd h = cc

-- Any other name is refused, and no file is read for it: the result is the same on every machine.
pub interface_index_refuses :
    (s : System) (os : s.Os) (name : Text)
    → ¬ IsEntry name
    → interface_index s os name ≡ err (invalid_interface_name name)
unfolding interface_index contains
interface_index_refuses s os name h = elim (Bool-cases (is_invalid name)) [
  | inl invalid ↦ rw invalid
  | inr plain ↦ absurd (
      h (record {
        not_empty = λ e. true_absurd (subst (λ n. is_invalid n ≡ false) e plain);
        not_dot = λ e. true_absurd (subst (λ n. is_invalid n ≡ false) e plain);
        not_dot_dot = λ e. true_absurd (subst (λ n. is_invalid n ≡ false) e plain);
        no_slash = ground arith;
      }))
]
