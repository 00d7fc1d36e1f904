-- ===== src/Xlat/Checksum/Segment.antt =====
-- The TCP and UDP checksums of natto64-xlat/src/checksum.rs: they are the Internet checksum of
-- the pseudo-header and the segment, and the segment that carries them verifies.
use natto.Common.{
  ℕ, ◌+◌, ◌-◌, ◌*◌, ◌/◌, ◌%◌, ◌^◌, ◌≤◌, ◌<◌, ◌≡◌, ◌≢◌, refl, sym, ◌∙◌, ap, List, ◌++◌, arith,
  length, ◌==◌, if◌then◌else◌, not16, to_be_bytes32, table, eq_table, byte_at,
}
use mathlib.Core.Path.{subst}
use natto.Abi.{build_ipv4_pseudo_header_bytes, build_ipv6_pseudo_header_bytes}
use natto.Xlat.Checksum.{
  fold_sum, checksum16_with_seed, checksum16, sum_segment, finish, seed_ipv4, seed_ipv6,
}
use natto.Xlat.Checksum.Fold.{residue, fold_sum-residue, fold_sum-lt, fold_sum-add_fold}
use natto.Xlat.Checksum.Field.{
  length-cleared, cleared-IsBytes, word_sum-append, filled, word_sum-filled,
}
use natto.Xlat.Checksum.Words.{
  IsBytes, word_sum, word_sum-le, sum_words-word_sum, cleared, sum_segment-cleared,
}

pub word_sum-pseudo4 :
    (src dst len proto : ℕ)
    → src < 2 ^ 32
    → dst < 2 ^ 32
    → len < 65536
    → word_sum (build_ipv4_pseudo_header_bytes src dst len proto)
      ≡ src / 65536 + src % 65536 + (dst / 65536 + dst % 65536) + proto + len
unfolding word_sum build_ipv4_pseudo_header_bytes
word_sum-pseudo4 src dst len proto hs hd hl = omega arith

word_sum-table16 :
    (f g : ℕ → ℕ) (len proto : ℕ)
    → len < 65536
    → word_sum (build_ipv6_pseudo_header_bytes (table 16 f) (table 16 g) len proto)
      ≡ word_sum (table 16 f) + word_sum (table 16 g) + proto + len
unfolding word_sum build_ipv6_pseudo_header_bytes
word_sum-table16 f g len proto h = omega arith

pub word_sum-pseudo6 :
    (src dst : List ℕ) (len proto : ℕ)
    → length src ≡ 16
    → length dst ≡ 16
    → len < 65536
    → word_sum (build_ipv6_pseudo_header_bytes src dst len proto)
      ≡ word_sum src + word_sum dst + proto + len
word_sum-pseudo6 src dst len proto hs hd hl =
    subst
      (λ s.
        word_sum (build_ipv6_pseudo_header_bytes s dst len proto)
        ≡ word_sum s + word_sum dst + proto + len)
      (sym (eq_table 16 src 0 hs))
      (subst
        (λ d.
          word_sum (build_ipv6_pseudo_header_bytes (table 16 (byte_at src)) d len proto)
          ≡ word_sum (table 16 (byte_at src)) + word_sum d + proto + len)
        (sym (eq_table 16 dst 0 hd)) (word_sum-table16 (byte_at src) (byte_at dst) len proto hl))

-- The complement that is sent is never zero, and brings the sum to 0xffff.
pub finish-complement :
    (sum : ℕ) → (finish sum ≢ 0) × (finish sum < 65536) × (fold_sum (sum + finish sum) ≡ 65535)
unfolding finish residue
finish-complement sum =
    ground (arith, fold_sum-lt sum, fold_sum-residue sum, fold_sum-residue (sum + finish sum))

finish-eq_of_fold : (a b : ℕ) → fold_sum a ≡ fold_sum b → finish a ≡ finish b
unfolding finish
finish-eq_of_fold a b h = rw h

-- Folding part of a sum early, twice, changes no later fold.
fold_sum-nested : (a b c : ℕ) → fold_sum (fold_sum (fold_sum a + b) + c) ≡ fold_sum (a + b + c)
fold_sum-nested a b c =
    fold_sum-add_fold (fold_sum a + b) c
    ∙ ap fold_sum (omega arith)
    ∙ fold_sum-add_fold a (b + c)
    ∙ ap fold_sum (omega arith)

-- What the seed of a segment has to be: it folds like the pseudo-header, and is small.
abbrev pub Seeds : ℕ → ℕ → Type 0
Seeds seed pseudo =
    (seed < 300000) × ((rest : ℕ) → fold_sum (seed + rest) ≡ fold_sum (pseudo + rest))

pub with_seed_fold :
    (bytes : List ℕ) (seed sum : ℕ)
    → seed + word_sum bytes ≡ sum
    → sum < 2 ^ 32
    → checksum16_with_seed bytes seed ≡ fold_sum sum
unfolding checksum16_with_seed
with_seed_fold bytes seed sum e h = ap fold_sum (sum_words-word_sum bytes seed (omega arith) ∙ e)

abbrev halves : ℕ → ℕ
halves v = v / 65536 + v % 65536

word_sum-to_be_bytes32 : (v : ℕ) → v < 2 ^ 32 → word_sum (to_be_bytes32 v) ≡ halves v
unfolding word_sum
word_sum-to_be_bytes32 v h = omega arith

module _ (src dst proto len : ℕ) (hs : src < 2 ^ 32) (hd : dst < 2 ^ 32) (hl : len < 65536)
    (hp : proto < 256) where
  seed_ipv4-eq :
      seed_ipv4 src dst proto len ≡ fold_sum (fold_sum (halves src) + halves dst) + proto + len
  unfolding seed_ipv4
  seed_ipv4-eq =
      rw
        (
          with_seed_fold (to_be_bytes32 src) 0 (halves src)
              (omega (arith, word_sum-to_be_bytes32 src hs)) (omega arith),
          with_seed_fold (to_be_bytes32 dst) (fold_sum (halves src))
              (fold_sum (halves src) + halves dst) (omega (arith, word_sum-to_be_bytes32 dst hd))
              (omega (arith, fold_sum-lt (halves src))),
        )
        (omega (arith, fold_sum-lt (fold_sum (halves src) + halves dst)))

  pub seed_ipv4-Seeds :
      Seeds
        (seed_ipv4 src dst proto len)
        (word_sum (build_ipv4_pseudo_header_bytes src dst len proto))
  seed_ipv4-Seeds = (
    omega (arith, seed_ipv4-eq, fold_sum-lt (fold_sum (halves src) + halves dst)),
    λ rest.
        ap fold_sum (omega (arith, seed_ipv4-eq))
        ∙ fold_sum-nested (halves src) (halves dst) (proto + len + rest)
        ∙ ap fold_sum (omega (arith, word_sum-pseudo4 src dst len proto hs hd hl)),
  )

module _ (src dst : List ℕ) (proto len : ℕ) (hs : length src ≡ 16) (hd : length dst ≡ 16)
    (bs : IsBytes src) (bd : IsBytes dst) (hl : len < 65536) (hp : proto < 256) where
  seed_ipv6-eq :
      seed_ipv6 src dst proto len ≡ fold_sum (fold_sum (word_sum src) + word_sum dst) + proto + len
  unfolding seed_ipv6
  seed_ipv6-eq =
      rw
        (
          with_seed_fold src 0 (word_sum src) (omega arith) (omega (arith, word_sum-le src bs)),
          with_seed_fold dst (fold_sum (word_sum src)) (fold_sum (word_sum src) + word_sum dst) refl
              (omega (arith, fold_sum-lt (word_sum src), word_sum-le dst bd)),
        )
        (omega (arith, fold_sum-lt (fold_sum (word_sum src) + word_sum dst)))

  pub seed_ipv6-Seeds :
      Seeds
        (seed_ipv6 src dst proto len)
        (word_sum (build_ipv6_pseudo_header_bytes src dst len proto))
  seed_ipv6-Seeds = (
    omega (arith, seed_ipv6-eq, fold_sum-lt (fold_sum (word_sum src) + word_sum dst)),
    λ rest.
        ap fold_sum (omega (arith, seed_ipv6-eq))
        ∙ fold_sum-nested (word_sum src) (word_sum dst) (proto + len + rest)
        ∙ ap fold_sum (omega (arith, word_sum-pseudo6 src dst len proto hs hd hl)),
  )

-- The reference: the Internet checksum of the pseudo-header and the segment with its checksum
-- field at `field` cleared, complemented, and 0xffff in place of zero.
abbrev pub reference : List ℕ → ℕ → List ℕ → ℕ
reference pseudo field segment =
    let checksum = not16 (checksum16 (pseudo ++ cleared field 0 segment)) in
    if checksum == 0 then 0xffff else checksum

module _ (seed field : ℕ) (pseudo segment : List ℕ) (even : field % 2 ≡ 0)
    (even_pseudo : length pseudo % 2 ≡ 0) (small : word_sum pseudo < 4000000)
    (bytes : IsBytes segment) (hl : length segment < 65536)
    (seeds : Seeds seed (word_sum pseudo)) where
  rest_bound : 2 * word_sum (cleared field 0 segment) ≤ 65535 * 65536
  rest_bound =
      let bound = word_sum-le (cleared field 0 segment) (cleared-IsBytes field 0 segment bytes) in
      omega (arith, bound, length-cleared field 0 segment)

  segment-finish :
      finish (sum_segment field 0 segment seed)
      ≡ finish (word_sum pseudo + word_sum (cleared field 0 segment))
  segment-finish = finish-eq_of_fold _ _ (
      ap fold_sum (
        sum_segment-cleared field 0 segment seed (omega arith)
        ∙ sum_words-word_sum (cleared field 0 segment) seed (omega (arith, rest_bound)))
      ∙ seeds.1 (word_sum (cleared field 0 segment)))

  whole_fold :
      (tail : List ℕ)
      → word_sum tail < 2 ^ 32 - 4000000
      → checksum16 (pseudo ++ tail) ≡ fold_sum (word_sum pseudo + word_sum tail)
  unfolding checksum16
  whole_fold tail h =
      let split = word_sum-append pseudo tail even_pseudo in
      with_seed_fold (pseudo ++ tail) 0 _ (omega (arith, split)) (omega arith)

  pub segment-reference : finish (sum_segment field 0 segment seed) ≡ reference pseudo field segment
  unfolding finish
  segment-reference =
      rw (whole_fold (cleared field 0 segment) (omega (arith, rest_bound))) segment-finish

  pub segment-verifies :
      field + 1 < length segment
      → checksum16 (pseudo ++ filled field (finish (sum_segment field 0 segment seed)) segment)
        ≡ 65535
  segment-verifies h =
      let checksum = finish (sum_segment field 0 segment seed) in
      let total = word_sum pseudo + word_sum (cleared field 0 segment) in
      let complement = finish-complement total in
      let fill =
        word_sum-filled field checksum segment even h
          (omega (arith, segment-finish, complement.1)) in
      whole_fold (filled field checksum segment)
        (omega (arith, fill, rest_bound, segment-finish, complement.1))
      ∙ ap fold_sum (omega (arith, fill, segment-finish))
      ∙ complement.2
