-- ===== src/Ebpf/Update/Segment.antt =====
-- A TCP segment of which natto64-ebpf/src/lib.rs replaces a port and the checksum.
use natto.Common.{
  ℕ, ◌+◌, ◌*◌, ◌%◌, ◌≤◌, ◌<◌, ◌≡◌, sym, ◌∙◌, ap, List, [], ◌∷◌, ◌++◌, arith, length, not16,
  to_be_bytes16, length-append,
}
use natto.Xlat.Checksum.{checksum16}
use natto.Xlat.Checksum.Words.{IsBytes, word_sum}
use natto.Xlat.Checksum.Field.{word_sum-append}
use natto.Ebpf.Packet.{to_be16}
use natto.Ebpf.Update.{le_sum}
use natto.Ebpf.Update.Delta.{around}
use natto.Ebpf.Update.Sums.{append_assoc, le_sum-append, verifies, verified}

-- The segment with `port` behind `head`, and the two bytes of its checksum in front of `rest`.
abbrev pub segment : List ℕ → List ℕ → List ℕ → ℕ → ℕ → ℕ → List ℕ
segment head middle rest port lo hi =
    head ++ (to_be_bytes16 port ++ (middle ++ ((lo ∷ hi ∷ []) ++ rest)))

-- A packet with the segment behind `front`, around its checksum.
pub around-segment :
    (front head middle rest padding : List ℕ) (port lo hi : ℕ)
    → around (front ++ (head ++ (to_be_bytes16 port ++ middle))) (rest ++ padding) lo hi
      ≡ front ++ (segment head middle rest port lo hi ++ padding)
around-segment front head middle rest padding port lo hi =
    let check = lo ∷ hi ∷ rest in
    let p = to_be_bytes16 port in
    append_assoc front (head ++ (p ++ middle)) (check ++ padding)
    ∙ ap (◌++◌ front) (
        append_assoc head (p ++ middle) (check ++ padding)
        ∙ ap (λ t. head ++ (p ++ t)) (sym (append_assoc middle check padding))
        ∙ sym (append_assoc head (p ++ (middle ++ check)) padding))

pub append-IsBytes : (xs ys : List ℕ) → IsBytes xs → IsBytes ys → IsBytes (xs ++ ys)
append-IsBytes [] ys h h' = h'
append-IsBytes (x ∷ xs) ys h h' = (h.0, append-IsBytes xs ys h.1 h')

-- The parts of a segment of which the port and the checksum stand at even offsets.
pub record IsParts (head middle rest : List ℕ) : Type 0 where
  pub even_head : length head % 2 ≡ 0
  pub even_middle : length middle % 2 ≡ 0
  pub head_bytes : IsBytes head
  pub middle_bytes : IsBytes middle
  pub rest_bytes : IsBytes rest

module _ (head middle rest : List ℕ) (parts : IsParts head middle rest) where
  segment-IsBytes :
      (port lo hi : ℕ) → lo < 256 → hi < 256 → IsBytes (segment head middle rest port lo hi)
  segment-IsBytes port lo hi l h = append-IsBytes head _ parts.head_bytes (
    omega arith,
    (omega arith, append-IsBytes middle _ parts.middle_bytes (l, (h, parts.rest_bytes))),
  )

  pub length-segment :
      (port lo hi : ℕ)
      → length (segment head middle rest port lo hi) ≡ length head + length middle + length rest + 4
  length-segment port lo hi = omega (
    arith,
    length-append head (to_be_bytes16 port ++ (middle ++ ((lo ∷ hi ∷ []) ++ rest))),
    length-append middle ((lo ∷ hi ∷ []) ++ rest),
  )

  le_sum-segment :
      (port lo hi : ℕ)
      → port < 65536
      → le_sum (segment head middle rest port lo hi)
        ≡ le_sum head + (to_be16 port + (le_sum middle + (lo + hi * 256 + le_sum rest)))
  unfolding le_sum
  le_sum-segment port lo hi small = omega (
    arith,
    le_sum-append head (to_be_bytes16 port ++ (middle ++ ((lo ∷ hi ∷ []) ++ rest))) parts.even_head,
    le_sum-append middle ((lo ∷ hi ∷ []) ++ rest) parts.even_middle,
  )

  module _ (pseudo pseudo' : List ℕ) (even : length pseudo % 2 ≡ 0) (even' : length pseudo' % 2 ≡ 0)
      (bytes : IsBytes pseudo) (bytes' : IsBytes pseudo') (positive : 0 < word_sum pseudo')
      (port port' lo hi lo' hi' : ℕ) (small : port < 65536) (small' : port' < 65536)
      (lo_byte : lo < 256) (hi_byte : hi < 256) (lo_byte' : lo' < 256) (hi_byte' : hi' < 256)
      (len : length pseudo + (length head + length middle + length rest + 4) ≤ 131_070)
      (len' : length pseudo' + (length head + length middle + length rest + 4) ≤ 131_070) where
    -- An update of both sums keeps a segment that verifies one that does.
    pub segment-verifies :
        (not16 (lo' + hi' * 256) + (le_sum pseudo + to_be16 port)) % 65535
          ≡ (not16 (lo + hi * 256) + (le_sum pseudo' + to_be16 port')) % 65535
        → checksum16 (pseudo ++ segment head middle rest port lo hi) ≡ 0xffff
        → checksum16 (pseudo' ++ segment head middle rest port' lo' hi') ≡ 0xffff
    segment-verifies sums good =
        let old = segment head middle rest port lo hi in
        let new = segment head middle rest port' lo' hi' in
        let zero =
          verified (pseudo ++ old)
            (append-IsBytes pseudo old bytes (segment-IsBytes port lo hi lo_byte hi_byte))
            (omega (arith, length-append pseudo old, length-segment port lo hi)) good in
        verifies (pseudo' ++ new)
          (append-IsBytes pseudo' new bytes' (segment-IsBytes port' lo' hi' lo_byte' hi_byte'))
          (omega (arith, length-append pseudo' new, length-segment port' lo' hi'))
          (omega (arith, word_sum-append pseudo' new even'))
          (omega (
            arith,
            zero,
            le_sum-append pseudo old even,
            le_sum-append pseudo' new even',
            le_sum-segment port lo hi small,
            le_sum-segment port' lo' hi' small',
          ))
