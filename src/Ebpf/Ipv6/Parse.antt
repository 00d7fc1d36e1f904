-- ===== src/Ebpf/Ipv6/Parse.antt =====
-- The parser of natto64-ebpf/src/ipv6.rs against the header builders of natto64-xlat/src/headers.rs.
use mathlib.Core.Option
use mathlib.Core.Path.{subst}
use natto.Common.{
  ℕ, ◌+◌, ◌^◌, ◌≤◌, ◌<◌, ◌≡◌, refl, sym, ◌∙◌, ap, ap₂, List, [], ◌∷◌, ◌++◌, some, arith, length,
  byte_at, take, drop, table, eq_table, to_be_bytes16, to_be_bytes32, zero, suc, from_be_bytes32,
}
use natto.Xlat.Checksum.Verify.{Transport, tcp, udp, proto_of}
use natto.Xlat.Checksum.Words.{IsBytes}
use natto.Xlat.Headers.{build_ipv6_header_tcp, build_ipv6_header_udp}
use natto.Xlat.Headers.Fields.{build_ipv6_header}
use natto.Xlat.Wire.{read_u16_be, read_u32_be}
use natto.Ebpf.Kernel.{Kernel}
use natto.Ebpf.Packet.{load_u8, load_be16, load_be32}
use natto.Ebpf.Ipv6.{ipv6_from_be_words, load_address, parse_ipv6_base}

-- The packet holds the bytes at the offset.
abbrev pub Holds : (k : Kernel) → k.Skb → ℕ → List ℕ → Type 0
Holds k skb offset bytes =
    (at size : ℕ)
    → at + size ≤ length bytes
    → k.load skb (offset + at) size ≡ some (take size (drop at bytes))

word_bytes :
    (a b c d : ℕ)
    → a < 256
    → b < 256
    → c < 256
    → d < 256
    → to_be_bytes32 (from_be_bytes32 a b c d) ≡ a ∷ b ∷ c ∷ d ∷ []
word_bytes a b c d ha hb hc hd = ground arith

byte_below : (n : ℕ) (f : ℕ → ℕ) (i : ℕ) → IsBytes (table n f) → i < n → f i < 256
byte_below zero f i h below = elim below [ ]
byte_below (suc n) f zero h below = h.0
byte_below (suc n) f (suc i) h below = byte_below n (λ j. f (suc j)) i h.1 (omega arith)

words_table :
    (f : ℕ → ℕ)
    → IsBytes (table 16 f)
    → ipv6_from_be_words
        (from_be_bytes32 (f 0) (f 1) (f 2) (f 3))
        (from_be_bytes32 (f 4) (f 5) (f 6) (f 7))
        (from_be_bytes32 (f 8) (f 9) (f 10) (f 11))
        (from_be_bytes32 (f 12) (f 13) (f 14) (f 15))
      ≡ table 16 f
unfolding ipv6_from_be_words
words_table f h =
    let below = λ (i : ℕ) (b : i < 16). byte_below 16 f i h b in
    let word = λ (i : ℕ) (b : i + 3 < 16).
      word_bytes (f i) (f (i + 1)) (f (i + 2)) (f (i + 3)) (below i (omega arith))
        (below (i + 1) (omega arith)) (below (i + 2) (omega arith)) (below (i + 3) b) in
    ap₂ (λ x y. x ++ y) (word 0 (omega arith))
      (ap₂ (λ x y. x ++ y) (word 4 (omega arith))
        (ap₂ (λ x y. x ++ y) (word 8 (omega arith)) (word 12 (omega arith))))

module _ (k : Kernel) (skb : k.Skb) (l3 : ℕ) (proto : ℕ) (f g : ℕ → ℕ) (len hop : ℕ)
    (bf : IsBytes (table 16 f)) (bg : IsBytes (table 16 g)) (small : len < 2 ^ 16) where
  -- The bytes of the header.
  abbrev hdr : List ℕ
  hdr = (0x60 ∷ 0 ∷ 0 ∷ 0 ∷ to_be_bytes16 len) ++ (proto ∷ hop ∷ []) ++ table 16 f ++ table 16 g

  module _ (holds : Holds k skb l3 hdr) where
    word_at :
        (at o : ℕ)
        → at + 4 ≤ 40
        → o ≡ l3 + at
        → load_be32 k skb o ≡ some (read_u32_be (take 4 (drop at hdr)))
    unfolding load_be32
    word_at at o h e = rw e (ap (Option.map read_u32_be) (holds at 4 h))

    half_at :
        (at o : ℕ)
        → at + 2 ≤ 40
        → o ≡ l3 + at
        → load_be16 k skb o ≡ some (read_u16_be (take 2 (drop at hdr)))
    unfolding load_be16
    half_at at o h e = rw e (ap (Option.map read_u16_be) (holds at 2 h))

    source_at : load_address k skb (l3 + 8) ≡ some (table 16 f)
    unfolding read_u32_be
    source_at =
        rw
          (
            word_at 8 (l3 + 8) (omega arith) refl,
            word_at 12 (l3 + 8 + 4) (omega arith) (omega arith),
            word_at 16 (l3 + 8 + 8) (omega arith) (omega arith),
            word_at 20 (l3 + 8 + 12) (omega arith) (omega arith),
          )
          (ap some (words_table f bf))

    destination_at : load_address k skb (l3 + 24) ≡ some (table 16 g)
    unfolding read_u32_be
    destination_at =
        rw
          (
            word_at 24 (l3 + 24) (omega arith) refl,
            word_at 28 (l3 + 24 + 4) (omega arith) (omega arith),
            word_at 32 (l3 + 24 + 8) (omega arith) (omega arith),
            word_at 36 (l3 + 24 + 12) (omega arith) (omega arith),
          )
          (ap some (words_table g bg))

    length_at : load_be16 k skb (l3 + 4) ≡ some len
    unfolding read_u16_be
    length_at = half_at 4 (l3 + 4) (omega arith) refl ∙ ap some (omega arith)

    next_at : load_u8 k skb (l3 + 6) ≡ some proto
    unfolding load_u8
    next_at = ap (Option.map (λ bytes. byte_at bytes 0)) (holds 6 1 (omega arith))

    parses :
        parse_ipv6_base k skb l3
        ≡ some (record {
          src = table 16 f;
          dst = table 16 g;
          next_header = proto;
          payload_len = len;
          l4_abs_offset = l3 + 40;
        })
    unfolding parse_ipv6_base
    parses = rw (length_at, parse_ipv6_base, next_at, source_at, destination_at)

build-hdr :
    (k : Kernel) (skb : k.Skb) (l3 : ℕ) (t : Transport) (f g : ℕ → ℕ) (len hop : ℕ)
    (bf : IsBytes (table 16 f)) (bg : IsBytes (table 16 g)) (small : len < 2 ^ 16)
    → build_ipv6_header t (table 16 f) (table 16 g) len hop
      ≡ hdr k skb l3 (proto_of t) f g len hop bf bg small
unfolding build_ipv6_header_tcp build_ipv6_header_udp
build-hdr k skb l3 tcp f g len hop bf bg small = refl
build-hdr k skb l3 udp f g len hop bf bg small = refl

-- A packet that holds a header built by natto64-xlat parses to the addresses, the protocol and the
-- payload length that the header was built from, with the transport header 40 bytes behind; the
-- addresses are 16 bytes each and the length has 16 bits.
pub parse_ipv6_base-build :
    (k : Kernel) (skb : k.Skb) (l3 : ℕ) (t : Transport) (src dst : List ℕ) (len hop : ℕ)
    → length src ≡ 16
    → length dst ≡ 16
    → IsBytes src
    → IsBytes dst
    → len < 2 ^ 16
    → Holds k skb l3 (build_ipv6_header t src dst len hop)
    → parse_ipv6_base k skb l3
      ≡ some (record {
        src = src;
        dst = dst;
        next_header = proto_of t;
        payload_len = len;
        l4_abs_offset = l3 + 40;
      })
parse_ipv6_base-build k skb l3 t src dst len hop ls ld bs bd small holds =
    let es = eq_table 16 src 0 ls in
    let ed = eq_table 16 dst 0 ld in
    let bs' = subst IsBytes es bs in
    let bd' = subst IsBytes ed bd in
    let built = build-hdr k skb l3 t (byte_at src) (byte_at dst) len hop bs' bd' small in
    let held =
      subst (Holds k skb l3) (ap₂ (λ s d. build_ipv6_header t s d len hop) es ed ∙ built) holds in
    parses k skb l3 (proto_of t) (byte_at src) (byte_at dst) len hop bs' bd' small held
    ∙ ap₂
        (λ s d. some (record {
          src = s;
          dst = d;
          next_header = proto_of t;
          payload_len = len;
          l4_abs_offset = l3 + 40;
        }))
        (sym es) (sym ed)
