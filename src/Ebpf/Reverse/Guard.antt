-- ===== src/Ebpf/Reverse/Guard.antt =====
-- The classifier of replies in natto64-ebpf/src/lib.rs touches nothing but replies of its sessions.
use natto.Common.{
  ℕ, ◌*◌, ◌≡◌, refl, inl, inr, [], ◌∷◌, Bool, true, false, not, ◌&&◌, some, ltb, leb, ◌==◌,
  if◌then◌else◌, shr, low_bits, Option-cases, Bool-cases,
}
use natto.Abi.ProdCounters.{pkts_total, pkts_ipv4}
use natto.Abi.DebugCounters.{dbg_rev_enter, dbg_rev_eth_ipv4, nat64_v4_to_v6_udp_err_parse}
use natto.Ebpf.Kernel.{Kernel}
use natto.Ebpf.World.{World, with_counters, SameMaps, with_counters-SameMaps}
use natto.Ebpf.Packet.{load_u8, load_be16, load_be32}
use natto.Ebpf.Reverse.{reverse_addresses, reverse_ipv4, try_nat64_reverse}
use natto.Ebpf.Reverse.Replies.{Verdict, passed, counted, rejected}
use natto.Ebpf.Reverse.Stages.{reverse_parsed-Verdict}

module _ {k : Kernel} (w0 : World k) (skb : k.Skb) (now : ℕ) where
  fragment_counted :
      (b : Bool) (w : World k)
      → SameMaps w w0
      → SameMaps (if b then with_counters [] (nat64_v4_to_v6_udp_err_parse ∷ []) w else w) w0
  fragment_counted true w s = counted w0 skb now [] _ s
  fragment_counted false w s = s

  reverse_addresses-Verdict :
      (w : World k) (vihl total flags : ℕ)
      → SameMaps w w0
      → load_u8 k skb 14 ≡ some vihl
      → load_be16 k skb 16 ≡ some total
      → load_be16 k skb 20 ≡ some flags
      → Verdict w0 skb now
          (reverse_addresses (low_bits vihl 4 * 4) total (not (low_bits flags 14 == 0)) skb now w)
  unfolding reverse_addresses
  reverse_addresses-Verdict w vihl total flags s reads_vihl reads_total reads_flags =
      elim (Option-cases (load_u8 k skb 23)) [
        | inl e ↦ rw (e, reverse_addresses) (passed w0 skb now s)
        | inr (proto, reads_proto) ↦ elim (Option-cases (load_be32 k skb 26)) [
          | inl e ↦ rw (reads_proto, reverse_addresses, e) (passed w0 skb now s)
          | inr (src, reads_src) ↦ elim (Option-cases (load_be32 k skb 30)) [
            | inl e ↦ rw (reads_proto, reverse_addresses, reads_src, e) (passed w0 skb now s)
            | inr (dst, reads_dst) ↦
                rw (reads_proto, reverse_addresses, reads_src, reads_dst)
                  (reverse_parsed-Verdict w0 skb now w
                    (record {
                      ihl_bytes = low_bits vihl 4 * 4;
                      total_len = total;
                      is_fragment = not (low_bits flags 14 == 0);
                      proto = proto;
                      ipv4_src = src;
                      ipv4_dst = dst;
                    })
                    s
                    (record {
                      vihl = vihl;
                      reads_vihl = reads_vihl;
                      has_ihl_bytes = refl;
                      reads_total_len = reads_total;
                      flags = flags;
                      reads_flags = reads_flags;
                      has_is_fragment = refl;
                      reads_proto = reads_proto;
                      reads_src = reads_src;
                      reads_dst = reads_dst;
                    }))
          ]
        ]
      ]

  reverse_ipv4-Verdict : (w : World k) → SameMaps w w0 → Verdict w0 skb now (reverse_ipv4 skb now w)
  unfolding reverse_ipv4
  reverse_ipv4-Verdict w s = elim (Option-cases (load_u8 k skb 14)) [
    | inl e ↦ rw (e, reverse_ipv4) (passed w0 skb now s)
    | inr (vihl, reads_vihl) ↦
        let ihl = low_bits vihl 4 * 4 in
        elim (Bool-cases (not (shr vihl 4 == 4))) [
          | inl other ↦ rw (reads_vihl, reverse_ipv4, other) (rejected w0 skb now s)
          | inr four ↦ elim (Bool-cases (not (leb 20 ihl && leb ihl 60))) [
            | inl bad ↦ rw (reads_vihl, reverse_ipv4, four, bad) (rejected w0 skb now s)
            | inr good ↦ elim (Option-cases (load_be16 k skb 16)) [
              | inl e ↦ rw (reads_vihl, reverse_ipv4, four, good, e) (passed w0 skb now s)
              | inr (total, reads_total) ↦ elim (Bool-cases (ltb total ihl)) [
                | inl short ↦
                    rw (reads_vihl, reverse_ipv4, four, good, reads_total, short)
                      (rejected w0 skb now s)
                | inr long ↦ elim (Option-cases (load_be16 k skb 20)) [
                  | inl e ↦
                      rw (reads_vihl, reverse_ipv4, four, good, reads_total, long, e)
                        (passed w0 skb now s)
                  | inr (flags, reads_flags) ↦
                      rw (reads_vihl, reverse_ipv4, four, good, reads_total, long, reads_flags)
                        (reverse_addresses-Verdict _ vihl total flags
                          (fragment_counted (not (low_bits flags 14 == 0)) w s) reads_vihl
                          reads_total reads_flags)
                ]
              ]
            ]
          ]
        ]
  ]

  -- Whatever a packet holds, the classifier either passes it on unchanged and changes no map, or the
  -- packet is a reply of a session: an unfragmented TCP or UDP packet to an address of the pool, from
  -- the remote address and port that the session of its destination was opened to. Then that session
  -- is refreshed with the time of the packet, and the forward map and the configuration stay as they
  -- are.
  pub try_nat64_reverse-Verdict : Verdict w0 skb now (try_nat64_reverse skb now w0)
  unfolding try_nat64_reverse
  try_nat64_reverse-Verdict =
      let s = with_counters-SameMaps (pkts_total ∷ []) (dbg_rev_enter ∷ []) w0 in
      elim (Option-cases (load_be16 k skb 12)) [
        | inl e ↦ rw (e, try_nat64_reverse) (passed w0 skb now s)
        | inr (ether_type, e) ↦ elim (Bool-cases (not (ether_type == 0x0800))) [
          | inl other ↦ rw (e, try_nat64_reverse, other) (rejected w0 skb now s)
          | inr ipv4 ↦
              rw (e, try_nat64_reverse, ipv4)
                (reverse_ipv4-Verdict _
                  (counted w0 skb now (pkts_ipv4 ∷ []) (dbg_rev_eth_ipv4 ∷ []) s))
        ]
      ]
