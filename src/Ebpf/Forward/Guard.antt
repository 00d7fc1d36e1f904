-- ===== src/Ebpf/Forward/Guard.antt =====
-- Which packets the forward classifier of natto64-ebpf/src/lib.rs touches.
use mathlib.Core.Option
use natto.Common.{
  ℕ, ◌≡◌, refl, sym, ◌∙◌, ap, inl, inr, ◌⊎◌, List, [], ◌∷◌, true, false, not, ◌&&◌, some, ◌==◌,
  ==_iff, if◌then◌else◌, take, Option-cases, Bool-cases, arith,
}
use natto.Abi.ProdCounters.{
  ProdCounter, pkts_total, pkts_ipv6, pkts_nat64_dst, unsupported_ipv6_extension_headers,
  unsupported_ipv6_non_tcp_udp,
}
use natto.Abi.DebugCounters.{
  DebugCounter, dbg_fwd_enter, dbg_fwd_return_err, dbg_fwd_eth_ipv6, pkts_ipv6_parsed_ok,
  pkts_ipv6_ext_hdr, pkts_ipv6_non_tcp_udp, pkts_udp, dbg_fwd_nat64_prefix_match,
}
use natto.Ebpf.Kernel.{Kernel}
use natto.Ebpf.World.{World, with_counters, SameMaps, with_counters-SameMaps}
use natto.Ebpf.Pool.{select_v4_from_pool_ebpf}
use natto.Ebpf.Sessions.{current_cfg, default_cfg}
use natto.Ebpf.Packet.{load_be16}
use natto.Ebpf.Ipv6.{Ipv6Info, is_extension_header, parse_ipv6_base}
use natto.Ebpf.Sampling.{same_bytes, record_fwd_dst_sample, classify_fwd_dst}
use natto.Ebpf.Reverse.Rewrite.{pass}
use natto.Ebpf.Reverse.Untouched.{SameMaps-trans}
use natto.Ebpf.Reverse.Replies.{Passed}
use natto.Ebpf.Forward.{forward_diagnose, forward_parsed, try_nat64_forward}

pub same_bytes_lem : (xs ys : List ℕ) → same_bytes xs ys ≡ true → xs ≡ ys
unfolding same_bytes
same_bytes_lem [] [] h = refl
same_bytes_lem [] (y ∷ ys) h = absurd (cc)
same_bytes_lem (x ∷ xs) [] h = absurd (cc)
same_bytes_lem (x ∷ xs) (y ∷ ys) h =
    let heads : x ≡ y = ground arith in
    let tails : same_bytes xs ys ≡ true = ground arith in cc (heads, same_bytes_lem xs ys tails)

module _ {k : Kernel} where
  -- An IPv6 packet to the prefix of the configuration, of TCP or UDP without an extension header,
  -- from a client that has an external address.
  pub record Targeted (w : World k) (skb : k.Skb) : Type 0 where
    pub info : Ipv6Info
    pub ethertype : load_be16 k skb 12 ≡ some 0x86dd
    pub parses : parse_ipv6_base k skb 14 ≡ some info
    pub to_prefix : take 12 info.dst ≡ (current_cfg w).prefix96
    pub plain : is_extension_header info.next_header ≡ false
    pub transport : (info.next_header ≡ 6) ⊎ (info.next_header ≡ 17)
    pub ext_v4 : ℕ
    pub selected : select_v4_from_pool_ebpf info.src (current_cfg w) ≡ some ext_v4

  classify-SameMaps : (dst : List ℕ) (w : World k) → SameMaps (classify_fwd_dst dst w) w
  unfolding classify_fwd_dst with_counters
  classify-SameMaps dst w = ground arith

  record-SameMaps : (dst : List ℕ) (w : World k) → SameMaps (record_fwd_dst_sample dst w) w
  unfolding record_fwd_dst_sample
  record-SameMaps dst w = ground arith

  protocol-SameMaps :
      (next : ℕ) (w : World k)
      → SameMaps
          (if is_extension_header next
            then with_counters [] (pkts_ipv6_ext_hdr ∷ []) w
            else if not (next == 6) && not (next == 17)
            then with_counters [] (pkts_ipv6_non_tcp_udp ∷ []) w
            else if next == 17
            then with_counters [] (pkts_udp ∷ []) w
            else w)
          w
  unfolding with_counters
  protocol-SameMaps next w = ground arith

  pub forward_diagnose-SameMaps :
      (info : Ipv6Info) (w : World k) → SameMaps (forward_diagnose info w) w
  unfolding forward_diagnose
  forward_diagnose-SameMaps info w =
      SameMaps-trans (classify-SameMaps info.dst _)
        (SameMaps-trans (record-SameMaps info.dst _) (protocol-SameMaps info.next_header w))

pub known_transport :
    (next : ℕ) → (not (next == 6) && not (next == 17)) ≡ false → (next ≡ 6) ⊎ (next ≡ 17)
known_transport next h = elim (Bool-cases (next == 6)) [
  | inl six ↦ inl ((==_iff next 6).0 six)
  | inr other ↦ inr (ground arith)
]

module _ {k : Kernel} (w0 : World k) (skb : k.Skb) (now prandom : ℕ) where
  passed : {w : World k} → SameMaps w w0 → Passed w0 skb (pass skb w)
  unfolding pass
  passed s = record { same_packet = refl; passes = refl; same_maps = s }

  counted :
      (prods : List ProdCounter) (debugs : List DebugCounter) {w : World k}
      → SameMaps w w0
      → SameMaps (with_counters prods debugs w) w0
  counted prods debugs s = SameMaps-trans (with_counters-SameMaps prods debugs _) s

  pub current_cfg-same : {w : World k} → SameMaps w w0 → current_cfg w ≡ current_cfg w0
  unfolding current_cfg
  current_cfg-same s = ap (λ c. Option.get_or c default_cfg) s.same_config

  forward_parsed-Passed :
      (w : World k) (info : Ipv6Info)
      → SameMaps w w0
      → load_be16 k skb 12 ≡ some 0x86dd
      → parse_ipv6_base k skb 14 ≡ some info
      → Passed w0 skb (forward_parsed info skb now prandom w) ⊎ Targeted w0 skb
  unfolding forward_parsed
  forward_parsed-Passed w info s0 ethertype parses =
      let s1 = SameMaps-trans (forward_diagnose-SameMaps info w) s0 in
      let cfg = current_cfg (forward_diagnose info w) in
      let s = counted (pkts_nat64_dst ∷ []) (dbg_fwd_nat64_prefix_match ∷ []) s1 in
      elim (Bool-cases (same_bytes (take 12 info.dst) cfg.prefix96)) [
        | inr other ↦
            inl (rw (other, forward_parsed) (passed (counted [] (dbg_fwd_return_err ∷ []) s1)))
        | inl prefix ↦ elim (Bool-cases (is_extension_header info.next_header)) [
          | inl ext ↦ inl (
              rw (prefix, forward_parsed, ext)
                (passed (counted (unsupported_ipv6_extension_headers ∷ []) _ s)))
          | inr plain ↦
              elim (Bool-cases (not (info.next_header == 6) && not (info.next_header == 17))) [
                | inl unknown ↦ inl (
                    rw (prefix, forward_parsed, plain, unknown)
                      (passed (counted (unsupported_ipv6_non_tcp_udp ∷ []) _ s)))
                | inr known ↦ elim (Option-cases (select_v4_from_pool_ebpf info.src cfg)) [
                  | inl no_pool ↦
                      inl (rw (prefix, forward_parsed, plain, known, no_pool) (passed s))
                  | inr (ext_v4, selected) ↦ inr (record {
                    info = info;
                    ethertype = ethertype;
                    parses = parses;
                    to_prefix =
                        same_bytes_lem _ _ prefix ∙ ap (λ c. c.prefix96) (current_cfg-same s1);
                    plain = plain;
                    transport = known_transport info.next_header known;
                    ext_v4 = ext_v4;
                    selected =
                        ap (select_v4_from_pool_ebpf info.src) (sym (current_cfg-same s1))
                        ∙ selected;
                  })
                ]
              ]
        ]
      ]

  -- A packet passes through the forward classifier unchanged, and changes no map, unless it is an
  -- IPv6 packet to an address under the prefix of the configuration, of TCP or UDP right behind the
  -- IPv6 header, from a client that the pool has an external address for.
  pub try_nat64_forward-Passed :
      Passed w0 skb (try_nat64_forward skb now prandom w0) ⊎ Targeted w0 skb
  unfolding try_nat64_forward
  try_nat64_forward-Passed =
      let s = with_counters-SameMaps (pkts_total ∷ []) (dbg_fwd_enter ∷ []) w0 in
      let s1 = counted (pkts_ipv6 ∷ []) (dbg_fwd_eth_ipv6 ∷ []) s in
      elim (Option-cases (load_be16 k skb 12)) [
        | inl e ↦ inl (rw (e, try_nat64_forward) (passed s))
        | inr (ether_type, e) ↦ elim (Bool-cases (not (ether_type == 0x86dd))) [
          | inl other ↦
              inl
                (rw (e, try_nat64_forward, other) (passed (counted [] (dbg_fwd_return_err ∷ []) s)))
          | inr ipv6 ↦ elim (Option-cases (parse_ipv6_base k skb 14)) [
            | inl short ↦ inl (rw (e, try_nat64_forward, ipv6, short) (passed s1))
            | inr (info, parses) ↦
                let is_ipv6 : ether_type ≡ 0x86dd = ground arith in
                rw (e, try_nat64_forward, ipv6, parses)
                  (forward_parsed-Passed _ info (counted [] (pkts_ipv6_parsed_ok ∷ []) s1)
                    (e ∙ ap some is_ipv6) parses)
          ]
        ]
      ]
