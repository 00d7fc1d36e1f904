-- ===== src/Ebpf/Reverse/Stages.antt =====
-- The stages of the classifier of replies in natto64-ebpf/src/lib.rs, from the parsed header on.
use mathlib.Core.Option
use mathlib.Core.Path.{subst}
use natto.Common.{
  ℕ, ◌+◌, ◌-◌, ◌≡◌, refl, sym, ◌∙◌, ap, inl, inr, [], ◌∷◌, true, false, not, ◌&&◌, ◌||◌, Option,
  none, some, ltb, ◌==◌, ==_iff, Option-cases, Bool-cases, arith,
}
use natto.Abi.{Nat64Config, NatVal, nat_lookup_key_from_ipv4, nat_tuple_matches}
use natto.Abi.ProdCounters.{
  pkts_ipv4_tcp, pkts_ipv4_udp, nat_lookup_miss, nat_lookup_hit, nat_lookup_tuple_mismatch,
  nat64_v4_to_v6_err_csum, nat64_v4_to_v6_udp_miss, nat64_v4_to_v6_udp_tuple_mismatch,
  unsupported_ipv4_fragments, unsupported_ipv4_non_tcp_udp,
}
use natto.Abi.DebugCounters.{
  nat64_v4_to_v6_udp_err_parse, nat64_v4_to_v6_udp_err_len, dbg_rev_pool_match, pkts_ipv4_to_v4src,
}
use natto.Ebpf.Kernel.{Kernel}
use natto.Ebpf.World.{World, with_counters, SameMaps}
use natto.Ebpf.Pool.{v4_in_pool}
use natto.Ebpf.Sessions.{current_cfg, default_cfg}
use natto.Ebpf.Packet.{max_l4_len}
use natto.Ebpf.Packet.Transport.{tcp_ports, udp_fields, udp_ports_len_reverse}
use natto.Ebpf.Reverse.{Ipv4Info, reverse_tcp, reverse_udp_read, reverse_udp, reverse_parsed}
use natto.Ebpf.Reverse.Untouched.{rewrite_tcp-SameMaps, rewrite_udp-SameMaps}
use natto.Ebpf.Reverse.Replies.{
  Header, Verdict, passed, counted, rejected, if_Verdict, answered, tuple_lem, is_reply,
}

udp_fields-ports :
    (k : Kernel) (skb : k.Skb) (off : ℕ) {sport dport len : ℕ}
    → udp_fields k skb off ≡ some (sport, dport, len)
    → tcp_ports k skb off ≡ some (sport, dport)
unfolding tcp_ports udp_fields
udp_fields-ports k skb off h = ground arith

udp_reverse-none :
    {k : Kernel} (skb : k.Skb) (off : ℕ) (w : World k)
    → udp_fields k skb off ≡ none
    → udp_ports_len_reverse skb off w
      ≡ (with_counters [] (nat64_v4_to_v6_udp_err_parse ∷ []) w, none)
unfolding udp_ports_len_reverse
udp_reverse-none skb off w h = ground arith

udp_reverse-some :
    {k : Kernel} (skb : k.Skb) (off : ℕ) (w : World k) {fields : ℕ × ℕ × ℕ}
    → udp_fields k skb off ≡ some fields
    → udp_ports_len_reverse skb off w ≡ (w, some fields)
unfolding udp_ports_len_reverse
udp_reverse-some skb off w h = ground arith

udp_tuple :
    (value : NatVal) (src sport : ℕ)
    → (not (value.remote_v4 == src) || not (value.remote_port == sport)) ≡ false
    → (value.remote_v4 ≡ src) × (value.remote_port ≡ sport)
udp_tuple value src sport h = ground arith

module _ {k : Kernel} (w0 : World k) (skb : k.Skb) (now : ℕ) (cfg : Nat64Config) (ip : Ipv4Info)
    (in_pool : v4_in_pool ip.ipv4_dst (current_cfg w0) ≡ true) (header : Header k skb ip)
    (unfragmented : ip.is_fragment ≡ false) where
  reverse_tcp-Verdict :
      (w : World k)
      → ip.proto ≡ 6
      → SameMaps w w0
      → Verdict w0 skb now (reverse_tcp cfg ip skb now w)
  unfolding reverse_tcp
  reverse_tcp-Verdict w is_tcp s0 =
      let s = counted w0 skb now (pkts_ipv4_tcp ∷ []) (pkts_ipv4_to_v4src ∷ []) s0 in
      let w1 = with_counters (pkts_ipv4_tcp ∷ []) (pkts_ipv4_to_v4src ∷ []) w in
      elim (Bool-cases (ltb max_l4_len (ip.total_len - ip.ihl_bytes))) [
        | inl long ↦
            rw (long, reverse_tcp)
              (rejected w0 skb now (counted w0 skb now (nat64_v4_to_v6_err_csum ∷ []) [] s))
        | inr fits ↦ elim (Option-cases (tcp_ports k skb (14 + ip.ihl_bytes))) [
          | inl e ↦ rw (fits, reverse_tcp, e) (passed w0 skb now s)
          | inr ((sport, dport), ports) ↦
              elim (Option-cases
                (k.nat_maps.get w1.nat (nat_lookup_key_from_ipv4 ip.ipv4_dst dport 6))) [
                  | inl e ↦
                      rw (fits, reverse_tcp, ports, e)
                        (passed w0 skb now (counted w0 skb now (nat_lookup_miss ∷ []) _ s))
                  | inr (value, stored) ↦
                      let hit = counted w0 skb now (nat_lookup_hit ∷ []) [] s in
                      elim (Bool-cases (not (nat_tuple_matches value ip.ipv4_src sport))) [
                        | inl foreign ↦
                            rw (fits, reverse_tcp, ports, stored, foreign)
                              (passed w0 skb now (
                                counted w0 skb now
                                  (nat_lookup_tuple_mismatch ∷ nat_lookup_miss ∷ []) _ hit))
                        | inr same ↦
                            rw (fits, reverse_tcp, ports, stored, same)
                              (inr (
                                answered w0 skb now ip sport dport 6 value
                                  (is_reply w0 skb now cfg ip in_pool header unfragmented w1 6 sport
                                    dport value is_tcp (inl refl) s ports stored
                                    (tuple_lem w0 skb now value ip.ipv4_src sport same))
                                  is_tcp hit (rewrite_tcp-SameMaps _ cfg _ _ _ _ _ skb)))
                      ]
                ]
        ]
      ]

  udp_read-Verdict :
      (w : World k) (sport dport len : ℕ)
      → ip.proto ≡ 17
      → SameMaps w w0
      → udp_fields k skb (14 + ip.ihl_bytes) ≡ some (sport, dport, len)
      → Verdict w0 skb now (reverse_udp_read cfg ip skb now (w, some (sport, dport, len)))
  unfolding reverse_udp_read
  udp_read-Verdict w sport dport len is_udp s fields =
      elim (Bool-cases (ltb len 8 || ltb max_l4_len len || ltb ip.total_len (ip.ihl_bytes + len))) [
        | inl bad ↦
            rw (bad, reverse_udp_read)
              (rejected w0 skb now (counted w0 skb now [] (nat64_v4_to_v6_udp_err_len ∷ []) s))
        | inr fits ↦
            elim (Option-cases
              (k.nat_maps.get w.nat (nat_lookup_key_from_ipv4 ip.ipv4_dst dport 17))) [
                | inl e ↦
                    rw (fits, e, reverse_udp_read)
                      (passed w0 skb now (counted w0 skb now (nat64_v4_to_v6_udp_miss ∷ []) _ s))
                | inr (value, stored) ↦
                    elim (Bool-cases
                      (not (value.remote_v4 == ip.ipv4_src) || not (value.remote_port == sport))) [
                        | inl foreign ↦
                            rw (fits, stored, foreign, reverse_udp_read)
                              (rejected w0 skb now
                                (counted w0 skb now (nat64_v4_to_v6_udp_tuple_mismatch ∷ []) [] s))
                        | inr same ↦
                            rw (fits, stored, same, reverse_udp_read)
                              (inr (
                                answered w0 skb now ip sport dport 17 value
                                  (is_reply w0 skb now cfg ip in_pool header unfragmented w 17 sport
                                    dport value is_udp (inr refl) s
                                    (udp_fields-ports k skb (14 + ip.ihl_bytes) fields) stored
                                    (udp_tuple value ip.ipv4_src sport same))
                                  is_udp s (rewrite_udp-SameMaps _ cfg _ _ _ _ _ _ skb)))
                      ]
              ]
      ]

  reverse_udp-Verdict :
      (w : World k)
      → ip.proto ≡ 17
      → SameMaps w w0
      → Verdict w0 skb now (reverse_udp cfg ip skb now w)
  unfolding reverse_udp reverse_udp_read
  reverse_udp-Verdict w is_udp s0 =
      let s = counted w0 skb now (pkts_ipv4_udp ∷ []) [] s0 in
      let w1 = with_counters (pkts_ipv4_udp ∷ []) [] w in
      let P = λ (r : World k × Option (ℕ × ℕ × ℕ)).
        Verdict w0 skb now (reverse_udp_read cfg ip skb now r) in
      elim (Option-cases (udp_fields k skb (14 + ip.ihl_bytes))) [
        | inl e ↦
            subst P (sym (udp_reverse-none skb (14 + ip.ihl_bytes) w1 e))
              (passed w0 skb now (counted w0 skb now [] (nat64_v4_to_v6_udp_err_parse ∷ []) s))
        | inr ((sport, dport, len), fields) ↦
            subst P (sym (udp_reverse-some skb (14 + ip.ihl_bytes) w1 fields))
              (udp_read-Verdict w1 sport dport len is_udp s fields)
      ]

is_udp :
    (proto : ℕ)
    → (not (proto == 6) && not (proto == 17)) ≡ false
    → (proto == 6) ≡ false
    → proto ≡ 17
is_udp proto known not_tcp = ground arith

module _ {k : Kernel} (w0 : World k) (skb : k.Skb) (now : ℕ) where
  current_cfg-same : {w : World k} → SameMaps w w0 → current_cfg w ≡ current_cfg w0
  unfolding current_cfg
  current_cfg-same s = ap (λ c. Option.get_or c default_cfg) s.same_config

  pub reverse_parsed-Verdict :
      (w : World k) (ip : Ipv4Info)
      → SameMaps w w0
      → Header k skb ip
      → Verdict w0 skb now (reverse_parsed ip skb now w)
  unfolding reverse_parsed
  reverse_parsed-Verdict w ip s0 header =
      let s = counted w0 skb now [] (dbg_rev_pool_match ∷ []) s0 in
      elim (Bool-cases (v4_in_pool ip.ipv4_dst (current_cfg w))) [
        | inr outside ↦ rw (outside, reverse_parsed) (rejected w0 skb now s0)
        | inl inside ↦
            let in_pool = ap (v4_in_pool ip.ipv4_dst) (sym (current_cfg-same s0)) ∙ inside in
            rw (inside, reverse_parsed)
              (if_Verdict w0 skb now ip.is_fragment _ _
                (λ fragment.
                  passed w0 skb now (counted w0 skb now (unsupported_ipv4_fragments ∷ []) _ s))
                (λ whole.
                  if_Verdict w0 skb now (not (ip.proto == 6) && not (ip.proto == 17)) _ _
                    (λ other.
                      passed w0 skb now
                        (counted w0 skb now (unsupported_ipv4_non_tcp_udp ∷ []) _ s))
                    (λ known.
                      if_Verdict w0 skb now (ip.proto == 6) _ _
                        (λ is_tcp.
                          reverse_tcp-Verdict w0 skb now _ ip in_pool header whole _
                            ((==_iff ip.proto 6).0 is_tcp) s)
                        (λ not_tcp.
                          reverse_udp-Verdict w0 skb now _ ip in_pool header whole _
                            (is_udp ip.proto known not_tcp) s))))
      ]
