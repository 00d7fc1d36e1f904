-- ===== src/Userspace/Config/Starved.antt =====
-- A policy of one port in natto64/src/lib.rs, through the forward classifier of natto64-ebpf/src/lib.rs.
use natto.Common.{
  ℕ, ◌≡◌, refl, ◌∙◌, ap, inl, inr, List, [], ◌∷◌, not, ◌&&◌, Option, none, some, ◌==◌, ltb, take,
  to_be_bytes16, Option-cases, Bool-cases, arith,
}
use natto.Abi
use natto.Abi.{FwdNatKey, fwd_nat_key, nat64_embedded_v4_be}
use natto.Abi.ProdCounters.{
  ProdCounter, pkts_total, pkts_ipv6, pkts_nat64_dst, pkts_nat64_tcp, pkts_nat64_udp,
  fwd_nat_lookup_miss, port_alloc_err,
}
use natto.Abi.DebugCounters.{
  DebugCounter, dbg_fwd_enter, dbg_fwd_eth_ipv6, dbg_fwd_nat64_prefix_match, pkts_ipv6_parsed_ok,
  dbg_fwd_tcp_branch, dbg_fwd_udp_branch, proto_change_ok,
}
use natto.Ebpf.Kernel.{Kernel}
use natto.Ebpf.World.{World, with_counters, SameMaps, with_counters-SameMaps}
use natto.Ebpf.Pool.{select_v4_from_pool_ebpf}
use natto.Ebpf.Ports.{alloc_port}
use natto.Ebpf.Sessions.{current_cfg, create_mapping, lookup_or_create_mapping}
use natto.Ebpf.Sessions.Flow.{lookup_miss}
use natto.Ebpf.Packet.{to_be16, load_be16}
use natto.Ebpf.Packet.Transport.{tcp_ports, udp_fields, udp_ports_len}
use natto.Ebpf.Ipv6.{Ipv6Info, is_extension_header, parse_ipv6_base}
use natto.Ebpf.Sampling.{same_bytes}
use natto.Ebpf.Reverse.Rewrite.{Outcome, pass}
use natto.Ebpf.Reverse.Untouched.{SameMaps-trans}
use natto.Ebpf.Forward.{
  forward_tcp_mapped, forward_tcp, forward_udp_read, forward_udp, forward_diagnose, forward_parsed,
  try_nat64_forward,
}
use natto.Ebpf.Forward.Guard.{forward_diagnose-SameMaps, current_cfg-same}
use natto.Userspace.System.{System}
use natto.Userspace.Error.{ok}
use natto.Userspace.Config.{Nat64Config, validate, dataplane_config}
use natto.Userspace.Config.Laws.{IsValid, validate_iff}

module _ {k : Kernel} (w0 : World k)
    (no_flow : (key : FwdNatKey) → k.fwd_maps.get w0.fwd_nat key ≡ none) (cfg : Abi.Nat64Config)
    (has_config : current_cfg w0 ≡ cfg)
    (starved : (ext_v4 proto : ℕ) (w : World k) → alloc_port cfg ext_v4 proto w ≡ (w, none)) where
  -- The packet is passed on, and no map changes.
  abbrev pub Unserved : Outcome k → Type 0
  Unserved r = (r.2 ≡ k.tc_act_pipe) × SameMaps r.0 w0

  passed : (skb : k.Skb) {w : World k} → SameMaps w w0 → Unserved (pass skb w)
  unfolding pass
  passed skb s = (refl, s)

  counted :
      (prods : List ProdCounter) (debugs : List DebugCounter) {w : World k}
      → SameMaps w w0
      → SameMaps (with_counters prods debugs w) w0
  counted prods debugs s = SameMaps-trans (with_counters-SameMaps prods debugs _) s

  unmapped :
      (key : FwdNatKey) (ext_v4 proto now prandom : ℕ) (w : World k)
      → SameMaps w w0
      → (SameMaps (lookup_or_create_mapping cfg key ext_v4 proto now prandom w).0 w0)
        × ((lookup_or_create_mapping cfg key ext_v4 proto now prandom w).1 ≡ none)
  unfolding create_mapping
  unmapped key ext_v4 proto now prandom w s =
      let w1 = with_counters (fwd_nat_lookup_miss ∷ []) [] w in
      let e = starved ext_v4 proto w1 in
      let no_port : (alloc_port cfg ext_v4 proto w1).1 ≡ none = ap (λ r. r.1) e in
      let same : SameMaps (alloc_port cfg ext_v4 proto w1).0 w0 =
        rw e (counted (fwd_nat_lookup_miss ∷ []) [] s) in
      let miss =
        lookup_miss cfg key ext_v4 proto now prandom w
          (ap (λ t. k.fwd_maps.get t key) s.same_fwd ∙ no_flow key) in
      rw miss (rw (no_port, create_mapping) (counted (port_alloc_err ∷ []) [] same, refl))

  mapped-Unserved :
      (info : Ipv6Info) (ext_v4 : ℕ) (ports : ℕ × ℕ) (skb : k.Skb) (now prandom : ℕ) (w : World k)
      → SameMaps w w0
      → Unserved (forward_tcp_mapped cfg info ext_v4 ports skb now prandom w)
  unfolding forward_tcp_mapped
  mapped-Unserved info ext_v4 (sport, dport) skb now prandom w s =
      let (same, none_left) =
        unmapped (fwd_nat_key info.src (nat64_embedded_v4_be info.dst) sport dport 6) ext_v4 6 now
          prandom w s in
      rw (none_left, forward_tcp_mapped) (passed skb (counted [] _ same))

  tcp-Unserved :
      (info : Ipv6Info) (ext_v4 : ℕ) (skb : k.Skb) (now prandom : ℕ) (w : World k)
      → SameMaps w w0
      → Unserved (forward_tcp cfg info ext_v4 skb now prandom w)
  unfolding forward_tcp
  tcp-Unserved info ext_v4 skb now prandom w s0 =
      let s = counted (pkts_nat64_tcp ∷ []) (dbg_fwd_tcp_branch ∷ []) s0 in
      let s1 = counted [] (proto_change_ok ∷ []) s in
      elim (Bool-cases (ltb 1500 info.payload_len)) [
        | inl long ↦ rw (long, forward_tcp) (passed skb (counted _ _ s))
        | inr fits ↦ elim (Option-cases (k.change_proto skb (to_be16 0x0800))) [
          | inl e ↦ rw (fits, forward_tcp, e) (passed skb (counted _ _ s))
          | inr (skb1, e1) ↦ elim (Option-cases (k.store skb1 12 (to_be_bytes16 0x0800))) [
            | inl e ↦ rw (fits, forward_tcp, e1, e) (passed skb1 (counted _ _ s1))
            | inr (skb2, e2) ↦ elim (Option-cases (tcp_ports k skb2 34)) [
              | inl e ↦ rw (fits, forward_tcp, e1, e2, e) (passed skb2 (counted _ _ s1))
              | inr (ports, e3) ↦
                  rw (fits, forward_tcp, e1, e2, e3)
                    (mapped-Unserved info ext_v4 ports skb2 now prandom _ s1)
            ]
          ]
        ]
      ]

  udp_read-Unserved :
      (info : Ipv6Info) (ext_v4 : ℕ) (skb : k.Skb) (now prandom : ℕ) (w : World k)
      (fields : Option (ℕ × ℕ × ℕ))
      → SameMaps w w0
      → Unserved (forward_udp_read cfg info ext_v4 skb now prandom (w, fields))
  unfolding forward_udp_read
  udp_read-Unserved info ext_v4 skb now prandom w none s = passed skb s
  udp_read-Unserved info ext_v4 skb now prandom w (some (sport, dport, udp_len)) s =
      let (same, none_left) =
        unmapped (fwd_nat_key info.src (nat64_embedded_v4_be info.dst) sport dport 17) ext_v4 17 now
          prandom w s in
      elim (Bool-cases (ltb udp_len 8)) [
        | inl short ↦ rw (short, forward_udp_read) (passed skb (counted _ _ (counted _ _ s)))
        | inr whole ↦ elim (Bool-cases (ltb 1500 udp_len)) [
          | inl long ↦ rw (whole, forward_udp_read, long) (passed skb (counted _ _ (counted _ _ s)))
          | inr fits ↦
              rw (whole, forward_udp_read, fits, none_left) (passed skb (counted [] _ same))
        ]
      ]

  udp-Unserved :
      (info : Ipv6Info) (ext_v4 : ℕ) (skb : k.Skb) (now prandom : ℕ) (w : World k)
      → SameMaps w w0
      → Unserved (forward_udp cfg info ext_v4 skb now prandom w)
  unfolding forward_udp udp_ports_len
  udp-Unserved info ext_v4 skb now prandom w s0 =
      let s = counted (pkts_nat64_udp ∷ []) (dbg_fwd_udp_branch ∷ []) s0 in
      elim (Option-cases (udp_fields k skb info.l4_abs_offset)) [
        | inl e ↦
            rw (e, udp_ports_len)
              (udp_read-Unserved info ext_v4 skb now prandom _ none (counted _ _ s))
        | inr (fields, e) ↦
            rw (e, udp_ports_len) (udp_read-Unserved info ext_v4 skb now prandom _ (some fields) s)
      ]

  parsed-Unserved :
      (info : Ipv6Info) (skb : k.Skb) (now prandom : ℕ) (w : World k)
      → SameMaps w w0
      → Unserved (forward_parsed info skb now prandom w)
  unfolding forward_parsed
  parsed-Unserved info skb now prandom w s0 =
      let s1 = SameMaps-trans (forward_diagnose-SameMaps info w) s0 in
      let cfg1 = current_cfg (forward_diagnose info w) in
      let same : current_cfg (forward_diagnose info w) ≡ cfg =
        current_cfg-same w0 skb now prandom s1 ∙ has_config in
      let s = counted (pkts_nat64_dst ∷ []) (dbg_fwd_nat64_prefix_match ∷ []) s1 in
      elim (Bool-cases (same_bytes (take 12 info.dst) cfg1.prefix96)) [
        | inr other ↦ rw (other, forward_parsed) (passed skb (counted _ _ s1))
        | inl prefix ↦ elim (Bool-cases (is_extension_header info.next_header)) [
          | inl ext ↦ rw (prefix, forward_parsed, ext) (passed skb (counted _ _ s))
          | inr plain ↦
              elim (Bool-cases (not (info.next_header == 6) && not (info.next_header == 17))) [
                | inl unknown ↦
                    rw (prefix, forward_parsed, plain, unknown) (passed skb (counted _ _ s))
                | inr known ↦ elim (Option-cases (select_v4_from_pool_ebpf info.src cfg1)) [
                  | inl no_pool ↦ rw (prefix, forward_parsed, plain, known, no_pool) (passed skb s)
                  | inr (ext_v4, selected) ↦ elim (Bool-cases (info.next_header == 6)) [
                    | inl tcp ↦
                        rw (prefix, forward_parsed, plain, known, selected, tcp, same)
                          (tcp-Unserved info ext_v4 skb now prandom _ s)
                    | inr udp ↦
                        rw (prefix, forward_parsed, plain, known, selected, udp, same)
                          (udp-Unserved info ext_v4 skb now prandom _ s)
                  ]
                ]
              ]
        ]
      ]

  try_nat64_forward-Unserved :
      (skb : k.Skb) (now prandom : ℕ) → Unserved (try_nat64_forward skb now prandom w0)
  unfolding try_nat64_forward
  try_nat64_forward-Unserved skb now prandom =
      let s = with_counters-SameMaps (pkts_total ∷ []) (dbg_fwd_enter ∷ []) w0 in
      let s1 = counted (pkts_ipv6 ∷ []) (dbg_fwd_eth_ipv6 ∷ []) s in
      elim (Option-cases (load_be16 k skb 12)) [
        | inl e ↦ rw (e, try_nat64_forward) (passed skb s)
        | inr (ether_type, e) ↦ elim (Bool-cases (not (ether_type == 0x86dd))) [
          | inl other ↦ rw (e, try_nat64_forward, other) (passed skb (counted _ _ s))
          | inr ipv6 ↦ elim (Option-cases (parse_ipv6_base k skb 14)) [
            | inl short ↦ rw (e, try_nat64_forward, ipv6, short) (passed skb s1)
            | inr (info, parses) ↦
                rw (e, try_nat64_forward, ipv6, parses)
                  (parsed-Unserved info skb now prandom _
                    (counted [] (pkts_ipv6_parsed_ok ∷ []) s1))
          ]
        ]
      ]

-- A policy narrowed to its lowest port.
abbrev pub first_port : Nat64Config → Nat64Config
first_port config = record config { port_max = config.port_min }

first_port-IsValid : (config : Nat64Config) → IsValid config → IsValid (first_port config)
first_port-IsValid config v = record {
  some_address = v.some_address;
  pool_fits = v.pool_fits;
  port_pos = v.port_pos;
  range = omega arith;
  timeout_pos = v.timeout_pos;
}

one_port :
    {k : Kernel} (config : Nat64Config) (bridge uplink ext_v4 proto : ℕ) (w : World k)
    → alloc_port (dataplane_config (first_port config) bridge uplink) ext_v4 proto w ≡ (w, none)
unfolding alloc_port dataplane_config
one_port config bridge uplink ext_v4 proto w = ground arith

-- Any policy that is accepted is accepted as well with its lowest port as its only one. With that
-- policy, the forward classifier passes on every packet, whatever its protocol, when its map has no
-- entry, and it leaves all maps as they are: no flow is ever opened.
pub one_port_policy_starved :
    (s : System) (config : Nat64Config)
    → validate s config ≡ ok tt
    → {k : Kernel} (bridge uplink : ℕ) (skb : k.Skb) (now prandom : ℕ) (w : World k)
    → current_cfg w ≡ dataplane_config (first_port config) bridge uplink
    → ((key : FwdNatKey) → k.fwd_maps.get w.fwd_nat key ≡ none)
    → (validate s (first_port config) ≡ ok tt)
      × ((try_nat64_forward skb now prandom w).2 ≡ k.tc_act_pipe)
      × SameMaps (try_nat64_forward skb now prandom w).0 w
one_port_policy_starved s config accepted bridge uplink skb now prandom w has_config no_flow =
    let valid = first_port-IsValid config ((validate_iff s config).0 accepted) in
    let unserved =
      try_nat64_forward-Unserved w no_flow (dataplane_config (first_port config) bridge uplink)
        has_config (one_port config bridge uplink) skb now prandom in
    ((validate_iff s (first_port config)).1 valid, unserved.0, unserved.1)
