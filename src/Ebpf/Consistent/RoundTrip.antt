-- ===== src/Ebpf/Consistent/RoundTrip.antt =====
-- A flow through both classifiers of natto64-ebpf/src/lib.rs: the packet of a client, and the reply.
use mathlib.Core.Option
use mathlib.Core.Option.{some-injective}
use mathlib.Core.Path.{subst}
use natto.Common.{
  ℕ, ◌-◌, ◌≤◌, ◌≡◌, ◌≢◌, refl, arith, sym, ◌∙◌, ap, ap₂, inl, inr, some, true, ◌==◌, if◌then◌else◌,
  length,
}
use natto.Abi.{Nat64Config, NatVal, nat_key, new_forward_with_generation, nat64_embedded_v4_be}
use natto.Xlat.Checksum.Verify.{tcp}
use natto.Ebpf.Kernel.{Kernel, IsLruMap, TimedFwdNatVal}
use natto.Ebpf.World.{World}
use natto.Ebpf.Pool.{v4_in_pool}
use natto.Ebpf.Sessions.{current_cfg}
use natto.Ebpf.Ipv6.{Ipv6Info, parse_ipv6_base}
use natto.Ebpf.Forward.{try_nat64_forward}
use natto.Ebpf.Reverse.{Ipv4Info, try_nat64_reverse}
use natto.Ebpf.Reverse.Replies.{Segment, IsReply}
use natto.Ebpf.Reverse.Translate.{Rewritten, checked}
use natto.Ebpf.Reverse.Delivery.{Arrives, try_nat64_reverse_delivers}
use natto.Ebpf.Consistent.{IsExternal, IsConsistent}
use natto.Ebpf.Consistent.Forward.{HasSession, flow_key, session}
use natto.Ebpf.Consistent.Forward.Carried.{
  ReadsPorts, tcp_fields, udp_header, parse_ipv6_base-length,
}
use natto.Ebpf.Consistent.Forward.Carrying.{try_nat64_forward-Forwards}

six-ne-seventeen : {P : Type 0} → ◌≡◌ {A = ℕ} 6 17 → P
six-ne-seventeen h = absurd (omega arith)

-- The session of a flow, refreshed by a reply: the address and port of the client, and the remote
-- ones.
abbrev pub seen : Ipv6Info → ℕ → ℕ → ℕ → ℕ → NatVal
seen info sport dport generation later = record {
  vm_v6 = info.src;
  vm_port = sport;
  remote_v4 = nat64_embedded_v4_be info.dst;
  remote_port = dport;
  pad = 0;
  generation = generation;
  last_seen_ns = later;
}

-- A TCP packet from the remote end of a flow to an external end.
pub record Answers (k : Kernel) (info : Ipv6Info) (dport ext_v4 ext_port : ℕ) (skb' : k.Skb)
    (ip : Ipv4Info) : Type 0 where
  pub segment : Segment k skb' ip dport ext_port
  pub is_tcp : ip.proto ≡ 6
  pub from_remote : ip.ipv4_src ≡ nat64_embedded_v4_be info.dst
  pub to_external : ip.ipv4_dst ≡ ext_v4

-- A packet has one pair of ports.
ports_unique :
    (k : Kernel) (skb : k.Skb) (info : Ipv6Info) (s d s' d' : ℕ)
    → ReadsPorts k skb info 6 s d
    → ReadsPorts k skb info 6 s' d'
    → (s ≡ s') × (d ≡ d')
ports_unique k skb info s d s' d' (tcp_fields a b h e1 e2 e3) (tcp_fields a' b' h' f1 f2 f3) =
    let same_grown : a ≡ a' = cc in
    let same_typed : b ≡ b' = cc in
    let same : ◌≡◌ {A = ℕ × ℕ} (s, d) (s', d') = cc in
    (ap (λ (p : ℕ × ℕ). p.0) same, ap (λ (p : ℕ × ℕ). p.1) same)
ports_unique k skb info s d s' d' (udp_header len h e) r = six-ne-seventeen h
ports_unique k skb info s d s' d' (tcp_fields a b h e1 e2 e3) (udp_header len h' e) =
    six-ne-seventeen h'

module _ {k : Kernel} (info : Ipv6Info) (sport dport ext_v4 ext_port generation now : ℕ)
    (cfg : Nat64Config) (external : IsExternal cfg ext_v4 ext_port) (u : World k)
    (same_config : current_cfg u ≡ cfg)
    (stored : k.nat_maps.get u.nat (nat_key ext_v4 ext_port 6)
      ≡ some (session info sport dport generation now)) where
  Answers-IsReply :
      (skb' : k.Skb) (ip : Ipv4Info)
      → Answers k info dport ext_v4 ext_port skb' ip
      → IsReply u skb' ip dport ext_port (session info sport dport generation now)
  unfolding new_forward_with_generation
  Answers-IsReply skb' ip a = record {
    segment = a.segment;
    in_pool = ap₂ v4_in_pool a.to_external same_config ∙ external.in_pool;
    stored =
        ap₂ (λ d p. k.nat_maps.get u.nat (nat_key d ext_port p)) a.to_external a.is_tcp ∙ stored;
    from_address = sym a.from_remote;
    from_port = refl;
  }

  session_answered :
      (skb' : k.Skb) (later : ℕ) (ip : Ipv4Info)
      → length info.src ≡ 16
      → Answers k info dport ext_v4 ext_port skb' ip
      → Arrives k skb' ip
      → ip.total_len - ip.ihl_bytes ≤ 1500
      → (r : Rewritten k tcp skb'
          (ip.total_len - ip.ihl_bytes)
          ip.ipv4_src
          ip.ipv4_dst
          ext_port
          (seen info sport dport generation later))
        {final : k.Skb}
      → checked k tcp
          (ip.total_len - ip.ihl_bytes)
          ip.ipv4_src
          ip.ipv4_dst
          ext_port
          (seen info sport dport generation later)
          r.addressed
        ≡ (final, true)
      → ((try_nat64_reverse skb' later u).1 ≡ final)
        × ((try_nat64_reverse skb' later u).2 ≡ (
            if cfg.bridge_ifindex == 0 then k.tc_act_shot else k.redirect_neigh cfg.bridge_ifindex))
  unfolding new_forward_with_generation
  session_answered skb' later ip client a arrives small r done =
      let (packet, action) =
        try_nat64_reverse_delivers u skb' later ip dport ext_port
          (session info sport dport generation now) (Answers-IsReply skb' ip a) arrives a.is_tcp
          small client r done in
      (
        packet,
        action
            ∙ ap
                (λ (x : Nat64Config).
                  if x.bridge_ifindex == 0
                  then k.tc_act_shot
                  else k.redirect_neigh x.bridge_ifindex)
                same_config,
      )

module _ {k : Kernel} (fwd_laws : IsLruMap k.fwd_maps) (nat_laws : IsLruMap k.nat_maps)
    (cfg : Nat64Config) (skb : k.Skb) (now prandom : ℕ) (w : World k)
    (consistent : IsConsistent cfg w)
    (sent : (try_nat64_forward skb now prandom w).2 ≢ k.tc_act_pipe) (info : Ipv6Info)
    (parses : parse_ipv6_base k skb 14 ≡ some info) (is_tcp : info.next_header ≡ 6)
    (sport dport : ℕ) (ports : ReadsPorts k skb info 6 sport dport) (value : TimedFwdNatVal k.Timer)
    (mapped : k.fwd_maps.get
        (try_nat64_forward skb now prandom w).0.fwd_nat
        (flow_key info sport dport 6)
      ≡ some value) where
  abbrev after : World k
  after = (try_nat64_forward skb now prandom w).0

  -- What the packet left for its flow, under the external tuple of its mapping.
  opened :
      IsExternal cfg value.ext_v4 value.ext_port
      × (k.nat_maps.get after.nat (nat_key value.ext_v4 value.ext_port 6)
          ≡ some (session info sport dport value.generation now))
  opened =
      let c =
        (try_nat64_forward-Forwards fwd_laws nat_laws cfg skb now prandom w consistent).carried
          sent in
      let same : c.info ≡ info = some-injective _ _ (sym c.parses ∙ parses) in
      let proto : c.info.next_header ≡ 6 = ap (λ (i : Ipv6Info). i.next_header) same ∙ is_tcp in
      let (same_sport, same_dport) =
        ports_unique k skb info c.sport c.dport sport dport
          (subst (λ (t : Ipv6Info × ℕ). ReadsPorts k skb t.0 t.1 c.sport c.dport)
            (λ i. (same i, proto i)) c.ports)
          ports in
      let s : HasSession cfg info 6 sport dport c.ext_v4 c.ext_port c.generation now after =
        subst
          (λ (t : Ipv6Info × ℕ × ℕ × ℕ).
            HasSession {k = k} cfg t.0 t.1 t.2 t.3 c.ext_v4 c.ext_port c.generation now after)
          (λ i. (same i, proto i, same_sport i, same_dport i)) c.has_session in
      let held : s.mapped.value ≡ value = some-injective _ _ (sym s.mapped.stored ∙ mapped) in
      let address : c.ext_v4 ≡ value.ext_v4 =
        sym s.mapped.has_ext_v4 ∙ ap (λ (v : TimedFwdNatVal k.Timer). v.ext_v4) held in
      let port : c.ext_port ≡ value.ext_port =
        sym s.mapped.has_ext_port ∙ ap (λ (v : TimedFwdNatVal k.Timer). v.ext_port) held in
      let generation : c.generation ≡ value.generation =
        sym s.mapped.has_generation ∙ ap (λ (v : TimedFwdNatVal k.Timer). v.generation) held in
      elim s.opened [
        | inr (udp, full) ↦ six-ne-seventeen udp
        | inl stored ↦
            subst
              (λ (t : ℕ × ℕ × ℕ).
                IsExternal cfg t.0 t.1
                × (k.nat_maps.get after.nat (nat_key t.0 t.1 6)
                    ≡ some (session info sport dport t.2 now)))
              (λ i. (address i, port i, generation i)) (c.external, stored)
      ]

  refreshed_session :
      (t : ℕ)
      → Option.map
          (λ (v : NatVal). record v { last_seen_ns = t })
          (some (session info sport dport value.generation now))
        ≡ some (session info sport dport value.generation t)
  unfolding new_forward_with_generation
  refreshed_session t = refl

  -- A client sends a TCP packet in a consistent state, and the forward classifier does not pass it
  -- on. Then a TCP packet of at most 1500 bytes without IPv4 options, from the remote end of its flow
  -- to the external address and port that the forward map then holds for the flow, reaches the client
  -- in every later state with the same configuration in which the reverse map has the same entry for
  -- them, up to the time at which it was last seen, unless a helper of the kernel fails. It leaves
  -- with the IPv6 header that natto64-xlat builds for the address of the client, with the client's
  -- port as its destination and an updated checksum, and is redirected to the bridge, or dropped where
  -- none is configured.
  pub try_nat64_forward_answered :
      (u : World k) (skb' : k.Skb) (seen_ns later : ℕ) (ip : Ipv4Info)
      → current_cfg u ≡ cfg
      → k.nat_maps.get u.nat (nat_key value.ext_v4 value.ext_port 6)
        ≡ Option.map
            (λ (v : NatVal). record v { last_seen_ns = seen_ns })
            (k.nat_maps.get
              (try_nat64_forward skb now prandom w).0.nat
              (nat_key value.ext_v4 value.ext_port 6))
      → Answers k info dport value.ext_v4 value.ext_port skb' ip
      → Arrives k skb' ip
      → ip.total_len - ip.ihl_bytes ≤ 1500
      → (r : Rewritten k tcp skb'
          (ip.total_len - ip.ihl_bytes)
          ip.ipv4_src
          ip.ipv4_dst
          value.ext_port
          (seen info sport dport value.generation later))
        {final : k.Skb}
      → checked k tcp
          (ip.total_len - ip.ihl_bytes)
          ip.ipv4_src
          ip.ipv4_dst
          value.ext_port
          (seen info sport dport value.generation later)
          r.addressed
        ≡ (final, true)
      → ((try_nat64_reverse skb' later u).1 ≡ final)
        × ((try_nat64_reverse skb' later u).2 ≡ (
            if cfg.bridge_ifindex == 0 then k.tc_act_shot else k.redirect_neigh cfg.bridge_ifindex))
  try_nat64_forward_answered u skb' seen_ns later ip same_config kept a arrives small r done =
      session_answered info sport dport value.ext_v4 value.ext_port value.generation seen_ns cfg
        opened.0 u same_config
        (kept
          ∙ ap (Option.map (λ (v : NatVal). record v { last_seen_ns = seen_ns })) opened.1
          ∙ refreshed_session seen_ns)
        skb' later ip (parse_ipv6_base-length k skb 14 parses) a arrives small r done
