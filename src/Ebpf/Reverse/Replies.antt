-- ===== src/Ebpf/Reverse/Replies.antt =====
-- Which packets the classifier of replies in natto64-ebpf/src/lib.rs touches.
use natto.Common.{
  ℕ, ◌+◌, ◌*◌, ◌≡◌, refl, sym, ◌∙◌, ap, inl, ◌⊎◌, List, [], ◌∷◌, Bool, true, false, not, some, ◌==◌,
  if◌then◌else◌, low_bits, arith,
}
use natto.Abi.{Nat64Config, NatVal, nat_key, nat_lookup_key_from_ipv4, nat_tuple_matches}
use natto.Abi.ProdCounters.{ProdCounter}
use natto.Abi.DebugCounters.{DebugCounter, dbg_rev_return_err}
use natto.Ebpf.Kernel.{Kernel}
use natto.Ebpf.World.{World, with_counters, SameMaps, with_counters-SameMaps}
use natto.Ebpf.Pool.{v4_in_pool}
use natto.Ebpf.Sessions.{current_cfg}
use natto.Ebpf.Packet.{load_u8, load_be16, load_be32}
use natto.Ebpf.Packet.Transport.{tcp_ports}
use natto.Ebpf.Reverse.{Ipv4Info, refresh}
use natto.Ebpf.Reverse.Rewrite.{Outcome, pass}
use natto.Ebpf.Reverse.Untouched.{SameMaps-trans}

module _ (k : Kernel) where
  -- The fields of the IPv4 header are those that the bytes of the packet give.
  pub record Header (skb : k.Skb) (ip : Ipv4Info) : Type 0 where
    pub vihl : ℕ
    pub reads_vihl : load_u8 k skb 14 ≡ some vihl
    pub has_ihl_bytes : ip.ihl_bytes ≡ low_bits vihl 4 * 4
    pub reads_total_len : load_be16 k skb 16 ≡ some ip.total_len
    pub flags : ℕ
    pub reads_flags : load_be16 k skb 20 ≡ some flags
    pub has_is_fragment : ip.is_fragment ≡ not (low_bits flags 14 == 0)
    pub reads_proto : load_u8 k skb 23 ≡ some ip.proto
    pub reads_src : load_be32 k skb 26 ≡ some ip.ipv4_src
    pub reads_dst : load_be32 k skb 30 ≡ some ip.ipv4_dst

  -- An unfragmented IPv4 packet of TCP or UDP, with its ports.
  pub record Segment (skb : k.Skb) (ip : Ipv4Info) (sport dport : ℕ) : Type 0 where
    pub header : Header skb ip
    pub unfragmented : ip.is_fragment ≡ false
    pub transport : (ip.proto ≡ 6) ⊎ (ip.proto ≡ 17)
    pub reads_ports : tcp_ports k skb (14 + ip.ihl_bytes) ≡ some (sport, dport)

module _ {k : Kernel} where
  -- The packet is a reply of the session `value`: it goes to the external tuple of the session,
  -- and comes from the remote tuple that the session was opened to.
  pub record IsReply (w : World k) (skb : k.Skb) (ip : Ipv4Info) (sport dport : ℕ) (value : NatVal)
      : Type 0 where
    pub segment : Segment k skb ip sport dport
    pub in_pool : v4_in_pool ip.ipv4_dst (current_cfg w) ≡ true
    pub stored : k.nat_maps.get w.nat (nat_key ip.ipv4_dst dport ip.proto) ≡ some value
    pub from_address : value.remote_v4 ≡ ip.ipv4_src
    pub from_port : value.remote_port ≡ sport

  -- The outcome of a packet that is a reply: its session is refreshed, and neither the forward map nor the
  -- configuration changes.
  pub record Answered (w : World k) (skb : k.Skb) (now : ℕ) (v : World k) : Type 0 where
    pub ip : Ipv4Info
    pub sport : ℕ
    pub dport : ℕ
    pub value : NatVal
    pub reply : IsReply w skb ip sport dport value
    pub refreshed :
        v.nat
        ≡ k.nat_maps.write w.nat
            (nat_key ip.ipv4_dst dport ip.proto)
            (record value { last_seen_ns = now })
    pub same_fwd : v.fwd_nat ≡ w.fwd_nat
    pub same_config : v.config ≡ w.config

  -- The packet goes on unchanged, and no map changes.
  pub record Passed (w : World k) (skb : k.Skb) (r : Outcome k) : Type 0 where
    pub same_packet : r.1 ≡ skb
    pub passes : r.2 ≡ k.tc_act_pipe
    pub same_maps : SameMaps r.0 w

  abbrev pub Verdict : World k → k.Skb → ℕ → Outcome k → Type 0
  Verdict w skb now r = Passed w skb r ⊎ Answered w skb now r.0

  module _ (w0 : World k) (skb : k.Skb) (now : ℕ) where
    pub passed : {w : World k} → SameMaps w w0 → Verdict w0 skb now (pass skb w)
    unfolding pass
    passed s = inl (record { same_packet = refl; passes = refl; same_maps = s })

    pub counted :
        (prods : List ProdCounter) (debugs : List DebugCounter) {w : World k}
        → SameMaps w w0
        → SameMaps (with_counters prods debugs w) w0
    counted prods debugs s = SameMaps-trans (with_counters-SameMaps prods debugs _) s

    pub rejected :
        {w : World k}
        → SameMaps w w0
        → Verdict w0 skb now (pass skb (with_counters [] (dbg_rev_return_err ∷ []) w))
    rejected s = passed (counted [] (dbg_rev_return_err ∷ []) s)

    pub if_Verdict :
        (b : Bool) (r s : Outcome k)
        → ((b ≡ true) → Verdict w0 skb now r)
        → ((b ≡ false) → Verdict w0 skb now s)
        → Verdict w0 skb now (if b then r else s)
    if_Verdict true r s hr hs = hr refl
    if_Verdict false r s hr hs = hs refl

    refresh_maps :
        {w : World k} (value : NatVal) (dst dport proto : ℕ)
        → SameMaps w w0
        → ((refresh value now dst dport proto w).nat
            ≡ k.nat_maps.write w0.nat
                (nat_key dst dport proto)
                (record value { last_seen_ns = now }))
          × ((refresh value now dst dport proto w).fwd_nat ≡ w0.fwd_nat)
          × ((refresh value now dst dport proto w).config ≡ w0.config)
    unfolding refresh nat_lookup_key_from_ipv4 with_counters
    refresh_maps value dst dport proto s = ground (arith, s.same_nat, s.same_fwd, s.same_config)

    pub answered :
        {w : World k} {v : World k} (ip : Ipv4Info) (sport dport proto : ℕ) (value : NatVal)
        → IsReply w0 skb ip sport dport value
        → ip.proto ≡ proto
        → SameMaps w w0
        → SameMaps v (refresh value now ip.ipv4_dst dport proto w)
        → Answered w0 skb now v
    answered ip sport dport proto value reply is_proto s kept =
        let maps = refresh_maps value ip.ipv4_dst dport proto s in
        record {
          ip = ip;
          sport = sport;
          dport = dport;
          value = value;
          reply = reply;
          refreshed =
              kept.same_nat
              ∙ maps.0
              ∙ ap
                  (λ p.
                    k.nat_maps.write w0.nat (nat_key ip.ipv4_dst dport p)
                      (record value { last_seen_ns = now }))
                  (sym is_proto);
          same_fwd = kept.same_fwd ∙ maps.1;
          same_config = kept.same_config ∙ maps.2;
        }

    pub tuple_lem :
        (value : NatVal) (src sport : ℕ)
        → not (nat_tuple_matches value src sport) ≡ false
        → (value.remote_v4 ≡ src) × (value.remote_port ≡ sport)
    unfolding nat_tuple_matches
    tuple_lem value src sport h = ground arith

    module _ (cfg : Nat64Config) (ip : Ipv4Info)
        (in_pool : v4_in_pool ip.ipv4_dst (current_cfg w0) ≡ true) (header : Header k skb ip)
        (unfragmented : ip.is_fragment ≡ false) where
      pub is_reply :
          (w : World k) (proto sport dport : ℕ) (value : NatVal)
          → ip.proto ≡ proto
          → (proto ≡ 6) ⊎ (proto ≡ 17)
          → SameMaps w w0
          → tcp_ports k skb (14 + ip.ihl_bytes) ≡ some (sport, dport)
          → k.nat_maps.get w.nat (nat_lookup_key_from_ipv4 ip.ipv4_dst dport proto) ≡ some value
          → (value.remote_v4 ≡ ip.ipv4_src) × (value.remote_port ≡ sport)
          → IsReply w0 skb ip sport dport value
      unfolding nat_lookup_key_from_ipv4
      is_reply w proto sport dport value is_proto transport s ports stored remote = record {
        segment = record {
          header = header;
          unfragmented = unfragmented;
          transport = rw is_proto transport;
          reads_ports = ports;
        };
        in_pool = in_pool;
        stored =
            ap (λ t. k.nat_maps.get t (nat_key ip.ipv4_dst dport ip.proto)) (sym s.same_nat)
            ∙ ap (λ p. k.nat_maps.get w.nat (nat_key ip.ipv4_dst dport p)) is_proto
            ∙ stored;
        from_address = remote.0;
        from_port = remote.1;
      }
