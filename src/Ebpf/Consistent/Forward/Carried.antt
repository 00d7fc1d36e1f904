-- ===== src/Ebpf/Consistent/Forward/Carried.antt =====
-- What a packet that the forward classifier of natto64-ebpf/src/lib.rs sends is carried by.
use natto.Common.{ℕ, ◌≡◌, ◌≢◌, refl, List, some, take, length, to_be_bytes16, arith}
use natto.Abi.{Nat64Config}
use natto.Ebpf.Kernel.{Kernel}
use natto.Ebpf.World.{World}
use natto.Ebpf.Packet.{to_be16}
use natto.Ebpf.Packet.Transport.{tcp_ports, udp_fields}
use natto.Ebpf.Ipv6.{Ipv6Info, ipv6_from_be_words, load_address, parse_ipv6_base}
use natto.Ebpf.Reverse.Rewrite.{Outcome, pass}
use natto.Ebpf.Consistent.{IsExternal, IsConsistent}
use natto.Ebpf.Consistent.Forward.{HasSession}

module _ (k : Kernel) where
  load_address-length :
      (skb : k.Skb) (offset : ℕ) {a : List ℕ} → load_address k skb offset ≡ some a → length a ≡ 16
  unfolding ipv6_from_be_words
  load_address-length skb offset h = ground arith

  pub parse_ipv6_base-length :
      (skb : k.Skb) (offset : ℕ) {info : Ipv6Info}
      → parse_ipv6_base k skb offset ≡ some info
      → length info.src ≡ 16
  unfolding parse_ipv6_base ipv6_from_be_words
  parse_ipv6_base-length skb offset h = ground arith

  -- Where the classifier reads the ports of a packet: those of TCP once the packet has become one of
  -- IPv4, those of UDP before.
  pub data ReadsPorts (skb : k.Skb) (info : Ipv6Info) (proto sport dport : ℕ) : Type 0 where
    tcp_fields :
        (skb1 skb2 : k.Skb)
        → proto ≡ 6
        → k.change_proto skb (to_be16 0x0800) ≡ some skb1
        → k.store skb1 12 (to_be_bytes16 0x0800) ≡ some skb2
        → tcp_ports k skb2 34 ≡ some (sport, dport)
        → ReadsPorts skb info proto sport dport
    udp_header :
        (udp_len : ℕ)
        → proto ≡ 17
        → udp_fields k skb info.l4_abs_offset ≡ some (sport, dport, udp_len)
        → ReadsPorts skb info proto sport dport

module _ {k : Kernel} where
  -- The flow of a packet that was sent, and its session in both maps.
  pub record Carried (cfg : Nat64Config) (skb : k.Skb) (now : ℕ) (v : World k) : Type 0 where
    pub info : Ipv6Info
    pub parses : parse_ipv6_base k skb 14 ≡ some info
    pub to_prefix : take 12 info.dst ≡ cfg.prefix96
    pub sport : ℕ
    pub dport : ℕ
    pub ports : ReadsPorts k skb info info.next_header sport dport
    pub ext_v4 : ℕ
    pub ext_port : ℕ
    pub generation : ℕ
    pub external : IsExternal cfg ext_v4 ext_port
    pub has_session :
        HasSession cfg info info.next_header sport dport ext_v4 ext_port generation now v

  -- The outcome of the classifier: the state stays consistent, and a packet that is not passed on is
  -- carried by a session.
  pub record Forwards (cfg : Nat64Config) (skb : k.Skb) (now : ℕ) (r : Outcome k) : Type 0 where
    pub consistent : IsConsistent cfg r.0
    pub carried : r.2 ≢ k.tc_act_pipe → Carried cfg skb now r.0

  pub unsent :
      (cfg : Nat64Config) (skb0 : k.Skb) (now : ℕ) (skb : k.Skb) {w : World k}
      → IsConsistent cfg w
      → Forwards cfg skb0 now (pass skb w)
  unfolding pass
  unsent cfg skb0 now skb c = record { consistent = c; carried = λ h. absurd (h refl) }
