-- ===== src/Abi/DebugCounters.antt =====
-- The diagnostic counters of natto64-abi/src/lib.rs: the fields of `DebugCounters`, and a value for each.
use natto.Common.{ℕ, saturating_add, ◌==◌, if◌then◌else◌}

pub data DebugCounter : Type 0 where
  dbg_fwd_enter dbg_fwd_eth_ipv6 dbg_fwd_nat64_prefix_match dbg_fwd_tcp_branch : DebugCounter
  dbg_fwd_udp_branch dbg_fwd_return_ok dbg_fwd_return_err dbg_rev_enter dbg_rev_eth_ipv4 :
      DebugCounter
  dbg_rev_pool_match dbg_rev_return_ok dbg_rev_return_err pkts_ipv6_parsed_ok pkts_ipv6_ext_hdr :
      DebugCounter
  pkts_ipv6_non_tcp_udp pkts_udp pkts_ipv4_to_v4src nat_insert_ok nat_insert_err : DebugCounter
  nat_insert_udp_ok nat_insert_udp_err port_alloc_probe port_alloc_collide cooldown_skip :
      DebugCounter
  cooldown_probe_more cooldown_push_ok cooldown_push_err dbg_fwd_dst_nat64_prefix : DebugCounter
  dbg_fwd_dst_global_non_nat64 dbg_fwd_dst_link_local dbg_fwd_dst_multicast dbg_fwd_dst_other :
      DebugCounter
  dbg_fwd_tcp_parse_err dbg_fwd_embedded_v4_extract_err dbg_fwd_nat_insert_err : DebugCounter
  dbg_fwd_adjust_room_err dbg_fwd_store_bytes_err dbg_fwd_write_ipv4_err dbg_fwd_l4_csum_err :
      DebugCounter
  dbg_fwd_l4_csum_pseudo_err dbg_fwd_l4_csum_port_err dbg_fwd_tcp_csum_sample_ok : DebugCounter
  dbg_fwd_tcp_csum_sample_err dbg_fwd_redirect_or_return_err proto_change_ok proto_change_err :
      DebugCounter
  nat64_v6_to_v4_err_change_proto nat64_v6_to_v4_err_l2_store nat64_v6_to_v4_udp_err_parse :
      DebugCounter
  nat64_v6_to_v4_udp_err_len nat64_v6_to_v4_udp_err_change_proto : DebugCounter
  nat64_v6_to_v4_udp_err_l2_store nat64_v6_to_v4_udp_err_udp_store nat64_v6_to_v4_udp_err_csum :
      DebugCounter
  rewrite_v4_src_ok rewrite_v4_src_err rewrite_tcp_sport_ok rewrite_tcp_sport_err : DebugCounter
  nat64_v4_to_v6_err_change_proto nat64_v4_to_v6_err_l2_store nat64_v4_to_v6_udp_err_parse :
      DebugCounter
  nat64_v4_to_v6_udp_err_len nat64_v4_to_v6_udp_err_change_proto : DebugCounter
  nat64_v4_to_v6_udp_err_l2_store nat64_v4_to_v6_udp_err_dport_store : DebugCounter
  nat64_v4_to_v6_udp_err_csum nat64_v4_to_v6_udp_zero_csum_unsupported rewrite_tcp_dport_ok :
      DebugCounter
  rewrite_tcp_dport_err dbg_fwd_tcp_csum_sample_attempt fwd_rewrite_ok_before_redirect :
      DebugCounter
  rev_rewrite_ok_before_redirect : DebugCounter

-- The position of a field in the structure.
abbrev pub debug_index : DebugCounter → ℕ
debug_index dbg_fwd_enter = 0
debug_index dbg_fwd_eth_ipv6 = 1
debug_index dbg_fwd_nat64_prefix_match = 2
debug_index dbg_fwd_tcp_branch = 3
debug_index dbg_fwd_udp_branch = 4
debug_index dbg_fwd_return_ok = 5
debug_index dbg_fwd_return_err = 6
debug_index dbg_rev_enter = 7
debug_index dbg_rev_eth_ipv4 = 8
debug_index dbg_rev_pool_match = 9
debug_index dbg_rev_return_ok = 10
debug_index dbg_rev_return_err = 11
debug_index pkts_ipv6_parsed_ok = 12
debug_index pkts_ipv6_ext_hdr = 13
debug_index pkts_ipv6_non_tcp_udp = 14
debug_index pkts_udp = 15
debug_index pkts_ipv4_to_v4src = 16
debug_index nat_insert_ok = 17
debug_index nat_insert_err = 18
debug_index nat_insert_udp_ok = 19
debug_index nat_insert_udp_err = 20
debug_index port_alloc_probe = 21
debug_index port_alloc_collide = 22
debug_index cooldown_skip = 23
debug_index cooldown_probe_more = 24
debug_index cooldown_push_ok = 25
debug_index cooldown_push_err = 26
debug_index dbg_fwd_dst_nat64_prefix = 27
debug_index dbg_fwd_dst_global_non_nat64 = 28
debug_index dbg_fwd_dst_link_local = 29
debug_index dbg_fwd_dst_multicast = 30
debug_index dbg_fwd_dst_other = 31
debug_index dbg_fwd_tcp_parse_err = 32
debug_index dbg_fwd_embedded_v4_extract_err = 33
debug_index dbg_fwd_nat_insert_err = 34
debug_index dbg_fwd_adjust_room_err = 35
debug_index dbg_fwd_store_bytes_err = 36
debug_index dbg_fwd_write_ipv4_err = 37
debug_index dbg_fwd_l4_csum_err = 38
debug_index dbg_fwd_l4_csum_pseudo_err = 39
debug_index dbg_fwd_l4_csum_port_err = 40
debug_index dbg_fwd_tcp_csum_sample_ok = 41
debug_index dbg_fwd_tcp_csum_sample_err = 42
debug_index dbg_fwd_redirect_or_return_err = 43
debug_index proto_change_ok = 44
debug_index proto_change_err = 45
debug_index nat64_v6_to_v4_err_change_proto = 46
debug_index nat64_v6_to_v4_err_l2_store = 47
debug_index nat64_v6_to_v4_udp_err_parse = 48
debug_index nat64_v6_to_v4_udp_err_len = 49
debug_index nat64_v6_to_v4_udp_err_change_proto = 50
debug_index nat64_v6_to_v4_udp_err_l2_store = 51
debug_index nat64_v6_to_v4_udp_err_udp_store = 52
debug_index nat64_v6_to_v4_udp_err_csum = 53
debug_index rewrite_v4_src_ok = 54
debug_index rewrite_v4_src_err = 55
debug_index rewrite_tcp_sport_ok = 56
debug_index rewrite_tcp_sport_err = 57
debug_index nat64_v4_to_v6_err_change_proto = 58
debug_index nat64_v4_to_v6_err_l2_store = 59
debug_index nat64_v4_to_v6_udp_err_parse = 60
debug_index nat64_v4_to_v6_udp_err_len = 61
debug_index nat64_v4_to_v6_udp_err_change_proto = 62
debug_index nat64_v4_to_v6_udp_err_l2_store = 63
debug_index nat64_v4_to_v6_udp_err_dport_store = 64
debug_index nat64_v4_to_v6_udp_err_csum = 65
debug_index nat64_v4_to_v6_udp_zero_csum_unsupported = 66
debug_index rewrite_tcp_dport_ok = 67
debug_index rewrite_tcp_dport_err = 68
debug_index dbg_fwd_tcp_csum_sample_attempt = 69
debug_index fwd_rewrite_ok_before_redirect = 70
debug_index rev_rewrite_ok_before_redirect = 71

-- The structure, as a function from its `u64` fields.
abbrev pub DebugCounters : Type 0
DebugCounters = DebugCounter → ℕ

-- `c.field = c.field.saturating_add(1)`.
unfoldable pub bump_debug : DebugCounter → DebugCounters → DebugCounters
bump_debug field c other =
    if debug_index field == debug_index other then saturating_add (c other) 1 else c other
