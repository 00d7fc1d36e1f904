-- ===== src/Abi/ProdCounters.antt =====
-- The operational counters of natto64-abi/src/lib.rs: the fields of `ProdCounters`, and a value for each.
use natto.Common.{ℕ, saturating_add, ◌==◌, if◌then◌else◌}

pub data ProdCounter : Type 0 where
  pkts_total pkts_ipv6 pkts_ipv4 pkts_nat64_dst pkts_nat64_tcp pkts_nat64_udp pkts_ipv4_tcp :
      ProdCounter
  pkts_ipv4_udp nat64_v6_to_v4_ok nat64_v6_to_v4_udp_ok nat64_v6_to_v4_err_write_hdr : ProdCounter
  nat64_v6_to_v4_err_csum nat64_v4_to_v6_ok nat64_v4_to_v6_udp_ok nat64_v4_to_v6_err_write_hdr :
      ProdCounter
  nat64_v4_to_v6_err_csum nat64_v4_to_v6_udp_miss nat64_v4_to_v6_udp_tuple_mismatch : ProdCounter
  nat_lookup_hit nat_lookup_miss nat_lookup_tuple_mismatch nat_hit_refresh_ok : ProdCounter
  nat_hit_refresh_err fwd_nat_lookup_hit fwd_nat_lookup_miss fwd_nat_insert_ok : ProdCounter
  fwd_nat_insert_err fwd_nat_refresh_ok fwd_nat_refresh_err port_alloc_ok port_alloc_err :
      ProdCounter
  port_alloc_exhausted unsupported_ipv6_extension_headers unsupported_ipv6_non_tcp_udp : ProdCounter
  unsupported_ipv4_fragments unsupported_ipv4_non_tcp_udp unsupported_ipv4_udp_zero_checksum :
      ProdCounter
  fwd_redirect_ok fwd_redirect_err rev_redirect_ok rev_redirect_err : ProdCounter

-- The position of a field in the structure.
abbrev pub prod_index : ProdCounter → ℕ
prod_index pkts_total = 0
prod_index pkts_ipv6 = 1
prod_index pkts_ipv4 = 2
prod_index pkts_nat64_dst = 3
prod_index pkts_nat64_tcp = 4
prod_index pkts_nat64_udp = 5
prod_index pkts_ipv4_tcp = 6
prod_index pkts_ipv4_udp = 7
prod_index nat64_v6_to_v4_ok = 8
prod_index nat64_v6_to_v4_udp_ok = 9
prod_index nat64_v6_to_v4_err_write_hdr = 10
prod_index nat64_v6_to_v4_err_csum = 11
prod_index nat64_v4_to_v6_ok = 12
prod_index nat64_v4_to_v6_udp_ok = 13
prod_index nat64_v4_to_v6_err_write_hdr = 14
prod_index nat64_v4_to_v6_err_csum = 15
prod_index nat64_v4_to_v6_udp_miss = 16
prod_index nat64_v4_to_v6_udp_tuple_mismatch = 17
prod_index nat_lookup_hit = 18
prod_index nat_lookup_miss = 19
prod_index nat_lookup_tuple_mismatch = 20
prod_index nat_hit_refresh_ok = 21
prod_index nat_hit_refresh_err = 22
prod_index fwd_nat_lookup_hit = 23
prod_index fwd_nat_lookup_miss = 24
prod_index fwd_nat_insert_ok = 25
prod_index fwd_nat_insert_err = 26
prod_index fwd_nat_refresh_ok = 27
prod_index fwd_nat_refresh_err = 28
prod_index port_alloc_ok = 29
prod_index port_alloc_err = 30
prod_index port_alloc_exhausted = 31
prod_index unsupported_ipv6_extension_headers = 32
prod_index unsupported_ipv6_non_tcp_udp = 33
prod_index unsupported_ipv4_fragments = 34
prod_index unsupported_ipv4_non_tcp_udp = 35
prod_index unsupported_ipv4_udp_zero_checksum = 36
prod_index fwd_redirect_ok = 37
prod_index fwd_redirect_err = 38
prod_index rev_redirect_ok = 39
prod_index rev_redirect_err = 40

-- The structure, as a function from its `u64` fields.
abbrev pub ProdCounters : Type 0
ProdCounters = ProdCounter → ℕ

-- `c.field = c.field.saturating_add(1)`.
unfoldable pub bump_prod : ProdCounter → ProdCounters → ProdCounters
bump_prod field c other =
    if prod_index field == prod_index other then saturating_add (c other) 1 else c other
