-- ===== src/Ebpf/Pool.antt =====
-- natto64-ebpf/src/lib.rs: choosing an external address from the pool, and recognising one.
pub mod Laws
use natto.Common.{
  ℕ, ◌%◌, List, Bool, true, false, ◌||◌, Option, none, some, ltb, ◌==◌, if◌then◌else◌, byte_at,
}
use natto.Abi.{Nat64Config, v4_pool_max, hash_bytes}

-- `match idx` over the sixteen addresses, which the code loads before it selects.
unfoldable pub pool_entry : ℕ → Nat64Config → Option ℕ
pool_entry idx cfg =
    let v0 = byte_at cfg.v4_pool 0 in
    let v1 = byte_at cfg.v4_pool 1 in
    let v2 = byte_at cfg.v4_pool 2 in
    let v3 = byte_at cfg.v4_pool 3 in
    let v4 = byte_at cfg.v4_pool 4 in
    let v5 = byte_at cfg.v4_pool 5 in
    let v6 = byte_at cfg.v4_pool 6 in
    let v7 = byte_at cfg.v4_pool 7 in
    let v8 = byte_at cfg.v4_pool 8 in
    let v9 = byte_at cfg.v4_pool 9 in
    let v10 = byte_at cfg.v4_pool 10 in
    let v11 = byte_at cfg.v4_pool 11 in
    let v12 = byte_at cfg.v4_pool 12 in
    let v13 = byte_at cfg.v4_pool 13 in
    let v14 = byte_at cfg.v4_pool 14 in
    let v15 = byte_at cfg.v4_pool 15 in
    if idx == 0
    then some v0
    else if idx == 1
    then some v1
    else if idx == 2
    then some v2
    else if idx == 3
    then some v3
    else if idx == 4
    then some v4
    else if idx == 5
    then some v5
    else if idx == 6
    then some v6
    else if idx == 7
    then some v7
    else if idx == 8
    then some v8
    else if idx == 9
    then some v9
    else if idx == 10
    then some v10
    else if idx == 11
    then some v11
    else if idx == 12
    then some v12
    else if idx == 13
    then some v13
    else if idx == 14
    then some v14
    else if idx == 15
    then some v15
    else none

unfoldable pub select_v4_from_pool_ebpf : List ℕ → Nat64Config → Option ℕ
select_v4_from_pool_ebpf vm_v6 cfg =
    let len = cfg.v4_pool_len in
    if len == 0 || ltb v4_pool_max len
    then none
    else pool_entry (hash_bytes vm_v6 0x811c_9dc5 % len) cfg

-- `match len` over the sixteen lengths: is `v4` among the first `len` addresses.
unfoldable pub pool_prefix_contains : ℕ → ℕ → Nat64Config → Bool
pool_prefix_contains len v4 cfg =
    let p0 = byte_at cfg.v4_pool 0 in
    let p1 = byte_at cfg.v4_pool 1 in
    let p2 = byte_at cfg.v4_pool 2 in
    let p3 = byte_at cfg.v4_pool 3 in
    let p4 = byte_at cfg.v4_pool 4 in
    let p5 = byte_at cfg.v4_pool 5 in
    let p6 = byte_at cfg.v4_pool 6 in
    let p7 = byte_at cfg.v4_pool 7 in
    let p8 = byte_at cfg.v4_pool 8 in
    let p9 = byte_at cfg.v4_pool 9 in
    let p10 = byte_at cfg.v4_pool 10 in
    let p11 = byte_at cfg.v4_pool 11 in
    let p12 = byte_at cfg.v4_pool 12 in
    let p13 = byte_at cfg.v4_pool 13 in
    let p14 = byte_at cfg.v4_pool 14 in
    let p15 = byte_at cfg.v4_pool 15 in
    if len == 1
    then (v4 == p0)
    else if len == 2
    then (v4 == p0 || v4 == p1)
    else if len == 3
    then (v4 == p0 || v4 == p1 || v4 == p2)
    else if len == 4
    then (v4 == p0 || v4 == p1 || v4 == p2 || v4 == p3)
    else if len == 5
    then (v4 == p0 || v4 == p1 || v4 == p2 || v4 == p3 || v4 == p4)
    else if len == 6
    then (v4 == p0 || v4 == p1 || v4 == p2 || v4 == p3 || v4 == p4 || v4 == p5)
    else if len == 7
    then (v4 == p0 || v4 == p1 || v4 == p2 || v4 == p3 || v4 == p4 || v4 == p5 || v4 == p6)
    else if len == 8
    then (v4 == p0
        || v4 == p1
        || v4 == p2
        || v4 == p3
        || v4 == p4
        || v4 == p5
        || v4 == p6
        || v4 == p7)
    else if len == 9
    then (v4 == p0
        || v4 == p1
        || v4 == p2
        || v4 == p3
        || v4 == p4
        || v4 == p5
        || v4 == p6
        || v4 == p7
        || v4 == p8)
    else if len == 10
    then (v4 == p0
        || v4 == p1
        || v4 == p2
        || v4 == p3
        || v4 == p4
        || v4 == p5
        || v4 == p6
        || v4 == p7
        || v4 == p8
        || v4 == p9)
    else if len == 11
    then (v4 == p0
        || v4 == p1
        || v4 == p2
        || v4 == p3
        || v4 == p4
        || v4 == p5
        || v4 == p6
        || v4 == p7
        || v4 == p8
        || v4 == p9
        || v4 == p10)
    else if len == 12
    then (v4 == p0
        || v4 == p1
        || v4 == p2
        || v4 == p3
        || v4 == p4
        || v4 == p5
        || v4 == p6
        || v4 == p7
        || v4 == p8
        || v4 == p9
        || v4 == p10
        || v4 == p11)
    else if len == 13
    then (v4 == p0
        || v4 == p1
        || v4 == p2
        || v4 == p3
        || v4 == p4
        || v4 == p5
        || v4 == p6
        || v4 == p7
        || v4 == p8
        || v4 == p9
        || v4 == p10
        || v4 == p11
        || v4 == p12)
    else if len == 14
    then (v4 == p0
        || v4 == p1
        || v4 == p2
        || v4 == p3
        || v4 == p4
        || v4 == p5
        || v4 == p6
        || v4 == p7
        || v4 == p8
        || v4 == p9
        || v4 == p10
        || v4 == p11
        || v4 == p12
        || v4 == p13)
    else if len == 15
    then (v4 == p0
        || v4 == p1
        || v4 == p2
        || v4 == p3
        || v4 == p4
        || v4 == p5
        || v4 == p6
        || v4 == p7
        || v4 == p8
        || v4 == p9
        || v4 == p10
        || v4 == p11
        || v4 == p12
        || v4 == p13
        || v4 == p14)
    else if len == 16
    then (v4 == p0
        || v4 == p1
        || v4 == p2
        || v4 == p3
        || v4 == p4
        || v4 == p5
        || v4 == p6
        || v4 == p7
        || v4 == p8
        || v4 == p9
        || v4 == p10
        || v4 == p11
        || v4 == p12
        || v4 == p13
        || v4 == p14
        || v4 == p15)
    else false

unfoldable pub v4_in_pool : ℕ → Nat64Config → Bool
v4_in_pool v4 cfg =
    let len = cfg.v4_pool_len in
    if len == 0 || ltb v4_pool_max len then false else pool_prefix_contains len v4 cfg
