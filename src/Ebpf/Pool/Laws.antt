-- ===== src/Ebpf/Pool/Laws.antt =====
-- Pool selection against natto64-abi's `select_v4_from_pool`, and membership against the pool.
use natto.Common.{
  ℕ, zero, suc, ◌%◌, ◌≤◌, ◌<◌, ◌≡◌, ◌↔◌, refl, sym, ◌∙◌, List, true, some, ◌==◌, ==_iff, any_upto,
  any_upto-witness, any_upto_at, arith, dec_lt, byte_at,
}
use natto.Abi.{Nat64Config, v4_pool_max, hash_bytes, select_v4_from_pool}
use natto.Ebpf.Pool.{pool_entry, select_v4_from_pool_ebpf, pool_prefix_contains, v4_in_pool}

pool_entry_lem :
    (idx : ℕ) (cfg : Nat64Config) → idx < 16 → pool_entry idx cfg ≡ some (byte_at cfg.v4_pool idx)
unfolding pool_entry
pool_entry_lem zero cfg h = refl
pool_entry_lem (suc zero) cfg h = refl
pool_entry_lem (suc (suc zero)) cfg h = refl
pool_entry_lem (suc (suc (suc zero))) cfg h = refl
pool_entry_lem (suc (suc (suc (suc zero)))) cfg h = refl
pool_entry_lem (suc (suc (suc (suc (suc zero))))) cfg h = refl
pool_entry_lem (suc (suc (suc (suc (suc (suc zero)))))) cfg h = refl
pool_entry_lem (suc (suc (suc (suc (suc (suc (suc zero))))))) cfg h = refl
pool_entry_lem (suc (suc (suc (suc (suc (suc (suc (suc zero)))))))) cfg h = refl
pool_entry_lem (suc (suc (suc (suc (suc (suc (suc (suc (suc zero))))))))) cfg h = refl
pool_entry_lem (suc (suc (suc (suc (suc (suc (suc (suc (suc (suc zero)))))))))) cfg h = refl
pool_entry_lem (suc (suc (suc (suc (suc (suc (suc (suc (suc (suc (suc zero))))))))))) cfg h = refl
pool_entry_lem (suc (suc (suc (suc (suc (suc (suc (suc (suc (suc (suc (suc zero)))))))))))) cfg h =
    refl
pool_entry_lem (suc (suc (suc (suc (suc (suc (suc (suc (suc (suc (suc (suc (suc zero)))))))))))))
      cfg h =
    refl
pool_entry_lem
      (suc (suc (suc (suc (suc (suc (suc (suc (suc (suc (suc (suc (suc (suc zero)))))))))))))) cfg
      h =
    refl
pool_entry_lem
      (suc (suc (suc (suc (suc (suc (suc (suc (suc (suc (suc (suc (suc (suc (suc zero)))))))))))))))
      cfg h =
    refl
pool_entry_lem
      (suc
        (suc (suc (suc (suc (suc (suc (suc (suc (suc (suc (suc (suc (suc (suc (suc n))))))))))))))))
      cfg h =
    absurd (omega arith)

pool_prefix_contains_lem :
    (len v4 : ℕ) (cfg : Nat64Config)
    → len < 16
    → pool_prefix_contains (suc len) v4 cfg ≡ any_upto (λ i. v4 == byte_at cfg.v4_pool i) len
unfolding pool_prefix_contains any_upto
pool_prefix_contains_lem zero v4 cfg h = refl
pool_prefix_contains_lem (suc zero) v4 cfg h = refl
pool_prefix_contains_lem (suc (suc zero)) v4 cfg h = refl
pool_prefix_contains_lem (suc (suc (suc zero))) v4 cfg h = refl
pool_prefix_contains_lem (suc (suc (suc (suc zero)))) v4 cfg h = refl
pool_prefix_contains_lem (suc (suc (suc (suc (suc zero))))) v4 cfg h = refl
pool_prefix_contains_lem (suc (suc (suc (suc (suc (suc zero)))))) v4 cfg h = refl
pool_prefix_contains_lem (suc (suc (suc (suc (suc (suc (suc zero))))))) v4 cfg h = refl
pool_prefix_contains_lem (suc (suc (suc (suc (suc (suc (suc (suc zero)))))))) v4 cfg h = refl
pool_prefix_contains_lem (suc (suc (suc (suc (suc (suc (suc (suc (suc zero))))))))) v4 cfg h = refl
pool_prefix_contains_lem (suc (suc (suc (suc (suc (suc (suc (suc (suc (suc zero)))))))))) v4 cfg h =
    refl
pool_prefix_contains_lem (suc (suc (suc (suc (suc (suc (suc (suc (suc (suc (suc zero))))))))))) v4
      cfg h =
    refl
pool_prefix_contains_lem
      (suc (suc (suc (suc (suc (suc (suc (suc (suc (suc (suc (suc zero)))))))))))) v4 cfg h =
    refl
pool_prefix_contains_lem
      (suc (suc (suc (suc (suc (suc (suc (suc (suc (suc (suc (suc (suc zero))))))))))))) v4 cfg h =
    refl
pool_prefix_contains_lem
      (suc (suc (suc (suc (suc (suc (suc (suc (suc (suc (suc (suc (suc (suc zero)))))))))))))) v4
      cfg h =
    refl
pool_prefix_contains_lem
      (suc (suc (suc (suc (suc (suc (suc (suc (suc (suc (suc (suc (suc (suc (suc zero)))))))))))))))
      v4 cfg h =
    refl
pool_prefix_contains_lem
      (suc
        (suc (suc (suc (suc (suc (suc (suc (suc (suc (suc (suc (suc (suc (suc (suc n))))))))))))))))
      v4 cfg h =
    absurd (omega arith)

-- The dataplane's selection, which avoids indexing by a variable, is that of natto64-abi.
pub select_v4_from_pool_ebpf-eq :
    (vm_v6 : List ℕ) (cfg : Nat64Config)
    → select_v4_from_pool_ebpf vm_v6 cfg ≡ select_v4_from_pool vm_v6 cfg
unfolding select_v4_from_pool_ebpf select_v4_from_pool
select_v4_from_pool_ebpf-eq vm_v6 cfg =
    ground (arith, pool_entry_lem (hash_bytes vm_v6 0x811c_9dc5 % cfg.v4_pool_len) cfg)

pool_prefix_contains_iff :
    (len v4 : ℕ) (cfg : Nat64Config)
    → len < 16
    → (pool_prefix_contains (suc len) v4 cfg ≡ true)
      ↔ ((i : ℕ) × (i < suc len) × (byte_at cfg.v4_pool i ≡ v4))
pool_prefix_contains_iff len v4 cfg h = rw (pool_prefix_contains_lem len v4 cfg h) (
  (λ hit.
      let (i, below, e) = any_upto-witness (λ i. v4 == byte_at cfg.v4_pool i) len hit in
      (i, omega arith, sym ((==_iff v4 (byte_at cfg.v4_pool i)).0 e))),
  (λ found.
      any_upto_at (λ i. v4 == byte_at cfg.v4_pool i) len found.0 (omega arith)
        ((==_iff v4 (byte_at cfg.v4_pool found.0)).1 (sym found.2))),
)

-- Entry `i` of the pool is in use, and is `v4`.
abbrev pub Pooled : ℕ → Nat64Config → Type 0
Pooled v4 cfg =
    (i : ℕ) × (i < cfg.v4_pool_len) × (cfg.v4_pool_len ≤ v4_pool_max) × (byte_at cfg.v4_pool i ≡ v4)

v4_in_pool_small :
    (len v4 : ℕ) (cfg : Nat64Config)
    → cfg.v4_pool_len ≡ suc len
    → len < 16
    → v4_in_pool v4 cfg ≡ pool_prefix_contains (suc len) v4 cfg
unfolding v4_in_pool
v4_in_pool_small len v4 cfg e h = rw e (ground arith)

v4_in_pool_lem :
    (len v4 : ℕ) (cfg : Nat64Config)
    → cfg.v4_pool_len ≡ len
    → (v4_in_pool v4 cfg ≡ true) ↔ Pooled v4 cfg
unfolding v4_in_pool
v4_in_pool_lem zero v4 cfg e = (λ hit. absurd (ground arith), λ found. absurd (omega arith))
v4_in_pool_lem (suc len) v4 cfg e = elim (dec_lt len 16) [
  | yes small ↦
      let iff = pool_prefix_contains_iff len v4 cfg small in
      let same = v4_in_pool_small len v4 cfg e small in
      (
        (λ hit.
            let (i, below, at_i) = iff.0 (sym same ∙ hit) in (i, omega arith, omega arith, at_i)),
        (λ found. same ∙ iff.1 (found.0, omega arith, found.3)),
      )
  | no large ↦ (λ hit. absurd (ground arith), λ found. absurd (omega arith))
]

-- The chains of comparisons accept exactly the addresses among the first `v4_pool_len` entries
-- of the pool, for every length; a length of 0 or above 16 accepts none.
pub v4_in_pool_iff : (v4 : ℕ) (cfg : Nat64Config) → (v4_in_pool v4 cfg ≡ true) ↔ Pooled v4 cfg
v4_in_pool_iff v4 cfg = v4_in_pool_lem cfg.v4_pool_len v4 cfg refl

select_Pooled :
    (vm_v6 : List ℕ) (cfg : Nat64Config) {v4 : ℕ}
    → select_v4_from_pool vm_v6 cfg ≡ some v4
    → Pooled v4 cfg
unfolding select_v4_from_pool
select_Pooled vm_v6 cfg h =
    (hash_bytes vm_v6 0x811c_9dc5 % cfg.v4_pool_len, ground arith, ground arith, ground arith)

-- The external address that the forward path selects is one that the reverse path accepts.
pub select_v4_from_pool_ebpf-in_pool :
    (vm_v6 : List ℕ) (cfg : Nat64Config) {v4 : ℕ}
    → select_v4_from_pool_ebpf vm_v6 cfg ≡ some v4
    → v4_in_pool v4 cfg ≡ true
select_v4_from_pool_ebpf-in_pool vm_v6 cfg {v4} h =
    (v4_in_pool_iff v4 cfg).1
      (select_Pooled vm_v6 cfg (sym (select_v4_from_pool_ebpf-eq vm_v6 cfg) ∙ h))
