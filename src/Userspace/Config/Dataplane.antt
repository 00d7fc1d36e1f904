-- ===== src/Userspace/Config/Dataplane.antt =====
-- A valid policy of natto64/src/lib.rs in the dataplane of natto64-ebpf/src/lib.rs.
use natto.Common.{
  ℕ, zero, suc, ◌%◌, ◌<◌, ◌≡◌, ◌↔◌, refl, sym, ◌∙◌, List, [], ◌∷◌, true, some, arith, length,
  replicate, byte_at,
}
use native.Mathlib.Nat.{mod-lt}
use natto.Abi.{hash_bytes, select_v4_from_pool}
use natto.Ebpf.Pool.{select_v4_from_pool_ebpf, v4_in_pool}
use natto.Ebpf.Pool.Laws.{select_v4_from_pool_ebpf-eq, v4_in_pool_iff}
use natto.Userspace.Config.{Nat64Config, fill_slots, dataplane_config}
use natto.Userspace.Config.Laws.{IsValid}

fill_slots-at :
    (n i : ℕ) (addresses : List ℕ)
    → i < n
    → byte_at (fill_slots (replicate n 0) addresses) i ≡ byte_at addresses i
unfolding fill_slots
fill_slots-at zero i addresses h = elim h [ ]
fill_slots-at (suc n) zero [] h = refl
fill_slots-at (suc n) (suc i) [] h = zeros n i
  where
    zeros : (n i : ℕ) → byte_at (replicate n 0) i ≡ 0
    zeros zero i = refl
    zeros (suc n) zero = refl
    zeros (suc n) (suc i) = zeros n i
fill_slots-at (suc n) zero (a ∷ addresses) h = refl
fill_slots-at (suc n) (suc i) (a ∷ addresses) h = fill_slots-at n i addresses (omega arith)

module _ (config : Nat64Config) (valid : IsValid config) (bridge uplink : ℕ) where
  pool_len : (dataplane_config config bridge uplink).v4_pool_len ≡ length config.v4_pool
  unfolding dataplane_config
  pool_len = omega arith

  pool_at :
      (i : ℕ)
      → i < length config.v4_pool
      → byte_at (dataplane_config config bridge uplink).v4_pool i ≡ byte_at config.v4_pool i
  unfolding dataplane_config
  pool_at i h = fill_slots-at 16 i config.v4_pool (omega arith)

  selected_slot : List ℕ → ℕ
  selected_slot vm_v6 = hash_bytes vm_v6 0x811c_9dc5 % length config.v4_pool

  select_at :
      (vm_v6 : List ℕ)
      → select_v4_from_pool vm_v6 (dataplane_config config bridge uplink)
        ≡ some (byte_at config.v4_pool (selected_slot vm_v6))
  unfolding select_v4_from_pool selected_slot
  select_at vm_v6 =
      let slot = hash_bytes vm_v6 0x811c_9dc5 % length config.v4_pool in
      let below : slot < length config.v4_pool = mod-lt _ valid.some_address in
      ground (arith, pool_len, pool_at slot below)

  -- With a valid policy the dataplane always finds an external address for a client, and it is
  -- one of the addresses of the policy.
  pub select_from_policy :
      (vm_v6 : List ℕ)
      → (i : ℕ) × (i < length config.v4_pool)
        × (select_v4_from_pool_ebpf vm_v6 (dataplane_config config bridge uplink)
            ≡ some (byte_at config.v4_pool i))
  unfolding selected_slot
  select_from_policy vm_v6 = (
    selected_slot vm_v6,
    mod-lt _ valid.some_address,
    select_v4_from_pool_ebpf-eq vm_v6 (dataplane_config config bridge uplink) ∙ select_at vm_v6,
  )

  -- With a valid policy the reverse path accepts exactly the addresses of the policy.
  pub v4_in_policy_iff :
      (v4 : ℕ)
      → (v4_in_pool v4 (dataplane_config config bridge uplink) ≡ true)
        ↔ ((i : ℕ) × (i < length config.v4_pool) × (byte_at config.v4_pool i ≡ v4))
  v4_in_policy_iff v4 =
      let iff = v4_in_pool_iff v4 (dataplane_config config bridge uplink) in
      (
        λ h.
            let (i, below, _, at_i) = iff.0 h in
            let inside : i < length config.v4_pool = omega (arith, pool_len) in
            (i, inside, sym (pool_at i inside) ∙ at_i),
        λ (i, below, at_i). iff.1 (
          i,
          omega (arith, pool_len),
          omega (arith, pool_len, valid.pool_fits),
          pool_at i below ∙ at_i,
        ),
      )
