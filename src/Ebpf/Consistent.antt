-- ===== src/Ebpf/Consistent.antt =====
-- The state that the classifiers and the timer of natto64-ebpf/src/lib.rs keep: every session has an
-- external address of the pool and a port of the configured range.
pub mod Sessions
pub mod Expiry
pub mod Forward
pub mod Reach
pub mod RoundTrip
use mathlib.Core.HLevel.{Discrete}
use mathlib.Core.Option
use mathlib.Core.Option.{some-injective}
use mathlib.Core.Path.{subst}
use natto.Common.{ℕ, ◌≤◌, ◌≡◌, sym, ◌∙◌, ap, List, Option, none, some, true, length}
use natto.Abi.{Nat64Config, NatKey, NatVal, FwdNatKey}
use natto.Abi.Keys.{NatKey-discrete, FwdNatKey-discrete}
use natto.Abi.ProdCounters.{ProdCounter}
use natto.Abi.DebugCounters.{DebugCounter}
use natto.Ebpf.Kernel.{Kernel, LruMap, IsLruMap, TimedFwdNatVal}
use natto.Ebpf.World.{World, with_counters, SameMaps, with_counters-SameMaps}
use natto.Ebpf.Pool.{v4_in_pool}
use natto.Ebpf.Sessions.{current_cfg, default_cfg}

-- Each entry of a map has the property.
module _ {K V : Type 0} (m : LruMap K V) (P : K → V → Type 0) where
  abbrev pub AllEntries : m.Map → Type 0
  AllEntries t = (key : K) (v : V) → m.get t key ≡ some v → P key v

  module _ (laws : IsLruMap m) (d : Discrete K) (t : m.Map) (key : K) (v : V)
      (all : AllEntries t) where
    pub AllEntries-insert : {u : m.Map} → P key v → m.insert t key v ≡ some u → AllEntries u
    AllEntries-insert {u} p e j x h = elim (d j key) [
      | yes same ↦
          let old = ap (m.get u) same ∙ laws.get-insert_self t key v e in
          subst (P j) (some-injective _ _ (sym old ∙ h)) (subst (λ i. P i v) (sym same) p)
      | no other ↦ all j x (laws.get-insert_ne t key j v e other h)
    ]

    pub AllEntries-write : {y : V} → m.get t key ≡ some y → P key v → AllEntries (m.write t key v)
    AllEntries-write stored p j x h = elim (d j key) [
      | yes same ↦
          let old = ap (m.get (m.write t key v)) same ∙ laws.get-write_self t key v stored in
          subst (P j) (some-injective _ _ (sym old ∙ h)) (subst (λ i. P i v) (sym same) p)
      | no other ↦ all j x (sym (laws.get-write_ne t key j v other) ∙ h)
    ]

  pub AllEntries-remove :
      (laws : IsLruMap m) (d : Discrete K) (t : m.Map) (key : K)
      → AllEntries t
      → AllEntries (m.remove t key)
  AllEntries-remove laws d t key all j x h = elim (d j key) [
    | yes same ↦
        absurd
          (none-ne-some (sym (ap (m.get (m.remove t key)) same ∙ laws.get-remove_self t key) ∙ h))
    | no other ↦ all j x (sym (laws.get-remove_ne t key j other) ∙ h)
  ]
    where
      none-ne-some : {x : V} → none ≡ some x → ⊥
      none-ne-some q = cc

-- An external address and port of the configuration.
pub record IsExternal (cfg : Nat64Config) (ext_v4 ext_port : ℕ) : Type 0 where
  pub in_pool : v4_in_pool ext_v4 cfg ≡ true
  pub above_min : cfg.port_min ≤ ext_port
  pub below_max : ext_port ≤ cfg.port_max

module _ (k : Kernel) (cfg : Nat64Config) where
  abbrev pub FwdOk : FwdNatKey → TimedFwdNatVal k.Timer → Type 0
  FwdOk key value = IsExternal cfg value.ext_v4 value.ext_port

  abbrev pub NatOk : NatKey → NatVal → Type 0
  NatOk key value = IsExternal cfg key.ext_v4 key.ext_port × (length value.vm_v6 ≡ 16)

module _ {k : Kernel} (cfg : Nat64Config) where
  pub record IsConsistent (w : World k) : Type 0 where
    pub has_config : current_cfg w ≡ cfg
    pub fwd_ok : AllEntries k.fwd_maps (FwdOk k cfg) w.fwd_nat
    pub nat_ok : AllEntries k.nat_maps (NatOk k cfg) w.nat

  pub searched-IsConsistent :
      {v w : World k}
      → IsConsistent w
      → v.config ≡ w.config
      → v.fwd_nat ≡ w.fwd_nat
      → v.nat ≡ w.nat
      → IsConsistent v
  unfolding current_cfg
  searched-IsConsistent c same_config same_fwd same_nat = record {
    has_config = ap (λ x. Option.get_or x default_cfg) same_config ∙ c.has_config;
    fwd_ok = subst (AllEntries k.fwd_maps (FwdOk k cfg)) (sym same_fwd) c.fwd_ok;
    nat_ok = subst (AllEntries k.nat_maps (NatOk k cfg)) (sym same_nat) c.nat_ok;
  }

  pub SameMaps-IsConsistent : {v w : World k} → SameMaps v w → IsConsistent w → IsConsistent v
  SameMaps-IsConsistent s c = searched-IsConsistent c s.same_config s.same_fwd s.same_nat

  pub counted-IsConsistent :
      (prods : List ProdCounter) (debugs : List DebugCounter) {w : World k}
      → IsConsistent w
      → IsConsistent (with_counters prods debugs w)
  counted-IsConsistent prods debugs c =
      SameMaps-IsConsistent (with_counters-SameMaps prods debugs _) c

  pub with_fwd-IsConsistent :
      {w : World k} (t : k.fwd_maps.Map)
      → IsConsistent w
      → AllEntries k.fwd_maps (FwdOk k cfg) t
      → IsConsistent (record w { fwd_nat = t })
  unfolding current_cfg
  with_fwd-IsConsistent t c ok = record {
    has_config = c.has_config;
    fwd_ok = ok;
    nat_ok = c.nat_ok;
  }

  pub with_nat-IsConsistent :
      {w : World k} (t : k.nat_maps.Map)
      → IsConsistent w
      → AllEntries k.nat_maps (NatOk k cfg) t
      → IsConsistent (record w { nat = t })
  unfolding current_cfg
  with_nat-IsConsistent t c ok = record {
    has_config = c.has_config;
    fwd_ok = c.fwd_ok;
    nat_ok = ok;
  }
