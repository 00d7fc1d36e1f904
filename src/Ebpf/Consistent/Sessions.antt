-- ===== src/Ebpf/Consistent/Sessions.antt =====
-- The mappings that natto64-ebpf/src/lib.rs creates keep the state consistent.
use mathlib.Core.Option.{some-injective}
use mathlib.Core.Path.{subst}
use natto.Common.{
  ℕ, ◌≡◌, refl, ◌∙◌, inl, inr, [], ◌∷◌, Bool, true, false, Option, none, some, ◌==◌, if◌then◌else◌,
  Bool-cases, Option-cases,
}
use natto.Abi.{Nat64Config, FwdNatKey}
use natto.Abi.Keys.{FwdNatKey-discrete}
use natto.Abi.ProdCounters.{
  fwd_nat_lookup_hit, fwd_nat_refresh_ok, fwd_nat_lookup_miss, fwd_nat_insert_ok,
  fwd_nat_insert_err, port_alloc_ok, port_alloc_err,
}
use natto.Ebpf.Kernel.{Kernel, IsLruMap, TimedFwdNatVal}
use natto.Ebpf.World.{World, with_counters, with_counters-SameMaps}
use natto.Ebpf.Pool.{v4_in_pool}
use natto.Ebpf.Ports.{alloc_port}
use natto.Ebpf.Ports.Laws.{alloc_port-Searched, alloc_port_sound}
use natto.Ebpf.Sessions.{
  timed_fwd_nat_val, arm_session_timer, finish_mapping, insert_mapping, create_mapping,
  lookup_or_create_mapping,
}
use natto.Ebpf.Consistent.{
  AllEntries-insert, AllEntries-write, AllEntries-remove, IsExternal, FwdOk, IsConsistent,
  searched-IsConsistent, counted-IsConsistent, with_fwd-IsConsistent,
}

some_external :
    {cfg : Nat64Config} {a p g a' p' g' : ℕ}
    → ◌≡◌ {A = Option (ℕ × ℕ × ℕ)} (some (a, p, g)) (some (a', p', g'))
    → IsExternal cfg a p
    → IsExternal cfg a' p'
some_external {cfg} h e = subst (λ (m : ℕ × ℕ × ℕ). IsExternal cfg m.0 m.1) (some-injective _ _ h) e

timed_external :
    (k : Kernel) (cfg : Nat64Config) (a p g now : ℕ)
    → IsExternal cfg a p
    → let value = timed_fwd_nat_val k a p g now in IsExternal cfg value.ext_v4 value.ext_port
unfolding timed_fwd_nat_val
timed_external k cfg a p g now e = e

module _ {k : Kernel} (laws : IsLruMap k.fwd_maps) (cfg : Nat64Config) where
  -- The state is consistent, and a mapping that is returned is external.
  pub record Granted (w : World k) (r : World k × Option (ℕ × ℕ × ℕ)) : Type 0 where
    pub consistent : IsConsistent cfg r.0
    pub external : {a p g : ℕ} → r.1 ≡ some (a, p, g) → IsExternal cfg a p
    pub same_nat : r.0.nat ≡ w.nat

  write_session :
      (key : FwdNatKey) (w : World k) (value changed : TimedFwdNatVal k.Timer)
      → IsConsistent cfg w
      → k.fwd_maps.get w.fwd_nat key ≡ some value
      → IsExternal cfg changed.ext_v4 changed.ext_port
      → IsConsistent cfg (record w { fwd_nat = k.fwd_maps.write w.fwd_nat key changed })
  write_session key w value changed c stored external = with_fwd-IsConsistent cfg _ c (
      AllEntries-write k.fwd_maps (FwdOk k cfg) laws FwdNatKey-discrete w.fwd_nat key changed
        c.fwd_ok stored external)

  arm_session_timer-IsConsistent :
      (key : FwdNatKey) (w : World k)
      → IsConsistent cfg w
      → IsConsistent cfg (arm_session_timer key w).0 × ((arm_session_timer key w).0.nat ≡ w.nat)
  unfolding arm_session_timer
  arm_session_timer-IsConsistent key w c = elim (Option-cases (k.fwd_maps.get w.fwd_nat key)) [
    | inl miss ↦ rw (miss, arm_session_timer) (c, refl)
    | inr (value, stored) ↦
        rw (stored, arm_session_timer)
          (write_session key w value _ c stored (c.fwd_ok key value stored), refl)
  ]

  finish_armed :
      (key : FwdNatKey) (w0 w : World k) (a p g : ℕ) (armed : Bool)
      → IsConsistent cfg w
      → IsExternal cfg a p
      → w.nat ≡ w0.nat
      → Granted w0 (
          if armed then (with_counters (fwd_nat_insert_ok ∷ []) [] w, some (a, p, g)) else (
            with_counters
                (fwd_nat_insert_err ∷ [])
                []
                (record w { fwd_nat = k.fwd_maps.remove w.fwd_nat key }),
            none,
          ))
  finish_armed key w0 w a p g true c external same = record {
    consistent = counted-IsConsistent cfg (fwd_nat_insert_ok ∷ []) [] c;
    external = λ h. some_external h external;
    same_nat = (with_counters-SameMaps (fwd_nat_insert_ok ∷ []) [] w).same_nat ∙ same;
  }
  finish_armed key w0 w a p g false c external same = record {
    consistent = counted-IsConsistent cfg (fwd_nat_insert_err ∷ []) [] (
        with_fwd-IsConsistent cfg _ c (
          AllEntries-remove k.fwd_maps (FwdOk k cfg) laws FwdNatKey-discrete w.fwd_nat key
            c.fwd_ok));
    external = λ h. absurd (cc);
    same_nat = (with_counters-SameMaps (fwd_nat_insert_err ∷ []) [] _).same_nat ∙ same;
  }

  finish_mapping-Granted :
      (key : FwdNatKey) (w0 w : World k) (a p g : ℕ)
      → IsConsistent cfg w
      → IsExternal cfg a p
      → w.nat ≡ w0.nat
      → Granted w0 (finish_mapping cfg key (a, p, g) w)
  unfolding finish_mapping
  finish_mapping-Granted key w0 w a p g c external same =
      elim (Bool-cases (cfg.session_timeout_secs == 0)) [
        | inl forever ↦ rw forever (finish_armed key w0 w a p g true c external same)
        | inr expires ↦
            let armed = arm_session_timer-IsConsistent key w c in
            rw expires (
              finish_armed key w0 (arm_session_timer key w).0 a p g (arm_session_timer key w).1
                armed.0 external (armed.1 ∙ same))
      ]

  -- A call that fails, in a consistent state.
  refused : {w0 w : World k} → IsConsistent cfg w → w.nat ≡ w0.nat → Granted w0 (w, none)
  refused c same = record { consistent = c; external = λ h. absurd (cc); same_nat = same }

  insert_mapping-Granted :
      (key : FwdNatKey) (a p g now : ℕ) (w0 w : World k)
      → IsConsistent cfg w
      → IsExternal cfg a p
      → w.nat ≡ w0.nat
      → Granted w0 (insert_mapping cfg key a p g now w)
  unfolding insert_mapping
  insert_mapping-Granted key a p g now w0 w c external same =
      let value = timed_fwd_nat_val k a p g now in
      elim (Option-cases (k.fwd_maps.insert w.fwd_nat key value)) [
        | inl full ↦
            rw (full, insert_mapping)
              (refused (counted-IsConsistent cfg (fwd_nat_insert_err ∷ []) [] c)
                ((with_counters-SameMaps (fwd_nat_insert_err ∷ []) [] w).same_nat ∙ same))
        | inr (inserted, e) ↦
            rw (e, insert_mapping)
              (finish_mapping-Granted key w0 (record w { fwd_nat = inserted }) a p g
                (with_fwd-IsConsistent cfg inserted c (
                  AllEntries-insert k.fwd_maps (FwdOk k cfg) laws FwdNatKey-discrete w.fwd_nat key
                    value c.fwd_ok (timed_external k cfg a p g now external) e))
                external same)
      ]

  create_mapping-Granted :
      (key : FwdNatKey) (selected proto now prandom : ℕ) (w : World k)
      → IsConsistent cfg w
      → v4_in_pool selected cfg ≡ true
      → Granted w (create_mapping cfg key selected proto now prandom w)
  unfolding create_mapping
  create_mapping-Granted key selected proto now prandom w c in_pool =
      let w1 = with_counters (fwd_nat_lookup_miss ∷ []) [] w in
      let searched = alloc_port-Searched cfg selected proto w1 in
      let v = (alloc_port cfg selected proto w1).0 in
      let c1 = counted-IsConsistent cfg (fwd_nat_lookup_miss ∷ []) [] c in
      let cv =
        searched-IsConsistent cfg c1 searched.same_config searched.same_fwd searched.same_nat in
      let same =
        searched.same_nat ∙ (with_counters-SameMaps (fwd_nat_lookup_miss ∷ []) [] w).same_nat in
      elim (Option-cases (alloc_port cfg selected proto w1).1) [
        | inl none_left ↦
            rw (none_left, create_mapping)
              (refused (counted-IsConsistent cfg (port_alloc_err ∷ []) [] cv)
                ((with_counters-SameMaps (port_alloc_err ∷ []) [] v).same_nat ∙ same))
        | inr (port, e) ↦
            let (low, high, _, _, _, _, _) =
              alloc_port_sound cfg selected proto w1 {port = port} {v = v} (λ i. (v, e i)) in
            rw (e, create_mapping)
              (insert_mapping-Granted key selected port prandom now w
                (with_counters (port_alloc_ok ∷ []) [] v)
                (counted-IsConsistent cfg (port_alloc_ok ∷ []) [] cv)
                (record { in_pool = in_pool; above_min = low; below_max = high })
                ((with_counters-SameMaps (port_alloc_ok ∷ []) [] v).same_nat ∙ same))
      ]

  -- A packet of a flow, known or new, keeps a consistent state, and what it is given is external.
  pub lookup_or_create_mapping-Granted :
      (key : FwdNatKey) (selected proto now prandom : ℕ) (w : World k)
      → IsConsistent cfg w
      → v4_in_pool selected cfg ≡ true
      → Granted w (lookup_or_create_mapping cfg key selected proto now prandom w)
  unfolding lookup_or_create_mapping
  lookup_or_create_mapping-Granted key selected proto now prandom w c in_pool =
      elim (Option-cases (k.fwd_maps.get w.fwd_nat key)) [
        | inl miss ↦
            rw (miss, lookup_or_create_mapping)
              (create_mapping-Granted key selected proto now prandom w c in_pool)
        | inr (value, stored) ↦
            let e = c.fwd_ok key value stored in
            rw (stored, lookup_or_create_mapping)
              (record {
                consistent =
                    counted-IsConsistent cfg (fwd_nat_lookup_hit ∷ fwd_nat_refresh_ok ∷ []) []
                      (write_session key w value _ c stored e);
                external = λ h. some_external h e;
                same_nat =
                    (with_counters-SameMaps (fwd_nat_lookup_hit ∷ fwd_nat_refresh_ok ∷ []) []
                      _).same_nat;
              })
      ]
