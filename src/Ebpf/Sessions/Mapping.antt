-- ===== src/Ebpf/Sessions/Mapping.antt =====
-- What a packet of a flow does to the forward map of natto64-ebpf/src/lib.rs.
use natto.Common.{
  ℕ, ◌≡◌, refl, ◌∙◌, ap, inl, inr, List, [], ◌∷◌, Bool, true, false, Option, none, some, ◌==◌,
  if◌then◌else◌, Bool-cases, Option-cases, arith,
}
use natto.Abi.{Nat64Config, FwdNatKey}
use natto.Abi.ProdCounters.{
  ProdCounter, fwd_nat_insert_ok, fwd_nat_insert_err, fwd_nat_lookup_miss, port_alloc_ok,
}
use natto.Ebpf.Kernel.{Kernel, IsLruMap, TimedFwdNatVal}
use natto.Ebpf.World.{World, with_counters, with_counters-SameMaps}
use natto.Ebpf.Ports.{alloc_port}
use natto.Ebpf.Ports.Laws.{alloc_port-Searched}
use natto.Ebpf.Sessions.{
  current_cfg, session_timeout_ns, timed_fwd_nat_val, arm_timer, arm_session_timer, finish_mapping,
  insert_mapping, create_mapping, lookup_or_create_mapping,
}

module _ {k : Kernel} where
  -- The forward map holds a session of the key with this address, port and generation.
  pub record Maps (w : World k) (key : FwdNatKey) (ext_v4 ext_port generation : ℕ) : Type 0 where
    pub value : TimedFwdNatVal k.Timer
    pub stored : k.fwd_maps.get w.fwd_nat key ≡ some value
    pub has_ext_v4 : value.ext_v4 ≡ ext_v4
    pub has_ext_port : value.ext_port ≡ ext_port
    pub has_generation : value.generation ≡ generation

  -- A packet of a known flow refreshes its session: it gets the address, the port and the
  -- generation stored, the time of the packet is recorded, no port is allocated, and nothing
  -- else changes but counters.
  pub lookup_or_create_mapping_hit :
      (cfg : Nat64Config) (key : FwdNatKey) (selected proto now prandom : ℕ) (w : World k)
      (value : TimedFwdNatVal k.Timer)
      → k.fwd_maps.get w.fwd_nat key ≡ some value
      → let r = lookup_or_create_mapping cfg key selected proto now prandom w in
        (r.1 ≡ some (value.ext_v4, value.ext_port, value.generation))
        × (r.0.fwd_nat
            ≡ k.fwd_maps.write w.fwd_nat key
                (record value { last_seen_ns = now; observed_last_seen_ns = 0 }))
        × (r.0.nat ≡ w.nat)
        × (r.0.port_cursor ≡ w.port_cursor)
        × (r.0.port_cooldown ≡ w.port_cooldown)
  unfolding lookup_or_create_mapping with_counters
  lookup_or_create_mapping_hit cfg key selected proto now prandom w value h = ground arith

  arm_session_timer_at :
      (key : FwdNatKey) (w : World k) (value : TimedFwdNatVal k.Timer)
      → k.fwd_maps.get w.fwd_nat key ≡ some value
      → let armed = arm_timer k value.timer (session_timeout_ns (current_cfg w)) in
        arm_session_timer key w ≡ (
          record w { fwd_nat = k.fwd_maps.write w.fwd_nat key (record value { timer = armed.0 }) },
          armed.1,
        )
  unfolding arm_session_timer
  arm_session_timer_at key w value h = ground arith

  -- The forward map after a call for a key agrees with the mapping that the call returns, and
  -- has no session of the key where the call failed.
  abbrev pub Settled : FwdNatKey → World k × Option (ℕ × ℕ × ℕ) → Type 0
  Settled key (v, none) = k.fwd_maps.get v.fwd_nat key ≡ none
  Settled key (v, some (ext_v4, ext_port, generation)) = Maps v key ext_v4 ext_port generation

  module _ (laws : IsLruMap k.fwd_maps) (cfg : Nat64Config) (key : FwdNatKey) where
    arm_session_timer-Maps :
        (w : World k) (ext_v4 ext_port generation : ℕ)
        → Maps w key ext_v4 ext_port generation
        → Maps (arm_session_timer key w).0 key ext_v4 ext_port generation
    arm_session_timer-Maps w ext_v4 ext_port generation m =
        rw (arm_session_timer_at key w m.value m.stored) (record {
          value = _;
          stored = laws.get-write_self w.fwd_nat key _ m.stored;
          has_ext_v4 = m.has_ext_v4;
          has_ext_port = m.has_ext_port;
          has_generation = m.has_generation;
        })

    get-counted :
        (prods : List ProdCounter) (w : World k)
        → k.fwd_maps.get (with_counters prods [] w).fwd_nat key ≡ k.fwd_maps.get w.fwd_nat key
    get-counted prods w =
        ap (λ t. k.fwd_maps.get t key) (with_counters-SameMaps prods [] w).same_fwd

    Maps-counted :
        (prods : List ProdCounter) (w : World k) (ext_v4 ext_port generation : ℕ)
        → Maps w key ext_v4 ext_port generation
        → Maps (with_counters prods [] w) key ext_v4 ext_port generation
    Maps-counted prods w ext_v4 ext_port generation m = record {
      value = m.value;
      stored = get-counted prods w ∙ m.stored;
      has_ext_v4 = m.has_ext_v4;
      has_ext_port = m.has_ext_port;
      has_generation = m.has_generation;
    }

    finish-armed :
        (w : World k) (ext_v4 ext_port generation : ℕ) (armed : Bool)
        → Maps w key ext_v4 ext_port generation
        → Settled key (
            if armed
            then (with_counters (fwd_nat_insert_ok ∷ []) [] w, some (ext_v4, ext_port, generation))
            else (
              with_counters
                  (fwd_nat_insert_err ∷ [])
                  []
                  (record w { fwd_nat = k.fwd_maps.remove w.fwd_nat key }),
              none,
            ))
    finish-armed w ext_v4 ext_port generation true m = Maps-counted _ w ext_v4 ext_port generation m
    finish-armed w ext_v4 ext_port generation false m =
        get-counted _ _ ∙ laws.get-remove_self w.fwd_nat key

    finish_mapping-Settled :
        (w : World k) (ext_v4 ext_port generation : ℕ)
        → Maps w key ext_v4 ext_port generation
        → Settled key (finish_mapping cfg key (ext_v4, ext_port, generation) w)
    unfolding finish_mapping
    finish_mapping-Settled w ext_v4 ext_port generation m =
        elim (Bool-cases (cfg.session_timeout_secs == 0)) [
          | inl forever ↦ rw forever (finish-armed w ext_v4 ext_port generation true m)
          | inr expires ↦ rw expires (
              finish-armed (arm_session_timer key w).0 ext_v4 ext_port generation
                (arm_session_timer key w).1 (arm_session_timer-Maps w ext_v4 ext_port generation m))
        ]

    timed_fwd_nat_val-Maps :
        (ext_v4 ext_port generation now : ℕ) (w : World k)
        → k.fwd_maps.get w.fwd_nat key ≡ some (timed_fwd_nat_val k ext_v4 ext_port generation now)
        → Maps w key ext_v4 ext_port generation
    unfolding timed_fwd_nat_val
    timed_fwd_nat_val-Maps ext_v4 ext_port generation now w h = record {
      value = _;
      stored = h;
      has_ext_v4 = refl;
      has_ext_port = refl;
      has_generation = refl;
    }

    insert_mapping-Settled :
        (ext_v4 ext_port generation now : ℕ) (w : World k)
        → k.fwd_maps.get w.fwd_nat key ≡ none
        → Settled key (insert_mapping cfg key ext_v4 ext_port generation now w)
    unfolding insert_mapping
    insert_mapping-Settled ext_v4 ext_port generation now w miss =
        let value = timed_fwd_nat_val k ext_v4 ext_port generation now in
        elim (Option-cases (k.fwd_maps.insert w.fwd_nat key value)) [
          | inl full ↦ rw (full, insert_mapping) (get-counted _ w ∙ miss)
          | inr (inserted, e) ↦
              rw (e, insert_mapping)
                (finish_mapping-Settled (record w { fwd_nat = inserted }) ext_v4 ext_port generation
                  (timed_fwd_nat_val-Maps ext_v4 ext_port generation now _
                    (laws.get-insert_self w.fwd_nat key value e)))
        ]

    create_mapping-Settled :
        (selected proto now prandom : ℕ) (w : World k)
        → k.fwd_maps.get w.fwd_nat key ≡ none
        → Settled key (create_mapping cfg key selected proto now prandom w)
    unfolding create_mapping
    create_mapping-Settled selected proto now prandom w miss =
        let w1 = with_counters (fwd_nat_lookup_miss ∷ []) [] w in
        let searched = alloc_port-Searched cfg selected proto w1 in
        let v = (alloc_port cfg selected proto w1).0 in
        let still : k.fwd_maps.get v.fwd_nat key ≡ none =
          ap (λ t. k.fwd_maps.get t key) searched.same_fwd ∙ get-counted _ w ∙ miss in
        elim (Option-cases (alloc_port cfg selected proto w1).1) [
          | inl none_left ↦ rw (none_left, create_mapping) (get-counted _ v ∙ still)
          | inr (port, e) ↦
              rw (e, create_mapping)
                (insert_mapping-Settled selected port prandom now
                  (with_counters (port_alloc_ok ∷ []) [] v) (get-counted _ v ∙ still))
        ]

    -- A call returns the mapping that the forward map then holds for the flow, and leaves no
    -- session of the flow there when it fails, whether the flow was known, no port was free, the
    -- map was full or the timer could not be armed.
    pub lookup_or_create_mapping-Settled :
        (selected proto now prandom : ℕ) (w : World k)
        → Settled key (lookup_or_create_mapping cfg key selected proto now prandom w)
    unfolding lookup_or_create_mapping
    lookup_or_create_mapping-Settled selected proto now prandom w =
        elim (Option-cases (k.fwd_maps.get w.fwd_nat key)) [
          | inl miss ↦
              rw (miss, lookup_or_create_mapping)
                (create_mapping-Settled selected proto now prandom w miss)
          | inr (value, e) ↦
              rw (e, lookup_or_create_mapping)
                (Maps-counted _ _ value.ext_v4 value.ext_port value.generation (record {
                  value = record value { last_seen_ns = now; observed_last_seen_ns = 0 };
                  stored = laws.get-write_self w.fwd_nat key _ e;
                  has_ext_v4 = refl;
                  has_ext_port = refl;
                  has_generation = refl;
                }))
        ]
