-- ===== src/Userspace/Dataplane/Lifecycle.antt =====
-- The life of a dataplane of natto64/src/lib.rs, from loading to translating.
use mathlib.Core.Path.{subst}
use mathlib.Core.Option.{some-injective}
use natto.Common.{
  none-ne-some, ℕ, ◌≡◌, refl, sym, ◌∙◌, ap, inl, inr, Bool, true, false, none, some, Bool-cases,
  Sum-cases,
}
use Prim.Native.String.{String}
use natto.Abi
use natto.Userspace.System.{System, IsSystem, Text}
use natto.Userspace.Error.{Error, Result, ok, err, already_attached}
use natto.Userspace.Config.{Nat64Config, validate, dataplane_config}
use natto.Userspace.Config.Laws.{IsValid, validate_iff}
use natto.Userspace.Dataplane.{
  config_map_name, Nat64, Runtime, M, ◌>>◌, lift, set_nat64, load, configure, attach,
}
use natto.Userspace.Dataplane.Rules.{bind_rule, if_rule}
use natto.Userspace.Dataplane.Outcome.{Translating, attach_outcome}

free_absurd : {P : Type 0} {b : Bool} → b ≡ true → b ≡ false → P
free_absurd t f = absurd (cc)

free_absurd' : {P : Type 0} {b : Bool} → b ≡ false → b ≡ true → P
free_absurd' f t = absurd (cc)

some-IsValid : {config c : Nat64Config} → IsValid config → some config ≡ some c → IsValid c
some-IsValid v h = subst IsValid (some-injective _ _ h) v

module _ {s : System} where
  -- What can happen to a dataplane: its owner calls a method, whatever it returns, or the machine
  -- changes behind it.
  pub data Step (r v : Runtime s) : Type 0 where
    configures : (config : Nat64Config) → v ≡ (configure config r).0 → Step r v
    attaches : (bridge uplink : Text) → v ≡ (attach bridge uplink r).0 → Step r v
    changes : (os : s.Os) → v ≡ record r { os = os } → Step r v

  pub data Reach (r : Runtime s) : Runtime s → Type 0 where
    here : Reach r r
    next : {u v : Runtime s} → Reach r u → Step u v → Reach r v

  -- No change of the machine has taken a classifier off an interface, as the removal of a qdisc or of
  -- the interface would.
  abbrev pub Undisturbed : {r v : Runtime s} → Reach r v → Type 0
  Undisturbed here = Unit {0}
  Undisturbed (next reach (configures config e)) = Undisturbed reach
  Undisturbed (next reach (attaches bridge uplink e)) = Undisturbed reach
  Undisturbed (next {u} reach (changes os e)) =
      Undisturbed reach
      × ((program : String) (interface : Text)
          → s.IsAttached u.os u.nat64.ebpf program interface
          → s.IsAttached os u.nat64.ebpf program interface)

  -- The policy that is kept is valid, and the map of an attached dataplane holds it; its classifiers
  -- are on their interfaces in so far as `calm`.
  pub record IsSound (calm : Type 0) (v : Runtime s) : Type 0 where
    pub valid : (config : Nat64Config) → v.nat64.config ≡ some config → IsValid config
    pub translates :
        v.nat64.attached ≡ true
        → (config : Nat64Config) × (bridge : Text) × (uplink : Text) × (bridge_ifindex : ℕ)
          × (uplink_ifindex : ℕ) × (v.nat64.config ≡ some config)
          × (s.get v.nat64.ebpf config_map_name Abi.config_key
              ≡ some (dataplane_config config bridge_ifindex uplink_ifindex))
          × (calm → Translating config bridge uplink bridge_ifindex uplink_ifindex v)

  -- An attached dataplane is not touched any more.
  pub attached_configure :
      (config : Nat64Config) (r : Runtime s) → r.nat64.attached ≡ true → (configure config r).0 ≡ r
  unfolding configure
  attached_configure config r busy =
      if_rule (λ out. out.0 ≡ r) r.nat64.attached (lift (err already_attached))
        (lift (validate s config) >> set_nat64 (record r.nat64 { config = some config })) r
        (λ _. refl) (free_absurd busy)

  pub attached_attach :
      (bridge uplink : Text) (r : Runtime s)
      → r.nat64.attached ≡ true
      → (attach bridge uplink r).0 ≡ r
  unfolding attach
  attached_attach bridge uplink r busy =
      if_rule (λ out. out.0 ≡ r) r.nat64.attached (lift (err already_attached)) _ r (λ _. refl)
        (free_absurd busy)

  configured-IsSound :
      {calm : Type 0} (config : Nat64Config) (r : Runtime s)
      → r.nat64.attached ≡ false
      → IsSound calm r
      → IsSound calm (configure config r).0
  unfolding configure
  configured-IsSound {calm} config r free sound =
      let P : Runtime s × Result s (Unit {0}) → Type 0 = λ out. IsSound calm out.0 in
      let store : M s (Unit {0}) = set_nat64 (record r.nat64 { config = some config }) in
      if_rule P r.nat64.attached (lift (err already_attached)) (lift (validate s config) >> store) r
        (λ busy. sound)
        (λ _.
          bind_rule P (lift (validate s config)) (λ _. store) r
            (λ u accepted. record {
              valid = λ c h. some-IsValid ((validate_iff s config).0 accepted) h;
              translates = free_absurd' free;
            })
            (λ e _. sound))

  attached-IsSound :
      {calm : Type 0} (laws : IsSystem s) (bridge uplink : Text) (r : Runtime s)
      → r.nat64.attached ≡ false
      → IsSound calm r
      → IsSound calm (attach bridge uplink r).0
  attached-IsSound laws bridge uplink r free sound = elim (attach_outcome laws bridge uplink r) [
    | inl done ↦ record {
      valid = λ c h. sound.valid c (sym done.attached.same_config ∙ h);
      translates = λ h. (
        done.config,
        bridge,
        uplink,
        done.bridge_ifindex,
        done.uplink_ifindex,
        done.attached.same_config ∙ done.was_configured,
        done.attached.translating.configured,
        λ _. done.attached.translating,
      );
    }
    | inr failed ↦ record {
      valid = λ c h. sound.valid c (sym failed.extends.same_config ∙ h);
      translates = λ h. free_absurd' (failed.extends.same_attached ∙ free) h;
    }
  ]

  changed-IsSound :
      {calm : Type 0} (r : Runtime s) (os : s.Os)
      → IsSound calm r
      → IsSound
          (calm
            × ((program : String) (interface : Text)
                → s.IsAttached r.os r.nat64.ebpf program interface
                → s.IsAttached os r.nat64.ebpf program interface))
          (record r { os = os })
  changed-IsSound r os sound = record {
    valid = sound.valid;
    translates = λ h.
        let (config, bridge, uplink, bi, ui, kept, configured, translating) = sound.translates h in
        (
          config,
          bridge,
          uplink,
          bi,
          ui,
          kept,
          configured,
          λ (calm, keeps).
              let t = translating calm in
              record {
                marked = t.marked;
                configured = t.configured;
                forward = keeps _ _ t.forward;
                reverse = keeps _ _ t.reverse;
              },
        );
  }

  err-ne-loaded : {n : Nat64 s} (e : Error s) → err e ≡ ok n → ⊥
  err-ne-loaded e h = cc

  ok_loaded : {m n : Nat64 s} → ◌≡◌ {A = Result s (Nat64 s)} (ok m) (ok n) → m ≡ n
  ok_loaded h = cc

  pub load_fresh :
      (os : s.Os) (path : Text) {n : Nat64 s}
      → load os path ≡ ok n
      → (n.config ≡ none) × (n.attached ≡ false)
  unfolding load
  load_fresh os path h = elim (Sum-cases (s.read os path)) [
    | inl (source, e) ↦ absurd (err-ne-loaded _ (rw (e, load) at h))
    | inr (object, e) ↦ elim (Sum-cases (s.load object)) [
      | inl (source, e1) ↦ absurd (err-ne-loaded _ (rw (e, load, e1) at h))
      | inr (ebpf, e1) ↦
          let fresh = ok_loaded (rw (e, load, e1) at h) in
          (sym (ap (λ (n : Nat64 s). n.config) fresh), sym (ap (λ (n : Nat64 s). n.attached) fresh))
    ]
  ]

  loaded-IsSound :
      (os : s.Os) (path : Text) (r : Runtime s) → load os path ≡ ok r.nat64 → IsSound (Unit {0}) r
  loaded-IsSound os path r h =
      let fresh = load_fresh os path h in
      record {
        valid = λ c kept. absurd (none-ne-some (sym fresh.0 ∙ kept));
        translates = free_absurd' fresh.1;
      }

  pub Reach-IsSound :
      (laws : IsSystem s) (os : s.Os) (path : Text) {r v : Runtime s}
      → load os path ≡ ok r.nat64
      → (reach : Reach r v) → IsSound (Undisturbed reach) v
  Reach-IsSound laws os path {r} h here = loaded-IsSound os path r h
  Reach-IsSound laws os path h (next {u} reach (configures config e)) =
      let sound = Reach-IsSound laws os path h reach in
      elim (Bool-cases u.nat64.attached) [
        | inl busy ↦ rw (e, attached_configure config u busy) sound
        | inr free ↦ rw e (configured-IsSound config u free sound)
      ]
  Reach-IsSound laws os path h (next {u} reach (attaches bridge uplink e)) =
      let sound = Reach-IsSound laws os path h reach in
      elim (Bool-cases u.nat64.attached) [
        | inl busy ↦ rw (e, attached_attach bridge uplink u busy) sound
        | inr free ↦ rw e (attached-IsSound laws bridge uplink u free sound)
      ]
  Reach-IsSound laws os path h (next {u} reach (changes now e)) =
      rw e (changed-IsSound u now (Reach-IsSound laws os path h reach))
