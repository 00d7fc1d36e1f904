-- ===== src/Userspace/Builder/Laws.antt =====
-- What a dataplane of natto64/src/builder.rs is configured with.
use mathlib.Core.Path.{subst}
use mathlib.Core.Option.{some-injective}
use natto.Common.{ℕ, ◌≡◌, refl, sym, ◌∙◌, ap, inl, inr, ◌⊎◌, false, some}
use natto.Userspace.System.{System, IsSystem, Text}
use natto.Userspace.Error.{Error, Result, ok, err, already_attached}
use natto.Userspace.Config.{Nat64Config, validate}
use natto.Userspace.Config.Laws.{IsValid, validate_iff}
use natto.Userspace.Interfaces.{interface_index}
use natto.Userspace.Dataplane.{Nat64, Runtime, M, ◌>>=◌, ◌>>◌, lift, set_nat64, load, configure}
use natto.Userspace.Dataplane
use natto.Userspace.Dataplane.Rules.{bind_rule, if_rule}
use natto.Userspace.Dataplane.Attach.{err-ne-ok}
use natto.Userspace.Dataplane.Outcome.{Translating, attach_outcome}
use natto.Userspace.Dataplane.Lifecycle.{load_fresh}
use natto.Userspace.Builder.{Nat64Builder, config, finish, build, attach}

module _ {s : System} where
  Loaded-cases :
      (a : Result s (Nat64 s)) → ((n : Nat64 s) × (a ≡ ok n)) ⊎ ((e : Error s) × (a ≡ err e))
  Loaded-cases (ok n) = inl (n, refl)
  Loaded-cases (err e) = inr (e, refl)

  finish_inverse :
      (out : Runtime s × Result s (Unit {0})) {os : s.Os} {n : Nat64 s}
      → finish out ≡ (os, ok n)
      → (out.1 ≡ ok tt) × (out.0.os ≡ os) × (out.0.nat64 ≡ n)
  finish_inverse (r, ok u) h = (refl, ap (λ p. p.0) h, ok_inverse (ap (λ p. p.1) h))
    where
      ok_inverse : {m n : Nat64 s} → ◌≡◌ {A = Result s (Nat64 s)} (ok m) (ok n) → m ≡ n
      ok_inverse e = cc
  finish_inverse (r, err e) h = absurd (err-ne-loaded (ap (λ p. p.1) h))
    where
      err-ne-loaded : {n : Nat64 s} → err e ≡ ok n → ⊥
      err-ne-loaded h = cc

  configure_ok :
      (c : Nat64Config) (r : Runtime s)
      → (configure c r).1 ≡ ok tt
      → IsValid c × ((configure c r).0 ≡ record r { nat64 = record r.nat64 { config = some c } })
  unfolding configure
  configure_ok c r =
      let P : Runtime s × Result s (Unit {0}) → Type 0 = λ out.
        out.1 ≡ ok tt
        → IsValid c × (out.0 ≡ record r { nat64 = record r.nat64 { config = some c } }) in
      let store : M s (Unit {0}) = set_nat64 (record r.nat64 { config = some c }) in
      if_rule P r.nat64.attached (lift (err already_attached)) (lift (validate s c) >> store) r
        (λ busy. err-ne-ok already_attached)
        (λ free.
          bind_rule P (lift (validate s c)) (λ _. store) r
            (λ u accepted h. ((validate_iff s c).0 accepted, refl)) (λ e refused. err-ne-ok e))

  -- A new dataplane keeps the policy of the builder, which is valid, and is not attached.
  pub record Built (self : Nat64Builder) (n : Nat64 s) : Type 0 where
    pub valid : IsValid (config self)
    pub kept : n.config ≡ some (config self)
    pub free : n.attached ≡ false

  err-ne-built :
      {os os' : s.Os} {n : Nat64 s} (e : Error s)
      → ◌≡◌ {A = s.Os × Result s (Nat64 s)} (os, err e) (os', ok n)
      → ⊥
  err-ne-built e h = cc

  build_lem :
      (self : Nat64Builder) (os : s.Os) {os' : s.Os} {n : Nat64 s}
      → build self os ≡ (os', ok n)
      → (os' ≡ os) × Built self n
  unfolding build
  build_lem self os h = elim (Loaded-cases (load os self.ebpf_object)) [
    | inr (e, fails) ↦ absurd (err-ne-built e (rw (fails, build) at h))
    | inl (m, loads) ↦
        let r : Runtime s = record { os = os; nat64 = m } in
        let done = finish_inverse (configure (config self) r) (rw (loads, build) at h) in
        let stored = configure_ok (config self) r done.0 in
        let same = sym done.2 ∙ ap (λ (v : Runtime s). v.nat64) stored.1 in
        (
          sym done.1 ∙ ap (λ (v : Runtime s). v.os) stored.1,
          record {
            valid = stored.0;
            kept = ap (λ (x : Nat64 s). x.config) same;
            free = ap (λ (x : Nat64 s). x.attached) same ∙ (load_fresh os self.ebpf_object loads).1;
          },
        )
  ]

  -- A dataplane that the builder attached: it translates by the builder's policy.
  pub record Serves (self : Nat64Builder) (bridge uplink : Text) (before after : s.Os) (n : Nat64 s)
      : Type 0 where
    pub valid : IsValid (config self)
    pub kept : n.config ≡ some (config self)
    pub bridge_ifindex : ℕ
    pub uplink_ifindex : ℕ
    pub reads_bridge : interface_index s before bridge ≡ ok bridge_ifindex
    pub reads_uplink : interface_index s before uplink ≡ ok uplink_ifindex
    pub translating :
        Translating
          (config self)
          bridge
          uplink
          bridge_ifindex
          uplink_ifindex
          (record { os = after; nat64 = n })

  Built-Serves :
      (laws : IsSystem s) (self : Nat64Builder) (bridge uplink : Text) (os : s.Os) (m : Nat64 s)
      {after : s.Os} {n : Nat64 s}
      → Built self m
      → finish (Dataplane.attach bridge uplink (record { os = os; nat64 = m })) ≡ (after, ok n)
      → Serves self bridge uplink os after n
  Built-Serves laws self bridge uplink os m {after} {n} built h =
      let r : Runtime s = record { os = os; nat64 = m } in
      let out = Dataplane.attach bridge uplink r in
      let done = finish_inverse out h in
      elim (attach_outcome laws bridge uplink r) [
        | inr failed ↦ absurd (err-ne-ok failed.error (sym failed.fails ∙ done.0))
        | inl success ↦
            let same : success.config ≡ config self =
              some-injective _ _ (sym success.was_configured ∙ built.kept) in
            let translating =
              subst
                (λ v.
                  Translating success.config bridge uplink success.bridge_ifindex
                    success.uplink_ifindex v)
                (λ i. record { os = done.1 i; nat64 = done.2 i }) success.attached.translating in
            record {
              valid = built.valid;
              kept =
                  ap (λ (x : Nat64 s). x.config) (sym done.2)
                  ∙ success.attached.same_config
                  ∙ built.kept;
              bridge_ifindex = success.bridge_ifindex;
              uplink_ifindex = success.uplink_ifindex;
              reads_bridge = success.reads_bridge;
              reads_uplink = success.reads_uplink;
              translating =
                  subst
                    (λ c.
                      Translating c bridge uplink success.bridge_ifindex success.uplink_ifindex
                        (record { os = after; nat64 = n }))
                    same translating;
            }
      ]

  -- A dataplane that the builder returns attached keeps exactly the builder's policy, which is valid;
  -- its map holds that policy with the indices that the two interfaces had before the call, and each
  -- classifier is on its interface.
  pub attach-Serves :
      (laws : IsSystem s) (self : Nat64Builder) (bridge uplink : Text) (os : s.Os) {after : s.Os}
      {n : Nat64 s}
      → attach self bridge uplink os ≡ (after, ok n)
      → Serves self bridge uplink os after n
  unfolding attach
  attach-Serves laws self bridge uplink os {after} {n} h =
      elim (Loaded-cases (build {s = s} self os).1) [
        | inr (e, fails) ↦ absurd (err-ne-built e (rw (fails, attach) at h))
        | inl (m, builds) ↦
            let (same, built) = build_lem self os (λ i. ((build {s = s} self os).0, builds i)) in
            subst (λ before. Serves self bridge uplink before after n) same
              (Built-Serves laws self bridge uplink (build {s = s} self os).0 m built
                (rw (builds, attach) at h))
      ]
