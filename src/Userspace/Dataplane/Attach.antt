-- ===== src/Userspace/Dataplane/Attach.antt =====
-- What the steps of `Nat64::attach` in natto64/src/lib.rs do to a dataplane, on every branch.
use Prim.Native.String.{String}
use natto.Common.{ℕ, ◌≡◌, refl, ◌∙◌, inl, inr, ◌⊎◌, some, Bool-cases, Option-cases, Sum-cases}
use natto.Abi
use natto.Userspace.System.{System, IsSystem, Text}
use natto.Userspace.Error.{Error, Result, ok, err}
use natto.Userspace.Dataplane.{
  Runtime, config_map_name, write_config, is_benign, ensure_clsact, attach_classifier,
}

module _ {s : System} where
  pub err-ne-ok : {P : Type 0} (e : Error s) → ◌≡◌ {A = Result s (Unit {0})} (err e) (ok tt) → P
  err-ne-ok e h = absurd (cc)

  pub Result-cases : (a : Result s (Unit {0})) → (a ≡ ok tt) ⊎ ((e : Error s) × (a ≡ err e))
  Result-cases (ok u) = inl refl
  Result-cases (err e) = inr (e, refl)

  -- The flag and the policy stay, and no program is unloaded or detached.
  pub record Extends (r v : Runtime s) : Type 0 where
    pub same_config : v.nat64.config ≡ r.nat64.config
    pub same_attached : v.nat64.attached ≡ r.nat64.attached
    pub keeps_loaded : (p : String) → s.IsLoaded r.nat64.ebpf p → s.IsLoaded v.nat64.ebpf p
    pub keeps_attached :
        (p : String) (i : Text)
        → s.IsAttached r.os r.nat64.ebpf p i
        → s.IsAttached v.os v.nat64.ebpf p i

  pub Extends-refl : (r : Runtime s) → Extends r r
  Extends-refl r = record {
    same_config = refl;
    same_attached = refl;
    keeps_loaded = λ p h. h;
    keeps_attached = λ p i h. h;
  }

  pub Extends-trans : {r u v : Runtime s} → Extends r u → Extends u v → Extends r v
  Extends-trans f g = record {
    same_config = g.same_config ∙ f.same_config;
    same_attached = g.same_attached ∙ f.same_attached;
    keeps_loaded = λ p h. g.keeps_loaded p (f.keeps_loaded p h);
    keeps_attached = λ p i h. g.keeps_attached p i (f.keeps_attached p i h);
  }

  -- The entries of the maps stay.
  abbrev pub SameEntries : Runtime s → Runtime s → Type 0
  SameEntries r v =
      (map : String) (key : ℕ) → s.get v.nat64.ebpf map key ≡ s.get r.nat64.ebpf map key

  pub record Written (c : Abi.Nat64Config) (r : Runtime s) (out : Runtime s × Result s (Unit {0}))
      : Type 0 where
    pub extends : Extends r out.0
    pub writes : out.1 ≡ ok tt → s.get out.0.nat64.ebpf config_map_name Abi.config_key ≡ some c

  pub record Readied (r : Runtime s) (out : Runtime s × Result s (Unit {0})) : Type 0 where
    pub extends : Extends r out.0
    pub same_object : out.0.nat64.ebpf ≡ r.nat64.ebpf

  pub record Hooked (name : String) (interface : Text) (r : Runtime s)
      (out : Runtime s × Result s (Unit {0})) : Type 0 where
    pub extends : Extends r out.0
    pub same_entries : SameEntries r out.0
    pub loads : out.1 ≡ ok tt → s.IsLoaded out.0.nat64.ebpf name
    pub attaches : out.1 ≡ ok tt → s.IsAttached out.0.os out.0.nat64.ebpf name interface
    pub was_unloaded : out.1 ≡ ok tt → s.IsLoaded r.nat64.ebpf name → ⊥

  module _ (laws : IsSystem s) (r : Runtime s) where
    load_twice :
        (e : s.Ebpf) (name : String) {loaded : s.Ebpf}
        → s.IsLoaded e name
        → s.load_program e name ≡ inr loaded
        → ⊥
    load_twice e name there h = let (source, fails) = laws.load_once e name there in cc

    unwritten : (c : Abi.Nat64Config) (e : Error s) → Written c r (r, err e)
    unwritten c e = record { extends = Extends-refl r; writes = err-ne-ok e }

    pub write_config-Written : (c : Abi.Nat64Config) → Written c r (write_config c r)
    unfolding write_config
    write_config-Written c = elim (Bool-cases (s.has_map r.nat64.ebpf config_map_name)) [
      | inr e ↦ rw (e, write_config) (unwritten c _)
      | inl e ↦ elim (Option-cases (s.as_hash_map r.nat64.ebpf config_map_name)) [
        | inr (source, e1) ↦ rw (e, write_config, e1) (unwritten c _)
        | inl e1 ↦ elim (Sum-cases (s.insert r.nat64.ebpf config_map_name 0 c)) [
          | inl (source, e2) ↦ rw (e, write_config, e1, e2) (unwritten c _)
          | inr (written, e2) ↦
              rw (e, write_config, e1, e2)
                (record {
                  extends = record {
                    same_config = refl;
                    same_attached = refl;
                    keeps_loaded = λ p. laws.IsLoaded-insert _ p _ _ _ e2;
                    keeps_attached = λ p i. laws.IsAttached-insert _ _ p _ i _ _ e2;
                  };
                  writes = λ h. laws.get-insert _ _ _ _ e2;
                })
        ]
      ]
    ]

    pub ensure_clsact-Readied : (interface : Text) → Readied r (ensure_clsact interface r)
    unfolding ensure_clsact
    ensure_clsact-Readied interface = elim (Sum-cases (s.qdisc_add_clsact r.os interface)) [
      | inl (source, e) ↦ elim (Bool-cases (is_benign s source)) [
        | inl there ↦
            rw (e, ensure_clsact, there) (record { extends = Extends-refl r; same_object = refl })
        | inr fails ↦
            rw (e, ensure_clsact, fails) (record { extends = Extends-refl r; same_object = refl })
      ]
      | inr (os, e) ↦
          rw (e, ensure_clsact)
            (record {
              extends = record {
                same_config = refl;
                same_attached = refl;
                keeps_loaded = λ p h. h;
                keeps_attached = λ p i. laws.IsAttached-clsact _ _ p i interface e;
              };
              same_object = refl;
            })
    ]

    unhooked : (name : String) (interface : Text) (e : Error s) → Hooked name interface r (r, err e)
    unhooked name interface e = record {
      extends = Extends-refl r;
      same_entries = λ map key. refl;
      loads = err-ne-ok e;
      attaches = err-ne-ok e;
      was_unloaded = err-ne-ok e;
    }

    pub attach_classifier-Hooked :
        (name : String) (interface : Text)
        → Hooked name interface r (attach_classifier name interface r)
    unfolding attach_classifier
    attach_classifier-Hooked name interface = elim (Bool-cases (s.has_program r.nat64.ebpf name)) [
      | inr e ↦ rw (e, attach_classifier) (unhooked name interface _)
      | inl e ↦ elim (Option-cases (s.as_classifier r.nat64.ebpf name)) [
        | inr (source, e1) ↦ rw (e, attach_classifier, e1) (unhooked name interface _)
        | inl e1 ↦ elim (Sum-cases (s.load_program r.nat64.ebpf name)) [
          | inl (source, e2) ↦ rw (e, attach_classifier, e1, e2) (unhooked name interface _)
          | inr (loaded, e2) ↦ elim (Sum-cases (s.attach_ingress r.os loaded name interface)) [
            | inl (source, e3) ↦
                rw (e, attach_classifier, e1, e2, e3)
                  (record {
                    extends = record {
                      same_config = refl;
                      same_attached = refl;
                      keeps_loaded = λ p. laws.IsLoaded-load _ name p e2;
                      keeps_attached = λ p i. laws.IsAttached-load _ _ name p i e2;
                    };
                    same_entries = λ map key. laws.get-load _ name map key e2;
                    loads = err-ne-ok _;
                    attaches = err-ne-ok _;
                    was_unloaded = err-ne-ok _;
                  })
            | inr ((os, hooked), e3) ↦
                rw (e, attach_classifier, e1, e2, e3)
                  (record {
                    extends = record {
                      same_config = refl;
                      same_attached = refl;
                      keeps_loaded = λ p h.
                          laws.IsLoaded-attach _ _ name p interface e3
                            (laws.IsLoaded-load _ name p e2 h);
                      keeps_attached = λ p i h.
                          laws.IsAttached-attach _ _ name p interface i e3
                            (laws.IsAttached-load _ _ name p i e2 h);
                    };
                    same_entries = λ map key.
                        laws.get-attach _ _ name map interface key e3
                        ∙ laws.get-load _ name map key e2;
                    loads = λ h.
                        laws.IsLoaded-attach _ _ name name interface e3
                          (laws.load-IsLoaded _ name e2);
                    attaches = λ h. laws.attach-IsAttached _ _ name interface e3;
                    was_unloaded = λ h there. load_twice r.nat64.ebpf name there e2;
                  })
          ]
        ]
      ]
    ]
