-- ===== src/Userspace/Dataplane/Outcome.antt =====
-- The outcomes of `Nat64::attach` in natto64/src/lib.rs.
use natto.Common.{ℕ, ◌≡◌, refl, ◌∙◌, ap, inl, inr, ◌⊎◌, true, false, some}
use natto.Abi
use natto.Userspace.System.{System, IsSystem, Text}
use natto.Userspace.Error.{Error, Result, ok, err, not_configured, already_attached}
use natto.Userspace.Config.{Nat64Config, dataplane_config}
use natto.Userspace.Interfaces.{interface_index}
use natto.Userspace.Dataplane.{
  Runtime, M, ◌>>=◌, ◌>>◌, get_os, get_nat64, set_nat64, lift, ok_or, config_map_name,
  forward_program_name, reverse_program_name, write_config, ensure_clsact, attach_classifier,
  attach_to, attach,
}
use natto.Userspace.Dataplane.Rules.{bind_rule, if_rule, ok_or-ok}
use natto.Userspace.Dataplane.Attach.{
  Extends, Extends-refl, Extends-trans, write_config-Written, ensure_clsact-Readied,
  attach_classifier-Hooked,
}

module _ {s : System} where
  -- The dataplane translates by a policy between two interfaces: it is marked as attached, its map
  -- holds the policy with the indices of the interfaces, and each classifier is on its interface.
  pub record Translating (config : Nat64Config) (bridge uplink : Text) (bridge_ifindex : ℕ)
      (uplink_ifindex : ℕ) (v : Runtime s) : Type 0 where
    pub marked : v.nat64.attached ≡ true
    pub configured :
        s.get v.nat64.ebpf config_map_name Abi.config_key
        ≡ some (dataplane_config config bridge_ifindex uplink_ifindex)
    pub forward : s.IsAttached v.os v.nat64.ebpf forward_program_name bridge
    pub reverse : s.IsAttached v.os v.nat64.ebpf reverse_program_name uplink

  -- A step fails, and neither the flag nor the policy has changed.
  pub record Failed (r : Runtime s) (out : Runtime s × Result s (Unit {0})) : Type 0 where
    pub error : Error s
    pub fails : out.1 ≡ err error
    pub extends : Extends r out.0

  pub record Attached (config : Nat64Config) (bridge uplink : Text) (bridge_ifindex : ℕ)
      (uplink_ifindex : ℕ) (r : Runtime s) (out : Runtime s × Result s (Unit {0})) : Type 0 where
    pub succeeds : out.1 ≡ ok tt
    pub was_unloaded : s.IsLoaded r.nat64.ebpf forward_program_name → ⊥
    pub same_config : out.0.nat64.config ≡ r.nat64.config
    pub translating : Translating config bridge uplink bridge_ifindex uplink_ifindex out.0

  abbrev Concludes :
      Nat64Config → Text → Text → ℕ → ℕ → Runtime s → Runtime s × Result s (Unit {0}) → Type 0
  Concludes config bridge uplink bridge_ifindex uplink_ifindex r out =
      Attached config bridge uplink bridge_ifindex uplink_ifindex r out ⊎ Failed r out

  unit_ok : (u : Unit {0}) → ◌≡◌ {A = Result s (Unit {0})} (ok u) (ok tt)
  unit_ok u = refl

  module _ (laws : IsSystem s) (config : Nat64Config) (bridge uplink : Text)
      (bridge_ifindex uplink_ifindex : ℕ) (r : Runtime s) where
    attach_to_lem :
        Concludes config bridge uplink bridge_ifindex uplink_ifindex r
          (attach_to config bridge uplink bridge_ifindex uplink_ifindex r)
    unfolding attach_to
    attach_to_lem =
        let P = Concludes config bridge uplink bridge_ifindex uplink_ifindex r in
        let c = dataplane_config config bridge_ifindex uplink_ifindex in
        let o1 = write_config c r in
        let written = write_config-Written laws r c in
        let o2 = ensure_clsact bridge o1.0 in
        let ready = ensure_clsact-Readied laws o1.0 bridge in
        let o3 = ensure_clsact uplink o2.0 in
        let ready' = ensure_clsact-Readied laws o2.0 uplink in
        let o4 = attach_classifier forward_program_name bridge o3.0 in
        let hooked = attach_classifier-Hooked laws o3.0 forward_program_name bridge in
        let hooked' = attach_classifier-Hooked laws o4.0 reverse_program_name uplink in
        let x2 = Extends-trans written.extends ready.extends in
        let x3 = Extends-trans x2 ready'.extends in
        let x4 = Extends-trans x3 hooked.extends in
        let x5 = Extends-trans x4 hooked'.extends in
        let finish : M s (Unit {0}) =
          get_nat64 >>= λ self. set_nat64 (record self { attached = true }) in
        let after4 = attach_classifier reverse_program_name uplink >> finish in
        let after3 = attach_classifier forward_program_name bridge >> after4 in
        let after2 = ensure_clsact uplink >> after3 in
        bind_rule P (write_config c) (λ _. ensure_clsact bridge >> after2) r
          (λ _ f1.
            bind_rule P (ensure_clsact bridge) (λ _. after2) o1.0
              (λ _ f2.
                bind_rule P (ensure_clsact uplink) (λ _. after3) o2.0
                  (λ _ f3.
                    bind_rule P (attach_classifier forward_program_name bridge) (λ _. after4) o3.0
                      (λ _ f4.
                        bind_rule P (attach_classifier reverse_program_name uplink) (λ _. finish)
                          o4.0
                          (λ _ f5. inl (record {
                            succeeds = refl;
                            was_unloaded = λ there.
                                hooked.was_unloaded (f4 ∙ unit_ok _) (x3.keeps_loaded _ there);
                            same_config = x5.same_config;
                            translating = record {
                              marked = refl;
                              configured =
                                  hooked'.same_entries _ _
                                  ∙ hooked.same_entries _ _
                                  ∙ ap (λ e. s.get e config_map_name Abi.config_key)
                                      ready'.same_object
                                  ∙ ap (λ e. s.get e config_map_name Abi.config_key)
                                      ready.same_object
                                  ∙ written.writes (f1 ∙ unit_ok _);
                              forward =
                                  hooked'.extends.keeps_attached _ _
                                    (hooked.attaches (f4 ∙ unit_ok _));
                              reverse = hooked'.attaches (f5 ∙ unit_ok _);
                            };
                          }))
                          (λ e f. inr (record { error = e; fails = refl; extends = x5 })))
                      (λ e f. inr (record { error = e; fails = refl; extends = x4 })))
                  (λ e f. inr (record { error = e; fails = refl; extends = x3 })))
              (λ e f. inr (record { error = e; fails = refl; extends = x2 })))
          (λ e f. inr (record { error = e; fails = refl; extends = written.extends }))

  -- What a call that succeeds found, and what it left.
  pub record Succeeded (bridge uplink : Text) (r : Runtime s)
      (out : Runtime s × Result s (Unit {0})) : Type 0 where
    pub config : Nat64Config
    pub bridge_ifindex : ℕ
    pub uplink_ifindex : ℕ
    pub was_free : r.nat64.attached ≡ false
    pub was_configured : r.nat64.config ≡ some config
    pub reads_bridge : interface_index s r.os bridge ≡ ok bridge_ifindex
    pub reads_uplink : interface_index s r.os uplink ≡ ok uplink_ifindex
    pub attached : Attached config bridge uplink bridge_ifindex uplink_ifindex r out

  module _ (laws : IsSystem s) (bridge uplink : Text) (r : Runtime s) where
    -- A call that attaches a dataplane either succeeds or fails. It succeeds only for one that was
    -- configured and not attached, between two interfaces whose indices could be read, and then the
    -- dataplane is marked as attached, its map holds that policy with these indices, and each
    -- classifier is on its interface. Where it fails, the mark and the policy are as before, and no
    -- program has been unloaded or detached.
    pub attach_outcome :
        Succeeded bridge uplink r (attach bridge uplink r) ⊎ Failed r (attach bridge uplink r)
    unfolding attach
    attach_outcome =
        let P : Runtime s × Result s (Unit {0}) → Type 0 =
          λ out. Succeeded bridge uplink r out ⊎ Failed r out in
        let fails : (e : Error s) → P (r, err e) =
          λ e. inr (record { error = e; fails = refl; extends = Extends-refl r }) in
        let on_uplink : Nat64Config → s.Os → ℕ → M s (Unit {0}) = λ config os bi.
          lift (interface_index s os uplink) >>= attach_to config bridge uplink bi in
        let on_bridge : Nat64Config → M s (Unit {0}) =
          λ config. get_os >>= λ os. lift (interface_index s os bridge) >>= on_uplink config os in
        let configured : M s (Unit {0}) =
          lift (ok_or r.nat64.config not_configured) >>= on_bridge in
        if_rule P r.nat64.attached (lift (err already_attached)) configured r
          (λ _. fails already_attached)
          (λ free.
            bind_rule P (lift (ok_or r.nat64.config not_configured)) on_bridge r
              (λ config kept.
                bind_rule P (lift (interface_index s r.os bridge)) (on_uplink config r.os) r
                  (λ bi reads.
                    bind_rule P (lift (interface_index s r.os uplink))
                      (attach_to config bridge uplink bi) r
                      (λ ui reads'. elim (attach_to_lem laws config bridge uplink bi ui r) [
                        | inr f ↦ inr f
                        | inl a ↦ inl (record {
                          config = config;
                          bridge_ifindex = bi;
                          uplink_ifindex = ui;
                          was_free = free;
                          was_configured = ok_or-ok r.nat64.config not_configured kept;
                          reads_bridge = reads;
                          reads_uplink = reads';
                          attached = a;
                        })
                      ])
                      (λ e _. fails e))
                  (λ e _. fails e))
              (λ e _. fails e))
