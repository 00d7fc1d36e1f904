-- ===== src/Userspace/Dataplane/Retry.antt =====
-- A dataplane of natto64/src/lib.rs whose attachment failed on the way.
use natto.Common.{◌≡◌, ◌∙◌, inl, inr, false, some}
use natto.Userspace.System.{System, IsSystem, Text}
use natto.Userspace.Error.{Result, err, already_attached}
use natto.Userspace.Config.{Nat64Config, validate}
use natto.Userspace.Dataplane.{
  Runtime, M, ◌>>◌, lift, set_nat64, forward_program_name, configure, attach,
}
use natto.Userspace.Dataplane.Rules.{bind_rule, if_rule}
use natto.Userspace.Dataplane.Outcome.{Failed, attach_outcome}
use natto.Userspace.Dataplane.Lifecycle.{Step, configures, attaches, changes, Reach, here, next}

module _ {s : System} where
  -- Not attached, but the forward classifier was loaded: an attachment came that far.
  pub record IsStuck (r : Runtime s) : Type 0 where
    pub free : r.nat64.attached ≡ false
    pub loaded : s.IsLoaded r.nat64.ebpf forward_program_name

  configured-IsStuck :
      (config : Nat64Config) (r : Runtime s) → IsStuck r → IsStuck (configure config r).0
  unfolding configure
  configured-IsStuck config r stuck =
      let P : Runtime s × Result s (Unit {0}) → Type 0 = λ out. IsStuck out.0 in
      let store : M s (Unit {0}) = set_nat64 (record r.nat64 { config = some config }) in
      if_rule P r.nat64.attached (lift (err already_attached)) (lift (validate s config) >> store) r
        (λ busy. stuck)
        (λ _.
          bind_rule P (lift (validate s config)) (λ _. store) r
            (λ u accepted. record { free = stuck.free; loaded = stuck.loaded }) (λ e _. stuck))

  Failed-IsStuck :
      {r : Runtime s} {out : Runtime s × Result s (Unit {0})}
      → IsStuck r
      → Failed r out
      → IsStuck out.0
  Failed-IsStuck stuck failed = record {
    free = failed.extends.same_attached ∙ stuck.free;
    loaded = failed.extends.keeps_loaded _ stuck.loaded;
  }

  stuck-Failed :
      (laws : IsSystem s) (bridge uplink : Text) (r : Runtime s)
      → IsStuck r
      → Failed r (attach bridge uplink r)
  stuck-Failed laws bridge uplink r stuck = elim (attach_outcome laws bridge uplink r) [
    | inl done ↦ absurd (done.attached.was_unloaded stuck.loaded)
    | inr failed ↦ failed
  ]

  Step-IsStuck : (laws : IsSystem s) {r v : Runtime s} → Step r v → IsStuck r → IsStuck v
  Step-IsStuck laws {r} (configures config e) stuck = rw e (configured-IsStuck config r stuck)
  Step-IsStuck laws {r} (attaches bridge uplink e) stuck =
      rw e (Failed-IsStuck stuck (stuck-Failed laws bridge uplink r stuck))
  Step-IsStuck laws (changes os e) stuck =
      rw e (record { free = stuck.free; loaded = stuck.loaded })

  Reach-IsStuck : (laws : IsSystem s) {r v : Runtime s} → IsStuck r → Reach r v → IsStuck v
  Reach-IsStuck laws stuck here = stuck
  Reach-IsStuck laws stuck (next reach step) =
      Step-IsStuck laws step (Reach-IsStuck laws stuck reach)

  -- An attachment that failed after it had loaded the forward classifier cannot be made up for: a
  -- call that attaches the dataplane fails in every later state, whatever policy was configured and
  -- whatever was called and changed on the machine in between, since a program is loaded only once.
  pub stuck_forever :
      (laws : IsSystem s) {r v : Runtime s} (bridge uplink : Text)
      → IsStuck r
      → Reach r v
      → Failed v (attach bridge uplink v)
  stuck_forever laws {r} {v} bridge uplink stuck reach =
      stuck-Failed laws bridge uplink v (Reach-IsStuck laws stuck reach)
