-- ===== src/Tests/Expiry.antt =====
-- The timer callback of natto64-ebpf/src/lib.rs at concrete inputs.
use mathlib.Core.Option.{some-injective}
use natto.Common.{ℕ, ◌+◌, ◌-◌, ◌*◌, ◌≡◌, ◌≢◌, ◌≤◌, ◌<◌, ◌⊎◌, refl, sym, ap, none, some, arith}
use natto.Abi.{NatVal, new_forward_with_generation, default_ring}
use natto.Ebpf.Kernel.{TimedFwdNatVal}
use natto.Ebpf.World.{World}
use natto.Ebpf.Sessions.{session_timeout_ns, current_cfg, timed_fwd_nat_val}
use natto.Ebpf.Sessions.Expiry.{expiry_confirmation_ns, reverse_last_seen, session_timer_callback}
use natto.Ebpf.Sessions.Expiry.Laws.{rearmed, last_seen}
use natto.Ebpf.Sessions.Expiry.Seen.{by_client, by_reply, IsLatest, callback_first_reading}
use natto.Ebpf.Sessions.Expiry.Removal.{IsExpired, callback_twice_expires}
use natto.Tests.Machine.{no_samples, machine, machine_laws}
use natto.Tests.Dataplane.{client, flow, expiring_cfg}

abbrev second : ℕ
second = 1_000_000_000

-- The reply direction of the flow, last seen at second 3.
abbrev reply : NatVal
reply = new_forward_with_generation client 51_000 0x08080808 443 99 (3 * second)

-- The flow itself was last seen at second 1; `observed` is what the callback noted before.
abbrev session : ℕ → TimedFwdNatVal ℕ
session observed = record (timed_fwd_nat_val machine 0xcb00710a 20_042 99 (1 * second)) {
  observed_last_seen_ns = observed;
}

abbrev world : ℕ → World machine
world observed = record {
  config = some expiring_cfg;
  prod = none;
  debug = none;
  nat = λ key. some reply;
  fwd_nat = λ key. some (session observed);
  port_cursor = some 41;
  port_cooldown = some default_ring;
  samples = no_samples;
}

-- A packet of the flow at second 8.
abbrev traffic : World machine → World machine
traffic w = record w { fwd_nat = λ key. some (record (session 0) { last_seen_ns = 8 * second }) }

timeout_5 : (o : ℕ) → session_timeout_ns (current_cfg (world o)) ≡ 5_000_000_000
unfolding session_timeout_ns current_cfg
timeout_5 o = refl

timeout-ne_zero : (o : ℕ) → session_timeout_ns (current_cfg (world o)) ≢ 0
timeout-ne_zero o = omega (arith, timeout_5 o)

seen_3 : (o : ℕ) → last_seen flow (session o) (world o) ≡ 3_000_000_000
unfolding reverse_last_seen new_forward_with_generation timed_fwd_nat_val
seen_3 o = refl

idle :
    (o : ℕ)
    → last_seen flow (session o) (world o) + session_timeout_ns (current_cfg (world o)) ≤ 9 * second
idle o = omega (arith, timeout_5 o, seen_3 o)

unobserved : 0 ≢ last_seen flow (session 0) (world 0)
unobserved = omega (arith, seen_3 0)

abbrev noted : ℕ
noted = 3_000_000_000

observed : noted ≡ last_seen flow (session noted) (world noted)
observed = omega (arith, seen_3 noted)

-- At second 7 the reply of second 3 is the last packet of the session.
reply_last : IsLatest flow (session 0) (world 0) (3 * second)
unfolding new_forward_with_generation timed_fwd_nat_val
reply_last = record {
  seen = by_reply reply refl refl refl;
  latest = λ t s. elim s [
    | by_client e ↦ omega (arith, e)
    | by_reply reverse stored generation e ↦
        let same : ◌≡◌ {A = ℕ} reverse.last_seen_ns (3 * second) =
          sym (ap (λ (v : NatVal). v.last_seen_ns) (some-injective reply reverse stored)) in
        omega (arith, e, same)
  ];
}

callback_first_reading_example :
    ((7 * second < 3 * second + session_timeout_ns (current_cfg (world 0)))
      × (session_timer_callback flow (7 * second) traffic (world 0) ≡ record (world 0) {
        fwd_nat = machine.fwd_maps.write (world 0).fwd_nat flow (
            rearmed machine
              (session 0)
              0
              (session_timeout_ns (current_cfg (world 0)) - (7 * second - 3 * second)));
      }))
    ⊎ ((3 * second + session_timeout_ns (current_cfg (world 0)) ≤ 7 * second)
        × (((session 0).observed_last_seen_ns ≡ 3 * second)
            ⊎ (session_timer_callback flow (7 * second) traffic (world 0) ≡ record (world 0) {
              fwd_nat =
                  machine.fwd_maps.write
                    (world 0).fwd_nat
                    flow
                    (rearmed machine (session 0) (3 * second) expiry_confirmation_ns);
            })))
callback_first_reading_example =
    callback_first_reading flow (session 0) (world 0) (7 * second) traffic refl (timeout-ne_zero 0)
      (3 * second) reply_last

callback_twice_expires_example : IsExpired flow (session 0) (world 0) (
    session_timer_callback flow
      (10 * second)
      (λ u. u)
      (session_timer_callback flow (9 * second) (λ u. u) (world 0)))
callback_twice_expires_example =
    callback_twice_expires machine_laws flow (9 * second) (10 * second) (world 0) (session 0) refl
      (timeout-ne_zero 0) (idle 0) unobserved (omega arith)
