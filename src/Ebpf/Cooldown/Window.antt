-- ===== src/Ebpf/Cooldown/Window.antt =====
-- The ring seen as the last 64 ports, newest first.
use natto.Common.{
  ℕ, zero, suc, ◌+◌, ◌-◌, ◌%◌, ◌^◌, ◌<◌, ◌≡◌, ◌≢◌, ◌↔◌, refl, sym, ◌∙◌, List, [], ◌∷◌,
  get_or-replicate, true, ◌==◌, ==_iff, any_upto, any_upto-witness, any_upto_at, arith, length, set,
  byte_at, get_or-set_self, get_or-set_ne, length-set,
}
use natto.Abi.{PortCooldownRing, default_ring}
use natto.Ebpf.Cooldown.{cooldown_contains, cooldown_push}

cooldown_contains-any :
    (ring : PortCooldownRing) (port : ℕ)
    → cooldown_contains ring port ≡ any_upto (λ i. byte_at ring.ports i == port) 63
unfolding cooldown_contains any_upto
cooldown_contains-any ring port = refl

abbrev pub IsRing : PortCooldownRing → Type 0
IsRing ring = (length ring.ports ≡ 64) × (ring.idx < 2 ^ 32)

-- The port pushed `k` pushes before the last one.
abbrev pub recent : PortCooldownRing → ℕ → ℕ
recent ring k = byte_at ring.ports ((ring.idx + 63 - k) % 64)

pub cooldown_push-IsRing :
    (ring : PortCooldownRing) (port : ℕ) → IsRing ring → IsRing (cooldown_push ring port)
unfolding cooldown_push
cooldown_push-IsRing ring port h = ground (arith, length-set ring.ports (ring.idx % 64) port)

push_ports :
    (ring : PortCooldownRing) (port : ℕ)
    → ((cooldown_push ring port).ports ≡ set ring.ports (ring.idx % 64) port)
      × ((cooldown_push ring port).idx ≡ (ring.idx + 1) % 2 ^ 32)
unfolding cooldown_push
push_ports ring port = ground arith

-- In a well-formed ring, a push puts the port in front of the window and moves the other
-- entries back by one, so that the oldest of the 64 falls out.
pub recent-push :
    (ring : PortCooldownRing) (port k : ℕ)
    → IsRing ring
    → k < 63
    → (recent (cooldown_push ring port) 0 ≡ port)
      × (recent (cooldown_push ring port) (suc k) ≡ recent ring k)
recent-push ring port k h hk = (
  ground (arith, push_ports ring port, get_or-set_self ring.ports (ring.idx % 64) port 0),
  ground (
    arith,
    push_ports ring port,
    get_or-set_ne ring.ports (ring.idx % 64) ((ring.idx + 63 - k) % 64) port 0,
  ),
)

pub cooldown_contains-recent :
    (ring : PortCooldownRing) (port : ℕ)
    → IsRing ring
    → (cooldown_contains ring port ≡ true) ↔ ((k : ℕ) × (k < 64) × (recent ring k ≡ port))
cooldown_contains-recent ring port h = rw (cooldown_contains-any ring port) (
  (λ hit.
      let (slot, below, same) = any_upto-witness (λ i. byte_at ring.ports i == port) 63 hit in
      let back : (ring.idx + 63 - (ring.idx + 63 - slot) % 64) % 64 ≡ slot = omega arith in
      (
        (ring.idx + 63 - slot) % 64,
        omega arith,
        rw back ((==_iff (byte_at ring.ports slot) port).0 same),
      )),
  (λ found.
      any_upto_at (λ i. byte_at ring.ports i == port) 63 ((ring.idx + 63 - found.0) % 64)
        (omega arith) ((==_iff _ port).1 found.2)),
)

-- The ring after pushes of `ports` onto the empty one, the last push first.
abbrev pub pushed : List ℕ → PortCooldownRing
pushed [] = default_ring
pushed (port ∷ ports) = cooldown_push (pushed ports) port

pushed-IsRing : (ports : List ℕ) → IsRing (pushed ports)
unfolding default_ring
pushed-IsRing [] = (refl, omega arith)
pushed-IsRing (port ∷ ports) = cooldown_push-IsRing (pushed ports) port (pushed-IsRing ports)

zero_at : (i : ℕ) → byte_at default_ring.ports i ≡ 0
unfolding default_ring
zero_at i = get_or-replicate 64 i 0

recent-pushed : (ports : List ℕ) (k : ℕ) → k < 64 → recent (pushed ports) k ≡ byte_at ports k
recent-pushed [] k h = zero_at _
recent-pushed (port ∷ ports) zero h =
    (recent-push (pushed ports) port 0 (pushed-IsRing ports) (omega arith)).0
recent-pushed (port ∷ ports) (suc k) h =
    (recent-push (pushed ports) port k (pushed-IsRing ports) (omega arith)).1
    ∙ recent-pushed ports k (omega arith)

in_list : (ports : List ℕ) (k : ℕ) → byte_at ports k ≢ 0 → k < length ports
in_list [] k h = absurd (h refl)
in_list (port ∷ ports) zero h = omega arith
in_list (port ∷ ports) (suc k) h = omega (arith, in_list ports k h)

-- After any number of pushes onto an empty ring, however often it wraps around, the ring contains a
-- port, which is not 0, exactly when it is one of the last 64 that were pushed.
pub cooldown_contains-pushed :
    (ports : List ℕ) (port : ℕ)
    → port ≢ 0
    → (cooldown_contains (pushed ports) port ≡ true)
      ↔ ((k : ℕ) × (k < 64) × (k < length ports) × (byte_at ports k ≡ port))
cooldown_contains-pushed ports port nonzero =
    let found = cooldown_contains-recent (pushed ports) port (pushed-IsRing ports) in
    (
      λ hit.
          let (k, below, same) = found.0 hit in
          let there = sym (recent-pushed ports k below) ∙ same in
          (k, below, in_list ports k (λ e. nonzero (sym there ∙ e)), there),
      λ (k, below, _, same). found.1 (k, below, recent-pushed ports k below ∙ same),
    )
