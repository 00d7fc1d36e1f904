-- ===== src/Ebpf/Cooldown.antt =====
-- natto64-ebpf/src/lib.rs: the ring of recently allocated ports.
pub mod Window
use natto.Common.{
  ℕ, ◌+◌, ◌%◌, List, Bool, ◌||◌, ltb, ◌==◌, if◌then◌else◌, set, byte_at, wrapping_add32,
}
use natto.Abi.{PortCooldownRing, cooldown_size}

unfoldable pub cooldown_contains : PortCooldownRing → ℕ → Bool
cooldown_contains ring port =
    byte_at ring.ports 0 == port
    || byte_at ring.ports 1 == port
    || byte_at ring.ports 2 == port
    || byte_at ring.ports 3 == port
    || byte_at ring.ports 4 == port
    || byte_at ring.ports 5 == port
    || byte_at ring.ports 6 == port
    || byte_at ring.ports 7 == port
    || byte_at ring.ports 8 == port
    || byte_at ring.ports 9 == port
    || byte_at ring.ports 10 == port
    || byte_at ring.ports 11 == port
    || byte_at ring.ports 12 == port
    || byte_at ring.ports 13 == port
    || byte_at ring.ports 14 == port
    || byte_at ring.ports 15 == port
    || byte_at ring.ports 16 == port
    || byte_at ring.ports 17 == port
    || byte_at ring.ports 18 == port
    || byte_at ring.ports 19 == port
    || byte_at ring.ports 20 == port
    || byte_at ring.ports 21 == port
    || byte_at ring.ports 22 == port
    || byte_at ring.ports 23 == port
    || byte_at ring.ports 24 == port
    || byte_at ring.ports 25 == port
    || byte_at ring.ports 26 == port
    || byte_at ring.ports 27 == port
    || byte_at ring.ports 28 == port
    || byte_at ring.ports 29 == port
    || byte_at ring.ports 30 == port
    || byte_at ring.ports 31 == port
    || byte_at ring.ports 32 == port
    || byte_at ring.ports 33 == port
    || byte_at ring.ports 34 == port
    || byte_at ring.ports 35 == port
    || byte_at ring.ports 36 == port
    || byte_at ring.ports 37 == port
    || byte_at ring.ports 38 == port
    || byte_at ring.ports 39 == port
    || byte_at ring.ports 40 == port
    || byte_at ring.ports 41 == port
    || byte_at ring.ports 42 == port
    || byte_at ring.ports 43 == port
    || byte_at ring.ports 44 == port
    || byte_at ring.ports 45 == port
    || byte_at ring.ports 46 == port
    || byte_at ring.ports 47 == port
    || byte_at ring.ports 48 == port
    || byte_at ring.ports 49 == port
    || byte_at ring.ports 50 == port
    || byte_at ring.ports 51 == port
    || byte_at ring.ports 52 == port
    || byte_at ring.ports 53 == port
    || byte_at ring.ports 54 == port
    || byte_at ring.ports 55 == port
    || byte_at ring.ports 56 == port
    || byte_at ring.ports 57 == port
    || byte_at ring.ports 58 == port
    || byte_at ring.ports 59 == port
    || byte_at ring.ports 60 == port
    || byte_at ring.ports 61 == port
    || byte_at ring.ports 62 == port
    || byte_at ring.ports 63 == port

-- The 64 arms of the code's `match slot` all write their own slot.
unfoldable pub cooldown_push : PortCooldownRing → ℕ → PortCooldownRing
cooldown_push ring port =
    let slot = ring.idx % cooldown_size in
    if ltb slot 64
    then record ring { idx = wrapping_add32 ring.idx 1; ports = set ring.ports slot port }
    else ring
