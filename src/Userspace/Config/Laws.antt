-- ===== src/Userspace/Config/Laws.antt =====
-- Validation and rounding in natto64/src/lib.rs.
use natto.Common.{ℕ, ◌+◌, ◌*◌, ◌≤◌, ◌≡◌, ◌↔◌, false, refl, Option, none, some, arith, length}
use natto.Abi.{v4_pool_max}
use natto.Userspace.System.{System}
use natto.Userspace.Error.{ok}
use natto.Userspace.Config.{Duration, Nat64Config, validate, is_zero_timeout}

abbrev pub IsPositive : Option Duration → Type 0
IsPositive none = Unit {0}
IsPositive (some timeout) = 1 ≤ timeout.as_secs + timeout.subsec_nanos

-- What the code asks of a policy.
pub record IsValid (config : Nat64Config) : Type 0 where
  pub some_address : 1 ≤ length config.v4_pool
  pub pool_fits : length config.v4_pool ≤ v4_pool_max
  pub port_pos : 1 ≤ config.port_min
  pub range : config.port_min ≤ config.port_max
  pub timeout_pos : IsPositive config.session_timeout

timeout_test : (t : Option Duration) → (is_zero_timeout t ≡ false) ↔ IsPositive t
timeout_test none = (λ h. tt, λ h. refl)
timeout_test (some d) = (λ h. ground arith, λ h. ground arith)

-- Validation accepts exactly the policies with 1 to 16 addresses, a port range that does not
-- begin at 0 and is not reversed, and no timeout of zero.
pub validate_iff :
    (s : System) (config : Nat64Config) → (validate s config ≡ ok tt) ↔ IsValid config
unfolding validate
validate_iff s config = (
  λ h. record {
    some_address = ground arith;
    pool_fits = ground arith;
    port_pos = ground arith;
    range = ground arith;
    timeout_pos = (timeout_test config.session_timeout).0 (ground arith);
  },
  λ v. let positive = (timeout_test config.session_timeout).1 v.timeout_pos in ground arith,
)

abbrev pub nanos : Duration → ℕ
nanos d = d.as_secs * 1_000_000_000 + d.subsec_nanos
