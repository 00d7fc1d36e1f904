-- ===== src/Abi/Keys.antt =====
-- The keys of natto64-abi/src/lib.rs can be told apart.
use mathlib.Core.HLevel.{Discrete}
use natto.Common.{ℕ_discrete}
use natto.Abi.{NatKey, FwdNatKey}

unfoldable pub NatKey-discrete : Discrete NatKey
NatKey-discrete = hlevel ℕ_discrete

unfoldable pub FwdNatKey-discrete : Discrete FwdNatKey
FwdNatKey-discrete = hlevel ℕ_discrete
