-- ===== src/Userspace/Metrics.antt =====
-- natto64/src/metrics.rs: the snapshot of the production counters of all processors.
pub mod Laws
use natto.Common.{ℕ, List, [], ◌∷◌, saturating_add}
use natto.Abi.ProdCounters.{ProdCounter, ProdCounters}

-- The snapshot has a field for each production counter, under the same name.
abbrev pub Nat64Metrics : Type 0
Nat64Metrics = ProdCounter → ℕ

-- The loop over the processors, from the snapshot built so far.
unfoldable pub aggregate_from : Nat64Metrics → List ProdCounters → Nat64Metrics
aggregate_from metrics [] = metrics
aggregate_from metrics (value ∷ values) =
    aggregate_from (λ field. saturating_add (metrics field) (value field)) values

unfoldable pub aggregate_prod_counters : List ProdCounters → Nat64Metrics
aggregate_prod_counters values = aggregate_from (λ field. 0) values
