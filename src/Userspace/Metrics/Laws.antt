-- ===== src/Userspace/Metrics/Laws.antt =====
-- The snapshot of natto64/src/metrics.rs is the saturated total, in whatever order it is read.
use natto.Common.{ℕ, ◌+◌, min, ◌≤◌, ◌≡◌, List, [], ◌∷◌, arith, saturating_add, u64_max}
use natto.Abi.ProdCounters.{ProdCounter, ProdCounters}
use natto.Userspace.Metrics.{Nat64Metrics, aggregate_from, aggregate_prod_counters}

-- The unbounded total of a counter.
unfoldable pub total : ProdCounter → List ProdCounters → ℕ
total field [] = 0
total field (value ∷ values) = value field + total field values

aggregate_from-total :
    (field : ProdCounter) (metrics : Nat64Metrics) (values : List ProdCounters)
    → metrics field ≤ u64_max
    → aggregate_from metrics values field ≡ min (metrics field + total field values) u64_max
unfolding aggregate_from total
aggregate_from-total field metrics [] h = omega arith
aggregate_from-total field metrics (value ∷ values) h = omega (
  arith,
  aggregate_from-total field (λ f. saturating_add (metrics f) (value f)) values (omega arith),
)

-- Each counter of the snapshot is the sum of that counter over all processors, or the largest
-- 64-bit number where the sum exceeds it.
pub aggregate_prod_counters-total :
    (field : ProdCounter) (values : List ProdCounters)
    → aggregate_prod_counters values field ≡ min (total field values) u64_max
unfolding aggregate_prod_counters
aggregate_prod_counters-total field values =
    omega (arith, aggregate_from-total field (λ f. 0) values (omega arith))
