-- ===== src/Sample/Merge.antt =====
-- What an aggregate is: capped sums and maxima, whatever the order and the grouping.
use luci_app_overwatch.Base.{
  ℕ, ◌+◌, ◌≤◌, ◌≡◌, refl, sym, ap, ◌∙◌, min, max, List, [], ◌∷◌, ◌++◌, map, arith,
}
use luci_app_overwatch.Base.Int.{ℤ}
use luci_app_overwatch.Base.Words.{u64_max}
use luci_app_overwatch.Sample.{Sample, zero_at, absorb, aggregate}
use mathlib.Core.List.{foldl, flatten}

abbrev pub total : (Sample → ℕ) → List Sample → ℕ
total f [] = 0
total f (s ∷ ss) = f s + total f ss

abbrev pub largest : (Sample → ℕ) → List Sample → ℕ
largest f [] = 0
largest f (s ∷ ss) = max (f s) (largest f ss)

fold-fields :
    (out : Sample) (ss : List Sample)
    → (out.rx_bytes ≤ u64_max) × (out.tx_bytes ≤ u64_max)
    → foldl absorb out ss ≡ record out {
      rx_bytes = min (out.rx_bytes + total (λ s. s.rx_bytes) ss) u64_max;
      tx_bytes = min (out.tx_bytes + total (λ s. s.tx_bytes) ss) u64_max;
      rx_peak = max out.rx_peak (largest (λ s. s.rx_peak) ss);
      tx_peak = max out.tx_peak (largest (λ s. s.tx_peak) ss);
      conns = max out.conns (largest (λ s. s.conns) ss);
    }
fold-fields out [] h = ground arith
fold-fields out (s ∷ ss) h = fold-fields (absorb out s) ss (omega arith) ∙ ground arith

-- An aggregate carries the bucket's time, the byte totals cut off at the largest `u64`, and the
-- largest peaks and connection count.
aggregate_fields :
    (ss : List Sample) (ts : ℤ)
    → aggregate ss ts ≡ record {
      ts = ts;
      rx_bytes = min (total (λ s. s.rx_bytes) ss) u64_max;
      tx_bytes = min (total (λ s. s.tx_bytes) ss) u64_max;
      rx_peak = largest (λ s. s.rx_peak) ss;
      tx_peak = largest (λ s. s.tx_peak) ss;
      conns = largest (λ s. s.conns) ss;
    }
unfolding aggregate
aggregate_fields ss ts = fold-fields (zero_at ts) ss (omega arith) ∙ ground arith

total-append : (f : Sample → ℕ) (xs ys : List Sample) → total f (xs ++ ys) ≡ total f xs + total f ys
total-append f [] ys = omega arith
total-append f (x ∷ xs) ys = omega (arith, total-append f xs ys)

largest-append :
    (f : Sample → ℕ) (xs ys : List Sample)
    → largest f (xs ++ ys) ≡ max (largest f xs) (largest f ys)
largest-append f [] ys = omega arith
largest-append f (x ∷ xs) ys = omega (arith, largest-append f xs ys)

-- An aggregate of a whole is made of the aggregates of two parts.
pub aggregate-append :
    (xs ys : List Sample) (ts us : ℤ)
    → aggregate (xs ++ ys) ts ≡ absorb (aggregate xs ts) (aggregate ys us)
aggregate-append xs ys ts us =
    rw (aggregate_fields (xs ++ ys) ts, aggregate_fields xs ts, aggregate_fields ys us)
      (ground (
        arith,
        total-append (λ s. s.rx_bytes) xs ys,
        total-append (λ s. s.tx_bytes) xs ys,
        largest-append (λ s. s.rx_peak) xs ys,
        largest-append (λ s. s.tx_peak) xs ys,
        largest-append (λ s. s.conns) xs ys,
      ))

aggregate_one :
    (xs : List Sample) (bucket ts : ℤ) → aggregate (aggregate xs bucket ∷ []) ts ≡ aggregate xs ts
aggregate_one xs bucket ts =
    rw
      (
        aggregate_fields (aggregate xs bucket ∷ []) ts,
        aggregate_fields xs bucket,
        aggregate_fields xs ts,
      )
      (ground arith)

-- Aggregating bucket by bucket and then the buckets gives the aggregate of all samples, whatever
-- the buckets and their times are.
pub aggregate-flatten :
    (bucket : List Sample → ℤ) (groups : List (List Sample)) (ts : ℤ)
    → aggregate (map (λ g. aggregate g (bucket g)) groups) ts ≡ aggregate (flatten groups) ts
unfolding flatten
aggregate-flatten bucket [] ts = refl
aggregate-flatten bucket (g ∷ groups) ts =
    aggregate-append (aggregate g (bucket g) ∷ []) rest ts ts
    ∙ ap (λ t. absorb (aggregate (aggregate g (bucket g) ∷ []) ts) t)
        (aggregate-flatten bucket groups ts)
    ∙ ap (λ s. absorb s (aggregate (flatten groups) ts)) (aggregate_one g (bucket g) ts)
    ∙ sym (aggregate-append g (flatten groups) ts ts)
  where
    rest : List Sample
    rest = map (λ g. aggregate g (bucket g)) groups
