-- ===== src/Sample/Tests.antt =====
-- Aggregates of a few samples.
use luci_app_overwatch.Base.{ℕ, ◌≡◌, List, [], ◌∷◌, map}
use luci_app_overwatch.Base.Int.{pos}
use luci_app_overwatch.Base.Words.{u64_max}
use luci_app_overwatch.Sample.{Sample, aggregate}
use luci_app_overwatch.Sample.Merge.{aggregate-flatten}
use mathlib.Core.List.{flatten}

abbrev sample_at : ℕ → ℕ → Sample
sample_at ts n = record {
  ts = pos ts;
  rx_bytes = n;
  tx_bytes = 2;
  rx_peak = n;
  tx_peak = 1;
  conns = 3;
}

abbrev first : List Sample
first = sample_at 0 10 ∷ sample_at 2 u64_max ∷ []

abbrev groups : List (List Sample)
groups = first ∷ (sample_at 60 7 ∷ []) ∷ []

aggregate-flatten_example :
    aggregate (map (λ g. aggregate g (pos 60)) groups) (pos 0) ≡ aggregate (flatten groups) (pos 0)
aggregate-flatten_example = aggregate-flatten (λ _. pos 60) groups (pos 0)
