-- ===== src/Downsample/Tests.antt =====
-- A series of six cut to four, with exact fractions.
use luci_app_overwatch.Base.{
  ℕ, zero, suc, ◌-◌, ◌<◌, ◌≤◌, ◌≡◌, refl, List, [], ◌∷◌, ◌++◌, some, arith, length, get_elem?,
}
use luci_app_overwatch.Base.Int.{pos, ◌+ℤ◌, ◌-ℤ◌, ◌*ℤ◌}
use luci_app_overwatch.Base.Outcome.{value}
use luci_app_overwatch.Base.Ratio.{ratio}
use luci_app_overwatch.Sample.{Sample}
use luci_app_overwatch.Downsample.{bound, lttb}
use luci_app_overwatch.Base.Whole.{whole, ltb_ℤ_irreflexive, ltb_ℤ_above}
use luci_app_overwatch.Downsample.Picks.{AreBuckets, step_of}
use luci_app_overwatch.Downsample.Triangles.{IsOrder}
use luci_app_overwatch.Downsample.Cut.{AreTallest, lttb-AreTallest}

abbrev point : ℕ → ℕ → Sample
point ts n = record { ts = pos ts; rx_bytes = n; tx_bytes = 0; rx_peak = 0; tx_peak = 0; conns = 0 }

abbrev series : List Sample
series = point 0 1 ∷ point 1 1 ∷ point 2 90 ∷ point 3 1 ∷ point 4 2 ∷ point 5 1 ∷ []

-- The spike is kept.
cut : lttb ratio series 4 ≡ value (point 0 1 ∷ point 2 90 ∷ point 3 1 ∷ point 5 1 ∷ [])
unfolding lttb ◌+ℤ◌ ◌-ℤ◌ ◌*ℤ◌
cut = refl

-- Six samples cut to four, over whole numbers: buckets of two behind the first.
buckets : AreBuckets whole (step_of whole series 4) 6 2
unfolding bound ◌+ℤ◌ ◌-ℤ◌ ◌*ℤ◌
buckets = record { rising = rising; inside = inside }
  where
    rising :
        (i : ℕ)
        → i < 2
        → bound whole (step_of whole series 4) i < bound whole (step_of whole series 4) (suc i)
    rising zero h = omega arith
    rising (suc zero) h = omega arith
    rising (suc (suc i)) h = absurd (omega arith)

    inside : (i : ℕ) → i < 2 → bound whole (step_of whole series 4) (suc i) < 6
    inside zero h = omega arith
    inside (suc zero) h = omega arith
    inside (suc (suc i)) h = absurd (omega arith)

order : IsOrder whole
order = record { irreflexive = ltb_ℤ_irreflexive; above = λ x m n. ltb_ℤ_above x m n }

no_fall : bound whole (step_of whole series 4) 2 ≤ bound whole (step_of whole series 4) 3
unfolding bound ◌+ℤ◌ ◌-ℤ◌ ◌*ℤ◌
no_fall = omega arith

lttb_example :
    (first end : Sample) × (middle : List Sample) × (lttb whole series 4
      ≡ value (first ∷ middle ++ end ∷ []))
    × (get_elem? series 0 ≡ some first)
    × (get_elem? series (length series - 1) ≡ some end)
    × (length middle ≡ 4 - 2)
    × AreTallest whole order series
        (step_of whole series 4)
        2
        buckets
        no_fall
        (omega arith)
        0
        first
        middle
lttb_example =
    lttb-AreTallest whole order series 4 (omega arith) (omega arith) (omega arith) buckets no_fall
