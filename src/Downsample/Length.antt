-- ===== src/Downsample/Length.antt =====
-- How long a cut series is.
use luci_app_overwatch.Base.{
  ℕ, suc, ◌-◌, ◌≤◌, ◌<◌, ◌≡◌, refl, ap, ◌∙◌, ◌||◌, List, [], ◌∷◌, ◌++◌, arith, ltb, leb,
  if◌then◌else◌, length, length-append, Bool-cases, inl, inr,
}
use luci_app_overwatch.Base.Float.{F64}
use luci_app_overwatch.Base.Outcome.{value}
use luci_app_overwatch.Downsample.{lttb}
use luci_app_overwatch.Downsample.Picks.{AreAt, AreBuckets, step_of, lttb_lem}
use luci_app_overwatch.Sample.{Sample}

module _ (float : F64) where
  length-AreAt :
      (samples : List Sample) (places : List ℕ) (ss : List Sample)
      → AreAt float samples places ss
      → length ss ≡ length places
  length-AreAt samples [] [] h = refl
  length-AreAt samples [] (s ∷ ss) h = absurd h
  length-AreAt samples (p ∷ ps) [] h = absurd h
  length-AreAt samples (p ∷ ps) (s ∷ ss) h = ap suc (length-AreAt samples ps ss h.1)

  -- If a series is cut at all, the buckets of the floating-point division rise and end before the
  -- last sample.
  abbrev pub IsCuttable : List Sample → ℕ → Type 0
  IsCuttable samples threshold =
      3 ≤ threshold
      → threshold < length samples
      → AreBuckets float (step_of float samples threshold) (length samples) (threshold - 2)

  -- A series that can be cut is cut to as many points as are asked for, if these are 3 at least; it
  -- stays as it is if it has no more, or if fewer than 3 are asked for.
  pub length-lttb :
      (samples : List Sample) (threshold : ℕ)
      → IsCuttable samples threshold
      → (out : List Sample) × (lttb float samples threshold ≡ value out)
        × (length out ≡ (
            if ltb threshold 3 || leb (length samples) threshold
            then length samples
            else threshold))
  unfolding lttb
  length-lttb samples threshold cut = elim (Bool-cases (ltb threshold 3)) [
    | inl a ↦ (samples, rw a refl, rw a refl)
    | inr a ↦ elim (Bool-cases (leb (length samples) threshold)) [
      | inl b ↦ (samples, rw (a, b) refl, rw (a, b) refl)
      | inr b ↦
          let h : 3 ≤ threshold = ground arith in
          let l : threshold < length samples = ground arith in
          let (first, last, middle, e, e0, e1, p) =
            lttb_lem float samples threshold h l (cut h l) in
          let count : length middle ≡ threshold - 2 =
            length-AreAt samples p.places middle p.taken ∙ p.one_each in
          (
            first ∷ middle ++ last ∷ [],
            e,
            rw (a, b) (omega (arith, length-append middle (last ∷ []), count)),
          )
    ]
  ]
