-- ===== src/Downsample/Cut.antt =====
-- A series that is cut: its ends, and a largest triangle out of every bucket between them.
use luci_app_overwatch.Base.{
  ℕ, zero, suc, ◌+◌, ◌-◌, ◌^◌, ◌≤◌, ◌<◌, ◌≡◌, refl, ap, min, max, false, List, [], ◌∷◌, ◌++◌, some,
  arith, ltb, leb, length, get_elem?, take, drop, length-take, length-drop, dec_lt, subst, inr,
}
use luci_app_overwatch.Base.Float.{F64}
use luci_app_overwatch.Base.Outcome.{
  value, index, slice, Gives, Gives->>=, Gives-both, Gives-index, slice_lem, index_lem, value-Gives,
}
use luci_app_overwatch.Sample.{Sample}
use luci_app_overwatch.Downsample.{
  bound, sum_of, x_at, value_at, area_of, largest, pick, picks, lttb, sub_usize,
}
use luci_app_overwatch.Downsample.Picks.{AreBuckets, IsPick, largest_lem, step_of}
use luci_app_overwatch.Downsample.Triangles.{IsOrder, IsLargest, largest-IsLargest}

module _ (float : F64) where
  open float use {F, of_uint, div, minus_one, gt}

  -- The samples behind bucket `i`: the next bucket, or what is left, and one at least.
  abbrev pub next_bucket : List Sample → F → ℕ → List Sample
  next_bucket samples every i =
      let from = bound float every (suc i) in
      take (max (min (bound float every (i + 2)) (length samples)) (from + 1) - from)
        (drop from samples)

  abbrev pub mean : (Sample → F) → List Sample → F
  mean f ss = div (sum_of float f ss) (of_uint (length ss))

  -- The area of the triangle of a point, a sample, and the average of the next bucket.
  abbrev pub triangle : List Sample → F → ℕ → Sample → Sample → F
  triangle samples every i point_a =
      let next = next_bucket samples every i in
      area_of float point_a (mean (x_at float) next) (mean (value_at float) next)

  module _ (o : IsOrder float) (samples : List Sample) (every : F) (k : ℕ)
      (b : AreBuckets float every (length samples) k)
      (last : bound float every k ≤ bound float every (suc k)) (few : length samples < 2 ^ 64) where
    -- A sample of bucket `i` at a place, largest of its bucket for the point kept before it.
    abbrev pub IsTallest : ℕ → Sample → Sample × ℕ → Type 0
    IsTallest i point_a c =
        IsPick float samples every i c
        × IsLargest float samples (triangle samples every i point_a) (bound float every i)
            (bound float every (suc i)) c.1

    next_rises : (i : ℕ) → i < k → bound float every (suc i) ≤ bound float every (i + 2)
    next_rises i h =
        let next : i + 2 ≡ suc (suc i) = omega arith in
        rw next (elim (dec_lt (suc i) k) [
          | yes l ↦ omega (arith, b.rising (suc i) l)
          | no l ↦
              let same : k ≡ suc i = omega arith in
              subst (λ j. bound float every j ≤ bound float every (suc j)) same last
        ])

    pick-IsTallest :
        (i a : ℕ) (point_a : Sample)
        → i < k
        → get_elem? samples a ≡ some point_a
        → Gives (IsTallest i point_a) (pick float samples every i a)
    unfolding pick
    pick-IsTallest i a point_a h at =
        let n : ℕ = length samples in
        let lo : ℕ = bound float every i in
        let from : ℕ = bound float every (suc i) in
        let end : ℕ = min (bound float every (i + 2)) n in
        let up : lo < from = b.rising i h in
        let within : from < n = b.inside i h in
        let rises : from ≤ bound float every (i + 2) = next_rises i h in
        let low : leb n from ≡ false = ground arith in
        let to : min (max end (from + 1)) n ≡ max end (from + 1) = omega arith in
        let cut : slice samples from (max end (from + 1)) ≡ value (next_bucket samples every i) =
          slice_lem samples from (max end (from + 1)) (omega arith) (omega arith) in
        let count : max (sub_usize end from) 1 ≡ length (next_bucket samples every i) = omega (
          arith,
          length-take (max end (from + 1) - from) (drop from samples),
          length-drop from samples,
        ) in
        let hi : min from n ≡ from = omega arith in
        let here : index samples a ≡ value point_a = rw (at, index) refl in
        rw (low, to, cut, count, hi, here)
          (Gives->>=
            (λ p.
              ((lo ≤ p) × (p < from))
              × IsLargest float samples (triangle samples every i point_a) lo from p)
            (IsTallest i point_a)
            (largest float samples (triangle samples every i point_a) (from - lo) lo minus_one lo) _
            (Gives-both (λ p. (lo ≤ p) × (p < from))
              (IsLargest float samples (triangle samples every i point_a) lo from)
              (largest float samples (triangle samples every i point_a) (from - lo) lo minus_one lo)
              (largest_lem float samples (triangle samples every i point_a) (from - lo) lo minus_one
                lo lo from (omega arith) (omega arith) (omega arith) (omega arith))
              (largest-IsLargest float samples (triangle samples every i point_a) o (from - lo) lo
                minus_one lo lo from (omega arith) (omega arith) (omega arith)
                (λ j s l r e. absurd (omega arith)) (inr (refl, refl))))
            λ next_a q.
              Gives->>= (λ s. get_elem? samples next_a ≡ some s) (IsTallest i point_a)
                (index samples next_a) _ (Gives-index samples next_a (omega (arith, q.0.1)))
                λ s e. ((q.0.0, q.0.1, e), q.1))

    -- Samples out of the buckets from `i` on, each the tallest for the one before it.
    abbrev pub AreTallest : ℕ → Sample → List Sample → Type 0
    AreTallest i point_a [] = Unit
    AreTallest i point_a (s ∷ ss) = (p : ℕ) × IsTallest i point_a (s, p) × AreTallest (suc i) s ss

    picks-AreTallest :
        (left i a : ℕ) (point_a : Sample)
        → i + left ≤ k
        → get_elem? samples a ≡ some point_a
        → Gives
            (λ ss. (length ss ≡ left) × AreTallest i point_a ss)
            (picks float samples every left i a)
    unfolding picks
    picks-AreTallest zero i a point_a h at = (refl, tt)
    picks-AreTallest (suc left) i a point_a h at =
        Gives->>= (IsTallest i point_a) (λ ss. (length ss ≡ suc left) × AreTallest i point_a ss)
          (pick float samples every i a) _ (pick-IsTallest i a point_a (omega arith) at)
          λ c q.
            Gives->>= (λ ss. (length ss ≡ left) × AreTallest (suc i) c.0 ss)
              (λ ss. (length ss ≡ suc left) × AreTallest i point_a ss)
              (picks float samples every left (suc i) c.1) _
              (picks-AreTallest left (suc i) c.1 c.0 (omega arith) q.0.2)
              λ rest r. (ap suc r.0, (c.1, q, r.1))

  -- A series longer than the threshold, which is 3 at least, is cut to its first sample, one sample out
  -- of each of `threshold - 2` buckets, in order, and its last sample. Each of them spans with the
  -- sample kept before it and the average of the next bucket a triangle that no other sample of its
  -- bucket exceeds, or is the first of its bucket where no triangle exceeds -1. This is so where `>` is
  -- an order that NaN may be outside of, and where the buckets of the floating-point division rise, end
  -- before the last sample, and are followed by one that does not fall back.
  pub lttb-AreTallest :
      (o : IsOrder float) (samples : List Sample) (threshold : ℕ)
      → 3 ≤ threshold
      → threshold < length samples
      → (few : length samples < 2 ^ 64)
      → (b : AreBuckets float (step_of float samples threshold) (length samples) (threshold - 2))
      → (last : bound float (step_of float samples threshold) (threshold - 2)
          ≤ bound float (step_of float samples threshold) (suc (threshold - 2)))
      → (first end : Sample) × (middle : List Sample) × (lttb float samples threshold
          ≡ value (first ∷ middle ++ end ∷ []))
        × (get_elem? samples 0 ≡ some first)
        × (get_elem? samples (length samples - 1) ≡ some end)
        × (length middle ≡ threshold - 2)
        × AreTallest o samples
            (step_of float samples threshold)
            (threshold - 2)
            b
            last
            few
            0
            first
            middle
  unfolding lttb
  lttb-AreTallest o samples threshold h l few b last =
      let every : F = step_of float samples threshold in
      let k : ℕ = threshold - 2 in
      let (first, e0, first_at) = index_lem samples 0 (omega arith) in
      let (end, e1, end_at) = index_lem samples (length samples - 1) (omega arith) in
      let (middle, found, p) =
        value-Gives (λ ss. (length ss ≡ k) × AreTallest o samples every k b last few 0 first ss) _
          (picks-AreTallest o samples every k b last few k 0 0 first (omega arith) e0) in
      let small : ltb threshold 3 ≡ false = ground arith in
      let long : leb (length samples) threshold ≡ false = ground arith in
      (first, end, middle, rw (small, long, first_at, found, end_at) refl, e0, e1, p.0, p.1)
