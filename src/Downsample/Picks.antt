-- ===== src/Downsample/Picks.antt =====
-- Which points are kept.
use luci_app_overwatch.Base.{
  ℕ, zero, suc, ◌+◌, ◌-◌, ◌≤◌, ◌<◌, ◌≡◌, inl, inr, refl, min, max, false, List, [], ◌∷◌, ◌++◌, some,
  ap, lt-length_of_get, arith, ltb, leb, Bool-cases, length, get_elem?,
}
use luci_app_overwatch.Base.Float.{F64}
use luci_app_overwatch.Base.Outcome.{
  value, index, slice, Gives, Gives->>=, Gives-value, Gives-index, slice_lem, index_lem,
  value-Gives,
}
use luci_app_overwatch.Sample.{Sample}
use luci_app_overwatch.Downsample.{bound, largest, pick, picks, lttb}

module _ (float : F64) where
  open float use {F, of_uint, div, minus_one}

  -- The `k` buckets behind the first sample rise and end before the last of `n` samples.
  pub record AreBuckets (every : F) (n k : ℕ) : Type 0 where
    pub rising : (i : ℕ) → i < k → bound float every i < bound float every (suc i)
    pub inside : (i : ℕ) → i < k → bound float every (suc i) < n

  pub largest_lem :
      (samples : List Sample) (area : Sample → F) (left j : ℕ) (max_area : F) (next_a lo hi : ℕ)
      → j + left ≤ hi
      → hi ≤ length samples
      → lo ≤ j
      → (lo ≤ next_a) × (next_a < hi)
      → Gives (λ p. (lo ≤ p) × (p < hi)) (largest float samples area left j max_area next_a)
  unfolding largest
  largest_lem samples area zero j max_area next_a lo hi h k l q = q
  largest_lem samples area (suc left) j max_area next_a lo hi h k l q =
      Gives->>= (λ s. get_elem? samples j ≡ some s) (λ p. (lo ≤ p) × (p < hi)) (index samples j) _
        (Gives-index samples j (omega arith))
        λ s _.
          largest_lem samples area left (suc j) _ _ lo hi (omega arith) k (omega arith)
            (elim (Bool-cases (float.gt (area s) max_area)) [
              | inl e ↦ rw e (omega arith)
              | inr e ↦ rw e q
            ])

  -- The samples at some places.
  abbrev pub AreAt : List Sample → List ℕ → List Sample → Type 0
  AreAt samples [] [] = Unit
  AreAt samples (p ∷ ps) (s ∷ ss) = (get_elem? samples p ≡ some s) × AreAt samples ps ss
  AreAt samples _ _ = ⊥

  abbrev Any {ℓ} : {A : Type ℓ} → A → Type 0
  Any _ = Unit

  Gives-here : (samples : List Sample) (i : ℕ) → i < length samples → Gives Any (index samples i)
  Gives-here samples i h = let (x, _, e) = index_lem samples i h in Gives-value Any e tt

  -- A pick stands in its bucket.
  abbrev pub IsPick : List Sample → F → ℕ → Sample × ℕ → Type 0
  IsPick samples every i (s, p) =
      (bound float every i ≤ p) × (p < bound float every (suc i)) × (get_elem? samples p ≡ some s)

  module _ (samples : List Sample) (every : F) (k : ℕ)
      (b : AreBuckets every (length samples) k) where
    pick_lem :
        (i a : ℕ)
        → i < k
        → a < length samples
        → Gives (IsPick samples every i) (pick float samples every i a)
    unfolding pick
    pick_lem i a h l =
        let n : ℕ = length samples in
        let lo : ℕ = bound float every i in
        let from : ℕ = bound float every (suc i) in
        let up : lo < from = b.rising i h in
        let within : from < n = b.inside i h in
        let low : leb n from ≡ false = ground arith in
        let hi : ℕ = min from n in
        let to : ℕ = min (max (min (bound float every (i + 2)) n) (from + 1)) n in
        let Q : Sample × ℕ → Type 0 = IsPick samples every i in
        rw low (
          Gives->>= Any Q (slice samples from to) _
            (Gives-value Any (slice_lem samples from to (omega arith) (omega arith)) tt)
            λ bucket _. Gives->>= Any Q (index samples a) _ (Gives-here samples a l) λ point_a _.
              Gives->>= (λ p. (lo ≤ p) × (p < hi)) Q
                (largest float samples _ (hi - lo) lo minus_one lo) _
                (largest_lem samples _ (hi - lo) lo minus_one lo lo hi (omega arith) (omega arith)
                  (omega arith) (omega arith))
                λ next_a q.
                  Gives->>= (λ s. get_elem? samples next_a ≡ some s) Q (index samples next_a) _
                    (Gives-index samples next_a (omega (arith, q.1)))
                    λ s e. (q.0, omega (arith, q.1), e))

    -- Places in the buckets from `i` on, one each.
    abbrev pub InBuckets : ℕ → List ℕ → Type 0
    InBuckets i [] = Unit
    InBuckets i (p ∷ ps) =
        (bound float every i ≤ p) × (p < bound float every (suc i)) × InBuckets (suc i) ps

    -- One place out of each of the buckets from `i` on, and the samples there.
    pub record ArePicks (i left : ℕ) (ss : List Sample) : Type 0 where
      pub places : List ℕ
      pub one_each : length places ≡ left
      pub in_buckets : InBuckets i places
      pub taken : AreAt samples places ss

    picks_lem :
        (left i a : ℕ)
        → i + left ≤ k
        → a < length samples
        → Gives (ArePicks i left) (picks float samples every left i a)
    unfolding picks
    picks_lem zero i a h l = record { places = []; one_each = refl; in_buckets = tt; taken = tt }
    picks_lem (suc left) i a h l =
        Gives->>= (IsPick samples every i) (ArePicks i (suc left)) (pick float samples every i a) _
          (pick_lem i a (omega arith) l)
          λ c q.
            Gives->>= (ArePicks (suc i) left) (ArePicks i (suc left))
              (picks float samples every left (suc i) c.1) _
              (picks_lem left (suc i) c.1 (omega arith) (lt-length_of_get samples c.1 q.2))
              λ rest r. record {
                places = c.1 ∷ r.places;
                one_each = ap suc r.one_each;
                in_buckets = (q.0, q.1, r.in_buckets);
                taken = (q.2, r.taken);
              }

  abbrev pub step_of : List Sample → ℕ → F
  step_of samples threshold = div (of_uint (length samples - 2)) (of_uint (threshold - 2))

  -- Where the buckets of the floating-point division rise and end before the last sample, a series
  -- longer than the threshold, which is 3 at least, is cut without a panic to the first sample, one
  -- sample out of each of `threshold - 2` buckets, in order, and the last sample.
  pub lttb_lem :
      (samples : List Sample) (threshold : ℕ)
      → 3 ≤ threshold
      → threshold < length samples
      → (b : AreBuckets (step_of samples threshold) (length samples) (threshold - 2))
      → (first last : Sample) × (middle : List Sample) × (lttb float samples threshold
          ≡ value (first ∷ middle ++ last ∷ []))
        × (get_elem? samples 0 ≡ some first)
        × (get_elem? samples (length samples - 1) ≡ some last)
        × ArePicks samples (step_of samples threshold) (threshold - 2) b 0 (threshold - 2) middle
  unfolding lttb
  lttb_lem samples threshold h l b =
      let (first, e0, first_at) = index_lem samples 0 (omega arith) in
      let (last, e1, last_at) = index_lem samples (length samples - 1) (omega arith) in
      let (middle, found, p) =
        value-Gives
          (ArePicks samples (step_of samples threshold) (threshold - 2) b 0 (threshold - 2)) _
          (picks_lem samples (step_of samples threshold) (threshold - 2) b (threshold - 2) 0 0
            (omega arith) (omega arith)) in
      let small : ltb threshold 3 ≡ false = ground arith in
      let long : leb (length samples) threshold ≡ false = ground arith in
      (first, last, middle, rw (small, long, first_at, found, last_at), e0, e1, p)
