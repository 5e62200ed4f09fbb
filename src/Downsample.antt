-- ===== src/Downsample.antt =====
-- src/downsample.rs: largest triangle three buckets. A series is cut down to a number of points: the
-- first, the last, and out of each bucket between them the one that spans the largest triangle.
pub mod Picks
pub mod Length
pub mod Triangles
pub mod Cut
mod Tests
use luci_app_overwatch.Base.{
  ℕ, zero, suc, ◌+◌, ◌-◌, ◌%◌, ◌^◌, min, max, Bool, ◌||◌, List, [], ◌∷◌, ◌++◌, ltb, leb,
  if◌then◌else◌, length,
}
use luci_app_overwatch.Base.Float.{F64}
use luci_app_overwatch.Base.Outcome.{Outcome, value, ◌>>=◌, index, slice}
use luci_app_overwatch.Base.Words.{saturating_add}
use luci_app_overwatch.Sample.{Sample}
use mathlib.Core.List.{foldl}

-- `a - b` on `usize`, as a release build computes it.
abbrev pub sub_usize : ℕ → ℕ → ℕ
sub_usize a b = (a + 2 ^ 64 - b) % 2 ^ 64

module _ (float : F64) where
  open float use {F, of_uint, of_i64, half, minus_one, add, sub, mul, div, abs, floor, gt, to_uint}

  unfoldable pub value_at : Sample → F
  value_at s = of_uint (saturating_add s.rx_bytes s.tx_bytes)

  unfoldable pub x_at : Sample → F
  x_at s = of_i64 s.ts

  -- `(i as f64 * every).floor() as usize + 1`: where bucket `i` starts.
  unfoldable pub bound : F → ℕ → ℕ
  bound every i = to_uint (floor (mul (of_uint i) every)) + 1

  abbrev pub sum_of : (Sample → F) → List Sample → F
  sum_of f = foldl (λ acc s. add acc (f s)) (of_uint 0)

  -- The triangle of the last point picked, a point of this bucket and the next bucket's average.
  unfoldable pub area_of : Sample → F → F → Sample → F
  unfolding value_at x_at
  area_of point_a avg_x avg_y s =
      mul
        (abs (
          sub (mul (sub (x_at point_a) avg_x) (sub (value_at s) (value_at point_a)))
            (mul (sub (x_at point_a) (x_at s)) (sub avg_y (value_at point_a)))))
        half

  -- The loop over the places from `j` on, `left` of them.
  unfoldable pub largest : List Sample → (Sample → F) → ℕ → ℕ → F → ℕ → Outcome ℕ
  largest samples area zero j max_area next_a = value next_a
  largest samples area (suc left) j max_area next_a = do
    s ← index samples j
    let better = gt (area s) max_area
    largest samples area left (suc j) (if better then area s else max_area)
        (if better then j else next_a)

  -- One round: the sample that bucket `i` gives, and its place.
  unfoldable pub pick : List Sample → F → ℕ → ℕ → Outcome (Sample × ℕ)
  unfolding bound area_of largest value_at x_at
  pick samples every i a = do
    let n = length samples
    let avg_end = min (bound every (i + 2)) n
    let avg_start = if leb n (bound every (suc i)) then n - 1 else bound every (suc i)
    let avg_count = max (sub_usize avg_end avg_start) 1
    bucket ← slice samples avg_start (min (max avg_end (avg_start + 1)) n)
    let avg_x = div (sum_of x_at bucket) (of_uint avg_count)
    let avg_y = div (sum_of value_at bucket) (of_uint avg_count)
    let range_start = bound every i
    let range_end = min (bound every (suc i)) n
    point_a ← index samples a
    next_a ←
        largest samples (area_of point_a avg_x avg_y) (range_end - range_start) range_start
          minus_one range_start
    s ← index samples next_a
    value (s, next_a)

  -- The loop over the buckets from `i` on, `left` of them.
  unfoldable pub picks : List Sample → F → ℕ → ℕ → ℕ → Outcome (List Sample)
  unfolding pick
  picks samples every zero i a = value []
  picks samples every (suc left) i a = do
    (s, next_a) ← pick samples every i a
    rest ← picks samples every left (suc i) next_a
    value (s ∷ rest)

  unfoldable pub lttb : List Sample → ℕ → Outcome (List Sample)
  unfolding picks
  lttb samples threshold =
      let n = length samples in
      let every = div (of_uint (n - 2)) (of_uint (threshold - 2)) in
      if ltb threshold 3 || leb n threshold then value samples else do
        first ← index samples 0
        middle ← picks samples every (threshold - 2) 0 0
        last ← index samples (n - 1)
        value (first ∷ middle ++ last ∷ [])
