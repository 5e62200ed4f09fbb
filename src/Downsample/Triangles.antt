-- ===== src/Downsample/Triangles.antt =====
-- The point kept of a bucket spans the largest triangle with the point kept before it and the average
-- of the next bucket.
use luci_app_overwatch.Base.{
  ℕ, zero, suc, ◌+◌, ◌≤◌, ◌<◌, ◌≡◌, ◌⊎◌, inl, inr, refl, sym, ap, ◌∙◌, true, false, List, some,
  arith, Bool-cases, length, get_elem?, dec_lt, subst,
}
use luci_app_overwatch.Base.Float.{F64}
use luci_app_overwatch.Base.Outcome.{index, Gives, Gives->>=, Gives-index}
use luci_app_overwatch.Sample.{Sample}
use luci_app_overwatch.Downsample.{largest}
use mathlib.Core.Option.{some_inj}

module _ (float : F64) where
  open float use {F, of_uint, div, minus_one, gt}

  -- What `>` of floating-point numbers keeps to, NaN included.
  pub record IsOrder : Type 0 where
    pub irreflexive : (x : F) → gt x x ≡ false
    pub above : (x m n : F) → gt x m ≡ false → gt n m ≡ true → gt x n ≡ false

  module _ (samples : List Sample) (area : Sample → F) where
    -- No sample from `lo` up to `j` is larger than `m`.
    abbrev pub IsBound : ℕ → ℕ → F → Type 0
    IsBound lo j m =
        (i : ℕ) (s : Sample) → lo ≤ i → i < j → get_elem? samples i ≡ some s → gt (area s) m ≡ false

    -- The place of a sample that none exceeds; or the first place, where no area exceeds -1.
    abbrev pub IsLargest : ℕ → ℕ → ℕ → Type 0
    IsLargest lo hi p =
        ((t : Sample) × (get_elem? samples p ≡ some t) × IsBound lo hi (area t))
        ⊎ ((p ≡ lo) × IsBound lo hi minus_one)

    -- What the loop knows of the largest area so far and its place.
    abbrev Knows : ℕ → F → ℕ → Type 0
    Knows lo m p =
        ((t : Sample) × (get_elem? samples p ≡ some t) × (m ≡ area t))
        ⊎ ((p ≡ lo) × (m ≡ minus_one))

    IsLargest-Knows : (lo hi p : ℕ) (m : F) → IsBound lo hi m → Knows lo m p → IsLargest lo hi p
    IsLargest-Knows lo hi p m b (inl (t, at, e)) = inl (t, at, subst (IsBound lo hi) e b)
    IsLargest-Knows lo hi p m b (inr (q, e)) = inr (q, subst (IsBound lo hi) e b)

    IsBound-more :
        (lo j : ℕ) (m n : F) (s : Sample)
        → IsBound lo j m
        → get_elem? samples j ≡ some s
        → ((x : F) → gt x m ≡ false → gt x n ≡ false)
        → gt (area s) n ≡ false
        → IsBound lo (suc j) n
    IsBound-more lo j m n s b at up here i t l h e = elim (dec_lt i j) [
      | yes k ↦ up (area t) (b i t l k e)
      | no k ↦
          let same : i ≡ j = omega arith in
          let t_s : some t ≡ some s = sym e ∙ ap (get_elem? samples) same ∙ at in
          rw (some_inj.0 t_s) here
    ]

    pub largest-IsLargest :
        (o : IsOrder) (left j : ℕ) (m : F) (p lo hi : ℕ)
        → j + left ≡ hi
        → hi ≤ length samples
        → lo ≤ j
        → IsBound lo j m
        → Knows lo m p
        → Gives (IsLargest lo hi) (largest float samples area left j m p)
    unfolding largest
    largest-IsLargest o zero j m p lo hi h k l b q =
        let end : j ≡ hi = omega arith in
        IsLargest-Knows lo hi p m (subst (λ n. IsBound lo n m) end b) q
    largest-IsLargest o (suc left) j m p lo hi h k l b q =
        Gives->>= (λ s. get_elem? samples j ≡ some s) (IsLargest lo hi) (index samples j) _
          (Gives-index samples j (omega arith))
          λ s at. elim (Bool-cases (gt (area s) m)) [
            | inl e ↦ rw e (
                largest-IsLargest o left (suc j) (area s) j lo hi (omega arith) k (omega arith)
                  (IsBound-more lo j m (area s) s b at (λ x f. o.above x m (area s) f e)
                    (o.irreflexive (area s)))
                  (inl (s, at, refl)))
            | inr e ↦ rw e (
                largest-IsLargest o left (suc j) m p lo hi (omega arith) k (omega arith)
                  (IsBound-more lo j m m s b at (λ x f. f) e) q)
          ]
