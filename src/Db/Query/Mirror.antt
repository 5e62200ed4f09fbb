-- ===== src/Db/Query/Mirror.antt =====
-- The sums of a query against `aggregate` of src/sample.rs, which they mirror.
use luci_app_overwatch.Base.{
  ℕ, ◌+◌, ◌%◌, ◌^◌, ◌<◌, ◌≡◌, refl, sym, ap, ◌∙◌, min, max, List, [], ◌∷◌, map, some, arith,
}
use luci_app_overwatch.Base.Int.{ℤ, pos, ◌+ℤ◌, of_bits}
use luci_app_overwatch.Db.{Traffic, traffic_of, checked_add, max_ℤ, merge, sum_from}
use luci_app_overwatch.Db.Query.{row_to_sample}
use luci_app_overwatch.Base.Words.{u64_max}
use luci_app_overwatch.Db.Query.Series.{row_at}
use luci_app_overwatch.Db.Query.Total.{sum_at}
use luci_app_overwatch.History.Total.{point_for}
use luci_app_overwatch.Sample.{Sample, zero_at, absorb, aggregate}
use luci_app_overwatch.Sample.Merge.{total}
use mathlib.Core.List.{foldl}

of_bits_small : (n : ℕ) → n < 2 ^ 63 → of_bits n ≡ pos n
of_bits_small n h = ground arith

checked_add_small : (a b : ℕ) → a + b < 2 ^ 63 → checked_add (pos a) (pos b) ≡ some (pos (a + b))
unfolding checked_add ◌+ℤ◌
checked_add_small a b h = ground arith

max_ℤ_small : (a b : ℕ) → max_ℤ (pos a) (pos b) ≡ pos (max a b)
max_ℤ_small a b = ground arith

-- Peaks within an `i64`, and a `u32` of connections.
pub record IsModest (s : Sample) : Type 0 where
  pub rx_peak : s.rx_peak < 2 ^ 63
  pub tx_peak : s.tx_peak < 2 ^ 63
  pub conns : s.conns < 2 ^ 32

abbrev pub AllModest : List Sample → Type 0
AllModest [] = Unit
AllModest (s ∷ ss) = IsModest s × AllModest ss

abbrev traffic : Sample → Traffic
traffic s = record {
  rx_bytes = pos s.rx_bytes;
  tx_bytes = pos s.tx_bytes;
  rx_peak = pos s.rx_peak;
  tx_peak = pos s.tx_peak;
  conns = pos s.conns;
}

traffic_of_modest :
    (s : Sample) → IsModest s → s.rx_bytes < 2 ^ 63 → s.tx_bytes < 2 ^ 63 → traffic_of s ≡ traffic s
traffic_of_modest s m hr ht =
    rw
      (
        of_bits_small s.rx_bytes hr,
        of_bits_small s.tx_bytes ht,
        of_bits_small s.rx_peak m.rx_peak,
        of_bits_small s.tx_peak m.tx_peak,
        of_bits_small s.conns (omega (arith, m.conns)),
      )
      refl

merge_modest :
    (a b : Sample)
    → a.rx_bytes + b.rx_bytes < 2 ^ 63
    → a.tx_bytes + b.tx_bytes < 2 ^ 63
    → merge (traffic a) (traffic b) ≡ some (traffic (absorb a b))
unfolding merge
merge_modest a b hr ht =
    let rx : min (a.rx_bytes + b.rx_bytes) u64_max ≡ a.rx_bytes + b.rx_bytes = omega arith in
    let tx : min (a.tx_bytes + b.tx_bytes) u64_max ≡ a.tx_bytes + b.tx_bytes = omega arith in
    rw
      (
        checked_add_small a.rx_bytes b.rx_bytes hr,
        checked_add_small a.tx_bytes b.tx_bytes ht,
        max_ℤ_small a.rx_peak b.rx_peak,
        max_ℤ_small a.tx_peak b.tx_peak,
        max_ℤ_small a.conns b.conns,
        rx,
        tx,
      )
      refl

sum_from-some :
    (t u v : Traffic) (us : List Traffic) → merge t u ≡ some v → sum_from t (u ∷ us) ≡ sum_from v us
sum_from-some t u v us e = rw (e, sum_from) refl

sum_from_modest :
    (a : Sample) (ss : List Sample)
    → AllModest ss
    → a.rx_bytes + total (λ s. s.rx_bytes) ss < 2 ^ 63
    → a.tx_bytes + total (λ s. s.tx_bytes) ss < 2 ^ 63
    → sum_from (traffic a) (map traffic_of ss) ≡ some (traffic (foldl absorb a ss))
sum_from_modest a [] m hr ht = refl
sum_from_modest a (s ∷ ss) m hr ht =
    ap (λ v. sum_from (traffic a) (v ∷ map traffic_of ss))
      (traffic_of_modest s m.0 (omega arith) (omega arith))
    ∙ sum_from-some (traffic a) (traffic s) (traffic (absorb a s)) (map traffic_of ss)
        (merge_modest a s (omega arith) (omega arith))
    ∙ sum_from_modest (absorb a s) ss m.1 (omega arith) (omega arith)

absorb-IsModest : (a s : Sample) → IsModest a → IsModest s → IsModest (absorb a s)
absorb-IsModest a s m n = record {
  rx_peak = omega (arith, m.rx_peak, n.rx_peak);
  tx_peak = omega (arith, m.tx_peak, n.tx_peak);
  conns = omega (arith, m.conns, n.conns);
}

-- What is read back of a sum.
row_to_sample-traffic :
    (t : ℤ) (s : Sample)
    → IsModest s
    → s.rx_bytes < 2 ^ 64
    → s.tx_bytes < 2 ^ 64
    → row_to_sample t (traffic s) ≡ record s { ts = t }
row_to_sample-traffic t s m hr ht =
    let rx : s.rx_bytes % 2 ^ 64 ≡ s.rx_bytes = omega arith in
    let tx : s.tx_bytes % 2 ^ 64 ≡ s.tx_bytes = omega arith in
    let rp : s.rx_peak % 2 ^ 64 ≡ s.rx_peak = omega (arith, m.rx_peak) in
    let tp : s.tx_peak % 2 ^ 64 ≡ s.tx_peak = omega (arith, m.tx_peak) in
    let cn : s.conns % 2 ^ 64 % 2 ^ 32 ≡ s.conns = omega (arith, m.conns) in
    rw (rx, tx, rp, tp, cn) refl

folded-modest :
    (t : ℤ) (a : Sample) (ss : List Sample)
    → IsModest a
    → AllModest ss
    → a.rx_bytes + total (λ s. s.rx_bytes) ss < 2 ^ 63
    → a.tx_bytes + total (λ s. s.tx_bytes) ss < 2 ^ 63
    → row_to_sample t (traffic (foldl absorb a ss)) ≡ foldl absorb (record a { ts = t }) ss
folded-modest t a [] m ms hr ht = row_to_sample-traffic t a m (omega arith) (omega arith)
folded-modest t a (s ∷ ss) m ms hr ht =
    folded-modest t (absorb a s) ss (absorb-IsModest a s m ms.0) ms.1 (omega arith) (omega arith)

absorb-zero_at :
    (t : ℤ) (s : Sample)
    → s.rx_bytes < 2 ^ 63
    → s.tx_bytes < 2 ^ 63
    → absorb (zero_at t) s ≡ record s { ts = t }
absorb-zero_at t s hr ht = ground arith

-- For samples of one time whose bytes add up to less than 2^63 each way, whose peaks are below 2^63
-- and whose connections fit a `u32`, the point of a query for all clients, from the rows that hold
-- them, is the aggregate of the samples.
pub sum_at-point_for :
    (t : ℤ) (ss : List Sample)
    → AllModest ss
    → total (λ s. s.rx_bytes) ss < 2 ^ 63
    → total (λ s. s.tx_bytes) ss < 2 ^ 63
    → sum_at t (map traffic_of ss) ≡ point_for t ss
unfolding aggregate
sum_at-point_for t [] m hr ht = refl
sum_at-point_for t (s ∷ ss) m hr ht =
    ap (row_at t) (
      ap (λ v. sum_from v (map traffic_of ss)) (traffic_of_modest s m.0 (omega arith) (omega arith))
      ∙ sum_from_modest s ss m.1 hr ht)
    ∙ ap some (folded-modest t s ss m.0 m.1 hr ht)
    ∙ ap (λ e. some (foldl absorb e ss)) (sym (absorb-zero_at t s (omega arith) (omega arith)))
