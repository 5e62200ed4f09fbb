-- ===== src/Sample.antt =====
-- src/sample.rs: one point of a traffic series, and the aggregate of several.
pub mod Merge
mod Tests
use luci_app_overwatch.Base.{ℕ, max, List}
use luci_app_overwatch.Base.Int.{ℤ}
use luci_app_overwatch.Base.Words.{saturating_add}
use mathlib.Core.List.{foldl}

-- `ts` is an `i64`, `conns` a `u32`, the others are `u64`.
pub record Sample : Type 0 where
  pub ts : ℤ
  pub rx_bytes : ℕ
  pub tx_bytes : ℕ
  pub rx_peak : ℕ
  pub tx_peak : ℕ
  pub conns : ℕ

abbrev pub zero_at : ℤ → Sample
zero_at ts = record { ts = ts; rx_bytes = 0; tx_bytes = 0; rx_peak = 0; tx_peak = 0; conns = 0 }

-- The body of the loop: bytes add up and stick at the top, peaks and connections keep the largest.
abbrev pub absorb : Sample → Sample → Sample
absorb out s = record out {
  rx_bytes = saturating_add out.rx_bytes s.rx_bytes;
  tx_bytes = saturating_add out.tx_bytes s.tx_bytes;
  rx_peak = max out.rx_peak s.rx_peak;
  tx_peak = max out.tx_peak s.tx_peak;
  conns = max out.conns s.conns;
}

unfoldable pub aggregate : List Sample → ℤ → Sample
aggregate samples bucket_ts = foldl absorb (zero_at bucket_ts) samples
