-- ===== src/History.antt =====
-- src/history.rs: a series for the charts, from the recorder or from the database, cut down to a
-- number of points. The database is a parameter here, as the source's trait `Store` is.
pub mod Total
mod Tests
use luci_app_overwatch.Base.{
  ℕ, Bool, true, false, ◌&&◌, ite, List, [], ◌∷◌, Option, none, some, if◌then◌else◌,
}
use luci_app_overwatch.Base.Float.{F64}
use luci_app_overwatch.Base.Int.{ℤ, ltb_ℤ, leb_ℤ, ℤ-discrete}
use luci_app_overwatch.Base.Outcome.{Outcome}
use luci_app_overwatch.Base.Text.{Str}
use luci_app_overwatch.Downsample.{lttb}
use luci_app_overwatch.Recorder
use luci_app_overwatch.Recorder.{Recorder, macs}
use luci_app_overwatch.Sample.{Sample, zero_at, absorb}
use mathlib.Core.List.{foldl}
use mathlib.Core.Option

pub data HistTier : Type 0 where
  realtime day week month : HistTier

-- The tables of the database, and the part of its trait that histories use. `none` is an error.
pub data Tier : Type 0 where
  min_tier hour_tier day_tier : Tier

pub record Store : Type 0 where
  pub query : Tier → Option Str → ℤ → ℤ → Option (List Sample)

abbrev pub in_range : ℤ → ℤ → Sample → Bool
in_range from to s = leb_ℤ from s.ts && leb_ℤ s.ts to

abbrev pub keep : (Sample → Bool) → List Sample → List Sample
keep p [] = []
keep p (s ∷ ss) = if p s then s ∷ keep p ss else keep p ss

-- `by_ts.entry(s.ts).or_insert(…)` and the updates of the entry: the map is the list of its values,
-- in the order of their times.
abbrev pub put : List Sample → Sample → List Sample
put [] s = absorb (zero_at s.ts) s ∷ []
put (e ∷ es) s =
    ite (ℤ-discrete s.ts e.ts) (absorb e s ∷ es)
      (if ltb_ℤ s.ts e.ts then absorb (zero_at s.ts) s ∷ e ∷ es else e ∷ put es s)

abbrev pub read : Recorder → Bool → Str → List Sample
read r true m = Recorder.realtime r m
read r false m = Recorder.minutes r m

-- The loop over the clients.
abbrev pub by_ts : Recorder → ℤ → ℤ → Bool → List Sample → List Str → List Sample
by_ts r from to live es [] = es
by_ts r from to live es (m ∷ ms) =
    by_ts r from to live (foldl put es (keep (in_range from to) (read r live m))) ms

unfoldable pub ram_series : Recorder → Option Str → ℤ → ℤ → Bool → List Sample
ram_series r (some m) from to live = keep (in_range from to) (read r live m)
ram_series r none from to live = by_ts r from to live [] (macs r)

unfoldable pub raw_series : Recorder → Store → HistTier → Option Str → ℤ → ℤ → List Sample
unfolding ram_series
raw_series r store realtime mac from to = ram_series r mac from to true
raw_series r store day mac from to = ram_series r mac from to false
raw_series r store week mac from to = Option.get_or (store.query hour_tier mac from to) []
raw_series r store month mac from to = Option.get_or (store.query day_tier mac from to) []

unfoldable pub series :
    F64 → Recorder → Store → HistTier → Option Str → ℤ → ℤ → ℕ → Outcome (List Sample)
unfolding raw_series
series float r store tier mac from to max_points =
    lttb float (raw_series r store tier mac from to) max_points
