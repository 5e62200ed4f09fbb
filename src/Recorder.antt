-- ===== src/Recorder.antt =====
-- src/recorder.rs: the traffic series kept in memory, one per client. A tick adds a sample to the
-- client's realtime ring; when the minute changes, the samples of the old minute are aggregated.
pub mod History
pub mod Tracks
pub mod Run
mod Tests
use luci_app_overwatch.Base.{
  ℕ, ◌*◌, max, Bool, true, false, not, ite, List, [], ◌∷◌, ◌++◌, map, Option, none, some,
  if◌then◌else◌,
}
use luci_app_overwatch.Base.Int.{ℤ, pos, pos_part, sub_i64, mul_i64, quot, ℤ-discrete}
use luci_app_overwatch.Base.Maps
use luci_app_overwatch.Base.Text.{Str, Str-discrete}
use luci_app_overwatch.Base.Words.{add_u32, saturating_mul}
use luci_app_overwatch.Ring
use luci_app_overwatch.Ring.{RingBuffer}
use luci_app_overwatch.Sample.{Sample, aggregate}
use luci_app_overwatch.Snapshot.View.{ClientView}
use mathlib.Core.Option

pub record ClientSeries : Type 0 where
  pub realtime : RingBuffer Sample
  pub minutes : RingBuffer Sample
  pub cur_minute : ℤ
  pub cur_samples : List Sample

pub record Recorder : Type 0 where
  pub realtime_cap : ℕ
  pub minute_cap : ℕ
  pub series : List (Str × ClientSeries)
  pub last_ts : Option ℤ

unfoldable pub new : ℕ → ℕ → Recorder
new realtime_cap minute_cap = record {
  realtime_cap = realtime_cap;
  minute_cap = minute_cap;
  series = [];
  last_ts = none;
}

-- `self.last_ts.map(|t| (now - t).max(0) as u64).unwrap_or(0)`
unfoldable pub interval_since : Option ℤ → ℤ → ℕ
interval_since none now = 0
interval_since (some t) now = pos_part (sub_i64 now t)

unfoldable pub sample_of : ClientView → ℕ → ℤ → Sample
sample_of v interval now = record {
  ts = now;
  rx_bytes = saturating_mul v.rx_bps interval;
  tx_bytes = saturating_mul v.tx_bps interval;
  rx_peak = v.rx_bps;
  tx_peak = v.tx_bps;
  conns = add_u32 v.conns_tcp v.conns_udp;
}

abbrev pub fresh_series : ℕ → ℕ → ℤ → ClientSeries
fresh_series cap_rt cap_min minute = record {
  realtime = Ring.new cap_rt;
  minutes = Ring.new cap_min;
  cur_minute = minute;
  cur_samples = [];
}

abbrev is_empty {ℓ} : {A : Type ℓ} → List A → Bool
is_empty [] = true
is_empty (x ∷ xs) = false

-- What the loop's body does to one series, and the minute that it finalizes, if any.
unfoldable pub advance : ClientSeries → ℤ → Sample → ClientSeries × Option Sample
advance s minute sample =
    let rolled : Bool = ite (ℤ-discrete s.cur_minute minute) false (not (is_empty s.cur_samples)) in
    let agg = aggregate s.cur_samples (mul_i64 s.cur_minute (pos 60)) in
    if rolled
    then (
      record {
        realtime = Ring.push s.realtime sample;
        minutes = Ring.push s.minutes agg;
        cur_minute = minute;
        cur_samples = sample ∷ [];
      },
      some agg,
    )
    else (
      record {
        realtime = Ring.push s.realtime sample;
        minutes = s.minutes;
        cur_minute = minute;
        cur_samples = s.cur_samples ++ sample ∷ [];
      },
      none,
    )

-- The loop's body for one view.
unfoldable pub record_view : Recorder → ℕ → ℤ → ClientView → Recorder × Option (Str × Sample)
unfolding sample_of advance
record_view r interval now v =
    let minute = quot now 60 in
    let old =
      Option.get_or (Maps.lookup Str-discrete v.mac r.series)
        (fresh_series r.realtime_cap r.minute_cap minute) in
    let (s, out) = advance old minute (sample_of v interval now) in
    (
      record r { series = Maps.insert Str-discrete v.mac s r.series },
      Option.map (λ a. (v.mac, a)) out,
    )

abbrev to_list {ℓ} : {A : Type ℓ} → Option A → List A
to_list none = []
to_list (some a) = a ∷ []

-- The loop over the views; the list is what is finalized, in order.
unfoldable pub record_views : Recorder → ℕ → ℤ → List ClientView → Recorder × List (Str × Sample)
unfolding record_view
record_views r interval now [] = (r, [])
record_views r interval now (v ∷ vs) =
    let (r1, out) = record_view r interval now v in
    let (r2, outs) = record_views r1 interval now vs in (r2, to_list out ++ outs)

unfoldable pub record_tick : Recorder → List ClientView → ℤ → Recorder × List (Str × Sample)
unfolding record_views interval_since
record_tick r views now =
    let (r', finalized) = record_views r (interval_since r.last_ts now) now views in
    (record r' { last_ts = some now }, finalized)

unfoldable pub realtime : Recorder → Str → List Sample
realtime r mac =
    Option.get_or
      (Option.map (λ (s : ClientSeries). Ring.to_vec s.realtime)
        (Maps.lookup Str-discrete mac r.series))
      []

unfoldable pub minutes : Recorder → Str → List Sample
minutes r mac =
    Option.get_or
      (Option.map (λ (s : ClientSeries). Ring.to_vec s.minutes)
        (Maps.lookup Str-discrete mac r.series))
      []

unfoldable pub macs : Recorder → List Str
macs r = map (λ (e : Str × ClientSeries). e.0) r.series
