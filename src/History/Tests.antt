-- ===== src/History/Tests.antt =====
-- Two clients that share a tick.
use luci_app_overwatch.Base.{ℕ, ◌≡◌, refl, true, [], ◌∷◌, none, ℕ_discrete}
use luci_app_overwatch.Base.Int.{ℤ, pos, sub_i64, ℤ-discrete}
use luci_app_overwatch.Base.Text.{Str-discrete}
use luci_app_overwatch.History.{ram_series}
use luci_app_overwatch.History.Total.{
  IsRising, point_at, point_for, samples_at, collected, ram_series-IsRising,
}
use luci_app_overwatch.Recorder
use luci_app_overwatch.Recorder.{Recorder, record_tick, realtime, macs}
use luci_app_overwatch.Ring
use luci_app_overwatch.Sample.{aggregate}
use luci_app_overwatch.Snapshot.View.{ClientView}

abbrev view : ℕ → ClientView
view n = record {
  mac = n ∷ [];
  ip = [];
  host = [];
  rx_bps = n;
  tx_bps = 1;
  rx_total = 0;
  tx_total = 0;
  conns_tcp = 1;
  conns_udp = 0;
}

abbrev recorder : Recorder
recorder =
    (record_tick (record_tick (Recorder.new 3 3) (view 10 ∷ []) (pos 100)).0
      (view 10 ∷ view 20 ∷ []) (pos 102)).0

both :
    ram_series recorder none (pos 101) (pos 200) true
    ≡ record { ts = pos 102; rx_bytes = 60; tx_bytes = 4; rx_peak = 20; tx_peak = 1; conns = 1 }
      ∷ []
unfolding ram_series record_tick realtime macs Recorder.new Ring.new Ring.push Ring.to_vec aggregate
    sub_i64 Str-discrete ℕ_discrete ℤ-discrete
both = refl

ram_series_example :
    IsRising (ram_series recorder none (pos 0) (pos 200) true)
    × ((t : ℤ)
        → point_at t (ram_series recorder none (pos 0) (pos 200) true)
          ≡ point_for t (samples_at t (collected recorder (pos 0) (pos 200) true (macs recorder))))
ram_series_example = ram_series-IsRising recorder (pos 0) (pos 200) true
