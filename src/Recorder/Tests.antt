-- ===== src/Recorder/Tests.antt =====
-- Three ticks over two minutes, with one client.
use luci_app_overwatch.Base.{◌≡◌, refl, List, [], ◌∷◌, none, ℕ_discrete}
use luci_app_overwatch.Base.Int.{pos, sub_i64, mul_i64, ℤ-discrete}
use luci_app_overwatch.Base.Last.{last}
use luci_app_overwatch.Base.Text.{Str, Str-discrete, text}
use luci_app_overwatch.Recorder
use luci_app_overwatch.Recorder.{Recorder, interval_since, record_tick}
use luci_app_overwatch.Recorder.Run.{run, logged, Filed, realtime-run, minutes-run, run-Filed}
use luci_app_overwatch.Recorder.Tracks.{Tick, select}
use luci_app_overwatch.Ring
use luci_app_overwatch.Sample.{Sample, aggregate}
use luci_app_overwatch.Snapshot.View.{ClientView}

abbrev phone : Str
phone = text "aa"

abbrev view : ClientView
view = record {
  mac = phone;
  ip = text "1";
  host = [];
  rx_bps = 10;
  tx_bps = 3;
  rx_total = 0;
  tx_total = 0;
  conns_tcp = 1;
  conns_udp = 2;
}

abbrev ticks : List Tick
ticks = (view ∷ [], pos 100) ∷ (view ∷ [], pos 110) ∷ (view ∷ [], pos 121) ∷ []

abbrev ran : Recorder × List (Str × Sample)
ran = run (Recorder.new 2 5) ticks

-- The minute from 60 on, with its two samples; the first one has no interval.
minute_one :
    select phone ran.1
    ≡ record { ts = pos 60; rx_bytes = 100; tx_bytes = 30; rx_peak = 10; tx_peak = 3; conns = 3 }
      ∷ []
unfolding run record_tick Recorder.new aggregate Str-discrete ℕ_discrete Ring.new Ring.push sub_i64
    mul_i64 ℤ-discrete
minute_one = refl

realtime-run_example : Recorder.realtime ran.0 phone ≡ last 2 (select phone (logged none ticks))
realtime-run_example = realtime-run 2 5 ticks phone

minutes-run_example : Recorder.minutes ran.0 phone ≡ last 5 (select phone ran.1)
minutes-run_example = minutes-run 2 5 ticks phone

run-Filed_example : Filed (select phone (logged none ticks)) (select phone ran.1)
run-Filed_example = run-Filed 2 5 ticks phone
