-- ===== src/Recorder/Run.antt =====
-- The recorder over a run of ticks, from an empty one: what the two readers return, and which
-- minutes have been handed to the database.
use luci_app_overwatch.Base.{
  ℕ, ◌-◌, ◌^◌, ◌<◌, ◌≡◌, refl, sym, ◌∙◌, max, List, [], ◌∷◌, ◌++◌, map, append-nil, append_assoc,
  Option, none, some, arith,
}
use luci_app_overwatch.Base.Int.{ℤ, pos, sub_i64}
use luci_app_overwatch.Base.Last.{last, last_of_length-le}
use luci_app_overwatch.Base.Maps
use luci_app_overwatch.Base.Text.{Str, Str-discrete}
use luci_app_overwatch.Recorder
use luci_app_overwatch.Recorder.{
  Recorder, ClientSeries, interval_since, sample_of, record_view, record_views, record_tick,
}
use luci_app_overwatch.Recorder.History.{Closed, spent, rolled, IsCut, InMinute}
use luci_app_overwatch.Recorder.Tracks.{
  Log, select, Holds, Tracks, Tick, entry, new-Tracks, record_tick-Tracks,
}
use luci_app_overwatch.Sample.{Sample}
use luci_app_overwatch.Snapshot.View.{ClientView}
use luci_app_overwatch.Ring
use mathlib.Core.Option
use mathlib.Core.Path.{subst₂}

-- The scan loop of the daemon, as far as it concerns the recorder: all that is finalized, in order.
unfoldable pub run : Recorder → List Tick → Recorder × Log
run r [] = (r, [])
run r ((vs, now) ∷ ticks) =
    let (r1, out) = record_tick r vs now in let (r2, outs) = run r1 ticks in (r2, out ++ outs)

-- Every sample that the ticks stand for, told from their views and times alone.
abbrev pub logged : Option ℤ → List Tick → Log
logged last_ts [] = []
logged last_ts ((vs, now) ∷ ticks) =
    map (entry (interval_since last_ts now) now) vs ++ logged (some now) ticks

last_ts-record_tick :
    (r : Recorder) (vs : List ClientView) (now : ℤ) → (record_tick r vs now).0.last_ts ≡ some now
unfolding record_tick
last_ts-record_tick r vs now = refl

run-Tracks :
    (r : Recorder) (ticks : List Tick) (log out : Log)
    → Tracks r log out
    → Tracks (run r ticks).0 (log ++ logged r.last_ts ticks) (out ++ (run r ticks).1)
unfolding run record_tick
run-Tracks r [] log out t = rw (append-nil log, append-nil out) t
run-Tracks r ((vs, now) ∷ ticks) log out t =
    rw
      (
        sym (
            append_assoc log (map (entry (interval_since r.last_ts now) now) vs)
              (logged (some now) ticks)),
        sym (append_assoc out step.1 (run step.0 ticks).1),
      )
      (run-Tracks step.0 ticks _ _ (record_tick-Tracks r vs now log out t))
  where
    step : Recorder × Log
    step = record_tick r vs now

-- The capacities are fixed when the recorder is made.
abbrev pub SameCaps : Recorder → Recorder → Type 0
SameCaps r s = (s.realtime_cap ≡ r.realtime_cap) × (s.minute_cap ≡ r.minute_cap)

record_views-SameCaps :
    (r : Recorder) (interval : ℕ) (now : ℤ) (vs : List ClientView)
    → SameCaps r (record_views r interval now vs).0
unfolding record_views
record_views-SameCaps r interval now [] = (refl, refl)
record_views-SameCaps r interval now (v ∷ vs) =
    record_views-SameCaps (record_view r interval now v).0 interval now vs

pub record_tick-SameCaps :
    (r : Recorder) (vs : List ClientView) (now : ℤ) → SameCaps r (record_tick r vs now).0
unfolding record_tick
record_tick-SameCaps r vs now = record_views-SameCaps r (interval_since r.last_ts now) now vs

run-SameCaps : (r : Recorder) (ticks : List Tick) → SameCaps r (run r ticks).0
unfolding run
run-SameCaps r [] = (refl, refl)
run-SameCaps r ((vs, now) ∷ ticks) =
    let (a, b) = run-SameCaps (record_tick r vs now).0 ticks in
    let (c, d) = record_tick-SameCaps r vs now in (a ∙ c, b ∙ d)

-- What is finalized of one client: the minutes that are closed.
pub record Filed (items out : List Sample) : Type 0 where
  pub closed : Closed
  pub minute : ℤ
  pub current : List Sample
  pub everything : spent closed ++ current ≡ items
  pub handed_out : out ≡ rolled closed
  pub cut : IsCut minute closed
  pub in_minute : InMinute minute current

-- What is read off a client's entry in the map.
abbrev pub read_realtime : Option ClientSeries → List Sample
read_realtime o = Option.get_or (Option.map (λ (s : ClientSeries). Ring.to_vec s.realtime) o) []

abbrev pub read_minutes : Option ClientSeries → List Sample
read_minutes o = Option.get_or (Option.map (λ (s : ClientSeries). Ring.to_vec s.minutes) o) []

module _ (cap_rt cap_min : ℕ) (items out : List Sample) where
  pub Holds-realtime :
      (o : Option ClientSeries)
      → Holds cap_rt cap_min items out o
      → read_realtime o ≡ last (max cap_rt 1) items
  Holds-realtime none (e, f) = rw e (sym (last_of_length-le (max cap_rt 1) [] (omega arith)))
  Holds-realtime (some s) (gs, h, e) = h.realtime.window

  pub Holds-minutes :
      (o : Option ClientSeries)
      → Holds cap_rt cap_min items out o
      → read_minutes o ≡ last (max cap_min 1) out
  Holds-minutes none (e, f) = rw f (sym (last_of_length-le (max cap_min 1) [] (omega arith)))
  Holds-minutes (some s) (gs, h, e) = rw e h.minutes.window

  Holds-Filed : (o : Option ClientSeries) → Holds cap_rt cap_min items out o → Filed items out
  Holds-Filed none (e, f) = record {
    closed = [];
    minute = pos 0;
    current = [];
    everything = sym e;
    handed_out = f;
    cut = tt;
    in_minute = tt;
  }
  Holds-Filed (some s) (gs, h, e) = record {
    closed = gs;
    minute = s.cur_minute;
    current = s.cur_samples;
    everything = h.everything;
    handed_out = e;
    cut = h.cut;
    in_minute = h.current;
  }

module _ (cap_rt cap_min : ℕ) (ticks : List Tick) (m : Str) where
  held :
      let (r, out) = run (Recorder.new cap_rt cap_min) ticks in
      Holds cap_rt cap_min
        (select m (logged none ticks))
        (select m out)
        (Maps.lookup Str-discrete m r.series)
  unfolding Recorder.new run
  held =
      let (r, out) = run (Recorder.new cap_rt cap_min) ticks in
      let (same_rt, same_min) = run-SameCaps (Recorder.new cap_rt cap_min) ticks in
      subst₂
        (λ a b.
          Holds a b (select m (logged none ticks)) (select m out)
            (Maps.lookup Str-discrete m r.series))
        same_rt same_min
        ((run-Tracks (Recorder.new cap_rt cap_min) ticks [] [] (new-Tracks cap_rt cap_min)).held m)

  -- After any ticks the realtime series of a client is the last `cap_rt` samples recorded for it
  -- (the last one if `cap_rt` is 0), oldest first.
  pub realtime-run :
      let (r, out) = run (Recorder.new cap_rt cap_min) ticks in
      Recorder.realtime r m ≡ last (max cap_rt 1) (select m (logged none ticks))
  unfolding Recorder.realtime
  realtime-run = Holds-realtime cap_rt cap_min _ _ _ held

  -- After any ticks the minute series of a client is the last `cap_min` (one at least) of the
  -- minutes handed out for it, oldest first.
  pub minutes-run :
      let (r, out) = run (Recorder.new cap_rt cap_min) ticks in
      Recorder.minutes r m ≡ last (max cap_min 1) (select m out)
  unfolding Recorder.minutes
  minutes-run = Holds-minutes cap_rt cap_min _ _ _ held

  -- After any ticks the samples recorded for a client are cut into runs: those handed out are, in
  -- order and each once, the aggregates of the closed minutes. A closed minute has samples, all of
  -- that minute, and the next run is of another minute. The samples that are not handed out yet
  -- are all of one minute.
  pub run-Filed :
      let (r, out) = run (Recorder.new cap_rt cap_min) ticks in
      Filed (select m (logged none ticks)) (select m out)
  run-Filed = Holds-Filed cap_rt cap_min _ _ _ held

-- At times from 0 to the largest `i64` the interval is the time gone by, and 0 after a step back.
interval_since_lem :
    (t now : ℕ) → t < 2 ^ 63 → now < 2 ^ 63 → interval_since (some (pos t)) (pos now) ≡ now - t
unfolding interval_since sub_i64
interval_since_lem t now h k = ground arith
