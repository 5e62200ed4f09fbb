-- ===== src/Recorder/Tracks.antt =====
-- The whole recorder against the log of every sample recorded and every minute handed out.
use luci_app_overwatch.Base.{
  ℕ, ◌≡◌, refl, sym, ap, ◌∙◌, subst, ◌≢◌, ite, if_pos, if_neg, List, [], ◌∷◌, ◌++◌, map, append-nil,
  append_assoc, Option, none, some, arith,
}
use luci_app_overwatch.Base.Int.{ℤ, quot}
use luci_app_overwatch.Base.Maps
use luci_app_overwatch.Base.Text.{Str, Str-discrete}
use luci_app_overwatch.Recorder
use luci_app_overwatch.Recorder.{
  Recorder, ClientSeries, advance, sample_of, interval_since, record_view, record_views,
  record_tick, to_list, fresh_series,
}
use luci_app_overwatch.Recorder.History.{Closed, Explains, rolled, fresh-Explains, advance-Explains}
use luci_app_overwatch.Sample.{Sample}
use luci_app_overwatch.Snapshot.View.{ClientView}
use mathlib.Core.Option

abbrev pub Log : Type 0
Log = List (Str × Sample)

-- One client's entries, in order.
abbrev pub select : Str → Log → List Sample
select m [] = []
select m ((k, s) ∷ l) = ite (Str-discrete k m) (s ∷ select m l) (select m l)

pub select-append : (m : Str) (l k : Log) → select m (l ++ k) ≡ select m l ++ select m k
select-append m [] k = refl
select-append m ((j, s) ∷ l) k = ground (arith, select-append m l k)

-- What the map holds for a client that has the entries `items`, with `out` handed out so far.
abbrev pub Holds : ℕ → ℕ → List Sample → List Sample → Option ClientSeries → Type 0
Holds cap_rt cap_min items out none = (items ≡ []) × (out ≡ [])
Holds cap_rt cap_min items out (some s) =
    (gs : Closed) × Explains cap_rt cap_min gs items s × (out ≡ rolled gs)

pub record Tracks (r : Recorder) (log out : Log) : Type 0 where
  pub held :
      (m : Str)
      → Holds r.realtime_cap r.minute_cap
          (select m log)
          (select m out)
          (Maps.lookup Str-discrete m r.series)

pub new-Tracks : (cap_rt cap_min : ℕ) → Tracks (Recorder.new cap_rt cap_min) [] []
unfolding Recorder.new
new-Tracks cap_rt cap_min = record { held = λ m. (refl, refl) }

module _ (cap_rt cap_min : ℕ) (minute : ℤ) (x : Sample) where
  -- A client's series after a sample, from what the map held for it.
  Holds-advance :
      (items out : List Sample) (o : Option ClientSeries)
      → Holds cap_rt cap_min items out o
      → quot x.ts 60 ≡ minute
      → let s = advance (Option.get_or o (fresh_series cap_rt cap_min minute)) minute x in
        Holds cap_rt cap_min (items ++ x ∷ []) (out ++ to_list s.1) (some s.0)
  Holds-advance items out none (no_items, no_out) e =
      let (gs, h, added) =
        advance-Explains cap_rt cap_min [] [] (fresh_series cap_rt cap_min minute) minute x
          (fresh-Explains cap_rt cap_min minute) e in
      rw (no_items, no_out) (gs, h, sym added)
  Holds-advance items out (some s) (gs, h, same) e =
      let (gs', h', added) = advance-Explains cap_rt cap_min gs items s minute x h e in
      (gs', h', ap (λ l. l ++ to_list (advance s minute x).1) same ∙ sym added)

select_some_self :
    (k : Str) (o : Option Sample) → select k (to_list (Option.map (λ a. (k, a)) o)) ≡ to_list o
select_some_self k none = refl
select_some_self k (some a) = if_pos (Str-discrete k k) refl _ _

select_some_ne :
    (k m : Str) (o : Option Sample) → k ≢ m → select m (to_list (Option.map (λ a. (k, a)) o)) ≡ []
select_some_ne k m none ne = refl
select_some_ne k m (some a) ne = if_neg (Str-discrete k m) ne _ _

module _ (k : Str) (l : Log) (o : Option Sample) where
  select-append_self :
      select k (l ++ to_list (Option.map (λ a. (k, a)) o)) ≡ select k l ++ to_list o
  select-append_self =
      select-append k l (to_list (Option.map (λ a. (k, a)) o))
      ∙ ap (λ t. select k l ++ t) (select_some_self k o)

  select-append_ne :
      (m : Str) → k ≢ m → select m (l ++ to_list (Option.map (λ a. (k, a)) o)) ≡ select m l
  select-append_ne m ne =
      select-append m l (to_list (Option.map (λ a. (k, a)) o))
      ∙ ap (λ t. select m l ++ t) (select_some_ne k m o ne)
      ∙ append-nil (select m l)

module _ (interval : ℕ) (now : ℤ) where
  -- What a tick records of a view.
  abbrev pub entry : ClientView → Str × Sample
  entry v = (v.mac, sample_of v interval now)

  -- One view: a sample more for its client, and nothing for the others.
  record_view-Tracks :
      (r : Recorder) (v : ClientView) (log out : Log)
      → Tracks r log out
      → Tracks
          (record_view r interval now v).0
          (log ++ entry v ∷ [])
          (out ++ to_list (record_view r interval now v).1)
  unfolding record_view
  record_view-Tracks r v log out t = record {
    held = λ m. elim (Str-discrete v.mac m) [
      | yes e ↦ subst (λ k. Holds cap_rt cap_min (select k log') (select k out') (found k)) e self
      | no ne ↦
          rw
            (
              select-append_ne v.mac log (some x) m ne,
              select-append_ne v.mac out s.1 m ne,
              Maps.lookup-upsert_ne Str-discrete v.mac m (λ _. s.0) r.series ne,
            )
            (t.held m)
    ];
  }
    where
      cap_rt : ℕ
      cap_rt = r.realtime_cap

      cap_min : ℕ
      cap_min = r.minute_cap

      x : Sample
      x = sample_of v interval now

      s : ClientSeries × Option Sample
      s =
          advance
            (Option.get_or (Maps.lookup Str-discrete v.mac r.series)
              (fresh_series cap_rt cap_min (quot now 60)))
            (quot now 60) x

      log' : Log
      log' = log ++ entry v ∷ []

      out' : Log
      out' = out ++ to_list (Option.map (λ a. (v.mac, a)) s.1)

      found : Str → Option ClientSeries
      found k = Maps.lookup Str-discrete k (Maps.insert Str-discrete v.mac s.0 r.series)

      self : Holds cap_rt cap_min (select v.mac log') (select v.mac out') (found v.mac)
      self =
          rw
            (
              select-append_self v.mac log (some x),
              select-append_self v.mac out s.1,
              Maps.lookup-upsert_self Str-discrete v.mac (λ _. s.0) r.series,
            )
            (Holds-advance cap_rt cap_min (quot now 60) x (select v.mac log) (select v.mac out)
              (Maps.lookup Str-discrete v.mac r.series) (t.held v.mac) refl)

  record_views-Tracks :
      (r : Recorder) (vs : List ClientView) (log out : Log)
      → Tracks r log out
      → Tracks
          (record_views r interval now vs).0
          (log ++ map entry vs)
          (out ++ (record_views r interval now vs).1)
  unfolding record_views
  record_views-Tracks r [] log out t = rw (append-nil log, append-nil out) t
  record_views-Tracks r (v ∷ vs) log out t =
      rw
        (
          sym (append_assoc log (entry v ∷ []) (map entry vs)),
          sym (
              append_assoc out (to_list (record_view r interval now v).1)
                (record_views (record_view r interval now v).0 interval now vs).1),
        )
        (record_views-Tracks (record_view r interval now v).0 vs _ _
          (record_view-Tracks r v log out t))

-- A tick of the daemon: the views and the time.
abbrev pub Tick : Type 0
Tick = List ClientView × ℤ

-- What a tick adds to the log.
abbrev pub entries : Recorder → Tick → Log
entries r (vs, now) = map (entry (interval_since r.last_ts now) now) vs

pub record_tick-Tracks :
    (r : Recorder) (vs : List ClientView) (now : ℤ) (log out : Log)
    → Tracks r log out
    → Tracks (record_tick r vs now).0 (log ++ entries r (vs, now)) (out ++ (record_tick r vs now).1)
unfolding record_tick
record_tick-Tracks r vs now log out t = record {
  held = (record_views-Tracks (interval_since r.last_ts now) now r vs log out t).held;
}
