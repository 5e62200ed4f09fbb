-- ===== src/Main/Sound.antt =====
-- What every round keeps of the shared state: keys once, a recorder that tracks what it was given, and
-- its capacities.
use luci_app_overwatch.Base.{◌≡◌, ◌∙◌, List, [], ◌∷◌, ◌++◌, Bool-cases, inl, inr}
use luci_app_overwatch.Base.Int.{ℤ}
use luci_app_overwatch.Base.Maps
use luci_app_overwatch.Base.Text.{Str, Str-discrete}
use luci_app_overwatch.Config.{Retention}
use luci_app_overwatch.Control.{Shared}
use luci_app_overwatch.Db.{Tables, Client, insert_samples, upsert_client, rollup}
use luci_app_overwatch.Db.Keys.{
  IsKeyed, insert_samples-Keyed, rollup-IsKeyed, prune-IsKeyed, upsert_client-HasKeysOnce,
}
use luci_app_overwatch.Main.{insert_finalized, upsert_views, is_maintenance, maintain, share}
use luci_app_overwatch.Recorder.{record_tick}
use luci_app_overwatch.Recorder.Run.{record_tick-SameCaps}
use luci_app_overwatch.Recorder.Tracks.{Log, Tracks, record_tick-Tracks, entries}
use luci_app_overwatch.Sample.{Sample}
use luci_app_overwatch.Snapshot.View.{ClientView}

insert_finalized-IsKeyed :
    (t : Tables) (out : List (Str × Sample)) → IsKeyed t → IsKeyed (insert_finalized t out)
unfolding insert_finalized
insert_finalized-IsKeyed t [] k = k
insert_finalized-IsKeyed t ((mac, s) ∷ out) k =
    insert_finalized-IsKeyed (record t { samples_min = insert_samples t.samples_min mac (s ∷ []) })
      out
      (record {
        clients = k.clients;
        minutes = insert_samples-Keyed t.samples_min mac (s ∷ []) k.minutes;
        hours = k.hours;
        days = k.days;
        dns = k.dns;
      })

upsert_views-HasKeysOnce :
    (clients : List (Str × Client)) (vs : List ClientView) (now : ℤ)
    → Maps.HasKeysOnce Str-discrete clients
    → Maps.HasKeysOnce Str-discrete (upsert_views clients vs now)
unfolding upsert_views
upsert_views-HasKeysOnce clients [] now h = h
upsert_views-HasKeysOnce clients (v ∷ vs) now h =
    upsert_views-HasKeysOnce (upsert_client clients v.mac v.host v.ip now) vs now
      (upsert_client-HasKeysOnce clients v.mac v.host v.ip now h)

maintain-IsKeyed :
    (t : Tables) (r : Retention) (now last_maint : ℤ)
    → IsKeyed t
    → IsKeyed (maintain t r now last_maint).0
unfolding maintain
maintain-IsKeyed t r now last_maint k = elim (Bool-cases (is_maintenance now last_maint)) [
  | inl b ↦ rw b (prune-IsKeyed (rollup t).0 now r (rollup-IsKeyed t k))
  | inr b ↦ rw b k
]

-- What holds of the shared state, for some log of samples and finalized minutes.
pub record IsSound (g : Shared) : Type 0 where
  pub keyed : IsKeyed g.store
  pub log : Log
  pub out : Log
  pub tracks : Tracks g.recorder log out
  pub realtime_cap : g.recorder.realtime_cap ≡ 300
  pub minute_cap : g.recorder.minute_cap ≡ 1440

pub share-IsSound :
    (g : Shared) (last_maint : ℤ) (snap : List ClientView) (now : ℤ)
    → IsSound g
    → IsSound (share g last_maint snap now).0
unfolding share
share-IsSound g last_maint snap now s =
    let (recorder, finalized) = record_tick g.recorder snap now in
    let inserted = insert_finalized g.store finalized in
    let k = insert_finalized-IsKeyed g.store finalized s.keyed in
    let caps = record_tick-SameCaps g.recorder snap now in
    record {
      keyed =
          maintain-IsKeyed (record inserted { clients = upsert_views inserted.clients snap now })
            g.config.retention now last_maint
            (record {
              clients = upsert_views-HasKeysOnce inserted.clients snap now k.clients;
              minutes = k.minutes;
              hours = k.hours;
              days = k.days;
              dns = k.dns;
            });
      log = s.log ++ entries g.recorder (snap, now);
      out = s.out ++ finalized;
      tracks = record_tick-Tracks g.recorder snap now s.log s.out s.tracks;
      realtime_cap = caps.0 ∙ s.realtime_cap;
      minute_cap = caps.1 ∙ s.minute_cap;
    }
