-- ===== src/Main/Seen.antt =====
-- What a round writes down of the clients that it sees.
use luci_app_overwatch.Base.{
  ◌≡◌, refl, ap, ◌∙◌, ite, if_pos, if_neg, List, [], ◌∷◌, Option, none, some, Bool-cases, inl, inr,
}
use luci_app_overwatch.Base.Int.{ℤ}
use luci_app_overwatch.Base.Maps
use luci_app_overwatch.Base.Text.{Str, Str-discrete}
use luci_app_overwatch.Config.{Retention}
use luci_app_overwatch.Control.{Shared}
use luci_app_overwatch.Db.{
  Table, Tables, Client, seen_first, insert_samples, upsert_client, rollup_tier, roll_days,
  roll_hours, rollup, prune,
}
use luci_app_overwatch.Main.{insert_finalized, upsert_views, is_maintenance, maintain, share}
use luci_app_overwatch.Recorder.{record_tick}
use luci_app_overwatch.Sample.{Sample}
use luci_app_overwatch.Snapshot.View.{ClientView}

abbrev or_else : Option ClientView → Option ClientView → Option ClientView
or_else none o = o
or_else (some v) o = some v

-- The last view of a client in a snapshot.
abbrev pub last_view : Str → List ClientView → Option ClientView
last_view m [] = none
last_view m (v ∷ vs) = or_else (last_view m vs) (ite (Str-discrete v.mac m) (some v) none)

-- A client as a snapshot shows it, and what the table had of it before.
abbrev pub seen : Option ClientView → Option Client → ℤ → Option Client
seen none old now = old
seen (some v) old now =
    some (record { host = v.host; ip = v.ip; first_seen = seen_first old now; last_seen = now })

abbrev client_row : ClientView → ℤ → Option Client → Client
client_row v now o = record {
  host = v.host;
  ip = v.ip;
  first_seen = seen_first o now;
  last_seen = now;
}

seen_again :
    (o : Option ClientView) (v : ClientView) (old : Option Client) (now : ℤ)
    → seen o (some (client_row v now old)) now ≡ seen (or_else o (some v)) old now
seen_again none v old now = refl
seen_again (some w) v old now = refl

seen_not :
    (o : Option ClientView) (old : Option Client) (now : ℤ)
    → seen o old now ≡ seen (or_else o none) old now
seen_not none old now = refl
seen_not (some w) old now = refl

lookup-upsert_views :
    (m : Str) (clients : List (Str × Client)) (vs : List ClientView) (now : ℤ)
    → Maps.lookup Str-discrete m (upsert_views clients vs now)
      ≡ seen (last_view m vs) (Maps.lookup Str-discrete m clients) now
unfolding upsert_views upsert_client
lookup-upsert_views m clients [] now = refl
lookup-upsert_views m clients (v ∷ vs) now =
    let old = Maps.lookup Str-discrete m clients in
    lookup-upsert_views m (upsert_client clients v.mac v.host v.ip now) vs now
    ∙ elim (Str-discrete v.mac m) [
      | yes e ↦ rw (if_pos (Str-discrete v.mac m) e) (
          ap (λ o. seen (last_view m vs) o now)
            (Maps.lookup-upsert_eq Str-discrete v.mac m (client_row v now) clients e)
          ∙ seen_again (last_view m vs) v old now)
      | no ne ↦ rw (if_neg (Str-discrete v.mac m) ne) (
          ap (λ o. seen (last_view m vs) o now)
            (Maps.lookup-upsert_ne Str-discrete v.mac m (client_row v now) clients ne)
          ∙ seen_not (last_view m vs) old now)
    ]

-- Neither inserting minutes nor maintenance touches the clients.
insert_finalized_clients :
    (t : Tables) (out : List (Str × Sample)) → (insert_finalized t out).clients ≡ t.clients
unfolding insert_finalized
insert_finalized_clients t [] = refl
insert_finalized_clients t ((mac, s) ∷ out) =
    insert_finalized_clients (record t { samples_min = insert_samples t.samples_min mac (s ∷ []) })
      out

roll_days_clients : (t : Tables) (o : Option Table) → (roll_days t o).0.clients ≡ t.clients
roll_days_clients t none = refl
roll_days_clients t (some d) = refl

rollup_clients : (t : Tables) → (rollup t).0.clients ≡ t.clients
unfolding rollup
rollup_clients t = go (rollup_tier 3600 t.samples_min t.samples_hour)
  where
    go : (o : Option Table) → (roll_hours t o).0.clients ≡ t.clients
    go none = refl
    go (some hours) =
        roll_days_clients (record t { samples_hour = hours })
          (rollup_tier 86400 hours t.samples_day)

maintain_clients :
    (t : Tables) (r : Retention) (now last_maint : ℤ)
    → (maintain t r now last_maint).0.clients ≡ t.clients
unfolding maintain prune
maintain_clients t r now last_maint = elim (Bool-cases (is_maintenance now last_maint)) [
  | inl b ↦ rw b (rollup_clients t)
  | inr b ↦ rw b refl
]

-- After a round the table of clients has, for every client of the snapshot, the host and the address
-- of its last view, the round's time as the last one, and the time that it was first seen, which stays
-- what it was, or is the round's for a new client. The other clients' rows stay, maintenance or not.
pub share_clients :
    (g : Shared) (last_maint : ℤ) (snap : List ClientView) (now : ℤ) (m : Str)
    → Maps.lookup Str-discrete m (share g last_maint snap now).0.store.clients
      ≡ seen (last_view m snap) (Maps.lookup Str-discrete m g.store.clients) now
unfolding share
share_clients g last_maint snap now m =
    let out = (record_tick g.recorder snap now).1 in
    let inserted : Tables = insert_finalized g.store out in
    ap (Maps.lookup Str-discrete m) (
      maintain_clients (record inserted { clients = upsert_views inserted.clients snap now })
        g.config.retention now last_maint)
    ∙ lookup-upsert_views m inserted.clients snap now
    ∙ ap (λ cs. seen (last_view m snap) (Maps.lookup Str-discrete m cs) now)
        (insert_finalized_clients g.store out)
