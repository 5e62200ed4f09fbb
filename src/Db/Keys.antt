-- ===== src/Db/Keys.antt =====
-- The primary keys of the tables.
use luci_app_overwatch.Base.{
  ℕ, ◌≡◌, refl, ◌∙◌, List, [], ◌∷◌, Option, none, some, Bool-cases, Option-cases, inl, inr,
}
use luci_app_overwatch.Base.Maps
use luci_app_overwatch.Base.Int.{ℤ, ltb_ℤ, sub_i64, of_bits}
use luci_app_overwatch.Base.Text.{Str, Str-discrete}
use luci_app_overwatch.Config.{Retention}
use luci_app_overwatch.Db.{
  Key, Key-discrete, Traffic, Table, Tables, DnsKey, DnsKey-discrete, Client, Cell, traffic_of,
  sum_from, put_sum, insert_group, rows_in, group_keys, rollup_groups, rollup_tier, roll_days,
  roll_hours, rollup, delete_before, sample_time, dns_time, prune, seen_first, upsert_client,
  counted_up, int, count_all, insert_samples,
}
use luci_app_overwatch.Db.Prune.{lookup-delete_before}
use luci_app_overwatch.Sample.{Sample}

abbrev pub Keyed : Table → Type 0
Keyed = Maps.HasKeysOnce Key-discrete

-- Every table has a key once, as its `PRIMARY KEY` demands.
pub record IsKeyed (t : Tables) : Type 0 where
  pub clients : Maps.HasKeysOnce Str-discrete t.clients
  pub minutes : Keyed t.samples_min
  pub hours : Keyed t.samples_hour
  pub days : Keyed t.samples_day
  pub dns : Maps.HasKeysOnce DnsKey-discrete t.dns_counts_day

pub insert_samples-Keyed :
    (rows : Table) (mac : Str) (ss : List Sample) → Keyed rows → Keyed (insert_samples rows mac ss)
unfolding insert_samples
insert_samples-Keyed rows mac [] h = h
insert_samples-Keyed rows mac (s ∷ ss) h =
    insert_samples-Keyed (Maps.insert Key-discrete (s.ts, mac) (traffic_of s) rows) mac ss
      (Maps.upsert-HasKeysOnce Key-discrete (s.ts, mac) (λ _. traffic_of s) rows h)

abbrev KeyedIf : Option Table → Type 0
KeyedIf none = Unit
KeyedIf (some t) = Keyed t

put_sum-Keyed : (k : Key) (dst : Table) (o : Option Traffic) → Keyed dst → KeyedIf (put_sum k dst o)
put_sum-Keyed k dst none h = tt
put_sum-Keyed k dst (some a) h = Maps.upsert-HasKeysOnce Key-discrete k (λ _. a) dst h

insert_group-Keyed :
    (rows : List Traffic) (k : Key) (dst : Table) → Keyed dst → KeyedIf (insert_group rows k dst)
insert_group-Keyed [] k dst h = h
insert_group-Keyed (t ∷ ts) k dst h = put_sum-Keyed k dst (sum_from t ts) h

groups-Keyed :
    (bucket : ℕ) (src : Table) (ks : List Key) (dst : Table)
    → Keyed dst
    → KeyedIf (rollup_groups bucket src ks dst)
unfolding rollup_groups
groups-Keyed bucket src [] dst h = h
groups-Keyed bucket src (k ∷ ks) dst h =
    let group = insert_group-Keyed (rows_in bucket k src) k dst h in
    elim (Option-cases (insert_group (rows_in bucket k src) k dst)) [
      | inl e ↦ rw (e, rollup_groups) tt
      | inr (d, e) ↦
          let next : Keyed d = rw e at group in
          rw (e, rollup_groups) (groups-Keyed bucket src ks d next)
    ]

rollup_tier-Keyed :
    (bucket : ℕ) (src dst : Table) → Keyed dst → KeyedIf (rollup_tier bucket src dst)
unfolding rollup_tier
rollup_tier-Keyed bucket src dst h = groups-Keyed bucket src (group_keys bucket src) dst h

roll_days-IsKeyed :
    (t : Tables) (o : Option Table) → IsKeyed t → KeyedIf o → IsKeyed (roll_days t o).0
roll_days-IsKeyed t none k h = k
roll_days-IsKeyed t (some days) k h = record {
  clients = k.clients;
  minutes = k.minutes;
  hours = k.hours;
  days = h;
  dns = k.dns;
}

roll_hours-IsKeyed :
    (t : Tables) (o : Option Table) → IsKeyed t → KeyedIf o → IsKeyed (roll_hours t o).0
roll_hours-IsKeyed t none k h = k
roll_hours-IsKeyed t (some hours) k h =
    roll_days-IsKeyed (record t { samples_hour = hours }) (rollup_tier 86400 hours t.samples_day)
      (record { clients = k.clients; minutes = k.minutes; hours = h; days = k.days; dns = k.dns })
      (rollup_tier-Keyed 86400 hours t.samples_day k.days)

pub rollup-IsKeyed : (t : Tables) → IsKeyed t → IsKeyed (rollup t).0
unfolding rollup
rollup-IsKeyed t k =
    roll_hours-IsKeyed t (rollup_tier 3600 t.samples_min t.samples_hour) k
      (rollup_tier-Keyed 3600 t.samples_min t.samples_hour k.hours)

module _ {K V : Type 0} (dec : Discrete K) (time : K → ℤ) where
  delete_before-HasKeysOnce :
      (limit : ℤ) (rows : List (K × V))
      → Maps.HasKeysOnce dec rows
      → Maps.HasKeysOnce dec (delete_before time limit rows)
  delete_before-HasKeysOnce limit [] h = tt
  delete_before-HasKeysOnce limit ((k, v) ∷ rows) h = elim (Bool-cases (ltb_ℤ (time k) limit)) [
    | inl b ↦ rw b (delete_before-HasKeysOnce limit rows h.1)
    | inr b ↦
        let gone : Maps.lookup dec k (delete_before time limit rows) ≡ none =
          lookup-delete_before dec time limit k rows ∙ rw (b, h.0) refl in
        rw b (gone, delete_before-HasKeysOnce limit rows h.1)
  ]

pub prune-IsKeyed : (t : Tables) (now : ℤ) (r : Retention) → IsKeyed t → IsKeyed (prune t now r)
unfolding prune
prune-IsKeyed t now r k = record {
  clients = k.clients;
  minutes =
      delete_before-HasKeysOnce Key-discrete sample_time (sub_i64 now r.min_secs) t.samples_min
        k.minutes;
  hours =
      delete_before-HasKeysOnce Key-discrete sample_time (sub_i64 now r.hour_secs) t.samples_hour
        k.hours;
  days =
      delete_before-HasKeysOnce Key-discrete sample_time (sub_i64 now r.day_secs) t.samples_day
        k.days;
  dns =
      delete_before-HasKeysOnce DnsKey-discrete dns_time (sub_i64 now r.dns_days) t.dns_counts_day
        k.dns;
}

pub upsert_client-HasKeysOnce :
    (clients : List (Str × Client)) (mac host ip : Str) (now : ℤ)
    → Maps.HasKeysOnce Str-discrete clients
    → Maps.HasKeysOnce Str-discrete (upsert_client clients mac host ip now)
unfolding upsert_client
upsert_client-HasKeysOnce clients mac host ip now h =
    Maps.upsert-HasKeysOnce Str-discrete mac
      (λ o. record { host = host; ip = ip; first_seen = seen_first o now; last_seen = now }) clients
      h

pub count_all-HasKeysOnce :
    (day : ℤ) (rows : List (DnsKey × Cell)) (counts : List (Str × Str × ℕ))
    → Maps.HasKeysOnce DnsKey-discrete rows
    → Maps.HasKeysOnce DnsKey-discrete (count_all day rows counts)
unfolding count_all
count_all-HasKeysOnce day rows [] h = h
count_all-HasKeysOnce day rows ((mac, d, n) ∷ counts) h =
    count_all-HasKeysOnce day
      (Maps.upsert DnsKey-discrete (day, mac, d) (counted_up (int (of_bits n))) rows) counts
      (Maps.upsert-HasKeysOnce DnsKey-discrete (day, mac, d) (counted_up (int (of_bits n))) rows h)
