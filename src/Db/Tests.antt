-- ===== src/Db/Tests.antt =====
-- An hour with two minutes, rolled up, pruned in its middle and rolled up again.
use luci_app_overwatch.Base.{ℕ, ◌+◌, ◌≡◌, refl, List, [], ◌∷◌, some, none, ℕ_discrete}
use luci_app_overwatch.Base.Int.{ℤ, pos, ◌+ℤ◌, ◌-ℤ◌, sub_i64, ℤ-discrete}
use luci_app_overwatch.Base.Maps
use luci_app_overwatch.Base.Text.{Str, Str-discrete, text}
use luci_app_overwatch.Config.{default_retention}
use luci_app_overwatch.Db.{
  Key-discrete, Traffic, Table, Tables, insert_samples, merge, bucket_of, rows_in, rollup_tier,
  rollup, prune, Cell, DnsKey, DnsKey-discrete, count_all, upsert_client,
}
use luci_app_overwatch.Db.Clients.{
  Sightings, upsert_all, of_client, client_of, upsert_all-client_of,
}
use luci_app_overwatch.Db.Prune.{lookup-prune, kept}
use luci_app_overwatch.Db.Rollup.{get, told, get-rollup_tier}
use luci_app_overwatch.Sample.{Sample}

abbrev minute : ℕ → ℕ → Sample
minute ts n = record {
  ts = pos ts;
  rx_bytes = n;
  tx_bytes = 1;
  rx_peak = n;
  tx_peak = 1;
  conns = 2;
}

abbrev row : ℕ → ℕ → ℕ → Traffic
row rx tx peak = record {
  rx_bytes = pos rx;
  tx_bytes = pos tx;
  rx_peak = pos peak;
  tx_peak = pos 1;
  conns = pos 2;
}

abbrev phone : Str
phone = text "aa"

abbrev mins : Table
mins = insert_samples [] phone (minute 3600 10 ∷ minute 3660 30 ∷ [])

abbrev hours : Table
hours = ((pos 3600, phone), row 40 2 30) ∷ []

rolled : rollup_tier 3600 mins [] ≡ some hours
unfolding rollup_tier insert_samples merge bucket_of sub_i64 Key-discrete Str-discrete ℤ-discrete
    ℕ_discrete ◌+ℤ◌ ◌-ℤ◌
rolled = refl

rolled_again : rollup_tier 3600 mins hours ≡ some hours
unfolding rollup_tier insert_samples merge bucket_of sub_i64 Key-discrete Str-discrete ℤ-discrete
    ℕ_discrete ◌+ℤ◌ ◌-ℤ◌
rolled_again = refl

rollup_tier_example : get (pos 3600, phone) hours ≡ told (rows_in 3600 (pos 3600, phone) mins) none
rollup_tier_example = get-rollup_tier 3600 mins [] hours (pos 3600, phone) rolled

abbrev dns : List (DnsKey × Cell)
dns =
    count_all (pos 0) []
      ((phone, text "a.b", 3) ∷ (phone, text "c", 1) ∷ (phone, text "a.b", 4) ∷ [])

abbrev tables : Tables
tables = record {
  clients = [];
  samples_min = mins;
  samples_hour = hours;
  samples_day = [];
  dns_counts_day = dns;
}

-- 48 hours after second 3630.
abbrev now : ℤ
now = pos (3630 + 172800)

prune_example :
    let p = prune tables now default_retention in
    (get (pos 3600, phone) p.samples_min
      ≡ kept (sub_i64 now (pos 172800)) (pos 3600) (get (pos 3600, phone) mins))
    × (get (pos 3600, phone) p.samples_hour
        ≡ kept (sub_i64 now (pos 3024000)) (pos 3600) (get (pos 3600, phone) hours))
    × (get (pos 3600, phone) p.samples_day
        ≡ kept (sub_i64 now (pos 34128000)) (pos 3600) (get (pos 3600, phone) []))
    × (Maps.lookup DnsKey-discrete (pos 0, phone, text "a.b") p.dns_counts_day
        ≡ kept
            (sub_i64 now (pos 34128000))
            (pos 0)
            (Maps.lookup DnsKey-discrete (pos 0, phone, text "a.b") dns))
prune_example =
    lookup-prune tables now default_retention (pos 3600, phone) (pos 0, phone, text "a.b")

-- The hour of 40 bytes has 30 afterwards: the roll-up replaces it by what pruning left of its minutes.
shrunk :
    get (pos 3600, phone) (rollup (prune tables now default_retention)).0.samples_hour
    ≡ some (row 30 1 30)
unfolding rollup prune insert_samples merge bucket_of sub_i64 Key-discrete Str-discrete ℤ-discrete
    ℕ_discrete ◌+ℤ◌ ◌-ℤ◌
shrunk = refl

abbrev sightings : Sightings
sightings =
    (phone, record { host = []; ip = text "1"; now = pos 5 })
    ∷ (text "bb", record { host = []; ip = text "2"; now = pos 5 })
    ∷ (phone, record { host = text "tv"; ip = text "3"; now = pos 9 })
    ∷ []

clients_example :
    Maps.lookup Str-discrete phone (upsert_all [] sightings) ≡ client_of (of_client phone sightings)
clients_example = upsert_all-client_of phone sightings

sighted :
    Maps.lookup Str-discrete phone (upsert_all [] sightings)
    ≡ some (record { host = text "tv"; ip = text "3"; first_seen = pos 5; last_seen = pos 9 })
unfolding upsert_all upsert_client Str-discrete ℕ_discrete
sighted = refl
