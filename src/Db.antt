-- ===== src/Db.antt =====
-- src/db.rs: the tables, and what inserting, rolling up and pruning do to them, as the SQL statements
-- have it. The queries are in Query.
pub mod Rollup
pub mod Prune
pub mod Clients
pub mod Counts
pub mod Keys
pub mod Query
mod Tests
use luci_app_overwatch.Base.{
  ℕ, ◌+◌, ◌-◌, ◌^◌, Bool, true, false, not, ◌&&◌, ite, List, [], ◌∷◌, Option, none, some,
  if◌then◌else◌,
}
use luci_app_overwatch.Base.Int.{
  ℤ, pos, negsuc, ◌+ℤ◌, sub_i64, rem, ltb_ℤ, leb_ℤ, ℤ-discrete, of_bits,
}
use luci_app_overwatch.Base.Maps
use luci_app_overwatch.Base.Text.{Str, Str-discrete}
use luci_app_overwatch.Config.{Retention}
use luci_app_overwatch.Sample.{Sample}

-- `PRIMARY KEY (ts, client)`
abbrev pub Key : Type 0
Key = ℤ × Str

unfoldable pub Key-discrete : Discrete Key
unfolding ℤ-discrete Str-discrete
Key-discrete = hlevel (ℤ-discrete, Str-discrete)

-- The columns are `i64`.
pub record Traffic : Type 0 where
  pub rx_bytes : ℤ
  pub tx_bytes : ℤ
  pub rx_peak : ℤ
  pub tx_peak : ℤ
  pub conns : ℤ

abbrev pub Table : Type 0
Table = List (Key × Traffic)

-- A count is an `i64`, or, once a sum of it has left that range, a floating-point number, whose value
-- is not modelled: it stays one, and reading it is an error. (SQLite would turn it back into an integer
-- if adding to it brought it into the range again, which takes a batch with a count past 2^63.)
pub data Cell : Type 0 where
  int : ℤ → Cell
  real : Cell

-- `PRIMARY KEY (ts, client, domain)`
abbrev pub DnsKey : Type 0
DnsKey = ℤ × Str × Str

pub record Client : Type 0 where
  pub host : Str
  pub ip : Str
  pub first_seen : ℤ
  pub last_seen : ℤ

pub record Tables : Type 0 where
  pub clients : List (Str × Client)
  pub samples_min : Table
  pub samples_hour : Table
  pub samples_day : Table
  pub dns_counts_day : List (DnsKey × Cell)

-- `s.rx_bytes as i64`, and so on: the same bits.
abbrev pub traffic_of : Sample → Traffic
traffic_of s = record {
  rx_bytes = of_bits s.rx_bytes;
  tx_bytes = of_bits s.tx_bytes;
  rx_peak = of_bits s.rx_peak;
  tx_peak = of_bits s.tx_peak;
  conns = of_bits s.conns;
}

-- `INSERT OR REPLACE` of every sample, in one transaction.
unfoldable pub insert_samples : Table → Str → List Sample → Table
insert_samples t mac [] = t
insert_samples t mac (s ∷ ss) =
    insert_samples (Maps.insert Key-discrete (s.ts, mac) (traffic_of s) t) mac ss

-- `SUM` of integers: an overflow is an error.
unfoldable pub checked_add : ℤ → ℤ → Option ℤ
unfolding ◌+ℤ◌
checked_add a b =
    if leb_ℤ (negsuc (2 ^ 63 - 1)) (a +ℤ b) && leb_ℤ (a +ℤ b) (pos (2 ^ 63 - 1))
    then some (a +ℤ b)
    else none

abbrev pub max_ℤ : ℤ → ℤ → ℤ
max_ℤ a b = if ltb_ℤ a b then b else a

abbrev pub with_sums : Traffic → Traffic → Option ℤ → Option ℤ → Option Traffic
with_sums a b (some rx) (some tx) = some (record {
  rx_bytes = rx;
  tx_bytes = tx;
  rx_peak = max_ℤ a.rx_peak b.rx_peak;
  tx_peak = max_ℤ a.tx_peak b.tx_peak;
  conns = max_ℤ a.conns b.conns;
})
with_sums a b _ _ = none

unfoldable pub merge : Traffic → Traffic → Option Traffic
unfolding checked_add
merge a b = with_sums a b (checked_add a.rx_bytes b.rx_bytes) (checked_add a.tx_bytes b.tx_bytes)

abbrev pub sum_from : Traffic → List Traffic → Option Traffic
sum_from t [] = some t
sum_from t (u ∷ us) = elim (merge t u) [ none ↦ none | some v ↦ sum_from v us ]

-- `ts - (ts % bucket)`
unfoldable pub bucket_of : ℕ → ℤ → ℤ
bucket_of bucket ts = sub_i64 ts (rem ts bucket)

-- The rows of a group, and the groups of a table.
unfoldable pub rows_in : ℕ → Key → Table → List Traffic
rows_in bucket k [] = []
rows_in bucket k (((ts, client), t) ∷ rows) =
    ite (Key-discrete (bucket_of bucket ts, client) k) (t ∷ rows_in bucket k rows)
      (rows_in bucket k rows)

abbrev pub has : Key → List Key → Bool
has k [] = false
has k (j ∷ js) = ite (Key-discrete j k) true (has k js)

abbrev pub add_key : Key → List Key → List Key
add_key k ks = if has k ks then ks else k ∷ ks

unfoldable pub group_keys : ℕ → Table → List Key
group_keys bucket [] = []
group_keys bucket (((ts, client), t) ∷ rows) =
    add_key (bucket_of bucket ts, client) (group_keys bucket rows)

-- `INSERT OR REPLACE` of a group's sums.
abbrev pub put_sum : Key → Table → Option Traffic → Option Table
put_sum k dst none = none
put_sum k dst (some a) = some (Maps.insert Key-discrete k a dst)

abbrev pub insert_group : List Traffic → Key → Table → Option Table
insert_group [] k dst = some dst
insert_group (t ∷ ts) k dst = put_sum k dst (sum_from t ts)

unfoldable pub rollup_groups : ℕ → Table → List Key → Table → Option Table
unfolding rows_in
rollup_groups bucket src [] dst = some dst
rollup_groups bucket src (k ∷ ks) dst = elim (insert_group (rows_in bucket k src) k dst) [
  | none ↦ none
  | some dst' ↦ rollup_groups bucket src ks dst'
]

-- An error leaves the tables as they are.
unfoldable pub rollup_tier : ℕ → Table → Table → Option Table
unfolding rollup_groups group_keys
rollup_tier bucket src dst = rollup_groups bucket src (group_keys bucket src) dst

-- Minutes into hours, then hours into days; the flag says whether it went well.
abbrev pub roll_days : Tables → Option Table → Tables × Bool
roll_days t none = (t, false)
roll_days t (some days) = (record t { samples_day = days }, true)

abbrev pub roll_hours : Tables → Option Table → Tables × Bool
roll_hours t none = (t, false)
roll_hours t (some hours) =
    roll_days (record t { samples_hour = hours }) (rollup_tier 86400 hours t.samples_day)

unfoldable pub rollup : Tables → Tables × Bool
unfolding rollup_tier
rollup t = roll_hours t (rollup_tier 3600 t.samples_min t.samples_hour)

-- `DELETE … WHERE ts < ?1`
abbrev pub delete_before {ℓ} : {K V : Type ℓ} → (K → ℤ) → ℤ → List (K × V) → List (K × V)
delete_before time limit [] = []
delete_before time limit ((k, v) ∷ rows) =
    if ltb_ℤ (time k) limit
    then delete_before time limit rows
    else (k, v) ∷ delete_before time limit rows

abbrev pub sample_time : Key → ℤ
sample_time k = k.0

abbrev pub dns_time : DnsKey → ℤ
dns_time k = k.0

unfoldable pub prune : Tables → ℤ → Retention → Tables
prune t now r = record t {
  samples_min = delete_before sample_time (sub_i64 now r.min_secs) t.samples_min;
  samples_hour = delete_before sample_time (sub_i64 now r.hour_secs) t.samples_hour;
  samples_day = delete_before sample_time (sub_i64 now r.day_secs) t.samples_day;
  dns_counts_day = delete_before dns_time (sub_i64 now r.dns_days) t.dns_counts_day;
}

unfoldable pub DnsKey-discrete : Discrete DnsKey
unfolding ℤ-discrete Str-discrete
DnsKey-discrete = hlevel (ℤ-discrete, Str-discrete)

-- `ON CONFLICT(mac) DO UPDATE`: the first time a client was seen stays.
abbrev pub seen_first : Option Client → ℤ → ℤ
seen_first none now = now
seen_first (some c) now = c.first_seen

unfoldable pub upsert_client : List (Str × Client) → Str → Str → Str → ℤ → List (Str × Client)
upsert_client clients mac host ip now =
    Maps.upsert Str-discrete mac
      (λ o. record { host = host; ip = ip; first_seen = seen_first o now; last_seen = now }) clients

abbrev pub cell_of : Option ℤ → Cell
cell_of none = real
cell_of (some n) = int n

abbrev pub add_cells : Cell → Cell → Cell
unfolding checked_add
add_cells (int a) (int b) = cell_of (checked_add a b)
add_cells real b = real
add_cells (int a) real = real

-- `count = count + excluded.count`
abbrev pub counted_up : Cell → Option Cell → Cell
counted_up n none = n
counted_up n (some old) = add_cells old n

-- The statements of a batch of counts.
unfoldable pub count_all : ℤ → List (DnsKey × Cell) → List (Str × Str × ℕ) → List (DnsKey × Cell)
count_all ts_day rows [] = rows
count_all ts_day rows ((mac, domain, count) ∷ counts) =
    count_all ts_day
      (Maps.upsert DnsKey-discrete (ts_day, mac, domain) (counted_up (int (of_bits count))) rows)
      counts

-- One transaction for the batch. SQLite may refuse it, when it begins, at a statement or when it is
-- committed; whether it does is a parameter. An error leaves the table as it is.
unfoldable pub add_dns_counts :
    Bool → ℤ → List (DnsKey × Cell) → List (Str × Str × ℕ) → Option (List (DnsKey × Cell))
unfolding count_all
add_dns_counts commits ts_day rows counts =
    if commits then some (count_all ts_day rows counts) else none
