-- ===== src/Db/Query.antt =====
-- src/db.rs: the queries. The order of a table's rows stands for the order in which SQLite finds them.
pub mod Series
pub mod Stored
pub mod Groups
pub mod Total
pub mod Exact
pub mod Mirror
pub mod Top
mod Tests
use luci_app_overwatch.Base.{
  ℕ, suc, ◌+◌, ◌-◌, ◌%◌, ◌^◌, Bool, true, false, ◌&&◌, ◌==◌, ite, List, [], ◌∷◌, ◌++◌, Option, none,
  some, if◌then◌else◌, length, take,
}
use luci_app_overwatch.Base.Int.{ℤ, pos, negsuc, ltb_ℤ, leb_ℤ, ℤ-discrete, bits, of_bits}
use luci_app_overwatch.Base.Sort.{sort_desc}
use luci_app_overwatch.Base.Text.{Str, Str-discrete}
use luci_app_overwatch.Db.{Traffic, Table, Tables, Cell, int, real, DnsKey, checked_add, sum_from}
use luci_app_overwatch.History.{Tier, min_tier, hour_tier, day_tier, Store}
use luci_app_overwatch.Sample.{Sample}
use mathlib.Core.List.{foldl}
use mathlib.Core.Option

-- `r.get::<_, i64>(1)? as u64`, and so on; the connections are cut to a `u32`.
abbrev pub row_to_sample : ℤ → Traffic → Sample
row_to_sample ts t = record {
  ts = ts;
  rx_bytes = bits t.rx_bytes;
  tx_bytes = bits t.tx_bytes;
  rx_peak = bits t.rx_peak;
  tx_peak = bits t.tx_peak;
  conns = bits t.conns % 2 ^ 32;
}

-- `ts>=?1 AND ts<=?2`
abbrev pub between : ℤ → ℤ → ℤ → Bool
between from to ts = leb_ℤ from ts && leb_ℤ ts to

-- `client=?1`
abbrev pub is_client : Str → Str → Bool
is_client m client = ite (Str-discrete client m) true false

-- `ORDER BY ts`
abbrev pub insert_by_ts : Sample → List Sample → List Sample
insert_by_ts s [] = s ∷ []
insert_by_ts s (e ∷ es) = if ltb_ℤ e.ts s.ts then e ∷ insert_by_ts s es else s ∷ e ∷ es

-- The rows of one client.
unfoldable pub client_rows : Str → ℤ → ℤ → Table → List Sample
client_rows m from to [] = []
client_rows m from to (((ts, client), t) ∷ rows) =
    if is_client m client && between from to ts
    then insert_by_ts (row_to_sample ts t) (client_rows m from to rows)
    else client_rows m from to rows

-- `GROUP BY ts ORDER BY ts`: the rows of every time, the times rising.
abbrev pub Group : Type 0
Group = ℤ × List Traffic

abbrev pub insert_row : ℤ → Traffic → List Group → List Group
insert_row ts t [] = (ts, t ∷ []) ∷ []
insert_row ts t ((us, g) ∷ gs) =
    ite (ℤ-discrete ts us) ((us, t ∷ g) ∷ gs)
      (if ltb_ℤ ts us then (ts, t ∷ []) ∷ (us, g) ∷ gs else (us, g) ∷ insert_row ts t gs)

unfoldable pub groups : ℤ → ℤ → Table → List Group
groups from to [] = []
groups from to (((ts, client), t) ∷ rows) =
    if between from to ts then insert_row ts t (groups from to rows) else groups from to rows

-- `SUM` and `MAX` over a group, which is never empty.
abbrev pub sum_group : List Traffic → Option Traffic
sum_group [] = none
sum_group (t ∷ ts) = sum_from t ts

-- `for r in rows { out.push(r?); }`: an error in any row is one of the query.
unfoldable pub group_rows : List Group → Option (List Sample)
group_rows [] = some []
group_rows ((ts, g) ∷ gs) = elim (sum_group g) [
  | none ↦ none
  | some t ↦ Option.map (λ ss. row_to_sample ts t ∷ ss) (group_rows gs)
]

-- `tier.table()`
abbrev pub table_of : Tier → Tables → Table
table_of min_tier t = t.samples_min
table_of hour_tier t = t.samples_hour
table_of day_tier t = t.samples_day

unfoldable pub query_table : Table → Option Str → ℤ → ℤ → Option (List Sample)
unfolding client_rows groups group_rows
query_table rows (some m) from to = some (client_rows m from to rows)
query_table rows none from to = group_rows (groups from to rows)

unfoldable pub query : Tables → Tier → Option Str → ℤ → ℤ → Option (List Sample)
unfolding query_table
query t tier mac from to = query_table (table_of tier t) mac from to

-- `SELECT COUNT(*) FROM clients`
unfoldable pub client_count : Tables → ℤ
client_count t = pos (length t.clients)

-- The trait's view of the database, as histories use it.
abbrev pub store_of : Tables → Store
store_of t = record { query = query t }

-- `SUM(count)`: an overflow of integers is an error, and with a floating-point number in it the sum
-- is one.
abbrev pub add_int : ℤ → Cell → Option Cell
add_int a (int b) = Option.map int (checked_add a b)
add_int a real = some real

abbrev pub add_count : Cell → Cell → Option Cell
add_count (int a) c = add_int a c
add_count real c = some real

abbrev pub Sums : Type 0
Sums = List (Str × Cell)

abbrev pub put_count : Str × Cell → Option Cell → Sums → Option Sums
put_count (d, c) none gs = none
put_count (d, c) (some c') gs = some ((d, c') ∷ gs)

-- `GROUP BY domain`
abbrev pub add_to_domain : Str → Cell → Sums → Option Sums
add_to_domain domain c [] = some ((domain, c) ∷ [])
add_to_domain domain c ((d, e) ∷ gs) =
    ite (Str-discrete d domain) (put_count (d, e) (add_count e c) gs)
      (Option.map (λ hs. (d, e) ∷ hs) (add_to_domain domain c gs))

abbrev pub selected : Option Str → ℤ → ℤ → DnsKey → Bool
selected none from to (ts, client, domain) = between from to ts
selected (some m) from to (ts, client, domain) = is_client m client && between from to ts

unfoldable pub domain_sums : Option Str → ℤ → ℤ → Sums → List (DnsKey × Cell) → Option Sums
domain_sums client from to gs [] = some gs
domain_sums client from to gs (((day, mac, domain), c) ∷ rows) =
    if selected client from to (day, mac, domain)
    then elim (add_to_domain domain c gs) [
      | none ↦ none
      | some hs ↦ domain_sums client from to hs rows
    ]
    else domain_sums client from to gs rows

-- `ORDER BY c DESC`: sums of 64 bits by size, shifted to be natural numbers. Counts are numbers of
-- queries, so that one that has left the range of `i64` lies above it.
abbrev pub rank : Str × Cell → ℕ
rank (d, int (pos n)) = 2 ^ 63 + n
rank (d, int (negsuc n)) = 2 ^ 63 - 1 - n
rank (d, real) = 2 ^ 64

-- `LIMIT`: a negative number is none.
abbrev pub limit_rows {ℓ} : {A : Type ℓ} → ℤ → List A → List A
limit_rows (pos n) xs = take n xs
limit_rows (negsuc n) xs = xs

-- `(r.get(0)?, r.get::<_, i64>(1)? as u64)`: a floating-point sum is an error.
unfoldable pub domain_rows : Sums → Option (List (Str × ℕ))
domain_rows [] = some []
domain_rows ((d, int n) ∷ gs) = Option.map (λ out. (d, bits n) ∷ out) (domain_rows gs)
domain_rows ((d, real) ∷ gs) = none

unfoldable pub top_rows : ℕ → Option Sums → Option (List (Str × ℕ))
unfolding domain_rows
top_rows limit none = none
top_rows limit (some gs) = domain_rows (limit_rows (of_bits limit) (sort_desc rank gs))

-- With a limit of 0, SQLite sums nothing up.
unfoldable pub dns_top_rows :
    List (DnsKey × Cell) → Option Str → ℤ → ℤ → ℕ → Option (List (Str × ℕ))
unfolding domain_sums top_rows
dns_top_rows rows client from to limit =
    if limit == 0 then some [] else top_rows limit (domain_sums client from to [] rows)

unfoldable pub dns_top : Tables → Option Str → ℤ → ℤ → ℕ → Option (List (Str × ℕ))
unfolding dns_top_rows
dns_top t client from to limit = dns_top_rows t.dns_counts_day client from to limit
