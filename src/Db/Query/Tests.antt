-- ===== src/Db/Query/Tests.antt =====
-- Two clients and their queries.
use luci_app_overwatch.Base.{
  ℕ, ◌≡◌, ◌⊎◌, refl, true, min, List, [], ◌∷◌, ◌++◌, map, none, some, arith, length, ℕ_discrete,
}
use luci_app_overwatch.Base.Int.{ℤ, pos, ◌+ℤ◌, ℤ-discrete}
use luci_app_overwatch.Base.Sort.{IsFalling, sort_desc}
use luci_app_overwatch.Base.Text.{Str, Str-discrete, text}
use luci_app_overwatch.Db.{Key-discrete, Table, traffic_of, insert_samples, checked_add, merge}
use luci_app_overwatch.Db.Query.{between, query_table, dns_top_rows}
use luci_app_overwatch.Db.Query.Groups.{traffic_at}
use luci_app_overwatch.Db.Query.Mirror.{IsModest, sum_at-point_for}
use luci_app_overwatch.Db.Query.Series.{within}
use luci_app_overwatch.Db.Query.Stored.{IsWords, newest, query-insert_samples}
use luci_app_overwatch.Db.Query.Top.{times, AreTotals, dns_top_lem}
use luci_app_overwatch.Db.Query.Top.Sums.{Counts, Totals, cells}
use luci_app_overwatch.Db.Query.Exact.{Overflows, IsExact, query_table-IsExact}
use luci_app_overwatch.Db.Query.Total.{sum_at}
use luci_app_overwatch.History.Total.{point_at, point_for, IsRising}
use luci_app_overwatch.Sample.{Sample}
use mathlib.Core.List.{Perm}

abbrev sample : ℕ → ℕ → Sample
sample ts n = record {
  ts = pos ts;
  rx_bytes = n;
  tx_bytes = 1;
  rx_peak = n;
  tx_peak = 1;
  conns = 2;
}

abbrev phone : Str
phone = text "aa"

abbrev tv : Str
tv = text "bb"

abbrev both : Table
both =
    insert_samples (insert_samples [] phone (sample 120 5 ∷ sample 60 7 ∷ [])) tv
      (sample 60 30 ∷ [])

-- One client's rows in the order of their times, and all clients together.
one : query_table both (some phone) (pos 0) (pos 200) ≡ some (sample 60 7 ∷ sample 120 5 ∷ [])
unfolding query_table insert_samples Key-discrete Str-discrete ℤ-discrete ℕ_discrete
one = refl

all :
    query_table both none (pos 0) (pos 100)
    ≡ some (
        record { ts = pos 60; rx_bytes = 37; tx_bytes = 2; rx_peak = 30; tx_peak = 1; conns = 2 }
        ∷ [])
unfolding query_table insert_samples merge Key-discrete Str-discrete ℤ-discrete ℕ_discrete ◌+ℤ◌
all = refl

-- Sums past the range of `i64` are an error.
abbrev huge : ℕ → Sample
huge ts = sample ts 9223372036854775807

too_much :
    query_table
      (insert_samples (insert_samples [] phone (huge 60 ∷ [])) tv (huge 60 ∷ []))
      none
      (pos 0)
      (pos 100)
    ≡ none
unfolding query_table insert_samples merge Key-discrete Str-discrete ℤ-discrete ℕ_discrete ◌+ℤ◌
too_much = refl

-- Whether they leave the range on the way depends on the order of the rows.
abbrev row : ℕ → Str → Table
row n client = insert_samples [] client (sample 60 n ∷ [])

-- -1 in the table
abbrev minus : ℕ
minus = 18446744073709551615

order_matters :
    (query_table
        (row 9223372036854775807 phone ++ (row 1 tv ++ row minus (text "cc")))
        none
        (pos 0)
        (pos 100)
      ≡ none)
    × (query_table
          (row minus (text "cc") ++ (row 9223372036854775807 phone ++ row 1 tv))
          none
          (pos 0)
          (pos 100)
        ≡ some (
            record {
              ts = pos 60;
              rx_bytes = 9223372036854775807;
              tx_bytes = 3;
              rx_peak = 9223372036854775807;
              tx_peak = 1;
              conns = 2;
            }
            ∷ []))
unfolding query_table insert_samples merge Key-discrete Str-discrete ℤ-discrete ℕ_discrete ◌+ℤ◌
order_matters = (refl, refl)

query_table-IsExact_example :
    ((out : List Sample) × (query_table both none (pos 0) (pos 100) ≡ some out)
      × IsExact both (pos 0) (pos 100) out)
    ⊎ ((query_table both none (pos 0) (pos 100) ≡ none)
        × (t : ℤ) × (between (pos 0) (pos 100) t ≡ true)
        × Overflows (traffic_at t both))
query_table-IsExact_example = query_table-IsExact both (pos 0) (pos 100)

abbrev inserted : List Sample
inserted = sample 60 7 ∷ sample 60 9 ∷ []

insert_example :
    (out old : List Sample) × (query_table
        (insert_samples [] phone inserted)
        (some phone)
        (pos 0)
        (pos 100)
      ≡ some out)
    × (query_table [] (some phone) (pos 0) (pos 100) ≡ some old)
    × IsRising out
    × ((t : ℤ) → point_at t out ≡ within (pos 0) (pos 100) t (newest t (point_at t old) inserted))
insert_example = query-insert_samples [] phone (pos 0) (pos 100) inserted tt (words, (words', tt))
  where
    words : IsWords (sample 60 7)
    words = record {
      rx_bytes = omega arith;
      tx_bytes = omega arith;
      rx_peak = omega arith;
      tx_peak = omega arith;
      conns = omega arith;
    }

    words' : IsWords (sample 60 9)
    words' = record {
      rx_bytes = omega arith;
      tx_bytes = omega arith;
      rx_peak = omega arith;
      tx_peak = omega arith;
      conns = omega arith;
    }

sum_example :
    sum_at (pos 60) (map traffic_of (sample 60 7 ∷ sample 60 30 ∷ []))
    ≡ point_for (pos 60) (sample 60 7 ∷ sample 60 30 ∷ [])
sum_example =
    sum_at-point_for (pos 60) (sample 60 7 ∷ sample 60 30 ∷ []) (modest, (modest', tt))
      (omega arith) (omega arith)
  where
    modest : IsModest (sample 60 7)
    modest = record { rx_peak = omega arith; tx_peak = omega arith; conns = omega arith }

    modest' : IsModest (sample 60 30)
    modest' = record { rx_peak = omega arith; tx_peak = omega arith; conns = omega arith }

abbrev counts : Counts
counts =
    ((pos 0, phone, text "a"), 2)
    ∷ ((pos 0, tv, text "b"), 4)
    ∷ ((pos 0, tv, text "a"), 3)
    ∷ ((pos 86400, tv, text "c"), 9)
    ∷ []

top_two : dns_top_rows (cells counts) none (pos 0) (pos 86399) 1 ≡ some ((text "a", 5) ∷ [])
unfolding dns_top_rows sort_desc checked_add Str-discrete ℕ_discrete ◌+ℤ◌
top_two = refl

top_example :
    (out rest all : Totals) × (dns_top_rows (cells counts) none (pos 0) (pos 86399) 1 ≡ some out)
    × (length out ≡ min 1 (length all))
    × Perm (out ++ rest) all
    × IsFalling times (out ++ rest)
    × AreTotals none (pos 0) (pos 86399) counts all
top_example = dns_top_lem counts none (pos 0) (pos 86399) 1 (omega arith) (omega arith)
