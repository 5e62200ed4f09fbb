-- ===== src/Db/Query/Stored.antt =====
-- Samples put into a table and read back.
use luci_app_overwatch.Base.{
  ℕ, ◌^◌, ◌%◌, ◌<◌, ◌≡◌, ◌≢◌, refl, sym, ap, ◌∙◌, ite, if_pos, if_neg, List, [], ◌∷◌, Option, some,
  arith, Bool-cases, inl, inr,
}
use luci_app_overwatch.Base.Int.{ℤ, ℤ-discrete, bits, of_bits}
use luci_app_overwatch.Base.Maps
use luci_app_overwatch.Base.Text.{Str}
use luci_app_overwatch.Db.{Key, Key-discrete, Table, traffic_of, insert_samples}
use luci_app_overwatch.Db.Keys.{Keyed, insert_samples-Keyed}
use luci_app_overwatch.Db.Query.{row_to_sample, between, client_rows, query_table}
use luci_app_overwatch.Db.Query.Series.{row_at, within, point_at-client_rows, client_rows-IsRising}
use luci_app_overwatch.History.Total.{point_at, IsRising}
use luci_app_overwatch.Sample.{Sample}

-- The fields of a sample are machine words.
pub record IsWords (s : Sample) : Type 0 where
  pub rx_bytes : s.rx_bytes < 2 ^ 64
  pub tx_bytes : s.tx_bytes < 2 ^ 64
  pub rx_peak : s.rx_peak < 2 ^ 64
  pub tx_peak : s.tx_peak < 2 ^ 64
  pub conns : s.conns < 2 ^ 32

abbrev pub AllWords : List Sample → Type 0
AllWords [] = Unit
AllWords (s ∷ ss) = IsWords s × AllWords ss

bits-of_bits : (n : ℕ) → n < 2 ^ 64 → bits (of_bits n) ≡ n
bits-of_bits n h = ground arith

conns-of_bits : (n : ℕ) → n < 2 ^ 32 → bits (of_bits n) % 2 ^ 32 ≡ n
conns-of_bits n h = ground arith

-- What is read back of a sample is the sample.
row_to_sample-traffic_of : (s : Sample) → IsWords s → row_to_sample s.ts (traffic_of s) ≡ s
row_to_sample-traffic_of s w =
    rw
      (
        bits-of_bits s.rx_bytes w.rx_bytes,
        bits-of_bits s.tx_bytes w.tx_bytes,
        bits-of_bits s.rx_peak w.rx_peak,
        bits-of_bits s.tx_peak w.tx_peak,
        conns-of_bits s.conns w.conns,
      )
      refl

-- The last of some samples at a time, else what was there.
abbrev pub newest : ℤ → Option Sample → List Sample → Option Sample
newest t old [] = old
newest t old (s ∷ ss) = newest t (ite (ℤ-discrete s.ts t) (some s) old) ss

abbrev row_of : Str → ℤ → Table → Option Sample
row_of mac t rows = row_at t (Maps.lookup Key-discrete (t, mac) rows)

abbrev key_at : ℤ → Str → Key
key_at ts mac = (ts, mac)

row_of-insert :
    (mac : Str) (t : ℤ) (s : Sample) (rows : Table)
    → IsWords s
    → row_of mac t (Maps.insert Key-discrete (s.ts, mac) (traffic_of s) rows)
      ≡ ite (ℤ-discrete s.ts t) (some s) (row_of mac t rows)
row_of-insert mac t s rows w = elim (ℤ-discrete s.ts t) [
  | yes p ↦
      ap (row_at t) (
        Maps.lookup-upsert_eq Key-discrete (key_at s.ts mac) (key_at t mac) (λ _. traffic_of s) rows
          (ap (λ u. key_at u mac) p))
      ∙ ap (λ u. some (row_to_sample u (traffic_of s))) (sym p)
      ∙ ap some (row_to_sample-traffic_of s w)
      ∙ sym (if_pos (ℤ-discrete s.ts t) p _ _)
  | no np ↦
      let ne : key_at s.ts mac ≢ key_at t mac = λ e. np (ap (λ (k : Key). k.0) e) in
      ap (row_at t) (
        Maps.lookup-upsert_ne Key-discrete (key_at s.ts mac) (key_at t mac) (λ _. traffic_of s) rows
          ne)
      ∙ sym (if_neg (ℤ-discrete s.ts t) np _ _)
]

row_of-insert_samples :
    (mac : Str) (t : ℤ) (ss : List Sample) (rows : Table)
    → AllWords ss
    → row_of mac t (insert_samples rows mac ss) ≡ newest t (row_of mac t rows) ss
unfolding insert_samples
row_of-insert_samples mac t [] rows w = refl
row_of-insert_samples mac t (s ∷ ss) rows w =
    row_of-insert_samples mac t ss (Maps.insert Key-discrete (s.ts, mac) (traffic_of s) rows) w.1
    ∙ ap (λ o. newest t o ss) (row_of-insert mac t s rows w.0)

-- Samples of machine words, inserted for a client into a table with every key once, and read back for
-- a range: the series rises in time, and has for every time in the range the last of the inserted
-- samples of that time, or, where there is none, the point that it had before.
pub query-insert_samples :
    (rows : Table) (mac : Str) (from to : ℤ) (ss : List Sample)
    → Keyed rows
    → AllWords ss
    → (out : List Sample) × (old : List Sample) × (query_table
          (insert_samples rows mac ss)
          (some mac)
          from
          to
        ≡ some out)
      × (query_table rows (some mac) from to ≡ some old)
      × IsRising out
      × ((t : ℤ) → point_at t out ≡ within from to t (newest t (point_at t old) ss))
unfolding query_table
query-insert_samples rows mac from to ss h w =
    let once = insert_samples-Keyed rows mac ss h in
    (
      client_rows mac from to (insert_samples rows mac ss),
      client_rows mac from to rows,
      refl,
      refl,
      client_rows-IsRising mac from to (insert_samples rows mac ss) once,
      λ t.
          point_at-client_rows mac from to t (insert_samples rows mac ss) once
          ∙ elim (Bool-cases (between from to t)) [
            | inl b ↦
                let before : point_at t (client_rows mac from to rows) ≡ row_of mac t rows =
                  point_at-client_rows mac from to t rows h ∙ rw b refl in
                rw (b, before) (row_of-insert_samples mac t ss rows w)
            | inr b ↦ rw b refl
          ],
    )
