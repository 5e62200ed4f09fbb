-- ===== src/Dns/Loop/Kept.antt =====
-- Where the queries that are heard end up.
use luci_app_overwatch.Base.{
  ℕ, ◌+◌, ◌^◌, ◌<◌, ◌≡◌, refl, ap, ◌∙◌, if_pos, if_neg, List, [], ◌∷◌, arith, length, Bool-cases,
  inl, inr, true, false, not, ◌&&◌, if◌then◌else◌,
}
use luci_app_overwatch.Base.Int.{ℤ, of_bits, ◌+ℤ◌}
use luci_app_overwatch.Base.Maps
use luci_app_overwatch.Base.Outcome.{value, ◌>>=◌}
use luci_app_overwatch.Base.Text.{Str}
use luci_app_overwatch.Db.{
  Tables, int, DnsKey, DnsKey-discrete, checked_add, counted_up, count_all, add_dns_counts,
}
use luci_app_overwatch.Db.Query.Top.Sums.{Counts, cells, sum_counts, plus}
use luci_app_overwatch.Dns.Capture.{drain}
use luci_app_overwatch.Dns.Capture.Counts.{Query, run, total, total_from, handed, handed-map}
use luci_app_overwatch.Dns.Loop.{Capturing, Poll, is_due, day_of, store_counts, flush, poll_rounds}
use luci_app_overwatch.Dns.Loop.Heard.{heard, after_round, poll_round-heard, queries_in}

cells-upsert :
    (k : DnsKey) (c : ℕ) (rows : Counts)
    → sum_counts rows + c < 2 ^ 63
    → Maps.upsert DnsKey-discrete k (counted_up (int (of_bits c))) (cells rows)
      ≡ cells (Maps.upsert DnsKey-discrete k (plus c) rows)
unfolding checked_add ◌+ℤ◌
cells-upsert k c [] h = ground arith
cells-upsert k c ((j, n) ∷ rows) h = elim (DnsKey-discrete j k) [
  | yes p ↦ rw (if_pos (DnsKey-discrete j k) p, if_pos (DnsKey-discrete j k) p) (ground arith)
  | no np ↦
      rw
        (
          if_neg (DnsKey-discrete j k) np,
          if_neg (DnsKey-discrete j k) np,
          cells-upsert k c rows (omega arith),
        )
        refl
]

sum_counts-upsert :
    (k : DnsKey) (c : ℕ) (rows : Counts)
    → sum_counts (Maps.upsert DnsKey-discrete k (plus c) rows) ≡ sum_counts rows + c
sum_counts-upsert k c [] = omega arith
sum_counts-upsert k c ((j, n) ∷ rows) = elim (DnsKey-discrete j k) [
  | yes p ↦ rw (if_pos (DnsKey-discrete j k) p) (omega arith)
  | no np ↦ rw (if_neg (DnsKey-discrete j k) np) (omega (arith, sum_counts-upsert k c rows))
]

-- A batch of counts goes into the table whole.
count_all-cells :
    (day : ℤ) (rows : Counts) (batch : List (Str × Str × ℕ))
    → sum_counts rows + handed batch < 2 ^ 63
    → (rows' : Counts) × (count_all day (cells rows) batch ≡ cells rows')
      × (sum_counts rows' ≡ sum_counts rows + handed batch)
unfolding count_all
count_all-cells day rows [] h = (rows, refl, omega arith)
count_all-cells day rows ((mac, d, c) ∷ batch) h =
    let more = sum_counts-upsert (day, mac, d) c rows in
    let (rows', e, s) =
      count_all-cells day (Maps.upsert DnsKey-discrete (day, mac, d) (plus c) rows) batch
        (omega (arith, more)) in
    (
      rows',
      ap (λ r. count_all day r batch) (cells-upsert (day, mac, d) c rows (omega arith)) ∙ e,
      omega (arith, more, s),
    )

store_counts-cells :
    (day : ℤ) (t : Tables) (rows : Counts) (batch : List (Str × Str × ℕ))
    → t.dns_counts_day ≡ cells rows
    → sum_counts rows + handed batch < 2 ^ 63
    → (rows' : Counts) × ((store_counts true day batch t).dns_counts_day ≡ cells rows')
      × (sum_counts rows' ≡ sum_counts rows + handed batch)
unfolding add_dns_counts
store_counts-cells day t rows [] e h = (rows, e, omega arith)
store_counts-cells day t rows (c ∷ batch) e h =
    let (rows', q, s) = count_all-cells day rows (c ∷ batch) h in
    (rows', ap (λ r. count_all day r (c ∷ batch)) e ∙ q, s)

-- A refused batch changes nothing.
pub store_counts-refused :
    (day : ℤ) (batch : List (Str × Str × ℕ)) (t : Tables) → store_counts false day batch t ≡ t
unfolding add_dns_counts
store_counts-refused day [] t = refl
store_counts-refused day (c ∷ batch) t = refl

-- A table of counts of queries: of all queries heard so far, those in it, those in the window, and those
-- that were lost.
pub record Holds (c : Capturing) (t : Tables) (n lost : ℕ) : Type 0 where
  pub rows : Counts
  pub are_counts : t.dns_counts_day ≡ cells rows
  pub number : sum_counts rows + total c.state.counts + lost ≡ n

module _ (to_lowercase : Str → Str) (flush_secs : ℕ) where
  -- The queries of a window that the database refuses.
  abbrev pub lost_of : Capturing → Poll → ℕ
  lost_of c p =
      if is_due flush_secs c.last_flush p.now && not p.commits then total c.state.counts else 0

  flush-Holds :
      (c : Capturing) (t : Tables) (p : Poll) (n lost : ℕ)
      → n < 2 ^ 63
      → Holds c t n lost
      → let r = flush to_lowercase flush_secs c t p in Holds r.0 r.1 n (lost + lost_of c p)
  unfolding flush drain
  flush-Holds c t p n lost h k = elim (Bool-cases (is_due flush_secs c.last_flush p.now)) [
    | inl b ↦
        let batch : List (Str × Str × ℕ) = (drain c.state).0 in
        let all : handed batch ≡ total c.state.counts = handed-map c.state.counts in
        let day : ℤ = day_of p.now in
        elim (Bool-cases p.commits) [
          | inl ok ↦
              let (rows', e, s) =
                store_counts-cells day t k.rows batch k.are_counts (omega (arith, all, k.number)) in
              rw (b, ok)
                (record { rows = rows'; are_counts = e; number = omega (arith, all, k.number, s) })
          | inr refused ↦
              rw (b, refused, store_counts-refused day batch t)
                (record {
                  rows = k.rows;
                  are_counts = k.are_counts;
                  number = omega (arith, k.number);
                })
        ]
    | inr b ↦
        rw b (record { rows = k.rows; are_counts = k.are_counts; number = omega (arith, k.number) })
  ]

  -- What a round loses, and what some rounds lose: the windows that were due and were refused.
  abbrev pub lost_at : Capturing → Poll → ℕ
  lost_at c p = lost_of (record c { state = run c.state (heard c.names p.packets) }) p

  abbrev pub lost_in : Capturing → Tables → List Poll → ℕ
  lost_in c t [] = 0
  lost_in c t (p ∷ ps) =
      let r = after_round to_lowercase flush_secs c t p in lost_at c p + lost_in r.0 r.1 ps

  round-Holds :
      (c : Capturing) (t : Tables) (p : Poll) (n lost : ℕ)
      → n + length (heard c.names p.packets) < 2 ^ 63
      → Holds c t n lost
      → let r = after_round to_lowercase flush_secs c t p in
        Holds r.0 r.1 (n + length (heard c.names p.packets)) (lost + lost_at c p)
  round-Holds c t p n lost h k =
      let qs : List Query = heard c.names p.packets in
      let more : total (run c.state qs).counts ≡ total c.state.counts + length qs =
        total_from c.state qs (omega (arith, k.number)) in
      flush-Holds (record c { state = run c.state qs }) t p (n + length qs) lost h
        (record {
          rows = k.rows;
          are_counts = k.are_counts;
          number = omega (arith, more, k.number);
        })

  -- Over any rounds, whatever packets they get, whenever the window is flushed and whether the database
  -- takes it or not, the loop goes on, and every query that is heard is counted once: in the table, in
  -- the window, or among the lost ones, which are those of the windows that were drained for a
  -- flush that the database refused. This is so as long as the queries are fewer than 2^63.
  pub poll_rounds-Holds :
      (c : Capturing) (t : Tables) (ps : List Poll) (n lost : ℕ)
      → n + queries_in to_lowercase flush_secs c t ps < 2 ^ 63
      → Holds c t n lost
      → (c' : Capturing) × (t' : Tables) × (poll_rounds to_lowercase flush_secs c t ps
          ≡ value (c', t'))
        × Holds c' t' (n + queries_in to_lowercase flush_secs c t ps) (lost + lost_in c t ps)
  unfolding poll_rounds
  poll_rounds-Holds c t [] n lost h k = (
    c,
    t,
    refl,
    record { rows = k.rows; are_counts = k.are_counts; number = omega (arith, k.number) },
  )
  poll_rounds-Holds c t (p ∷ ps) n lost h k =
      let r : Capturing × Tables = after_round to_lowercase flush_secs c t p in
      let m : ℕ = n + length (heard c.names p.packets) in
      let gone : ℕ = lost + lost_at c p in
      let (c', t', e, k') =
        poll_rounds-Holds r.0 r.1 ps m gone (omega arith)
          (round-Holds c t p n lost (omega arith) k) in
      (
        c',
        t',
        ap (λ o. o >>= λ s. poll_rounds to_lowercase flush_secs s.0 s.1 ps)
              (poll_round-heard to_lowercase flush_secs c t p)
            ∙ e,
        record { rows = k'.rows; are_counts = k'.are_counts; number = omega (arith, k'.number) },
      )
