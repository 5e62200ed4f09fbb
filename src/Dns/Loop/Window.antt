-- ===== src/Dns/Loop/Window.antt =====
-- What a flush adds to the database, key by key.
use luci_app_overwatch.Base.{
  ℕ, ◌+◌, ◌^◌, ◌<◌, ◌≤◌, ◌≡◌, ◌≢◌, refl, sym, ap, subst, ◌∙◌, true, Bool-cases, inl, inr,
  if◌then◌else◌, if_pos, if_neg, List, [], ◌∷◌, map, none, arith, length,
}
use luci_app_overwatch.Base.Int.{ℤ, pos}
use luci_app_overwatch.Base.Maps
use luci_app_overwatch.Base.Outcome.{value}
use luci_app_overwatch.Base.Text.{Str}
use luci_app_overwatch.Db.{Tables, int, DnsKey, DnsKey-discrete, count_all, add_dns_counts}
use luci_app_overwatch.Db.Counts.{cell_at, amount, cell_at-count_all}
use luci_app_overwatch.Dns.Capture.{
  CaptureState, Key, Key-discrete, empty, admit, record_query, one_more, drain,
}
use luci_app_overwatch.Dns.Capture.Counts.{Query, run, counted, count_of, queries_of}
use luci_app_overwatch.Dns.Loop.{Capturing, Poll, is_due, day_of, store_counts, flush, poll_round}
use luci_app_overwatch.Dns.Loop.Kept.{store_counts-refused}
use luci_app_overwatch.Dns.Loop.Heard.{heard, after_round, poll_round-heard}
use mathlib.Core.Option

run-HasKeysOnce :
    (s : CaptureState) (qs : List Query)
    → Maps.HasKeysOnce Key-discrete s.counts
    → Maps.HasKeysOnce Key-discrete (run s qs).counts
unfolding run record_query
run-HasKeysOnce s [] h = h
run-HasKeysOnce s ((mac, d) ∷ qs) h =
    run-HasKeysOnce (record_query s mac d) qs
      (Maps.upsert-HasKeysOnce Key-discrete (mac, (admit s.seen_domains d).0) one_more s.counts h)

abbrev drained : Key × ℕ → Str × Str × ℕ
drained e = (e.0.0, e.0.1, e.1)

abbrev pub key_on : ℤ → Key → DnsKey
key_on day k = (day, k.0, k.1)

amount-none :
    (day : ℤ) (k : Key) (m : List (Key × ℕ))
    → Maps.lookup Key-discrete k m ≡ none
    → amount day (key_on day k) (map drained m) ≡ 0
amount-none day k [] h = refl
amount-none day k ((j, n) ∷ m) h = elim (Key-discrete j k) [
  | yes p ↦ absurd (cc (sym h ∙ if_pos (Key-discrete j k) p _ _))
  | no np ↦
      let other : key_on day j ≢ key_on day k = λ e. np (ap (λ (q : DnsKey). (q.1, q.2)) e) in
      rw (if_neg (DnsKey-discrete (key_on day j) (key_on day k)) other)
        (omega (arith, amount-none day k m (sym (if_neg (Key-discrete j k) np _ _) ∙ h)))
]

-- What a drained window holds for a key is the key's count.
amount-drained :
    (day : ℤ) (k : Key) (m : List (Key × ℕ))
    → Maps.HasKeysOnce Key-discrete m
    → amount day (key_on day k) (map drained m) ≡ Option.get_or (Maps.lookup Key-discrete k m) 0
amount-drained day k [] h = refl
amount-drained day k ((j, n) ∷ m) h = elim (Key-discrete j k) [
  | yes p ↦
      let same : key_on day j ≡ key_on day k = ap (key_on day) p in
      let free : Maps.lookup Key-discrete k m ≡ none =
        subst (λ i. Maps.lookup Key-discrete i m ≡ none) p h.0 in
      rw (if_pos (DnsKey-discrete (key_on day j) (key_on day k)) same, if_pos (Key-discrete j k) p)
        (omega (arith, amount-none day k m free))
  | no np ↦
      let other : key_on day j ≢ key_on day k = λ e. np (ap (λ (q : DnsKey). (q.1, q.2)) e) in
      rw
        (if_neg (DnsKey-discrete (key_on day j) (key_on day k)) other, if_neg (Key-discrete j k) np)
        (omega (arith, amount-drained day k m h.1))
]

queries_of-length : (seen : List Str) (k : Key) (qs : List Query) → queries_of seen k qs ≤ length qs
queries_of-length seen k [] = omega arith
queries_of-length seen k ((mac, d) ∷ qs) = ground (arith, queries_of-length seen k qs)

store_counts-dns :
    (day : ℤ) (counts : List (Str × Str × ℕ)) (t : Tables)
    → (store_counts true day counts t).dns_counts_day ≡ count_all day t.dns_counts_day counts
unfolding count_all add_dns_counts
store_counts-dns day [] t = refl
store_counts-dns day (c ∷ counts) t = refl

module _ (to_lowercase : Str → Str) (flush_secs : ℕ) where
  flush-cell_at :
      (c : Capturing) (t : Tables) (p : Poll) (k : Key) (n : ℕ)
      → Maps.HasKeysOnce Key-discrete c.state.counts
      → is_due flush_secs c.last_flush p.now ≡ true
      → cell_at (key_on (day_of p.now) k) t.dns_counts_day ≡ int (pos n)
      → n + count_of c.state k < 2 ^ 63
      → cell_at (key_on (day_of p.now) k) (flush to_lowercase flush_secs c t p).1.dns_counts_day
        ≡ int (pos (n + (if p.commits then count_of c.state k else 0)))
  unfolding flush drain add_dns_counts
  flush-cell_at c t p k n once due old small =
      let day : ℤ = day_of p.now in
      let batch : List (Str × Str × ℕ) = (drain c.state).0 in
      let number : amount day (key_on day k) batch ≡ count_of c.state k =
        amount-drained day k c.state.counts once in
      let stored : cell_at (key_on day k) (store_counts true day batch t).dns_counts_day
          ≡ int (pos (n + count_of c.state k)) =
        ap (cell_at (key_on day k)) (store_counts-dns day batch t)
        ∙ cell_at-count_all day (key_on day k) batch t.dns_counts_day n old (omega (arith, number))
        ∙ ap (λ (m : ℕ). int (pos (n + m))) number in
      let none_more : int (pos n) ≡ int (pos (n + 0)) = ap (λ (m : ℕ). int (pos m)) (omega arith) in
      elim (Bool-cases p.commits) [
        | inl ok ↦ rw (due, ok) stored
        | inr refused ↦ rw (due, refused, store_counts-refused day batch t) (old ∙ none_more)
      ]

  flush-empty :
      (c : Capturing) (t : Tables) (p : Poll)
      → is_due flush_secs c.last_flush p.now ≡ true
      → (flush to_lowercase flush_secs c t p).0.state ≡ empty
  unfolding flush drain
  flush-empty c t p due = rw due refl

  -- A round that begins with an empty window and in which a flush is due adds, for every client and
  -- name, the number of the queries that it hears and that fall to them, to the count of the day, where
  -- that is not negative and the sum stays below 2^63. If the database refuses them, the count stays
  -- as it was. The window is empty again either way.
  pub poll_round-counted :
      (c : Capturing) (t : Tables) (p : Poll) (k : Key) (n : ℕ)
      → c.state ≡ empty
      → is_due flush_secs c.last_flush p.now ≡ true
      → cell_at (key_on (day_of p.now) k) t.dns_counts_day ≡ int (pos n)
      → n + length (heard c.names p.packets) < 2 ^ 63
      → (c' : Capturing) × (t' : Tables) × (poll_round to_lowercase flush_secs c t p
          ≡ value (c', t'))
        × (c'.state ≡ empty)
        × (cell_at (key_on (day_of p.now) k) t'.dns_counts_day
            ≡ int (
                pos (
                  n
                  + (if p.commits
                      then (let qs = heard c.names p.packets in
                          queries_of (run empty qs).seen_domains k qs)
                      else 0))))
  poll_round-counted c t p k n clean due old small =
      let qs : List Query = heard c.names p.packets in
      let full : Capturing = record c { state = run c.state qs } in
      let r : Capturing × Tables = after_round to_lowercase flush_secs c t p in
      let once : Maps.HasKeysOnce Key-discrete c.state.counts =
        subst (λ (s : CaptureState). Maps.HasKeysOnce Key-discrete s.counts) (sym clean) tt in
      let few = queries_of-length (run empty qs).seen_domains k qs in
      let number : count_of full.state k ≡ queries_of (run empty qs).seen_domains k qs =
        ap (λ s. count_of (run s qs) k) clean ∙ counted qs k ∙ omega (arith, few) in
      (
        r.0,
        r.1,
        poll_round-heard to_lowercase flush_secs c t p,
        flush-empty full t p due,
        flush-cell_at full t p k n (run-HasKeysOnce c.state qs once) due old
              (omega (arith, number, few))
            ∙ ap (λ (m : ℕ). int (pos (n + (if p.commits then m else 0)))) number,
      )
