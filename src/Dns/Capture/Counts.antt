-- ===== src/Dns/Capture/Counts.antt =====
-- What a window's counts say, for any sequence of queries.
use luci_app_overwatch.Base.{
  ℕ, ◌+◌, ◌%◌, ◌^◌, ◌≤◌, ◌<◌, ◌≡◌, ◌≢◌, ◌⊎◌, refl, sym, ap, ◌∙◌, Bool, true, false, ite, if_pos,
  if_neg, List, [], ◌∷◌, map, none, arith, if◌then◌else◌, length, inl, inr,
}
use luci_app_overwatch.Base.Maps
use luci_app_overwatch.Base.Text.{Str}
use luci_app_overwatch.Base.Words.{add_u64}
use luci_app_overwatch.Dns.Capture.{
  CaptureState, Key, Key-discrete, empty, other, contains, admit, record_query, drain,
  cardinality_cap, one_more,
}
use mathlib.Core.Option

-- A query: who asked, and for what.
abbrev pub Query : Type 0
Query = Str × Str

unfoldable pub run : CaptureState → List Query → CaptureState
run s [] = s
run s ((mac, domain) ∷ qs) = run (record_query s mac domain) qs

-- The name that a window with these domains counts a domain under.
abbrev pub folded : List Str → Str → Str
folded seen d = if contains d seen then d else other

-- How many of the queries fall to a key, by the domains of the whole window.
abbrev pub queries_of : List Str → Key → List Query → ℕ
queries_of seen k [] = 0
queries_of seen k ((mac, d) ∷ qs) =
    ite (Key-discrete (mac, folded seen d) k) 1 0 + queries_of seen k qs

abbrev pub count_of : CaptureState → Key → ℕ
count_of s k = Option.get_or (Maps.lookup Key-discrete k s.counts) 0

-- A domain whose name no longer changes: it is in the set, or the set is full.
abbrev IsSettled : List Str → Str → Type 0
IsSettled seen d = (contains d seen ≡ true) ⊎ (cardinality_cap ≤ length seen)

admit-IsSettled : (seen : List Str) (d : Str) → IsSettled (admit seen d).1 d
unfolding admit
admit-IsSettled seen d = ground arith

admit-folded : (seen : List Str) (d : Str) → (admit seen d).0 ≡ folded (admit seen d).1 d
unfolding admit
admit-folded seen d = ground arith

contains-admit :
    (seen : List Str) (d e : Str)
    → IsSettled seen d
    → (contains d (admit seen e).1 ≡ contains d seen) × IsSettled (admit seen e).1 d
unfolding admit
contains-admit seen d e h = ground arith

contains-run :
    (s : CaptureState) (qs : List Query) (d : Str)
    → IsSettled s.seen_domains d
    → contains d (run s qs).seen_domains ≡ contains d s.seen_domains
unfolding run record_query
contains-run s [] d h = refl
contains-run s ((mac, e) ∷ qs) d h =
    let (same, kept) = contains-admit s.seen_domains d e h in
    contains-run (record_query s mac e) qs d kept ∙ same

-- The name that a query gets when it comes is the one that the whole window gives it.
name-run :
    (s : CaptureState) (mac d : Str) (qs : List Query)
    → (admit s.seen_domains d).0 ≡ folded (run (record_query s mac d) qs).seen_domains d
unfolding record_query
name-run s mac d qs =
    admit-folded s.seen_domains d
    ∙ ap (λ (b : Bool). if b then d else other)
        (sym (contains-run (record_query s mac d) qs d (admit-IsSettled s.seen_domains d)))

count_of-record_query :
    (s : CaptureState) (mac d : Str) (k : Key)
    → count_of (record_query s mac d) k
      ≡ ite
          (Key-discrete (mac, (admit s.seen_domains d).0) k)
          (add_u64 (count_of s k) 1)
          (count_of s k)
unfolding record_query
count_of-record_query s mac d k =
    let name : Str = (admit s.seen_domains d).0 in
    elim (Key-discrete (mac, name) k) [
      | yes e ↦ rw (if_pos (Key-discrete (mac, name) k) e) (
          rw (← e) (
            ap (λ o. Option.get_or o 0)
              (Maps.lookup-upsert_self Key-discrete (mac, name) one_more s.counts)))
      | no ne ↦ rw (if_neg (Key-discrete (mac, name) k) ne) (
          ap (λ o. Option.get_or o 0)
            (Maps.lookup-upsert_ne Key-discrete (mac, name) k one_more s.counts ne))
    ]

counted_from :
    (s : CaptureState) (qs : List Query) (k : Key)
    → count_of s k < 2 ^ 64
    → count_of (run s qs) k ≡ (count_of s k + queries_of (run s qs).seen_domains k qs) % 2 ^ 64
unfolding run
counted_from s [] k h = omega arith
counted_from s ((mac, d) ∷ qs) k h =
    let s' : CaptureState = record_query s mac d in
    let key : Key = (mac, folded (run s' qs).seen_domains d) in
    let now : count_of s' k ≡ ite (Key-discrete key k) (add_u64 (count_of s k) 1) (count_of s k) =
      count_of-record_query s mac d k
      ∙ ap (λ n. ite (Key-discrete (mac, n) k) (add_u64 (count_of s k) 1) (count_of s k))
          (name-run s mac d qs) in
    elim (Key-discrete key k) [
      | yes e ↦
          let one : count_of s' k ≡ add_u64 (count_of s k) 1 =
            now ∙ if_pos (Key-discrete key k) e _ _ in
          rw (if_pos (Key-discrete key k) e) (omega (arith, counted_from s' qs k (omega arith)))
      | no ne ↦
          let none_more : count_of s' k ≡ count_of s k = now ∙ if_neg (Key-discrete key k) ne _ _ in
          rw (if_neg (Key-discrete key k) ne) (omega (arith, counted_from s' qs k (omega arith)))
    ]

-- After any queries of an empty window, a key's count is the number of queries that fall to it,
-- modulo the word: a query falls to its domain if the window kept that domain, and to the common
-- name otherwise.
pub counted :
    (qs : List Query) (k : Key)
    → count_of (run empty qs) k ≡ queries_of (run empty qs).seen_domains k qs % 2 ^ 64
counted qs k = counted_from empty qs k (omega arith) ∙ ap (λ (n : ℕ). n % 2 ^ 64) (omega arith)

-- The sum of all counts.
abbrev pub total : List (Key × ℕ) → ℕ
total [] = 0
total ((k, n) ∷ m) = n + total m

total-upsert :
    (k : Key) (m : List (Key × ℕ))
    → total m + 1 < 2 ^ 64
    → total (Maps.upsert Key-discrete k one_more m) ≡ total m + 1
total-upsert k [] h = omega arith
total-upsert k ((j, n) ∷ m) h = elim (Key-discrete j k) [
  | yes e ↦ rw (if_pos (Key-discrete j k) e) (omega arith)
  | no ne ↦ rw (if_neg (Key-discrete j k) ne) (omega (arith, total-upsert k m (omega arith)))
]

pub total_from :
    (s : CaptureState) (qs : List Query)
    → total s.counts + length qs < 2 ^ 64
    → total (run s qs).counts ≡ total s.counts + length qs
unfolding run record_query
total_from s [] h = omega arith
total_from s ((mac, d) ∷ qs) h =
    let one : total (record_query s mac d).counts ≡ total s.counts + 1 =
      total-upsert (mac, (admit s.seen_domains d).0) s.counts (omega arith) in
    omega (arith, total_from (record_query s mac d) qs (omega arith))

-- No query is lost or counted twice: fewer than 2^64 queries, and the counts add up to their number.
pub total-run : (qs : List Query) → length qs < 2 ^ 64 → total (run empty qs).counts ≡ length qs
total-run qs h = total_from empty qs (omega arith) ∙ omega arith

-- Domains are kept once each, and no more than the cap.
abbrev pub IsDistinct : List Str → Type 0
IsDistinct [] = Unit
IsDistinct (d ∷ ds) = (contains d ds ≡ false) × IsDistinct ds

-- The set of domains is within the cap and free of repeats, and each count is under a domain of the
-- set or the common name.
pub record IsBounded (s : CaptureState) : Type 0 where
  pub capped : length s.seen_domains ≤ cardinality_cap
  pub distinct : IsDistinct s.seen_domains
  pub named :
      (mac name : Str)
      → Maps.lookup Key-discrete (mac, name) s.counts ≢ none
      → (contains name s.seen_domains ≡ true) ⊎ (name ≡ other)

admit-IsDistinct :
    (seen : List Str) (d : Str)
    → length seen ≤ cardinality_cap
    → IsDistinct seen
    → (length (admit seen d).1 ≤ cardinality_cap) × IsDistinct (admit seen d).1
unfolding admit
admit-IsDistinct seen d h k = ground arith

admit_grows :
    (seen : List Str) (d e : Str) → contains e seen ≡ true → contains e (admit seen d).1 ≡ true
unfolding admit
admit_grows seen d e h = ground arith

admit_named :
    (seen : List Str) (d : Str)
    → (contains (admit seen d).0 (admit seen d).1 ≡ true) ⊎ ((admit seen d).0 ≡ other)
unfolding admit
admit_named seen d = ground arith

record_query-IsBounded :
    (s : CaptureState) (mac d : Str) → IsBounded s → IsBounded (record_query s mac d)
unfolding record_query
record_query-IsBounded s mac d b =
    let (capped, distinct) = admit-IsDistinct s.seen_domains d b.capped b.distinct in
    record {
      capped = capped;
      distinct = distinct;
      named = λ m name present. elim (Key-discrete (mac, (admit s.seen_domains d).0) (m, name)) [
        | yes e ↦ rw (← ap (λ (k : Key). k.1) e) (admit_named s.seen_domains d)
        | no ne ↦
            let old : Maps.lookup Key-discrete (m, name) s.counts ≢ none = λ gone. present (
              Maps.lookup-upsert_ne Key-discrete (mac, (admit s.seen_domains d).0) (m, name)
                one_more s.counts ne
              ∙ gone) in
            elim (b.named m name old) [
              | inl kept ↦ inl (admit_grows s.seen_domains d name kept)
              | inr e ↦ inr e
            ]
      ];
    }

pub run_from-IsBounded : (s : CaptureState) (qs : List Query) → IsBounded s → IsBounded (run s qs)
unfolding run
run_from-IsBounded s [] b = b
run_from-IsBounded s ((mac, d) ∷ qs) b =
    run_from-IsBounded (record_query s mac d) qs (record_query-IsBounded s mac d b)

-- Whatever clients ask for, a window keeps at most 5000 domains, each once, and has no count under a
-- name that is neither one of them nor the common name.
pub run-IsBounded : (qs : List Query) → IsBounded (run empty qs)
run-IsBounded qs =
    run_from-IsBounded empty qs
      (record { capped = omega arith; distinct = tt; named = λ mac name h. absurd (h refl) })

-- The counts that are handed out, added up.
abbrev pub handed : List (Str × Str × ℕ) → ℕ
handed [] = 0
handed ((mac, d, n) ∷ out) = n + handed out

pub handed-map :
    (m : List (Key × ℕ)) → handed (map (λ (e : Key × ℕ). (e.0.0, e.0.1, e.1)) m) ≡ total m
handed-map [] = refl
handed-map ((k, n) ∷ m) = omega (arith, handed-map m)

-- Window after window: what a drain hands out adds up to the number of the queries since the drain
-- before it, where these are fewer than 2^64; nothing of the window before is counted again.
drain-run :
    (before qs : List Query)
    → length qs < 2 ^ 64
    → handed (drain (run (drain (run empty before)).1 qs)).0 ≡ length qs
unfolding drain
drain-run before qs h = handed-map (run empty qs).counts ∙ total-run qs h
