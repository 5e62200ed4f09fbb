-- ===== src/Dns/Capture.antt =====
-- src/dns_capture.rs, `CaptureState`: the query counts of one flush window, for a bounded number of
-- domains.
pub mod Counts
use luci_app_overwatch.Base.{
  ℕ, ◌+◌, ◌≤◌, ◌≡◌, Bool, true, false, ite, List, [], ◌∷◌, map, Option, leb, if◌then◌else◌, length,
}
use luci_app_overwatch.Base.Maps
use luci_app_overwatch.Base.Text.{Str, Str-discrete, text}
use luci_app_overwatch.Base.Words.{add_u64}
use mathlib.Core.Option

abbrev pub cardinality_cap : ℕ
cardinality_cap = 5000

abbrev pub other : Str
other = text "__other__"

abbrev pub Key : Type 0
Key = Str × Str

unfoldable pub Key-discrete : Discrete Key
unfolding Str-discrete
Key-discrete = hlevel Str-discrete

-- `counts` maps (mac, domain) to the number of queries, a `u64`.
pub record CaptureState : Type 0 where
  pub counts : List (Key × ℕ)
  pub seen_domains : List Str

abbrev pub empty : CaptureState
empty = record { counts = []; seen_domains = [] }

abbrev pub contains : Str → List Str → Bool
contains d [] = false
contains d (x ∷ xs) = ite (Str-discrete x d) true (contains d xs)

-- The name that a query is counted under, and the set of domains behind it.
unfoldable pub admit : List Str → Str → Str × List Str
admit seen domain =
    if contains domain seen
    then (domain, seen)
    else if leb cardinality_cap (length seen)
    then (other, seen)
    else (domain, domain ∷ seen)

-- `*entry.or_insert(0) += 1`
abbrev pub one_more : Option ℕ → ℕ
one_more o = add_u64 (Option.get_or o 0) 1

unfoldable pub record_query : CaptureState → Str → Str → CaptureState
unfolding admit
record_query s mac domain =
    let (name, seen) = admit s.seen_domains domain in
    record { counts = Maps.upsert Key-discrete (mac, name) one_more s.counts; seen_domains = seen }

unfoldable pub drain : CaptureState → List (Str × Str × ℕ) × CaptureState
drain s = (map (λ (e : Key × ℕ). (e.0.0, e.0.1, e.1)) s.counts, empty)
