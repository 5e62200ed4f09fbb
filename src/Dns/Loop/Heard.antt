-- ===== src/Dns/Loop/Heard.antt =====
-- Which queries a round hears: no packet stops it.
use luci_app_overwatch.Base.{ℕ, ◌+◌, ◌≡◌, refl, length, List, [], ◌∷◌, Option, none, some}
use luci_app_overwatch.Base.Ip.{IpAddr}
use luci_app_overwatch.Base.Outcome.{Outcome, value, nothing, panicked, hung, ◌>>=◌, Settles}
use luci_app_overwatch.Base.Text.{Str}
use luci_app_overwatch.Db.{Tables}
use luci_app_overwatch.Dns.Capture.{CaptureState, record_query}
use luci_app_overwatch.Dns.Capture.Counts.{Query, run}
use luci_app_overwatch.Dns.Loop.{
  Capturing, Poll, counted_for, count_for, capture, flush, poll_round,
}
use luci_app_overwatch.Dns.Parse.{parse_dns_query}
use luci_app_overwatch.Dns.Parse.Total.{parse_dns_query_total}
use luci_app_overwatch.Names.{NameTable, mac_for}

abbrev asked_by : Option Str → Str → List Query → List Query
asked_by none domain qs = qs
asked_by (some mac) domain qs = (mac, domain) ∷ qs

abbrev and_heard : NameTable → Outcome (IpAddr × Str) → List Query → List Query
and_heard names (value (ip, domain)) qs = asked_by (mac_for names ip) domain qs
and_heard names _ qs = qs

-- The queries among some packets, of the clients that have a hardware address.
abbrev pub heard : NameTable → List (List ℕ) → List Query
heard names [] = []
heard names (p ∷ ps) = and_heard names (parse_dns_query p) (heard names ps)

module _ (names : NameTable) (ps : List (List ℕ)) where
  heard_mac :
      (s : CaptureState) (o : Option Str) (domain : Str)
      → ((s' : CaptureState) → capture names s' ps ≡ value (run s' (heard names ps)))
      → capture names (count_for s o domain) ps ≡ value (run s (asked_by o domain (heard names ps)))
  unfolding run
  heard_mac s none domain rest = rest s
  heard_mac s (some mac) domain rest = rest (record_query s mac domain)

  heard_packet :
      (s : CaptureState) (o : Outcome (IpAddr × Str))
      → Settles o
      → ((s' : CaptureState) → capture names s' ps ≡ value (run s' (heard names ps)))
      → (counted_for names s o >>= λ s'. capture names s' ps)
        ≡ value (run s (and_heard names o (heard names ps)))
  heard_packet s (value (ip, domain)) k rest = heard_mac s (mac_for names ip) domain rest
  heard_packet s nothing k rest = rest s
  heard_packet s panicked k rest = absurd k
  heard_packet s hung k rest = absurd k

-- Packets count as their queries do, and none of them stops the loop.
pub capture-heard :
    (names : NameTable) (s : CaptureState) (ps : List (List ℕ))
    → capture names s ps ≡ value (run s (heard names ps))
unfolding capture run
capture-heard names s [] = refl
capture-heard names s (p ∷ ps) =
    heard_packet names ps s (parse_dns_query p) (parse_dns_query_total p)
      (λ s'. capture-heard names s' ps)

module _ (to_lowercase : Str → Str) (flush_secs : ℕ) where
  -- A round without the outcome.
  abbrev pub after_round : Capturing → Tables → Poll → Capturing × Tables
  after_round c t p =
      flush to_lowercase flush_secs (record c { state = run c.state (heard c.names p.packets) }) t p

  pub poll_round-heard :
      (c : Capturing) (t : Tables) (p : Poll)
      → poll_round to_lowercase flush_secs c t p ≡ value (after_round c t p)
  unfolding poll_round
  poll_round-heard c t p = rw (capture-heard c.names c.state p.packets) refl

  -- How many queries are heard in some rounds.
  abbrev pub queries_in : Capturing → Tables → List Poll → ℕ
  queries_in c t [] = 0
  queries_in c t (p ∷ ps) =
      length (heard c.names p.packets) + queries_in (after_round c t p).0 (after_round c t p).1 ps
