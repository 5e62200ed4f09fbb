-- ===== src/Dns/Loop.antt =====
-- src/dns_capture.rs, `run`: the loop that counts the queries of captured packets and hands the counts
-- to the database. Sockets and `poll` are the operating system's: a round gets the packets that they
-- deliver, the time, and the texts of the two files that it may read.
pub mod Heard
pub mod Kept
pub mod Window
mod Tests
use luci_app_overwatch.Base.{ℕ, Bool, true, false, List, [], ◌∷◌, Option, none, some, if◌then◌else◌}
use luci_app_overwatch.Base.Int.{ℤ, sub_i64, rem, leb_ℤ, of_bits}
use luci_app_overwatch.Base.Ip.{IpAddr}
use luci_app_overwatch.Base.Outcome.{Outcome, value, nothing, panicked, hung, ◌>>=◌}
use luci_app_overwatch.Base.Text.{Str}
use luci_app_overwatch.Db.{Tables, DnsKey, Cell, add_dns_counts}
use luci_app_overwatch.Dns.Capture.{CaptureState, empty, record_query, drain}
use luci_app_overwatch.Dns.Parse.{parse_dns_query}
use luci_app_overwatch.Names.{NameTable, mac_for, from_text}

-- The loop's variables.
pub record Capturing : Type 0 where
  pub state : CaptureState
  pub names : NameTable
  pub last_flush : ℤ

-- What a round gets from outside; `commits` is whether the database takes what is flushed.
pub record Poll : Type 0 where
  pub packets : List (List ℕ)
  pub now : ℤ
  pub leases : Str
  pub arp : Str
  pub commits : Bool

abbrev pub count_for : CaptureState → Option Str → Str → CaptureState
count_for s none domain = s
count_for s (some mac) domain = record_query s mac domain

-- A packet that is no query is passed over.
abbrev pub counted_for : NameTable → CaptureState → Outcome (IpAddr × Str) → Outcome CaptureState
counted_for names s (value (ip, domain)) = value (count_for s (mac_for names ip) domain)
counted_for names s nothing = value s
counted_for names s panicked = panicked
counted_for names s hung = hung

-- `while let Some(n) = recv_packet(…)`
unfoldable pub capture : NameTable → CaptureState → List (List ℕ) → Outcome CaptureState
capture names s [] = value s
capture names s (p ∷ ps) = counted_for names s (parse_dns_query p) >>= λ s'. capture names s' ps

-- `now - (now % 86400)`
unfoldable pub day_of : ℤ → ℤ
day_of now = sub_i64 now (rem now 86400)

-- `if let Err(e) = g.store.add_dns_counts(…)`: an error is reported, and the counts are gone.
abbrev pub stored : Tables → Option (List (DnsKey × Cell)) → Tables
stored t none = t
stored t (some rows) = record t { dns_counts_day = rows }

abbrev pub store_counts : Bool → ℤ → List (Str × Str × ℕ) → Tables → Tables
unfolding add_dns_counts
store_counts commits ts_day [] t = t
store_counts commits ts_day (c ∷ counts) t =
    stored t (add_dns_counts commits ts_day t.dns_counts_day (c ∷ counts))

-- `now - last_flush >= flush_secs as i64`
unfoldable pub is_due : ℕ → ℤ → ℤ → Bool
is_due flush_secs last_flush now = leb_ℤ (of_bits flush_secs) (sub_i64 now last_flush)

-- The variables before the first round.
unfoldable pub begin : (Str → Str) → Str → Str → ℤ → Capturing
begin to_lowercase leases arp now = record {
  state = empty;
  names = from_text to_lowercase leases arp;
  last_flush = now;
}

module _ (to_lowercase : Str → Str) (flush_secs : ℕ) where
  -- The end of a round.
  unfoldable pub flush : Capturing → Tables → Poll → Capturing × Tables
  unfolding is_due day_of
  flush c t p =
      let (counts, emptied) = drain c.state in
      if is_due flush_secs c.last_flush p.now
      then (
        record {
          state = emptied;
          names = from_text to_lowercase p.leases p.arp;
          last_flush = p.now;
        },
        store_counts p.commits (day_of p.now) counts t,
      )
      else (c, t)

  unfoldable pub poll_round : Capturing → Tables → Poll → Outcome (Capturing × Tables)
  unfolding capture flush
  poll_round c t p =
      capture c.names c.state p.packets >>= λ s. value (flush (record c { state = s }) t p)

  -- Round after round.
  unfoldable pub poll_rounds : Capturing → Tables → List Poll → Outcome (Capturing × Tables)
  unfolding poll_round
  poll_rounds c t [] = value (c, t)
  poll_rounds c t (p ∷ ps) = poll_round c t p >>= λ r. poll_rounds r.0 r.1 ps
