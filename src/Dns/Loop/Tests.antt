-- ===== src/Dns/Loop/Tests.antt =====
-- One packet, heard and flushed.
use luci_app_overwatch.Base.{
  ℕ, ◌+◌, ◌≡◌, refl, ap, true, false, if◌then◌else◌, List, [], ◌∷◌, ◌++◌, replicate, length, arith,
  ℕ_discrete,
}
use luci_app_overwatch.Base.Int.{pos, ◌-ℤ◌, sub_i64}
use luci_app_overwatch.Base.Ip.{v4, IpAddr-discrete}
use luci_app_overwatch.Base.Outcome.{value}
use luci_app_overwatch.Base.Text.{Str, Str-discrete, text}
use luci_app_overwatch.Base.Utf8.{from_utf8}
use luci_app_overwatch.Db.{Tables, int}
use luci_app_overwatch.Db.Counts.{cell_at}
use luci_app_overwatch.Dns.Capture.{empty, record_query, Key-discrete}
use luci_app_overwatch.Dns.Capture.Counts.{run, queries_of}
use luci_app_overwatch.Dns.Loop.{Capturing, Poll, is_due, day_of, poll_round, poll_rounds, flush}
use luci_app_overwatch.Dns.Loop.Heard.{heard, queries_in}
use luci_app_overwatch.Dns.Loop.Kept.{Holds, lost_at, lost_in, poll_rounds-Holds}
use luci_app_overwatch.Dns.Loop.Window.{key_on, poll_round-counted}
use luci_app_overwatch.Dns.Parse.{parse_dns_query, read_labels, read_round, join}
use luci_app_overwatch.Names.{NameTable, from_text}

-- 192.168.1.9 asks for a.b.
abbrev packet : List ℕ
packet =
    0x45 ∷ replicate 8 0
    ++ 17 ∷ 0 ∷ 0 ∷ 192 ∷ 168 ∷ 1 ∷ 9 ∷ replicate 4 8
    ++ 0 ∷ 1 ∷ 0 ∷ 53 ∷ replicate 4 0
    ++ replicate 12 0
    ++ 1 ∷ 97 ∷ 1 ∷ 98 ∷ 0 ∷ []

abbrev names : NameTable
names = record { ip_to_mac = (v4 3232235785, text "aa") ∷ []; mac_to_host = [] }

abbrev capturing : Capturing
capturing = record { state = empty; names = names; last_flush = pos 86400 }

abbrev tables : Tables
tables = record {
  clients = [];
  samples_min = [];
  samples_hour = [];
  samples_day = [];
  dns_counts_day = [];
}

-- A minute later, with the packet and with one that is too short.
abbrev poll : Poll
poll = record {
  packets = packet ∷ (0x45 ∷ []) ∷ packet ∷ [];
  now = pos 86460;
  leases = [];
  arp = [];
  commits = true;
}

-- The same, and the database refuses the counts.
abbrev refused : Poll
refused = record poll { commits = false }

abbrev as_is : Str → Str
as_is s = s

heard_two : heard names poll.packets ≡ (text "aa", text "a.b") ∷ (text "aa", text "a.b") ∷ []
unfolding parse_dns_query from_utf8 read_labels read_round join IpAddr-discrete ℕ_discrete
heard_two = refl

due : is_due 60 (pos 86400) (pos 86460) ≡ true
unfolding is_due sub_i64 ◌-ℤ◌
due = refl

heard_once : queries_in as_is 60 capturing tables (refused ∷ poll ∷ []) ≡ 2
unfolding flush is_due sub_i64 from_text parse_dns_query from_utf8 read_labels read_round join
    IpAddr-discrete ℕ_discrete ◌-ℤ◌
heard_once = refl

-- A refused flush loses the window.
lost_two : lost_at as_is 60 capturing refused ≡ 2
unfolding is_due sub_i64 from_text parse_dns_query from_utf8 read_labels read_round join
    IpAddr-discrete ℕ_discrete run record_query Key-discrete Str-discrete ◌-ℤ◌
lost_two = refl

rounds_example :
    (c : Capturing) × (t : Tables) × (poll_rounds as_is 60 capturing tables (refused ∷ poll ∷ [])
      ≡ value (c, t))
    × Holds c t
        (0 + queries_in as_is 60 capturing tables (refused ∷ poll ∷ []))
        (0 + lost_in as_is 60 capturing tables (refused ∷ poll ∷ []))
rounds_example =
    poll_rounds-Holds as_is 60 capturing tables (refused ∷ poll ∷ []) 0 0
      (omega (arith, heard_once)) (record { rows = []; are_counts = refl; number = refl })

abbrev key : Str × Str
key = (text "aa", text "a.b")

counted_round_example :
    (c : Capturing) × (t : Tables) × (poll_round as_is 60 capturing tables poll ≡ value (c, t))
    × (c.state ≡ empty)
    × (cell_at (key_on (day_of (pos 86460)) key) t.dns_counts_day
        ≡ int (
            pos (
              0
              + (if poll.commits
                  then (let qs = heard names poll.packets in
                      queries_of (run empty qs).seen_domains key qs)
                  else 0))))
counted_round_example =
    poll_round-counted as_is 60 capturing tables poll key 0 refl due refl
      (omega (arith, ap length heard_two))
