-- ===== src/Main/Tests.antt =====
-- Two rounds of a small daemon.
use luci_app_overwatch.Base.{
  ℕ, ◌+◌, ◌≡◌, ◌⊎◌, refl, true, false, List, [], ◌∷◌, none, some, if◌then◌else◌, ℕ_discrete,
}
use luci_app_overwatch.Base.Int.{pos, sub_i64, ◌-ℤ◌, ◌*ℤ◌, mul_i64, ℤ-discrete}
use luci_app_overwatch.Base.Maps
use luci_app_overwatch.Base.Ratio.{ratio, whole}
use luci_app_overwatch.Base.Text.{Str, Str-discrete, text}
use luci_app_overwatch.Config.{default_config}
use luci_app_overwatch.Control.{Shared}
use luci_app_overwatch.Db.{Tables, Key-discrete, insert_samples, upsert_client}
use luci_app_overwatch.Db.Prune.{kept}
use luci_app_overwatch.Db.Rollup.{get}
use luci_app_overwatch.Dns.Loop.{Poll, begin}
use luci_app_overwatch.Dns.Loop.Heard.{after_round, poll_round-heard}
use luci_app_overwatch.Flow.{End}
use luci_app_overwatch.Main.{
  insert_finalized, upsert_views, is_maintenance, share, start, Reading, round,
}
use luci_app_overwatch.Main.Reached.{
  System, scanned, polled, Reached, started, stepped, with_shared, with_store, IsKept,
  Reached-IsKept,
}
use luci_app_overwatch.Main.Round.{
  newest_row, finalized_by, share_minutes, IsMaintained, round-IsMaintained,
}
use luci_app_overwatch.Main.Seen.{seen, last_view, share_clients}
use luci_app_overwatch.Recorder
use luci_app_overwatch.Recorder.{record_tick}
use luci_app_overwatch.Ring
use luci_app_overwatch.Sample.{aggregate}
use luci_app_overwatch.Snapshot.View.{ClientView}

abbrev no_tables : Tables
no_tables = record {
  clients = [];
  samples_min = [];
  samples_hour = [];
  samples_day = [];
  dns_counts_day = [];
}

abbrev view : Str → ℕ → ClientView
view host n = record {
  mac = text "aa";
  ip = text "192.168.1.9";
  host = host;
  rx_bps = n;
  tx_bps = 1;
  rx_total = n;
  tx_total = 1;
  conns_tcp = 1;
  conns_udp = 0;
}

abbrev fresh : Shared
fresh = record {
  clients = [];
  recorder = Recorder.new 300 1440;
  store = no_tables;
  config = default_config;
  probes = record { conntrack_acct = true; btf = true; clsact = false; hw_stats_advancing = none };
}

-- After a round at second 600 and one at second 602.
abbrev after_two : Shared
after_two =
    (share (share fresh (pos 600) (view [] 10 ∷ []) (pos 600)).0 (pos 600) (view [] 20 ∷ [])
      (pos 602)).0

abbrev snap : List ClientView
snap = view (text "tv") 5 ∷ []

abbrev phone : Str
phone = text "aa"

-- The next minute finalizes the two seconds of the first.
minute_in :
    get (pos 600, phone) (share after_two (pos 600) snap (pos 662)).0.store.samples_min
    ≡ some (record {
      rx_bytes = pos 40;
      tx_bytes = pos 2;
      rx_peak = pos 20;
      tx_peak = pos 1;
      conns = pos 1;
    })
unfolding share insert_finalized upsert_views record_tick insert_samples is_maintenance
    upsert_client Recorder.new Ring.new Ring.push aggregate sub_i64 mul_i64 ◌-ℤ◌ ◌*ℤ◌ Key-discrete
    Str-discrete ℤ-discrete ℕ_discrete
minute_in = refl

minutes_example :
    let row =
      newest_row
        (pos 600, phone)
        (get (pos 600, phone) after_two.store.samples_min)
        (finalized_by after_two snap (pos 662)) in
    get (pos 600, phone) (share after_two (pos 600) snap (pos 662)).0.store.samples_min ≡ (
      if is_maintenance (pos 662) (pos 600)
      then kept (sub_i64 (pos 662) after_two.config.retention.min_secs) (pos 600) row
      else row)
minutes_example = share_minutes after_two (pos 600) snap (pos 662) (pos 600, phone)

share_clients_example :
    Maps.lookup Str-discrete phone (share after_two (pos 600) snap (pos 662)).0.store.clients
    ≡ seen (last_view phone snap) (Maps.lookup Str-discrete phone after_two.store.clients) (pos 662)
share_clients_example = share_clients after_two (pos 600) snap (pos 662) phone

client_seen :
    Maps.lookup Str-discrete phone (share after_two (pos 600) snap (pos 662)).0.store.clients
    ≡ some (record {
      host = text "tv";
      ip = text "192.168.1.9";
      first_seen = pos 600;
      last_seen = pos 662;
    })
unfolding share insert_finalized upsert_views record_tick insert_samples is_maintenance
    upsert_client Recorder.new Ring.new Ring.push aggregate sub_i64 mul_i64 ◌-ℤ◌ ◌*ℤ◌ Key-discrete
    Str-discrete ℤ-discrete ℕ_discrete
client_seen = refl

abbrev as_is : Str → Str
as_is s = s

abbrev hash : End → End → ℕ → ℕ
hash a b n = a.1 + b.1 + n

abbrev first : System ratio hash as_is
first = record {
  daemon = start ratio hash as_is none no_tables [] true [];
  capturing = begin as_is [] [] (pos 600);
}

abbrev reading : Reading ratio hash as_is
reading = record {
  conntrack = some (
      text
        "tcp 6 9 src=192.168.1.9 dst=8.8.8.8 sport=1 dport=2 bytes=7 src=8.8.8.8 dst=192.168.1.9 sport=2 dport=1 bytes=9");
  now_secs = whole (pos 600);
  now_i = pos 600;
  leases = [];
  arp = [];
}

round-IsMaintained_example :
    let d = round ratio hash as_is first.daemon reading in
    ((reading.conntrack ≡ none) × (d ≡ first.daemon))
    ⊎ ((table : Str) × (reading.conntrack ≡ some table)
        × IsMaintained ratio hash as_is first.daemon d (pos 600))
round-IsMaintained_example = round-IsMaintained ratio hash as_is first.daemon reading

abbrev second : System ratio hash as_is
second = record first { daemon = round ratio hash as_is first.daemon reading }

abbrev poll : Poll
poll = record { packets = (0x45 ∷ []) ∷ []; now = pos 700; leases = []; arp = []; commits = true }

abbrev third : System ratio hash as_is
third =
    let shared = second.daemon.shared in
    let r = after_round as_is shared.config.dns_flush_secs second.capturing shared.store poll in
    record {
      daemon = with_shared ratio hash as_is second.daemon (with_store shared r.1);
      capturing = r.0;
    }

-- A scan and a poll after the start.
reached : Reached ratio hash as_is third
reached =
    stepped second third
      (stepped first second
        (started none no_tables [] true [] [] [] (pos 600)
          (record { clients = tt; minutes = tt; hours = tt; days = tt; dns = tt }))
        (scanned reading))
      (polled poll _ _ (
        poll_round-heard as_is second.daemon.shared.config.dns_flush_secs second.capturing
          second.daemon.shared.store poll))

reached_example : IsKept ratio hash as_is third
reached_example = Reached-IsKept ratio hash as_is third reached
