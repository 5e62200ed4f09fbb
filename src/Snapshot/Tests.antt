-- ===== src/Snapshot/Tests.antt =====
-- A snapshot of two clients, one of them named.
use luci_app_overwatch.Base.{◌≡◌, refl, List, [], ◌∷◌, map, arith, ℕ_discrete}
use luci_app_overwatch.Base.Ip.{IpAddr, v4, IpAddr-discrete}
use luci_app_overwatch.Base.Show.{to_string}
use luci_app_overwatch.Base.Sort.{IsFalling, sort_desc}
use luci_app_overwatch.Base.Text.{Str-discrete, text}
use luci_app_overwatch.Account.{ClientStats, no_stats}
use luci_app_overwatch.Names.{NameTable}
use luci_app_overwatch.Snapshot.{view_of, build_snapshot}
use luci_app_overwatch.Snapshot.Order.{busy, build_snapshot-IsFalling}
use luci_app_overwatch.Snapshot.View.{ClientView}
use mathlib.Core.List.{Perm}

abbrev names : NameTable
names = record {
  ip_to_mac = (v4 3232235786, text "aa:bb") ∷ [];
  mac_to_host = (text "aa:bb", text "tv") ∷ [];
}

abbrev stats : List (IpAddr × ClientStats)
stats =
    (v4 3232235785, record no_stats { rx_bps = 5 })
    ∷ (v4 3232235786, record no_stats { rx_bps = 7; tx_bps = 1 })
    ∷ []

abbrev tv : ClientView
tv = record {
  mac = text "aa:bb";
  ip = text "192.168.1.10";
  host = text "tv";
  rx_bps = 7;
  tx_bps = 1;
  rx_total = 0;
  tx_total = 0;
  conns_tcp = 0;
  conns_udp = 0;
}

abbrev unnamed : ClientView
unnamed = record {
  mac = text "192.168.1.9";
  ip = text "192.168.1.9";
  host = [];
  rx_bps = 5;
  tx_bps = 0;
  rx_total = 0;
  tx_total = 0;
  conns_tcp = 0;
  conns_udp = 0;
}

shown : build_snapshot stats names ≡ tv ∷ unnamed ∷ []
unfolding build_snapshot view_of sort_desc to_string IpAddr-discrete ℕ_discrete Str-discrete
shown = refl

build_snapshot_example :
    Perm (build_snapshot stats names) (map (view_of names) stats)
    × IsFalling busy (build_snapshot stats names)
build_snapshot_example = build_snapshot-IsFalling stats names (ground arith)
