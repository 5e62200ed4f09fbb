-- ===== src/Snapshot.antt =====
-- src/snapshot.rs: what the daemon shows of its clients, the busiest first.
pub mod View
pub mod Order
mod Tests
use luci_app_overwatch.Base.{ℕ, ◌+◌, List, [], ◌∷◌, map, Option, none, some}
use luci_app_overwatch.Base.Ip.{IpAddr}
use luci_app_overwatch.Base.Show.{to_string}
use luci_app_overwatch.Base.Sort.{sort_desc}
use luci_app_overwatch.Base.Text.{Str}
use luci_app_overwatch.Base.Words.{add_u64}
use luci_app_overwatch.Account.{ClientStats}
use luci_app_overwatch.Names.{NameTable, mac_for, host_for_mac}
use luci_app_overwatch.Snapshot.View.{ClientView}
use mathlib.Core.Option

-- `mac.as_deref().and_then(|m| names.host_for_mac(m)).unwrap_or("")`
abbrev host_of : NameTable → Option Str → Str
host_of names none = []
host_of names (some m) = Option.get_or (host_for_mac names m) []

-- The view of one entry: a client without a hardware address goes by its IP address.
unfoldable pub view_of : NameTable → IpAddr × ClientStats → ClientView
view_of names (ip, s) =
    let ip_str = to_string ip in
    let mac = mac_for names ip in
    record {
      mac = Option.get_or mac ip_str;
      ip = ip_str;
      host = host_of names mac;
      rx_bps = s.rx_bps;
      tx_bps = s.tx_bps;
      rx_total = s.rx_total;
      tx_total = s.tx_total;
      conns_tcp = s.conns_tcp;
      conns_udp = s.conns_udp;
    }

-- `rx_bps + tx_bps`, by which views are compared.
abbrev pub rate_sum : ClientView → ℕ
rate_sum v = add_u64 v.rx_bps v.tx_bps

unfoldable pub build_snapshot : List (IpAddr × ClientStats) → NameTable → List ClientView
build_snapshot stats names = sort_desc rate_sum (map (view_of names) stats)
