-- ===== src/Api.antt =====
-- src/api.rs: what the daemon answers with; rates are in bits per second there.
pub mod Summary
mod Tests
use luci_app_overwatch.Base.{ℕ, ◌+◌, Bool, List, [], ◌∷◌, map, Option, take}
use luci_app_overwatch.Base.Int.{ℤ}
use luci_app_overwatch.Base.Sort.{sort_desc}
use luci_app_overwatch.Base.Text.{Str}
use luci_app_overwatch.Base.Words.{saturating_add, saturating_mul}
use luci_app_overwatch.Probe.{ProbeStatus}
use luci_app_overwatch.Sample.{Sample}
use luci_app_overwatch.Snapshot.View.{ClientView}
use mathlib.Core.List.{foldl}

pub record ClientApi : Type 0 where
  pub mac : Str
  pub ip : Str
  pub host : Str
  pub rx_bps : ℕ
  pub tx_bps : ℕ
  pub rx_total : ℕ
  pub tx_total : ℕ
  pub conns_tcp : ℕ
  pub conns_udp : ℕ

unfoldable pub client_api : ClientView → ClientApi
client_api v = record {
  mac = v.mac;
  ip = v.ip;
  host = v.host;
  rx_bps = saturating_mul v.rx_bps 8;
  tx_bps = saturating_mul v.tx_bps 8;
  rx_total = v.rx_total;
  tx_total = v.tx_total;
  conns_tcp = v.conns_tcp;
  conns_udp = v.conns_udp;
}

pub record ApiPoint : Type 0 where
  pub ts : ℤ
  pub rx_bytes : ℕ
  pub tx_bytes : ℕ
  pub rx_peak_bits : ℕ
  pub tx_peak_bits : ℕ
  pub conns : ℕ

unfoldable pub api_point : Sample → ApiPoint
api_point s = record {
  ts = s.ts;
  rx_bytes = s.rx_bytes;
  tx_bytes = s.tx_bytes;
  rx_peak_bits = saturating_mul s.rx_peak 8;
  tx_peak_bits = saturating_mul s.tx_peak 8;
  conns = s.conns;
}

pub record TopTalker : Type 0 where
  pub mac : Str
  pub rx_total : ℕ
  pub tx_total : ℕ

pub record Report : Type 0 where
  pub total_rx_bytes : ℕ
  pub total_tx_bytes : ℕ
  pub top : List TopTalker

abbrev pub talker : ClientView → TopTalker
talker c = record { mac = c.mac; rx_total = c.rx_total; tx_total = c.tx_total }

-- What talkers are compared by.
abbrev pub moved : TopTalker → ℕ
moved t = saturating_add t.rx_total t.tx_total

unfoldable pub summary : List ClientView → ℕ → Report
summary clients top_n = record {
  total_rx_bytes = foldl saturating_add 0 (map (λ (c : ClientView). c.rx_total) clients);
  total_tx_bytes = foldl saturating_add 0 (map (λ (c : ClientView). c.tx_total) clients);
  top = take top_n (sort_desc moved (map talker clients));
}

pub record StatusApi : Type 0 where
  pub enabled : Bool
  pub conntrack_acct : Bool
  pub btf : Bool
  pub clsact : Bool
  pub hw_stats_advancing : Option Bool
  pub version : Str

unfoldable pub status_api : Bool → ProbeStatus → Str → StatusApi
status_api enabled p version = record {
  enabled = enabled;
  conntrack_acct = p.conntrack_acct;
  btf = p.btf;
  clsact = p.clsact;
  hw_stats_advancing = p.hw_stats_advancing;
  version = version;
}
