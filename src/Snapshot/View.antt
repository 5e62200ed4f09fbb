-- ===== src/Snapshot/View.antt =====
-- src/snapshot.rs, `ClientView`: what the daemon shows of one client.
use luci_app_overwatch.Base.{ℕ}
use luci_app_overwatch.Base.Text.{Str}

-- The rates are bytes per second, the totals bytes (`u64`); the connection counts are `u32`.
pub record ClientView : Type 0 where
  pub mac : Str
  pub ip : Str
  pub host : Str
  pub rx_bps : ℕ
  pub tx_bps : ℕ
  pub rx_total : ℕ
  pub tx_total : ℕ
  pub conns_tcp : ℕ
  pub conns_udp : ℕ
