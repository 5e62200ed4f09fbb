-- ===== src/Account.antt =====
-- src/account.rs: the running totals, rates and connection counts of every client.
pub mod Charges
pub mod Update
pub mod Ledger
pub mod Metered
mod Tests
use luci_app_overwatch.Base.{
  ℕ, ◌+◌, ◌-◌, ◌≡◌, Bool, true, false, ite, List, [], ◌∷◌, map, Option, none, some, if◌then◌else◌,
  ℕ_discrete,
}
use luci_app_overwatch.Base.Float.{F64}
use luci_app_overwatch.Base.Ip.{IpAddr, IpAddr-discrete}
use luci_app_overwatch.Base.Maps
use luci_app_overwatch.Base.Words.{add_u32, add_u64, saturating_sub}
use luci_app_overwatch.Classify.{ClientDelta, LanClassifier, attribute}
use luci_app_overwatch.Flow.{Flow, Proto, tcp, udp, other}
use mathlib.Core.Option

-- Totals in bytes, rates in bytes per second (`u64`), connection counts (`u32`).
pub record ClientStats : Type 0 where
  pub rx_total : ℕ
  pub tx_total : ℕ
  pub rx_bps : ℕ
  pub tx_bps : ℕ
  pub conns_tcp : ℕ
  pub conns_udp : ℕ

-- `ClientStats::default()`
abbrev pub no_stats : ClientStats
no_stats = record {
  rx_total = 0;
  tx_total = 0;
  rx_bps = 0;
  tx_bps = 0;
  conns_tcp = 0;
  conns_udp = 0;
}

pub record FlowBytes : Type 0 where
  pub rx : ℕ
  pub tx : ℕ

abbrev pub Stats : Type 0
Stats = List (IpAddr × ClientStats)

-- The first loop of `update`: rates and counts start at zero, totals stay.
abbrev pub reset : ClientStats → ClientStats
reset s = record s { rx_bps = 0; tx_bps = 0; conns_tcp = 0; conns_udp = 0 }

unfoldable pub reset_all : Stats → Stats
reset_all = map (λ (e : IpAddr × ClientStats). (e.0, reset e.1))

-- The variables of the loop over the flows.
pub record Scan : Type 0 where
  pub stats : Stats
  pub interval_rx : List (IpAddr × ℕ)
  pub interval_tx : List (IpAddr × ℕ)
  pub seen : List (ℕ × FlowBytes)

abbrev pub count_conn : Proto → ClientStats → ClientStats
count_conn tcp s = record s { conns_tcp = add_u32 s.conns_tcp 1 }
count_conn udp s = record s { conns_udp = add_u32 s.conns_udp 1 }
count_conn other s = s

-- What a flow moved since the last scan: all that it moved, if it was not there.
abbrev pub since : Option FlowBytes → ClientDelta → FlowBytes
since (some prev) d = record { rx = saturating_sub d.rx prev.rx; tx = saturating_sub d.tx prev.tx }
since none d = record { rx = d.rx; tx = d.tx }

abbrev pub add_totals : FlowBytes → ClientStats → ClientStats
add_totals b s = record s { rx_total = add_u64 s.rx_total b.rx; tx_total = add_u64 s.tx_total b.tx }

abbrev pub plus : ℕ → Option ℕ → ℕ
plus n o = add_u64 (Option.get_or o 0) n

abbrev pub charged : Proto → FlowBytes → Option ClientStats → ClientStats
charged proto b o = add_totals b (count_conn proto (Option.get_or o no_stats))

-- The loop's body for a flow that a client is charged for.
unfoldable pub charge : List (ℕ × FlowBytes) → Scan → ℕ → ClientDelta → Scan
charge last_flows s key d =
    let b = since (Maps.lookup ℕ_discrete key last_flows) d in
    record {
      stats = Maps.upsert IpAddr-discrete d.client (charged d.proto b) s.stats;
      interval_rx = Maps.upsert IpAddr-discrete d.client (plus b.rx) s.interval_rx;
      interval_tx = Maps.upsert IpAddr-discrete d.client (plus b.tx) s.interval_tx;
      seen = Maps.insert ℕ_discrete key (record { rx = d.rx; tx = d.tx }) s.seen;
    }

unfoldable pub count_flow : LanClassifier → List (ℕ × FlowBytes) → Scan → Flow → Scan
unfolding charge
count_flow c last_flows s flow = elim (attribute c flow) [
  | none ↦ s
  | some d ↦ charge last_flows s flow.flow_key d
]

unfoldable pub count_flows : LanClassifier → List (ℕ × FlowBytes) → Scan → List Flow → Scan
unfolding count_flow
count_flows c last_flows s [] = s
count_flows c last_flows s (f ∷ fs) = count_flows c last_flows (count_flow c last_flows s f) fs

-- `for (client, bytes) in &interval { if let Some(s) = self.stats.get_mut(client) { … } }`
abbrev pub set_rates : (ℕ → ClientStats → ClientStats) → List (IpAddr × ℕ) → Stats → Stats
set_rates f [] stats = stats
set_rates f ((client, bytes) ∷ m) stats =
    set_rates f m (Maps.adjust IpAddr-discrete client (f bytes) stats)

module _ (float : F64) where
  open float use {F, of_uint, sub, div, gt, to_uint}

  pub record Accountant : Type 0 where
    pub classifier : LanClassifier
    pub last_flows : List (ℕ × FlowBytes)
    pub stats : Stats
    pub last_ts : Option F

  unfoldable pub new : LanClassifier → Accountant
  new c = record { classifier = c; last_flows = []; stats = []; last_ts = none }

  -- `self.last_ts.map(|t| now_secs - t).filter(|d| *d > 0.0)`
  unfoldable pub elapsed : Option F → F → Option F
  elapsed none now_secs = none
  elapsed (some t) now_secs =
      if gt (sub now_secs t) (of_uint 0) then some (sub now_secs t) else none

  -- `(*bytes as f64 / dt) as u64`
  abbrev pub rate : F → ℕ → ℕ
  rate dt bytes = to_uint (div (of_uint bytes) dt)

  abbrev pub put_rx : F → ℕ → ClientStats → ClientStats
  put_rx dt bytes e = record e { rx_bps = rate dt bytes }

  abbrev pub put_tx : F → ℕ → ClientStats → ClientStats
  put_tx dt bytes e = record e { tx_bps = rate dt bytes }

  abbrev pub with_rates : Option F → Scan → Stats
  with_rates none s = s.stats
  with_rates (some dt) s =
      set_rates (put_tx dt) s.interval_tx (set_rates (put_rx dt) s.interval_rx s.stats)

  unfoldable pub update : Accountant → List Flow → F → Accountant
  unfolding reset_all count_flows elapsed
  update a flows now_secs =
      let s =
        count_flows a.classifier a.last_flows
          (record { stats = reset_all a.stats; interval_rx = []; interval_tx = []; seen = [] })
          flows in
      record a {
        last_flows = s.seen;
        stats = with_rates (elapsed a.last_ts now_secs) s;
        last_ts = some now_secs;
      }
