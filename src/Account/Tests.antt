-- ===== src/Account/Tests.antt =====
-- Scans two seconds apart.
use luci_app_overwatch.Base.{ℕ, ◌≡◌, ◌≢◌, refl, List, [], ◌∷◌, some, arith, ℕ_discrete}
use luci_app_overwatch.Base.Ip.{IpAddr, v4, IpAddr-discrete}
use luci_app_overwatch.Base.Int.{pos, ◌+ℤ◌, ◌-ℤ◌, ◌*ℤ◌}
use luci_app_overwatch.Base.Maps
use luci_app_overwatch.Base.Ratio.{ratio, Fraction, whole}
use luci_app_overwatch.Account.{ClientStats, Accountant, no_stats, reset, elapsed, new, update}
use luci_app_overwatch.Account.Charges.{Charge, charges}
use luci_app_overwatch.Account.Update.{settled, update-charged, update-idle}
use luci_app_overwatch.Account.Ledger.{Counters, done, anothers, own}
use luci_app_overwatch.Account.Metered.{
  totals_of, balance, Scans, updates, IsLedger, closed, scanned, updates-totals,
}
use luci_app_overwatch.Classify.{ClientDelta, LanClassifier, attribute, is_lan, contains}
use luci_app_overwatch.Flow.{Flow, tcp}
use mathlib.Core.Option

abbrev lan : LanClassifier
lan = record { prefixes = record { addr = v4 3232235776; prefix_len = 24 } ∷ [] }

abbrev laptop : IpAddr
laptop = v4 3232235876

abbrev phone : IpAddr
phone = v4 3232235877

abbrev flow : Flow
flow = record {
  proto = tcp;
  orig_src = laptop;
  orig_dst = v4 134744072;
  orig_bytes = 300;
  reply_bytes = 5000;
  flow_key = 7;
}

abbrev old : ClientStats
old = record {
  rx_total = 1000;
  tx_total = 100;
  rx_bps = 9;
  tx_bps = 9;
  conns_tcp = 2;
  conns_udp = 0;
}

-- After a first scan, at second 10.
abbrev account : Accountant ratio
account = record {
  classifier = lan;
  last_flows = (7, record { rx = 1000; tx = 100 }) ∷ [];
  stats = (laptop, old) ∷ (phone, old) ∷ [];
  last_ts = some (whole (pos 10));
}

abbrev now : Fraction
now = whole (pos 12)

abbrev laptop_charges : List Charge
laptop_charges = (tcp, record { rx = 4000; tx = 200 }) ∷ []

its_charges : charges lan account.last_flows laptop (flow ∷ []) ≡ laptop_charges
unfolding attribute is_lan contains IpAddr-discrete ℕ_discrete
its_charges = refl

no_charges : charges lan account.last_flows phone (flow ∷ []) ≡ []
unfolding attribute is_lan contains IpAddr-discrete ℕ_discrete
no_charges = refl

charged_example :
    Maps.lookup IpAddr-discrete laptop (update ratio account (flow ∷ []) now).stats
    ≡ some (
        settled ratio
          (elapsed ratio account.last_ts now)
          (Option.get_or (Maps.lookup IpAddr-discrete laptop account.stats) no_stats)
          (charges lan account.last_flows laptop (flow ∷ [])))
unfolding IpAddr-discrete ℕ_discrete
charged_example =
    update-charged ratio account (flow ∷ []) now laptop (tcp, record { rx = 4000; tx = 200 }) []
      its_charges (omega arith)

idle_example :
    Maps.lookup IpAddr-discrete phone (update ratio account (flow ∷ []) now).stats
    ≡ Option.map reset (Maps.lookup IpAddr-discrete phone account.stats)
idle_example = update-idle ratio account (flow ∷ []) now phone no_charges

updated :
    Maps.lookup IpAddr-discrete laptop (update ratio account (flow ∷ []) now).stats
    ≡ some (record {
      rx_total = 5000;
      tx_total = 300;
      rx_bps = 2000;
      tx_bps = 100;
      conns_tcp = 1;
      conns_udp = 0;
    })
unfolding update elapsed attribute is_lan contains IpAddr-discrete ℕ_discrete ◌+ℤ◌ ◌-ℤ◌ ◌*ℤ◌
updated = refl

-- A scan of one connection, then one that also has a new connection and one of another client.
abbrev earlier : Flow
earlier = record flow { orig_bytes = 100; reply_bytes = 1000 }

abbrev of_phone : Flow
of_phone = record flow { orig_src = phone; flow_key = 8 }

abbrev newer : Flow
newer = record flow { orig_bytes = 60; reply_bytes = 40; flow_key = 9 }

abbrev scans : Scans ratio
scans = (earlier ∷ [], whole (pos 10)) ∷ (of_phone ∷ flow ∷ newer ∷ [], now) ∷ []

abbrev delta : IpAddr → ℕ → ℕ → ClientDelta
delta client rx tx = record { client = client; rx = rx; tx = tx; proto = tcp }

abbrev ledger : Counters
ledger = (7, record { rx = 5000; tx = 300 }) ∷ (9, record { rx = 40; tx = 60 }) ∷ []

others : phone ≢ laptop
others = ground arith

is_ledger : IsLedger ratio laptop lan [] [] scans ledger
unfolding attribute is_lan contains IpAddr-discrete ℕ_discrete
is_ledger =
    scanned _ _ _ _ _ _ _
      (own _ _ earlier _ (delta laptop 1000 100) refl refl refl (omega arith) (omega arith)
        (done _))
      (scanned _ _ _ _ _ _ _
        (anothers _ _ of_phone _ (delta phone 5000 300) refl others (
          own _ _ flow _ (delta laptop 5000 300) refl refl refl (omega arith) (omega arith) (
            own _ _ newer _ (delta laptop 40 60) refl refl refl (omega arith) (omega arith)
              (done _))))
        (closed _ _))

updates_example :
    totals_of (Maps.lookup IpAddr-discrete laptop (updates ratio (new ratio lan) scans).stats)
    ≡ balance ledger
updates_example = updates-totals ratio laptop lan ledger scans is_ledger
