-- ===== src/Api/Tests.antt =====
-- The summary of three clients.
use luci_app_overwatch.Base.{ℕ, ◌≡◌, min, List, [], ◌∷◌, ◌++◌, map, length}
use luci_app_overwatch.Base.Sort.{IsFalling}
use luci_app_overwatch.Base.Words.{u64_max}
use luci_app_overwatch.Api.{TopTalker, talker, moved, summary}
use luci_app_overwatch.Api.Summary.{summary-top}
use luci_app_overwatch.Snapshot.View.{ClientView}
use mathlib.Core.List.{Perm}

abbrev client : ℕ → ClientView
client n = record {
  mac = n ∷ [];
  ip = [];
  host = [];
  rx_bps = 0;
  tx_bps = 0;
  rx_total = n;
  tx_total = 1;
  conns_tcp = 0;
  conns_udp = 0;
}

abbrev clients : List ClientView
clients = client 5 ∷ client u64_max ∷ client 9 ∷ []

summary-top_example :
    (length (summary clients 2).top ≡ min 2 (length clients))
    × ((rest : List TopTalker) × Perm ((summary clients 2).top ++ rest) (map talker clients)
        × IsFalling moved ((summary clients 2).top ++ rest))
summary-top_example = summary-top clients 2
