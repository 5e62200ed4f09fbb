-- ===== src/Account/Metered.antt =====
-- Scan after scan: what a client's totals come to.
use luci_app_overwatch.Base.{
  ◌+◌, ◌%◌, ◌^◌, ◌≡◌, refl, subst, ap, ◌∙◌, List, [], ◌∷◌, Option, none, some, arith,
}
use luci_app_overwatch.Base.Float.{F64}
use luci_app_overwatch.Base.Ip.{IpAddr, IpAddr-discrete}
use luci_app_overwatch.Base.Maps
use luci_app_overwatch.Classify.{LanClassifier}
use luci_app_overwatch.Flow.{Flow}
use luci_app_overwatch.Account.{
  ClientStats, FlowBytes, Accountant, no_stats, elapsed, new, reset, update,
}
use luci_app_overwatch.Account.Charges.{Charge, bytes_of, charges}
use luci_app_overwatch.Account.Update.{HasTotals, settled, update-charged, update-idle}
use luci_app_overwatch.Account.Ledger.{
  Counters, rx, tx, sum_of, seen-noted, Follows, AreLast, bytes_of-Follows,
}
use mathlib.Core.Option

-- What a client has moved by its entry.
abbrev pub totals_of : Option ClientStats → FlowBytes
totals_of o = record {
  rx = (Option.get_or o no_stats).rx_total;
  tx = (Option.get_or o no_stats).tx_total;
}

-- The sums of a ledger, modulo the word.
abbrev pub balance : Counters → FlowBytes
balance l = record { rx = sum_of rx l % 2 ^ 64; tx = sum_of tx l % 2 ^ 64 }

totals-HasTotals : (o : Option ClientStats) (l : Counters) → totals_of o ≡ balance l → HasTotals o
totals-HasTotals none l e = tt
totals-HasTotals (some s) l e =
    let r : s.rx_total ≡ sum_of rx l % 2 ^ 64 = ap rx e in
    let t : s.tx_total ≡ sum_of tx l % 2 ^ 64 = ap tx e in omega arith

totals-reset : (o : Option ClientStats) → totals_of (Option.map reset o) ≡ totals_of o
totals-reset none = refl
totals-reset (some s) = refl

module _ (float : F64) where
  open float use {F}

  abbrev pub Scans : Type 0
  Scans = List (List Flow × F)

  unfoldable pub updates : Accountant float → Scans → Accountant float
  updates a [] = a
  updates a ((flows, now_secs) ∷ scans) = updates (update float a flows now_secs) scans

  module _ (client : IpAddr) where
    -- `here` is what the scan charges the client with.
    totals-update :
        (a : Accountant float) (flows : List Flow) (now_secs : F) (l m : Counters)
        (here : List Charge)
        → charges a.classifier a.last_flows client flows ≡ here
        → totals_of (Maps.lookup IpAddr-discrete client a.stats) ≡ balance l
        → (bytes_of rx here + sum_of rx l ≡ sum_of rx m)
        → (bytes_of tx here + sum_of tx l ≡ sum_of tx m)
        → totals_of (Maps.lookup IpAddr-discrete client (update float a flows now_secs).stats)
          ≡ balance m
    totals-update a flows now_secs l m [] n e r t =
        let rx_same : sum_of rx l ≡ sum_of rx m = omega (arith, r) in
        let tx_same : sum_of tx l ≡ sum_of tx m = omega (arith, t) in
        ap totals_of (update-idle float a flows now_secs client n)
        ∙ totals-reset (Maps.lookup IpAddr-discrete client a.stats)
        ∙ e
        ∙ rw (rx_same, tx_same) refl
    totals-update a flows now_secs l m (ch ∷ more) n e r t =
        let old : ClientStats =
          Option.get_or (Maps.lookup IpAddr-discrete client a.stats) no_stats in
        let old_rx : old.rx_total ≡ sum_of rx l % 2 ^ 64 = ap rx e in
        let old_tx : old.tx_total ≡ sum_of tx l % 2 ^ 64 = ap tx e in
        let now_rx : (old.rx_total + bytes_of rx (ch ∷ more)) % 2 ^ 64 ≡ sum_of rx m % 2 ^ 64 =
          omega (arith, r) in
        let now_tx : (old.tx_total + bytes_of tx (ch ∷ more)) % 2 ^ 64 ≡ sum_of tx m % 2 ^ 64 =
          omega (arith, t) in
        ap totals_of (
          update-charged float a flows now_secs client ch more n
            (totals-HasTotals (Maps.lookup IpAddr-discrete client a.stats) l e))
        ∙ ap (λ x. totals_of (some (settled float (elapsed float a.last_ts now_secs) old x))) n
        ∙ rw (now_rx, now_tx) refl

    -- The ledger of a client before and after some scans.
    pub data IsLedger (c : LanClassifier) : List Flow → Counters → Scans → Counters → Type 0 where
      closed : (previous : List Flow) (l : Counters) → IsLedger c previous l [] l
      scanned :
          (previous : List Flow) (l m last : Counters) (flows : List Flow) (now_secs : F)
          (scans : Scans)
          → Follows c client previous l flows m
          → IsLedger c flows m scans last
          → IsLedger c previous l ((flows, now_secs) ∷ scans) last

    AreLast-update :
        (a : Accountant float) (flows : List Flow) (now_secs : F)
        → AreLast a.classifier (update float a flows now_secs).last_flows flows
    unfolding AreLast update
    AreLast-update a flows now_secs key = seen-noted a.classifier client a.last_flows key flows _

    update_classifier :
        (a : Accountant float) (flows : List Flow) (now_secs : F)
        → (update float a flows now_secs).classifier ≡ a.classifier
    unfolding update
    update_classifier a flows now_secs = refl

    updates-balance :
        (c : LanClassifier) (a : Accountant float) (previous : List Flow) (l last : Counters)
        (scans : Scans)
        → a.classifier ≡ c
        → AreLast c a.last_flows previous
        → totals_of (Maps.lookup IpAddr-discrete client a.stats) ≡ balance l
        → IsLedger c previous l scans last
        → totals_of (Maps.lookup IpAddr-discrete client (updates a scans).stats) ≡ balance last
    unfolding updates
    updates-balance c a _ _ _ _ e p b (closed previous l) = b
    updates-balance c a _ _ _ _ e p b (scanned previous l m last flows now_secs scans h rest) =
        let moved = bytes_of-Follows c client a.last_flows previous l flows m p h in
        let same : charges a.classifier a.last_flows client flows
            ≡ charges c a.last_flows client flows =
          ap (λ x. charges x a.last_flows client flows) e in
        let noted_next =
          subst (λ x. AreLast x (update float a flows now_secs).last_flows flows) e
            (AreLast-update a flows now_secs) in
        updates-balance c (update float a flows now_secs) flows m last scans
          (update_classifier a flows now_secs ∙ e) noted_next
          (totals-update a flows now_secs l m _ same b moved.0 moved.1) rest

    -- In a run from the start in which every connection of a client, under a key of its own, is either
    -- new or was in the scan before, with counters that do not fall, the client's totals are the sums
    -- of the counters that each of its connections last had, modulo the word: no byte is lost between
    -- two scans and none is counted twice, however many connections come and go, whatever the other
    -- clients do, and whatever the clock says.
    pub updates-totals :
        (c : LanClassifier) (last : Counters) (scans : Scans)
        → IsLedger c [] [] scans last
        → totals_of (Maps.lookup IpAddr-discrete client (updates (new float c) scans).stats)
          ≡ balance last
    unfolding new AreLast
    updates-totals c last scans h =
        updates-balance c (new float c) [] [] last scans refl (λ key. refl) refl h
