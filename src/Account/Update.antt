-- ===== src/Account/Update.antt =====
-- One scan: what `update` makes of a client's totals, counts and rates.
use luci_app_overwatch.Base.{
  ℕ, ◌+◌, ◌%◌, ◌^◌, ◌<◌, ◌≡◌, refl, sym, subst, ap, ◌∙◌, if_pos, if_neg, List, [], ◌∷◌, Option,
  none, some, arith,
}
use luci_app_overwatch.Base.Float.{F64}
use luci_app_overwatch.Base.Ip.{IpAddr, IpAddr-discrete}
use luci_app_overwatch.Base.Maps
use luci_app_overwatch.Base.Maps.{HasKeysOnce}
use luci_app_overwatch.Flow.{Flow}
use luci_app_overwatch.Account.{
  ClientStats, FlowBytes, Scan, Stats, Accountant, no_stats, reset, reset_all, set_rates, put_rx,
  put_tx, rate, with_rates, elapsed, count_flows, update,
}
use luci_app_overwatch.Account.Charges.{
  Charge, charges, charge_all, add_all, Reads, count_flows-Reads, bytes_of, tcp_of, udp_of, IsStats,
  sums, charge_all-sums, charge_all_new, add_all_new,
}
use mathlib.Core.Option

lookup-reset_all :
    (client : IpAddr) (m : Stats)
    → Maps.lookup IpAddr-discrete client (reset_all m)
      ≡ Option.map reset (Maps.lookup IpAddr-discrete client m)
unfolding reset_all
lookup-reset_all client [] = refl
lookup-reset_all client ((j, s) ∷ m) = ground (arith, lookup-reset_all client m)

-- A rate is set once, from the client's bytes in the interval.
abbrev put_of : (ℕ → ClientStats → ClientStats) → Option ℕ → ClientStats → ClientStats
put_of f none s = s
put_of f (some n) s = f n s

map-put_none :
    (f : ℕ → ClientStats → ClientStats) (o : Option ClientStats) → o ≡ Option.map (put_of f none) o
map-put_none f none = refl
map-put_none f (some s) = refl

lookup-set_rates :
    (f : ℕ → ClientStats → ClientStats) (m : List (IpAddr × ℕ)) (stats : Stats) (client : IpAddr)
    → HasKeysOnce IpAddr-discrete m
    → Maps.lookup IpAddr-discrete client (set_rates f m stats)
      ≡ Option.map
          (put_of f (Maps.lookup IpAddr-discrete client m))
          (Maps.lookup IpAddr-discrete client stats)
lookup-set_rates f [] stats client h = map-put_none f (Maps.lookup IpAddr-discrete client stats)
lookup-set_rates f ((j, n) ∷ m) stats client h =
    lookup-set_rates f m (Maps.adjust IpAddr-discrete j (f n) stats) client h.1
    ∙ ap (Option.map (put_of f (Maps.lookup IpAddr-discrete client m)))
        (Maps.lookup-adjust IpAddr-discrete j client (f n) stats)
    ∙ elim (IpAddr-discrete j client) [
      | yes e ↦
          let gone : Maps.lookup IpAddr-discrete client m ≡ none =
            subst (λ k. Maps.lookup IpAddr-discrete k m ≡ none) e h.0 in
          rw (if_pos (IpAddr-discrete j client) e, if_pos (IpAddr-discrete j client) e, gone)
            (sym (map-put_none f (Option.map (f n) (Maps.lookup IpAddr-discrete client stats))))
      | no ne ↦ rw (if_neg (IpAddr-discrete j client) ne, if_neg (IpAddr-discrete j client) ne)
    ]

-- The rates that an interval's bytes give: none without a time that has passed.
abbrev rate_for : (float : F64) → Option float.F → Option ℕ → ℕ
rate_for float none n = 0
rate_for float (some dt) none = 0
rate_for float (some dt) (some n) = rate float dt n

with_rates_lem :
    (float : F64) (dt : Option float.F) (client : IpAddr) (s : Scan) (st : ClientStats) (rx tx : ℕ)
    → HasKeysOnce IpAddr-discrete s.interval_rx
    → HasKeysOnce IpAddr-discrete s.interval_tx
    → Maps.lookup IpAddr-discrete client s.stats ≡ some st
    → Maps.lookup IpAddr-discrete client s.interval_rx ≡ some rx
    → Maps.lookup IpAddr-discrete client s.interval_tx ≡ some tx
    → (st.rx_bps ≡ 0) × (st.tx_bps ≡ 0)
    → Maps.lookup IpAddr-discrete client (with_rates float dt s)
      ≡ some
          (record st { rx_bps = rate_for float dt (some rx); tx_bps = rate_for float dt (some tx) })
with_rates_lem float none client s st rx tx hr ht e er et z = e ∙ ground arith
with_rates_lem float (some dt) client s st rx tx hr ht e er et z =
    lookup-set_rates (put_tx float dt) s.interval_tx _ client ht
    ∙ ap (Option.map (put_of (put_tx float dt) (Maps.lookup IpAddr-discrete client s.interval_tx)))
        (lookup-set_rates (put_rx float dt) s.interval_rx s.stats client hr)
    ∙ rw (e, er, et) refl

-- An account whose totals are `u64` values.
abbrev pub HasTotals : Option ClientStats → Type 0
HasTotals none = Unit
HasTotals (some s) = (s.rx_total < 2 ^ 64) × (s.tx_total < 2 ^ 64)

reset-IsStats :
    (o : Option ClientStats) → HasTotals o → IsStats (Option.get_or (Option.map reset o) no_stats)
reset-IsStats none h = omega arith
reset-IsStats (some s) h = omega arith

-- The entry of a client after a scan in which it is charged with `l`.
abbrev pub settled : (float : F64) → Option float.F → ClientStats → List Charge → ClientStats
settled float dt old l =
    let rx = bytes_of (λ b. b.rx) l in
    let tx = bytes_of (λ b. b.tx) l in
    record {
      rx_total = (old.rx_total + rx) % 2 ^ 64;
      tx_total = (old.tx_total + tx) % 2 ^ 64;
      rx_bps = rate_for float dt (some (rx % 2 ^ 64));
      tx_bps = rate_for float dt (some (tx % 2 ^ 64));
      conns_tcp = tcp_of l % 2 ^ 32;
      conns_udp = udp_of l % 2 ^ 32;
    }

abbrev pub opened : Option ClientStats → ClientStats
opened o = Option.get_or (Option.map reset o) no_stats

settled_lem :
    (float : F64) (dt : Option float.F) (o : Option ClientStats) (l : List Charge)
    → record (sums (opened o) l) {
      rx_bps = rate_for float dt (some (bytes_of (λ b. b.rx) l % 2 ^ 64));
      tx_bps = rate_for float dt (some (bytes_of (λ b. b.tx) l % 2 ^ 64));
    }
      ≡ settled float dt (Option.get_or o no_stats) l
settled_lem float dt none l = ground arith
settled_lem float dt (some s) l = ground arith

sums_rates :
    (o : Option ClientStats) (l : List Charge)
    → ((sums (opened o) l).rx_bps ≡ 0) × ((sums (opened o) l).tx_bps ≡ 0)
sums_rates none l = (refl, refl)
sums_rates (some s) l = (refl, refl)

charge_all-opened :
    (ch : Charge) (l here : List Charge) (o : Option ClientStats)
    → here ≡ ch ∷ l
    → HasTotals o
    → charge_all (Option.map reset o) here ≡ some (sums (opened o) here)
charge_all-opened ch l here o e h =
    subst (λ x. charge_all (Option.map reset o) x ≡ some (sums (opened o) x)) (sym e)
      (charge_all_new ch l (Option.map reset o)
        ∙ charge_all-sums (ch ∷ l) (opened o) (reset-IsStats o h))

add_all_here :
    (f : FlowBytes → ℕ) (ch : Charge) (l here : List Charge)
    → here ≡ ch ∷ l
    → add_all f none here ≡ some (bytes_of f here % 2 ^ 64)
add_all_here f ch l here e =
    subst (λ x. add_all f none x ≡ some (bytes_of f x % 2 ^ 64)) (sym e) (add_all_new f ch l)

with_rates_idle :
    (float : F64) (dt : Option float.F) (client : IpAddr) (s : Scan) (o : Option ClientStats)
    → HasKeysOnce IpAddr-discrete s.interval_rx
    → HasKeysOnce IpAddr-discrete s.interval_tx
    → Maps.lookup IpAddr-discrete client s.stats ≡ o
    → Maps.lookup IpAddr-discrete client s.interval_rx ≡ none
    → Maps.lookup IpAddr-discrete client s.interval_tx ≡ none
    → Maps.lookup IpAddr-discrete client (with_rates float dt s) ≡ o
with_rates_idle float none client s o hr ht e er et = e
with_rates_idle float (some dt) client s o hr ht e er et =
    lookup-set_rates (put_tx float dt) s.interval_tx _ client ht
    ∙ ap (Option.map (put_of (put_tx float dt) (Maps.lookup IpAddr-discrete client s.interval_tx)))
        (lookup-set_rates (put_rx float dt) s.interval_rx s.stats client hr)
    ∙ rw (e, er, et)
        (sym (map-put_none (put_tx float dt) (Option.map (put_of (put_rx float dt) none) o))
          ∙ sym (map-put_none (put_rx float dt) o))

module _ (float : F64) (a : Accountant float) (flows : List Flow) (now_secs : float.F)
    (client : IpAddr) where
  after_flows : Scan
  after_flows =
      count_flows a.classifier a.last_flows
        (record { stats = reset_all a.stats; interval_rx = []; interval_tx = []; seen = [] }) flows

  abbrev old_stats : Option ClientStats
  old_stats = Maps.lookup IpAddr-discrete client a.stats

  abbrev here : List Charge
  here = charges a.classifier a.last_flows client flows

  reads :
      Reads a.classifier a.last_flows client after_flows
        (charge_all (Option.map reset old_stats) here)
        (add_all (λ b. b.rx) none here)
        (add_all (λ b. b.tx) none here)
  unfolding after_flows
  reads = count_flows-Reads a.classifier a.last_flows client flows _ _ none none (record {
    stats = lookup-reset_all client a.stats;
    interval_rx = refl;
    interval_tx = refl;
    rx_once = tt;
    tx_once = tt;
  })

  -- A client that the scan charges, and whose totals so far are `u64` values, gets the bytes of its
  -- charges on top of its totals, modulo the word, the number of its connections by protocol, and as
  -- rates the bytes over the time that has passed (zero on the first scan and where no time passed).
  pub update-charged :
      (ch : Charge) (l : List Charge)
      → here ≡ ch ∷ l
      → HasTotals old_stats
      → Maps.lookup IpAddr-discrete client (update float a flows now_secs).stats
        ≡ some (
            settled float
              (elapsed float a.last_ts now_secs)
              (Option.get_or old_stats no_stats)
              here)
  unfolding update after_flows
  update-charged ch l e h =
      with_rates_lem float (elapsed float a.last_ts now_secs) client after_flows
        (sums (opened old_stats) here) _ _ reads.rx_once reads.tx_once
        (reads.stats ∙ charge_all-opened ch l here old_stats e h)
        (reads.interval_rx ∙ add_all_here (λ b. b.rx) ch l here e)
        (reads.interval_tx ∙ add_all_here (λ b. b.tx) ch l here e) (sums_rates old_stats here)
      ∙ ap some (settled_lem float (elapsed float a.last_ts now_secs) old_stats here)

  -- A client that the scan does not charge keeps its totals, with no rate and no connection; one
  -- that has no entry gets none.
  pub update-idle :
      here ≡ []
      → Maps.lookup IpAddr-discrete client (update float a flows now_secs).stats
        ≡ Option.map reset old_stats
  unfolding update after_flows
  update-idle e =
      with_rates_idle float (elapsed float a.last_ts now_secs) client after_flows
        (Option.map reset old_stats) reads.rx_once reads.tx_once
        (reads.stats ∙ ap (charge_all (Option.map reset old_stats)) e)
        (reads.interval_rx ∙ ap (add_all (λ b. b.rx) none) e)
        (reads.interval_tx ∙ ap (add_all (λ b. b.tx) none) e)
