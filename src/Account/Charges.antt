-- ===== src/Account/Charges.antt =====
-- The loop over the flows, client by client: what it leaves for a client is made of the flows that
-- this client is charged for.
use luci_app_overwatch.Base.{
  ℕ, ◌+◌, ◌%◌, ◌^◌, ◌<◌, ◌≡◌, ◌≢◌, refl, ap, ◌∙◌, ite, if_pos, if_neg, List, [], ◌∷◌, Option, none,
  some, arith, ℕ_discrete, Option-cases, inl, inr,
}
use luci_app_overwatch.Base.Ip.{IpAddr, IpAddr-discrete}
use luci_app_overwatch.Base.Maps
use luci_app_overwatch.Base.Maps.{HasKeysOnce, upsert-HasKeysOnce}
use luci_app_overwatch.Classify.{ClientDelta, LanClassifier, attribute}
use luci_app_overwatch.Flow.{Flow, Proto, tcp, udp, other}
use luci_app_overwatch.Account.{
  ClientStats, FlowBytes, Scan, since, plus, charged, charge, count_flow, count_flows, no_stats,
}
use mathlib.Core.List.{foldl}
use mathlib.Core.Option

-- A charge: the protocol and the bytes since the last scan.
abbrev pub Charge : Type 0
Charge = Proto × FlowBytes

-- What charges make of a client's entry, and of its bytes in the interval.
abbrev pub charge_all : Option ClientStats → List Charge → Option ClientStats
charge_all = foldl (λ o ch. some (charged ch.0 ch.1 o))

abbrev pub add_all : (FlowBytes → ℕ) → Option ℕ → List Charge → Option ℕ
add_all f = foldl (λ o ch. some (plus (f ch.1) o))

module _ (c : LanClassifier) (last_flows : List (ℕ × FlowBytes)) (client : IpAddr) where
  abbrev pub charge_of : Flow → List Charge → Option ClientDelta → List Charge
  charge_of f rest none = rest
  charge_of f rest (some d) =
      ite (IpAddr-discrete d.client client)
        ((d.proto, since (Maps.lookup ℕ_discrete f.flow_key last_flows) d) ∷ rest) rest

  -- The charges of a client, in the order of the flows.
  abbrev pub charges : List Flow → List Charge
  charges [] = []
  charges (f ∷ fs) = charge_of f (charges fs) (attribute c f)

  -- A client's part of the loop's variables.
  pub record Reads (s : Scan) (st : Option ClientStats) (rx tx : Option ℕ) : Type 0 where
    pub stats : Maps.lookup IpAddr-discrete client s.stats ≡ st
    pub interval_rx : Maps.lookup IpAddr-discrete client s.interval_rx ≡ rx
    pub interval_tx : Maps.lookup IpAddr-discrete client s.interval_tx ≡ tx
    pub rx_once : HasKeysOnce IpAddr-discrete s.interval_rx
    pub tx_once : HasKeysOnce IpAddr-discrete s.interval_tx

  module _ (s : Scan) (key : ℕ) (d : ClientDelta) (st : Option ClientStats) (rx tx : Option ℕ)
      (r : Reads s st rx tx) where
    moved : FlowBytes
    moved = since (Maps.lookup ℕ_discrete key last_flows) d

    charge-Reads_self :
        d.client ≡ client
        → Reads
            (charge last_flows s key d)
            (some (charged d.proto moved st))
            (some (plus moved.rx rx))
            (some (plus moved.tx tx))
    unfolding charge moved
    charge-Reads_self e = record {
      stats =
          Maps.lookup-upsert_eq IpAddr-discrete d.client client (charged d.proto moved) s.stats e
          ∙ ap (λ o. some (charged d.proto moved o)) r.stats;
      interval_rx =
          Maps.lookup-upsert_eq IpAddr-discrete d.client client (plus moved.rx) s.interval_rx e
          ∙ ap (λ o. some (plus moved.rx o)) r.interval_rx;
      interval_tx =
          Maps.lookup-upsert_eq IpAddr-discrete d.client client (plus moved.tx) s.interval_tx e
          ∙ ap (λ o. some (plus moved.tx o)) r.interval_tx;
      rx_once = upsert-HasKeysOnce IpAddr-discrete d.client (plus moved.rx) s.interval_rx r.rx_once;
      tx_once = upsert-HasKeysOnce IpAddr-discrete d.client (plus moved.tx) s.interval_tx r.tx_once;
    }

    charge-Reads_ne : d.client ≢ client → Reads (charge last_flows s key d) st rx tx
    unfolding charge moved
    charge-Reads_ne ne = record {
      stats =
          Maps.lookup-upsert_ne IpAddr-discrete d.client client (charged d.proto moved) s.stats ne
          ∙ r.stats;
      interval_rx =
          Maps.lookup-upsert_ne IpAddr-discrete d.client client (plus moved.rx) s.interval_rx ne
          ∙ r.interval_rx;
      interval_tx =
          Maps.lookup-upsert_ne IpAddr-discrete d.client client (plus moved.tx) s.interval_tx ne
          ∙ r.interval_tx;
      rx_once = upsert-HasKeysOnce IpAddr-discrete d.client (plus moved.rx) s.interval_rx r.rx_once;
      tx_once = upsert-HasKeysOnce IpAddr-discrete d.client (plus moved.tx) s.interval_tx r.tx_once;
    }

  pub count_flow-none :
      (s : Scan) (f : Flow) → attribute c f ≡ none → count_flow c last_flows s f ≡ s
  unfolding count_flow
  count_flow-none s f e = rw (e, count_flow)

  pub count_flow-some :
      (s : Scan) (f : Flow) {d : ClientDelta}
      → attribute c f ≡ some d
      → count_flow c last_flows s f ≡ charge last_flows s f.flow_key d
  unfolding count_flow
  count_flow-some s f e = rw (e, count_flow)

  -- The loop leaves for a client what its charges make of what was there.
  pub count_flows-Reads :
      (fs : List Flow) (s : Scan) (st : Option ClientStats) (rx tx : Option ℕ)
      → Reads s st rx tx
      → Reads
          (count_flows c last_flows s fs)
          (charge_all st (charges fs))
          (add_all (λ b. b.rx) rx (charges fs))
          (add_all (λ b. b.tx) tx (charges fs))
  unfolding count_flows moved
  count_flows-Reads [] s st rx tx r = r
  count_flows-Reads (f ∷ fs) s st rx tx r = elim (Option-cases (attribute c f)) [
    | inl e ↦ rw (e, count_flow-none s f e) (count_flows-Reads fs s st rx tx r)
    | inr (d, e) ↦ elim (IpAddr-discrete d.client client) [
      | yes same ↦
          rw (e, count_flow-some s f e, if_pos (IpAddr-discrete d.client client) same)
            (count_flows-Reads fs (charge last_flows s f.flow_key d) _ _ _
              (charge-Reads_self s f.flow_key d st rx tx r same))
      | no ne ↦
          rw (e, count_flow-some s f e, if_neg (IpAddr-discrete d.client client) ne)
            (count_flows-Reads fs (charge last_flows s f.flow_key d) st rx tx
              (charge-Reads_ne s f.flow_key d st rx tx r ne))
    ]
  ]

-- Sums over charges, and counts of their protocols.
abbrev pub bytes_of : (FlowBytes → ℕ) → List Charge → ℕ
bytes_of f [] = 0
bytes_of f ((p, b) ∷ l) = f b + bytes_of f l

abbrev pub tcp_of : List Charge → ℕ
tcp_of [] = 0
tcp_of ((tcp, b) ∷ l) = 1 + tcp_of l
tcp_of ((udp, b) ∷ l) = tcp_of l
tcp_of ((other, b) ∷ l) = tcp_of l

abbrev pub udp_of : List Charge → ℕ
udp_of [] = 0
udp_of ((tcp, b) ∷ l) = udp_of l
udp_of ((udp, b) ∷ l) = 1 + udp_of l
udp_of ((other, b) ∷ l) = udp_of l

-- Sums modulo the word, from an entry that is in range.
abbrev pub IsStats : ClientStats → Type 0
IsStats s =
    (s.rx_total < 2 ^ 64) × (s.tx_total < 2 ^ 64) × (s.conns_tcp < 2 ^ 32) × (s.conns_udp < 2 ^ 32)

abbrev pub sums : ClientStats → List Charge → ClientStats
sums s l = record s {
  rx_total = (s.rx_total + bytes_of (λ b. b.rx) l) % 2 ^ 64;
  tx_total = (s.tx_total + bytes_of (λ b. b.tx) l) % 2 ^ 64;
  conns_tcp = (s.conns_tcp + tcp_of l) % 2 ^ 32;
  conns_udp = (s.conns_udp + udp_of l) % 2 ^ 32;
}

sums_one :
    (ch : Charge) (s : ClientStats) (l : List Charge)
    → sums (charged ch.0 ch.1 (some s)) l ≡ sums s (ch ∷ l)
sums_one (tcp, b) s l = ground arith
sums_one (udp, b) s l = ground arith
sums_one (other, b) s l = ground arith

charged-IsStats : (ch : Charge) (s : ClientStats) → IsStats s → IsStats (charged ch.0 ch.1 (some s))
charged-IsStats (tcp, b) s h = omega arith
charged-IsStats (udp, b) s h = omega arith
charged-IsStats (other, b) s h = omega arith

pub charge_all-sums :
    (l : List Charge) (s : ClientStats) → IsStats s → charge_all (some s) l ≡ some (sums s l)
charge_all-sums [] s h = ground arith
charge_all-sums (ch ∷ l) s h =
    charge_all-sums l (charged ch.0 ch.1 (some s)) (charged-IsStats ch s h)
    ∙ ap some (sums_one ch s l)

-- A first charge makes an entry out of nothing.
pub charge_all_new :
    (ch : Charge) (l : List Charge) (o : Option ClientStats)
    → charge_all o (ch ∷ l) ≡ charge_all (some (Option.get_or o no_stats)) (ch ∷ l)
charge_all_new ch l o = refl

pub add_all-sum :
    (f : FlowBytes → ℕ) (l : List Charge) (n : ℕ)
    → n < 2 ^ 64
    → add_all f (some n) l ≡ some ((n + bytes_of f l) % 2 ^ 64)
add_all-sum f [] n h = ap some (omega arith)
add_all-sum f ((p, b) ∷ l) n h =
    add_all-sum f l (plus (f b) (some n)) (omega arith) ∙ ap some (omega arith)

pub add_all_new :
    (f : FlowBytes → ℕ) (ch : Charge) (l : List Charge)
    → add_all f none (ch ∷ l) ≡ some (bytes_of f (ch ∷ l) % 2 ^ 64)
add_all_new f (p, b) l = add_all-sum f l (plus (f b) none) (omega arith) ∙ ap some (omega arith)
