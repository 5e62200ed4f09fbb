-- ===== src/Account/Ledger.antt =====
-- The ledger of a client's connections: the counters that each of them last had, scan after scan.
use luci_app_overwatch.Base.{
  ℕ, ◌+◌, ◌-◌, ◌≤◌, ◌≡◌, ◌≢◌, refl, ap, ◌∙◌, ite, if_pos, if_neg, List, [], ◌∷◌, Option, none, some,
  arith, ℕ_discrete, Option-cases, inl, inr,
}
use luci_app_overwatch.Base.Ip.{IpAddr, IpAddr-discrete}
use luci_app_overwatch.Base.Maps
use luci_app_overwatch.Classify.{ClientDelta, LanClassifier, attribute}
use luci_app_overwatch.Flow.{Flow}
use luci_app_overwatch.Account.{FlowBytes, Scan, since, charge, count_flows}
use luci_app_overwatch.Account.Charges.{bytes_of, charges, count_flow-none, count_flow-some}
use mathlib.Core.Option

-- The counters of connections by their keys.
abbrev pub Counters : Type 0
Counters = List (ℕ × FlowBytes)

abbrev pub counters : ClientDelta → FlowBytes
counters d = record { rx = d.rx; tx = d.tx }

abbrev pub or_zero : Option FlowBytes → FlowBytes
or_zero o = Option.get_or o (record { rx = 0; tx = 0 })

abbrev pub sum_of : (FlowBytes → ℕ) → Counters → ℕ
sum_of f [] = 0
sum_of f ((k, b) ∷ l) = f b + sum_of f l

abbrev pub rx : FlowBytes → ℕ
rx b = b.rx

abbrev pub tx : FlowBytes → ℕ
tx b = b.tx

sum_of-insert :
    (f : FlowBytes → ℕ) (key : ℕ) (b : FlowBytes) (l : Counters)
    → f (or_zero none) ≡ 0
    → sum_of f (Maps.insert ℕ_discrete key b l) + f (or_zero (Maps.lookup ℕ_discrete key l))
      ≡ sum_of f l + f b
sum_of-insert f key b [] z = ground arith
sum_of-insert f key b ((k, v) ∷ l) z = elim (ℕ_discrete k key) [
  | yes e ↦ rw (if_pos (ℕ_discrete k key) e, if_pos (ℕ_discrete k key) e) (omega arith)
  | no ne ↦
      rw (if_neg (ℕ_discrete k key) ne, if_neg (ℕ_discrete k key) ne)
        (omega (arith, sum_of-insert f key b l z))
]

since_lem :
    (o : Option FlowBytes) (d : ClientDelta)
    → since o d ≡ record { rx = d.rx - (or_zero o).rx; tx = d.tx - (or_zero o).tx }
since_lem none d = ground arith
since_lem (some b) d = refl

module _ (c : LanClassifier) where
  abbrev note : ℕ → Flow → Option FlowBytes → Option ClientDelta → Option FlowBytes
  note key f o none = o
  note key f o (some d) = ite (ℕ_discrete f.flow_key key) (some (counters d)) o

  -- The counters under a key that a scan ends with.
  abbrev pub noted : ℕ → Option FlowBytes → List Flow → Option FlowBytes
  noted key o [] = o
  noted key o (f ∷ fs) = noted key (note key f o (attribute c f)) fs

  unfoldable pub AreLast : Counters → List Flow → Type 0
  AreLast last_flows previous =
      (key : ℕ) → Maps.lookup ℕ_discrete key last_flows ≡ noted key none previous

  module _ (client : IpAddr) where
    pub seen-noted :
        (last_flows : Counters) (key : ℕ) (fs : List Flow) (s : Scan)
        → Maps.lookup ℕ_discrete key (count_flows c last_flows s fs).seen
          ≡ noted key (Maps.lookup ℕ_discrete key s.seen) fs
    unfolding count_flows charge
    seen-noted last_flows key [] s = refl
    seen-noted last_flows key (f ∷ fs) s = elim (Option-cases (attribute c f)) [
      | inl e ↦
          rw (e, count_flows, count_flow-none c last_flows client s f e)
            (seen-noted last_flows key fs s)
      | inr (d, e) ↦
          rw (e, count_flows, count_flow-some c last_flows client s f e)
            (seen-noted last_flows key fs (charge last_flows s f.flow_key d)
              ∙ ap (λ o. noted key o fs)
                  (Maps.lookup-upsert ℕ_discrete f.flow_key key (λ _. counters d) s.seen))
    ]

    -- The ledger of a client's connections before and after a scan. A connection of the client is
    -- either new, or was in the previous scan with the counters of the ledger; they do not fall.
    pub data Follows (previous : List Flow) : Counters → List Flow → Counters → Type 0 where
      done : (l : Counters) → Follows previous l [] l
      unmatched :
          (l m : Counters) (f : Flow) (fs : List Flow)
          → attribute c f ≡ none
          → Follows previous l fs m
          → Follows previous l (f ∷ fs) m
      anothers :
          (l m : Counters) (f : Flow) (fs : List Flow) (d : ClientDelta)
          → attribute c f ≡ some d
          → d.client ≢ client
          → Follows previous l fs m
          → Follows previous l (f ∷ fs) m
      own :
          (l m : Counters) (f : Flow) (fs : List Flow) (d : ClientDelta)
          → attribute c f ≡ some d
          → d.client ≡ client
          → noted f.flow_key none previous ≡ Maps.lookup ℕ_discrete f.flow_key l
          → (or_zero (Maps.lookup ℕ_discrete f.flow_key l)).rx ≤ d.rx
          → (or_zero (Maps.lookup ℕ_discrete f.flow_key l)).tx ≤ d.tx
          → Follows previous (Maps.insert ℕ_discrete f.flow_key (counters d) l) fs m
          → Follows previous l (f ∷ fs) m

    -- What a scan charges is what the ledger grows by.
    pub bytes_of-Follows :
        (last_flows : Counters) (previous : List Flow) (l : Counters) (fs : List Flow)
        (m : Counters)
        → AreLast last_flows previous
        → Follows previous l fs m
        → (bytes_of rx (charges c last_flows client fs) + sum_of rx l ≡ sum_of rx m)
          × (bytes_of tx (charges c last_flows client fs) + sum_of tx l ≡ sum_of tx m)
    unfolding AreLast
    bytes_of-Follows last_flows previous l _ _ a (done _) = (omega arith, omega arith)
    bytes_of-Follows last_flows previous l _ m a (unmatched _ _ f fs e h) =
        rw e (bytes_of-Follows last_flows previous l fs m a h)
    bytes_of-Follows last_flows previous l _ m a (anothers _ _ f fs d e ne h) =
        rw (e, if_neg (IpAddr-discrete d.client client) ne)
          (bytes_of-Follows last_flows previous l fs m a h)
    bytes_of-Follows last_flows previous l _ m a (own _ _ f fs d e same k hr ht h) =
        let next = Maps.insert ℕ_discrete f.flow_key (counters d) l in
        let rest = bytes_of-Follows last_flows previous next fs m a h in
        let r = sum_of-insert rx f.flow_key (counters d) l refl in
        let t = sum_of-insert tx f.flow_key (counters d) l refl in
        rw
          (
            e,
            if_pos (IpAddr-discrete d.client client) same,
            a f.flow_key ∙ k,
            since_lem (Maps.lookup ℕ_discrete f.flow_key l) d,
          )
          (omega (arith, rest.0, r), omega (arith, rest.1, t))
