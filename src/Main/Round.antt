-- ===== src/Main/Round.antt =====
-- What a round does to the database.
use luci_app_overwatch.Base.{
  ◌≡◌, ◌⊎◌, refl, ap, ◌∙◌, true, false, ite, List, [], ◌∷◌, Option, none, some, if◌then◌else◌,
  arith, Bool-cases, Option-cases, inl, inr, ℕ,
}
use luci_app_overwatch.Base.Float.{F64}
use luci_app_overwatch.Base.Int.{ℤ, pos, negsuc, sub_i64, ltb_ℤ, leb_ℤ, ◌-ℤ◌}
use luci_app_overwatch.Base.Maps
use luci_app_overwatch.Base.Text.{Str}
use luci_app_overwatch.Config.{Retention}
use luci_app_overwatch.Control.{Shared}
use luci_app_overwatch.Db.{
  Key, Key-discrete, Traffic, Table, Tables, DnsKey, DnsKey-discrete, traffic_of, insert_samples,
  rollup_tier, rollup, roll_hours, roll_days, prune,
}
use luci_app_overwatch.Db.Prune.{lookup-prune, kept}
use luci_app_overwatch.Db.Rollup.{get}
use luci_app_overwatch.Flow.{End}
use luci_app_overwatch.Main.{
  Daemon, Reading, insert_finalized, upsert_views, is_maintenance, maintain, share, scan, round,
}
use luci_app_overwatch.Recorder.{record_tick}
use luci_app_overwatch.Sample.{Sample}
use luci_app_overwatch.Snapshot.View.{ClientView}

-- The row of a key after some finalized minutes: the last one of the key, else what was there.
abbrev pub newest_row : Key → Option Traffic → List (Str × Sample) → Option Traffic
newest_row k old [] = old
newest_row k old ((mac, s) ∷ out) =
    newest_row k (ite (Key-discrete (s.ts, mac) k) (some (traffic_of s)) old) out

insert_finalized_min :
    (t : Tables) (out : List (Str × Sample)) (k : Key)
    → get k (insert_finalized t out).samples_min ≡ newest_row k (get k t.samples_min) out
unfolding insert_finalized insert_samples
insert_finalized_min t [] k = refl
insert_finalized_min t ((mac, s) ∷ out) k =
    let rows : Table = Maps.insert Key-discrete (s.ts, mac) (traffic_of s) t.samples_min in
    insert_finalized_min (record t { samples_min = rows }) out k
    ∙ ap (λ o. newest_row k o out)
        (Maps.lookup-upsert Key-discrete (s.ts, mac) k (λ _. traffic_of s) t.samples_min)

-- A roll-up leaves the minutes alone.
roll_days_min : (t : Tables) (o : Option Table) → (roll_days t o).0.samples_min ≡ t.samples_min
roll_days_min t none = refl
roll_days_min t (some d) = refl

rollup_min : (t : Tables) → (rollup t).0.samples_min ≡ t.samples_min
unfolding rollup
rollup_min t = go (rollup_tier 3600 t.samples_min t.samples_hour)
  where
    go : (o : Option Table) → (roll_hours t o).0.samples_min ≡ t.samples_min
    go none = refl
    go (some hours) = roll_days_min (record t { samples_hour = hours }) _

minutes_kept :
    (t : Tables) (now : ℤ) (r : Retention) (k : Key)
    → get k (prune t now r).samples_min ≡ kept (sub_i64 now r.min_secs) k.0 (get k t.samples_min)
minutes_kept t now r k = (lookup-prune t now r k (k.0, k.1, [])).0

maintain_min :
    (t : Tables) (r : Retention) (now last_maint : ℤ) (k : Key)
    → get k (maintain t r now last_maint).0.samples_min ≡ (
        if is_maintenance now last_maint
        then kept (sub_i64 now r.min_secs) k.0 (get k t.samples_min)
        else get k t.samples_min)
unfolding maintain
maintain_min t r now last_maint k = elim (Bool-cases (is_maintenance now last_maint)) [
  | inl b ↦ rw b (
      minutes_kept (rollup t).0 now r k
      ∙ ap (λ rows. kept (sub_i64 now r.min_secs) k.0 (get k rows)) (rollup_min t))
  | inr b ↦ rw b refl
]

-- What a round finalizes.
abbrev pub finalized_by : Shared → List ClientView → ℤ → List (Str × Sample)
finalized_by g snap now = (record_tick g.recorder snap now).1

-- After a round the table of minutes has, for every client and minute, the last one of it that the
-- recorder finalized in the round, else the row that it had; a round with maintenance keeps of them
-- those that are not older than the retention.
pub share_minutes :
    (g : Shared) (last_maint : ℤ) (snap : List ClientView) (now : ℤ) (k : Key)
    → let row = newest_row k (get k g.store.samples_min) (finalized_by g snap now) in
      get k (share g last_maint snap now).0.store.samples_min ≡ (
        if is_maintenance now last_maint
        then kept (sub_i64 now g.config.retention.min_secs) k.0 row
        else row)
unfolding share
share_minutes g last_maint snap now k =
    let inserted : Tables = insert_finalized g.store (finalized_by g snap now) in
    let seen : Tables = record inserted { clients = upsert_views inserted.clients snap now } in
    let row = insert_finalized_min g.store (finalized_by g snap now) k in
    maintain_min seen g.config.retention now last_maint k
    ∙ ap
        (λ o.
          if is_maintenance now last_maint
          then kept (sub_i64 now g.config.retention.min_secs) k.0 o
          else o)
        row

-- No row of any table of samples or counts is older than its retention.
pub record IsPruned (t : Tables) (now : ℤ) (r : Retention) : Type 0 where
  pub minutes : (k : Key) → ltb_ℤ k.0 (sub_i64 now r.min_secs) ≡ true → get k t.samples_min ≡ none
  pub hours : (k : Key) → ltb_ℤ k.0 (sub_i64 now r.hour_secs) ≡ true → get k t.samples_hour ≡ none
  pub days : (k : Key) → ltb_ℤ k.0 (sub_i64 now r.day_secs) ≡ true → get k t.samples_day ≡ none
  pub dns :
      (k : DnsKey)
      → ltb_ℤ k.0 (sub_i64 now r.dns_days) ≡ true
      → Maps.lookup DnsKey-discrete k t.dns_counts_day ≡ none

any_dns : Key → DnsKey
any_dns k = (k.0, k.1, [])

any_key : DnsKey → Key
any_key q = (q.0, q.1)

too_old :
    {V : Type 0} (limit ts : ℤ) (o : Option V) → ltb_ℤ ts limit ≡ true → kept limit ts o ≡ none
too_old limit ts o b = rw b refl

prune-IsPruned : (t : Tables) (now : ℤ) (r : Retention) → IsPruned (prune t now r) now r
prune-IsPruned t now r = record {
  minutes = λ k b.
      (lookup-prune t now r k (any_dns k)).0
      ∙ too_old (sub_i64 now r.min_secs) k.0 (get k t.samples_min) b;
  hours = λ k b.
      (lookup-prune t now r k (any_dns k)).1
      ∙ too_old (sub_i64 now r.hour_secs) k.0 (get k t.samples_hour) b;
  days = λ k b.
      (lookup-prune t now r k (any_dns k)).2
      ∙ too_old (sub_i64 now r.day_secs) k.0 (get k t.samples_day) b;
  dns = λ q b.
      (lookup-prune t now r (any_key q) q).3
      ∙ too_old (sub_i64 now r.dns_days) q.0 (Maps.lookup DnsKey-discrete q t.dns_counts_day) b;
}

no_gap : (now : ℤ) → ltb_ℤ (sub_i64 now now) (pos 300) ≡ true
unfolding sub_i64 ◌-ℤ◌
no_gap (pos n) = ground arith
no_gap (negsuc n) = ground arith

not_due : (n : ℤ) → leb_ℤ (pos 300) n ≡ false → ltb_ℤ n (pos 300) ≡ true
not_due n h = ground arith

share-IsPruned :
    (g : Shared) (last_maint : ℤ) (snap : List ClientView) (now : ℤ)
    → let r = share g last_maint snap now in
      (ltb_ℤ (sub_i64 now r.1) (pos 300) ≡ true)
      × ((r.1 ≡ last_maint) ⊎ ((r.1 ≡ now) × IsPruned r.0.store now g.config.retention))
unfolding share maintain is_maintenance
share-IsPruned g last_maint snap now = elim (Bool-cases (is_maintenance now last_maint)) [
  | inl b ↦ rw b (no_gap now, inr (refl, prune-IsPruned _ now g.config.retention))
  | inr b ↦ rw b (not_due (sub_i64 now last_maint) b, inl refl)
]

module _ (float : F64) (hash : End → End → ℕ → ℕ) (to_lowercase : Str → Str) where
  -- What a round leaves of a connection table that can be read.
  abbrev pub IsMaintained :
      Daemon float hash to_lowercase → Daemon float hash to_lowercase → ℤ → Type 0
  IsMaintained d d' now =
      (ltb_ℤ (sub_i64 now d'.last_maint) (pos 300) ≡ true)
      × ((d'.last_maint ≡ d.last_maint)
          ⊎ ((d'.last_maint ≡ now) × IsPruned d'.shared.store now d.shared.config.retention))

  -- After a round that reads the connection table, the last maintenance is less than 300 seconds back.
  -- Either it is the one that it was before, or it is this round's, and then no table of samples or
  -- counts has a row that is older than the configured retention, whether the roll-up succeeded or
  -- not. A round that cannot read the table changes nothing, so that maintenance waits as long as
  -- the table cannot be read.
  pub round-IsMaintained :
      (d : Daemon float hash to_lowercase) (r : Reading float hash to_lowercase)
      → let d' = round float hash to_lowercase d r in
        ((r.conntrack ≡ none) × (d' ≡ d))
        ⊎ ((table : Str) × (r.conntrack ≡ some table) × IsMaintained d d' r.now_i)
  unfolding round
  round-IsMaintained d r = elim (Option-cases r.conntrack) [
    | inl e ↦ inl (e, rw e refl)
    | inr (table, e) ↦
        let snap = (scan float hash to_lowercase d.acct table r).1 in
        inr (table, e, rw e (share-IsPruned d.shared d.last_maint snap r.now_i))
  ]
