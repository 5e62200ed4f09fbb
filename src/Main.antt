-- ===== src/Main.antt =====
-- src/main.rs: the daemon's start, and the rounds of its loop over the connection table. Reading files,
-- the clock and printing are the operating system's: a round gets what they deliver. Of the errors of
-- the database only those that its rows bring about are modelled.
pub mod Round
pub mod Seen
pub mod Sound
pub mod Reached
mod Tests
use luci_app_overwatch.Base.{
  ℕ, max, Bool, true, false, List, [], ◌∷◌, Option, none, some, if◌then◌else◌,
}
use luci_app_overwatch.Base.Float.{F64}
use luci_app_overwatch.Base.Int.{ℤ, pos, sub_i64, leb_ℤ}
use luci_app_overwatch.Base.Text.{Str}
use luci_app_overwatch.Account
use luci_app_overwatch.Account.{Accountant, update}
use luci_app_overwatch.Config.{Config, Retention, parse_uci, default_config}
use luci_app_overwatch.Control.{Shared}
use luci_app_overwatch.Db.{Tables, Client, insert_samples, upsert_client, rollup, prune}
use luci_app_overwatch.Flow.{End, parse_all}
use luci_app_overwatch.Names.{from_text}
use luci_app_overwatch.Probe.{gather}
use luci_app_overwatch.Recorder
use luci_app_overwatch.Recorder.{Recorder, record_tick}
use luci_app_overwatch.Sample.{Sample}
use luci_app_overwatch.Snapshot.{build_snapshot}
use luci_app_overwatch.Snapshot.View.{ClientView}

-- `for (mac, sample) in &finalized { … }`
unfoldable pub insert_finalized : Tables → List (Str × Sample) → Tables
insert_finalized t [] = t
insert_finalized t ((mac, s) ∷ out) =
    insert_finalized (record t { samples_min = insert_samples t.samples_min mac (s ∷ []) }) out

-- `for v in &snap { … }`
unfoldable pub upsert_views : List (Str × Client) → List ClientView → ℤ → List (Str × Client)
upsert_views clients [] now = clients
upsert_views clients (v ∷ vs) now =
    upsert_views (upsert_client clients v.mac v.host v.ip now) vs now

-- `now_i - last_maint >= 300`
unfoldable pub is_maintenance : ℤ → ℤ → Bool
is_maintenance now last_maint = leb_ℤ (pos 300) (sub_i64 now last_maint)

-- A roll-up that fails does not keep the daemon from pruning.
unfoldable pub maintain : Tables → Retention → ℤ → ℤ → Tables × ℤ
unfolding is_maintenance
maintain t retention now last_maint =
    if is_maintenance now last_maint
    then (prune (rollup t).0 now retention, now)
    else (t, last_maint)

-- The block under the lock, with the snapshot that it is about; the second part is `last_maint`.
unfoldable pub share : Shared → ℤ → List ClientView → ℤ → Shared × ℤ
unfolding maintain
share g last_maint snap now =
    let (recorder, finalized) = record_tick g.recorder snap now in
    let inserted = insert_finalized g.store finalized in
    let seen = record inserted { clients = upsert_views inserted.clients snap now } in
    let (store, last) = maintain seen g.config.retention now last_maint in
    (record g { recorder = recorder; store = store; clients = snap }, last)

-- `Duration::from_secs(cfg.sample_interval.max(1))`
unfoldable pub interval_of : Config → ℕ
interval_of cfg = max cfg.sample_interval 1

-- The settings: the defaults without a file.
unfoldable pub config_of : Option Str → Config
config_of none = default_config
config_of (some t) = parse_uci t

module _ (float : F64) (hash : End → End → ℕ → ℕ) (to_lowercase : Str → Str) where
  open float use {F}

  -- The loop's variables and what it shares.
  pub record Daemon : Type 0 where
    pub acct : Accountant float
    pub last_maint : ℤ
    pub shared : Shared

  -- What a round gets from outside: the connection table, unless reading it fails, the time as
  -- `update` and as the rest of the round read it, and the texts of the leases and the ARP table.
  pub record Reading : Type 0 where
    pub conntrack : Option Str
    pub now_secs : F
    pub now_i : ℤ
    pub leases : Str
    pub arp : Str

  -- The start, on the tables of the database, with the settings' file and what the probes read.
  unfoldable pub start : Option Str → Tables → Str → Bool → Str → Daemon
  start conf tables acct btf modules =
      let cfg = config_of conf in
      record {
        acct = Account.new float (record { prefixes = cfg.lan_prefixes });
        last_maint = pos 0;
        shared = record {
          clients = [];
          recorder = Recorder.new 300 1440;
          store = tables;
          config = cfg;
          probes = gather acct btf modules;
        };
      }

  -- The snapshot of a round that reads a connection table.
  unfoldable pub scan : Accountant float → Str → Reading → Accountant float × List ClientView
  scan acct table r =
      let acct' = update float acct (parse_all hash table) r.now_secs in
      (acct', build_snapshot acct'.stats (from_text to_lowercase r.leases r.arp))

  abbrev pub after_scan : Daemon → ℤ → Accountant float × List ClientView → Daemon
  after_scan d now (acct, snap) =
      let (shared, last) = share d.shared d.last_maint snap now in
      record { acct = acct; last_maint = last; shared = shared }

  -- A table that cannot be read is reported, and nothing else happens.
  abbrev pub round_on : Daemon → Reading → Option Str → Daemon
  round_on d r none = d
  round_on d r (some table) = after_scan d r.now_i (scan d.acct table r)

  unfoldable pub round : Daemon → Reading → Daemon
  unfolding scan share
  round d r = round_on d r r.conntrack
